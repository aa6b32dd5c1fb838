-- ===== src/RtpTime/Exact.antt =====
-- `multiplyAndDivide` is exact, and the encoder starts from its initial timestamp.
use native.Mathlib.Nat.{
  mul_assoc, mul_comm, add-mul, div-add-mod', mul-add-div_right, mod-lt, div-mul-le_self,
  mul-le-mul_left, mul-le-mul,
}
use gortsplib.Common.{
  ℕ, ◌+◌, ◌*◌, ◌/◌, ◌%◌, ◌<◌, ◌≤◌, ◌≡◌, refl, sym, ap, ap₂, ◌∙◌, Option, some, arith,
}
use gortsplib.Common.Words.{u32, u64, IsU32}
use gortsplib.RtpTime.{
  divide, remainder, multiply_and_divide, second, div_ceil, TimeEncoder, initialize, encode_time,
}

-- The quotient of a product, by the quotient and the remainder of one factor.
quotient_parts : (v m d : ℕ) → 0 < d → v / d * m + v % d * m / d ≡ v * m / d
quotient_parts v m d h = sym (mul-add-div_right h (v / d * m) (v % d * m)) ∙ ap (λ x. x / d) product
  where
    product : v / d * m * d + v % d * m ≡ v * m
    product =
        ap (λ x. x + v % d * m)
          (mul_assoc (v / d) m d ∙ ap (λ x. v / d * x) (mul_comm m d) ∙ sym (mul_assoc (v / d) d m))
        ∙ sym (add-mul (v / d * d) (v % d) m)
        ∙ ap (λ x. x * m) (div-add-mod' v d)

u64_small : (n : ℕ) → n < 18446744073709551616 → u64 n ≡ n
u64_small n h = omega arith

u64_from_zero : (n : ℕ) → n < 18446744073709551616 → u64 (0 + n) ≡ n
u64_from_zero n h = omega arith

divide_small : (v d : ℕ) → v < 9223372036854775808 → divide v d ≡ v / d
divide_small v d h = ground arith

remainder_small : (v d : ℕ) → v < 9223372036854775808 → remainder v d ≡ v % d
remainder_small v d h = ground arith

-- Where neither the result nor a product in it overflows, `multiplyAndDivide` of a number that is
-- not negative is the quotient of the product, rounded down.
pub multiply_and_divide_exact :
    (v m d : ℕ)
    → 0 < d
    → v < 9223372036854775808
    → v % d * m < 9223372036854775808
    → v * m / d < 9223372036854775808
    → multiply_and_divide v m d ≡ v * m / d
unfolding multiply_and_divide
multiply_and_divide_exact v m d h hv hr hq =
    let p = quotient_parts v m d h in
    ap₂ (λ x y. u64 (x + y)) (whole p) part ∙ ap u64 p ∙ u64_small (v * m / d) (omega (arith, hq))
  where
    whole : v / d * m + v % d * m / d ≡ v * m / d → u64 (divide v d * m) ≡ v / d * m
    whole p =
        ap (λ x. u64 (x * m)) (divide_small v d hv) ∙ u64_small (v / d * m) (omega (arith, p, hq))

    part : divide (u64 (remainder v d * m)) d ≡ v % d * m / d
    part =
        ap (λ x. divide (u64 (x * m)) d) (remainder_small v d hv)
        ∙ ap (λ x. divide x d) (u64_small (v % d * m) (omega (arith, hr)))
        ∙ divide_small (v % d * m) d hr

-- The duration of the initial timestamp, rounded up to nanoseconds.
div_ceil_bounds : (n d : ℕ) → 0 < d → (n ≤ div_ceil n d * d) × (div_ceil n d * d < n + d)
unfolding div_ceil
div_ceil_bounds n d h =
    let e = div-add-mod' n d in
    let b = mod-lt n h in let s = add-mul (n / d) 1 d in ground (arith, e, b, s)

div_ceil_le : (n d : ℕ) → 0 < d → div_ceil n d ≤ n + 1
unfolding div_ceil
div_ceil_le n d h =
    let a = mul-le-mul_left (n / d) h in let b = div-mul-le_self n d in ground (arith, a, b)

mod-lt_le : (n : ℕ) → n % second ≤ second
mod-lt_le n = omega arith

-- The ticks of the rounded duration.
ticks_of_ceil :
    (rate t : ℕ)
    → 0 < rate
    → rate ≤ second
    → IsU32 t
    → multiply_and_divide (div_ceil (t * second) rate) rate second ≡ t
ticks_of_ceil rate t h k u =
    let (low, high) = div_ceil_bounds (t * second) rate h in
    let le = div_ceil_le (t * second) rate h in
    let c = div_ceil (t * second) rate in
    let part = mul-le-mul (mod-lt_le c) k in
    multiply_and_divide_exact c rate second (omega arith) (omega (arith, le, u))
      (omega (arith, part)) (omega (arith, high, u, k))
    ∙ omega (arith, low, high, u, k)

-- An encoder gives its initial timestamp for the time 0, if its clock has at most one tick in each
-- nanosecond.
pub encode_time-initialize :
    (rate t : ℕ) (random : Option ℕ)
    → 0 < rate
    → rate ≤ second
    → IsU32 t
    → (e : TimeEncoder) × (initialize rate (some t) random ≡ some e) × (encode_time e 0 ≡ t)
unfolding initialize encode_time
encode_time-initialize rate t random h k u = (_, refl, start)
  where
    whole : u64 (t * second) ≡ t * second
    whole = u64_small (t * second) (omega (arith, u))

    small : u64 (0 + div_ceil (t * second) rate) ≡ div_ceil (t * second) rate
    small =
        u64_from_zero (div_ceil (t * second) rate)
          (let le = div_ceil_le (t * second) rate h in omega (arith, le, u))

    start : u32 (multiply_and_divide (u64 (0 + div_ceil (u64 (t * second)) rate)) rate second) ≡ t
    start =
        ap (λ n. u32 (multiply_and_divide (u64 (0 + div_ceil n rate)) rate second)) whole
        ∙ ap (λ c. u32 (multiply_and_divide c rate second)) small
        ∙ ap u32 (ticks_of_ceil rate t h k u)
        ∙ omega (arith, u)
