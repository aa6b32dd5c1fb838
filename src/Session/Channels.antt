-- ===== src/Session/Channels.antt =====
-- `isChannelPairInUse` and `findFreeChannelPair` of server_session.go.
use gortsplib.Common.{
  ℕ, zero, suc, ◌+◌, ◌*◌, ◌≤◌, ◌<◌, ◌≡◌, refl, Bool, true, false, ◌==◌, ◌||◌, Bool-cases, inl, inr,
  Option, none, some, List, [], ◌∷◌, ◌++◌, length, if◌then◌else◌, dec_lt, arith,
}
use gortsplib.Session.{SessionMedia}

unfoldable pub is_channel_pair_in_use : List SessionMedia → ℕ → Bool
is_channel_pair_in_use [] channel = false
is_channel_pair_in_use (sm ∷ sms) channel =
    (sm.tcp_channel + 1 == channel || (sm.tcp_channel == channel || sm.tcp_channel == channel + 1))
    || is_channel_pair_in_use sms channel

-- The loop of `findFreeChannelPair`, which has no bound; `none` says that it did not end in the given
-- rounds.
unfoldable pub find_loop : ℕ → List SessionMedia → ℕ → Option ℕ
find_loop zero sms i = none
find_loop (suc k) sms i =
    let rest = find_loop k sms (i + 2) in if is_channel_pair_in_use sms i then rest else some i

-- A media takes part of two even pairs at most, so `2 * length + 1` rounds are enough.
unfoldable pub find_free_channel_pair : List SessionMedia → Option ℕ
unfolding find_loop is_channel_pair_in_use
find_free_channel_pair sms = find_loop (2 * length sms + 1) sms 0

-- Of the next `k` pairs from `i` on, in steps of two, those that a media with the channel `t` uses.
abbrev uses : ℕ → ℕ → Bool
uses t i = t + 1 == i || (t == i || t == i + 1)

abbrev used_by : ℕ → ℕ → ℕ → ℕ
used_by t zero i = 0
used_by t (suc k) i = (if uses t i then 1 else 0) + used_by t k (i + 2)

used_by_past : (t k i : ℕ) → t + 1 < i → used_by t k i ≡ 0
used_by_past t zero i h = refl
used_by_past t (suc k) i h =
    let rest = used_by_past t k (i + 2) (omega arith) in ground (arith, rest)

used_by_from : (t k i : ℕ) → t ≤ i → used_by t k i ≤ 1
used_by_from t zero i h = omega arith
used_by_from t (suc k) i h =
    let rest = used_by_past t k (i + 2) (omega arith) in ground (arith, rest)

used_by_bound : (t k i : ℕ) → used_by t k i ≤ 2
used_by_bound t zero i = omega arith
used_by_bound t (suc k) i =
    let rest = used_by_bound t k (i + 2) in
    elim (dec_lt (i + 1) t) [
      | yes h ↦ ground (arith, rest, h)
      | no h ↦ let last = used_by_from t k (i + 2) (omega arith) in ground (arith, last)
    ]

abbrev used_pairs : List SessionMedia → ℕ → ℕ → ℕ
used_pairs sms zero i = 0
used_pairs sms (suc k) i =
    (if is_channel_pair_in_use sms i then 1 else 0) + used_pairs sms k (i + 2)

used_pairs_nil : (k i : ℕ) → used_pairs [] k i ≡ 0
unfolding is_channel_pair_in_use
used_pairs_nil zero i = refl
used_pairs_nil (suc k) i = omega (arith, used_pairs_nil k (i + 2))

used_pairs_cons :
    (sm : SessionMedia) (sms : List SessionMedia) (k i : ℕ)
    → used_pairs (sm ∷ sms) k i ≤ used_by sm.tcp_channel k i + used_pairs sms k i
unfolding is_channel_pair_in_use
used_pairs_cons sm sms zero i = omega arith
used_pairs_cons sm sms (suc k) i =
    let rest = used_pairs_cons sm sms k (i + 2) in ground (arith, rest)

used_pairs_bound : (sms : List SessionMedia) (k i : ℕ) → used_pairs sms k i ≤ 2 * length sms
used_pairs_bound [] k i = omega (arith, used_pairs_nil k i)
used_pairs_bound (sm ∷ sms) k i =
    omega (
      arith,
      used_pairs_cons sm sms k i,
      used_by_bound sm.tcp_channel k i,
      used_pairs_bound sms k i,
    )

-- The first pair, from `i` on, that is not in use.
record Free (sms : List SessionMedia) (k i : ℕ) : Type 0 where
  pair : ℕ
  result_is : find_loop k sms i ≡ some pair
  free : is_channel_pair_in_use sms pair ≡ false
  even : (n : ℕ) × (pair ≡ i + 2 * n)

find_loop_free :
    (sms : List SessionMedia) (k i : ℕ)
    → is_channel_pair_in_use sms i ≡ false
    → find_loop (suc k) sms i ≡ some i
unfolding find_loop
find_loop_free sms k i e = ground (arith, e)

find_loop_used :
    (sms : List SessionMedia) (k i : ℕ) {p : ℕ}
    → is_channel_pair_in_use sms i ≡ true
    → find_loop k sms (i + 2) ≡ some p
    → find_loop (suc k) sms i ≡ some p
unfolding find_loop
find_loop_used sms k i e f = ground (arith, e, f)

find_loop-Free : (sms : List SessionMedia) (k i : ℕ) → used_pairs sms k i < k → Free sms k i
find_loop-Free sms zero i h = absurd (omega arith)
find_loop-Free sms (suc k) i h = elim (Bool-cases (is_channel_pair_in_use sms i)) [
  | inr free ↦ record {
    pair = i;
    result_is = find_loop_free sms k i free;
    free = free;
    even = (0, omega arith);
  }
  | inl used ↦
      let r = find_loop-Free sms k (i + 2) (ground (arith, used)) in
      record {
        pair = r.pair;
        result_is = find_loop_used sms k i used r.result_is;
        free = r.free;
        even = (suc r.even.0, omega (arith, r.even.1));
      }
]

-- `findFreeChannelPair` ends, and what it gives is an even channel whose pair is not in use.
pub find_free_channel_pair-is_free :
    (sms : List SessionMedia)
    → (channel n : ℕ) × (find_free_channel_pair sms ≡ some channel)
      × (channel ≡ 2 * n)
      × (is_channel_pair_in_use sms channel ≡ false)
find_free_channel_pair-is_free sms =
    let r =
      find_loop-Free sms (2 * length sms + 1) 0
        (omega (arith, used_pairs_bound sms (2 * length sms + 1) 0)) in
    (
      r.pair,
      r.even.0,
      unfold find_free_channel_pair in r.result_is,
      omega (arith, r.even.1),
      r.free,
    )

-- No two medias share a channel.
abbrev pub Apart : List SessionMedia → Type 0
Apart [] = Unit
Apart (sm ∷ sms) = (is_channel_pair_in_use sms sm.tcp_channel ≡ false) × Apart sms

in_use-append :
    (sms : List SessionMedia) (x y : SessionMedia)
    → is_channel_pair_in_use sms x.tcp_channel ≡ false
    → is_channel_pair_in_use (x ∷ []) y.tcp_channel ≡ false
    → is_channel_pair_in_use (sms ++ (y ∷ [])) x.tcp_channel ≡ false
unfolding is_channel_pair_in_use
in_use-append [] x y h k = ground (arith, k)
in_use-append (sm ∷ sms) x y h k =
    let rest = in_use-append sms x y (ground (arith, h)) k in ground (arith, h, rest)

-- A media on a pair that is not in use stays apart from the others.
pub Apart-append :
    (sms : List SessionMedia) (sm : SessionMedia)
    → Apart sms
    → is_channel_pair_in_use sms sm.tcp_channel ≡ false
    → Apart (sms ++ (sm ∷ []))
unfolding is_channel_pair_in_use
Apart-append [] sm a h = (refl, tt)
Apart-append (x ∷ xs) sm (ax, axs) h =
    (in_use-append xs x sm ax (ground (arith, h)), Apart-append xs sm axs (ground (arith, h)))
