-- ===== src/Common/Cases.antt =====
-- To prove a property of branching code: one proof for each branch, with the equation of the test.
use mathlib.Core.Path.{◌≡◌, refl, sym, subst}
use mathlib.Core.Bool.{Bool, true, false}
use mathlib.Core.Option.{Option, none, some}
use gortsplib.Common.Tests.{if◌then◌else◌, none-ne-some, some-inj}

pub if_case :
    {A : Type 0} (P : A → Type 0) (b : Bool) {x y : A}
    → (b ≡ true → P x)
    → (b ≡ false → P y)
    → P (if b then x else y)
if_case P true f g = f refl
if_case P false f g = g refl

pub option_case :
    {A B : Type 0} (P : B → Type 0) (o : Option A) {n : B} {f : A → B}
    → (o ≡ none → P n)
    → ((x : A) → o ≡ some x → P (f x))
    → P (elim o [ none ↦ n | some x ↦ f x ])
option_case P none g h = g refl
option_case P (some x) g h = h x refl

-- The branch of a value that is known.
pub some_case :
    {A B : Type 0} (P : B → Type 0) (o : Option A) {x : A} (n : B) (f : A → B)
    → o ≡ some x
    → P (f x)
    → P (elim o [ none ↦ n | some y ↦ f y ])
some_case P none n f e p = absurd (none-ne-some e)
some_case P (some y) n f e p = subst (λ z. P (f z)) (some-inj (sym e)) p
