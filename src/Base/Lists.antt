-- ===== src/Base/Lists.antt =====
-- Lists over the native numbers, predicates on lists, and Python's `in`.
use Prim.Native.Nat.{ℕ, suc, ◌+◌}
use Prim.Native.String.{String}
use mathlib.Core.Path.{◌≡◌, refl, subst}
use mathlib.Core.Logic.{inl, inr}
use mathlib.Core.Bool.{Bool, true, false, ◌||◌}
use mathlib.Core.List.{List, [], ◌∷◌, ◌++◌}
use native.Mathlib.Omega.{arith}
use text.Mathlib.Text.{◌==◌}
use text.Mathlib.TextEquality.{eq_iff}
use text.Mathlib.TextPositions.{eq_refl}
use project4_sentinel_ai_scr.Base.Tests.{if◌then◌else◌, Bool-cases}

module _ {ℓ} {A : Type ℓ} where
  abbrev pub length : List A → ℕ
  length [] = 0
  length (x ∷ xs) = suc (length xs)

  pub length-append : (xs ys : List A) → length (xs ++ ys) ≡ length xs + length ys
  length-append [] ys = omega arith
  length-append (x ∷ xs) ys = omega (arith, length-append xs ys)

  -- `[x for x in xs if p(x)]`
  unfoldable pub select : (A → Bool) → List A → List A
  select p [] = []
  select p (x ∷ xs) = let rest = select p xs in if p x then x ∷ rest else rest

-- `x in xs` at texts
abbrev pub contains : List String → String → Bool
contains [] a = false
contains (x ∷ xs) a = x == a || contains xs a

abbrev pub All {ℓ κ} : {A : Type ℓ} → (A → Type κ) → List A → Type κ
All P [] = Unit
All P (x ∷ xs) = P x × All P xs

-- What holds of all texts of a list holds of one that is in it.
pub All-contains :
    (P : String → Type 0) (xs : List String) (a : String) → All P xs → contains xs a ≡ true → P a
All-contains P [] a all h = absurd (cc h)
All-contains P (x ∷ xs) a (p, rest) h = elim (Bool-cases (x == a)) [
  | inl e ↦ subst P ((eq_iff x a).0 e) p
  | inr e ↦ All-contains P xs a rest (rw e at h)
]

-- What holds of each text that is in a list holds of all of the list.
pub All-of_contains :
    (P : String → Type 0) (xs : List String)
    → ((a : String) → contains xs a ≡ true → P a)
    → All P xs
All-of_contains P [] h = tt
All-of_contains P (x ∷ xs) h =
    (h x (rw (eq_refl x) refl), All-of_contains P xs (λ a e. h a (ground (arith, e))))
