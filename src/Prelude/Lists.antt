-- ===== src/Prelude/Lists.antt =====
-- Lists measured and indexed by the native numbers, and predicates over lists.
use Prim.Native.Nat.{ℕ, zero, suc, ◌+◌}
use mathlib.Core.Path.{◌≡◌}
use mathlib.Core.Bool.{Bool, true, false}
use mathlib.Core.List.{List, [], ◌∷◌, ◌++◌}
use mathlib.Core.Option.{Option, none, some}
use mathlib.Core.Logic.{inl, inr}
use native.Mathlib.Omega.{arith}
use soap_sqlx.Prelude.Tests.{Bool-cases}

module _ {ℓ} {A : Type ℓ} where
  abbrev pub length : List A → ℕ
  length [] = 0
  length (x ∷ xs) = suc (length xs)

  abbrev pub get_elem? : List A → ℕ → Option A
  get_elem? [] i = none
  get_elem? (x ∷ xs) zero = some x
  get_elem? (x ∷ xs) (suc i) = get_elem? xs i

  abbrev pub is_empty : List A → Bool
  is_empty [] = true
  is_empty (_ ∷ _) = false

  abbrev pub filter : (A → Bool) → List A → List A
  filter p [] = []
  filter p (x ∷ xs) = elim (p x) [ true ↦ x ∷ filter p xs | false ↦ filter p xs ]

  pub length-append : (xs ys : List A) → length (xs ++ ys) ≡ length xs + length ys
  length-append [] ys = omega arith
  length-append (x ∷ xs) ys = omega (arith, length-append xs ys)

module _ {ℓ κ} {A : Type ℓ} (P : A → Type κ) where
  abbrev pub All : List A → Type κ
  All [] = Unit
  All (x ∷ xs) = P x × All xs

  pub All-append : (xs ys : List A) → All xs → All ys → All (xs ++ ys)
  All-append [] ys hx hy = hy
  All-append (x ∷ xs) ys (h, hs) hy = (h, All-append xs ys hs hy)

  -- What passes a test that is enough for `P` is all `P`.
  pub All-filter : (q : A → Bool) → ((a : A) → q a ≡ true → P a) → (xs : List A) → All (filter q xs)
  All-filter q enough [] = tt
  All-filter q enough (x ∷ xs) = elim (Bool-cases (q x)) [
    | inl here ↦ rw (here, filter) (enough x here, All-filter q enough xs)
    | inr skip ↦ rw (skip, filter) (All-filter q enough xs)
  ]

pub All-map {ℓ κ ι} :
    {A : Type ℓ} {P : A → Type κ} (Q : A → Type ι)
    → ((a : A) → P a → Q a)
    → (xs : List A) → All P xs
    → All Q xs
All-map Q f [] h = tt
All-map Q f (x ∷ xs) (h, hs) = (f x h, All-map Q f xs hs)
