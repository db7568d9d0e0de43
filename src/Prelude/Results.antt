-- ===== src/Prelude/Results.antt =====
-- Rust's `Result`, with `?` as the bind of a `do` block.
use mathlib.Core.Path.{◌≡◌, refl, Path}
use mathlib.Core.Logic.{◌⊎◌, ◌↔◌, inl, inr}
use mathlib.Core.Option.{Option, none, some}
use mathlib.Core.Bool.{Bool, true, false}
use mathlib.Core.List.{List, [], ◌∷◌}
use soap_sqlx.Prelude.Lists.{All}

pub data Result (E : Type 0) (A : Type 0) : Type 0 where
  ok : A → Result E A
  err : E → Result E A

module _ {E A B : Type 0} where
  infixl 5 ◌>>=◌
  abbrev pub ◌>>=◌ : Result E A → (A → Result E B) → Result E B
  err failure >>= next = err failure
  ok value >>= next = next value

  abbrev pub map_ok : (A → B) → Result E A → Result E B
  map_ok f (err failure) = err failure
  map_ok f (ok value) = ok (f value)

  -- A chain that fails has failed at its first step or, after that one, at the rest.
  pub >>=-eq-err :
      (r : Result E A) (next : A → Result E B) {failure : E}
      → (r >>= next) ≡ err failure
      → (r ≡ err failure) ⊎ ((value : A) × (r ≡ ok value) × (next value ≡ err failure))
  >>=-eq-err (err failure) next failed = inl (cc)
  >>=-eq-err (ok value) next failed = inr (value, refl, failed)

  -- A chain that succeeds has succeeded at each step.
  pub >>=-eq-ok :
      (r : Result E A) (next : A → Result E B) {final : B}
      → (r >>= next) ≡ ok final
      → (value : A) × (r ≡ ok value) × (next value ≡ ok final)
  >>=-eq-ok (err failure) next done = cc
  >>=-eq-ok (ok value) next done = (value, refl, done)

infixl 5 ◌>>◌
abbrev pub ◌>>◌ : {E B : Type 0} → Result E (Unit {0}) → Result E B → Result E B
check >> rest = check >>= λ _. rest

module _ {E F : Type 0} {A : Type 0} where
  abbrev pub map_err : (E → F) → Result E A → Result F A
  map_err f (ok a) = ok a
  map_err f (err e) = err (f e)

  pub map_err-eq-ok : (f : E → F) (r : Result E A) {a : A} → map_err f r ≡ ok a → r ≡ ok a
  map_err-eq-ok f (ok a) h = cc
  map_err-eq-ok f (err e) h = cc

  pub map_err-eq-err :
      (f : E → F) (r : Result E A) {d : F} → map_err f r ≡ err d → (e : E) × (r ≡ err e) × (d ≡ f e)
  map_err-eq-err f (ok a) h = cc
  map_err-eq-err f (err e) h = (e, refl, cc)

module _ {E : Type 0} {A : Type 0} where
  abbrev pub ok_or : Option A → E → Result E A
  ok_or (some a) e = ok a
  ok_or none e = err e

  abbrev pub is_ok_and : (A → Bool) → Result E A → Bool
  is_ok_and p (ok a) = p a
  is_ok_and p (err e) = false

  pub ok-injective : {a b : A} → Path (Result E A) (ok a) (ok b) → a ≡ b
  ok-injective h = cc

  pub Result-cases : (r : Result E A) → ((a : A) × (r ≡ ok a)) ⊎ ((e : E) × (r ≡ err e))
  Result-cases (ok a) = inl (a, refl)
  Result-cases (err e) = inr (e, refl)

  abbrev pub Succeeds : Result E A → Type 0
  Succeeds r = (a : A) × (r ≡ ok a)

pub is_ok_and-Succeeds :
    {E A : Type 0} (p : A → Bool) (r : Result E A) → is_ok_and p r ≡ true → Succeeds r
is_ok_and-Succeeds p (err failure) h = cc
is_ok_and-Succeeds p (ok value) h = (value, refl)

module _ {E A B : Type 0} where
  pub bind-Succeeds :
      (r : Result E A) (next : A → Result E B)
      → Succeeds (r >>= next) ↔ ((value : A) × (r ≡ ok value) × Succeeds (next value))
  bind-Succeeds (err failure) next = (λ s. cc, λ s. cc)
  bind-Succeeds (ok value) next =
      (λ s. (value, refl, s), λ (b, same, s). let e : value ≡ b = cc in rw e s)

  -- A step that cannot fail at the end changes nothing.
  pub then-Succeeds :
      (r : Result E A) (f : A → B) → Succeeds (r >>= λ value. ok (f value)) ↔ Succeeds r
  then-Succeeds (err failure) f = (λ s. cc, λ s. cc)
  then-Succeeds (ok value) f = (λ _. (value, refl), λ _. (f value, refl))

-- `iter().map(f).collect::<Result<Vec<_>, _>>()`.
abbrev pub collect : {E A B : Type 0} → (A → Result E B) → List A → Result E (List B)
collect f [] = ok []
collect f (item ∷ items) = f item >>= λ value. collect f items >>= λ values. ok (value ∷ values)

pub collect-Succeeds :
    {E A B : Type 0} (f : A → Result E B) (items : List A)
    → All (λ item. Succeeds (f item)) items
    → Succeeds (collect f items)
collect-Succeeds f [] h = ([], refl)
collect-Succeeds f (item ∷ items) ((value, made), rest) =
    let (values, collected) = collect-Succeeds f items rest in
    (value ∷ values, rw (made, collected) refl)
