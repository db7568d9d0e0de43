-- ===== src/Identifier/Grammar.antt =====
-- Which texts `PgIdentifier::new` accepts (src/postgres/identifier.rs).
use Prim.Native.String.{[], ◌∷◌, ◌++◌}
use soap_sqlx.Prelude.{
  ℕ, ◌≤◌, ◌≡◌, ◌↔◌, ◌⊎◌, code, String, true, ◌||◌, ok, err, arith, refl, ◌==◌, Result-cases, inl,
  inr,
}
use soap_sqlx.External.{External, validation}
use soap_sqlx.Identifier.{PgIdentifier, is_ascii_alphabetic, is_ascii_alphanumeric, all_tail, new}

abbrev pub IsLetter : ℕ → Type 0
IsLetter c = ((b'a' ≤ c) × (c ≤ b'z')) ⊎ ((b'A' ≤ c) × (c ≤ b'Z'))

-- The first character: a letter or an underscore.
abbrev pub IsStart : ℕ → Type 0
IsStart c = (c ≡ b'_') ⊎ IsLetter c

-- A later character: also a digit.
abbrev pub IsWord : ℕ → Type 0
IsWord c = (c ≡ b'_') ⊎ (IsLetter c ⊎ ((b'0' ≤ c) × (c ≤ b'9')))

abbrev pub AllWord : String → Type 0
AllWord [] = Unit
AllWord (c ∷ s) = IsWord (code c) × AllWord s

-- The grammar `[A-Za-z_][A-Za-z0-9_]*`.
abbrev pub IsIdentifier : String → Type 0
IsIdentifier [] = ⊥
IsIdentifier (c ∷ s) = IsStart (code c) × AllWord s

IsStart-iff : (c : ℕ) → ((c == b'_' || is_ascii_alphabetic c) ≡ true) ↔ IsStart c
unfolding is_ascii_alphabetic
IsStart-iff c = ground arith

IsWord-iff : (c : ℕ) → ((c == b'_' || is_ascii_alphanumeric c) ≡ true) ↔ IsWord c
unfolding is_ascii_alphanumeric
IsWord-iff c = ground arith

all_tail_iff : (s : String) → (all_tail s ≡ true) ↔ AllWord s
unfolding all_tail
all_tail_iff [] = (λ _. tt, λ _. refl)
all_tail_iff (c ∷ s) = ground (arith, IsWord-iff (code c), all_tail_iff s)

-- `PgIdentifier::new` accepts exactly the texts of the grammar [A-Za-z_][A-Za-z0-9_]* and keeps
-- the text as it is.
pub new_iff :
    (x : External) (s : String) (i : PgIdentifier)
    → (new x s ≡ ok i) ↔ (IsIdentifier s × (i.text ≡ s))
unfolding new
new_iff x [] i = ground arith
new_iff x (c ∷ s) i = ground (arith, IsStart-iff (code c), all_tail_iff s)

-- Every text outside the grammar is refused with a validation error.
kind-new :
    (x : External) (s : String)
    → ¬ IsIdentifier s
    → (e : x.SoapError) × (new x s ≡ err e) × (x.kind e ≡ validation)
unfolding new
kind-new x [] h =
    (x.error validation "PostgreSQL identifier cannot be empty", refl, x.kind-error _ _)
kind-new x (c ∷ s) h = (
  x.error validation ("invalid PostgreSQL identifier `" ++ ((c ∷ s) ++ "`")),
  ground (arith, IsStart-iff (code c), all_tail_iff s),
  x.kind-error _ _,
)

-- `PgIdentifier::new` accepts a text of the grammar [A-Za-z_][A-Za-z0-9_]* and keeps it as it is,
-- and refuses every other text with a validation error.
pub new_cases :
    (x : External) (s : String)
    → (IsIdentifier s × (new x s ≡ ok (record { text = s })))
      ⊎ ((¬ IsIdentifier s) × (e : x.SoapError) × (new x s ≡ err e) × (x.kind e ≡ validation))
new_cases x s = elim (Result-cases (new x s)) [
  | inl (i, made) ↦
      let (good, same) = (new_iff x s i).0 made in
      inl (good, (new_iff x s (record { text = s })).1 (good, refl))
  | inr (e, failed) ↦
      let bad : ¬ IsIdentifier s =
        λ good. let made = (new_iff x s (record { text = s })).1 (good, refl) in cc in
      let (e', refused, kind) = kind-new x s bad in inr (bad, e', refused, kind)
]
