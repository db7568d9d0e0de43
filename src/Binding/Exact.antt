-- ===== src/Binding/Exact.antt =====
-- Which values a column takes as bindings, and that numbers keep their value
-- (src/postgres/compiler.rs).
use Prim.Native.String.{[], ◌∷◌}
use text.Mathlib.TextLemmas.{nil-append, cons-append}
use soap_sqlx.Prelude.{
  ℕ, ℤ, pos, negsuc, zero, suc, code, String, ◌≡◌, refl, ◌↔◌, Option, none, some, ok, arith,
  Result-cases, inl, inr, nat_to_string, int_to_string, read_from, read_from-nat_to_string,
  nat_to_string-IsNumeral, IsNumeral, >>=-eq-ok, ◌==◌, if◌then◌else◌, Succeeds,
}
use soap_sqlx.External.{External}
use soap_sqlx.Portable.{ScalarValue}
use soap_sqlx.Mapping.{PgScalarKind}
use soap_sqlx.Binding.{PgBindValue, numeric, match_binding, normalize_binding}

-- The four families of portable scalars that columns are compared through.
pub data Family : Type 0 where
  boolean number textual binary : Family

abbrev pub family : PgScalarKind → Family
family PgScalarKind.bool = boolean
family PgScalarKind.numeric = number
family PgScalarKind.bytes = binary
family _ = textual

module _ {F64 : Type 0} where
  abbrev pub family_of : ScalarValue F64 → Option Family
  family_of (ScalarValue.bool _) = some boolean
  family_of (ScalarValue.i64 _) = some number
  family_of (ScalarValue.u64 _) = some number
  family_of (ScalarValue.f64 _) = some number
  family_of (ScalarValue.string _) = some textual
  family_of (ScalarValue.bytes _) = some binary
  family_of _ = none

  -- A value that a column of the kind can be compared with.
  abbrev pub Fits : PgScalarKind → ScalarValue F64 → Type 0
  Fits kind value = family_of value ≡ some (family kind)

-- The integer that a decimal text denotes.
unfoldable pub read_int : String → ℤ
read_int [] = pos 0
read_int (c ∷ s) =
    if code c == b'-'
    then elim (read_from 0 s) [ zero ↦ pos 0 | suc n ↦ negsuc n ]
    else pos (read_from 0 (c ∷ s))

-- The integer that a scalar is.
abbrev pub int_of : {F64 : Type 0} → ScalarValue F64 → Option ℤ
int_of (ScalarValue.i64 n) = some n
int_of (ScalarValue.u64 n) = some (pos n)
int_of _ = none

read_int-numeral : (s : String) → IsNumeral s → read_int s ≡ pos (read_from 0 s)
unfolding read_int
read_int-numeral [] h = absurd h
read_int-numeral (c ∷ s) h = ground arith

read_int-nat_to_string : (n : ℕ) → read_int (nat_to_string n) ≡ pos n
read_int-nat_to_string n =
    rw (read_int-numeral (nat_to_string n) (nat_to_string-IsNumeral n), read_from-nat_to_string)

read_int-int_to_string : (n : ℤ) → read_int (int_to_string n) ≡ n
unfolding int_to_string
read_int-int_to_string (pos n) = read_int-nat_to_string n
read_int-int_to_string (negsuc n) =
    unfold read_int in rw (cons-append, nil-append, read_from-nat_to_string)

module _ (x : External) where
  match_binding_iff :
      (kind : PgScalarKind) (value : ScalarValue x.F64)
      → Succeeds (match_binding x kind value) ↔ Fits kind value
  unfolding match_binding
  match_binding_iff PgScalarKind.bool (ScalarValue.bool _) = (λ _. refl, λ _. (_, refl))
  match_binding_iff PgScalarKind.numeric (ScalarValue.i64 _) = (λ _. refl, λ _. (_, refl))
  match_binding_iff PgScalarKind.numeric (ScalarValue.u64 _) = (λ _. refl, λ _. (_, refl))
  match_binding_iff PgScalarKind.numeric (ScalarValue.f64 _) = (λ _. refl, λ _. (_, refl))
  match_binding_iff PgScalarKind.text (ScalarValue.string _) = (λ _. refl, λ _. (_, refl))
  match_binding_iff PgScalarKind.bytes (ScalarValue.bytes _) = (λ _. refl, λ _. (_, refl))
  match_binding_iff PgScalarKind.uuid (ScalarValue.string _) = (λ _. refl, λ _. (_, refl))
  match_binding_iff PgScalarKind.json (ScalarValue.string _) = (λ _. refl, λ _. (_, refl))
  match_binding_iff PgScalarKind.date (ScalarValue.string _) = (λ _. refl, λ _. (_, refl))
  match_binding_iff PgScalarKind.time (ScalarValue.string _) = (λ _. refl, λ _. (_, refl))
  match_binding_iff PgScalarKind.timestamp (ScalarValue.string _) = (λ _. refl, λ _. (_, refl))
  match_binding_iff PgScalarKind.timestamp_tz (ScalarValue.string _) = (λ _. refl, λ _. (_, refl))
  match_binding_iff kind value = (λ h. cc, λ h. cc)

  -- A value becomes a binding exactly when it passes its validation and is of the family that the
  -- column's kind is compared through.
  pub normalize_binding_iff :
      (kind : PgScalarKind) (value : ScalarValue x.F64)
      → Succeeds (normalize_binding x kind value)
        ↔ ((x.validate_scalar value ≡ ok tt) × Fits kind value)
  unfolding normalize_binding
  normalize_binding_iff kind value = elim (Result-cases (x.validate_scalar value)) [
    | inl (u, valid) ↦
        rw valid (
          λ h. (refl, (match_binding_iff kind value).0 h),
          λ h. (match_binding_iff kind value).1 h.1,
        )
    | inr (e, failed) ↦ rw failed (λ h. cc, λ h. cc)
  ]

  -- An integer of a query, signed or unsigned, that becomes the binding of a numeric column reads
  -- back unchanged from the binding's decimal text.
  pub read_int-normalize_binding :
      (value : ScalarValue x.F64) (n : ℤ) (binding : PgBindValue x.types)
      → int_of value ≡ some n
      → normalize_binding x PgScalarKind.numeric value ≡ ok binding
      → (s : String) × (binding ≡ numeric s) × (read_int s ≡ n)
  unfolding normalize_binding
  read_int-normalize_binding (ScalarValue.i64 k) n binding h e =
      let (_, _, e') = >>=-eq-ok (x.validate_scalar (ScalarValue.i64 k)) _ e in
      (int_to_string k, cc, rw read_int-int_to_string (cc))
  read_int-normalize_binding (ScalarValue.u64 k) n binding h e =
      let (_, _, e') = >>=-eq-ok (x.validate_scalar (ScalarValue.u64 k)) _ e in
      (nat_to_string k, cc, rw read_int-nat_to_string (cc))
  read_int-normalize_binding value n binding h e = cc
