-- ===== src/Value/Conversions.antt =====
-- What `PgValue::try_from` keeps of a portable scalar (src/postgres/value.rs).
use soap_sqlx.Prelude.{◌≡◌, refl, ◌↔◌, Option, none, some, ok, arith, Result-cases, inl, inr}
use soap_sqlx.External.{External}
use soap_sqlx.Portable.{ScalarValue}
use soap_sqlx.Value.{PgValue, bool, i64, u64, f64, text, bytes, null, convert, try_from}

module _ (x : External) where
  -- The scalar that a persistence value stands for; PostgreSQL's own types and `DEFAULT` have none.
  abbrev pub to_scalar : PgValue x.types → Option (ScalarValue x.F64)
  to_scalar null = some ScalarValue.null
  to_scalar (bool value) = some (ScalarValue.bool value)
  to_scalar (i64 value) = some (ScalarValue.i64 value)
  to_scalar (u64 value) = some (ScalarValue.u64 value)
  to_scalar (f64 value) = some (ScalarValue.f64 value)
  to_scalar (text value) = some (ScalarValue.string value)
  to_scalar (bytes value) = some (ScalarValue.bytes value)
  to_scalar _ = none

  convert_sound :
      (v : ScalarValue x.F64) (p : PgValue x.types) → convert x v ≡ ok p → to_scalar p ≡ some v
  unfolding convert
  convert_sound (ScalarValue.list vs) p h = cc
  convert_sound ScalarValue.null p h = ground arith
  convert_sound (ScalarValue.string s) p h = ground arith
  convert_sound v p h = ground arith

  convert_complete :
      (p : PgValue x.types) (v : ScalarValue x.F64) → to_scalar p ≡ some v → convert x v ≡ ok p
  unfolding convert
  convert_complete null v h = ground arith
  convert_complete p v h = ground arith

  -- `try_from` gives a persistence value for a scalar exactly when the scalar passes its
  -- validation and the value holds the very same value as the same variant.
  pub try_from_iff :
      (v : ScalarValue x.F64) (p : PgValue x.types)
      → (try_from x v ≡ ok p) ↔ ((x.validate_scalar v ≡ ok tt) × (to_scalar p ≡ some v))
  unfolding try_from
  try_from_iff v p = elim (Result-cases (x.validate_scalar v)) [
    | inl (u, valid) ↦ rw valid (λ h. (refl, convert_sound v p h), λ h. convert_complete p v h.1)
    | inr (e, failed) ↦ rw failed (λ h. cc, λ h. cc)
  ]
