-- ===== src/Value.antt =====
-- src/postgres/value.rs: the persistence values that an entity codec produces.
pub mod Conversions
use soap_sqlx.Prelude.{
  ℕ, ℤ, Bool, true, false, not, String, List, Option, none, some, Result, ok, err, ◌>>=◌, ◌>>◌,
  if◌then◌else◌,
}
use soap_sqlx.Sqlx.{SqlTypes}
use soap_sqlx.External.{External, SoapResult, validation}
use soap_sqlx.Portable.{ScalarValue}

pub data PgValue (t : SqlTypes) : Type 0 where
  bool : Bool → PgValue t
  i64 : ℤ → PgValue t
  u64 : ℕ → PgValue t
  f64 : t.F64 → PgValue t
  text : String → PgValue t
  bytes : List ℕ → PgValue t
  uuid : t.Uuid → PgValue t
  json : t.JsonValue → PgValue t
  decimal : t.BigDecimal → PgValue t
  date : t.NaiveDate → PgValue t
  time : t.NaiveTime → PgValue t
  timestamp : t.NaiveDateTime → PgValue t
  timestamp_tz : t.DateTimeUtc → PgValue t
  null default : PgValue t

-- `value == PgValue::Default`, and the guard of `matches!(…, Null | Default)`.
abbrev pub is_default : {t : SqlTypes} → PgValue t → Bool
is_default default = true
is_default _ = false

module _ (x : External) where
  unfoldable pub validate : PgValue x.types → SoapResult x (Unit {0})
  validate (f64 value) =
      if not (x.is_finite value)
      then err (x.error validation "PostgreSQL floating-point persistence value must be finite")
      else ok tt
  validate _ = ok tt

  -- `impl TryFrom<ScalarValue> for PgValue`, after its validation.
  convert : ScalarValue x.F64 → SoapResult x (PgValue x.types)
  convert ScalarValue.null = ok PgValue.null
  convert (ScalarValue.bool value) = ok (PgValue.bool value)
  convert (ScalarValue.i64 value) = ok (PgValue.i64 value)
  convert (ScalarValue.u64 value) = ok (PgValue.u64 value)
  convert (ScalarValue.f64 value) = ok (PgValue.f64 value)
  convert (ScalarValue.string value) = ok (text value)
  convert (ScalarValue.bytes value) = ok (PgValue.bytes value)
  convert (ScalarValue.list _) =
      err (x.error validation "a PostgreSQL persistence value cannot contain a scalar list")

  unfoldable pub try_from : ScalarValue x.F64 → SoapResult x (PgValue x.types)
  unfolding convert
  try_from value = do x.validate_scalar value; convert value

-- The `From` conversions. The narrower integers widen without a change of value.
module _ {t : SqlTypes} where
  abbrev pub from_bool : Bool → PgValue t
  from_bool value = bool value

  abbrev pub from_signed : ℤ → PgValue t
  from_signed value = i64 value

  abbrev pub from_unsigned : ℕ → PgValue t
  from_unsigned value = u64 value

  abbrev pub from_string : String → PgValue t
  from_string value = text value

  abbrev pub from_bytes : List ℕ → PgValue t
  from_bytes value = bytes value

  abbrev pub from_f32 : t.F32 → PgValue t
  from_f32 value = f64 (t.widen value)

  abbrev pub from_float : t.F64 → PgValue t
  from_float value = f64 value

  -- The conversions of the feature `postgres-types`.
  abbrev pub from_uuid : t.Uuid → PgValue t
  from_uuid value = uuid value

  abbrev pub from_json : t.JsonValue → PgValue t
  from_json value = json value

  abbrev pub from_decimal : t.BigDecimal → PgValue t
  from_decimal value = decimal value

  abbrev pub from_date : t.NaiveDate → PgValue t
  from_date value = date value

  abbrev pub from_time : t.NaiveTime → PgValue t
  from_time value = time value

  abbrev pub from_timestamp : t.NaiveDateTime → PgValue t
  from_timestamp value = timestamp value

  abbrev pub from_timestamp_tz : t.DateTimeUtc → PgValue t
  from_timestamp_tz value = timestamp_tz value

  abbrev pub from_option {ℓ} : {T : Type ℓ} → (T → PgValue t) → Option T → PgValue t
  from_option into none = null
  from_option into (some value) = into value
