-- ===== src/Binding.antt =====
-- src/postgres/compiler.rs: typed bindings, and the parts of SQL text that a column's kind decides.
pub mod Exact
pub mod Persisted
use Prim.Native.String.{◌++◌}
use soap_sqlx.Prelude.{
  ℕ, ℤ, Bool, String, List, Option, none, some, Result, ok, err, ◌>>=◌, ◌>>◌, nat_to_string,
  int_to_string,
}
use soap_sqlx.Sqlx.{SqlTypes}
use soap_sqlx.External.{External, SoapResult, validation, infrastructure}
use soap_sqlx.Portable.{ScalarValue}
use soap_sqlx.Identifier.{quoted}
use soap_sqlx.Mapping.{PgScalarKind, PgColumn}
use soap_sqlx.Value
use soap_sqlx.Value.{PgValue}

pub data PgBindValue (t : SqlTypes) : Type 0 where
  bool : Bool → PgBindValue t
  numeric : String → PgBindValue t
  text : String → PgBindValue t
  bytes : List ℕ → PgBindValue t
  uuid : t.Uuid → PgBindValue t
  json : t.JsonValue → PgBindValue t
  decimal : t.BigDecimal → PgBindValue t
  date : t.NaiveDate → PgBindValue t
  time : t.NaiveTime → PgBindValue t
  timestamp : t.NaiveDateTime → PgBindValue t
  timestamp_tz : t.DateTimeUtc → PgBindValue t
  i64 : ℤ → PgBindValue t
  null : PgScalarKind → PgBindValue t

unfoldable pub column_expression : PgColumn → String
unfolding quoted
column_expression column = elim column.scalar_kind [
  | PgScalarKind.numeric ↦ quoted column.identifier ++ "::numeric"
  | PgScalarKind.text ↦ quoted column.identifier ++ " COLLATE \"C\""
  | _ ↦ quoted column.identifier
]

unfoldable pub placeholder_cast : PgScalarKind → Option String
placeholder_cast PgScalarKind.bool = none
placeholder_cast PgScalarKind.text = none
placeholder_cast PgScalarKind.bytes = none
placeholder_cast PgScalarKind.numeric = some "numeric"
placeholder_cast PgScalarKind.uuid = some "uuid"
placeholder_cast PgScalarKind.json = some "jsonb"
placeholder_cast PgScalarKind.date = some "date"
placeholder_cast PgScalarKind.time = some "time"
placeholder_cast PgScalarKind.timestamp = some "timestamp"
placeholder_cast PgScalarKind.timestamp_tz = some "timestamptz"

module _ (x : External) where
  abbrev incompatible_query : SoapResult x (PgBindValue x.types)
  incompatible_query =
      err (x.error validation "query value is incompatible with the mapped PostgreSQL column")

  -- The match of `normalize_binding`, in the order of its arms.
  match_binding : PgScalarKind → ScalarValue x.F64 → SoapResult x (PgBindValue x.types)
  match_binding PgScalarKind.bool (ScalarValue.bool value) = ok (bool value)
  match_binding PgScalarKind.numeric (ScalarValue.i64 value) = ok (numeric (int_to_string value))
  match_binding PgScalarKind.numeric (ScalarValue.u64 value) = ok (numeric (nat_to_string value))
  match_binding PgScalarKind.numeric (ScalarValue.f64 value) = ok (numeric (x.f64_to_string value))
  match_binding PgScalarKind.text (ScalarValue.string value) = ok (text value)
  match_binding PgScalarKind.bytes (ScalarValue.bytes value) = ok (bytes value)
  match_binding PgScalarKind.uuid (ScalarValue.string value) = ok (text value)
  match_binding PgScalarKind.json (ScalarValue.string value) = ok (text value)
  match_binding PgScalarKind.date (ScalarValue.string value) = ok (text value)
  match_binding PgScalarKind.time (ScalarValue.string value) = ok (text value)
  match_binding PgScalarKind.timestamp (ScalarValue.string value) = ok (text value)
  match_binding PgScalarKind.timestamp_tz (ScalarValue.string value) = ok (text value)
  match_binding _ ScalarValue.null =
      err (x.error validation "use IS NULL or IS NOT NULL for PostgreSQL null values")
  match_binding _ (ScalarValue.list _) =
      err (x.error validation "a nested PostgreSQL binding list is invalid")
  match_binding _ _ = incompatible_query

  unfoldable pub normalize_binding :
      PgScalarKind → ScalarValue x.F64 → SoapResult x (PgBindValue x.types)
  unfolding match_binding
  normalize_binding kind value = do x.validate_scalar value; match_binding kind value

  abbrev incompatible_value : SoapResult x (PgBindValue x.types)
  incompatible_value =
      err (x.error validation "persistence value is incompatible with the mapped PostgreSQL column")

  -- The match of `normalize_entity_binding`, in the order of its arms.
  match_entity_binding : PgScalarKind → PgValue x.types → SoapResult x (PgBindValue x.types)
  match_entity_binding kind PgValue.null = ok (null kind)
  match_entity_binding _ PgValue.default =
      err (x.error infrastructure "PostgreSQL DEFAULT cannot be encoded as a query binding")
  match_entity_binding PgScalarKind.bool (PgValue.bool value) = ok (bool value)
  match_entity_binding PgScalarKind.numeric (PgValue.i64 value) = ok (numeric (int_to_string value))
  match_entity_binding PgScalarKind.numeric (PgValue.u64 value) = ok (numeric (nat_to_string value))
  match_entity_binding PgScalarKind.numeric (PgValue.f64 value) =
      ok (numeric (x.f64_to_string value))
  match_entity_binding PgScalarKind.text (PgValue.text value) = ok (text value)
  match_entity_binding PgScalarKind.bytes (PgValue.bytes value) = ok (bytes value)
  match_entity_binding PgScalarKind.uuid (PgValue.uuid value) = ok (uuid value)
  match_entity_binding PgScalarKind.json (PgValue.json value) = ok (json value)
  match_entity_binding PgScalarKind.numeric (PgValue.decimal value) = ok (decimal value)
  match_entity_binding PgScalarKind.date (PgValue.date value) = ok (date value)
  match_entity_binding PgScalarKind.time (PgValue.time value) = ok (time value)
  match_entity_binding PgScalarKind.timestamp (PgValue.timestamp value) = ok (timestamp value)
  match_entity_binding PgScalarKind.timestamp_tz (PgValue.timestamp_tz value) =
      ok (timestamp_tz value)
  match_entity_binding _ _ = incompatible_value

  unfoldable pub normalize_entity_binding :
      PgScalarKind → PgValue x.types → SoapResult x (PgBindValue x.types)
  unfolding match_entity_binding Value.validate
  normalize_entity_binding kind value = do Value.validate x value; match_entity_binding kind value
