-- ===== src/Sqlx.antt =====
-- What src/postgres uses of SQLx, as types: the values that it binds, the arguments that it adds,
-- and the errors that it tells apart. A variant that the source never names is `other`.
use soap_sqlx.Prelude.{ℕ, ℤ, Bool, String, Option, List}

-- Types of values that the program only passes on, with what `f64` offers of the standard library.
pub record SqlTypes : Type 1 where
  pub F64 : Type 0
  pub F32 : Type 0
  -- `f64::from` of an `f32`
  pub widen : F32 → F64
  pub Uuid : Type 0
  pub JsonValue : Type 0
  pub BigDecimal : Type 0
  pub NaiveDate : Type 0
  pub NaiveTime : Type 0
  pub NaiveDateTime : Type 0
  pub DateTimeUtc : Type 0

-- The Rust values, by type, that are handed to `PgArguments::add`.
pub data Argument (t : SqlTypes) : Type 0 where
  bool : Bool → Argument t
  string : String → Argument t
  bytes : List ℕ → Argument t
  uuid : t.Uuid → Argument t
  json : t.JsonValue → Argument t
  decimal : t.BigDecimal → Argument t
  date : t.NaiveDate → Argument t
  time : t.NaiveTime → Argument t
  timestamp : t.NaiveDateTime → Argument t
  timestamp_tz : t.DateTimeUtc → Argument t
  i64 : ℤ → Argument t
  none_bool none_string none_bytes : Argument t

pub data ErrorKind : Type 0 where
  unique_violation exclusion_violation foreign_key_violation not_null_violation : ErrorKind
  check_violation other : ErrorKind

pub record DatabaseError (Detail : Type 0) : Type 0 where
  pub code : Option String
  pub kind : ErrorKind
  pub detail : Detail

-- `sqlx::Error`; a `Detail` is a payload that nothing looks into.
pub data SqlxError (Detail : Type 0) : Type 0 where
  row_not_found pool_timed_out pool_closed : SqlxError Detail
  io tls configuration : Detail → SqlxError Detail
  database : DatabaseError Detail → SqlxError Detail
  protocol : String → SqlxError Detail
  column_decode column_index_out_of_bounds column_not_found decode encode :
      Detail → SqlxError Detail
  invalid_argument migrate type_not_found other : Detail → SqlxError Detail

-- What `SoapError::with_source` is given: an SQLx error, or the boxed error of a failed encoding
-- in its `PgBindingEncodeError`.
pub record PgBindingEncodeError (Detail : Type 0) : Type 0 where
  pub inner : Detail

pub data ErrorSource (Detail : Type 0) : Type 0 where
  sqlx : SqlxError Detail → ErrorSource Detail
  binding_encode : PgBindingEncodeError Detail → ErrorSource Detail
