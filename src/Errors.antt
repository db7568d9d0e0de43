-- ===== src/Errors.antt =====
-- src/postgres/error.rs: SQLx failures in the stable error model.
pub mod Classes
pub mod Table
pub mod Alike
use Prim.Native.String.{◌++◌}
use soap_sqlx.Prelude.{
  String, Bool, true, false, Option, none, some, ◌||◌, str_eq, starts_with, if◌then◌else◌,
}
use soap_sqlx.Sqlx.{
  ErrorKind, unique_violation, exclusion_violation, foreign_key_violation, not_null_violation,
  check_violation, DatabaseError, SqlxError, sqlx,
}
use soap_sqlx.External.{
  External, SoapErrorKind, not_found, timeout, unavailable, infrastructure, conflict,
}

-- `matches!(sqlstate.as_deref(), Some("40001" | "40P01"))`
abbrev pub is_concurrency : Option String → Bool
is_concurrency none = false
is_concurrency (some code) = str_eq code "40001" || str_eq code "40P01"

-- `sqlstate.as_deref().is_some_and(|code| code.starts_with("08"))`
abbrev pub is_connection : Option String → Bool
is_connection none = false
is_connection (some code) = starts_with code "08"

module _ (x : External) where
  permanent_error : String → x.SoapError
  permanent_error message = x.with_transience (x.error infrastructure message) x.permanent

  -- The match on the kind of a database error.
  map_kind : ErrorKind → String → x.SoapError
  unfolding permanent_error
  map_kind unique_violation operation =
      x.error conflict (operation ++ " conflicts with an existing row")
  map_kind exclusion_violation operation =
      x.error conflict (operation ++ " conflicts with an existing row")
  map_kind foreign_key_violation operation =
      x.error conflict (operation ++ " violates a relationship constraint")
  map_kind not_null_violation operation =
      permanent_error (operation ++ " violates the persisted schema")
  map_kind check_violation operation =
      permanent_error (operation ++ " violates the persisted schema")
  map_kind _ operation = permanent_error (operation ++ " failed in PostgreSQL")

  unfoldable pub map_database_error : DatabaseError x.Detail → String → x.SoapError
  unfolding map_kind
  map_database_error database operation =
      if is_concurrency database.code
      then x.with_transience
          (x.error infrastructure (operation ++ " encountered a concurrent PostgreSQL transaction"))
          x.transient
      else if is_connection database.code
      then x.error unavailable (operation ++ " lost its PostgreSQL connection")
      else map_kind database.kind operation

  invalid_mapping : String → x.SoapError
  unfolding permanent_error
  invalid_mapping operation = permanent_error (operation ++ " has an invalid PostgreSQL mapping")

  -- The match of `map_sqlx_error`, before the source is attached.
  mapped : SqlxError x.Detail → String → x.SoapError
  unfolding invalid_mapping map_database_error
  mapped SqlxError.row_not_found operation = x.error not_found (operation ++ " found no row")
  mapped SqlxError.pool_timed_out operation =
      x.error timeout (operation ++ " timed out acquiring a connection")
  mapped SqlxError.pool_closed operation =
      x.error unavailable (operation ++ " cannot use a closed connection pool")
  mapped (SqlxError.io _) operation = x.error unavailable (operation ++ " cannot reach PostgreSQL")
  mapped (SqlxError.tls _) operation =
      permanent_error (operation ++ " cannot establish PostgreSQL TLS")
  mapped (SqlxError.database database) operation = map_database_error database operation
  mapped (SqlxError.other _) operation = x.error infrastructure (operation ++ " failed in SQLx")
  mapped _ operation = invalid_mapping operation

  unfoldable pub map_sqlx_error : SqlxError x.Detail → String → x.SoapError
  unfolding mapped
  map_sqlx_error error operation = x.with_source (mapped error operation) (sqlx error)
