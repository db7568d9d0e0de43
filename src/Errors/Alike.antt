-- ===== src/Errors/Alike.antt =====
-- What a mapped error tells of the driver (src/postgres/error.rs).
use soap_sqlx.Prelude.{String, ◌≡◌, refl, ap, ◌∙◌, sym}
use soap_sqlx.Sqlx.{DatabaseError, SqlxError, sqlx}
use soap_sqlx.External.{External}
use soap_sqlx.Errors.{map_kind, map_database_error, invalid_mapping, mapped, map_sqlx_error}
use soap_sqlx.Errors.Classes.{
  IsConcurrency, IsConnection, is_concurrency_iff, is_connection_iff, not_concurrency,
  not_connection, connection_alone,
}

module _ (x : External) where
  -- A failure of what is bound to a statement or read from a row.
  abbrev pub IsMisfit : SqlxError x.Detail → Type 0
  IsMisfit (SqlxError.configuration _) = Unit
  IsMisfit (SqlxError.protocol _) = Unit
  IsMisfit (SqlxError.column_decode _) = Unit
  IsMisfit (SqlxError.column_index_out_of_bounds _) = Unit
  IsMisfit (SqlxError.column_not_found _) = Unit
  IsMisfit (SqlxError.decode _) = Unit
  IsMisfit (SqlxError.encode _) = Unit
  IsMisfit (SqlxError.invalid_argument _) = Unit
  IsMisfit (SqlxError.migrate _) = Unit
  IsMisfit (SqlxError.type_not_found _) = Unit
  IsMisfit _ = ⊥

  -- A database error whose SQLSTATE is of neither class.
  abbrev pub IsRefusal : DatabaseError x.Detail → Type 0
  IsRefusal d = (¬ IsConcurrency d.code) × (¬ IsConnection d.code)

  -- Failures that a caller cannot tell apart but by the source: the payloads are any, and the
  -- SQLSTATE is any of its class.
  pub data Alike : SqlxError x.Detail → SqlxError x.Detail → Type 0 where
    io : (a b : x.Detail) → Alike (SqlxError.io a) (SqlxError.io b)
    tls : (a b : x.Detail) → Alike (SqlxError.tls a) (SqlxError.tls b)
    other : (a b : x.Detail) → Alike (SqlxError.other a) (SqlxError.other b)
    misfit : (e e' : SqlxError x.Detail) → IsMisfit e → IsMisfit e' → Alike e e'
    concurrent :
        (a b : DatabaseError x.Detail)
        → IsConcurrency a.code
        → IsConcurrency b.code
        → Alike (SqlxError.database a) (SqlxError.database b)
    disconnected :
        (a b : DatabaseError x.Detail)
        → IsConnection a.code
        → IsConnection b.code
        → Alike (SqlxError.database a) (SqlxError.database b)
    refused :
        (a b : DatabaseError x.Detail)
        → IsRefusal a
        → IsRefusal b
        → a.kind ≡ b.kind
        → Alike (SqlxError.database a) (SqlxError.database b)

  mapped-misfit :
      (e : SqlxError x.Detail) (operation : String)
      → IsMisfit e
      → mapped x e operation ≡ invalid_mapping x operation
  unfolding mapped
  mapped-misfit SqlxError.row_not_found operation h = absurd h
  mapped-misfit SqlxError.pool_timed_out operation h = absurd h
  mapped-misfit SqlxError.pool_closed operation h = absurd h
  mapped-misfit (SqlxError.io _) operation h = absurd h
  mapped-misfit (SqlxError.tls _) operation h = absurd h
  mapped-misfit (SqlxError.database _) operation h = absurd h
  mapped-misfit (SqlxError.other _) operation h = absurd h
  mapped-misfit _ operation h = refl

  concurrent-alike :
      (a b : DatabaseError x.Detail) (operation : String)
      → IsConcurrency a.code
      → IsConcurrency b.code
      → map_database_error x a operation ≡ map_database_error x b operation
  unfolding map_database_error
  concurrent-alike a b operation h k =
      rw ((is_concurrency_iff a.code).1 h, (is_concurrency_iff b.code).1 k, map_database_error) refl

  disconnected-alike :
      (a b : DatabaseError x.Detail) (operation : String)
      → IsConnection a.code
      → IsConnection b.code
      → map_database_error x a operation ≡ map_database_error x b operation
  unfolding map_database_error
  disconnected-alike a b operation h k =
      rw
        (
          not_concurrency a.code (connection_alone a.code h),
          not_concurrency b.code (connection_alone b.code k),
          (is_connection_iff a.code).1 h,
          (is_connection_iff b.code).1 k,
          map_database_error,
        )
        refl

  map_database_error-refusal :
      (d : DatabaseError x.Detail) (operation : String)
      → IsRefusal d
      → map_database_error x d operation ≡ map_kind x d.kind operation
  unfolding map_database_error
  map_database_error-refusal d operation (n, m) =
      rw (not_concurrency d.code n, not_connection d.code m, map_database_error) refl

  refused-alike :
      (a b : DatabaseError x.Detail) (operation : String)
      → IsRefusal a
      → IsRefusal b
      → a.kind ≡ b.kind
      → map_database_error x a operation ≡ map_database_error x b operation
  refused-alike a b operation h k same =
      map_database_error-refusal a operation h
      ∙ (ap (λ kind. map_kind x kind operation) same
          ∙ sym (map_database_error-refusal b operation k))

  mapped-alike :
      (e e' : SqlxError x.Detail) (operation : String)
      → Alike e e'
      → mapped x e operation ≡ mapped x e' operation
  unfolding mapped
  mapped-alike _ _ operation (io a b) = refl
  mapped-alike _ _ operation (tls a b) = refl
  mapped-alike _ _ operation (other a b) = refl
  mapped-alike _ _ operation (misfit e e' h k) =
      mapped-misfit e operation h ∙ sym (mapped-misfit e' operation k)
  mapped-alike _ _ operation (concurrent a b h k) = concurrent-alike a b operation h k
  mapped-alike _ _ operation (disconnected a b h k) = disconnected-alike a b operation h k
  mapped-alike _ _ operation (refused a b h k same) = refused-alike a b operation h k same

  -- Two failures that are alike are mapped to one error that differs in its source alone: I/O
  -- failures, TLS failures, failures that the source does not name and failures of what is bound
  -- or read, whatever they carry, and database errors with any details and any SQLSTATE, if both
  -- are of a concurrency, if both are of the connection class, or if neither is of either and the
  -- kinds of constraint are equal.
  pub map_sqlx_error-alike :
      (e e' : SqlxError x.Detail) (operation : String)
      → Alike e e'
      → (plain : x.SoapError) × (map_sqlx_error x e operation ≡ x.with_source plain (sqlx e))
        × (map_sqlx_error x e' operation ≡ x.with_source plain (sqlx e'))
  unfolding map_sqlx_error
  map_sqlx_error-alike e e' operation alike = (
    mapped x e operation,
    refl,
    ap (λ plain. x.with_source plain (sqlx e')) (sym (mapped-alike e e' operation alike)),
  )
