-- ===== src/Errors/Table.antt =====
-- The whole classification of src/postgres/error.rs, as rules.
use soap_sqlx.Prelude.{String, Option, none, some, ◌≡◌, ◌∙◌, Bool-cases, inl, inr}
use soap_sqlx.Sqlx.{
  ErrorKind, unique_violation, exclusion_violation, foreign_key_violation, not_null_violation,
  check_violation, DatabaseError, SqlxError, ErrorSource, sqlx,
}
use soap_sqlx.External.{
  External, SoapErrorKind, not_found, timeout, unavailable, infrastructure, conflict,
}
use soap_sqlx.Errors.{
  map_kind, map_database_error, mapped, map_sqlx_error, is_concurrency, is_connection,
}
use soap_sqlx.Errors.Classes.{IsConcurrency, IsConnection, is_concurrency_iff, is_connection_iff}

module _ (x : External) where
  -- A verdict: the kind, and the transience where it is decided by the mapping and not by the kind.
  abbrev pub Verdict : Type 0
  Verdict = SoapErrorKind × Option x.ErrorTransience

  abbrev permanently : Verdict
  permanently = (infrastructure, some x.permanent)

  -- A violated constraint of the data is a conflict, any other failure a permanent fault.
  abbrev pub of_kind : ErrorKind → Verdict
  of_kind unique_violation = (conflict, none)
  of_kind exclusion_violation = (conflict, none)
  of_kind foreign_key_violation = (conflict, none)
  of_kind _ = permanently

  -- The rules.
  pub data Classified : SqlxError x.Detail → Verdict → Type 0 where
    no_row : Classified SqlxError.row_not_found (not_found, none)
    no_connection : Classified SqlxError.pool_timed_out (timeout, some x.transient)
    closed : Classified SqlxError.pool_closed (unavailable, none)
    unreachable : (d : x.Detail) → Classified (SqlxError.io d) (unavailable, none)
    untrusted : (d : x.Detail) → Classified (SqlxError.tls d) permanently
    concurrent :
        (d : DatabaseError x.Detail)
        → IsConcurrency d.code
        → Classified (SqlxError.database d) (infrastructure, some x.transient)
    disconnected :
        (d : DatabaseError x.Detail)
        → IsConnection d.code
        → Classified (SqlxError.database d) (unavailable, none)
    refused :
        (d : DatabaseError x.Detail)
        → ¬ IsConcurrency d.code
        → ¬ IsConnection d.code
        → Classified (SqlxError.database d) (of_kind d.kind)
    misconfigured : (d : x.Detail) → Classified (SqlxError.configuration d) permanently
    out_of_protocol : (s : String) → Classified (SqlxError.protocol s) permanently
    undecoded_column : (d : x.Detail) → Classified (SqlxError.column_decode d) permanently
    out_of_bounds : (d : x.Detail) → Classified (SqlxError.column_index_out_of_bounds d) permanently
    no_column : (d : x.Detail) → Classified (SqlxError.column_not_found d) permanently
    undecoded : (d : x.Detail) → Classified (SqlxError.decode d) permanently
    unencoded : (d : x.Detail) → Classified (SqlxError.encode d) permanently
    invalid : (d : x.Detail) → Classified (SqlxError.invalid_argument d) permanently
    unmigrated : (d : x.Detail) → Classified (SqlxError.migrate d) permanently
    no_type : (d : x.Detail) → Classified (SqlxError.type_not_found d) permanently
    unnamed : (d : x.Detail) → Classified (SqlxError.other d) (infrastructure, none)

  -- What a verdict says of an error.
  abbrev pub Given : Verdict → x.SoapError → Type 0
  Given (kind, none) e = x.kind e ≡ kind
  Given (kind, some t) e = (x.kind e ≡ kind) × (x.transience e ≡ t)

  Given-with_source :
      (v : Verdict) (e : x.SoapError) (s : ErrorSource x.Detail)
      → Given v e
      → Given v (x.with_source e s)
  Given-with_source (kind, none) e s h = x.kind-with_source e s ∙ h
  Given-with_source (kind, some t) e s (h, k) =
      (x.kind-with_source e s ∙ h, x.transience-with_source e s ∙ k)

  permanent-Given :
      (m : String) → Given permanently (x.with_transience (x.error infrastructure m) x.permanent)
  permanent-Given m =
      (x.kind-with_transience _ _ ∙ x.kind-error _ _, x.transience-with_transience _ _)

  map_kind-Given : (k : ErrorKind) (operation : String) → Given (of_kind k) (map_kind x k operation)
  unfolding map_kind
  map_kind-Given unique_violation operation = x.kind-error _ _
  map_kind-Given exclusion_violation operation = x.kind-error _ _
  map_kind-Given foreign_key_violation operation = x.kind-error _ _
  map_kind-Given not_null_violation operation = permanent-Given _
  map_kind-Given check_violation operation = permanent-Given _
  map_kind-Given _ operation = permanent-Given _

  -- A verdict that the rules allow for a failure, and that holds of an error.
  abbrev pub Judged : SqlxError x.Detail → x.SoapError → Type 0
  Judged failure e = (v : Verdict) × Classified failure v × Given v e

  map_database_error-Judged :
      (d : DatabaseError x.Detail) (operation : String)
      → Judged (SqlxError.database d) (map_database_error x d operation)
  unfolding map_database_error
  map_database_error-Judged d operation = elim (Bool-cases (is_concurrency d.code)) [
    | inl holds ↦ (
      (infrastructure, some x.transient),
      concurrent d ((is_concurrency_iff d.code).0 holds),
      rw (holds, map_database_error)
          (x.kind-with_transience _ _ ∙ x.kind-error _ _, x.transience-with_transience _ _),
    )
    | inr other ↦ elim (Bool-cases (is_connection d.code)) [
      | inl holds ↦ (
        (unavailable, none),
        disconnected d ((is_connection_iff d.code).0 holds),
        rw (other, holds, map_database_error) (x.kind-error _ _),
      )
      | inr neither ↦ (
        of_kind d.kind,
        refused d (λ c. let holds = (is_concurrency_iff d.code).1 c in cc)
            (λ c. let holds = (is_connection_iff d.code).1 c in cc),
        rw (other, neither, map_database_error) (map_kind-Given d.kind operation),
      )
    ]
  ]

  mapped-Judged :
      (failure : SqlxError x.Detail) (operation : String)
      → Judged failure (mapped x failure operation)
  unfolding mapped
  mapped-Judged SqlxError.row_not_found operation = (_, no_row, x.kind-error _ _)
  mapped-Judged SqlxError.pool_timed_out operation =
      (_, no_connection, (x.kind-error _ _, x.transience-timeout _))
  mapped-Judged SqlxError.pool_closed operation = (_, closed, x.kind-error _ _)
  mapped-Judged (SqlxError.io d) operation = (_, unreachable d, x.kind-error _ _)
  mapped-Judged (SqlxError.tls d) operation = (_, untrusted d, permanent-Given _)
  mapped-Judged (SqlxError.database d) operation = map_database_error-Judged d operation
  mapped-Judged (SqlxError.configuration d) operation = (_, misconfigured d, permanent-Given _)
  mapped-Judged (SqlxError.protocol s) operation = (_, out_of_protocol s, permanent-Given _)
  mapped-Judged (SqlxError.column_decode d) operation = (_, undecoded_column d, permanent-Given _)
  mapped-Judged (SqlxError.column_index_out_of_bounds d) operation =
      (_, out_of_bounds d, permanent-Given _)
  mapped-Judged (SqlxError.column_not_found d) operation = (_, no_column d, permanent-Given _)
  mapped-Judged (SqlxError.decode d) operation = (_, undecoded d, permanent-Given _)
  mapped-Judged (SqlxError.encode d) operation = (_, unencoded d, permanent-Given _)
  mapped-Judged (SqlxError.invalid_argument d) operation = (_, invalid d, permanent-Given _)
  mapped-Judged (SqlxError.migrate d) operation = (_, unmigrated d, permanent-Given _)
  mapped-Judged (SqlxError.type_not_found d) operation = (_, no_type d, permanent-Given _)
  mapped-Judged (SqlxError.other d) operation = (_, unnamed d, x.kind-error _ _)

  -- For every failure the mapped error has a kind and transience that the rules of the
  -- classification allow, with the concurrency codes before the connection codes before the kind
  -- of constraint, and the failure is its source.
  pub map_sqlx_error-Judged :
      (failure : SqlxError x.Detail) (operation : String)
      → Judged failure (map_sqlx_error x failure operation)
        × (x.source (map_sqlx_error x failure operation) ≡ some (sqlx failure))
  unfolding map_sqlx_error
  map_sqlx_error-Judged failure operation =
      let (v, rule, given) = mapped-Judged failure operation in
      ((v, rule, Given-with_source v _ _ given), x.source-with_source _ _)
