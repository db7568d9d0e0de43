-- ===== src/Errors/Classes.antt =====
-- How SQLx failures are classified (src/postgres/error.rs).
use text.Mathlib.TextBridge.{IsPrefix}
use text.Mathlib.TextEquality.{starts_with_iff}
use soap_sqlx.Prelude.{
  String, true, false, Option, none, some, ◌≡◌, refl, subst, ◌⊎◌, inl, inr, arith, eq_iff,
  Bool-cases, ◌∙◌, ◌↔◌,
}
use soap_sqlx.Sqlx.{
  ErrorKind, unique_violation, exclusion_violation, foreign_key_violation, not_null_violation,
  check_violation, DatabaseError, SqlxError,
}
use soap_sqlx.External.{External, SoapErrorKind, unavailable, infrastructure, conflict}
use soap_sqlx.Errors.{is_concurrency, is_connection, map_kind, map_database_error, map_sqlx_error}

-- SQLSTATE: a serialization failure or a deadlock, and the class of connection exceptions.
abbrev pub IsConcurrency : Option String → Type 0
IsConcurrency code = (code ≡ some "40001") ⊎ (code ≡ some "40P01")

abbrev pub IsConnection : Option String → Type 0
IsConnection code = (s : String) × (code ≡ some s) × IsPrefix "08" s

pub is_concurrency_iff : (code : Option String) → (is_concurrency code ≡ true) ↔ IsConcurrency code
is_concurrency_iff none = (λ h. cc, λ h. ground arith)
is_concurrency_iff (some s) = ground (arith, eq_iff s "40001", eq_iff s "40P01")

pub is_connection_iff : (code : Option String) → (is_connection code ≡ true) ↔ IsConnection code
is_connection_iff none = (λ h. cc, λ (s, same, p). cc)
is_connection_iff (some s) = (
  λ h. (s, refl, (starts_with_iff s "08").0 h),
  λ (s', same, p). let e : s ≡ s' = cc in (starts_with_iff s "08").1 (rw e p),
)

pub not_concurrency : (code : Option String) → ¬ IsConcurrency code → is_concurrency code ≡ false
not_concurrency code n = elim (Bool-cases (is_concurrency code)) [
  | inl h ↦ absurd (n ((is_concurrency_iff code).0 h))
  | inr h ↦ h
]

pub not_connection : (code : Option String) → ¬ IsConnection code → is_connection code ≡ false
not_connection code n = elim (Bool-cases (is_connection code)) [
  | inl h ↦ absurd (n ((is_connection_iff code).0 h))
  | inr h ↦ h
]

-- The two do not meet: "08" is not a prefix of "40001" or "40P01".
pub connection_alone : (code : Option String) → IsConnection code → ¬ IsConcurrency code
connection_alone code c (inl same) =
    let at : is_connection (some "40001") ≡ true =
      subst (λ o. is_connection o ≡ true) same ((is_connection_iff code).1 c) in
    cc
connection_alone code c (inr same) =
    let at : is_connection (some "40P01") ≡ true =
      subst (λ o. is_connection o ≡ true) same ((is_connection_iff code).1 c) in
    cc

-- What the remaining database errors count as: violations of a uniqueness, exclusion or foreign key
-- constraint are conflicts.
abbrev pub constraint_kind : ErrorKind → SoapErrorKind
constraint_kind unique_violation = conflict
constraint_kind exclusion_violation = conflict
constraint_kind foreign_key_violation = conflict
constraint_kind _ = infrastructure

module _ (x : External) where
  kind-map_kind :
      (k : ErrorKind) (operation : String) → x.kind (map_kind x k operation) ≡ constraint_kind k
  unfolding map_kind
  kind-map_kind unique_violation operation = x.kind-error _ _
  kind-map_kind exclusion_violation operation = x.kind-error _ _
  kind-map_kind foreign_key_violation operation = x.kind-error _ _
  kind-map_kind not_null_violation operation = x.kind-with_transience _ _ ∙ x.kind-error _ _
  kind-map_kind check_violation operation = x.kind-with_transience _ _ ∙ x.kind-error _ _
  kind-map_kind _ operation = x.kind-with_transience _ _ ∙ x.kind-error _ _

  -- A database error with the SQLSTATE of a serialization failure or a deadlock is mapped to a
  -- transient infrastructure error, whatever constraint it names.
  pub map_sqlx_error-concurrency :
      (d : DatabaseError x.Detail) (operation : String)
      → IsConcurrency d.code
      → let e = map_sqlx_error x (SqlxError.database d) operation in
        (x.kind e ≡ infrastructure) × (x.transience e ≡ x.transient)
  unfolding map_sqlx_error map_database_error
  map_sqlx_error-concurrency d operation c =
      rw ((is_concurrency_iff d.code).1 c, map_sqlx_error, map_database_error)
        (
          x.kind-with_source _ _ ∙ (x.kind-with_transience _ _ ∙ x.kind-error _ _),
          x.transience-with_source _ _ ∙ x.transience-with_transience _ _,
        )

  -- A database error whose SQLSTATE is of the connection class is mapped to an unavailability.
  pub map_sqlx_error-connection :
      (d : DatabaseError x.Detail) (operation : String)
      → IsConnection d.code
      → x.kind (map_sqlx_error x (SqlxError.database d) operation) ≡ unavailable
  unfolding map_sqlx_error map_database_error
  map_sqlx_error-connection d operation c =
      rw
        (
          not_concurrency d.code (connection_alone d.code c),
          (is_connection_iff d.code).1 c,
          map_sqlx_error,
          map_database_error,
        )
        (x.kind-with_source _ _ ∙ x.kind-error _ _)

  -- A database error with neither a concurrency nor a connection SQLSTATE is classified by its
  -- constraint: a violation of uniqueness, exclusion or a foreign key is a conflict, any other an
  -- infrastructure error.
  pub map_sqlx_error-constraint :
      (d : DatabaseError x.Detail) (operation : String)
      → ¬ IsConcurrency d.code
      → ¬ IsConnection d.code
      → x.kind (map_sqlx_error x (SqlxError.database d) operation) ≡ constraint_kind d.kind
  unfolding map_sqlx_error map_database_error
  map_sqlx_error-constraint d operation n m =
      rw (not_concurrency d.code n, not_connection d.code m, map_sqlx_error, map_database_error)
        (x.kind-with_source _ _ ∙ kind-map_kind d.kind operation)
