-- ===== src/UnitTests/Failures.antt =====
-- The tests of src/postgres/error.rs.
use soap_sqlx.Prelude.{◌≡◌, refl, true, String, some}
use soap_sqlx.Mapping.{is_some}
use soap_sqlx.Sqlx.{ErrorKind, unique_violation, other, SqlxError}
use soap_sqlx.External.{timeout, unavailable, infrastructure, conflict}
use soap_sqlx.Errors.{map_sqlx_error}
use soap_sqlx.Samples.{sample}

abbrev ClassifiesPoolTimeoutAsTransientAndPreservesSource : Type 0
ClassifiesPoolTimeoutAsTransientAndPreservesSource =
    let error = map_sqlx_error sample SqlxError.pool_timed_out "find users" in
    (sample.kind error ≡ timeout)
    × (sample.transience error ≡ sample.transient)
    × (is_some (sample.source error) ≡ true)

classifies_pool_timeout_as_transient_and_preserves_source :
    ClassifiesPoolTimeoutAsTransientAndPreservesSource
unfolding map_sqlx_error
classifies_pool_timeout_as_transient_and_preserves_source = (refl, refl, refl)

-- The message is stated whole, so the detail is not in it; `is_reportable` is of `soaprs_core`.
abbrev ClassifiesIoFailureAsUnavailable : Type 0
ClassifiesIoFailureAsUnavailable =
    let error = map_sqlx_error sample (SqlxError.io "driver detail") "connect" in
    (sample.kind error ≡ unavailable) × (error.message ≡ "connect cannot reach PostgreSQL")

classifies_io_failure_as_unavailable : ClassifiesIoFailureAsUnavailable
unfolding map_sqlx_error
classifies_io_failure_as_unavailable = (refl, refl)

abbrev ClassifiesMappingFailureAsPermanentInfrastructure : Type 0
ClassifiesMappingFailureAsPermanentInfrastructure =
    let error = map_sqlx_error sample (SqlxError.column_not_found "name") "decode user" in
    (sample.kind error ≡ infrastructure) × (sample.transience error ≡ sample.permanent)

classifies_mapping_failure_as_permanent_infrastructure :
    ClassifiesMappingFailureAsPermanentInfrastructure
unfolding map_sqlx_error
classifies_mapping_failure_as_permanent_infrastructure = (refl, refl)

pub data MockErrorKind : Type 0 where
  unique unknown : MockErrorKind

pub record MockDatabaseError : Type 0 where
  pub kind : MockErrorKind
  pub code : String

-- `MockDatabaseError::kind`
abbrev mock_kind : MockErrorKind → ErrorKind
mock_kind unique = unique_violation
mock_kind unknown = other

-- `impl DatabaseError for MockDatabaseError`: what the program asks of a database error.
abbrev database : MockDatabaseError → SqlxError String
database error = SqlxError.database (record {
  code = some error.code;
  kind = mock_kind error.kind;
  detail = "mock PostgreSQL error";
})

abbrev MapsUniqueConstraintToConflictAndPreservesDatabaseSource : Type 0
MapsUniqueConstraintToConflictAndPreservesDatabaseSource =
    let error =
      map_sqlx_error sample (database (record { kind = unique; code = "23505" })) "insert user" in
    (sample.kind error ≡ conflict) × (is_some (sample.source error) ≡ true)

maps_unique_constraint_to_conflict_and_preserves_database_source :
    MapsUniqueConstraintToConflictAndPreservesDatabaseSource
unfolding map_sqlx_error
maps_unique_constraint_to_conflict_and_preserves_database_source = (refl, refl)

-- The body of the loop over the codes.
abbrev IsMarkedTransient : String → Type 0
IsMarkedTransient code =
    let error =
      map_sqlx_error sample (database (record { kind = unknown; code = code })) "replace user" in
    (sample.kind error ≡ infrastructure) × (sample.transience error ≡ sample.transient)

abbrev MarksSerializationAndDeadlockFailuresAsTransient : Type 0
MarksSerializationAndDeadlockFailuresAsTransient =
    IsMarkedTransient "40001" × IsMarkedTransient "40P01"

marks_serialization_and_deadlock_failures_as_transient :
    MarksSerializationAndDeadlockFailuresAsTransient
unfolding map_sqlx_error
marks_serialization_and_deadlock_failures_as_transient = ((refl, refl), (refl, refl))

abbrev MarksUnrecognizedDatabaseFailuresAsPermanent : Type 0
MarksUnrecognizedDatabaseFailuresAsPermanent =
    let error =
      map_sqlx_error sample (database (record { kind = unknown; code = "42703" })) "find users" in
    (sample.kind error ≡ infrastructure)
    × (sample.transience error ≡ sample.permanent)
    × (is_some (sample.source error) ≡ true)

marks_unrecognized_database_failures_as_permanent : MarksUnrecognizedDatabaseFailuresAsPermanent
unfolding map_sqlx_error
marks_unrecognized_database_failures_as_permanent = (refl, refl, refl)
