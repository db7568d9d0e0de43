-- ===== src/UnitTests.antt =====
-- The unit tests of src/postgres, with their fixtures, run on the model with the sample outside. A
-- type named after each test states its assertions. The condition builder of `soaprs_repository`
-- stands for the condition that it builds.
pub mod Compiling
pub mod Mappings
pub mod Failures
pub mod Routing
pub mod Storing
use soap_sqlx.Prelude.{Bool, true, false, String, Option, none, some, Result, ok, err}
use soap_sqlx.External.{SoapErrorKind, SoapResult}
use soap_sqlx.Samples.{sample}

-- `result.as_ref().map_err(|error| error.kind())`, of which only an error matters.
abbrev pub error_kind : {A : Type 0} → SoapResult sample A → Option SoapErrorKind
error_kind (ok _) = none
error_kind (err e) = some (sample.kind e)

-- `result.is_ok()`; `is_err` is its negation.
abbrev pub is_ok : {A : Type 0} → SoapResult sample A → Bool
is_ok (ok _) = true
is_ok (err _) = false
