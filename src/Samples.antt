-- ===== src/Samples.antt =====
-- A concrete instance of what is outside the repository, for the tests: field names are strings,
-- every name and value is accepted, arguments are a list.
pub mod Fields
mod Queries
mod Sessions
mod Sources
mod Entities
mod Values
mod Repositories
mod Reading
use mathlib.Core.List.{◌++◌}
use text.Mathlib.Text.{◌==◌ as str_eq}
use text.Mathlib.TextEquality.{eq_iff}
use soap_sqlx.Prelude.{
  ℕ, ◌≡◌, refl, Bool, true, false, String, Option, none, some, List, [], ◌∷◌, ok, ok-injective, sym,
}
use soap_sqlx.Sqlx.{SqlTypes, Argument, ErrorSource}
use soap_sqlx.External.{SoapErrorKind, timeout, SoapCore, External}

pub record SampleError : Type 0 where
  pub kind : SoapErrorKind
  pub message : String
  pub transience : Bool
  pub source : Option (ErrorSource String)

abbrev is_timeout : SoapErrorKind → Bool
is_timeout timeout = true
is_timeout _ = false

abbrev pub sample_core : SoapCore
sample_core = record {
  SoapError = SampleError;
  ErrorTransience = Bool;
  Detail = String;
  detail_to_string = λ d. d;
  transient = true;
  permanent = false;
  error = λ k m. record { kind = k; message = m; transience = is_timeout k; source = none };
  with_transience = λ e t. record e { transience = t };
  with_source = λ e s. record e { source = some s };
  kind = λ e. e.kind;
  transience = λ e. e.transience;
  source = λ e. e.source;
  kind-error = λ k m. refl;
  kind-with_transience = λ e t. refl;
  kind-with_source = λ e s. refl;
  transience-with_transience = λ e t. refl;
  transience-with_source = λ e s. refl;
  transience-timeout = λ m. refl;
  source-with_source = λ e s. refl;
}

abbrev pub sample_types : SqlTypes
sample_types = record {
  F64 = ℕ;
  F32 = ℕ;
  widen = λ n. n;
  Uuid = String;
  JsonValue = String;
  BigDecimal = String;
  NaiveDate = String;
  NaiveTime = String;
  NaiveDateTime = String;
  DateTimeUtc = String;
}

abbrev pub sample : External
sample = record {
  core = sample_core;
  types = sample_types;
  is_finite = λ n. true;
  f64_to_string = λ n. "0";
  FieldName = String;
  new_field_name = λ s. ok s;
  as_str = λ s. s;
  field_name_to_string = λ s. s;
  field_eq = str_eq;
  field_eq_iff = eq_iff;
  new_field_name-as_str = λ s. refl;
  validate_scalar = λ v. ok tt;
  validate_condition = λ c. ok tt;
  validate_params = λ p. ok tt;
  PgRow = String;
  PgQueryResult = ℕ;
  rows_affected = λ n. n;
  PgArguments = List (Argument sample_types);
  default_arguments = [];
  add = λ a args. ok (args ++ a ∷ []);
  contents = λ args. args;
  contents-default = refl;
  contents-add = λ a args args' h. sym (ok-injective h);
}
