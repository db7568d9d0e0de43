-- ===== src/External.antt =====
-- The code that is not in the repository, as one interface that every module takes: `soaprs_core`
-- (errors), `soaprs_repository` (field names, validation) and SQLx (arguments, rows), with the
-- documented behaviour that the program relies on as laws.
use soap_sqlx.Prelude.{
  ℕ, ◌≡◌, ◌↔◌, Bool, true, String, Option, some, List, [], ◌∷◌, ◌++◌, Result, ok,
}
use soap_sqlx.Portable.{ScalarValue, Condition, FindParams}
use soap_sqlx.Sqlx.{SqlTypes, Argument, SqlxError, ErrorSource}

-- The kinds of `SoapErrorKind` that the constructors called here give.
pub data SoapErrorKind : Type 0 where
  validation not_found timeout unavailable infrastructure conflict unsupported : SoapErrorKind

-- `soaprs_core::SoapError`.
pub record SoapCore : Type 1 where
  pub SoapError : Type 0
  pub ErrorTransience : Type 0
  pub Detail : Type 0
  -- `Display` of a payload of the driver, which the mapping has at hand
  pub detail_to_string : Detail → String
  pub transient : ErrorTransience
  pub permanent : ErrorTransience
  -- `SoapError::validation(message)` and so on
  pub error : SoapErrorKind → String → SoapError
  pub with_transience : SoapError → ErrorTransience → SoapError
  pub with_source : SoapError → ErrorSource Detail → SoapError
  pub kind : SoapError → SoapErrorKind
  pub transience : SoapError → ErrorTransience
  pub source : SoapError → Option (ErrorSource Detail)
  pub kind-error : (k : SoapErrorKind) (m : String) → kind (error k m) ≡ k
  pub kind-with_transience :
      (e : SoapError) (t : ErrorTransience) → kind (with_transience e t) ≡ kind e
  pub kind-with_source : (e : SoapError) (s : ErrorSource Detail) → kind (with_source e s) ≡ kind e
  pub transience-with_transience :
      (e : SoapError) (t : ErrorTransience) → transience (with_transience e t) ≡ t
  pub transience-with_source :
      (e : SoapError) (s : ErrorSource Detail) → transience (with_source e s) ≡ transience e
  pub transience-timeout : (m : String) → transience (error timeout m) ≡ transient
  pub source-with_source :
      (e : SoapError) (s : ErrorSource Detail) → source (with_source e s) ≡ some s

pub record External : Type 1 where
  pub core : SoapCore
  pub open core use *
  pub types : SqlTypes
  pub open types use *
  -- `f64` of the standard library
  pub is_finite : F64 → Bool
  pub f64_to_string : F64 → String
  -- `soaprs_repository::FieldName`
  pub FieldName : Type 0
  pub new_field_name : String → Result SoapError FieldName
  pub as_str : FieldName → String
  pub field_name_to_string : FieldName → String
  pub field_eq : FieldName → FieldName → Bool
  pub field_eq_iff : (a b : FieldName) → (field_eq a b ≡ true) ↔ (a ≡ b)
  pub new_field_name-as_str : (f : FieldName) → new_field_name (as_str f) ≡ ok f
  -- `validate` of the portable values
  pub validate_scalar : ScalarValue F64 → Result SoapError (Unit {0})
  pub validate_condition : Condition FieldName F64 → Result SoapError (Unit {0})
  pub validate_params : FindParams FieldName F64 → Result SoapError (Unit {0})
  -- `sqlx::postgres`
  pub PgRow : Type 0
  pub PgQueryResult : Type 0
  pub rows_affected : PgQueryResult → ℕ
  pub PgArguments : Type 0
  pub default_arguments : PgArguments
  pub add : Argument types → PgArguments → Result Detail PgArguments
  -- `add` appends to what the arguments hold
  pub contents : PgArguments → List (Argument types)
  pub contents-default : contents default_arguments ≡ []
  pub contents-add :
      (a : Argument types) (args args' : PgArguments)
      → add a args ≡ ok args'
      → contents args' ≡ contents args ++ a ∷ []

-- The program's `SoapResult` and `sqlx` result.
abbrev pub SoapResult : External → Type 0 → Type 0
SoapResult x A = Result x.SoapError A

abbrev pub SqlxResult : External → Type 0 → Type 0
SqlxResult x A = Result (SqlxError x.Detail) A
