-- ===== src/Output.antt =====
-- src/postgres/compiler.rs: the writer's output, the finished query, and its conversion to SQLx
-- arguments.
pub mod Arguments
use Prim.Native.String.{◌++◌}
use mathlib.Core.List.{◌++◌ as append}
use soap_sqlx.Prelude.{
  String, List, [], ◌∷◌, Option, none, some, Result, ok, err, ◌>>=◌, map_err, length, nat_to_string,
}
use soap_sqlx.Sqlx.{SqlTypes, Argument, PgBindingEncodeError, binding_encode}
use soap_sqlx.External.{External, SoapResult, infrastructure}
use soap_sqlx.Mapping.{PgScalarKind}
use soap_sqlx.Binding.{PgBindValue}

module _ (t : SqlTypes) where
  pub record PgCompiledQuery : Type 0 where
    pub sql : String
    pub bindings : List (PgBindValue t)

  pub record CompilerOutput : Type 0 where
    pub sql : String
    pub bindings : List (PgBindValue t)

-- `if let Some(cast) = cast { … }`
abbrev pub push_cast : Option String → String → String
push_cast (some cast) sql = (sql ++ "::") ++ cast
push_cast none sql = sql

module _ {t : SqlTypes} where
  abbrev pub from_bindings : List (PgBindValue t) → PgCompiledQuery t
  from_bindings bindings = record { sql = ""; bindings = bindings }

  abbrev pub default_output : CompilerOutput t
  default_output = record { sql = ""; bindings = [] }

  -- `output.sql.push_str(text)`
  abbrev pub push_str : String → CompilerOutput t → CompilerOutput t
  push_str s output = record output { sql = output.sql ++ s }

  unfoldable pub push_binding : PgBindValue t → Option String → CompilerOutput t → CompilerOutput t
  push_binding binding cast output =
      let bindings = append output.bindings (binding ∷ []) in
      record {
        sql = push_cast cast ((output.sql ++ "$") ++ nat_to_string (length bindings));
        bindings = bindings;
      }

  abbrev pub finish : CompilerOutput t → PgCompiledQuery t
  finish output = record { sql = output.sql; bindings = output.bindings }

  abbrev pub into_parts : PgCompiledQuery t → String × List (PgBindValue t)
  into_parts q = (q.sql, q.bindings)

  -- The Rust value that a binding adds.
  unfoldable pub argument : PgBindValue t → Argument t
  argument (PgBindValue.bool value) = Argument.bool value
  argument (PgBindValue.numeric value) = Argument.string value
  argument (PgBindValue.text value) = Argument.string value
  argument (PgBindValue.bytes value) = Argument.bytes value
  argument (PgBindValue.uuid value) = Argument.uuid value
  argument (PgBindValue.json value) = Argument.json value
  argument (PgBindValue.decimal value) = Argument.decimal value
  argument (PgBindValue.date value) = Argument.date value
  argument (PgBindValue.time value) = Argument.time value
  argument (PgBindValue.timestamp value) = Argument.timestamp value
  argument (PgBindValue.timestamp_tz value) = Argument.timestamp_tz value
  argument (PgBindValue.i64 value) = Argument.i64 value
  argument (PgBindValue.null PgScalarKind.bool) = Argument.none_bool
  argument (PgBindValue.null PgScalarKind.bytes) = Argument.none_bytes
  argument (PgBindValue.null _) = Argument.none_string

module _ (x : External) where
  abbrev pub encode_error : x.Detail → x.SoapError
  encode_error source =
      x.with_source (x.error infrastructure "failed to encode a PostgreSQL query binding")
        (binding_encode (record { inner = source }))

  -- The loop of `into_arguments`.
  add_all : List (PgBindValue x.types) → x.PgArguments → SoapResult x x.PgArguments
  add_all [] arguments = ok arguments
  add_all (binding ∷ rest) arguments = do
    arguments' ← map_err encode_error (x.add (argument binding) arguments)
    add_all rest arguments'

  unfoldable pub into_arguments : PgCompiledQuery x.types → SoapResult x x.PgArguments
  unfolding add_all
  into_arguments q = add_all q.bindings x.default_arguments

  unfoldable pub into_sqlx_parts : PgCompiledQuery x.types → SoapResult x (String × x.PgArguments)
  unfolding into_arguments
  into_sqlx_parts q = do arguments ← into_arguments q; ok (q.sql, arguments)
