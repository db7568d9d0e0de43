-- ===== src/Source/Calls.antt =====
-- Calls of the five methods of `PgSource` as data, for statements about schedules of calls.
use soap_sqlx.Prelude.{String, Option, none, some, Result, ok, err}
use soap_sqlx.Sqlx.{SqlxError}
use soap_sqlx.External.{External}
use soap_sqlx.Source.{PgSource}

-- A call of one of the five methods.
pub data Call (x : External) : Type 0 where
  fetch_all fetch_optional fetch_one apply apply_one : String → x.PgArguments → Call x

abbrev pub error_of : {E A : Type 0} → Result E A → Option E
error_of (ok _) = none
error_of (err e) = some e

abbrev pub IsRead : {x : External} → Call x → Type 0
IsRead (apply _ _) = ⊥
IsRead (apply_one _ _) = ⊥
IsRead _ = Unit

module _ {x : External} {S : Type 0} where
  -- The state after a call.
  abbrev pub perform : PgSource x S → Call x → S → S
  perform source (fetch_all sql arguments) s = (source.fetch_all sql arguments s).1
  perform source (fetch_optional sql arguments) s = (source.fetch_optional sql arguments s).1
  perform source (fetch_one sql arguments) s = (source.fetch_one sql arguments s).1
  perform source (apply sql arguments) s = (source.apply sql arguments s).1
  perform source (apply_one sql arguments) s = (source.apply_one sql arguments s).1

  -- The error that a call ends in, if it does.
  abbrev pub failure : PgSource x S → Call x → S → Option (SqlxError x.Detail)
  failure source (fetch_all sql arguments) s = error_of (source.fetch_all sql arguments s).0
  failure source (fetch_optional sql arguments) s =
      error_of (source.fetch_optional sql arguments s).0
  failure source (fetch_one sql arguments) s = error_of (source.fetch_one sql arguments s).0
  failure source (apply sql arguments) s = error_of (source.apply sql arguments s).0
  failure source (apply_one sql arguments) s = error_of (source.apply_one sql arguments s).0
