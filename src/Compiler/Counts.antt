-- ===== src/Compiler/Counts.antt =====
-- Counts against searches (src/postgres/compiler.rs).
use soap_sqlx.Prelude.{◌≡◌, refl, [], none}
use soap_sqlx.External.{External}
use soap_sqlx.Portable.{FindParams}
use soap_sqlx.Mapping.{PgFieldMap}
use soap_sqlx.Compiler.{write_order, write_limit, write_offset, compile_find, compile_count}

-- The same search with neither order nor pages.
abbrev pub filter_only :
    {FieldName F64 : Type 0} → FindParams FieldName F64 → FindParams FieldName F64
filter_only params = record params { sort = []; limit = none; offset = 0 }

module _ (x : External) (fields : PgFieldMap x) where
  -- If dropping the order, the limit and the offset of a search leaves the result of its
  -- validation as it is, counting the search compiles to the very result of compiling it without
  -- them, errors included.
  pub compile_count-eq-compile_find :
      (params : FindParams x.FieldName x.F64)
      → x.validate_params (filter_only params) ≡ x.validate_params params
      → compile_count x fields params ≡ compile_find x fields (filter_only params)
  unfolding compile_count compile_find write_order write_limit write_offset
  compile_count-eq-compile_find params same = rw (same, compile_find, compile_count) refl
