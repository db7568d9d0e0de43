-- ===== src/Compiler.antt =====
-- src/postgres/compiler.rs: conditions, sorting and pagination compiled to SQL fragments.
pub mod Template
pub mod Wrote
pub mod Pieces
pub mod Writes
pub mod Clauses
pub mod Correct
pub mod Values
pub mod Accepts
pub mod Compiles
pub mod Counts
pub mod Meaning
use Prim.Native.String.{◌++◌}
use soap_sqlx.Prelude.{
  ℕ, zero, suc, ◌^◌, ℤ, pos, String, Bool, true, false, not, List, [], ◌∷◌, Option, none, some,
  Result, ok, err, ◌>>=◌, ◌>>◌, ltb, ◌&&◌, if◌then◌else◌,
}
use soap_sqlx.Sqlx.{SqlTypes}
use soap_sqlx.External.{External, SoapResult, validation, infrastructure}
use soap_sqlx.Portable.{
  ScalarValue, ScalarValues, LogicalOperator, logical_and, logical_or, Operator, eq, ne, gt, gte,
  lt, lte, like, in_set, not_in, is_null, is_not_null, Condition, Conditions, group, predicate,
  SortDirection, ascending, descending, Sort, FindParams,
}
use soap_sqlx.Mapping.{PgScalarKind, PgColumn, PgFieldMap, resolve}
use soap_sqlx.Binding.{PgBindValue, column_expression, placeholder_cast, normalize_binding}
use soap_sqlx.Output.{
  PgCompiledQuery, CompilerOutput, default_output, push_str, push_binding, finish,
}

abbrev pub is_text : PgScalarKind → Bool
is_text PgScalarKind.text = true
is_text _ = false

abbrev pub is_like : Operator → Bool
is_like like = true
is_like _ = false

abbrev pub is_in : Operator → Bool
is_in in_set = true
is_in _ = false

abbrev pub separator : LogicalOperator → String
separator logical_and = " AND "
separator logical_or = " OR "

abbrev pub direction_text : SortDirection → String
direction_text ascending = " ASC NULLS FIRST"
direction_text descending = " DESC NULLS LAST"

-- `if index > 0 { push_str(text) }`
abbrev pub push_after_first : {t : SqlTypes} → ℕ → String → CompilerOutput t → CompilerOutput t
push_after_first zero text output = output
push_after_first (suc _) text output = push_str text output

abbrev pub text_is_empty : String → Bool
text_is_empty String.[] = true
text_is_empty (String.◌∷◌ _ _) = false

abbrev pub separate_clause : {t : SqlTypes} → CompilerOutput t → CompilerOutput t
separate_clause output = if not (text_is_empty output.sql) then push_str " " output else output

module _ (x : External) where
  -- `i64::try_from` of an unsigned number.
  abbrev pub to_i64 : ℕ → String → SoapResult x ℤ
  to_i64 n message = if ltb n (2 ^ 63) then ok (pos n) else err (x.error validation message)

  abbrev Output : Type 0
  Output = CompilerOutput x.types

  -- The operators of the last arm; the others are the branch that cannot be reached.
  abbrev pub comparison_text : Operator → SoapResult x String
  comparison_text eq = ok " = "
  comparison_text ne = ok " <> "
  comparison_text gt = ok " > "
  comparison_text gte = ok " >= "
  comparison_text lt = ok " < "
  comparison_text lte = ok " <= "
  comparison_text like = ok " LIKE "
  comparison_text _ = err (x.error infrastructure "unexpected PostgreSQL compiler operator branch")

  -- The loop over the values of a set operator.
  write_values : PgScalarKind → ℕ → ScalarValues x.F64 → Output → SoapResult x Output
  write_values kind index ScalarValues.nil output = ok output
  write_values kind index (ScalarValues.cons value values) output = do
    binding ← normalize_binding x kind value
    write_values kind (suc index) values
        (push_binding binding (placeholder_cast kind) (push_after_first index ", " output))

  -- The arm of `In` and `NotIn`.
  write_set : PgColumn → Operator → Option (ScalarValue x.F64) → Output → SoapResult x Output
  write_set column operator (some (ScalarValue.list ScalarValues.nil)) output = ok (
      if is_in operator
      then push_str "FALSE" output
      else push_str " IS NOT NULL" (push_str (column_expression column) output))
  write_set column operator (some (ScalarValue.list (ScalarValues.cons value values))) output = do
    let opened = push_str (column_expression column) output
    written ←
        write_values column.scalar_kind 0 (ScalarValues.cons value values)
          (push_str (if is_in operator then " IN (" else " NOT IN (") opened)
    ok (push_str ")" written)
  write_set column operator _ output = err (x.error validation "set operator requires a list value")

  -- The last arm.
  write_comparison : PgColumn → Operator → Option (ScalarValue x.F64) → Output → SoapResult x Output
  write_comparison column operator none output =
      err (x.error validation "comparison operator requires a value")
  write_comparison column operator (some value) output = do
    binding ← normalize_binding x column.scalar_kind value
    text ← comparison_text operator
    let named = push_str text (push_str (column_expression column) output)
    let bound = push_binding binding (placeholder_cast column.scalar_kind) named
    ok (if is_like operator then push_str " ESCAPE ''" bound else bound)

  -- The match of `write_predicate` on the operator.
  write_operator : PgColumn → Operator → Option (ScalarValue x.F64) → Output → SoapResult x Output
  write_operator column is_null value output =
      ok (push_str " IS NULL" (push_str (column_expression column) output))
  write_operator column is_not_null value output =
      ok (push_str " IS NOT NULL" (push_str (column_expression column) output))
  write_operator column in_set value output = write_set column in_set value output
  write_operator column not_in value output = write_set column not_in value output
  write_operator column operator value output = write_comparison column operator value output

  pub write_predicate :
      PgColumn → Operator → Option (ScalarValue x.F64) → Output → SoapResult x Output
  unfolding write_operator write_set write_comparison write_values
  write_predicate column operator value output =
      if is_like operator && not (is_text column.scalar_kind)
      then err (x.error validation "LIKE requires a PostgreSQL text column")
      else write_operator column operator value output

  module _ (fields : PgFieldMap x) where
    mutual
      pub write_condition : Condition x.FieldName x.F64 → Output → SoapResult x Output
      write_condition (group operator conditions) output = do
        written ← write_conditions conditions (separator operator) 0 (push_str "(" output)
        ok (push_str ")" written)
      write_condition (predicate field operator value) output = do
        column ← resolve x fields field
        write_predicate column operator value output

      -- The loop over the conditions of a group.
      pub write_conditions :
          Conditions x.FieldName x.F64 → String → ℕ → Output → SoapResult x Output
      write_conditions Conditions.nil between index output = ok output
      write_conditions (Conditions.cons condition conditions) between index output = do
        written ← write_condition condition (push_after_first index between output)
        write_conditions conditions between (suc index) written

    unfoldable pub compile_condition :
        Condition x.FieldName x.F64 → SoapResult x (PgCompiledQuery x.types)
    unfolding write_condition write_predicate
    compile_condition condition = do
      x.validate_condition condition
      output ← write_condition condition default_output
      ok (finish output)

    -- `if let Some(condition) = &params.condition { … }`
    pub write_where : Option (Condition x.FieldName x.F64) → Output → SoapResult x Output
    write_where none output = ok output
    write_where (some condition) output = write_condition condition (push_str "WHERE " output)

    -- The loop over the sort keys.
    write_sorts : List (Sort x.FieldName) → ℕ → Output → SoapResult x Output
    write_sorts [] index output = ok output
    write_sorts (sort ∷ rest) index output = do
      column ← resolve x fields sort.field
      write_sorts rest (suc index) (
          push_str (direction_text sort.direction)
            (push_str (column_expression column) (push_after_first index ", " output)))

    pub write_order : List (Sort x.FieldName) → Output → SoapResult x Output
    write_order [] output = ok output
    write_order (sort ∷ rest) output =
        write_sorts (sort ∷ rest) 0 (push_str "ORDER BY " (separate_clause output))

    pub write_limit : Option ℕ → Output → SoapResult x Output
    write_limit none output = ok output
    write_limit (some limit) output = do
      limit' ← to_i64 limit "PostgreSQL limit exceeds BIGINT range"
      ok (push_binding (PgBindValue.i64 limit') none (push_str "LIMIT " (separate_clause output)))

    pub write_offset : ℕ → Output → SoapResult x Output
    write_offset zero output = ok output
    write_offset (suc n) output = do
      offset ← to_i64 (suc n) "PostgreSQL offset exceeds BIGINT range"
      ok (push_binding (PgBindValue.i64 offset) none (push_str "OFFSET " (separate_clause output)))

    unfoldable pub compile_find :
        FindParams x.FieldName x.F64 → SoapResult x (PgCompiledQuery x.types)
    unfolding write_condition write_predicate write_where write_sorts write_order write_limit
        write_offset
    compile_find params = do
      x.validate_params params
      filtered ← write_where params.condition default_output
      sorted ← write_order params.sort filtered
      limited ← write_limit params.limit sorted
      output ← write_offset params.offset limited
      ok (finish output)

    unfoldable pub compile_count :
        FindParams x.FieldName x.F64 → SoapResult x (PgCompiledQuery x.types)
    unfolding write_condition write_predicate write_where
    compile_count params = do
      x.validate_params params
      output ← write_where params.condition default_output
      ok (finish output)
