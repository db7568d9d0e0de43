-- ===== src/Compiler/Pieces.antt =====
-- The pieces of SQL that a condition and the parameters of a search stand for: the portable query
-- language's translation, stated with no output, no index and no error path.
use soap_sqlx.Prelude.{
  ℕ, zero, suc, String, List, [], ◌∷◌, ◌++◌, Option, none, some, Result, ok, err,
}
use soap_sqlx.External.{External}
use soap_sqlx.Portable.{
  ScalarValue, ScalarValues, Operator, eq, ne, gt, gte, lt, lte, like, in_set, not_in, is_null,
  is_not_null, Condition, Conditions, group, predicate, Sort, FindParams,
}
use soap_sqlx.Mapping.{PgScalarKind, PgColumn, PgFieldMap, resolve}
use soap_sqlx.Binding.{column_expression}
use soap_sqlx.Compiler.{separator, direction_text}
use soap_sqlx.Compiler.Template.{Piece, literal, value, page}

abbrev pub after_first : {F64 : Type 0} → ℕ → String → List (Piece F64)
after_first zero s = []
after_first (suc _) s = literal s ∷ []

-- The items from the `index`-th on, with the separator between any two.
abbrev pub joined : {F64 : Type 0} → ℕ → String → List (List (Piece F64)) → List (Piece F64)
joined index s [] = []
joined index s (item ∷ items) = after_first index s ++ (item ++ joined (suc index) s items)

abbrev pub operator_text : Operator → String
operator_text eq = " = "
operator_text ne = " <> "
operator_text gt = " > "
operator_text gte = " >= "
operator_text lt = " < "
operator_text lte = " <= "
operator_text like = " LIKE "
operator_text _ = ""

abbrev pub value_items : {F64 : Type 0} → PgScalarKind → ScalarValues F64 → List (List (Piece F64))
value_items kind ScalarValues.nil = []
value_items kind (ScalarValues.cons v vs) = (value kind v ∷ []) ∷ value_items kind vs

-- `column IN (…)` or `column NOT IN (…)`, and what stands for the empty set.
abbrev pub set_pieces :
    {F64 : Type 0}
    → PgColumn
    → String
    → List (Piece F64)
    → Option (ScalarValue F64)
    → List (Piece F64)
set_pieces column opening if_empty (some (ScalarValue.list ScalarValues.nil)) = if_empty
set_pieces column opening if_empty (some (ScalarValue.list (ScalarValues.cons v vs))) =
    literal (column_expression column)
    ∷ literal opening
    ∷ (joined 0 ", " (value_items column.scalar_kind (ScalarValues.cons v vs)) ++ literal ")" ∷ [])
set_pieces column opening if_empty _ = []

abbrev pub comparison_pieces :
    {F64 : Type 0} → PgColumn → Operator → Option (ScalarValue F64) → List (Piece F64)
comparison_pieces column operator none = []
comparison_pieces column operator (some v) =
    literal (column_expression column)
    ∷ literal (operator_text operator)
    ∷ value column.scalar_kind v
    ∷ []

abbrev pub predicate_pieces :
    {F64 : Type 0} → PgColumn → Operator → Option (ScalarValue F64) → List (Piece F64)
predicate_pieces column is_null v = literal (column_expression column) ∷ literal " IS NULL" ∷ []
predicate_pieces column is_not_null v =
    literal (column_expression column) ∷ literal " IS NOT NULL" ∷ []
predicate_pieces column in_set v = set_pieces column " IN (" (literal "FALSE" ∷ []) v
predicate_pieces column not_in v =
    set_pieces column " NOT IN (" (literal (column_expression column) ∷ literal " IS NOT NULL" ∷ [])
      v
predicate_pieces column like v = comparison_pieces column like v ++ literal " ESCAPE ''" ∷ []
predicate_pieces column operator v = comparison_pieces column operator v

-- What is written for a field, if it is mapped.
abbrev pub at_column :
    {E F64 : Type 0} → Result E PgColumn → (PgColumn → List (Piece F64)) → List (Piece F64)
at_column (ok column) write = write column
at_column (err _) write = []

module _ (x : External) (fields : PgFieldMap x) where
  unfoldable mutual
    pub condition_pieces : Condition x.FieldName x.F64 → List (Piece x.F64)
    condition_pieces (group operator conditions) =
        literal "("
        ∷ (joined 0 (separator operator) (condition_items conditions) ++ literal ")" ∷ [])
    condition_pieces (predicate field operator v) =
        at_column (resolve x fields field) (λ column. predicate_pieces column operator v)

    pub condition_items : Conditions x.FieldName x.F64 → List (List (Piece x.F64))
    condition_items Conditions.nil = []
    condition_items (Conditions.cons condition conditions) =
        condition_pieces condition ∷ condition_items conditions

  abbrev pub sort_items : List (Sort x.FieldName) → List (List (Piece x.F64))
  sort_items [] = []
  sort_items (sort ∷ sorts) =
      at_column (resolve x fields sort.field) (λ column.
        literal (column_expression column) ∷ literal (direction_text sort.direction) ∷ [])
      ∷ sort_items sorts

  -- The clauses of a search, each present or not.
  abbrev pub where_clause : Option (Condition x.FieldName x.F64) → List (List (Piece x.F64))
  where_clause none = []
  where_clause (some c) = (literal "WHERE " ∷ condition_pieces c) ∷ []

  abbrev pub order_clause : List (Sort x.FieldName) → List (List (Piece x.F64))
  order_clause [] = []
  order_clause (sort ∷ sorts) =
      (literal "ORDER BY " ∷ joined 0 ", " (sort_items (sort ∷ sorts))) ∷ []

abbrev pub limit_clause : {F64 : Type 0} → Option ℕ → List (List (Piece F64))
limit_clause none = []
limit_clause (some n) = (literal "LIMIT " ∷ page n ∷ []) ∷ []

abbrev pub offset_clause : {F64 : Type 0} → ℕ → List (List (Piece F64))
offset_clause zero = []
offset_clause (suc n) = (literal "OFFSET " ∷ page (suc n) ∷ []) ∷ []

-- A search is its clauses with one space between any two.
abbrev pub find_pieces :
    (x : External) → PgFieldMap x → FindParams x.FieldName x.F64 → List (Piece x.F64)
find_pieces x fields params = joined 0 " " (
    where_clause x fields params.condition
    ++ (order_clause x fields params.sort
        ++ (limit_clause params.limit ++ offset_clause params.offset)))

abbrev pub count_pieces :
    (x : External) → PgFieldMap x → FindParams x.FieldName x.F64 → List (Piece x.F64)
count_pieces x fields params = joined 0 " " (where_clause x fields params.condition)
