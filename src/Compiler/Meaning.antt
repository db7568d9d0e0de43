-- ===== src/Compiler/Meaning.antt =====
-- What a condition of the portable query language says, as a condition of the SQL grammar: the same
-- junctions and tests on the mapped columns, with placeholders numbered from left to right.
pub mod Predicates
pub mod Counted
pub mod Readable
pub mod Printed
pub mod Searches
pub mod Clauses
pub mod Compiled
use soap_sqlx.Prelude.{ℕ, suc, ◌+◌, String, List, [], ◌∷◌, Option, none, some, Result, ok, err}
use soap_sqlx.External.{External}
use soap_sqlx.Portable.{
  ScalarValue, ScalarValues, LogicalOperator, Operator, eq, ne, gt, gte, lt, lte, like, in_set,
  not_in, is_null, is_not_null, Condition, Conditions, group, predicate,
}
use soap_sqlx.Mapping.{PgScalarKind, PgColumn, PgFieldMap, resolve}
use soap_sqlx.Binding.{placeholder_cast}
use soap_sqlx.Sql.{
  Form, plain, as_numeric, collated, Column, Hole, Comparator, equal, unequal, greater, at_least,
  less, at_most, Test, null, not_null, compares, resembles, among, not_among, Sql, Sqls, falsity,
  test, single, several,
}
use soap_sqlx.Sql.Chars.{Text, chars}

-- Numbers are compared as `numeric`, texts by their bytes.
abbrev pub form_of : PgScalarKind → Form
form_of PgScalarKind.numeric = as_numeric
form_of PgScalarKind.text = collated
form_of _ = plain

abbrev pub column_of : PgColumn → Column
column_of column = record { name = chars column.identifier.text; form = form_of column.scalar_kind }

abbrev pub text_of : Option String → Option Text
text_of none = none
text_of (some s) = some (chars s)

-- The placeholder after `n` others.
abbrev pub hole_of : ℕ → PgScalarKind → Hole
hole_of n kind = record { number = suc n; cast = text_of (placeholder_cast kind) }

abbrev pub holes_of : {F64 : Type 0} → ℕ → PgScalarKind → ScalarValues F64 → List Hole
holes_of n kind ScalarValues.nil = []
holes_of n kind (ScalarValues.cons v vs) = hole_of n kind ∷ holes_of (suc n) kind vs

abbrev pub comparison_of : Operator → Hole → Test
comparison_of eq h = compares equal h
comparison_of ne h = compares unequal h
comparison_of gt h = compares greater h
comparison_of gte h = compares at_least h
comparison_of lt h = compares less h
comparison_of lte h = compares at_most h
comparison_of _ h = resembles h

-- A set has its first placeholder apart; nothing is in the empty set, and all but null is not.
abbrev pub set_of :
    {F64 : Type 0}
    → Sql
    → (Hole → List Hole → Sql)
    → ℕ
    → PgScalarKind
    → Option (ScalarValue F64)
    → Sql
set_of if_empty set n kind (some (ScalarValue.list (ScalarValues.cons v vs))) =
    set (hole_of n kind) (holes_of (suc n) kind vs)
set_of if_empty set n kind _ = if_empty

abbrev pub predicate_of : {F64 : Type 0} → ℕ → PgColumn → Operator → Option (ScalarValue F64) → Sql
predicate_of n column is_null v = test (column_of column) null
predicate_of n column is_not_null v = test (column_of column) not_null
predicate_of n column in_set v =
    set_of falsity (λ h hs. test (column_of column) (among h hs)) n column.scalar_kind v
predicate_of n column not_in v =
    set_of (test (column_of column) not_null) (λ h hs. test (column_of column) (not_among h hs)) n
      column.scalar_kind v
predicate_of n column operator v =
    test (column_of column) (comparison_of operator (hole_of n column.scalar_kind))

abbrev pub on_mapped : {E : Type 0} → Result E PgColumn → (PgColumn → Sql) → Sql
on_mapped (ok column) say = say column
on_mapped (err _) say = falsity

-- A group of one item is that item in parentheses. The grammar has no empty group.
abbrev pub junction : LogicalOperator → Sqls → Sql
junction op Sqls.nil = falsity
junction op (Sqls.cons a Sqls.nil) = single a
junction op (Sqls.cons a (Sqls.cons b cs)) = several op a b cs

-- The values of a condition, each of which is bound to a placeholder of its own.
abbrev pub count_values : {F64 : Type 0} → ScalarValues F64 → ℕ
count_values ScalarValues.nil = 0
count_values (ScalarValues.cons v vs) = suc (count_values vs)

abbrev pub predicate_values : {F64 : Type 0} → Operator → Option (ScalarValue F64) → ℕ
predicate_values is_null v = 0
predicate_values is_not_null v = 0
predicate_values in_set (some (ScalarValue.list vs)) = count_values vs
predicate_values not_in (some (ScalarValue.list vs)) = count_values vs
predicate_values _ none = 0
predicate_values _ (some v) = 1

unfoldable mutual
  pub values_in : {FieldName F64 : Type 0} → Condition FieldName F64 → ℕ
  values_in (group op cs) = values_in_all cs
  values_in (predicate field operator v) = predicate_values operator v

  pub values_in_all : {FieldName F64 : Type 0} → Conditions FieldName F64 → ℕ
  values_in_all Conditions.nil = 0
  values_in_all (Conditions.cons c cs) = values_in c + values_in_all cs

module _ (x : External) (fields : PgFieldMap x) where
  unfoldable mutual
    pub sql_of : ℕ → Condition x.FieldName x.F64 → Sql
    sql_of n (group op cs) = junction op (sqls_of n cs)
    sql_of n (predicate field operator v) =
        on_mapped (resolve x fields field) (λ column. predicate_of n column operator v)

    pub sqls_of : ℕ → Conditions x.FieldName x.F64 → Sqls
    sqls_of n Conditions.nil = Sqls.nil
    sqls_of n (Conditions.cons c cs) = Sqls.cons (sql_of n c) (sqls_of (n + values_in c) cs)
