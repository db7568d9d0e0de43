-- ===== src/Portable.antt =====
-- The portable query values of `soaprs_repository`: the shapes that src/postgres matches on, each
-- with exactly the variants that its exhaustive matches name. What that crate does with them
-- (validation, field names) is a parameter, in `External`.
use soap_sqlx.Prelude.{ℕ, ℤ, Bool, String, Option, List}

-- A scalar of a query; `list` holds its elements in a type of the same block.
mutual
  pub data ScalarValue (F64 : Type 0) : Type 0 where
    null : ScalarValue F64
    bool : Bool → ScalarValue F64
    i64 : ℤ → ScalarValue F64
    u64 : ℕ → ScalarValue F64
    f64 : F64 → ScalarValue F64
    string : String → ScalarValue F64
    bytes : List ℕ → ScalarValue F64
    list : ScalarValues F64 → ScalarValue F64

  pub data ScalarValues (F64 : Type 0) : Type 0 where
    nil : ScalarValues F64
    cons : ScalarValue F64 → ScalarValues F64 → ScalarValues F64

pub data LogicalOperator : Type 0 where
  logical_and logical_or : LogicalOperator

pub data Operator : Type 0 where
  eq ne gt gte lt lte like in_set not_in is_null is_not_null : Operator

mutual
  pub data Condition (FieldName F64 : Type 0) : Type 0 where
    group : LogicalOperator → Conditions FieldName F64 → Condition FieldName F64
    predicate : FieldName → Operator → Option (ScalarValue F64) → Condition FieldName F64

  pub data Conditions (FieldName F64 : Type 0) : Type 0 where
    nil : Conditions FieldName F64
    cons : Condition FieldName F64 → Conditions FieldName F64 → Conditions FieldName F64

pub data SortDirection : Type 0 where
  ascending descending : SortDirection

pub record Sort (FieldName : Type 0) : Type 0 where
  pub field : FieldName
  pub direction : SortDirection

pub record FindParams (FieldName F64 : Type 0) : Type 0 where
  pub condition : Option (Condition FieldName F64)
  pub sort : List (Sort FieldName)
  pub limit : Option ℕ
  pub offset : ℕ
