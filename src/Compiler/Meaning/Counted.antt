-- ===== src/Compiler/Meaning/Counted.antt =====
-- The pieces of a condition have a placeholder for each of its values.
use mathlib.Core.List.{◌++◌}
use soap_sqlx.Prelude.{ℕ, zero, suc, String, List, [], ◌∷◌, Option, none, some, ◌≡◌, refl, arith}
use soap_sqlx.External.{External}
use soap_sqlx.Portable.{
  ScalarValue, ScalarValues, Operator, in_set, not_in, is_null, is_not_null, Condition, Conditions,
  group, predicate,
}
use soap_sqlx.Mapping.{PgScalarKind, PgColumn, PgFieldMap}
use soap_sqlx.Compiler.{separator}
use soap_sqlx.Compiler.Template.{Piece, literal, holes, holes-append}
use soap_sqlx.Compiler.Pieces.{
  after_first, joined, value_items, predicate_pieces, condition_pieces, condition_items,
}
use soap_sqlx.Compiler.Accepts.{Takes}
use soap_sqlx.Compiler.Compiles.{IsWellTyped, AllWellTyped}
use soap_sqlx.Compiler.Meaning.{count_values, predicate_values, values_in, values_in_all}

pub holes-after_first :
    {F64 : Type 0} (i : ℕ) (s : String) (pieces : List (Piece F64))
    → holes (after_first i s ++ pieces) ≡ holes pieces
unfolding holes
holes-after_first zero s pieces = refl
holes-after_first (suc i) s pieces = refl

holes-value_items :
    {F64 : Type 0} (i : ℕ) (kind : PgScalarKind) (vs : ScalarValues F64)
    → holes (joined i ", " (value_items kind vs)) ≡ count_values vs
unfolding holes
holes-value_items i kind ScalarValues.nil = refl
holes-value_items i kind (ScalarValues.cons v vs) =
    rw (holes-after_first, holes-value_items (suc i) kind vs) refl

holes-close :
    {F64 : Type 0} (pieces : List (Piece F64)) → holes (pieces ++ literal ")" ∷ []) ≡ holes pieces
unfolding holes
holes-close pieces = omega (arith, holes-append pieces (literal ")" ∷ []))

module _ (x : External) where
  holes-predicate_pieces :
      (column : PgColumn) (operator : Operator) (v : Option (ScalarValue x.F64))
      → Takes x column operator v
      → holes (predicate_pieces column operator v) ≡ predicate_values operator v
  unfolding holes
  holes-predicate_pieces column is_null v takes = refl
  holes-predicate_pieces column is_not_null v takes = refl
  holes-predicate_pieces column in_set (some (ScalarValue.list ScalarValues.nil)) takes = refl
  holes-predicate_pieces column in_set (some (ScalarValue.list (ScalarValues.cons v vs))) takes =
      rw (holes-close, holes-value_items 0 column.scalar_kind (ScalarValues.cons v vs)) refl
  holes-predicate_pieces column not_in (some (ScalarValue.list ScalarValues.nil)) takes = refl
  holes-predicate_pieces column not_in (some (ScalarValue.list (ScalarValues.cons v vs))) takes =
      rw (holes-close, holes-value_items 0 column.scalar_kind (ScalarValues.cons v vs)) refl
  holes-predicate_pieces column in_set _ takes = absurd takes
  holes-predicate_pieces column not_in _ takes = absurd takes
  holes-predicate_pieces column operator none takes = absurd takes
  holes-predicate_pieces column operator (some v) takes = refl

  module _ (fields : PgFieldMap x) where
    mutual
      unfolding holes condition_pieces values_in

      pub holes-condition_pieces :
          (c : Condition x.FieldName x.F64)
          → IsWellTyped x fields c
          → holes (condition_pieces x fields c) ≡ values_in c
      holes-condition_pieces (group op cs) typed =
          rw (holes-close, holes-condition_items 0 (separator op) cs typed) refl
      holes-condition_pieces (predicate field operator v) (column, found, takes) =
          rw found (holes-predicate_pieces column operator v takes)

      holes-condition_items :
          (i : ℕ) (s : String) (cs : Conditions x.FieldName x.F64)
          → AllWellTyped x fields cs
          → holes (joined i s (condition_items x fields cs)) ≡ values_in_all cs
      holes-condition_items i s Conditions.nil typed = refl
      holes-condition_items i s (Conditions.cons c cs) (typed, typeds) =
          rw
            (
              holes-after_first,
              holes-append,
              holes-condition_pieces c typed,
              holes-condition_items (suc i) s cs typeds,
            )
            refl
