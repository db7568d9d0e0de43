-- ===== src/Compiler/Values.antt =====
-- Queries of src/postgres/compiler.rs with their values forgotten, and the SQL text of the two.
use soap_sqlx.Prelude.{
  ℕ, zero, suc, String, List, [], ◌∷◌, Option, none, some, ok, ◌≡◌, refl, sym, ap, ◌∙◌, map,
  Result-cases, inl, inr,
}
use mathlib.Core.List.{map-append}
use mathlib.Core.Path.{◌≡⟨◌⟩◌, ◌∎}
use soap_sqlx.External.{External}
use soap_sqlx.Portable.{
  ScalarValue, ScalarValues, Operator, in_set, not_in, is_null, is_not_null, Condition, Conditions,
  group, predicate, FindParams,
}
use soap_sqlx.Mapping.{PgScalarKind, PgColumn, PgFieldMap, resolve}
use soap_sqlx.Output.{PgCompiledQuery}
use soap_sqlx.Compiler.{compile_condition, compile_find, separator}
use soap_sqlx.Compiler.Template.{Piece, literal, value, page, render}
use soap_sqlx.Compiler.Pieces.{
  joined, value_items, set_pieces, predicate_pieces, condition_pieces, condition_items, find_pieces,
  where_clause, limit_clause, offset_clause,
}
use soap_sqlx.Compiler.Correct.{compile_condition-IsRendering, compile_find-IsRendering}

-- A query with its values forgotten: each scalar becomes null, a list keeps its length.
abbrev pub blank_values : {F64 : Type 0} → ScalarValues F64 → ScalarValues F64
blank_values ScalarValues.nil = ScalarValues.nil
blank_values (ScalarValues.cons _ vs) = ScalarValues.cons ScalarValue.null (blank_values vs)

abbrev pub blank_value : {F64 : Type 0} → ScalarValue F64 → ScalarValue F64
blank_value (ScalarValue.list vs) = ScalarValue.list (blank_values vs)
blank_value _ = ScalarValue.null

abbrev pub blank_option : {F64 : Type 0} → Option (ScalarValue F64) → Option (ScalarValue F64)
blank_option none = none
blank_option (some v) = some (blank_value v)

unfoldable mutual
  pub blank : {FieldName F64 : Type 0} → Condition FieldName F64 → Condition FieldName F64
  blank (group operator cs) = group operator (blank_all cs)
  blank (predicate field operator v) = predicate field operator (blank_option v)

  pub blank_all : {FieldName F64 : Type 0} → Conditions FieldName F64 → Conditions FieldName F64
  blank_all Conditions.nil = Conditions.nil
  blank_all (Conditions.cons c cs) = Conditions.cons (blank c) (blank_all cs)

-- Of a limit it is kept whether there is one, of an offset whether it is zero.
abbrev blank_limit : Option ℕ → Option ℕ
blank_limit none = none
blank_limit (some _) = some 0

abbrev blank_offset : ℕ → ℕ
blank_offset zero = zero
blank_offset (suc _) = 1

abbrev blank_where :
    {FieldName F64 : Type 0} → Option (Condition FieldName F64) → Option (Condition FieldName F64)
blank_where none = none
blank_where (some c) = some (blank c)

abbrev pub blank_params :
    {FieldName F64 : Type 0} → FindParams FieldName F64 → FindParams FieldName F64
blank_params params = record params {
  condition = blank_where params.condition;
  limit = blank_limit params.limit;
  offset = blank_offset params.offset;
}

-- The pieces with their values forgotten.
abbrev blank_piece : {F64 : Type 0} → Piece F64 → Piece F64
blank_piece (literal s) = literal s
blank_piece (value kind _) = value kind ScalarValue.null
blank_piece (page _) = page 0

module _ {F64 : Type 0} where
  abbrev blanks : List (Piece F64) → List (Piece F64)
  blanks = map blank_piece

  render-blank : (n : ℕ) (p : List (Piece F64)) → render n (blanks p) ≡ render n p
  unfolding render
  render-blank n [] = refl
  render-blank n (literal s ∷ p) = rw (render-blank n p)
  render-blank n (value kind v ∷ p) = rw (render-blank (suc n) p)
  render-blank n (page m ∷ p) = rw (render-blank (suc n) p)

  joined-Blanks :
      (index : ℕ) (s : String) (items : List (List (Piece F64)))
      → blanks (joined index s items) ≡ joined index s (map blanks items)
  joined-Blanks index s [] = refl
  joined-Blanks zero s (item ∷ items) = simp (map-append, joined-Blanks 1 s items)
  joined-Blanks (suc n) s (item ∷ items) = simp (map-append, joined-Blanks (suc (suc n)) s items)

  limit_clause-blank :
      (n : Option ℕ) → map blanks (limit_clause (blank_limit n)) ≡ map blanks (limit_clause n)
  limit_clause-blank none = refl
  limit_clause-blank (some _) = refl

  offset_clause-blank :
      (n : ℕ) → map blanks (offset_clause (blank_offset n)) ≡ map blanks (offset_clause n)
  offset_clause-blank zero = refl
  offset_clause-blank (suc _) = refl

  value_items-blank :
      (kind : PgScalarKind) (index : ℕ) (vs : ScalarValues F64)
      → blanks (joined index ", " (value_items kind (blank_values vs)))
        ≡ blanks (joined index ", " (value_items kind vs))
  value_items-blank kind index ScalarValues.nil = refl
  value_items-blank kind zero (ScalarValues.cons v vs) = rw (value_items-blank kind 1 vs)
  value_items-blank kind (suc n) (ScalarValues.cons v vs) =
      rw (value_items-blank kind (suc (suc n)) vs)

  set_pieces-blank :
      (column : PgColumn) (opening : String) (if_empty : List (Piece F64))
      (v : Option (ScalarValue F64))
      → blanks (set_pieces column opening if_empty (blank_option v))
        ≡ blanks (set_pieces column opening if_empty v)
  set_pieces-blank column opening if_empty (some (ScalarValue.list ScalarValues.nil)) = refl
  set_pieces-blank column opening if_empty (some (ScalarValue.list (ScalarValues.cons v vs))) =
      simp (map-append) (rw (value_items-blank column.scalar_kind 1 vs))
  set_pieces-blank column opening if_empty none = refl
  set_pieces-blank column opening if_empty (some _) = refl

  predicate_pieces-blank :
      (column : PgColumn) (operator : Operator) (v : Option (ScalarValue F64))
      → blanks (predicate_pieces column operator (blank_option v))
        ≡ blanks (predicate_pieces column operator v)
  predicate_pieces-blank column is_null v = refl
  predicate_pieces-blank column is_not_null v = refl
  predicate_pieces-blank column in_set v = set_pieces-blank column _ _ v
  predicate_pieces-blank column not_in v = set_pieces-blank column _ _ v
  predicate_pieces-blank column operator none = refl
  predicate_pieces-blank column operator (some v) = refl

module _ (x : External) (fields : PgFieldMap x) where
  mutual
    unfolding condition_pieces blank

    pieces-blank :
        (c : Condition x.FieldName x.F64)
        → blanks (condition_pieces x fields (blank c)) ≡ blanks (condition_pieces x fields c)
    pieces-blank (group operator cs) =
        simp (map-append) (rw (items-blank cs 0 (separator operator)))
    pieces-blank (predicate field operator v) = elim (Result-cases (resolve x fields field)) [
      | inl (column, found) ↦ rw found (predicate_pieces-blank column operator v)
      | inr (e, missing) ↦ rw missing
    ]

    items-blank :
        (cs : Conditions x.FieldName x.F64) (index : ℕ) (s : String)
        → blanks (joined index s (condition_items x fields (blank_all cs)))
          ≡ blanks (joined index s (condition_items x fields cs))
    items-blank Conditions.nil index s = refl
    items-blank (Conditions.cons c cs) index s =
        simp map-append (rw (pieces-blank c, items-blank cs (suc index) s))

  where_clause-blank :
      (c : Option (Condition x.FieldName x.F64))
      → map blanks (where_clause x fields (blank_where c)) ≡ map blanks (where_clause x fields c)
  where_clause-blank none = refl
  where_clause-blank (some c) = rw (pieces-blank c)

  find_pieces-blank :
      (p : FindParams x.FieldName x.F64)
      → blanks (find_pieces x fields (blank_params p)) ≡ blanks (find_pieces x fields p)
  find_pieces-blank p =
      simp (joined-Blanks, map-append)
        (rw (
          where_clause-blank p.condition,
          limit_clause-blank p.limit,
          offset_clause-blank p.offset,
        ))

  -- Two conditions that are equal but for their values, each list keeping its length, compile to
  -- one and the same SQL text, whenever both compile.
  pub compile_condition-blank :
      (c d : Condition x.FieldName x.F64) (q r : PgCompiledQuery x.types)
      → blank c ≡ blank d
      → compile_condition x fields c ≡ ok q
      → compile_condition x fields d ≡ ok r
      → q.sql ≡ r.sql
  compile_condition-blank c d q r same hq hr =
      q.sql
      ≡⟨ (compile_condition-IsRendering x fields c q hq).sql ∙ sym (render-blank 0 _) ⟩
        render 0 (blanks (condition_pieces x fields c))
      ≡⟨ ap (render 0) (sym (pieces-blank c)) ⟩
        render 0 (blanks (condition_pieces x fields (blank c)))
      ≡⟨ ap (λ b. render 0 (blanks (condition_pieces x fields b))) same ⟩
        render 0 (blanks (condition_pieces x fields (blank d)))
      ≡⟨ ap (render 0) (pieces-blank d) ⟩ render 0 (blanks (condition_pieces x fields d))
      ≡⟨ render-blank 0 _ ∙ sym (compile_condition-IsRendering x fields d r hr).sql ⟩ r.sql ∎

  -- Two searches that are equal but for the values of their conditions, the number in a present
  -- limit and the number in a nonzero offset compile to one and the same SQL text, whenever both
  -- compile.
  pub compile_find-blank :
      (p p' : FindParams x.FieldName x.F64) (q r : PgCompiledQuery x.types)
      → blank_params p ≡ blank_params p'
      → compile_find x fields p ≡ ok q
      → compile_find x fields p' ≡ ok r
      → q.sql ≡ r.sql
  compile_find-blank p p' q r same hq hr =
      q.sql
      ≡⟨ (compile_find-IsRendering x fields p q hq).sql ∙ sym (render-blank 0 _) ⟩
        render 0 (blanks (find_pieces x fields p))
      ≡⟨ ap (render 0) (sym (find_pieces-blank p)) ⟩
        render 0 (blanks (find_pieces x fields (blank_params p)))
      ≡⟨ ap (λ b. render 0 (blanks (find_pieces x fields b))) same ⟩
        render 0 (blanks (find_pieces x fields (blank_params p')))
      ≡⟨ ap (render 0) (find_pieces-blank p') ⟩ render 0 (blanks (find_pieces x fields p'))
      ≡⟨ render-blank 0 _ ∙ sym (compile_find-IsRendering x fields p' r hr).sql ⟩ r.sql ∎
