-- ===== src/Compiler/Writes.antt =====
-- The writer of conditions writes their pieces (src/postgres/compiler.rs).
use soap_sqlx.Prelude.{
  ℕ, zero, suc, String, List, [], ◌∷◌, Option, none, some, ok, err, ◌≡◌, refl, false, >>=-eq-ok,
  subst, if◌then◌else◌, Bool-cases, ◌&&◌, not, inl, inr,
}
use soap_sqlx.External.{External, SoapResult}
use soap_sqlx.Portable.{
  ScalarValue, ScalarValues, Operator, eq, ne, gt, gte, lt, lte, like, in_set, not_in, is_null,
  is_not_null, Condition, Conditions, group, predicate,
}
use soap_sqlx.Mapping.{PgScalarKind, PgColumn, PgFieldMap, resolve}
use soap_sqlx.Binding.{PgBindValue, column_expression, placeholder_cast, normalize_binding}
use soap_sqlx.Output.{CompilerOutput, push_str, push_binding}
use soap_sqlx.Compiler.{
  is_in, is_like, is_text, separator, push_after_first, comparison_text, write_values, write_set,
  write_comparison, write_operator, write_predicate, write_condition, write_conditions,
}
use soap_sqlx.Compiler.Template.{Piece, literal, value}
use soap_sqlx.Compiler.Wrote.{Wrote, Wrote-nil, Wrote-str, Wrote-binding, Wrote-append}
use soap_sqlx.Compiler.Pieces.{
  after_first, joined, operator_text, value_items, set_pieces, comparison_pieces, predicate_pieces,
  condition_pieces, condition_items,
}

module _ (x : External) where
  pub Wrote-after_first :
      (index : ℕ) (s : String) {o : CompilerOutput x.types}
      → Wrote x (after_first index s) o (push_after_first index s o)
  Wrote-after_first zero s = Wrote-nil x
  Wrote-after_first (suc _) s = Wrote-str x s

  pub Wrote-two :
      (s t : String) {o : CompilerOutput x.types}
      → Wrote x (literal s ∷ literal t ∷ []) o (push_str t (push_str s o))
  Wrote-two s t = Wrote-append x (Wrote-str x s) (Wrote-str x t)

  write_values-Wrote :
      (kind : PgScalarKind) (index : ℕ) (values : ScalarValues x.F64)
      (o o' : CompilerOutput x.types)
      → write_values x kind index values o ≡ ok o'
      → Wrote x (joined index ", " (value_items kind values)) o o'
  unfolding write_values
  write_values-Wrote kind index ScalarValues.nil o o' h =
      let same : o ≡ o' = cc in subst (Wrote x [] o) same (Wrote-nil x)
  write_values-Wrote kind index (ScalarValues.cons v vs) o o' h =
      let (b, made, h') = >>=-eq-ok (normalize_binding x kind v) _ h in
      Wrote-append x (Wrote-after_first index ", ") (
        Wrote-append x (Wrote-binding x kind v b made)
          (write_values-Wrote kind (suc index) vs _ o' h'))

  -- A finished output, equal to the one that the rules reach.
  pub reached :
      {p : List (Piece x.F64)} {o a b : CompilerOutput x.types}
      → Path (SoapResult x (CompilerOutput x.types)) (ok a) (ok b)
      → Wrote x p o a
      → Wrote x p o b
  reached {p} {o} e w = subst (Wrote x p o) (cc) w

  -- A non-empty set, for either operator.
  write_list-Wrote :
      (column : PgColumn) (operator : Operator) (v : ScalarValue x.F64) (vs : ScalarValues x.F64)
      (if_empty : List (Piece x.F64)) (o o' : CompilerOutput x.types)
      → let given = some (ScalarValue.list (ScalarValues.cons v vs)) in
        write_set x column operator given o ≡ ok o'
        → Wrote x
            (set_pieces column
              (if is_in operator then " IN (" else " NOT IN (")
              if_empty
              (some (ScalarValue.list (ScalarValues.cons v vs))))
            o
            o'
  unfolding write_set
  write_list-Wrote column operator v vs if_empty o o' h =
      let (written, wrote, h') =
        >>=-eq-ok (write_values x column.scalar_kind 0 (ScalarValues.cons v vs) _) _ h in
      reached h' (
        Wrote-append x (Wrote-two _ _) (
          Wrote-append x
            (write_values-Wrote column.scalar_kind 0 (ScalarValues.cons v vs) _ written wrote)
            (Wrote-str x ")")))

  Writes : PgColumn → Operator → Option (ScalarValue x.F64) → Type 0
  Writes column operator v =
      (o o' : CompilerOutput x.types)
      → write_operator x column operator v o ≡ ok o'
      → Wrote x (predicate_pieces column operator v) o o'

  in_set-Writes : (column : PgColumn) (v : Option (ScalarValue x.F64)) → Writes column in_set v
  unfolding Writes write_operator write_set
  in_set-Writes column (some (ScalarValue.list ScalarValues.nil)) o o' h = reached h (Wrote-str x _)
  in_set-Writes column (some (ScalarValue.list (ScalarValues.cons v vs))) o o' h =
      write_list-Wrote column in_set v vs (literal "FALSE" ∷ []) o o' h
  in_set-Writes column none o o' h = cc
  in_set-Writes column (some _) o o' h = cc

  not_in-Writes : (column : PgColumn) (v : Option (ScalarValue x.F64)) → Writes column not_in v
  unfolding Writes write_operator write_set
  not_in-Writes column (some (ScalarValue.list ScalarValues.nil)) o o' h = reached h (Wrote-two _ _)
  not_in-Writes column (some (ScalarValue.list (ScalarValues.cons v vs))) o o' h =
      write_list-Wrote column not_in v vs [] o o' h
  not_in-Writes column none o o' h = cc
  not_in-Writes column (some _) o o' h = cc

  Wrote-comparison :
      (column : PgColumn) (text : String) (v : ScalarValue x.F64) (b : PgBindValue x.types)
      {o : CompilerOutput x.types}
      → normalize_binding x column.scalar_kind v ≡ ok b
      → Wrote x
          (literal (column_expression column) ∷ literal text ∷ value column.scalar_kind v ∷ [])
          o
          (push_binding b
            (placeholder_cast column.scalar_kind)
            (push_str text (push_str (column_expression column) o)))
  Wrote-comparison column text v b made =
      Wrote-append x (Wrote-two (column_expression column) text)
        (Wrote-binding x column.scalar_kind v b made)

  -- The six comparisons other than `LIKE`.
  compare-Writes :
      (column : PgColumn) (operator : Operator) (text : String) (v : Option (ScalarValue x.F64))
      (o o' : CompilerOutput x.types)
      → comparison_text x operator ≡ ok text
      → is_like operator ≡ false
      → operator_text operator ≡ text
      → write_comparison x column operator v o ≡ ok o'
      → Wrote x (comparison_pieces column operator v) o o'
  unfolding write_comparison
  compare-Writes column operator text none o o' compares plain named h = cc
  compare-Writes column operator text (some v) o o' compares plain named h =
      let (b, made, h') = >>=-eq-ok (normalize_binding x column.scalar_kind v) _ h in
      rw named (reached (rw (compares, plain) at h') (Wrote-comparison column text v b made))

  like-Writes : (column : PgColumn) (v : Option (ScalarValue x.F64)) → Writes column like v
  unfolding Writes write_operator write_comparison
  like-Writes column none o o' h = cc
  like-Writes column (some v) o o' h =
      let (b, made, h') = >>=-eq-ok (normalize_binding x column.scalar_kind v) _ h in
      reached h'
        (Wrote-append x (Wrote-comparison column " LIKE " v b made) (Wrote-str x " ESCAPE ''"))

  write_operator-Writes :
      (column : PgColumn) (operator : Operator) (v : Option (ScalarValue x.F64))
      → Writes column operator v
  unfolding Writes write_operator
  write_operator-Writes column is_null v o o' h = reached h (Wrote-two _ _)
  write_operator-Writes column is_not_null v o o' h = reached h (Wrote-two _ _)
  write_operator-Writes column in_set v o o' h = in_set-Writes column v o o' h
  write_operator-Writes column not_in v o o' h = not_in-Writes column v o o' h
  write_operator-Writes column like v o o' h = like-Writes column v o o' h
  write_operator-Writes column eq v o o' h = compare-Writes column eq _ v o o' refl refl refl h
  write_operator-Writes column ne v o o' h = compare-Writes column ne _ v o o' refl refl refl h
  write_operator-Writes column gt v o o' h = compare-Writes column gt _ v o o' refl refl refl h
  write_operator-Writes column gte v o o' h = compare-Writes column gte _ v o o' refl refl refl h
  write_operator-Writes column lt v o o' h = compare-Writes column lt _ v o o' refl refl refl h
  write_operator-Writes column lte v o o' h = compare-Writes column lte _ v o o' refl refl refl h

  pub write_predicate-Wrote :
      (column : PgColumn) (operator : Operator) (v : Option (ScalarValue x.F64))
      (o o' : CompilerOutput x.types)
      → write_predicate x column operator v o ≡ ok o'
      → Wrote x (predicate_pieces column operator v) o o'
  unfolding write_predicate Writes
  write_predicate-Wrote column operator v o o' h =
      elim (Bool-cases (is_like operator && not (is_text column.scalar_kind))) [
        | inl refused ↦
            let failed : Path (SoapResult x (CompilerOutput x.types)) (err _) (ok o') =
              rw refused at h in
            cc
        | inr allowed ↦ write_operator-Writes column operator v o o' (rw allowed at h)
      ]

  module _ (fields : PgFieldMap x) where
    mutual
      unfolding write_condition condition_pieces

      condition-Wrote :
          (c : Condition x.FieldName x.F64) (o o' : CompilerOutput x.types)
          → write_condition x fields c o ≡ ok o'
          → Wrote x (condition_pieces x fields c) o o'
      condition-Wrote (group operator cs) o o' h =
          let (written, wrote, h') =
            >>=-eq-ok (write_conditions x fields cs (separator operator) 0 (push_str "(" o)) _ h in
          reached h' (
            Wrote-append x (Wrote-str x "(") (
              Wrote-append x (conditions-Wrote cs (separator operator) 0 _ written wrote)
                (Wrote-str x ")")))
      condition-Wrote (predicate field operator v) o o' h =
          let (column, found, h') = >>=-eq-ok (resolve x fields field) _ h in
          rw found (write_predicate-Wrote column operator v o o' h')

      conditions-Wrote :
          (cs : Conditions x.FieldName x.F64) (between : String) (index : ℕ)
          (o o' : CompilerOutput x.types)
          → write_conditions x fields cs between index o ≡ ok o'
          → Wrote x (joined index between (condition_items x fields cs)) o o'
      conditions-Wrote Conditions.nil between index o o' h = reached h (Wrote-nil x)
      conditions-Wrote (Conditions.cons c cs) between index o o' h =
          let (written, wrote, h') =
            >>=-eq-ok (write_condition x fields c (push_after_first index between o)) _ h in
          Wrote-append x (Wrote-after_first index between) (
            Wrote-append x (condition-Wrote c _ written wrote)
              (conditions-Wrote cs between (suc index) written o' h'))

    pub write_condition-Wrote :
        (c : Condition x.FieldName x.F64) (o o' : CompilerOutput x.types)
        → write_condition x fields c o ≡ ok o'
        → Wrote x (condition_pieces x fields c) o o'
    write_condition-Wrote = condition-Wrote
