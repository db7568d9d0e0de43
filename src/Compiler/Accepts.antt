-- ===== src/Compiler/Accepts.antt =====
-- Which queries compile (src/postgres/compiler.rs): those that are valid, name mapped fields alone
-- and give each operator the value that it takes.
use soap_sqlx.Prelude.{
  ℕ, suc, String, Option, none, some, ok, ◌≡◌, refl, ◌↔◌, true, false, arith, inl, inr, Succeeds,
  bind-Succeeds, then-Succeeds, Bool-cases,
}
use soap_sqlx.External.{External}
use soap_sqlx.Portable.{
  ScalarValue, ScalarValues, Operator, eq, ne, gt, gte, lt, lte, like, in_set, not_in, is_null,
  is_not_null,
}
use soap_sqlx.Mapping.{PgScalarKind, PgColumn}
use soap_sqlx.Binding.{normalize_binding}
use soap_sqlx.Binding.Exact.{Fits, normalize_binding_iff}
use soap_sqlx.Output.{CompilerOutput}
use soap_sqlx.Compiler.{
  is_text, comparison_text, write_values, write_set, write_comparison, write_predicate,
}

module _ (x : External) where
  -- A value that passes its validation and that the column is compared with.
  abbrev pub IsTyped : PgScalarKind → ScalarValue x.F64 → Type 0
  IsTyped kind v = (x.validate_scalar v ≡ ok tt) × Fits kind v

  abbrev pub AllTyped : PgScalarKind → ScalarValues x.F64 → Type 0
  AllTyped kind ScalarValues.nil = Unit
  AllTyped kind (ScalarValues.cons v vs) = IsTyped kind v × AllTyped kind vs

  -- The value that an operator takes on a column: none is asked for by the null tests, a list of
  -- typed values by the set operators, one typed value by a comparison, on text alone by `LIKE`.
  abbrev pub Takes : PgColumn → Operator → Option (ScalarValue x.F64) → Type 0
  Takes column is_null v = Unit
  Takes column is_not_null v = Unit
  Takes column in_set (some (ScalarValue.list vs)) = AllTyped column.scalar_kind vs
  Takes column not_in (some (ScalarValue.list vs)) = AllTyped column.scalar_kind vs
  Takes column in_set _ = ⊥
  Takes column not_in _ = ⊥
  Takes column operator none = ⊥
  Takes column like (some v) =
      (column.scalar_kind ≡ PgScalarKind.text) × IsTyped column.scalar_kind v
  Takes column operator (some v) = IsTyped column.scalar_kind v

  write_values_iff :
      (kind : PgScalarKind) (index : ℕ) (vs : ScalarValues x.F64) (o : CompilerOutput x.types)
      → Succeeds (write_values x kind index vs o) ↔ AllTyped kind vs
  unfolding write_values
  write_values_iff kind index ScalarValues.nil o = (λ _. tt, λ _. (o, refl))
  write_values_iff kind index (ScalarValues.cons v vs) o = (
    λ s.
        let (b, made, s') = (bind-Succeeds (normalize_binding x kind v) _).0 s in
        (
          (normalize_binding_iff x kind v).0 (b, made),
          (write_values_iff kind (suc index) vs _).0 s',
        ),
    λ (t, ts).
        let (b, made) = (normalize_binding_iff x kind v).1 t in
        (bind-Succeeds (normalize_binding x kind v) _).1
          (b, made, (write_values_iff kind (suc index) vs _).1 ts),
  )

  write_list_iff :
      (column : PgColumn) (operator : Operator) (vs : ScalarValues x.F64)
      (o : CompilerOutput x.types)
      → Succeeds (write_set x column operator (some (ScalarValue.list vs)) o)
        ↔ AllTyped column.scalar_kind vs
  unfolding write_set
  write_list_iff column operator ScalarValues.nil o = (λ _. tt, λ _. (_, refl))
  write_list_iff column operator (ScalarValues.cons v vs) o =
      let (to, from) =
        then-Succeeds (write_values x column.scalar_kind 0 (ScalarValues.cons v vs) _) _ in
      let (typed, written) = write_values_iff column.scalar_kind 0 (ScalarValues.cons v vs) _ in
      (λ s. typed (to s), λ t. from (written t))

  write_comparison_iff :
      (column : PgColumn) (operator : Operator) (text : String) (v : ScalarValue x.F64)
      (o : CompilerOutput x.types)
      → comparison_text x operator ≡ ok text
      → Succeeds (write_comparison x column operator (some v) o) ↔ IsTyped column.scalar_kind v
  unfolding write_comparison
  write_comparison_iff column operator text v o compares =
      let (to, from) = then-Succeeds (normalize_binding x column.scalar_kind v) _ in
      rw compares (
        λ s. (normalize_binding_iff x column.scalar_kind v).0 (to s),
        λ t. from ((normalize_binding_iff x column.scalar_kind v).1 t),
      )

  is_text_iff : (kind : PgScalarKind) → (is_text kind ≡ true) ↔ (kind ≡ PgScalarKind.text)
  is_text_iff kind = ground arith

  like_text_iff :
      (column : PgColumn) (v : Option (ScalarValue x.F64)) (o : CompilerOutput x.types)
      → column.scalar_kind ≡ PgScalarKind.text
      → Succeeds (write_comparison x column like v o) ↔ Takes column like v
  unfolding write_comparison
  like_text_iff column none o textual = (λ s. cc, λ h. absurd h)
  like_text_iff column (some v) o textual =
      let (to, from) = write_comparison_iff column like " LIKE " v o refl in
      (λ s. (textual, to s), λ h. from h.1)

  not_text :
      (column : PgColumn) (v : Option (ScalarValue x.F64))
      → is_text column.scalar_kind ≡ false
      → ¬ Takes column like v
  not_text column none other h = h
  not_text column (some v) other (textual, _) =
      let same = (is_text_iff column.scalar_kind).1 textual in cc

  like_iff :
      (column : PgColumn) (v : Option (ScalarValue x.F64)) (o : CompilerOutput x.types)
      → Succeeds (write_predicate x column like v o) ↔ Takes column like v
  unfolding write_predicate
  like_iff column v o = elim (Bool-cases (is_text column.scalar_kind)) [
    | inl textual ↦
        rw textual (like_text_iff column v o ((is_text_iff column.scalar_kind).0 textual))
    | inr other ↦ rw other (λ s. cc, λ h. absurd (not_text column v other h))
  ]

  -- A predicate is written exactly if its operator takes its value on the column.
  pub write_predicate_iff :
      (column : PgColumn) (operator : Operator) (v : Option (ScalarValue x.F64))
      (o : CompilerOutput x.types)
      → Succeeds (write_predicate x column operator v o) ↔ Takes column operator v
  unfolding write_predicate
  write_predicate_iff column is_null v o = (λ _. tt, λ _. (_, refl))
  write_predicate_iff column is_not_null v o = (λ _. tt, λ _. (_, refl))
  write_predicate_iff column in_set (some (ScalarValue.list vs)) o =
      write_list_iff column in_set vs o
  write_predicate_iff column not_in (some (ScalarValue.list vs)) o =
      write_list_iff column not_in vs o
  write_predicate_iff column in_set none o = (λ s. cc, λ h. absurd h)
  write_predicate_iff column in_set (some _) o = (λ s. cc, λ h. absurd h)
  write_predicate_iff column not_in none o = (λ s. cc, λ h. absurd h)
  write_predicate_iff column not_in (some _) o = (λ s. cc, λ h. absurd h)
  write_predicate_iff column like v o = like_iff column v o
  write_predicate_iff column operator none o = (λ s. cc, λ h. absurd h)
  write_predicate_iff column eq (some v) o = write_comparison_iff column eq _ v o refl
  write_predicate_iff column ne (some v) o = write_comparison_iff column ne _ v o refl
  write_predicate_iff column gt (some v) o = write_comparison_iff column gt _ v o refl
  write_predicate_iff column gte (some v) o = write_comparison_iff column gte _ v o refl
  write_predicate_iff column lt (some v) o = write_comparison_iff column lt _ v o refl
  write_predicate_iff column lte (some v) o = write_comparison_iff column lte _ v o refl
