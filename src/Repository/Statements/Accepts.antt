-- ===== src/Repository/Statements/Accepts.antt =====
-- Which entities the statements of src/postgres/repository.rs are compiled for.
use soap_sqlx.Prelude.{
  Bool, true, false, String, List, [], ◌∷◌, All, collect, ok, ◌≡◌, refl, ◌↔◌, ◌⊎◌, inl, inr,
  All-filter, All-map, is_ok_and-Succeeds, collect-Succeeds, Succeeds, bind-Succeeds, then-Succeeds,
  Bool-cases,
}
use soap_sqlx.External.{External}
use soap_sqlx.Mapping.{PgColumn, resolve}
use soap_sqlx.Value
use soap_sqlx.Value.{PgValue, is_default}
use soap_sqlx.Binding.{normalize_entity_binding}
use soap_sqlx.Binding.Persisted.{Suits, normalize_entity_binding_iff}
use soap_sqlx.Output.{from_bindings}
use soap_sqlx.Output.Arguments.{into_arguments-Succeeds}
use soap_sqlx.Sqlx.{Argument}
use soap_sqlx.Entity.{insertable_fields, fields_matching}
use soap_sqlx.Repository.{
  PgEntityCodec, Bindings, quoted_column, selected_columns, entity_value, compiled_arguments,
}
use soap_sqlx.Repository.Statements.{
  value_alone, write_value, write_fields, insert_body, push_returning, compile_insert, push,
}

module _ (x : External) {E Key : Type 0} (codec : PgEntityCodec x E Key) where
  -- A value that a column stores: left to the database, or valid and of the column's type.
  abbrev pub Storable : PgColumn → PgValue x.types → Type 0
  Storable column value =
      (is_default value ≡ true)
      ⊎ ((is_default value ≡ false)
          × (Value.validate x value ≡ ok tt)
          × Suits x column.scalar_kind value)

  -- The codec gives a value for a mapped field that its column stores.
  abbrev pub IsStored : E → x.FieldName → Type 0
  IsStored entity field =
      (column : PgColumn) × (resolve x codec.mapping.fields field ≡ ok column)
      × (value : PgValue x.types) × (entity_value x codec entity field ≡ ok value)
      × Storable column value

  write_value_iff :
      (column : PgColumn) (value : PgValue x.types) (bindings : Bindings x)
      → Succeeds (write_value x codec column value bindings) ↔ Storable column value
  write_value_iff column value bindings = elim (Bool-cases (is_default value)) [
    | inl left ↦ (λ s. inl left, λ t. (("DEFAULT", bindings), rw left refl))
    | inr given ↦
        let (typed, normal) = normalize_entity_binding_iff x column.scalar_kind value in
        let (to, from) =
          then-Succeeds (normalize_entity_binding x column.scalar_kind value)
            (push x codec column bindings) in
        (
          λ s. let (valid, suits) = typed (to (rw given at s)) in inr (given, valid, suits),
          λ t. elim t [
            | inl left ↦ absurd (cc)
            | inr (_, valid, suits) ↦ rw (given, write_value) (from (normal (valid, suits)))
          ],
        )
  ]

  pub write_fields_iff :
      (shape : PgColumn → String → String) (entity : E) (fields : List x.FieldName)
      (bindings : Bindings x)
      → Succeeds (write_fields x codec shape entity fields bindings) ↔ All (IsStored entity) fields
  unfolding write_fields
  write_fields_iff shape entity [] bindings = (λ _. tt, λ _. (_, refl))
  write_fields_iff shape entity (field ∷ fields) bindings = (
    λ s.
        let (column, found, s1) = (bind-Succeeds (resolve x codec.mapping.fields field) _).0 s in
        let (value, given, s2) = (bind-Succeeds (entity_value x codec entity field) _).0 s1 in
        let (written, wrote, s3) =
          (bind-Succeeds (write_value x codec column value bindings) _).0 s2 in
        let (rest, wrote', _) =
          (bind-Succeeds (write_fields x codec shape entity fields written.1) _).0 s3 in
        (
          (column, found, value, given, (write_value_iff column value bindings).0 (written, wrote)),
          (write_fields_iff shape entity fields written.1).0 (rest, wrote'),
        ),
    λ ((column, found, value, given, stored), all).
        let (written, wrote) = (write_value_iff column value bindings).1 stored in
        let (rest, wrote') = (write_fields_iff shape entity fields written.1).1 all in
        (bind-Succeeds (resolve x codec.mapping.fields field) _).1 (
          column,
          found,
          (bind-Succeeds (entity_value x codec entity field) _).1 (
            value,
            given,
            (bind-Succeeds (write_value x codec column value bindings) _).1 (
              written,
              wrote,
              (bind-Succeeds (write_fields x codec shape entity fields written.1) _).1
                  (rest, wrote', (_, refl)),
            ),
          ),
        ),
  )

  resolved :
      (field : x.FieldName)
      → Succeeds (resolve x codec.mapping.fields field)
      → Succeeds (quoted_column x codec field)
  resolved field (column, found) = rw found (_, refl)

  -- The columns of a `SELECT` or `RETURNING` are always found: only mapped fields are selected.
  pub selected_columns-Succeeds : Succeeds (selected_columns x codec)
  unfolding selected_columns fields_matching
  selected_columns-Succeeds =
      let (columns, collected) = collect-Succeeds (quoted_column x codec) _ (
        All-filter (λ field. Succeeds (quoted_column x codec field)) _
          (λ field selected. resolved field (
            is_ok_and-Succeeds (λ column. column.permissions.selectable)
              (resolve x codec.mapping.fields field) selected))
          codec.mapping.ordered_fields) in
      (bind-Succeeds (collect (quoted_column x codec) _) _).1 (columns, collected, (_, refl))

  insert_body_iff :
      (entity : E) (fields : List x.FieldName)
      → Succeeds (insert_body x codec entity fields) ↔ All (IsStored entity) fields
  unfolding insert_body
  insert_body_iff entity [] = (λ _. tt, λ _. (_, refl))
  insert_body_iff entity (field ∷ fields) =
      let (stored, written) = write_fields_iff (value_alone x codec) entity (field ∷ fields) [] in
      (
        λ s.
            let (columns, _, s1) =
              (bind-Succeeds (collect (quoted_column x codec) (field ∷ fields)) _).0 s in
            let (w, wrote, _) =
              (bind-Succeeds (write_fields x codec (value_alone x codec) entity (field ∷ fields) [])
                  _).0
                s1 in
            stored (w, wrote),
        λ all.
            let (columns, collected) = collect-Succeeds (quoted_column x codec) (field ∷ fields) (
              All-map (λ f. Succeeds (quoted_column x codec f))
                (λ f (column, found, _, _, _). resolved f (column, found)) (field ∷ fields) all) in
            let (w, wrote) = written all in
            (bind-Succeeds (collect (quoted_column x codec) (field ∷ fields)) _).1 (
              columns,
              collected,
              (bind-Succeeds (write_fields x codec (value_alone x codec) entity (field ∷ fields) [])
                    _).1
                  (w, wrote, (_, refl)),
            ),
      )

  pub push_returning-Succeeds :
      (returning : Bool) (sql : String) → Succeeds (push_returning x codec returning sql)
  push_returning-Succeeds false sql = (sql, refl)
  push_returning-Succeeds true sql =
      let (columns, selected) = selected_columns-Succeeds in
      (bind-Succeeds (selected_columns x codec) _).1 (columns, selected, (_, refl))

  -- If the encoder takes every argument, an insertion compiles exactly if for each insertable
  -- field the codec gives a value that is left to the database or is valid and of the type of the
  -- column.
  pub compile_insert_iff :
      ((a : Argument x.types) (args : x.PgArguments) → Succeeds (x.add a args))
      → (entity : E) (returning : Bool)
      → Succeeds (compile_insert x codec entity returning)
        ↔ All (IsStored entity) (insertable_fields x codec.mapping)
  unfolding compile_insert compiled_arguments
  compile_insert_iff adds entity returning =
      let fields = insertable_fields x codec.mapping in
      let (stored, written) = insert_body_iff entity fields in
      (
        λ s.
            let (body, made, _) = (bind-Succeeds (insert_body x codec entity fields) _).0 s in
            stored (body, made),
        λ all.
            let (body, made) = written all in
            let (sql, said) = push_returning-Succeeds returning body.0 in
            let (args, held) = into_arguments-Succeeds x adds (from_bindings body.1) in
            (bind-Succeeds (insert_body x codec entity fields) _).1 (
              body,
              made,
              (bind-Succeeds (push_returning x codec returning body.0) _).1 (
                sql,
                said,
                (bind-Succeeds (compiled_arguments x body.1) _).1 (args, held, (_, refl)),
              ),
            ),
      )
