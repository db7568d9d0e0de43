-- ===== src/Repository/Statements/Replaceable.antt =====
-- Which entities the replacement of src/postgres/repository.rs is compiled for.
use soap_sqlx.Prelude.{
  false, List, [], ◌∷◌, All, ok, ◌≡◌, refl, ◌↔◌, inl, inr, Succeeds, bind-Succeeds, Bool-cases,
  Bool,
}
use soap_sqlx.External.{External}
use soap_sqlx.Mapping.{PgColumn, resolve}
use soap_sqlx.Value
use soap_sqlx.Value.{PgValue}
use soap_sqlx.Binding.Persisted.{Suits, normalize_entity_binding_iff}
use soap_sqlx.Output.{from_bindings}
use soap_sqlx.Output.Arguments.{into_arguments-Succeeds}
use soap_sqlx.Sqlx.{Argument}
use soap_sqlx.Repository.{PgEntityCodec, is_missing, id_binding, compiled_arguments}
use soap_sqlx.Repository.Statements.{
  assignment, write_fields, replaced_fields, replace_body, push_returning, compile_replace,
}
use soap_sqlx.Repository.Statements.Accepts.{IsStored, write_fields_iff, push_returning-Succeeds}

abbrev pub IsNonempty {ℓ} : {A : Type ℓ} → List A → Type 0
IsNonempty [] = ⊥
IsNonempty (_ ∷ _) = Unit

module _ (x : External) {E Key : Type 0} (codec : PgEntityCodec x E Key) where
  -- The identity is there, and its column takes it.
  abbrev pub IsIdentity : PgColumn → PgValue x.types → Type 0
  IsIdentity column value =
      (is_missing value ≡ false)
      × (Value.validate x value ≡ ok tt)
      × Suits x column.scalar_kind value

  abbrev pub IsIdentified : E → Type 0
  IsIdentified entity =
      (column : PgColumn) × (resolve x codec.mapping.fields codec.mapping.id_field ≡ ok column)
      × (value : PgValue x.types) × (codec.id_value (codec.id entity) ≡ ok value)
      × IsIdentity column value

  id_binding_iff :
      (column : PgColumn) (value : PgValue x.types)
      → Succeeds (id_binding x codec column value) ↔ IsIdentity column value
  id_binding_iff column value = elim (Bool-cases (is_missing value)) [
    | inl missing ↦ rw missing (λ s. cc, λ (there, _, _). cc)
    | inr there ↦
        let (to, from) = normalize_entity_binding_iff x column.scalar_kind value in
        rw there (
          λ s. let (valid, suits) = to s in (refl, valid, suits),
          λ (_, valid, suits). from (valid, suits),
        )
  ]

  replace_body_iff :
      (entity : E) (fields : List x.FieldName)
      → Succeeds (replace_body x codec entity fields)
        ↔ (IsNonempty fields × All (IsStored x codec entity) fields × IsIdentified entity)
  unfolding replace_body
  replace_body_iff entity [] = (λ s. cc, λ h. absurd h.0)
  replace_body_iff entity (field ∷ fields) =
      let (stored, written) =
        write_fields_iff x codec (assignment x codec) entity (field ∷ fields) [] in
      (
        λ s.
            let (w, wrote, s1) =
              (bind-Succeeds (write_fields x codec (assignment x codec) entity (field ∷ fields) [])
                  _).0
                s in
            let (column, found, s2) =
              (bind-Succeeds (resolve x codec.mapping.fields codec.mapping.id_field) _).0 s1 in
            let (value, given, s3) = (bind-Succeeds (codec.id_value (codec.id entity)) _).0 s2 in
            let (b, bound, _) = (bind-Succeeds (id_binding x codec column value) _).0 s3 in
            (
              tt,
              stored (w, wrote),
              (column, found, value, given, (id_binding_iff column value).0 (b, bound)),
            ),
        λ (_, all, (column, found, value, given, identity)).
            let (w, wrote) = written all in
            let (b, bound) = (id_binding_iff column value).1 identity in
            (bind-Succeeds (write_fields x codec (assignment x codec) entity (field ∷ fields) [])
                _).1
              (
                w,
                wrote,
                (bind-Succeeds (resolve x codec.mapping.fields codec.mapping.id_field) _).1 (
                  column,
                  found,
                  (bind-Succeeds (codec.id_value (codec.id entity)) _).1 (
                    value,
                    given,
                    (bind-Succeeds (id_binding x codec column value) _).1 (b, bound, (_, refl)),
                  ),
                ),
              ),
      )

  -- If the encoder takes every argument, a replacement compiles exactly if a field other than the
  -- identity is updatable, for each such field the codec gives a value that is left to the
  -- database or is valid and of the type of the column, and the identity is mapped and has a value
  -- that is neither null nor left to the database and that its column takes.
  pub compile_replace_iff :
      ((a : Argument x.types) (args : x.PgArguments) → Succeeds (x.add a args))
      → (entity : E) (returning : Bool)
      → Succeeds (compile_replace x codec entity returning) ↔ (
          IsNonempty (replaced_fields x codec)
          × All (IsStored x codec entity) (replaced_fields x codec)
          × IsIdentified entity)
  unfolding compile_replace compiled_arguments
  compile_replace_iff adds entity returning =
      let fields = replaced_fields x codec in
      let (stored, written) = replace_body_iff entity fields in
      (
        λ s.
            let (body, made, _) = (bind-Succeeds (replace_body x codec entity fields) _).0 s in
            stored (body, made),
        λ h.
            let (body, made) = written h in
            let (sql, said) = push_returning-Succeeds x codec returning body.0 in
            let (args, held) = into_arguments-Succeeds x adds (from_bindings body.1) in
            (bind-Succeeds (replace_body x codec entity fields) _).1 (
              body,
              made,
              (bind-Succeeds (push_returning x codec returning body.0) _).1 (
                sql,
                said,
                (bind-Succeeds (compiled_arguments x body.1) _).1 (args, held, (_, refl)),
              ),
            ),
      )
