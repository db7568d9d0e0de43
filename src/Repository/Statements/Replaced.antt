-- ===== src/Repository/Statements/Replaced.antt =====
-- The replacement of src/postgres/repository.rs, described by its slots.
use mathlib.Core.List.{◌++◌}
use soap_sqlx.Prelude.{
  suc, Bool, false, String, List, [], ◌∷◌, length, ok, ◌>>=◌, >>=-eq-ok, is_empty, ◌≡◌, refl, subst,
  ok-injective, Bool-cases, inl, inr, arith, length-append,
}
use soap_sqlx.External.{External}
use soap_sqlx.Mapping.{PgColumn, resolve}
use soap_sqlx.Value.{PgValue}
use soap_sqlx.Binding.{PgBindValue, normalize_entity_binding}
use soap_sqlx.Output.Arguments.{arguments_of}
use soap_sqlx.Repository.{PgEntityCodec, Bindings, join, placeholder, is_missing, id_binding}
use soap_sqlx.Repository.Statements.{
  write_fields, assignment, update_text, replace_body, replaced_fields, compile_replace, push,
}
use soap_sqlx.Repository.Statements.Slots.{
  Slot, SlotsOf, slot_texts, slot_bindings, write_fields-Written,
}
use soap_sqlx.Repository.Statements.Compiled.{WithReturning, complete, complete-eq-ok}

module _ (x : External) {E Key : Type 0} (codec : PgEntityCodec x E Key) (entity : E) where
  -- A replacement: a slot for each updatable field but the identity, an assignment for each, and
  -- the identity's binding as the last argument, which the `WHERE` clause refers to.
  pub record IsReplacement (returning : Bool) (sql : String) (args : x.PgArguments) : Type 0 where
    pub slots : List (Slot x)
    pub slots_of : SlotsOf x codec entity (replaced_fields x codec) slots
    pub some_field : is_empty (replaced_fields x codec) ≡ false
    pub id_column : PgColumn
    pub id_value : PgValue x.types
    pub id_bound : PgBindValue x.types
    pub id_found : resolve x codec.mapping.fields codec.mapping.id_field ≡ ok id_column
    pub id_given : codec.id_value (codec.id entity) ≡ ok id_value
    pub id_present : is_missing id_value ≡ false
    pub id_normal : normalize_entity_binding x id_column.scalar_kind id_value ≡ ok id_bound
    pub text :
        WithReturning x codec returning
          (update_text x codec
            (join (slot_texts x (assignment x codec) 0 slots))
            id_column
            (placeholder (suc (length (slot_bindings x slots))) id_column.scalar_kind))
          sql
    pub arguments : x.contents args ≡ arguments_of x (slot_bindings x slots ++ id_bound ∷ [])

  id_binding-eq-ok :
      (column : PgColumn) (value : PgValue x.types) (binding : PgBindValue x.types)
      → id_binding x codec column value ≡ ok binding
      → (is_missing value ≡ false)
        × (normalize_entity_binding x column.scalar_kind value ≡ ok binding)
  id_binding-eq-ok column value binding h = elim (Bool-cases (is_missing value)) [
    | inl missing ↦ ground arith
    | inr present ↦ (present, ground arith)
  ]

  replaced :
      (slots : List (Slot x)) (written : List String × Bindings x) (id_column : PgColumn)
      (binding : PgBindValue x.types) (w : String × Bindings x)
      → written.0 ≡ slot_texts x (assignment x codec) 0 slots
      → written.1 ≡ slot_bindings x slots
      → (
        update_text x codec (join written.0) id_column (push x codec id_column written.1 binding).0,
        (push x codec id_column written.1 binding).1,
      )
        ≡ w
      → (w.0
          ≡ update_text x codec
              (join (slot_texts x (assignment x codec) 0 slots))
              id_column
              (placeholder (suc (length (slot_bindings x slots))) id_column.scalar_kind))
        × (w.1 ≡ slot_bindings x slots ++ binding ∷ [])
  replaced slots written id_column binding w texts bound same =
      let grown : length (slot_bindings x slots ++ binding ∷ [])
          ≡ suc (length (slot_bindings x slots)) =
        omega (arith, length-append (slot_bindings x slots) (binding ∷ [])) in
      (rw (← same, texts, bound, grown) refl, rw (← same, bound) refl)

  replace_after :
      (returning : Bool) (sql : String) (args : x.PgArguments) (fields : List x.FieldName)
      → fields ≡ replaced_fields x codec
      → (replace_body x codec entity fields >>= complete x codec returning) ≡ ok (sql, args)
      → IsReplacement returning sql args
  unfolding replace_body
  replace_after returning sql args [] e h = cc
  replace_after returning sql args (field ∷ fields) e h =
      let (w, made, h1) = >>=-eq-ok (replace_body x codec entity (field ∷ fields)) _ h in
      let (written, wrote, h2) =
        >>=-eq-ok (write_fields x codec (assignment x codec) entity (field ∷ fields) []) _ made in
      let (id_column, found, h3) =
        >>=-eq-ok (resolve x codec.mapping.fields codec.mapping.id_field) _ h2 in
      let (id_value, given, h4) = >>=-eq-ok (codec.id_value (codec.id entity)) _ h3 in
      let (binding, normal, h5) = >>=-eq-ok (id_binding x codec id_column id_value) _ h4 in
      let slotted = write_fields-Written x codec entity _ (field ∷ fields) [] written wrote in
      let (present, normal') = id_binding-eq-ok id_column id_value binding normal in
      let (text, bound) =
        replaced slotted.slots written id_column binding w slotted.texts slotted.bound
          (ok-injective h5) in
      let (said, held) = complete-eq-ok x codec returning w.0 w.1 sql args h1 in
      record {
        slots = slotted.slots;
        slots_of = subst (λ fs. SlotsOf x codec entity fs slotted.slots) e slotted.slots_of;
        some_field = subst (λ fs. is_empty fs ≡ false) e refl;
        id_column = id_column;
        id_value = id_value;
        id_bound = binding;
        id_found = found;
        id_given = given;
        id_present = present;
        id_normal = normal';
        text = subst (λ b. WithReturning x codec returning b sql) text said;
        arguments = subst (λ b. x.contents args ≡ arguments_of x b) bound held;
      }

  -- What `compile_replace` returns is a replacement of the entity: an assignment for each
  -- updatable field but the identity, at least one, and the identity's present value as the last
  -- argument, which the `WHERE` clause refers to.
  pub compile_replace-IsReplacement :
      (returning : Bool) (sql : String) (args : x.PgArguments)
      → compile_replace x codec entity returning ≡ ok (sql, args)
      → IsReplacement returning sql args
  unfolding compile_replace
  compile_replace-IsReplacement returning sql args h =
      replace_after returning sql args (replaced_fields x codec) refl h
