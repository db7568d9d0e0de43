-- ===== src/Repository/Statements/Slots.antt =====
-- The fields that a statement of src/postgres/repository.rs writes, as slots: a column, and a
-- binding unless the value is left to the database.
use mathlib.Core.List.{◌++◌, append-nil, append_assoc}
use soap_sqlx.Prelude.{
  ℕ, suc, ◌+◌, true, false, String, Option, none, some, List, [], ◌∷◌, length, length-append, ok,
  ◌>>=◌, >>=-eq-ok, ◌≡◌, refl, subst, ok-injective, Bool-cases, inl, inr, arith,
}
use soap_sqlx.External.{External}
use soap_sqlx.Mapping.{PgColumn, resolve}
use soap_sqlx.Value.{PgValue, is_default}
use soap_sqlx.Binding.{PgBindValue, normalize_entity_binding}
use soap_sqlx.Repository.{PgEntityCodec, Bindings, placeholder, entity_value}
use soap_sqlx.Repository.Statements.{push, write_value, write_fields}

module _ (x : External) where
  abbrev pub Slot : Type 0
  Slot = PgColumn × Option (PgBindValue x.types)

  abbrev pub Slotted : PgColumn → PgValue x.types → Option (PgBindValue x.types) → Type 0
  Slotted column value none = is_default value ≡ true
  Slotted column value (some binding) =
      (is_default value ≡ false)
      × (normalize_entity_binding x column.scalar_kind value ≡ ok binding)

  -- The text of a slot after `n` bindings, and its bindings.
  abbrev pub slot_text : ℕ → PgColumn → Option (PgBindValue x.types) → String
  slot_text n column none = "DEFAULT"
  slot_text n column (some _) = placeholder (suc n) column.scalar_kind

  abbrev pub slot_binding : Option (PgBindValue x.types) → Bindings x
  slot_binding none = []
  slot_binding (some binding) = binding ∷ []

  abbrev pub slot_texts : (PgColumn → String → String) → ℕ → List Slot → List String
  slot_texts shape n [] = []
  slot_texts shape n ((column, o) ∷ slots) =
      shape column (slot_text n column o) ∷ slot_texts shape (n + length (slot_binding o)) slots

  abbrev pub slot_bindings : List Slot → Bindings x
  slot_bindings [] = []
  slot_bindings ((_, o) ∷ slots) = slot_binding o ++ slot_bindings slots

  module _ {E Key : Type 0} (codec : PgEntityCodec x E Key) (entity : E) where
    -- The slots of the fields: the columns that they are mapped to, and the values that the codec
    -- gives for them.
    abbrev pub SlotsOf : List x.FieldName → List Slot → Type 0
    SlotsOf [] [] = Unit
    SlotsOf [] (_ ∷ _) = ⊥
    SlotsOf (_ ∷ _) [] = ⊥
    SlotsOf (field ∷ fields) ((column, o) ∷ slots) =
        (resolve x codec.mapping.fields field ≡ ok column)
        × ((value : PgValue x.types) × (entity_value x codec entity field ≡ ok value)
            × Slotted column value o)
        × SlotsOf fields slots

    value_slot :
        (column : PgColumn) (value : PgValue x.types) (bindings : Bindings x)
        (w : String × Bindings x)
        → write_value x codec column value bindings ≡ ok w
        → (o : Option (PgBindValue x.types)) × Slotted column value o
          × (w.0 ≡ slot_text (length bindings) column o)
          × (w.1 ≡ bindings ++ slot_binding o)
    value_slot column value bindings w h = elim (Bool-cases (is_default value)) [
      | inl left ↦
          let done : ("DEFAULT", bindings) ≡ w = ground arith in
          (none, left, cc, rw append-nil (cc))
      | inr given ↦
          let h' : (normalize_entity_binding x column.scalar_kind value >>= λ binding.
          ok (push x codec column bindings binding))
              ≡ ok w =
            ground arith in
          let (binding, normal, h'') =
            >>=-eq-ok (normalize_entity_binding x column.scalar_kind value) _ h' in
          let done : push x codec column bindings binding ≡ w = cc in
          let grown : length (bindings ++ binding ∷ []) ≡ suc (length bindings) =
            omega (arith, length-append bindings (binding ∷ [])) in
          (some binding, (given, normal), rw (← done, grown), rw (← done))
    ]

    -- What writing the fields after `bindings` has written.
    pub record Written (shape : PgColumn → String → String) (fields : List x.FieldName)
        (bindings : Bindings x) (w : List String × Bindings x) : Type 0 where
      pub slots : List Slot
      pub slots_of : SlotsOf fields slots
      pub texts : w.0 ≡ slot_texts shape (length bindings) slots
      pub bound : w.1 ≡ bindings ++ slot_bindings slots

    add_slot :
        (shape : PgColumn → String → String) {field : x.FieldName} (fields : List x.FieldName)
        (bindings : Bindings x) (first : String × Bindings x) (rest : List String × Bindings x)
        (column : PgColumn) (o : Option (PgBindValue x.types))
        → resolve x codec.mapping.fields field ≡ ok column
        → (value : PgValue x.types) × (entity_value x codec entity field ≡ ok value)
          × Slotted column value o
        → first.0 ≡ slot_text (length bindings) column o
        → first.1 ≡ bindings ++ slot_binding o
        → Written shape fields first.1 rest
        → Written shape (field ∷ fields) bindings (shape column first.0 ∷ rest.0, rest.1)
    add_slot shape fields bindings first rest column o found given text grown ih =
        let length_eq : length first.1 ≡ length bindings + length (slot_binding o) =
          rw grown (length-append bindings (slot_binding o)) in
        record {
          slots = (column, o) ∷ ih.slots;
          slots_of = (found, given, ih.slots_of);
          texts = rw (ih.texts, text, length_eq) refl;
          bound = rw (ih.bound, grown, append_assoc) refl;
        }

    pub write_fields-Written :
        (shape : PgColumn → String → String) (fields : List x.FieldName) (bindings : Bindings x)
        (w : List String × Bindings x)
        → write_fields x codec shape entity fields bindings ≡ ok w
        → Written shape fields bindings w
    unfolding write_fields
    write_fields-Written shape [] bindings w h =
        let done : ([], bindings) ≡ w = cc in
        record { slots = []; slots_of = tt; texts = cc; bound = rw append-nil (cc) }
    write_fields-Written shape (field ∷ fields) bindings w h =
        let (column, found, h1) = >>=-eq-ok (resolve x codec.mapping.fields field) _ h in
        let (value, given, h2) = >>=-eq-ok (entity_value x codec entity field) _ h1 in
        let (first, wrote, h3) = >>=-eq-ok (write_value x codec column value bindings) _ h2 in
        let (rest, wrote', h4) =
          >>=-eq-ok (write_fields x codec shape entity fields first.1) _ h3 in
        let (o, slotted, text, grown) = value_slot column value bindings first wrote in
        let ih = write_fields-Written shape fields first.1 rest wrote' in
        subst (Written shape (field ∷ fields) bindings) (ok-injective h4) (
          add_slot shape fields bindings first rest column o found (value, given, slotted) text
            grown ih)
