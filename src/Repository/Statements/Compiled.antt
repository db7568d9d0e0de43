-- ===== src/Repository/Statements/Compiled.antt =====
-- The statements of src/postgres/repository.rs, described by their slots.
use Prim.Native.String as Text
use soap_sqlx.Prelude.{
  Bool, true, false, String, List, [], ◌∷◌, ok, ◌>>=◌, >>=-eq-ok, collect, is_empty, ◌≡◌, refl,
  subst, ok-injective,
}
use soap_sqlx.External.{External, SoapResult}
use soap_sqlx.Identifier
use soap_sqlx.Mapping.{resolve}
use soap_sqlx.Output.{from_bindings}
use soap_sqlx.Output.Arguments.{arguments_of, into_arguments-contents}
use soap_sqlx.Entity.{quoted, insertable_fields}
use soap_sqlx.Repository.{
  PgEntityCodec, Bindings, join, quoted_column, selected_columns, compiled_arguments,
}
use soap_sqlx.Repository.Statements.{
  write_fields, value_alone, insert_text, insert_body, push_returning, compile_insert,
}
use soap_sqlx.Repository.Statements.Slots.{
  Slot, SlotsOf, slot_texts, slot_bindings, Written, write_fields-Written,
}

module _ (x : External) where
  abbrev pub slot_columns : List (Slot x) → List String
  slot_columns [] = []
  slot_columns ((column, _) ∷ slots) = Identifier.quoted column.identifier ∷ slot_columns slots

  module _ {E Key : Type 0} (codec : PgEntityCodec x E Key) where
    -- The text of the statement that inserts the slots.
    abbrev pub insert_statement : List (Slot x) → String
    insert_statement [] =
        Text.◌++◌ "INSERT INTO " (Text.◌++◌ (quoted codec.mapping.table) " DEFAULT VALUES")
    insert_statement (slot ∷ slots) =
        insert_text x codec (join (slot_columns (slot ∷ slots)))
          (join (slot_texts x (value_alone x codec) 0 (slot ∷ slots)))

    -- A statement with its `RETURNING` clause, if it is asked for.
    abbrev pub WithReturning : Bool → String → String → Type 0
    WithReturning false body sql = sql ≡ body
    WithReturning true body sql =
        (columns : String) × (selected_columns x codec ≡ ok columns)
        × (sql ≡ Text.◌++◌ body (Text.◌++◌ " RETURNING " columns))

    push_returning-WithReturning :
        (returning : Bool) (body sql : String)
        → push_returning x codec returning body ≡ ok sql
        → WithReturning returning body sql
    push_returning-WithReturning false body sql h = cc
    push_returning-WithReturning true body sql h =
        let (columns, found, h') = >>=-eq-ok (selected_columns x codec) _ h in (columns, found, cc)

    -- What `compile_insert` and `compile_replace` end with.
    abbrev pub complete : Bool → String × Bindings x → SoapResult x (String × x.PgArguments)
    complete returning body = do
      sql ← push_returning x codec returning body.0
      arguments ← compiled_arguments x body.1
      ok (sql, arguments)

    pub complete-eq-ok :
        (returning : Bool) (text : String) (bindings : Bindings x) (sql : String)
        (args : x.PgArguments)
        → complete returning (text, bindings) ≡ ok (sql, args)
        → WithReturning returning text sql × (x.contents args ≡ arguments_of x bindings)
    unfolding compiled_arguments
    complete-eq-ok returning text bindings sql args h =
        let (sql', said, h1) = >>=-eq-ok (push_returning x codec returning text) _ h in
        let (args', held, h2) = >>=-eq-ok (compiled_arguments x bindings) _ h1 in
        let same : Path (String × x.PgArguments) (sql', args') (sql, args) = ok-injective h2 in
        let same_sql : sql' ≡ sql = cc in
        let same_args : args' ≡ args = cc in
        (
          subst (WithReturning returning text) same_sql
              (push_returning-WithReturning returning text sql' said),
          subst (λ a. x.contents a ≡ arguments_of x bindings) same_args
              (into_arguments-contents x (from_bindings bindings) args' held),
        )

    module _ (entity : E) where
      collect-columns :
          (fields : List x.FieldName) (slots : List (Slot x)) (columns : List String)
          → SlotsOf x codec entity fields slots
          → collect (quoted_column x codec) fields ≡ ok columns
          → columns ≡ slot_columns slots
      collect-columns [] [] columns s h = cc
      collect-columns [] (_ ∷ _) columns s h = absurd s
      collect-columns (_ ∷ _) [] columns s h = absurd s
      collect-columns (field ∷ fields) ((column, o) ∷ slots) columns (found, given, s) h =
          let (c, named, h1) = >>=-eq-ok (quoted_column x codec field) _ h in
          let (cs, rest, h2) = >>=-eq-ok (collect (quoted_column x codec) fields) _ h1 in
          let ih = collect-columns fields slots cs s rest in
          let (column', found', h3) = >>=-eq-ok (resolve x codec.mapping.fields field) _ named in cc

      -- An insertion: a slot for each insertable field, the statement of the slots, and their
      -- bindings as the arguments.
      pub record IsInsertion (returning : Bool) (sql : String) (args : x.PgArguments) : Type 0 where
        pub slots : List (Slot x)
        pub slots_of : SlotsOf x codec entity (insertable_fields x codec.mapping) slots
        pub text : WithReturning returning (insert_statement slots) sql
        pub arguments : x.contents args ≡ arguments_of x (slot_bindings x slots)

      insert_statement-some :
          (fields : List x.FieldName) (slots : List (Slot x))
          → SlotsOf x codec entity fields slots
          → is_empty fields ≡ false
          → insert_statement slots
            ≡ insert_text x codec
                (join (slot_columns slots))
                (join (slot_texts x (value_alone x codec) 0 slots))
      insert_statement-some [] slots s h = cc
      insert_statement-some (_ ∷ _) [] s h = absurd s
      insert_statement-some (_ ∷ _) (_ ∷ _) s h = refl

      inserted :
          (fields : List x.FieldName) (columns : List String) (written : List String × Bindings x)
          (w : String × Bindings x)
          → collect (quoted_column x codec) fields ≡ ok columns
          → Written x codec entity (value_alone x codec) fields [] written
          → (insert_text x codec (join columns) (join written.0), written.1) ≡ w
          → is_empty fields ≡ false
          → (slots : List (Slot x)) × SlotsOf x codec entity fields slots
            × (w.0 ≡ insert_statement slots)
            × (w.1 ≡ slot_bindings x slots)
      inserted fields columns written w named slotted same some_field =
          let columns_eq = collect-columns fields slotted.slots columns slotted.slots_of named in
          let statement = insert_statement-some fields slotted.slots slotted.slots_of some_field in
          (
            slotted.slots,
            slotted.slots_of,
            rw (← same, statement, columns_eq, slotted.texts) refl,
            rw (← same, slotted.bound) refl,
          )

      insert_body-slots :
          (fields : List x.FieldName) (w : String × Bindings x)
          → insert_body x codec entity fields ≡ ok w
          → (slots : List (Slot x)) × SlotsOf x codec entity fields slots
            × (w.0 ≡ insert_statement slots)
            × (w.1 ≡ slot_bindings x slots)
      unfolding insert_body
      insert_body-slots [] w h = ([], tt, cc, cc)
      insert_body-slots (field ∷ fields) w h =
          let (columns, named, h1) =
            >>=-eq-ok (collect (quoted_column x codec) (field ∷ fields)) _ h in
          let (written, wrote, h2) =
            >>=-eq-ok (write_fields x codec (value_alone x codec) entity (field ∷ fields) []) _
              h1 in
          let slotted = write_fields-Written x codec entity _ (field ∷ fields) [] written wrote in
          inserted (field ∷ fields) columns written w named slotted (ok-injective h2) refl

      -- What `compile_insert` returns is an insertion of the entity: a slot for each insertable
      -- field with the column it is mapped to and the value of the codec, the statement of the
      -- slots with its `RETURNING` clause if asked for, and one argument for each slot that is
      -- bound, in order.
      pub compile_insert-IsInsertion :
          (returning : Bool) (sql : String) (args : x.PgArguments)
          → compile_insert x codec entity returning ≡ ok (sql, args)
          → IsInsertion returning sql args
      unfolding compile_insert compiled_arguments
      compile_insert-IsInsertion returning sql args h =
          let (body, made, h1) =
            >>=-eq-ok (insert_body x codec entity (insertable_fields x codec.mapping)) _ h in
          let (slots, slots_of, text, bound) = insert_body-slots _ body made in
          let (said, held) = complete-eq-ok returning body.0 body.1 sql args h1 in
          record {
            slots = slots;
            slots_of = slots_of;
            text = subst (λ b. WithReturning returning b sql) text said;
            arguments = subst (λ b. x.contents args ≡ arguments_of x b) bound held;
          }
