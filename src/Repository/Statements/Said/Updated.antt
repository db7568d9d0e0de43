-- ===== src/Repository/Statements/Said/Updated.antt =====
-- The text of a replacement of src/postgres/repository.rs reads as what it says.
use mathlib.Core.List.{◌++◌, append_assoc}
use soap_sqlx.Prelude.{
  ℕ, suc, ◌+◌, Bool, true, false, String, List, [], ◌∷◌, Option, ok, length, ◌≡◌, refl, ap, ◌∙◌,
  is_empty,
}
use soap_sqlx.External.{External}
use soap_sqlx.Mapping.{PgColumn, resolve}
use soap_sqlx.Value.{PgValue}
use soap_sqlx.Binding.{PgBindValue, normalize_entity_binding}
use soap_sqlx.Entity.{selectable_fields}
use soap_sqlx.Output.Arguments.{arguments_of}
use soap_sqlx.Repository.{PgEntityCodec, join, placeholder, is_missing}
use soap_sqlx.Repository.Statements.{assignment, update_text, replaced_fields, compile_replace}
use soap_sqlx.Repository.Statements.Slots.{Slot, SlotsOf, slot_texts, slot_binding, slot_bindings}
use soap_sqlx.Repository.Statements.Replaceable.{IsNonempty}
use soap_sqlx.Repository.Statements.Replaced.{compile_replace-IsReplacement}
use soap_sqlx.Repository.Statements.Said.{
  table_of, name_of, given_of, assignments_of, Returned, returning_of, replacement_of, HasNames,
}
use soap_sqlx.Repository.Statements.Said.Texts.{
  chars-table, chars-join, chars-placeholder, chars-assignment, others-assignments, chars-returning,
}
use soap_sqlx.Repository.Statements.Said.Names.{
  table_of-IsTable, mapped-IsName, assignments_of-IsAssignment, returning_of-IsReturning,
}
use soap_sqlx.Compiler.Meaning.{hole_of}
use soap_sqlx.Compiler.Meaning.Predicates.{chars-quoted}
use soap_sqlx.Compiler.Meaning.Readable.{text_of-IsCast}
use soap_sqlx.Sql.{print_hole}
use soap_sqlx.Sql.Chars.{Text, chars, chars-append}
use soap_sqlx.Sql.Statement.{
  Replacement, print_name, print_table, print_assignment, print_items, print_returning,
  print_replacement, read_replacement,
}
use soap_sqlx.Sql.Statement.Reads.{read_replacement-print_replacement}

module _ (x : External) {E Key : Type 0} (codec : PgEntityCodec x E Key) where
  -- The text of a replacement after `n` bindings of its slots.
  abbrev replaced_text : List (Slot x) → PgColumn → String
  replaced_text slots key =
      update_text x codec (join (slot_texts x (assignment x codec) 0 slots)) key
        (placeholder (suc (length (slot_bindings x slots))) key.scalar_kind)

  chars-update_text :
      (assignments : String) (key : PgColumn) (n : ℕ)
      → chars (update_text x codec assignments key (placeholder (suc n) key.scalar_kind))
        ≡ chars "UPDATE "
          ++ (print_table (table_of codec.mapping.table)
              ++ (chars " SET "
                  ++ (chars assignments
                      ++ (chars " WHERE "
                          ++ (print_name (name_of key)
                              ++ (chars " = " ++ print_hole (hole_of n key.scalar_kind)))))))
  chars-update_text assignments key n =
      rw
        (
          chars-append,
          chars-append,
          chars-append,
          chars-append,
          chars-append,
          chars-append,
          chars-append,
          chars-table,
          chars-quoted key.identifier,
          chars-placeholder n key.scalar_kind,
        )
        refl

  -- A clause after the text is a clause at its end.
  moved :
      (table assignments key hole clause : Text)
      → (chars "UPDATE "
            ++ (table
                ++ (chars " SET "
                    ++ (assignments ++ (chars " WHERE " ++ (key ++ (chars " = " ++ hole)))))))
          ++ clause
        ≡ chars "UPDATE "
          ++ (table
              ++ (chars " SET "
                  ++ (assignments
                      ++ (chars " WHERE " ++ (key ++ (chars " = " ++ (hole ++ clause)))))))
  moved table assignments key hole clause =
      rw (append_assoc, append_assoc, append_assoc, append_assoc, append_assoc, append_assoc) refl

  chars-assignments :
      (column : PgColumn) (o : Option (PgBindValue x.types)) (slots : List (Slot x))
      → chars (join (slot_texts x (assignment x codec) 0 ((column, o) ∷ slots)))
        ≡ print_items print_assignment (record {
          first = record { column = name_of column; given = given_of x 0 column o };
          others = assignments_of x (0 + length (slot_binding x o)) slots;
        })
  chars-assignments column o slots =
      rw (chars-join, chars-assignment x codec 0 column o, others-assignments x codec _ slots) refl

  module _ (entity : E) (named : HasNames x codec.mapping) where
    replacement_read :
        (fields : List x.FieldName) (slots : List (Slot x)) (key : PgColumn) (returning : Bool)
        (columns : List PgColumn) (sql : String)
        → is_empty fields ≡ false
        → SlotsOf x codec entity fields slots
        → resolve x codec.mapping.fields codec.mapping.id_field ≡ ok key
        → Returned x codec.mapping returning columns
        → chars sql
          ≡ chars (replaced_text slots key) ++ print_returning (returning_of returning columns)
        → read_replacement (chars sql) ≡ replacement_of x codec.mapping slots key returning columns
    replacement_read [] slots key returning columns sql some_field slots_of found returned same = cc
    replacement_read (_ ∷ _) [] key returning columns sql some_field slots_of found returned same =
        absurd slots_of
    replacement_read (field ∷ fields) ((column, o) ∷ slots) key returning columns sql some_field
          slots_of found returned same =
        let n = length (slot_bindings x ((column, o) ∷ slots)) in
        let assigned = slot_texts x (assignment x codec) 0 ((column, o) ∷ slots) in
        let clause = print_returning (returning_of returning columns) in
        let table = print_table (table_of codec.mapping.table) in
        let given =
          moved table (chars (join assigned)) (print_name (name_of key))
            (print_hole (hole_of n key.scalar_kind)) clause in
        let text =
          same ∙ (ap (λ t. t ++ clause) (chars-update_text (join assigned) key n) ∙ given) in
        let said : Replacement = record {
          table = table_of codec.mapping.table;
          assignments = record {
            first = record { column = name_of column; given = given_of x 0 column o };
            others = assignments_of x (0 + length (slot_binding x o)) slots;
          };
          key = name_of key;
          equals = hole_of n key.scalar_kind;
          returning = returning_of returning columns;
        } in
        let printed : chars sql ≡ print_replacement said =
          text
          ∙ ap
              (λ t.
                chars "UPDATE "
                ++ (table
                    ++ (chars " SET "
                        ++ (t
                            ++ (chars " WHERE "
                                ++ (print_name (name_of key)
                                    ++ (chars " = "
                                        ++ (print_hole (hole_of n key.scalar_kind) ++ clause))))))))
              (chars-assignments column o slots) in
        ap read_replacement printed
        ∙ read_replacement-print_replacement said (
          table_of-IsTable x codec.mapping named,
          assignments_of-IsAssignment x codec entity named 0 (field ∷ fields) ((column, o) ∷ slots)
              slots_of,
          mapped-IsName x codec.mapping codec.mapping.id_field key named found,
          text_of-IsCast key.scalar_kind,
          returning_of-IsReturning x codec.mapping returning columns named returned,
        )

  module _ (entity : E) where
    -- A replacement of the entity: a slot for each updatable field but the identity, with the column it is
    -- mapped to and what the codec gives it; the statement, as it is read; an argument for each slot that
    -- is bound, and the identity's as the last.
    pub record Replaces (returning : Bool) (sql : String) (args : x.PgArguments) : Type 0 where
      pub slots : List (Slot x)
      pub slots_of : SlotsOf x codec entity (replaced_fields x codec) slots
      pub some_field : is_empty (replaced_fields x codec) ≡ false
      pub id_column : PgColumn
      pub id_value : PgValue x.types
      pub id_bound : PgBindValue x.types
      pub id_found : resolve x codec.mapping.fields codec.mapping.id_field ≡ ok id_column
      pub id_given : codec.id_value (codec.id entity) ≡ ok id_value
      pub id_present : is_missing id_value ≡ false
      pub id_normal : normalize_entity_binding x id_column.scalar_kind id_value ≡ ok id_bound
      pub columns : List PgColumn
      pub returned : Returned x codec.mapping returning columns
      pub text :
          read_replacement (chars sql)
          ≡ replacement_of x codec.mapping slots id_column returning columns
      pub arguments : x.contents args ≡ arguments_of x (slot_bindings x slots ++ id_bound ∷ [])

    -- If the names of the table and of the mapped columns are identifiers and, where RETURNING is
    -- asked for, some field is selectable, the text that `compile_replace` returns reads, as a SQL
    -- statement and as a whole, as the update of the table of the entity that sets the columns of
    -- the updatable fields but the identity, at least one, in order, each to the next placeholder
    -- or, where the codec gives it, to DEFAULT, WHERE the column of the identity equals the
    -- placeholder after these, and, exactly if asked for, RETURNING with the columns of the
    -- selectable fields in order; the arguments are those of the slots that are not DEFAULT, in
    -- order, and then the one of the identity, which is present and normalized for its column.
    pub read_replacement-compile_replace :
        HasNames x codec.mapping
        → (returning : Bool) (sql : String) (args : x.PgArguments)
        → (returning ≡ true → IsNonempty (selectable_fields x codec.mapping))
        → compile_replace x codec entity returning ≡ ok (sql, args)
        → Replaces returning sql args
    read_replacement-compile_replace named returning sql args some_field h =
        let w = compile_replace-IsReplacement x codec entity returning sql args h in
        let (columns, returned, said) =
          chars-returning x codec returning (replaced_text w.slots w.id_column) sql some_field
            w.text in
        record {
          slots = w.slots;
          slots_of = w.slots_of;
          some_field = w.some_field;
          id_column = w.id_column;
          id_value = w.id_value;
          id_bound = w.id_bound;
          id_found = w.id_found;
          id_given = w.id_given;
          id_present = w.id_present;
          id_normal = w.id_normal;
          columns = columns;
          returned = returned;
          text =
              replacement_read entity named (replaced_fields x codec) w.slots w.id_column returning
                columns sql w.some_field w.slots_of w.id_found returned said;
          arguments = w.arguments;
        }
