-- ===== src/Repository/Statements/Said/Inserted.antt =====
-- The text of an insertion of src/postgres/repository.rs reads as what it says.
use mathlib.Core.List.{◌++◌, append_assoc}
use soap_sqlx.Prelude.{Bool, true, String, List, [], ◌∷◌, some, ok, ◌≡◌, refl, ap, ◌∙◌}
use soap_sqlx.External.{External}
use soap_sqlx.Mapping.{PgColumn}
use soap_sqlx.Entity.{insertable_fields, selectable_fields}
use soap_sqlx.Output.Arguments.{arguments_of}
use soap_sqlx.Repository.{PgEntityCodec}
use soap_sqlx.Repository.Statements.{insert_text, compile_insert}
use soap_sqlx.Repository.Statements.Slots.{Slot, SlotsOf, slot_bindings}
use soap_sqlx.Repository.Statements.Replaceable.{IsNonempty}
use soap_sqlx.Repository.Statements.Compiled.{insert_statement, compile_insert-IsInsertion}
use soap_sqlx.Repository.Statements.Said.{
  table_of, row_of, Returned, returning_of, insertion_of, HasNames,
}
use soap_sqlx.Repository.Statements.Said.Texts.{
  chars-table, chars-join, chars-slot_text, others-slot_columns, others-values, chars-returning,
}
use soap_sqlx.Repository.Statements.Said.Names.{
  table_of-IsTable, row_of-IsRow, returning_of-IsReturning,
}
use soap_sqlx.Compiler.Meaning.Predicates.{chars-quoted}
use soap_sqlx.Sql.Statement.Reads.{read_insertion-print_insertion}
use soap_sqlx.Sql.Chars.{chars, chars-append}
use soap_sqlx.Sql.Statement.{
  print_table, print_row, print_returning, print_insertion, read_insertion,
}

module _ (x : External) {E Key : Type 0} (codec : PgEntityCodec x E Key) where
  chars-insert_text :
      (columns values : String)
      → chars (insert_text x codec columns values)
        ≡ chars "INSERT INTO "
          ++ (print_table (table_of codec.mapping.table)
              ++ (chars " ("
                  ++ (chars columns ++ (chars ") VALUES (" ++ (chars values ++ chars ")")))))
  chars-insert_text columns values =
      rw
        (
          chars-append, chars-append, chars-append, chars-append, chars-append, chars-append,
          chars-table,
        )
        refl

  chars-insert_statement :
      (slots : List (Slot x))
      → chars (insert_statement x codec slots)
        ≡ chars "INSERT INTO "
          ++ (print_table (table_of codec.mapping.table) ++ print_row (row_of x slots))
  chars-insert_statement [] = rw (chars-append, chars-append, chars-table) refl
  chars-insert_statement ((column, o) ∷ slots) =
      rw
        (
          chars-insert_text,
          chars-join,
          chars-join,
          chars-quoted column.identifier,
          chars-slot_text x 0 column o,
          others-slot_columns x slots,
          others-values x codec _ slots,
        )
        refl

  chars-insertion :
      (slots : List (Slot x)) (returning : Bool) (columns : List PgColumn) (sql : String)
      → chars sql
        ≡ chars (insert_statement x codec slots) ++ print_returning (returning_of returning columns)
      → chars sql ≡ print_insertion (insertion_of x codec.mapping slots returning columns)
  chars-insertion slots returning columns sql same =
      let table = print_table (table_of codec.mapping.table) in
      let row = print_row (row_of x slots) in
      let clause = print_returning (returning_of returning columns) in
      same
      ∙ (ap (λ t. t ++ clause) (chars-insert_statement slots)
          ∙ ap (λ t. chars "INSERT INTO " ++ t) (append_assoc table row clause))

  module _ (entity : E) where
    -- An insertion of the entity: a slot for each insertable field, with the column it is mapped to and
    -- what the codec gives it; the statement, as it is read; an argument for each slot that is bound.
    pub record Inserts (returning : Bool) (sql : String) (args : x.PgArguments) : Type 0 where
      pub slots : List (Slot x)
      pub slots_of : SlotsOf x codec entity (insertable_fields x codec.mapping) slots
      pub columns : List PgColumn
      pub returned : Returned x codec.mapping returning columns
      pub text :
          read_insertion (chars sql) ≡ some (insertion_of x codec.mapping slots returning columns)
      pub arguments : x.contents args ≡ arguments_of x (slot_bindings x slots)

    -- If the names of the table and of the mapped columns are identifiers and, where RETURNING is
    -- asked for, some field is selectable, the text that `compile_insert` returns reads, as a SQL
    -- statement and as a whole, as the insertion into the table of the entity: the columns of the
    -- insertable fields in order, to each the next placeholder or, where the codec gives it,
    -- DEFAULT, or DEFAULT VALUES if there is no such field, and, exactly if asked for, RETURNING
    -- with the columns of the selectable fields in order; the arguments are those of the slots
    -- that are not DEFAULT, in order.
    pub read_insertion-compile_insert :
        HasNames x codec.mapping
        → (returning : Bool) (sql : String) (args : x.PgArguments)
        → (returning ≡ true → IsNonempty (selectable_fields x codec.mapping))
        → compile_insert x codec entity returning ≡ ok (sql, args)
        → Inserts returning sql args
    read_insertion-compile_insert named returning sql args some_field h =
        let w = compile_insert-IsInsertion x codec entity returning sql args h in
        let (columns, returned, said) =
          chars-returning x codec returning (insert_statement x codec w.slots) sql some_field
            w.text in
        let same = chars-insertion w.slots returning columns sql said in
        record {
          slots = w.slots;
          slots_of = w.slots_of;
          columns = columns;
          returned = returned;
          text =
              ap read_insertion same
              ∙ read_insertion-print_insertion
                  (insertion_of x codec.mapping w.slots returning columns)
                  (
                    table_of-IsTable x codec.mapping named,
                    row_of-IsRow x codec entity named (insertable_fields x codec.mapping) w.slots
                        w.slots_of,
                    returning_of-IsReturning x codec.mapping returning columns named returned,
                  );
          arguments = w.arguments;
        }
