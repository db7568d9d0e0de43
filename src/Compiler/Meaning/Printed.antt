-- ===== src/Compiler/Meaning/Printed.antt =====
-- A compiled condition reads as what the condition says.
use mathlib.Core.List.{◌++◌, append_assoc}
use soap_sqlx.Prelude.{ℕ, suc, ◌+◌, String, List, [], ◌∷◌, some, ok, ◌≡◌, refl, ◌∙◌}
use soap_sqlx.External.{External}
use soap_sqlx.Portable.{
  LogicalOperator, logical_and, logical_or, Condition, Conditions, group, predicate,
}
use soap_sqlx.Mapping.{PgFieldMap}
use soap_sqlx.Mapping.Lookup.{HasValidColumns}
use soap_sqlx.Output.{PgCompiledQuery}
use soap_sqlx.Compiler.{separator, compile_condition}
use soap_sqlx.Compiler.Template.{Piece, literal, render, holes}
use soap_sqlx.Compiler.Pieces.{joined, condition_pieces, condition_items}
use soap_sqlx.Compiler.Compiles.{IsWellTyped, AllWellTyped, compile_condition_iff}
use soap_sqlx.Compiler.Correct.{compile_condition-IsRendering}
use soap_sqlx.Compiler.Meaning.{junction, values_in, sql_of, sqls_of}
use soap_sqlx.Compiler.Meaning.Predicates.{
  chars-literal, chars-nil, chars-append-pieces, chars-predicate_pieces,
}
use soap_sqlx.Sql.{Sql, Sqls, between, print, print_more}
use soap_sqlx.Sql.Chars.{chars}
use soap_sqlx.Sql.Reads.{read_sql, read_sql-print}
use soap_sqlx.Compiler.Meaning.Counted.{holes-condition_pieces}
use soap_sqlx.Compiler.Meaning.Readable.{sql_of-IsReadable}

chars-separator : (op : LogicalOperator) → chars (separator op) ≡ between op
chars-separator logical_and = refl
chars-separator logical_or = refl

print-junction :
    (op : LogicalOperator) (a : Sql) (cs : Sqls)
    → print (junction op (Sqls.cons a cs)) ≡ chars "(" ++ (print a ++ print_more op cs)
unfolding print
print-junction op a Sqls.nil = refl
print-junction op a (Sqls.cons b cs) = refl

module _ (x : External) (fields : PgFieldMap x) where
  -- No group of the condition is empty, which is what the grammar asks for.
  abbrev mutual
    pub HasItems : Condition x.FieldName x.F64 → Type 0
    HasItems (group op Conditions.nil) = ⊥
    HasItems (group op (Conditions.cons c cs)) = HasItems c × AllHaveItems cs
    HasItems (predicate field operator v) = Unit

    pub AllHaveItems : Conditions x.FieldName x.F64 → Type 0
    AllHaveItems Conditions.nil = Unit
    AllHaveItems (Conditions.cons c cs) = HasItems c × AllHaveItems cs

  chars-group :
      (n : ℕ) (s : String) (p : List (Piece x.F64)) (items : List (List (Piece x.F64)))
      → chars (render n (literal "(" ∷ (joined 0 s (p ∷ items) ++ literal ")" ∷ [])))
        ≡ chars "("
          ++ (chars (render n p)
              ++ chars (render (n + holes p) (joined 1 s items ++ literal ")" ∷ [])))
  chars-group n s p items =
      let flat : Path (List (Piece x.F64)) (joined 0 s (p ∷ items) ++ literal ")" ∷ [])
          (p ++ (joined 1 s items ++ literal ")" ∷ [])) =
        append_assoc p (joined 1 s items) (literal ")" ∷ []) in
      rw (chars-literal, flat, chars-append-pieces) refl

  chars-next :
      (n i : ℕ) (s : String) (p : List (Piece x.F64)) (items : List (List (Piece x.F64)))
      → chars (render n (joined (suc i) s (p ∷ items) ++ literal ")" ∷ []))
        ≡ chars s
          ++ (chars (render n p)
              ++ chars (render (n + holes p) (joined (suc (suc i)) s items ++ literal ")" ∷ [])))
  chars-next n i s p items =
      let flat : Path (List (Piece x.F64)) ((p ++ joined (suc (suc i)) s items) ++ literal ")" ∷ [])
          (p ++ (joined (suc (suc i)) s items ++ literal ")" ∷ [])) =
        append_assoc p (joined (suc (suc i)) s items) (literal ")" ∷ []) in
      rw (chars-literal, flat, chars-append-pieces) refl

  mutual
    unfolding sql_of condition_pieces print

    pub chars-condition_pieces :
        (n : ℕ) (c : Condition x.FieldName x.F64)
        → IsWellTyped x fields c
        → HasItems c
        → chars (render n (condition_pieces x fields c)) ≡ print (sql_of x fields n c)
    chars-condition_pieces n (group op Conditions.nil) typed items = absurd items
    chars-condition_pieces n (group op (Conditions.cons c cs)) (typed, typeds) (items, itemss) =
        chars-group n (separator op) (condition_pieces x fields c) (condition_items x fields cs)
        ∙ rw
            (
              holes-condition_pieces x fields c typed,
              chars-condition_pieces n c typed items,
              chars-condition_items 0 (n + values_in c) op cs typeds itemss,
              print-junction,
            )
            refl
    chars-condition_pieces n (predicate field operator v) (column, found, takes) items =
        rw found (chars-predicate_pieces x n column operator v takes)

    chars-condition_items :
        (i n : ℕ) (op : LogicalOperator) (cs : Conditions x.FieldName x.F64)
        → AllWellTyped x fields cs
        → AllHaveItems cs
        → chars (
            render n
              (joined (suc i) (separator op) (condition_items x fields cs) ++ literal ")" ∷ []))
          ≡ print_more op (sqls_of x fields n cs)
    chars-condition_items i n op Conditions.nil typed items =
        chars-literal n ")" [] ∙ rw (chars-nil x.F64) refl
    chars-condition_items i n op (Conditions.cons c cs) (typed, typeds) (items, itemss) =
        chars-next n i (separator op) (condition_pieces x fields c) (condition_items x fields cs)
        ∙ rw
            (
              holes-condition_pieces x fields c typed,
              chars-separator,
              chars-condition_pieces n c typed items,
              chars-condition_items (suc i) (n + values_in c) op cs typeds itemss,
            )
            refl

  -- If the names of the mapped columns are identifiers and no group of a condition is empty, the
  -- text that the condition compiles to reads, as SQL and as a whole, as the condition it states:
  -- the same junctions, the tests on the mapped columns, and a placeholder for each value,
  -- numbered from left to right.
  pub read_sql-compile_condition :
      HasValidColumns x fields
      → (c : Condition x.FieldName x.F64) → HasItems c
      → (q : PgCompiledQuery x.types) → compile_condition x fields c ≡ ok q
      → read_sql (chars q.sql) ≡ some (sql_of x fields 0 c)
  read_sql-compile_condition valid c items q h =
      let (_, typed) = (compile_condition_iff x fields c).0 (q, h) in
      let text : q.sql ≡ render 0 (condition_pieces x fields c) =
        (compile_condition-IsRendering x fields c q h).sql in
      rw (text, chars-condition_pieces 0 c typed items)
        (read_sql-print (sql_of x fields 0 c) (sql_of-IsReadable x fields valid 0 c))
