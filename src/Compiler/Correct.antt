-- ===== src/Compiler/Correct.antt =====
-- What the compiler of src/postgres/compiler.rs returns: the rendering of the pieces that the query
-- stands for, and the values of those pieces as bindings.
use text.Mathlib.TextLemmas.{nil-append}
use soap_sqlx.Prelude.{List, ok, ◌≡◌, >>=-eq-ok, append_assoc, subst, length}
use soap_sqlx.External.{External, SoapResult}
use soap_sqlx.Portable.{Condition, FindParams}
use soap_sqlx.Mapping.{PgFieldMap}
use soap_sqlx.Output.{PgCompiledQuery, CompilerOutput, default_output, finish}
use soap_sqlx.Compiler.{
  write_condition, write_where, write_order, write_limit, write_offset, compile_condition,
  compile_find, compile_count,
}
use soap_sqlx.Compiler.Template.{Piece, render, holes, Bound, holes_of_Bound}
use soap_sqlx.Compiler.Wrote.{Wrote}
use soap_sqlx.Compiler.Writes.{write_condition-Wrote}
use soap_sqlx.Compiler.Clauses.{write_where-At, write_order-At, write_limit-At, write_offset-At}
use soap_sqlx.Compiler.Pieces.{condition_pieces, find_pieces, count_pieces}

module _ (x : External) where
  -- The query's text is the rendering of the pieces from placeholder 1 on, and its bindings are the
  -- normal forms of the pieces' values, in order.
  pub record IsRendering (pieces : List (Piece x.F64)) (q : PgCompiledQuery x.types) : Type 0 where
    pub sql : q.sql ≡ render 0 pieces
    pub bound : Bound x pieces q.bindings
    pub counted : holes pieces ≡ length q.bindings

  pub IsRendering-of_Wrote :
      {pieces : List (Piece x.F64)} {o : CompilerOutput x.types}
      → Wrote x pieces default_output o
      → IsRendering pieces (finish o)
  IsRendering-of_Wrote {pieces} {o} w =
      let same : o.bindings ≡ w.bindings = w.appended in
      record {
        sql = rw w.sql (nil-append _);
        bound = rw same w.bound;
        counted = rw same (holes_of_Bound x pieces w.bindings w.bound);
      }

  finished :
      {pieces : List (Piece x.F64)} {o : CompilerOutput x.types} {q : PgCompiledQuery x.types}
      → Path (SoapResult x (PgCompiledQuery x.types)) (ok (finish o)) (ok q)
      → Wrote x pieces default_output o
      → IsRendering pieces q
  finished {pieces} e w = subst (IsRendering pieces) (cc) (IsRendering-of_Wrote w)

  module _ (fields : PgFieldMap x) where
    -- A compiled condition is the rendering of the condition's pieces; its bindings are the normal
    -- forms of its values in the order of the placeholders.
    pub compile_condition-IsRendering :
        (c : Condition x.FieldName x.F64) (q : PgCompiledQuery x.types)
        → compile_condition x fields c ≡ ok q
        → IsRendering (condition_pieces x fields c) q
    unfolding compile_condition
    compile_condition-IsRendering c q h =
        let (_, _, h') = >>=-eq-ok (x.validate_condition c) _ h in
        let (o, wrote, done) = >>=-eq-ok (write_condition x fields c default_output) _ h' in
        finished done (write_condition-Wrote x fields c default_output o wrote)

    -- A compiled search is the rendering of its present clauses, `WHERE`, `ORDER BY`, `LIMIT` and
    -- `OFFSET` in this order, with one space between any two; its bindings are the normal forms of
    -- its values in the order of the placeholders.
    pub compile_find-IsRendering :
        (params : FindParams x.FieldName x.F64) (q : PgCompiledQuery x.types)
        → compile_find x fields params ≡ ok q
        → IsRendering (find_pieces x fields params) q
    unfolding compile_find
    compile_find-IsRendering params q h =
        let (_, _, h0) = >>=-eq-ok (x.validate_params params) _ h in
        let (a, wrote, h1) =
          >>=-eq-ok (write_where x fields params.condition default_output) _ h0 in
        let (b, ordered, h2) = >>=-eq-ok (write_order x fields params.sort a) _ h1 in
        let (c, limited, h3) = >>=-eq-ok (write_limit x fields params.limit b) _ h2 in
        let (d, offset, h4) = >>=-eq-ok (write_offset x fields params.offset c) _ h3 in
        let at_where = write_where-At x fields params.condition a wrote in
        let at_order = write_order-At x fields _ params.sort a b at_where ordered in
        let at_limit = write_limit-At x fields _ params.limit b c at_order limited in
        let at_offset = write_offset-At x fields _ params.offset c d at_limit offset in
        finished h4 (rw (append_assoc, append_assoc) at at_offset.wrote)

    -- A compiled count is the rendering of the `WHERE` clause alone, if there is one; sorting and
    -- pagination do not occur in it.
    pub compile_count-IsRendering :
        (params : FindParams x.FieldName x.F64) (q : PgCompiledQuery x.types)
        → compile_count x fields params ≡ ok q
        → IsRendering (count_pieces x fields params) q
    unfolding compile_count
    compile_count-IsRendering params q h =
        let (_, _, h0) = >>=-eq-ok (x.validate_params params) _ h in
        let (o, wrote, done) =
          >>=-eq-ok (write_where x fields params.condition default_output) _ h0 in
        finished done (write_where-At x fields params.condition o wrote).wrote
