-- ===== src/Compiler/Wrote.antt =====
-- The relation between the output before and after a step of the writer that wrote some pieces,
-- with a rule for each way the writer of src/postgres/compiler.rs extends its output.
use text.Mathlib.TextLemmas.{append-nil, append_assoc}
use soap_sqlx.Prelude.{
  ℕ, suc, ◌+◌, ◌^◌, ◌<◌, pos, String, List, [], ◌∷◌, ◌++◌, Option, none, some, ok, ◌≡◌, refl, sym,
  length, length-append, arith,
}
use mathlib.Core.List.{append-nil as list-append-nil, append_assoc as list-append_assoc}
use soap_sqlx.External.{External}
use soap_sqlx.Portable.{ScalarValue}
use soap_sqlx.Mapping.{PgScalarKind}
use soap_sqlx.Binding.{PgBindValue, i64, placeholder_cast, normalize_binding}
use soap_sqlx.Output.{CompilerOutput, push_str, push_cast, push_binding}
use soap_sqlx.Compiler.Template.{
  ◌&◌, Piece, literal, value, page, cast_suffix, placeholder, render, render-append, holes, Bound,
  Bound-append, holes_of_Bound,
}

module _ (x : External) where
  pub record Wrote (pieces : List (Piece x.F64)) (before after : CompilerOutput x.types)
      : Type 0 where
    pub bindings : List (PgBindValue x.types)
    pub sql : after.sql ≡ before.sql & render (length before.bindings) pieces
    pub appended : after.bindings ≡ before.bindings ++ bindings
    pub bound : Bound x pieces bindings

  module _ {o : CompilerOutput x.types} where
    pub Wrote-nil : Wrote [] o o
    unfolding render
    Wrote-nil = record {
      bindings = [];
      sql = sym (append-nil o.sql);
      appended = sym (list-append-nil o.bindings);
      bound = tt;
    }

    pub Wrote-str : (s : String) → Wrote (literal s ∷ []) o (push_str s o)
    unfolding render
    Wrote-str s = record {
      bindings = [];
      sql = rw append-nil;
      appended = sym (list-append-nil o.bindings);
      bound = tt;
    }

  push_cast_lem : (cast : Option String) (s : String) → push_cast cast s ≡ s & cast_suffix cast
  push_cast_lem none s = sym (append-nil s)
  push_cast_lem (some cast) s = append_assoc s "::" cast

  push_binding-sql :
      (b : PgBindValue x.types) (cast : Option String) (o : CompilerOutput x.types)
      → (push_binding b cast o).sql ≡ o.sql & placeholder (suc (length o.bindings)) cast
  unfolding push_binding
  push_binding-sql b cast o =
      let counted : length (o.bindings ++ b ∷ []) ≡ suc (length o.bindings) =
        omega (arith, length-append o.bindings (b ∷ [])) in
      rw (push_cast_lem, counted, append_assoc, append_assoc)

  pub Wrote-binding :
      {o : CompilerOutput x.types} (kind : PgScalarKind) (v : ScalarValue x.F64)
      (b : PgBindValue x.types)
      → normalize_binding x kind v ≡ ok b
      → Wrote (value kind v ∷ []) o (push_binding b (placeholder_cast kind) o)
  unfolding render
  Wrote-binding {o} kind v b e = record {
    bindings = b ∷ [];
    sql = rw (append-nil) (push_binding-sql b (placeholder_cast kind) o);
    appended = unfold push_binding in refl;
    bound = (e, tt);
  }

  pub Wrote-page :
      {o : CompilerOutput x.types} (n : ℕ)
      → n < 2 ^ 63
      → Wrote (page n ∷ []) o (push_binding (i64 (pos n)) none o)
  unfolding render
  Wrote-page {o} n h = record {
    bindings = i64 (pos n) ∷ [];
    sql = rw append-nil (push_binding-sql (i64 (pos n)) none o);
    appended = unfold push_binding in refl;
    bound = (refl, h, tt);
  }

  pub Wrote-append :
      {p q : List (Piece x.F64)} {a b c : CompilerOutput x.types}
      → Wrote p a b
      → Wrote q b c
      → Wrote (p ++ q) a c
  Wrote-append {p} {q} {a} {b} {c} w v =
      let counted : length b.bindings ≡ length a.bindings + holes p = rw w.appended (
        omega
          (arith, length-append a.bindings w.bindings, holes_of_Bound x p w.bindings w.bound)) in
      record {
        bindings = w.bindings ++ v.bindings;
        sql = rw (v.sql, w.sql, counted, render-append, append_assoc);
        appended = rw (v.appended, w.appended, list-append_assoc);
        bound = Bound-append x p q w.bindings v.bindings w.bound v.bound;
      }
