-- ===== src/Compiler/Meaning/Predicates.antt =====
-- The pieces of a predicate are the print of what it says.
use mathlib.Core.List.{◌++◌, append_assoc, append-nil as list-append-nil}
use soap_sqlx.Prelude.{ℕ, suc, ◌+◌, String, List, [], ◌∷◌, Option, none, some, ◌≡◌, refl}
use soap_sqlx.External.{External}
use soap_sqlx.Portable.{
  ScalarValue, ScalarValues, Operator, eq, ne, gt, gte, lt, lte, like, in_set, not_in, is_null,
  is_not_null,
}
use soap_sqlx.Identifier.{PgIdentifier, quoted}
use soap_sqlx.Mapping.{PgScalarKind, PgFieldPermissions, PgColumn}
use soap_sqlx.Binding.{column_expression, placeholder_cast}
use soap_sqlx.Compiler.Template.{
  ◌&◌, Piece, literal, value, cast_suffix, placeholder, render, render-append, holes,
}
use soap_sqlx.Compiler.Pieces.{joined, operator_text, value_items, predicate_pieces}
use soap_sqlx.Compiler.Accepts.{Takes}
use soap_sqlx.Compiler.Meaning.{column_of, text_of, hole_of, holes_of, predicate_of}
use soap_sqlx.Sql.{print_column, print_cast, print_hole, print_more_holes, print}
use soap_sqlx.Sql.Chars.{chars, chars-append}

pub chars-quoted :
    (i : PgIdentifier) → chars (quoted i) ≡ chars "\"" ++ (chars i.text ++ chars "\"")
unfolding quoted
chars-quoted i = rw (chars-append, chars-append) refl

chars-quoted-form :
    (i : PgIdentifier) (s : String)
    → chars (quoted i & s) ≡ chars "\"" ++ (chars i.text ++ (chars "\"" ++ chars s))
chars-quoted-form i s = rw (chars-append, chars-quoted, append_assoc, append_assoc) refl

chars-kind :
    (i : PgIdentifier) (kind : PgScalarKind) (p : PgFieldPermissions)
    → let column : PgColumn = record { identifier = i; scalar_kind = kind; permissions = p } in
      chars (column_expression column) ≡ print_column (column_of column)
unfolding column_expression
chars-kind i PgScalarKind.numeric p = chars-quoted-form i "::numeric"
chars-kind i PgScalarKind.text p = chars-quoted-form i " COLLATE \"C\""
chars-kind i _ p = chars-quoted i

pub chars-column_expression :
    (column : PgColumn) → chars (column_expression column) ≡ print_column (column_of column)
chars-column_expression column = chars-kind column.identifier column.scalar_kind column.permissions

pub chars-cast_suffix :
    (cast : Option String) → chars (cast_suffix cast) ≡ print_cast (text_of cast)
chars-cast_suffix none = refl
chars-cast_suffix (some cast) = chars-append "::" cast

chars-placeholder :
    (n : ℕ) (kind : PgScalarKind)
    → chars (placeholder (suc n) (placeholder_cast kind)) ≡ print_hole (hole_of n kind)
chars-placeholder n kind = rw (chars-append, chars-append, chars-cast_suffix) refl

pub chars-nil :
    (F64 : Type 0) (n : ℕ) → let pieces : List (Piece F64) = [] in chars (render n pieces) ≡ []
unfolding render
chars-nil F64 n = refl

module _ {F64 : Type 0} where
  pub chars-literal :
      (n : ℕ) (s : String) (pieces : List (Piece F64))
      → chars (render n (literal s ∷ pieces)) ≡ chars s ++ chars (render n pieces)
  unfolding render
  chars-literal n s pieces = chars-append s (render n pieces)

  pub chars-append-pieces :
      (n : ℕ) (p q : List (Piece F64))
      → chars (render n (p ++ q)) ≡ chars (render n p) ++ chars (render (n + holes p) q)
  chars-append-pieces n p q = rw (render-append, chars-append) refl

  chars-value :
      (n : ℕ) (kind : PgScalarKind) (v : ScalarValue F64) (pieces : List (Piece F64))
      → chars (render n (value kind v ∷ pieces))
        ≡ print_hole (hole_of n kind) ++ chars (render (suc n) pieces)
  unfolding render
  chars-value n kind v pieces = rw (chars-append, chars-placeholder) refl

  chars-values :
      (n i : ℕ) (kind : PgScalarKind) (vs : ScalarValues F64)
      → chars (render n (joined (suc i) ", " (value_items kind vs) ++ literal ")" ∷ []))
        ≡ print_more_holes (holes_of n kind vs)
  chars-values n i kind ScalarValues.nil = rw (chars-literal, chars-nil F64) refl
  chars-values n i kind (ScalarValues.cons v vs) =
      rw (chars-literal, chars-value, chars-values (suc n) (suc i) kind vs) refl

  chars-comparison :
      (n : ℕ) (column : PgColumn) (operator : Operator) (v : ScalarValue F64)
      → chars (
          render n (
            literal (column_expression column)
            ∷ literal (operator_text operator)
            ∷ value column.scalar_kind v
            ∷ []))
        ≡ print_column (column_of column)
          ++ (chars (operator_text operator) ++ print_hole (hole_of n column.scalar_kind))
  chars-comparison n column operator v =
      rw
        (
          chars-literal,
          chars-literal,
          chars-value,
          chars-nil F64,
          chars-column_expression,
          list-append-nil,
        )
        refl

module _ (x : External) where
  pub chars-predicate_pieces :
      (n : ℕ) (column : PgColumn) (operator : Operator) (v : Option (ScalarValue x.F64))
      → Takes x column operator v
      → chars (render n (predicate_pieces column operator v))
        ≡ print (predicate_of n column operator v)
  unfolding print
  chars-predicate_pieces n column is_null v takes =
      rw (chars-literal, chars-literal, chars-nil x.F64, chars-column_expression) refl
  chars-predicate_pieces n column is_not_null v takes =
      rw (chars-literal, chars-literal, chars-nil x.F64, chars-column_expression) refl
  chars-predicate_pieces n column in_set (some (ScalarValue.list ScalarValues.nil)) takes =
      rw (chars-literal, chars-nil x.F64) refl
  chars-predicate_pieces n column in_set (some (ScalarValue.list (ScalarValues.cons v vs))) takes =
      rw
        (
          chars-literal,
          chars-literal,
          chars-value,
          chars-values (suc n) 0 column.scalar_kind vs,
          chars-column_expression,
        )
        refl
  chars-predicate_pieces n column not_in (some (ScalarValue.list ScalarValues.nil)) takes =
      rw (chars-literal, chars-literal, chars-nil x.F64, chars-column_expression) refl
  chars-predicate_pieces n column not_in (some (ScalarValue.list (ScalarValues.cons v vs))) takes =
      rw
        (
          chars-literal,
          chars-literal,
          chars-value,
          chars-values (suc n) 0 column.scalar_kind vs,
          chars-column_expression,
        )
        refl
  chars-predicate_pieces n column in_set _ takes = absurd takes
  chars-predicate_pieces n column not_in _ takes = absurd takes
  chars-predicate_pieces n column like (some v) takes =
      rw
        (
          chars-literal,
          chars-literal,
          chars-value,
          chars-literal,
          chars-nil x.F64,
          chars-column_expression,
        )
        refl
  chars-predicate_pieces n column operator none takes = absurd takes
  chars-predicate_pieces n column eq (some v) takes = chars-comparison n column eq v
  chars-predicate_pieces n column ne (some v) takes = chars-comparison n column ne v
  chars-predicate_pieces n column gt (some v) takes = chars-comparison n column gt v
  chars-predicate_pieces n column gte (some v) takes = chars-comparison n column gte v
  chars-predicate_pieces n column lt (some v) takes = chars-comparison n column lt v
  chars-predicate_pieces n column lte (some v) takes = chars-comparison n column lte v
