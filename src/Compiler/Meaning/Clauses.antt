-- ===== src/Compiler/Meaning/Clauses.antt =====
-- The pieces of a search are the print of what it says.
use text.Mathlib.TextLemmas.{append-nil}
use mathlib.Core.List.{◌++◌, append_assoc, append-nil as list-append-nil}
use soap_sqlx.Prelude.{
  ℕ, zero, suc, ◌+◌, Bool, true, false, String, List, [], ◌∷◌, Option, none, some, ok, ◌≡◌, refl,
  ◌∙◌, arith,
}
use soap_sqlx.External.{External}
use soap_sqlx.Portable.{Condition, SortDirection, ascending, descending, Sort, FindParams}
use soap_sqlx.Mapping.{PgColumn, PgFieldMap, resolve}
use soap_sqlx.Compiler.{direction_text}
use soap_sqlx.Binding.{column_expression}
use soap_sqlx.Compiler.Template.{Piece, literal, page, render, holes}
use soap_sqlx.Compiler.Pieces.{
  joined, condition_pieces, sort_items, order_clause, limit_clause, offset_clause, find_pieces,
}
use soap_sqlx.Compiler.Compiles.{WhereTyped, SortsMapped}
use soap_sqlx.Compiler.Meaning.{column_of, values_in}
use soap_sqlx.Compiler.Meaning.Counted.{holes-after_first, holes-condition_pieces}
use soap_sqlx.Compiler.Meaning.Predicates.{
  chars-literal, chars-nil, chars-append-pieces, chars-column_expression,
}
use soap_sqlx.Compiler.Meaning.Printed.{HasItems, chars-condition_pieces}
use soap_sqlx.Compiler.Meaning.Searches.{
  page_hole, limit_of, offset_of, after_limit, order_of, keys_of, search_of,
}
use soap_sqlx.Sql.{print_hole}
use soap_sqlx.Sql.Chars.{chars, chars-append}
use soap_sqlx.Sql.Search.{
  print_direction, print_key, print_keys, print_order, lead, print_offset, print_limit,
  print_ordered, print_search,
}

abbrev is_first : ℕ → Bool
is_first zero = true
is_first (suc _) = false

chars-direction_text : (d : SortDirection) → chars (direction_text d) ≡ print_direction d
chars-direction_text ascending = refl
chars-direction_text descending = refl

module _ (F64 : Type 0) where
  -- A clause before the others, with its space if it is not the first.
  chars-first :
      (n i : ℕ) (keyword : String) (p : List (Piece F64)) (rest : List (List (Piece F64)))
      → chars (render n (joined i " " ((literal keyword ∷ p) ∷ rest)))
        ≡ lead (is_first i) (chars keyword)
          ++ (chars (render n p) ++ chars (render (n + holes p) (joined (suc i) " " rest)))
  chars-first n zero keyword p rest = rw (chars-literal, chars-append-pieces) refl
  chars-first n (suc i) keyword p rest = rw (chars-literal, chars-literal, chars-append-pieces) refl

  chars-page :
      (n m : ℕ)
      → let pieces : List (Piece F64) = page m ∷ [] in
        chars (render n pieces) ≡ print_hole (page_hole n)
  unfolding render
  chars-page n m = rw (append-nil, append-nil, chars-append, list-append-nil) refl

  chars-offset :
      (n i offset : ℕ)
      → chars (render n (joined i " " (offset_clause {F64 = F64} offset)))
        ≡ print_offset (is_first i) (offset_of n offset)
  chars-offset n i zero = chars-nil F64 n
  chars-offset n i (suc m) =
      chars-first n i "OFFSET " (page (suc m) ∷ []) []
      ∙ rw (chars-page, chars-nil F64, list-append-nil, list-append-nil) refl

  chars-limit :
      (n i : ℕ) (limit : Option ℕ) (offset : ℕ)
      → chars (render n (joined i " " (limit_clause {F64 = F64} limit ++ offset_clause offset)))
        ≡ print_limit (is_first i) (limit_of n limit) (offset_of (after_limit n limit) offset)
  unfolding holes
  chars-limit n i none offset = chars-offset n i offset
  chars-limit n i (some m) offset =
      chars-first n i "LIMIT " (page m ∷ []) (offset_clause offset)
      ∙ rw (chars-page, chars-offset (n + 1) (suc i) offset, append_assoc) refl

module _ (x : External) (fields : PgFieldMap x) where
  holes-sort_items :
      (i : ℕ) (sorts : List (Sort x.FieldName))
      → SortsMapped x fields sorts
      → holes (joined i ", " (sort_items x fields sorts)) ≡ 0
  unfolding holes
  holes-sort_items i [] mapped = refl
  holes-sort_items i (sort ∷ sorts) ((column, found), mapped) =
      rw (found, holes-after_first, holes-sort_items (suc i) sorts mapped) refl

  chars-key :
      (n : ℕ) (sort : Sort x.FieldName) (column : PgColumn) (rest : List (Piece x.F64))
      → chars (
          render n
            (literal (column_expression column) ∷ literal (direction_text sort.direction) ∷ rest))
        ≡ print_key (record { column = column_of column; direction = sort.direction })
          ++ chars (render n rest)
  chars-key n sort column rest =
      rw (chars-literal, chars-literal, chars-column_expression, chars-direction_text, append_assoc)
        refl

  chars-other_keys :
      (n i : ℕ) (sorts : List (Sort x.FieldName))
      → SortsMapped x fields sorts
      → chars (render n (joined (suc i) ", " (sort_items x fields sorts)))
        ≡ print_keys (keys_of x fields sorts)
  chars-other_keys n i [] mapped = chars-nil x.F64 n
  chars-other_keys n i (sort ∷ sorts) ((column, found), mapped) =
      rw (found, chars-literal, chars-key n sort column, chars-other_keys n (suc i) sorts mapped)
        refl

  chars-keys :
      (n : ℕ) (sort : Sort x.FieldName) (sorts : List (Sort x.FieldName)) (column : PgColumn)
      → resolve x fields sort.field ≡ ok column
      → SortsMapped x fields sorts
      → chars (render n (joined 0 ", " (sort_items x fields (sort ∷ sorts))))
        ≡ print_order (record {
          first = record { column = column_of column; direction = sort.direction };
          others = keys_of x fields sorts;
        })
  chars-keys n sort sorts column found mapped =
      rw (found, chars-key n sort column, chars-other_keys n 0 sorts mapped) refl

  chars-order :
      (n i : ℕ) (sorts : List (Sort x.FieldName)) (limit : Option ℕ) (offset : ℕ)
      → SortsMapped x fields sorts
      → chars (
          render n (
            joined i " "
              (order_clause x fields sorts ++ (limit_clause limit ++ offset_clause offset))))
        ≡ print_ordered
            (is_first i)
            (order_of (keys_of x fields sorts))
            (limit_of n limit)
            (offset_of (after_limit n limit) offset)
  chars-order n i [] limit offset mapped = chars-limit x.F64 n i limit offset
  chars-order n i (sort ∷ sorts) limit offset ((column, found), mapped) =
      let keys = joined 0 ", " (sort_items x fields (sort ∷ sorts)) in
      let none_bound : n + holes keys ≡ n =
        omega (arith, holes-sort_items 0 (sort ∷ sorts) ((column, found), mapped)) in
      chars-first x.F64 n i "ORDER BY " keys (limit_clause limit ++ offset_clause offset)
      ∙ rw
          (
            none_bound,
            chars-keys n sort sorts column found mapped,
            chars-limit x.F64 n (suc i) limit offset,
            found,
            append_assoc,
          )
          refl

  -- No group of a search's condition is empty.
  abbrev pub WhereHasItems : Option (Condition x.FieldName x.F64) → Type 0
  WhereHasItems none = Unit
  WhereHasItems (some c) = HasItems x fields c

  pub chars-find_pieces :
      (c : Option (Condition x.FieldName x.F64)) (sorts : List (Sort x.FieldName))
      (limit : Option ℕ) (offset : ℕ)
      → WhereTyped x fields c
      → SortsMapped x fields sorts
      → WhereHasItems c
      → let params : FindParams x.FieldName x.F64 = record {
        condition = c;
        sort = sorts;
        limit = limit;
        offset = offset;
      } in
        chars (render 0 (find_pieces x fields params)) ≡ print_search (search_of x fields params)
  chars-find_pieces none sorts limit offset typed mapped items =
      chars-order 0 0 sorts limit offset mapped
  chars-find_pieces (some c) sorts limit offset typed mapped items =
      let bound : 0 + holes (condition_pieces x fields c) ≡ values_in c =
        omega (arith, holes-condition_pieces x fields c typed) in
      chars-first x.F64 0 0 "WHERE " (condition_pieces x fields c)
        (order_clause x fields sorts ++ (limit_clause limit ++ offset_clause offset))
      ∙ rw
          (
            bound,
            chars-condition_pieces x fields 0 c typed items,
            chars-order (values_in c) 1 sorts limit offset mapped,
            append_assoc,
          )
          refl
