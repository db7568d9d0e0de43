-- ===== src/Compiler/Meaning/Compiled.antt =====
-- A compiled search reads as what the search says.
use soap_sqlx.Prelude.{ℕ, zero, suc, List, [], ◌∷◌, Option, none, some, ok, ◌≡◌, All}
use soap_sqlx.External.{External}
use soap_sqlx.Portable.{Condition, Sort, FindParams}
use soap_sqlx.Mapping.{PgFieldMap}
use soap_sqlx.Mapping.Lookup.{HasValidColumns, resolve-IsIdentifier}
use soap_sqlx.Output.{PgCompiledQuery}
use soap_sqlx.Compiler.{compile_find}
use soap_sqlx.Compiler.Template.{render}
use soap_sqlx.Compiler.Pieces.{find_pieces}
use soap_sqlx.Compiler.Compiles.{SortsMapped, compile_find_iff}
use soap_sqlx.Compiler.Correct.{compile_find-IsRendering}
use soap_sqlx.Compiler.Meaning.Readable.{IsIdentifier-IsName, sql_of-IsReadable}
use soap_sqlx.Compiler.Meaning.Clauses.{WhereHasItems, chars-find_pieces}
use soap_sqlx.Compiler.Meaning.Searches.{
  limit_of, offset_of, order_of, keys_of, where_of, search_of,
}
use soap_sqlx.Sql.Chars.{chars}
use soap_sqlx.Sql.Reads.Tests.{IsName}
use soap_sqlx.Sql.Search.{Key, read_search}
use soap_sqlx.Sql.Search.Reads.{IsLimit, IsSorted, IsCondition, read_search-print_search}

module _ (x : External) (fields : PgFieldMap x) where
  limit_of-IsLimit : (n : ℕ) (limit : Option ℕ) → IsLimit (limit_of n limit)
  limit_of-IsLimit n none = tt
  limit_of-IsLimit n (some m) = tt

  offset_of-IsLimit : (n offset : ℕ) → IsLimit (offset_of n offset)
  offset_of-IsLimit n zero = tt
  offset_of-IsLimit n (suc m) = tt

  module _ (valid : HasValidColumns x fields) where
    keys_of-IsName :
        (sorts : List (Sort x.FieldName))
        → SortsMapped x fields sorts
        → All (λ k. IsName k.column.name) (keys_of x fields sorts)
    keys_of-IsName [] mapped = tt
    keys_of-IsName (sort ∷ sorts) ((column, found), mapped) = rw found (
      IsIdentifier-IsName _ (resolve-IsIdentifier x fields sort.field column valid found),
      keys_of-IsName sorts mapped,
    )

    order_of-IsSorted :
        (ks : List Key) → All (λ k. IsName k.column.name) ks → IsSorted (order_of ks)
    order_of-IsSorted [] named = tt
    order_of-IsSorted (k ∷ ks) named = named

    where_of-IsCondition :
        (c : Option (Condition x.FieldName x.F64)) → IsCondition (where_of x fields c)
    where_of-IsCondition none = tt
    where_of-IsCondition (some c) = sql_of-IsReadable x fields valid 0 c

  -- If the names of the mapped columns are identifiers and no group of the condition of a search
  -- is empty, the text that the search compiles to reads, as SQL and as a whole, as the clauses it
  -- states: its condition, the mapped sort columns with their directions, and the placeholders of
  -- a limit and of an offset that is not 0, numbered after those of the condition.
  pub read_search-compile_find :
      HasValidColumns x fields
      → (params : FindParams x.FieldName x.F64) → WhereHasItems x fields params.condition
      → (q : PgCompiledQuery x.types) → compile_find x fields params ≡ ok q
      → read_search (chars q.sql) ≡ some (search_of x fields params)
  read_search-compile_find valid params items q h =
      let (_, typed, mapped, _, _) = (compile_find_iff x fields params).0 (q, h) in
      let text : q.sql ≡ render 0 (find_pieces x fields params) =
        (compile_find-IsRendering x fields params q h).sql in
      rw
        (
          text,
          chars-find_pieces x fields params.condition params.sort params.limit params.offset typed
              mapped items,
        )
        (read_search-print_search (search_of x fields params)
          (where_of-IsCondition valid params.condition)
          (order_of-IsSorted valid (keys_of x fields params.sort)
            (keys_of-IsName valid params.sort mapped))
          (limit_of-IsLimit _ params.limit) (offset_of-IsLimit _ params.offset))
