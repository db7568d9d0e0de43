-- ===== src/Sql/Search.antt =====
-- The grammar of the clauses of a search, with a reader: `WHERE`, `ORDER BY`, `LIMIT` and `OFFSET`, each
-- present or not, with one space between any two.
pub mod Keys
pub mod Reads
use mathlib.Core.List.{◌++◌}
use soap_sqlx.Prelude.{ℕ, zero, suc, Bool, true, false, List, [], ◌∷◌, Option, none, some, length}
use soap_sqlx.Portable.{SortDirection, ascending, descending}
use soap_sqlx.Sql.{Column, Hole, Sql, print_column, print_hole, print}
use soap_sqlx.Sql.Chars.{Text, chars, strip}
use soap_sqlx.Sql.Reader.{Read, and_then, expect, if_stripped, read_hole, read_column, read}

pub record Key : Type 0 where
  pub column : Column
  pub direction : SortDirection

-- An order has one key or more.
pub record Order : Type 0 where
  pub first : Key
  pub others : List Key

pub record Search : Type 0 where
  pub condition : Option Sql
  pub order : Option Order
  pub limit : Option Hole
  pub offset : Option Hole

-- Where nulls go is written out for either direction.
abbrev pub print_direction : SortDirection → Text
print_direction ascending = chars " ASC NULLS FIRST"
print_direction descending = chars " DESC NULLS LAST"

abbrev pub print_key : Key → Text
print_key k = print_column k.column ++ print_direction k.direction

abbrev pub print_keys : List Key → Text
print_keys [] = []
print_keys (k ∷ ks) = chars ", " ++ (print_key k ++ print_keys ks)

abbrev pub print_order : Order → Text
print_order o = print_key o.first ++ print_keys o.others

-- A keyword: the first one has no space before it.
abbrev pub lead : Bool → Text → Text
lead true keyword = keyword
lead false keyword = chars " " ++ keyword

abbrev pub print_clause : {A : Type 0} → Bool → Text → (A → Text) → Option A → Text
print_clause first keyword show none = []
print_clause first keyword show (some a) = lead first keyword ++ show a

-- Whether the next clause is still the first one.
abbrev pub still : {A : Type 0} → Bool → Option A → Bool
still first none = first
still first (some _) = false

abbrev pub where_word : Text
where_word = chars "WHERE "

abbrev pub order_word : Text
order_word = chars "ORDER BY "

abbrev pub limit_word : Text
limit_word = chars "LIMIT "

abbrev pub offset_word : Text
offset_word = chars "OFFSET "

abbrev pub print_offset : Bool → Option Hole → Text
print_offset first offset = print_clause first offset_word print_hole offset

abbrev pub print_limit : Bool → Option Hole → Option Hole → Text
print_limit first limit offset =
    print_clause first limit_word print_hole limit ++ print_offset (still first limit) offset

abbrev pub print_ordered : Bool → Option Order → Option Hole → Option Hole → Text
print_ordered first order limit offset =
    print_clause first order_word print_order order ++ print_limit (still first order) limit offset

abbrev pub print_search : Search → Text
print_search s =
    print_clause true where_word print s.condition
    ++ print_ordered (still true s.condition) s.order s.limit s.offset

abbrev pub read_direction : Text → Read SortDirection
read_direction s =
    if_stripped (strip (chars " ASC NULLS FIRST") s) (λ s. some (ascending, s))
      (expect (strip (chars " DESC NULLS LAST") s) (λ s. some (descending, s)))

abbrev pub read_key : Text → Read Key
read_key s =
    and_then (read_column s)
      (λ c s. and_then (read_direction s) (λ d s. some (record { column = c; direction = d }, s)))

abbrev pub read_keys : ℕ → Text → Read (List Key)
read_keys zero s = none
read_keys (suc fuel) s =
    if_stripped (strip (chars ", ") s)
      (λ s. and_then (read_key s) (λ k s. and_then (read_keys fuel s) (λ ks s. some (k ∷ ks, s))))
      (some ([], s))

abbrev pub read_order : Text → Read Order
read_order s = and_then (read_key s) (λ k s.
    and_then (read_keys (suc (length s)) s) (λ ks s. some (record { first = k; others = ks }, s)))

abbrev pub read_clause : {A : Type 0} → Bool → Text → (Text → Read A) → Text → Read (Option A)
read_clause first keyword reader s =
    if_stripped (strip (lead first keyword) s) (λ s. and_then (reader s) (λ a s. some (some a, s)))
      (some (none, s))

abbrev whole : Search → Text → Option Search
whole s [] = some s
whole s (_ ∷ _) = none

-- The whole of a text, as the clauses of a search.
abbrev pub read_search : Text → Option Search
read_search s = and_then (read_clause true where_word (λ s. read (length s) s) s) (λ condition s.
    let first = still true condition in
    and_then (read_clause first order_word read_order s) (λ order s.
      let first = still first order in
      and_then (read_clause first limit_word read_hole s) (λ limit s.
        and_then (read_clause (still first limit) offset_word read_hole s) (λ offset s.
          whole (record { condition = condition; order = order; limit = limit; offset = offset })
            s))))
