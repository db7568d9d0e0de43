-- ===== src/Compiler/Meaning/Searches.antt =====
-- What a search of the portable query language says, as the clauses of an SQL search.
use mathlib.Core.List.{◌++◌}
use soap_sqlx.Prelude.{ℕ, zero, suc, ◌+◌, List, [], ◌∷◌, Option, none, some, Result, ok, err}
use soap_sqlx.External.{External}
use soap_sqlx.Portable.{Condition, SortDirection, Sort, FindParams}
use soap_sqlx.Mapping.{PgColumn, PgFieldMap, resolve}
use soap_sqlx.Compiler.Meaning.{column_of, values_in, sql_of}
use soap_sqlx.Sql.{Hole, Sql}
use soap_sqlx.Sql.Search.{Key, Order, Search}

-- The placeholder of a number of the pagination, after `n` others.
abbrev pub page_hole : ℕ → Hole
page_hole n = record { number = suc n; cast = none }

abbrev pub limit_of : ℕ → Option ℕ → Option Hole
limit_of n none = none
limit_of n (some _) = some (page_hole n)

-- An offset of 0 is left out.
abbrev pub offset_of : ℕ → ℕ → Option Hole
offset_of n zero = none
offset_of n (suc _) = some (page_hole n)

abbrev pub after_limit : ℕ → Option ℕ → ℕ
after_limit n none = n
after_limit n (some _) = n + 1

abbrev pub order_of : List Key → Option Order
order_of [] = none
order_of (k ∷ ks) = some (record { first = k; others = ks })

abbrev pub values_of_where : {FieldName F64 : Type 0} → Option (Condition FieldName F64) → ℕ
values_of_where none = 0
values_of_where (some c) = values_in c

abbrev pub key_at : {E : Type 0} → Result E PgColumn → SortDirection → List Key
key_at (ok column) direction = record { column = column_of column; direction = direction } ∷ []
key_at (err _) direction = []

module _ (x : External) (fields : PgFieldMap x) where
  -- The keys of the sort fields that are mapped.
  abbrev pub keys_of : List (Sort x.FieldName) → List Key
  keys_of [] = []
  keys_of (sort ∷ sorts) = key_at (resolve x fields sort.field) sort.direction ++ keys_of sorts

  abbrev pub where_of : Option (Condition x.FieldName x.F64) → Option Sql
  where_of none = none
  where_of (some c) = some (sql_of x fields 0 c)

  -- The clauses, with the placeholders of the pagination after those of the condition.
  abbrev pub search_of : FindParams x.FieldName x.F64 → Search
  search_of params = record {
    condition = where_of params.condition;
    order = order_of (keys_of params.sort);
    limit = limit_of (values_of_where params.condition) params.limit;
    offset = offset_of (after_limit (values_of_where params.condition) params.limit) params.offset;
  }
