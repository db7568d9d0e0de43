-- ===== src/Samples/Reading.antt =====
-- The texts of a compiled condition and of a compiled search, read as SQL.
use soap_sqlx.Prelude.{◌≡◌, none, some, []}
use soap_sqlx.Portable.{logical_and, descending}
use soap_sqlx.Mapping.{resolve}
use soap_sqlx.Binding.{placeholder_cast}
use soap_sqlx.Compiler.Meaning.{sql_of, values_in}
use soap_sqlx.Compiler.Meaning.Printed.{read_sql-compile_condition}
use soap_sqlx.Sql.{as_numeric, collated, compares, greater, resembles, Sqls, test, several}
use soap_sqlx.Sql.Chars.{chars}
use soap_sqlx.Sql.Reads.{read_sql}
use soap_sqlx.Sql.Search.{read_search}
use soap_sqlx.Compiler.Meaning.Compiled.{read_search-compile_find}
use soap_sqlx.Samples.{sample}
use soap_sqlx.Samples.Entities.{valid_fields}
use soap_sqlx.Samples.Fields.{fields, older, older_query, older_sql, search, search_query, thirty}
use soap_sqlx.Samples.Queries.{compiled_older, compiled_search}

read_sql-compile_condition_example :
    read_sql (chars older_sql)
    ≡ some (
        several logical_and
          (test
            (record { name = chars "user_age"; form = as_numeric })
            (compares greater (record { number = 1; cast = some (chars "numeric") })))
          (test
            (record { name = chars "display_name"; form = collated })
            (resembles (record { number = 2; cast = none })))
          Sqls.nil)
unfolding sql_of values_in resolve placeholder_cast
read_sql-compile_condition_example =
    read_sql-compile_condition sample fields valid_fields (older thirty "A%") (tt, (tt, tt))
      (older_query "30" "A%") compiled_older

read_search-compile_find_example :
    read_search (chars (search_query "30" "A%").sql)
    ≡ some (record {
      condition = some (sql_of sample fields 0 (older thirty "A%"));
      order = some (record {
        first = record {
          column = record { name = chars "display_name"; form = collated };
          direction = descending;
        };
        others = [];
      });
      limit = some (record { number = 3; cast = none });
      offset = some (record { number = 4; cast = none });
    })
unfolding sql_of values_in resolve placeholder_cast
read_search-compile_find_example =
    read_search-compile_find sample fields valid_fields (search thirty "A%") (tt, (tt, tt))
      (search_query "30" "A%") compiled_search
