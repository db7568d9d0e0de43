-- ===== src/Samples/Fields.antt =====
-- Sample fields: an age, a name and a birthday.
use soap_sqlx.Prelude.{String, [], ◌∷◌, some, pos}
use soap_sqlx.Portable.{
  ScalarValue, Condition, Conditions, group, predicate, logical_and, gt, like, descending,
  FindParams,
}
use soap_sqlx.Mapping.{PgScalarKind, PgColumn, PgFieldMap, persisted}
use soap_sqlx.Binding.{PgBindValue}
use soap_sqlx.Output.{PgCompiledQuery}
use soap_sqlx.Samples.{sample, sample_types}

abbrev pub column : String → PgScalarKind → PgColumn
column name kind = record {
  identifier = record { text = name };
  scalar_kind = kind;
  permissions = persisted;
}

abbrev pub age_column : PgColumn
age_column = column "user_age" PgScalarKind.numeric

abbrev pub name_column : PgColumn
name_column = column "display_name" PgScalarKind.text

abbrev pub fields : PgFieldMap sample
fields = record { columns = ("age", age_column) ∷ ("name", name_column) ∷ [] }

-- The numbers 30 and 41, as query values.
abbrev pub thirty : ScalarValue sample.F64
thirty = ScalarValue.i64 (pos 30)

abbrev pub forty_one : ScalarValue sample.F64
forty_one = ScalarValue.u64 41

-- `age > n AND name LIKE s`
abbrev pub older : ScalarValue sample.F64 → String → Condition String sample.F64
older n s = group logical_and (
    Conditions.cons (predicate "age" gt (some n))
      (Conditions.cons (predicate "name" like (some (ScalarValue.string s))) Conditions.nil))

abbrev pub older_sql : String
older_sql =
    "(\"user_age\"::numeric > $1::numeric AND \"display_name\" COLLATE \"C\" LIKE $2 ESCAPE '')"

abbrev pub older_query : String → String → PgCompiledQuery sample_types
older_query n s = record {
  sql = older_sql;
  bindings = PgBindValue.numeric n ∷ PgBindValue.text s ∷ [];
}

abbrev pub search : ScalarValue sample.F64 → String → FindParams String sample.F64
search n s = record {
  condition = some (older n s);
  sort = record { field = "name"; direction = descending } ∷ [];
  limit = some 10;
  offset = 20;
}

abbrev pub search_query : String → String → PgCompiledQuery sample_types
search_query n s = record {
  sql =
      "WHERE (\"user_age\"::numeric > $1::numeric AND \"display_name\" COLLATE \"C\" LIKE $2 ESCAPE '') ORDER BY \"display_name\" COLLATE \"C\" DESC NULLS LAST LIMIT $3 OFFSET $4";
  bindings =
      PgBindValue.numeric n
      ∷ PgBindValue.text s
      ∷ PgBindValue.i64 (pos 10)
      ∷ PgBindValue.i64 (pos 20)
      ∷ [];
}

abbrev pub counted_query : String → String → PgCompiledQuery sample_types
counted_query n s = record {
  sql =
      "WHERE (\"user_age\"::numeric > $1::numeric AND \"display_name\" COLLATE \"C\" LIKE $2 ESCAPE '')";
  bindings = PgBindValue.numeric n ∷ PgBindValue.text s ∷ [];
}
