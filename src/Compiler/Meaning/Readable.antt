-- ===== src/Compiler/Meaning/Readable.antt =====
-- What a condition says can be read: its columns have names of the identifier grammar.
use soap_sqlx.Prelude.{
  ℕ, suc, ◌+◌, String, [], ◌∷◌, Option, some, ok, err, Result, ◌≡◌, refl, arith, All, Bool, true,
  code, ◌&&◌,
}
use soap_sqlx.External.{External}
use soap_sqlx.Portable.{
  LogicalOperator, Condition, Conditions, group, predicate, Operator, ScalarValue, ScalarValues,
  in_set, not_in, is_null, is_not_null,
}
use soap_sqlx.Identifier.Grammar.{IsIdentifier, AllWord}
use soap_sqlx.Mapping.{PgScalarKind, PgColumn, PgFieldMap, resolve}
use soap_sqlx.Mapping.Lookup.{HasValidColumns, resolve-IsIdentifier}
use soap_sqlx.Binding.{placeholder_cast}
use soap_sqlx.Compiler.Meaning.{
  text_of, holes_of, predicate_of, junction, values_in, on_mapped, sql_of, sqls_of,
}
use soap_sqlx.Sql.{Sqls}
use soap_sqlx.Sql.Chars.{Text, chars, is_lower}
use soap_sqlx.Sql.Reads.{IsReadable, AllReadable}
use soap_sqlx.Sql.Reads.Holes.{IsCast}
use soap_sqlx.Sql.Reads.Tests.{IsName}

junction-IsReadable :
    (op : LogicalOperator) (cs : Sqls) → AllReadable cs → IsReadable (junction op cs)
junction-IsReadable op Sqls.nil h = tt
junction-IsReadable op (Sqls.cons a Sqls.nil) h = h.0
junction-IsReadable op (Sqls.cons a (Sqls.cons b cs)) (ha, (hb, hs)) = (ha, hb, hs)

AllWord-IsName : (s : String) → AllWord s → IsName (chars s)
AllWord-IsName String.[] h = tt
AllWord-IsName (String.◌∷◌ c s) (h, hs) = (ground arith, AllWord-IsName s hs)

pub IsIdentifier-IsName : (s : String) → IsIdentifier s → IsName (chars s)
IsIdentifier-IsName String.[] h = absurd h
IsIdentifier-IsName (String.◌∷◌ c s) (h, hs) = (ground arith, AllWord-IsName s hs)

abbrev all_lower : Text → Bool
all_lower [] = true
all_lower (c ∷ s) = is_lower (code c) && all_lower s

all_lower_lem : (s : Text) → all_lower s ≡ true → All (λ c. is_lower (code c) ≡ true) s
all_lower_lem [] h = tt
all_lower_lem (c ∷ s) h = (ground arith, all_lower_lem s (ground arith))

pub text_of-IsCast : (kind : PgScalarKind) → IsCast (text_of (placeholder_cast kind))
unfolding placeholder_cast
text_of-IsCast PgScalarKind.bool = tt
text_of-IsCast PgScalarKind.text = tt
text_of-IsCast PgScalarKind.bytes = tt
text_of-IsCast PgScalarKind.numeric = all_lower_lem (chars "numeric") refl
text_of-IsCast PgScalarKind.uuid = all_lower_lem (chars "uuid") refl
text_of-IsCast PgScalarKind.json = all_lower_lem (chars "jsonb") refl
text_of-IsCast PgScalarKind.date = all_lower_lem (chars "date") refl
text_of-IsCast PgScalarKind.time = all_lower_lem (chars "time") refl
text_of-IsCast PgScalarKind.timestamp = all_lower_lem (chars "timestamp") refl
text_of-IsCast PgScalarKind.timestamp_tz = all_lower_lem (chars "timestamptz") refl

holes_of-IsCast :
    {F64 : Type 0} (n : ℕ) (kind : PgScalarKind) (vs : ScalarValues F64)
    → All (λ h. IsCast h.cast) (holes_of n kind vs)
holes_of-IsCast n kind ScalarValues.nil = tt
holes_of-IsCast n kind (ScalarValues.cons v vs) =
    (text_of-IsCast kind, holes_of-IsCast (suc n) kind vs)

predicate_of-IsReadable :
    {F64 : Type 0} (n : ℕ) (column : PgColumn) (operator : Operator) (v : Option (ScalarValue F64))
    → IsIdentifier column.identifier.text
    → IsReadable (predicate_of n column operator v)
predicate_of-IsReadable n column is_null v h = (IsIdentifier-IsName _ h, tt)
predicate_of-IsReadable n column is_not_null v h = (IsIdentifier-IsName _ h, tt)
predicate_of-IsReadable n column in_set (some (ScalarValue.list (ScalarValues.cons v vs))) h = (
  IsIdentifier-IsName _ h,
  (text_of-IsCast column.scalar_kind, holes_of-IsCast (suc n) column.scalar_kind vs),
)
predicate_of-IsReadable n column not_in (some (ScalarValue.list (ScalarValues.cons v vs))) h = (
  IsIdentifier-IsName _ h,
  (text_of-IsCast column.scalar_kind, holes_of-IsCast (suc n) column.scalar_kind vs),
)
predicate_of-IsReadable n column in_set _ h = tt
predicate_of-IsReadable n column not_in _ h = (IsIdentifier-IsName _ h, tt)
predicate_of-IsReadable n column operator v h =
    (IsIdentifier-IsName _ h, text_of-IsCast column.scalar_kind)

module _ (x : External) (fields : PgFieldMap x) (valid : HasValidColumns x fields) where
  on_mapped-IsReadable :
      (n : ℕ) (field : x.FieldName) (operator : Operator) (v : Option (ScalarValue x.F64))
      → (found : Result x.SoapError PgColumn) → resolve x fields field ≡ found
      → IsReadable (on_mapped found (λ column. predicate_of n column operator v))
  on_mapped-IsReadable n field operator v (ok column) found =
      predicate_of-IsReadable n column operator v
        (resolve-IsIdentifier x fields field column valid found)
  on_mapped-IsReadable n field operator v (err e) found = tt

  mutual
    unfolding sql_of

    pub sql_of-IsReadable :
        (n : ℕ) (c : Condition x.FieldName x.F64) → IsReadable (sql_of x fields n c)
    sql_of-IsReadable n (group op cs) =
        junction-IsReadable op (sqls_of x fields n cs) (sqls_of-AllReadable n cs)
    sql_of-IsReadable n (predicate field operator v) =
        on_mapped-IsReadable n field operator v (resolve x fields field) refl

    sqls_of-AllReadable :
        (n : ℕ) (cs : Conditions x.FieldName x.F64) → AllReadable (sqls_of x fields n cs)
    sqls_of-AllReadable n Conditions.nil = tt
    sqls_of-AllReadable n (Conditions.cons c cs) =
        (sql_of-IsReadable n c, sqls_of-AllReadable (n + values_in c) cs)
