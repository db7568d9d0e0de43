-- ===== src/Samples/Repositories.antt =====
-- Runs of a repository of users, and its theorems at them.
use soap_sqlx.Prelude.{
  ◌≡◌, ◌↔◌, Succeeds, All, refl, ℕ, suc, ◌<◌, ◌≤◌, pos, nat_to_string, false, true, String, none,
  some, [], ◌∷◌, ok, arith,
}
use soap_sqlx.Sqlx.{Argument}
use soap_sqlx.Identifier.Grammar.{IsIdentifier, new_iff}
use soap_sqlx.Identifier.{new, quoted as quoted_identifier}
use soap_sqlx.Mapping.{PgScalarKind, resolve, immutable, generated}
use soap_sqlx.Value.{PgValue}
use soap_sqlx.Binding.{normalize_entity_binding, placeholder_cast}
use soap_sqlx.Output.{argument, into_arguments}
use soap_sqlx.Entity.{
  PgEntityMapping, quoted, fields_matching, insertable_fields, selectable_fields,
}
use soap_sqlx.Repository.{
  PgEntityCodec, placeholder, selected_columns, entity_value, compiled_arguments,
}
use soap_sqlx.Repository.Statements.{compile_insert, compile_replace, replaced_fields}
use soap_sqlx.Repository.Statements.Said.{HasNames}
use soap_sqlx.Repository.Statements.Said.Inserted.{Inserts, read_insertion-compile_insert}
use soap_sqlx.Repository.Statements.Said.Updated.{Replaces, read_replacement-compile_replace}
use soap_sqlx.Repository.Operations.{PgRepository, replace}
use soap_sqlx.Repository.Operations.Effects.{replacing, operate, operate-keeps, replace_iff}
use soap_sqlx.Source.{PgSource}
use soap_sqlx.Source.Calls.{fetch_all, fetch_optional, fetch_one, apply, apply_one, IsRead}
use soap_sqlx.Router.Writes.{Keeps}
use soap_sqlx.Repository.Statements.Replaceable.{IsNonempty, IsIdentified, compile_replace_iff}
use soap_sqlx.Repository.Statements.Accepts.{IsStored, compile_insert_iff}
use soap_sqlx.Repository.Operations.Reports.{statement_of}
use soap_sqlx.Repository.Operations.Sessions.{during, run-transaction_source}
use soap_sqlx.Transaction.{active, transaction_source}
use soap_sqlx.Repository.Operations.Routed.{
  run, over as repository_over, if_sent, beside, run-router_source,
}
use soap_sqlx.Router.{router_source}
use soap_sqlx.Router.Rotation.{router}
use soap_sqlx.Samples.Sources.{primary, stale, two}
use soap_sqlx.Samples.Sessions.{server, open_session}
use soap_sqlx.Samples.{sample}
use soap_sqlx.Samples.Fields.{column}

abbrev mapping : PgEntityMapping sample
mapping = record {
  table = record { schema = some (record { text = "app" }); name = record { text = "users" } };
  id_field = "id";
  fields = record {
    columns =
        ("id", record (column "id" PgScalarKind.numeric) { permissions = immutable })
        ∷ ("name", column "display_name" PgScalarKind.text)
        ∷ (
          "created_at",
          record (column "created_at" PgScalarKind.timestamp_tz) { permissions = generated },
        )
        ∷ [];
  };
  ordered_fields = "id" ∷ "name" ∷ "created_at" ∷ [];
}

-- A user is a number and a name.
abbrev codec : PgEntityCodec sample (ℕ × String) ℕ
codec = record {
  mapping = mapping;
  decode = λ row. ok (0, row);
  value = λ user field. ok (PgValue.text user.1);
  id_value = λ id. ok (PgValue.u64 id);
  id = λ user. user.0;
}

inserted :
    compile_insert sample codec (7, "Ada") true
    ≡ ok (
      "INSERT INTO \"app\".\"users\" (\"id\", \"display_name\") VALUES ($1::numeric, $2) RETURNING \"id\", \"display_name\", \"created_at\"",
      Argument.string "7" ∷ Argument.string "Ada" ∷ [],
    )
unfolding compile_insert fields_matching resolve entity_value normalize_entity_binding
    selected_columns compiled_arguments into_arguments quoted argument quoted_identifier
    nat_to_string placeholder placeholder_cast
inserted = refl

replaced :
    compile_replace sample codec (7, "Ada") false
    ≡ ok (
      "UPDATE \"app\".\"users\" SET \"display_name\" = $1 WHERE \"id\" = $2::numeric",
      Argument.string "Ada" ∷ Argument.string "7" ∷ [],
    )
unfolding compile_replace fields_matching resolve entity_value normalize_entity_binding
    compiled_arguments into_arguments quoted argument quoted_identifier nat_to_string placeholder
    placeholder_cast
replaced = refl

is_name : (s : String) → new sample s ≡ ok (record { text = s }) → IsIdentifier s
is_name s h = ((new_iff sample s (record { text = s })).0 h).0

mapping-HasNames : HasNames sample mapping
unfolding new
mapping-HasNames = (
  is_name "app" refl,
  is_name "users" refl,
  (is_name "id" refl, (is_name "display_name" refl, (is_name "created_at" refl, tt))),
)

mapping-IsNonempty : IsNonempty (selectable_fields sample mapping)
unfolding fields_matching resolve
mapping-IsNonempty = tt

read_insertion-compile_insert_example :
    Inserts sample codec
      (7, "Ada")
      true
      "INSERT INTO \"app\".\"users\" (\"id\", \"display_name\") VALUES ($1::numeric, $2) RETURNING \"id\", \"display_name\", \"created_at\""
      (Argument.string "7" ∷ Argument.string "Ada" ∷ [])
read_insertion-compile_insert_example =
    read_insertion-compile_insert sample codec (7, "Ada") mapping-HasNames true _ _
      (λ _. mapping-IsNonempty) inserted

read_replacement-compile_replace_example :
    Replaces sample codec
      (7, "Ada")
      false
      "UPDATE \"app\".\"users\" SET \"display_name\" = $1 WHERE \"id\" = $2::numeric"
      (Argument.string "Ada" ∷ Argument.string "7" ∷ [])
read_replacement-compile_replace_example =
    read_replacement-compile_replace sample codec (7, "Ada") mapping-HasNames false _ _
      (λ _. mapping-IsNonempty) replaced

-- A source that counts its writes.
abbrev source : PgSource sample ℕ
source = record {
  fetch_all = λ sql arguments n. (ok [], n);
  fetch_optional = λ sql arguments n. (ok none, n);
  fetch_one = λ sql arguments n. (ok "row", n);
  apply = λ sql arguments n. (ok 1, suc n);
  apply_one = λ sql arguments n. (ok "row", suc n);
}

abbrev users : PgRepository sample ℕ (ℕ × String) ℕ
users = record { source = source; codec = codec; compiler = mapping.fields }

grows : Keeps (λ n. 1 ≤ n) (λ call. ¬ IsRead call) source
grows (fetch_all sql arguments) n r h = h
grows (fetch_optional sql arguments) n r h = h
grows (fetch_one sql arguments) n r h = h
grows (apply sql arguments) n r h = omega arith
grows (apply_one sql arguments) n r h = omega arith

operate-keeps_example : 1 ≤ operate (λ row. ok (pos 0)) users (replacing (7, "Ada")) 1
operate-keeps_example =
    operate-keeps (λ row. ok (pos 0)) (λ n. 1 ≤ n) users (replacing (7, "Ada")) grows 1
      (omega arith)

replace_iff_example : ((replace sample users (7, "Ada") 0).0 ≡ ok tt) ↔ (
    (sql : String) × (arguments : sample.PgArguments) × (result : sample.PgQueryResult)
    × (compile_replace sample codec (7, "Ada") false ≡ ok (sql, arguments))
    × ((source.apply sql arguments 0).0 ≡ ok result)
    × (0 < sample.rows_affected result))
replace_iff_example = replace_iff users (7, "Ada") 0

compile_insert_iff_example :
    Succeeds (compile_insert sample codec (7, "Ada") true)
    ↔ All (IsStored sample codec (7, "Ada")) (insertable_fields sample mapping)
compile_insert_iff_example =
    compile_insert_iff sample codec (λ a arguments. (_, refl)) (7, "Ada") true

compile_replace_iff_example : Succeeds (compile_replace sample codec (7, "Ada") false) ↔ (
    IsNonempty (replaced_fields sample codec)
    × All (IsStored sample codec (7, "Ada")) (replaced_fields sample codec)
    × IsIdentified sample codec (7, "Ada"))
compile_replace_iff_example =
    compile_replace_iff sample codec (λ a arguments. (_, refl)) (7, "Ada") false

run-transaction_source_example :
    run
      (λ row. ok (pos 0))
      (repository_over codec mapping.fields (transaction_source sample server))
      (replacing (7, "Ada"))
      open_session
    ≡ during server (λ row. ok (pos 0)) codec mapping.fields (replacing (7, "Ada")) (active 3) 7
run-transaction_source_example =
    run-transaction_source server (λ row. ok (pos 0)) codec mapping.fields (replacing (7, "Ada"))
      (active 3) 7

run-router_source_example :
    run
      (λ row. ok (pos 0))
      (repository_over codec mapping.fields (router_source (router primary stale two)))
      (replacing (7, "Ada"))
      (record { next_replica = 5; world = 0 })
    ≡ beside
        (if_sent
          (statement_of (repository_over codec mapping.fields primary) (replacing (7, "Ada")))
          5
          5)
        (run
          (λ row. ok (pos 0))
          (repository_over codec mapping.fields primary)
          (replacing (7, "Ada"))
          0)
run-router_source_example =
    run-router_source (λ row. ok (pos 0)) codec mapping.fields (router primary stale two)
      (replacing (7, "Ada")) (record { next_replica = 5; world = 0 })
