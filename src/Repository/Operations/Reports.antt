-- ===== src/Repository/Operations/Reports.antt =====
-- The statement of each operation of src/postgres/repository.rs, and what the operation reports when
-- the statement does not compile or the source fails.
use soap_sqlx.Prelude.{true, false, String, ok, err, ◌≡◌, refl}
use soap_sqlx.Sqlx.{SqlxError}
use soap_sqlx.External.{External, SoapResult}
use soap_sqlx.Errors.{map_sqlx_error}
use soap_sqlx.Source.{Action}
use soap_sqlx.Repository.Statements.{compile_insert, compile_replace}
use soap_sqlx.Repository.Operations.{
  PgRepository, send, answer, find_statement, get_statement, count_statement, remove_statement,
}
use soap_sqlx.Repository.Operations.Effects.{
  Operation, finding, counting, getting, removing, inserting, replacing, inserting_returning,
  replacing_returning,
}

module _ {x : External} {S E Key : Type 0} where
  -- The statement of an operation, and the name under which its failures are reported.
  abbrev pub statement_of :
      PgRepository x S E Key → Operation x E Key → SoapResult x (String × x.PgArguments)
  statement_of r (finding params) = find_statement x r params
  statement_of r (counting params) = count_statement x r params
  statement_of r (getting id) = get_statement x r id
  statement_of r (removing id) = remove_statement x r id
  statement_of r (inserting entity) = compile_insert x r.codec entity false
  statement_of r (replacing entity) = compile_replace x r.codec entity false
  statement_of r (inserting_returning entity) = compile_insert x r.codec entity true
  statement_of r (replacing_returning entity) = compile_replace x r.codec entity true

abbrev pub name_of : {x : External} {E Key : Type 0} → Operation x E Key → String
name_of (finding _) = "find entities"
name_of (counting _) = "count entities"
name_of (getting _) = "get entity"
name_of (removing _) = "remove entity"
name_of (inserting _) = "insert entity"
name_of (replacing _) = "replace entity"
name_of (inserting_returning _) = "insert and return entity"
name_of (replacing_returning _) = "replace and return entity"

module _ (x : External) where
  -- The error of a statement that does not compile, or else of the source.
  abbrev pub blamed :
      SoapResult x (String × x.PgArguments) → SqlxError x.Detail → String → x.SoapError
  blamed (err e) failure operation = e
  blamed (ok _) failure operation = map_sqlx_error x failure operation

  -- A source that fails a call without a change fails the operation without a change.
  pub answer-failed :
      {S A B : Type 0} (f : A → SoapResult x B) (call : String → x.PgArguments → Action x S A)
      (operation : String) (statement : SoapResult x (String × x.PgArguments)) (s : S)
      (failure : SqlxError x.Detail)
      → ((sql : String) (arguments : x.PgArguments) → call sql arguments s ≡ (err failure, s))
      → answer x f (send x call operation statement s)
        ≡ (err (blamed statement failure operation), s)
  answer-failed f call operation (err e) s failure fails = refl
  answer-failed f call operation (ok (sql, arguments)) s failure fails =
      rw (fails sql arguments, send, answer) refl
