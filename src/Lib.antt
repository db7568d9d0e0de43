-- ===== src/Lib.antt =====
-- Verification of soap-sqlx, the PostgreSQL adapter of the soaprs repositories (src/postgres).
--
-- The program compiles portable queries to SQL text with typed bindings, maps entities to tables,
-- executes statements through a source (a pool, a router over replicas, or one transaction), and
-- maps SQLx failures to portable errors. Its parts, from the repository's root, and their modules:
--   src/postgres/identifier.rs    Identifier: PgIdentifier::new and quoted
--   src/postgres/mapping.rs       Mapping: PgFieldMap as an association list; insert, resolve
--   src/postgres/value.rs         Value: PgValue, validate, try_from, the From conversions
--   src/postgres/compiler.rs      Binding (normalize_binding, normalize_entity_binding), Output
--                                 (PgCompiledQuery, CompilerOutput, into_arguments) and Compiler
--                                 (compile_condition, compile_find, compile_count); Sql is the
--                                 grammar of conditions and searches, with a reader, and
--                                 Compiler.Meaning says in it what they state
--   src/postgres/error.rs         Errors: map_sqlx_error, map_database_error
--   src/postgres/source.rs        Source: the trait PgSource as a record of state-passing actions
--   src/postgres/router.rs        Router: PgPrimaryReplicaSource
--   src/postgres/transaction.rs   Transaction: PgTransactionSource
--   src/postgres/entity.rs        Entity: PgTable, PgEntityMapping
--   src/postgres/repository.rs    Repository: statements of an entity, operations on a source;
--                                 Sql.Statement is the grammar of INSERT and UPDATE, with a
--                                 reader, and Repository.Statements.Said says in it what the
--                                 statements of an entity state
--   src/postgres/native_query.rs  Native: PgNativeStatement, PgNativeQueryHandler::query
-- Prelude holds the shared names; Portable and Sqlx hold the shapes of the values that the program
-- matches on; Samples holds an instance of the outside, and the theorems at concrete inputs;
-- UnitTests holds the unit tests of the sources, with their fixtures, run on that instance.
--
-- Code outside the repository is a parameter: External is a record of what is used of
-- soaprs_core, soaprs_repository and SQLx, with documented behaviour as its laws (an error keeps
-- the kind it is made with, equality of field names, arguments are appended). An action of a source
-- is a function from a state of the world to a result and a state, so a theorem for every source
-- holds for any server. Loops are structural recursion over the data, so there is no fuel, and every
-- function is total. The readers of Sql, which are no part of the program, have the length of their
-- text as fuel, which the depth of a printed condition and the number of printed items never
-- exceed. Unsigned numbers are native numbers; a conversion to i64 has its bound 2^63, the router's
-- counter wraps at 2^64.
--
-- The mutex of the transaction source and the atomic counter of the router make a method one step;
-- interleavings are sequences of steps. Not modelled: the re-exports, Debug and Display texts, the
-- integration tests, which need a server, and the executor itself.
pub mod Prelude
pub mod Portable
pub mod Sqlx
pub mod External
pub mod Identifier
pub mod Mapping
pub mod Value
pub mod Binding
pub mod Output
pub mod Compiler
pub mod Errors
pub mod Source
pub mod Router
pub mod Transaction
pub mod Entity
pub mod Repository
pub mod Native
pub mod Sql
pub mod Samples
pub mod UnitTests
