-- ===== src/Lib.antt =====
-- Jiandu is a memory store for agents: Markdown documents in scopes (one for each project and one
-- global), with derived indexes, recall by BM25, and an MCP server in front. This library models the
-- crate crates/jiandu-memory, and of crates/jiandu-mcp the calls of the tool. A path below is one of
-- crates/jiandu-memory/src unless it says otherwise.
--
-- - Prelude, Text, Result, Assoc: Boolean tests, lists, orders and sorting over the native numbers;
--   texts as lists of code points with the functions of `str`; `io::Result` with the error's kind;
--   hash maps as association lists.
-- - Unicode, Float: unicode-normalization, the Unicode tables and `f64` as parameters.
-- - Types, Index: memory_store/types.rs and the index records of memory_store/mod.rs. A timestamp is
--   its text.
-- - Validate: the checks of identifiers in memory_store/mod.rs and project_id.rs.
-- - Paths: memory_store/paths.rs; a path is the list of its components.
-- - Document: the Markdown documents of memory_store/mod.rs; serde_yaml is the parameter `Yaml`.
-- - Terms: tags, retrieval terms, keywords, entities and summaries of memory_store/mod.rs.
-- - Query: `match_memory_query`, the order of results, the cursors and the Markdown views there.
-- - Lexical: the tokenizer, the BM25 scorer and the similarity of memory_store/lexical_bm25.rs.
-- - Recall: memory_store/recall.rs; reading the index of a scope is an argument.
-- - Freshness: memory_store/freshness.rs.
-- - AccessLog: memory_store/access_log.rs; Search reads and writes the log.
-- - AtomicFs: atomic_fs.rs, over a file system any call of which may fail; the files after each call
--   are recorded, since a crash leaves one of these states.
-- - Store: memory_store/store.rs. The state is `Disk`: the text files by path, the derived artifacts
--   and the audit lines as the values that the source serializes, and how often the clock was read.
--   The derived artifacts have a map of their own, apart from the text files, also in the Session
--   scope, where `views_dir` and `topic_dir` are one directory: that a view may there have the path of
--   a text file, the two maps do not show.
--   An operation is an `Action`: a result, and the disk after it also where the result is an error.
--   `Locate` finds, lists and writes documents and allocates ids; `Artifacts` rebuilds what is
--   derived; `Status` archives, purges and expires; `Write` is the write with its similarity test;
--   `Merge` merges, splits and contradicts; `Limits` holds the caps on one memory;
--   `Dream` publishes and reads Dream snapshots; `Consolidate` makes one memory of several.
-- - Sessions: the session notes of memory_store/store.rs and the state file of a session.
-- - Search: the queries there, with paging, the reading of the index, and the access log.
-- - Gardener: `enforce_scope_capacity` there, and the reports on duplicates, clusters and blobs and the
--   inspection of a scope.
-- - Context, Args, Handler: context.rs, args.rs and handler.rs of crates/jiandu-mcp/src: the identity of
--   a call, its arguments, and one function for each action of `execute_parsed`. An answer has the
--   results that its JSON is made of, without the session and the project of the call, which the JSON
--   repeats; serde_json is a parameter.
-- - Server: the barrier of server.rs there, between mutations and reads, as steps of its tasks, which
--   interleave in any order. A step is one atomic operation of a task.
--
-- An operation runs alone, as it does under the write guard of its scope, and reading and writing a
-- file succeeds; where the source reads a record again under the guard, so does the model. Every loop
-- but the barrier's is a structural recursion here; the 1000 attempts of `allocate_memory_id` are counted
-- down. A map is walked in order of insertion where the source walks a hash map. The operations of
-- floats are parameters: a theorem on scores speaks of their order, and of no value.
--
-- Not modelled: the discovery of sessions and projects, the reading of views, the importer and the
-- project-bound store; the transport, the console and the command line of crates/jiandu-mcp, which are
-- glue.
pub mod Prelude
pub mod Text
pub mod Result
pub mod Types
pub mod Validate
pub mod Paths
pub mod Document
pub mod Unicode
pub mod Assoc
pub mod Lexical
pub mod Float
pub mod Index
pub mod Recall
pub mod Tests
pub mod Terms
pub mod Query
pub mod Store
pub mod Freshness
pub mod AccessLog
pub mod AtomicFs
pub mod Server
pub mod Context
pub mod Handler
pub mod Sessions
pub mod Search
pub mod Gardener
pub mod Args
