-- ===== src/Handler/Dispatch.antt =====
-- `execute_parsed` of crates/jiandu-mcp/src/handler.rs: one function for each action.

use jiandu.Prelude.Classes.{nat_eq, list_eq, option_eq}
use jiandu.Context.{MemoryExecutionContext}
use jiandu.Args.{MemoryArgs}
use jiandu.Store.Disk.{Env}
use jiandu.Handler.Call.{Call}
use jiandu.Handler.Response.{Response}
use jiandu.Document.{Yaml}
use jiandu.Store.Dream.{DreamSnapshotFrontmatter}
use jiandu.Handler.SessionActions.{
  session_read, session_append, session_replace, session_clear, session_list_topics,
}
use jiandu.Handler.ReadActions.{
  run_query, run_get, run_dream_read, run_find_duplicates, run_scan_blobs, run_scan_duplicates,
  run_inspect,
}
use jiandu.Handler.WriteActions.{
  run_dream_publish, run_write, run_merge, run_split, run_consolidate, run_purge, run_rebuild,
}

module _ (store : Env) (context : MemoryExecutionContext)
    (dream_yaml : Yaml DreamSnapshotFrontmatter) where
  open store.float use {F, lit}

  abbrev pub execute_parsed : MemoryArgs F → Call (Response F)
  execute_parsed (MemoryArgs.session_read topic options) = session_read store context topic options
  execute_parsed (MemoryArgs.session_append topic content) =
      session_append store context topic content
  execute_parsed (MemoryArgs.session_replace topic content) =
      session_replace store context topic content
  execute_parsed (MemoryArgs.session_clear topic) = session_clear store context topic
  execute_parsed MemoryArgs.session_list_topics = session_list_topics store context
  execute_parsed (MemoryArgs.query args) = run_query store context dream_yaml args
  execute_parsed (MemoryArgs.get id project_key options) =
      run_get store context dream_yaml id project_key options
  execute_parsed (MemoryArgs.dream_read scope project_key) =
      run_dream_read store context dream_yaml scope project_key
  execute_parsed (MemoryArgs.dream_publish scope source_generation content project_key) =
      run_dream_publish store context dream_yaml scope source_generation content project_key
  execute_parsed (MemoryArgs.write args) = run_write store context dream_yaml args
  execute_parsed (MemoryArgs.merge args) = run_merge store context dream_yaml args
  execute_parsed (MemoryArgs.split id project_key pieces) =
      run_split store context dream_yaml id project_key pieces
  execute_parsed (MemoryArgs.find_duplicates args) =
      run_find_duplicates store context dream_yaml args
  execute_parsed (MemoryArgs.scan_blobs scope project_key min_sections options) =
      run_scan_blobs store context dream_yaml scope project_key min_sections options
  execute_parsed (MemoryArgs.scan_duplicates scope project_key min_score options) =
      run_scan_duplicates store context dream_yaml scope project_key min_score options
  execute_parsed (MemoryArgs.consolidate args) = run_consolidate store context dream_yaml args
  execute_parsed (MemoryArgs.purge args) = run_purge store context dream_yaml args
  execute_parsed (MemoryArgs.inspect scope project_key) =
      run_inspect store context dream_yaml scope project_key
  execute_parsed (MemoryArgs.rebuild scope project_key) =
      run_rebuild store context dream_yaml scope project_key
