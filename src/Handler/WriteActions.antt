-- ===== src/Handler/WriteActions.antt =====
-- The actions of crates/jiandu-mcp/src/handler.rs that change durable memories.
use jiandu.Prelude.{
  Bool, true, false, List, [], ◌∷◌, Option, none, some, ltb, length, map, is_empty, unwrap_or,
}
use jiandu.Prelude.Classes.{◌=?◌, nat_eq, list_eq, option_eq}
use jiandu.Text.{Text, text, trim, trimmed}
use jiandu.Types.{
  DurableMemoryType, DurableMemoryStatus, archived, MemoryRetrievalInput, TemporalGranularity,
}
use jiandu.Context.{MemoryExecutionContext, invalid_if}
use jiandu.Handler.{
  parse_durable_scope, parse_type, parse_some, parse_granularity, parse_status, parse_query_filters,
  parse_merge_mode, checked_memory_id, checked_memory_ids, store_of, resolve_access,
  resolve_id_access,
}
use jiandu.Args.{SplitPiece, WriteArgs, MergeArgs, ConsolidateArgs, PurgeArgs}
use jiandu.Store.Disk.{Env}
use jiandu.Store.Dream.{publish_dream_snapshot}
use jiandu.Store.Write.{WriteRequest, write_memory_with_retrieval_and_source_range}
use jiandu.Store.Merge.{
  MemorySplitPiece, merge_memory_with_retrieval, split_memory_with_retrieval,
  mark_memory_contradicted,
}
use jiandu.Store.Status.{archive_memory, purge_memories}
use jiandu.Store.Consolidate.{consolidate_memories_with_retrieval}
use jiandu.Gardener.Scans.{rebuild_scope}
use jiandu.Gardener.Inspect.{inspect_scope}
use jiandu.Handler.Call.{Call, ◌>>=◌, return, check, run, found}
use jiandu.Handler.Response.{
  Response, retrieval_of, allows_merge, parse_split_pieces, published, written, merged,
  contradicted, split_up, consolidated, purged, purged_all, inspection,
}
use jiandu.Document.{Yaml}
use jiandu.Store.Dream.{DreamSnapshotFrontmatter}

module _ (store : Env) (context : MemoryExecutionContext)
    (dream_yaml : Yaml DreamSnapshotFrontmatter) where
  open store.float use {F, lit}

  unfoldable pub run_dream_publish : Text → Text → Text → Option Text → Call (Response F)
  run_dream_publish scope source_generation content project_key =
      check (parse_durable_scope scope) >>= λ scope.
      check (resolve_access store context project_key scope) >>= λ access.
      run (
        publish_dream_snapshot (store_of store access) dream_yaml scope access.project_id
          source_generation content)
      >>= λ snapshot. return (published snapshot)

  abbrev pub write_request :
      WriteArgs → DurableMemoryType → Option TemporalGranularity → WriteRequest
  write_request args memory_type granularity = record {
    memory_type = memory_type;
    title = args.title;
    content = args.content;
    tags = args.hints.tags;
    retrieval = retrieval_of args.hints;
    session_id = context.session_id;
    actor = text "main-model";
    allow_merge_if_similar = allows_merge args.options;
    granularity = granularity;
    message_range = [];
  }

  unfoldable pub run_write : WriteArgs → Call (Response F)
  run_write args = check (parse_durable_scope args.scope) >>= λ scope.
      check (resolve_access store context args.project_key scope) >>= λ access.
      check (parse_type args.memory_type) >>= λ memory_type.
      check (parse_granularity args.granularity) >>= λ granularity.
      run (
        write_memory_with_retrieval_and_source_range (store_of store access) scope access.project_id
          (write_request args memory_type granularity))
      >>= λ doc. return (written doc)

  abbrev pub or_content : Option Text → Text → Option Text
  or_content none content = some (trim content)
  or_content (some reason) content = some reason

  abbrev pub merge_as : Bool → Env → Option Text → Text → List Text → MergeArgs → Call (Response F)
  merge_as true bound key id sources args =
      run (
        mark_memory_contradicted bound id key sources (or_content args.reason args.content)
          context.session_id (text "main-model"))
      >>= λ result. check (found result) >>= λ result. return (contradicted result)
  merge_as false bound key id sources args =
      run (
        merge_memory_with_retrieval bound id key
          (record {
            content = args.content;
            tags = args.hints.tags;
            retrieval = retrieval_of args.hints;
            session_id = context.session_id;
            actor = text "main-model";
          })
          sources)
      >>= λ result. check (found result) >>= λ result. return (merged result)

  unfoldable pub run_merge : MergeArgs → Call (Response F)
  run_merge args = check (checked_memory_id args.id) >>= λ id.
      check (checked_memory_ids args.source_memory_ids) >>= λ sources.
      check (parse_merge_mode args.mode) >>= λ mode.
      check (resolve_id_access store context args.project_key id) >>= λ access.
      merge_as (mode =? some (text "contradict")) (store_of store access) access.project_id id
        sources args

  unfoldable pub run_split : Text → Option Text → List SplitPiece → Call (Response F)
  run_split id project_key pieces = check (invalid_if (is_empty pieces)) >>= λ u.
      check (checked_memory_id id) >>= λ id.
      check (resolve_id_access store context project_key id) >>= λ access.
      check (parse_split_pieces pieces) >>= λ parsed.
      run (
        split_memory_with_retrieval (store_of store access) id access.project_id
          (map (λ (p : MemorySplitPiece × MemoryRetrievalInput). p.0) parsed)
          (map (λ (p : MemorySplitPiece × MemoryRetrievalInput). p.1) parsed) context.session_id
          (text "main-model"))
      >>= λ result. check (found result) >>= λ result. return (split_up result)

  abbrev pub first_id : List Text → Text
  first_id [] = []
  first_id (id ∷ ids) = id

  unfoldable pub run_consolidate : ConsolidateArgs → Call (Response F)
  run_consolidate args = check (invalid_if (ltb (length args.ids) 2)) >>= λ u.
      check (checked_memory_ids args.ids) >>= λ ids.
      check (resolve_id_access store context args.project_key (first_id ids)) >>= λ access.
      check (parse_some parse_type args.memory_type) >>= λ memory_type.
      run (
        consolidate_memories_with_retrieval (store_of store access) ids access.project_id
          (record {
            title = args.title;
            content = args.content;
            memory_type = memory_type;
            tags = args.hints.tags;
          })
          (retrieval_of args.hints) context.session_id (text "main-model"))
      >>= λ result. check (found result) >>= λ result. return (consolidated result)

  abbrev pub purge_one : Option Text → PurgeArgs → DurableMemoryStatus → Call (Response F)
  purge_one none args mode =
      check (parse_durable_scope (unwrap_or args.scope (text "session"))) >>= λ scope.
      check (resolve_access store context args.project_key scope) >>= λ access.
      check (parse_query_filters args.filters) >>= λ sets.
      run (
        purge_memories (store_of store access) sets.types sets.statuses sets.granularities scope
          access.project_id mode args.reason)
      >>= λ result. return (purged_all result)
  purge_one (some id) args mode = check (checked_memory_id id) >>= λ id.
      check (resolve_id_access store context args.project_key id) >>= λ access.
      run (archive_memory (store_of store access) id access.project_id mode args.reason)
      >>= λ result. check (found result) >>= λ doc. return (purged doc)

  unfoldable pub run_purge : PurgeArgs → Call (Response F)
  run_purge args = check (parse_some parse_status (trimmed args.mode)) >>= λ mode.
      purge_one (trimmed args.id) args (unwrap_or mode archived)

  unfoldable pub run_rebuild : Text → Option Text → Call (Response F)
  run_rebuild scope project_key = check (parse_durable_scope scope) >>= λ scope.
      check (resolve_access store context project_key scope) >>= λ access.
      run (rebuild_scope (store_of store access) scope access.project_id) >>= λ u.
      run (inspect_scope (store_of store access) scope access.project_id) >>= λ data_found.
      return (inspection data_found)
