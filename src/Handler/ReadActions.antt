-- ===== src/Handler/ReadActions.antt =====
-- The actions of crates/jiandu-mcp/src/handler.rs that only read durable memories.
use jiandu.Prelude.{ℕ, ◌||◌, Bool, not, [], Option, min, unwrap_or}
use jiandu.Prelude.Classes.{◌=?◌, nat_eq, list_eq, option_eq}
use jiandu.Text.{Text}
use jiandu.Types.{DurableMemoryDocument}
use jiandu.Terms.{
  truncate_chars, normalize_tags, normalize_retrieval_terms, max_memory_keywords,
  max_memory_entities,
}
use jiandu.Context.{MemoryExecutionContext}
use jiandu.Handler.{
  FilterSets, parse_durable_scope, parse_type, parse_some, parse_query_filters, checked_memory_id,
  store_of, resolve_access, resolve_id_access,
}
use jiandu.Args.{MemoryActionOptions, FindDuplicatesArgs, QueryArgs}
use jiandu.Store.Disk.{Env}
use jiandu.Store.Locate.{get_memory}
use jiandu.Store.Dream.{read_dream_snapshot}
use jiandu.Search.{Filters, clamp, max_query_limit, max_max_chars}
use jiandu.Search.Queries.{query_scope}
use jiandu.Gardener.Scans.{find_duplicate_candidates_with_retrieval, scan_blob_candidates}
use jiandu.Gardener.Clusters.{scan_duplicate_clusters}
use jiandu.Gardener.Inspect.{inspect_scope}
use jiandu.Handler.Call.{Call, ◌>>=◌, return, check, run, found}
use jiandu.Handler.Response.{
  Fetched, Response, max_chars_of, limit_of, query_options, retrieval_of, queried, fetched, dream,
  duplicates, blobs, clusters, inspection,
}
use jiandu.Document.{Yaml}
use jiandu.Store.Dream.{DreamSnapshotFrontmatter}

module _ (store : Env) (context : MemoryExecutionContext)
    (dream_yaml : Yaml DreamSnapshotFrontmatter) where
  open store.float use {F, lit}

  unfoldable pub bound_retrieval_metadata : DurableMemoryDocument → DurableMemoryDocument × Bool
  bound_retrieval_metadata doc =
      let fm = doc.frontmatter in
      let tags = normalize_tags store.unicode fm.tags in
      let keywords =
        normalize_retrieval_terms store.unicode fm.retrieval.keywords max_memory_keywords in
      let entities =
        normalize_retrieval_terms store.unicode fm.retrieval.entities max_memory_entities in
      (
        record doc {
          frontmatter = record fm {
            tags = tags;
            retrieval = record fm.retrieval { keywords = keywords; entities = entities };
          };
        },
        not (fm.tags =? tags)
            || not (fm.retrieval.keywords =? keywords)
            || not (fm.retrieval.entities =? entities),
      )

  abbrev pub as_filters : FilterSets → Filters
  as_filters sets = record {
    types = sets.types;
    statuses = sets.statuses;
    granularities = sets.granularities;
  }

  unfoldable pub run_query : QueryArgs → Call (Response F)
  run_query args = check (parse_durable_scope args.scope) >>= λ scope.
      check (resolve_access store context args.project_key scope) >>= λ access.
      check (parse_query_filters args.filters) >>= λ sets.
      run (
        query_scope (store_of store access) scope access.project_id args.query_text
          (as_filters sets) (query_options args.options))
      >>= λ result. return (queried result)

  abbrev pub fetched_of : ℕ → DurableMemoryDocument → Fetched
  fetched_of max_chars doc =
      let cut = truncate_chars doc.body max_chars in
      let bounded = bound_retrieval_metadata (record doc { body = cut.0 }) in
      record {
        memory = bounded.0;
        body_truncated = cut.1;
        retrieval_metadata_truncated = bounded.1;
      }

  unfoldable pub run_get : Text → Option Text → Option MemoryActionOptions → Call (Response F)
  run_get id project_key options = check (checked_memory_id id) >>= λ id.
      check (resolve_id_access store context project_key id) >>= λ access.
      run (get_memory (store_of store access) id access.project_id) >>= λ result.
      check (found result) >>= λ doc. return (
        fetched
          (fetched_of (min (unwrap_or (max_chars_of options) max_max_chars) max_max_chars) doc))

  unfoldable pub run_dream_read : Text → Option Text → Call (Response F)
  run_dream_read scope project_key = check (parse_durable_scope scope) >>= λ scope.
      check (resolve_access store context project_key scope) >>= λ access.
      run (read_dream_snapshot (store_of store access) dream_yaml scope access.project_id)
      >>= λ result. return (dream result)

  unfoldable pub run_find_duplicates : FindDuplicatesArgs → Call (Response F)
  run_find_duplicates args = check (parse_durable_scope args.scope) >>= λ scope.
      check (resolve_access store context args.project_key scope) >>= λ access.
      check (parse_some parse_type args.memory_type) >>= λ memory_type.
      run (
        find_duplicate_candidates_with_retrieval (store_of store access) scope access.project_id
          memory_type args.title (unwrap_or args.content []) args.hints.tags
          (retrieval_of args.hints) (clamp 1 max_query_limit (unwrap_or (limit_of args.options) 5)))
      >>= λ candidates. return (duplicates candidates)

  unfoldable pub run_scan_blobs :
      Text → Option Text → Option ℕ → Option MemoryActionOptions → Call (Response F)
  run_scan_blobs scope project_key min_sections options =
      check (parse_durable_scope scope) >>= λ scope.
      check (resolve_access store context project_key scope) >>= λ access.
      run (
        scan_blob_candidates (store_of store access) scope access.project_id
          (unwrap_or min_sections 3) (clamp 1 200 (unwrap_or (limit_of options) 20)))
      >>= λ report. return (blobs report)

  unfoldable pub run_scan_duplicates :
      Text → Option Text → Option F → Option MemoryActionOptions → Call (Response F)
  run_scan_duplicates scope project_key min_score options =
      check (parse_durable_scope scope) >>= λ scope.
      check (resolve_access store context project_key scope) >>= λ access.
      run (
        scan_duplicate_clusters (store_of store access) scope access.project_id
          (unwrap_or min_score (lit 6 10)) 5 (clamp 1 200 (unwrap_or (limit_of options) 20)))
      >>= λ report. return (clusters report)

  unfoldable pub run_inspect : Text → Option Text → Call (Response F)
  run_inspect scope project_key = check (parse_durable_scope scope) >>= λ scope.
      check (resolve_access store context project_key scope) >>= λ access.
      run (inspect_scope (store_of store access) scope access.project_id) >>= λ data_found.
      return (inspection data_found)
