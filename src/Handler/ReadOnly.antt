-- ===== src/Handler/ReadOnly.antt =====
-- An action of the read-only class changes no document.
use jiandu.Prelude.{ℕ, ◌≡◌, refl, ◌∙◌, Bool, true, false, List, [], Option, unwrap_or}
use jiandu.Text.{Text}
use jiandu.Types.{MemoryScope, DurableMemoryDocument, DurableMemoryType}
use jiandu.Document.{Yaml}
use jiandu.Context.{MemoryResult, failed, done, MemoryExecutionContext, require_session_id}
use jiandu.Args.{
  MemoryArgs, MemoryActionOptions, QueryArgs, FindDuplicatesArgs, read_only_parallel, class,
}
use jiandu.Store.Disk.{Env, Disk, Action, lift}
use jiandu.Store.Steps.{Steps, SameFiles, same, bind-Steps, pure-Steps}
use jiandu.Store.Disk.{◌>>=◌ as ◌then◌}
use jiandu.Store.ReadOnly.{lifted, listed, get_memory_same, read_dream_snapshot_same}
use jiandu.Handler.{
  ResolvedMemoryAccess, parse_durable_scope, parse_query_filters, resolve_access, resolve_id_access,
  store_of, checked_memory_id, parse_some, parse_type, session_topic, max_session_note_chars,
}
use jiandu.Handler.Call.{Call, next, ◌>>=◌, return, check, run, found}
use jiandu.Handler.Response.{
  note_read, topics, queried, dream, duplicates, blobs, clusters, inspection, note_of, max_chars_of,
  limit_of, retrieval_of, query_options,
}
use jiandu.Handler.SessionActions.{session_read, session_list_topics}
use jiandu.Handler.ReadActions.{
  run_query, run_get, run_dream_read, run_find_duplicates, run_scan_blobs, run_scan_duplicates,
  run_inspect, as_filters,
}
use jiandu.Handler.Dispatch.{execute_parsed}
use jiandu.Store.Dream.{DreamSnapshotFrontmatter, read_dream_snapshot}
use jiandu.Store.Locate.{get_memory, list_memory_documents, require_project_key}
use jiandu.Search.{clamp, max_query_limit}
use jiandu.Search.Queries.{query_scope}
use jiandu.Search.Reading.{query_scope-read_only}
use jiandu.Sessions.{read_session_topic, list_session_topics, note_path}
use jiandu.Gardener.Scans.{
  duplicates_if, find_duplicate_candidates_with_retrieval, scan_blob_candidates,
}
use jiandu.Gardener.Clusters.{scan_duplicate_clusters}
use jiandu.Gardener.Inspect.{inspect_scope}

pub record Quiet {A : Type 0} (m : Call A) : Type 0 where
  pub at : (d : Disk) → (m d).1.files ≡ d.files

next-Quiet :
    {A B : Type 0} (r : MemoryResult A × Disk) (f : A → Call B) (d : Disk)
    → r.1.files ≡ d.files
    → ((a : A) → Quiet (f a))
    → (next r f).1.files ≡ d.files
next-Quiet (failed e, x) f d h k = h
next-Quiet (done a, x) f d h k = (k a).at x ∙ h

bind-Quiet :
    {A B : Type 0} (m : Call A) {f : A → Call B}
    → Quiet m
    → ((a : A) → Quiet (f a))
    → Quiet (m >>= f)
bind-Quiet m {f = f} h k = record { at = λ d. next-Quiet (m d) f d (h.at d) k }

-- A check, then the rest.
checked :
    {A B : Type 0} (r : MemoryResult A) {f : A → Call B}
    → ((a : A) → Quiet (f a))
    → Quiet (check r >>= f)
checked r k = bind-Quiet (check r) (record { at = λ d. refl }) k

return-Quiet : {A : Type 0} (a : A) → Quiet (return a)
return-Quiet a = record { at = λ d. refl }

run-Quiet : {A : Type 0} {m : Action A} → Steps SameFiles m → Quiet (run m)
run-Quiet s = record { at = s.at }

-- One step of the store, and the answer made of its result.
answered :
    {A B : Type 0} (m : Action A) (f : A → B)
    → Steps SameFiles m
    → Quiet (run m >>= λ a. return (f a))
answered m f s = bind-Quiet (run m) (run-Quiet s) (λ a. return-Quiet (f a))

abbrev bound_listing :
    {A : Type 0}
    → Env
    → MemoryScope
    → Option Text
    → (Option Text → List DurableMemoryDocument → Action A)
    → Action A
bound_listing env scope key f =
    lift (require_project_key env scope key) then λ k. list_memory_documents env scope k then f k

module _ (store : Env) (context : MemoryExecutionContext)
    (dream_yaml : Yaml DreamSnapshotFrontmatter) where
  open store.float use {F, lit}

  -- An action that asks for a scope, then for the store of the call.
  scoped :
      {B : Type 0} (scope : Text) (project_key : Option Text)
      {f : MemoryScope → ResolvedMemoryAccess → Call B}
      → ((s : MemoryScope) (access : ResolvedMemoryAccess) → Quiet (f s access))
      → Quiet (
          check (parse_durable_scope scope) >>= λ s.
          check (resolve_access store context project_key s) >>= λ access. f s access)
  scoped scope project_key h =
      checked (parse_durable_scope scope)
        (λ s. checked (resolve_access store context project_key s) (λ access. h s access))

  session_read-Quiet :
      (topic : Option Text) (options : Option MemoryActionOptions)
      → Quiet (session_read store context topic options)
  unfolding session_read read_session_topic
  session_read-Quiet topic options = checked (require_session_id context) (λ session_id.
      answered (read_session_topic store session_id (session_topic topic))
        (λ content. note_read (
          note_of (session_topic topic)
            (clamp 1 max_session_note_chars
              (unwrap_or (max_chars_of options) max_session_note_chars))
            content))
        (bind-Steps same (lift (note_path store session_id (session_topic topic)))
          (lifted store (note_path store session_id (session_topic topic)))
          (λ path. record { at = λ d. refl })))

  session_list_topics-Quiet : Quiet (session_list_topics store context)
  unfolding session_list_topics list_session_topics
  session_list_topics-Quiet = checked (require_session_id context) (λ session_id.
      answered (list_session_topics store session_id) topics (record { at = λ d. refl }))

  run_query-Quiet : (args : QueryArgs) → Quiet (run_query store context dream_yaml args)
  unfolding run_query
  run_query-Quiet args = scoped args.scope args.project_key (λ scope access.
      checked (parse_query_filters args.filters) (λ sets.
        answered
          (query_scope (store_of store access) scope access.project_id args.query_text
            (as_filters store context dream_yaml sets) (query_options args.options))
          queried
          (record {
            at = λ d.
                (query_scope-read_only (store_of store access) scope access.project_id
                  args.query_text (as_filters store context dream_yaml sets)
                  (query_options args.options) d).2;
          })))

  run_get-Quiet :
      (id : Text) (project_key : Option Text) (options : Option MemoryActionOptions)
      → Quiet (run_get store context dream_yaml id project_key options)
  unfolding run_get
  run_get-Quiet id project_key options = checked (checked_memory_id id) (λ id.
      checked (resolve_id_access store context project_key id) (λ access.
        bind-Quiet (run (get_memory (store_of store access) id access.project_id))
          (run-Quiet (get_memory_same (store_of store access) id access.project_id))
          (λ result. checked (found result) (λ doc. return-Quiet _))))

  run_dream_read-Quiet :
      (scope : Text) (project_key : Option Text)
      → Quiet (run_dream_read store context dream_yaml scope project_key)
  unfolding run_dream_read
  run_dream_read-Quiet scope project_key = scoped scope project_key (λ s access.
      answered (read_dream_snapshot (store_of store access) dream_yaml s access.project_id) dream
        (read_dream_snapshot_same (store_of store access) dream_yaml s access.project_id))

  duplicates_same :
      (env : Env) (b : Bool) (scope : MemoryScope) (key : Option Text)
      (memory_type : Option DurableMemoryType) (wanted : List Text) (limit : ℕ)
      → Steps SameFiles (duplicates_if env b scope key memory_type wanted limit)
  duplicates_same env true scope key memory_type wanted limit = pure-Steps same []
  duplicates_same env false scope key memory_type wanted limit =
      bind-Steps same (list_memory_documents env scope key) (listed env scope key)
        (λ docs. pure-Steps same _)

  run_find_duplicates-Quiet :
      (args : FindDuplicatesArgs) → Quiet (run_find_duplicates store context dream_yaml args)
  unfolding run_find_duplicates find_duplicate_candidates_with_retrieval
  run_find_duplicates-Quiet args = scoped args.scope args.project_key (λ scope access.
      checked (parse_some parse_type args.memory_type) (λ memory_type.
        answered
          (find_duplicate_candidates_with_retrieval (store_of store access) scope access.project_id
            memory_type args.title (unwrap_or args.content []) args.hints.tags
            (retrieval_of args.hints)
            (clamp 1 max_query_limit (unwrap_or (limit_of args.options) 5)))
          duplicates
          (bind-Steps same
            (lift (require_project_key (store_of store access) scope access.project_id))
            (lifted store (require_project_key (store_of store access) scope access.project_id))
            (λ key. duplicates_same (store_of store access) _ scope key memory_type _ _))))

  -- A report on the listing of a scope.
  reported :
      {A : Type 0} (env : Env) (scope : MemoryScope) (key : Option Text)
      {f : Option Text → List DurableMemoryDocument → Action A}
      → ((k : Option Text) (docs : List DurableMemoryDocument) → Steps SameFiles (f k docs))
      → Steps SameFiles (bound_listing env scope key f)
  reported env scope key h =
      bind-Steps same (lift (require_project_key env scope key))
        (lifted env (require_project_key env scope key))
        (λ k. bind-Steps same (list_memory_documents env scope k) (listed env scope k) (h k))

  run_scan_blobs-Quiet :
      (scope : Text) (project_key : Option Text) (min_sections : Option ℕ)
      (options : Option MemoryActionOptions)
      → Quiet (run_scan_blobs store context dream_yaml scope project_key min_sections options)
  unfolding run_scan_blobs scan_blob_candidates
  run_scan_blobs-Quiet scope project_key min_sections options =
      scoped scope project_key (λ s access.
        answered
          (scan_blob_candidates (store_of store access) s access.project_id
            (unwrap_or min_sections 3) (clamp 1 200 (unwrap_or (limit_of options) 20)))
          blobs
          (reported (store_of store access) s access.project_id (λ k docs. pure-Steps same _)))

  run_scan_duplicates-Quiet :
      (scope : Text) (project_key : Option Text) (min_score : Option F)
      (options : Option MemoryActionOptions)
      → Quiet (run_scan_duplicates store context dream_yaml scope project_key min_score options)
  unfolding run_scan_duplicates scan_duplicate_clusters
  run_scan_duplicates-Quiet scope project_key min_score options =
      scoped scope project_key (λ s access.
        answered
          (scan_duplicate_clusters (store_of store access) s access.project_id
            (unwrap_or min_score (lit 6 10)) 5 (clamp 1 200 (unwrap_or (limit_of options) 20)))
          clusters
          (reported (store_of store access) s access.project_id (λ k docs. pure-Steps same _)))

  run_inspect-Quiet :
      (scope : Text) (project_key : Option Text)
      → Quiet (run_inspect store context dream_yaml scope project_key)
  unfolding run_inspect inspect_scope
  run_inspect-Quiet scope project_key = scoped scope project_key (λ s access.
      answered (inspect_scope (store_of store access) s access.project_id) inspection (
        reported (store_of store access) s access.project_id (λ k docs. record { at = λ d. refl })))

  quiet :
      (args : MemoryArgs F)
      → class args ≡ read_only_parallel
      → Quiet (execute_parsed store context dream_yaml args)
  quiet (MemoryArgs.session_read topic options) h = session_read-Quiet topic options
  quiet (MemoryArgs.session_append topic content) h = cc
  quiet (MemoryArgs.session_replace topic content) h = cc
  quiet (MemoryArgs.session_clear topic) h = cc
  quiet MemoryArgs.session_list_topics h = session_list_topics-Quiet
  quiet (MemoryArgs.query args) h = run_query-Quiet args
  quiet (MemoryArgs.get id project_key options) h = run_get-Quiet id project_key options
  quiet (MemoryArgs.dream_read scope project_key) h = run_dream_read-Quiet scope project_key
  quiet (MemoryArgs.dream_publish scope source_generation content project_key) h = cc
  quiet (MemoryArgs.write args) h = cc
  quiet (MemoryArgs.merge args) h = cc
  quiet (MemoryArgs.split id project_key pieces) h = cc
  quiet (MemoryArgs.find_duplicates args) h = run_find_duplicates-Quiet args
  quiet (MemoryArgs.scan_blobs scope project_key min_sections options) h =
      run_scan_blobs-Quiet scope project_key min_sections options
  quiet (MemoryArgs.scan_duplicates scope project_key min_score options) h =
      run_scan_duplicates-Quiet scope project_key min_score options
  quiet (MemoryArgs.consolidate args) h = cc
  quiet (MemoryArgs.purge args) h = cc
  quiet (MemoryArgs.inspect scope project_key) h = run_inspect-Quiet scope project_key
  quiet (MemoryArgs.rebuild scope project_key) h = cc

  -- A call that the server classes as read-only, and so runs beside others without its own guard,
  -- changes no document and no note, whatever its arguments and its result.
  pub execute_parsed_read_only :
      (args : MemoryArgs F) (d : Disk)
      → class args ≡ read_only_parallel
      → (execute_parsed store context dream_yaml args d).1.files ≡ d.files
  execute_parsed_read_only args d h = (quiet args h).at d
