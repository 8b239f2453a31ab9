-- ===== src/Store/Consolidate/Kept.antt =====
-- Consolidating memories deletes none.
use jiandu.Prelude.{
  ℕ, zero, suc, refl, ◌∷◌, List, [], ◌++◌, Option, none, some, Bool-cases, inl, inr, is_empty, ltb,
  any, length, map, if◌then◌else◌,
}
use jiandu.Prelude.Classes.{nat_eq, list_eq, contains}
use jiandu.Result.{fail_if, invalid_input, collect}
use jiandu.Text.{Text, text, trim}
use jiandu.Types.{MemoryScope, superseded, DurableMemoryDocument, MemoryRetrievalInput}
use jiandu.Validate.{validate_memory_id, validate_memory_title}
use jiandu.Query.Cursor.{to_string}
use jiandu.Paths.{topic_path}
use jiandu.Store.Disk.{Env, Disk, Action, return, lift, exists_file, read_clock, now_rfc3339}
use jiandu.Store.Steps.{Steps, KeepsFiles, kept, bind-Steps, pure-Steps}
use jiandu.Store.Locate.{
  get_memory, get_memory_at_locator, memory_id_candidate, allocation_attempts, allocate_from,
  allocate_memory_id,
}
use jiandu.Store.Artifacts.{refresh_scope_artifacts}
use jiandu.Store.Status.{audit_entry}
use jiandu.Store.Limits.{max_durable_memory_body_chars}
use jiandu.Store.Merge.{MemorySplitPiece}
use jiandu.Store.Write.{merge_audit_log}
use jiandu.Store.Keeps.{
  unchanged, refreshed, audited, located, get_memory_kept, optional, write_document_kept,
  set_memory_status_kept,
}
use jiandu.Store.Consolidate.{
  Consolidation, elsewhere, with_doc, resolve_sources, reread_sources, consolidated_document,
  supersede_all, consolidate_found, consolidate_reread, consolidate_sources,
  consolidate_memories_with_retrieval,
}

module _ (env : Env) where
  allocate_from_kept :
      (left counter : ℕ) (scope : MemoryScope) (key : Option Text) (title timestamp : Text)
      → Steps KeepsFiles (allocate_from env left counter scope key title timestamp)
  unfolding allocate_from
  allocate_from_kept zero counter scope key title timestamp = unchanged env (λ d. refl)
  allocate_from_kept (suc left) counter scope key title timestamp =
      let id = memory_id_candidate env scope key title timestamp counter in
      let again = allocate_from_kept left (suc counter) scope key title timestamp in
      bind-Steps kept (lift (topic_path env.resolver scope key id)) (unchanged env (λ d. refl))
        (λ path.
          bind-Steps kept (exists_file path)
            {f = λ taken.
              if taken
              then allocate_from env left (suc counter) scope key title timestamp
              else return id}
            (unchanged env (λ d. refl))
            (λ taken. elim (Bool-cases taken) [
              | inl e ↦ rw e again
              | inr e ↦ rw e (pure-Steps kept id)
            ]))

  allocate_memory_id_kept :
      (scope : MemoryScope) (key : Option Text) (title : Text)
      → Steps KeepsFiles (allocate_memory_id env scope key title)
  unfolding allocate_memory_id
  allocate_memory_id_kept scope key title =
      bind-Steps kept (read_clock env) (unchanged env (λ d. refl)) (λ t.
        allocate_from_kept (allocation_attempts env) 0 scope key title (env.to_id_timestamp t))

  with_doc_kept :
      (found : Option DurableMemoryDocument) (rest : Action (Option (List DurableMemoryDocument)))
      → Steps KeepsFiles rest
      → Steps KeepsFiles (with_doc env found rest)
  with_doc_kept none rest h = pure-Steps kept none
  with_doc_kept (some doc) rest h =
      bind-Steps kept rest h (optional env _ (λ docs. pure-Steps kept (some (doc ∷ docs))))

  resolve_sources_kept :
      (preferred : Option Text) (seen ids : List Text)
      → Steps KeepsFiles (resolve_sources env preferred seen ids)
  unfolding resolve_sources
  resolve_sources_kept preferred seen [] = pure-Steps kept (some [])
  resolve_sources_kept preferred seen (id ∷ ids) =
      let repeated = resolve_sources_kept preferred seen ids in
      let rest = resolve_sources_kept preferred (id ∷ seen) ids in
      elim (Bool-cases (contains seen id)) [
        | inl e ↦ rw (e, resolve_sources) repeated
        | inr e ↦
            rw (e, resolve_sources)
              (bind-Steps kept (get_memory env id preferred) (get_memory_kept env id preferred)
                (λ found. with_doc_kept found _ rest))
      ]

  reread_sources_kept :
      (scope : MemoryScope) (key : Option Text) (sources : List DurableMemoryDocument)
      → Steps KeepsFiles (reread_sources env scope key sources)
  unfolding reread_sources
  reread_sources_kept scope key [] = pure-Steps kept (some [])
  reread_sources_kept scope key (source ∷ sources) =
      bind-Steps kept (get_memory_at_locator env scope key source.frontmatter.id)
        (located env scope key source.frontmatter.id)
        (λ found. with_doc_kept found _ (reread_sources_kept scope key sources))

  supersede_all_kept :
      (actor : Text) (sources : List DurableMemoryDocument)
      → Steps KeepsFiles (supersede_all env actor sources)
  unfolding supersede_all
  supersede_all_kept actor [] = pure-Steps kept tt
  supersede_all_kept actor (source ∷ sources) =
      bind-Steps kept _
        (set_memory_status_kept env source superseded (text "memory_consolidate") actor)
        (λ set. supersede_all_kept actor sources)

  consolidate_found_kept :
      (request : Consolidation) (scope : MemoryScope) (key : Option Text)
      (first : DurableMemoryDocument) (rest : List DurableMemoryDocument)
      → Steps KeepsFiles (consolidate_found env request scope key first rest)
  unfolding consolidate_found
  consolidate_found_kept request scope key first rest =
      let sources = first ∷ rest in
      bind-Steps kept (allocate_memory_id env scope key request.title)
        (allocate_memory_id_kept scope key request.title)
        (λ id. bind-Steps kept (now_rfc3339 env) (unchanged env (λ d. refl)) (λ now.
          bind-Steps kept (lift (topic_path env.resolver scope key id)) (unchanged env (λ d. refl))
            (λ path.
              bind-Steps kept _
                (write_document_kept env
                  (consolidated_document env request scope key first sources id now path))
                (λ w. bind-Steps kept _ (supersede_all_kept request.actor sources) (λ s.
                  bind-Steps kept (now_rfc3339 env) (unchanged env (λ d. refl)) (λ logged.
                    bind-Steps kept _
                      (audited env scope key merge_audit_log (
                        audit_entry logged (text "consolidate") scope (some id) request.session_id (
                          text "Consolidated "
                          ++ (to_string (
                                length (
                                  map (λ (doc : DurableMemoryDocument). doc.frontmatter.id)
                                    sources))
                              ++ (text " near-duplicate memories into '"
                                  ++ (request.title ++ text "'."))))))
                      (λ a.
                        bind-Steps kept (refresh_scope_artifacts env scope key)
                          (refreshed env scope key)
                          (λ r. pure-Steps kept (
                            some (record {
                              new_id = id;
                              target_scope = scope;
                              project_key = key;
                              superseded_ids =
                                  map (λ (doc : DurableMemoryDocument). doc.frontmatter.id) sources;
                            }))))))))))

  consolidate_reread_kept :
      (request : Consolidation) (scope : MemoryScope) (key : Option Text)
      (sources : List DurableMemoryDocument)
      → Steps KeepsFiles (consolidate_reread env request scope key sources)
  consolidate_reread_kept request scope key [] = pure-Steps kept none
  consolidate_reread_kept request scope key (first ∷ rest) =
      consolidate_found_kept request scope key first rest

  consolidate_sources_kept :
      (request : Consolidation) (sources : List DurableMemoryDocument)
      → Steps KeepsFiles (consolidate_sources env request sources)
  consolidate_sources_kept request [] = unchanged env (λ d. refl)
  consolidate_sources_kept request (first ∷ []) = unchanged env (λ d. refl)
  consolidate_sources_kept request (first ∷ second ∷ rest) =
      let scope = first.frontmatter.scope in
      let key = first.frontmatter.project_key in
      let sources = first ∷ second ∷ rest in
      bind-Steps kept (lift (fail_if (any (elsewhere first) sources) invalid_input))
        (unchanged env (λ d. refl))
        (λ u.
          bind-Steps kept (reread_sources env scope key sources)
            (reread_sources_kept scope key sources)
            (optional env (consolidate_reread env request scope key)
              (consolidate_reread_kept request scope key)))

  -- Consolidating keeps every file of the store, also of the memories that are superseded, whatever the
  -- result.
  pub consolidate_memories_kept :
      (ids : List Text) (preferred : Option Text) (merged : MemorySplitPiece)
      (retrieval : MemoryRetrievalInput) (session_id : Option Text) (actor : Text) (d : Disk)
      → KeepsFiles d
          (consolidate_memories_with_retrieval env ids preferred merged retrieval session_id actor
            d).1
  unfolding consolidate_memories_with_retrieval
  consolidate_memories_kept ids preferred merged retrieval session_id actor d =
      (bind-Steps kept (lift (collect validate_memory_id ids)) (unchanged env (λ d. refl))
          (λ checked.
            bind-Steps kept (lift (fail_if (ltb (length checked) 2) invalid_input))
              (unchanged env (λ d. refl))
              (λ u.
                bind-Steps kept (lift (validate_memory_title merged.title))
                  (unchanged env (λ d. refl))
                  (λ title.
                    bind-Steps kept (lift (fail_if (is_empty (trim merged.content)) invalid_input))
                      (unchanged env (λ d. refl))
                      (λ v.
                        bind-Steps kept
                          (lift (
                            fail_if
                              (ltb max_durable_memory_body_chars (length (trim merged.content)))
                              invalid_input))
                          (unchanged env (λ d. refl))
                          (λ w.
                            bind-Steps kept (resolve_sources env preferred [] checked)
                              (resolve_sources_kept preferred [] checked)
                              (optional env _ (
                                consolidate_sources_kept (record {
                                  title = title;
                                  merged = merged;
                                  retrieval = retrieval;
                                  session_id = session_id;
                                  actor = actor;
                                }))))))))).at
        d
