-- ===== src/Store/Merge/Kept.antt =====
-- Merging, splitting and contradicting memories delete none.
use jiandu.Prelude.{refl, List, [], ◌∷◌, ◌++◌, Option, none, some, Bool-cases, inl, inr, is_empty}
use jiandu.Result.{fail_if, invalid_input}
use jiandu.Text.{Text, text, trim}
use jiandu.Types.{MemoryScope, superseded, status_beq, DurableMemoryDocument}
use jiandu.Validate.{validate_memory_id}
use jiandu.Store.Disk.{Env, Disk, Action, return, lift, now_rfc3339, ◌>>=◌, ◌>>◌}
use jiandu.Store.Steps.{Steps, KeepsFiles, kept, bind-Steps, pure-Steps}
use jiandu.Store.Locate.{get_memory, get_memory_at_locator, write_document, append_audit}
use jiandu.Store.Artifacts.{refresh_scope_artifacts}
use jiandu.Store.Status.{updater, with_status, audit_entry}
use jiandu.Store.Keeps.{
  unchanged, refreshed, audited, located, get_memory_kept, optional, write_document_kept,
}
use jiandu.Store.Merge.{
  supersede_found, supersede_sources, merge_found, merge_memory_with_retrieval, MergeRequest,
  other_ids, merge_content, merge_lineage, merge_tags, merge_stamp,
}
use jiandu.Store.Write.{merge_audit_log}

module _ (env : Env) where
  supersede_found_kept :
      (actor : Text) (doc : DurableMemoryDocument)
      → Steps KeepsFiles (supersede_found env actor doc)
  unfolding supersede_found
  supersede_found_kept actor doc =
      elim (Bool-cases (status_beq doc.frontmatter.status superseded)) [
        | inl e ↦ rw e (pure-Steps kept tt)
        | inr e ↦ rw e (
            bind-Steps kept (now_rfc3339 env) (unchanged env (λ d. refl)) (λ now.
              write_document_kept env
                (with_status superseded now (updater (text "memory_merge") actor) doc)))
      ]

  supersede_sources_kept :
      (scope : MemoryScope) (key : Option Text) (actor : Text) (ids : List Text)
      → Steps KeepsFiles (supersede_sources env scope key actor ids)
  unfolding supersede_sources
  supersede_sources_kept scope key actor [] = pure-Steps kept []
  supersede_sources_kept scope key actor (id ∷ ids) =
      bind-Steps kept (get_memory_at_locator env scope key id) (located env scope key id)
        (superseded_one (supersede_sources_kept scope key actor ids))
    where
      superseded_one :
          Steps KeepsFiles (supersede_sources env scope key actor ids)
          → (found : Option DurableMemoryDocument)
          → Steps KeepsFiles (elim found as (λ x. Action (List Text)) [
            | none ↦ supersede_sources env scope key actor ids
            | some source_doc ↦
                supersede_found env actor source_doc
                >> (supersede_sources env scope key actor ids >>= λ rest. return (id ∷ rest))
          ])
      superseded_one rest none = rest
      superseded_one rest (some doc) =
          bind-Steps kept (supersede_found env actor doc) (supersede_found_kept actor doc) (λ u.
            bind-Steps kept (supersede_sources env scope key actor ids) rest
              (λ found. pure-Steps kept (id ∷ found)))

  merge_found_kept :
      (source_ids : List Text) (request : MergeRequest) (doc : DurableMemoryDocument)
      → Steps KeepsFiles (merge_found env source_ids request doc)
  unfolding merge_found
  merge_found_kept source_ids request doc =
      bind-Steps kept (lift (fail_if (is_empty (trim request.content)) invalid_input))
        (unchanged env (λ d. refl))
        (λ u.
          bind-Steps kept (lift (merge_content env (trim request.content) doc))
            (unchanged env (λ d. refl))
            (λ content_merged.
              let m = merge_lineage env source_ids (merge_tags env request.tags content_merged) in
              bind-Steps kept (now_rfc3339 env) (unchanged env (λ d. refl)) (λ now.
                let stamped = merge_stamp env request now m.doc in
                let fm = stamped.frontmatter in
                bind-Steps kept (write_document env stamped) (write_document_kept env stamped) (λ w.
                  bind-Steps kept
                    (supersede_sources env fm.scope fm.project_key request.actor source_ids)
                    (supersede_sources_kept fm.scope fm.project_key request.actor source_ids)
                    (λ ids. bind-Steps kept (now_rfc3339 env) (unchanged env (λ d. refl)) (λ logged.
                      bind-Steps kept
                        (append_audit env fm.scope fm.project_key merge_audit_log (
                          audit_entry logged (text "merge") fm.scope (some fm.id) request.session_id
                            (text "Merged content into memory '" ++ (fm.title ++ text "'."))))
                        (audited env _ _ _ _)
                        (λ a.
                          bind-Steps kept (refresh_scope_artifacts env fm.scope fm.project_key)
                            (refreshed env fm.scope fm.project_key)
                            (λ r. pure-Steps kept (
                              some (record {
                                merged_id = fm.id;
                                target_scope = fm.scope;
                                project_key = fm.project_key;
                                changed = m.changed;
                                appended = m.appended;
                                tags_updated = m.tags_updated;
                                superseded_ids = ids;
                                path = stamped.path;
                              }))))))))))

  -- Merging keeps every file of the store, also of the memories that are superseded, whatever the
  -- result.
  pub merge_memory_kept :
      (id : Text) (preferred : Option Text) (request : MergeRequest) (source_ids : List Text)
      (d : Disk)
      → KeepsFiles d (merge_memory_with_retrieval env id preferred request source_ids d).1
  unfolding merge_memory_with_retrieval
  merge_memory_kept id preferred request source_ids d =
      (bind-Steps kept (lift (validate_memory_id id)) (unchanged env (λ d. refl)) (λ u.
          bind-Steps kept (lift (other_ids u source_ids)) (unchanged env (λ d. refl)) (λ others.
            bind-Steps kept (get_memory env u preferred) (get_memory_kept env u preferred) (
              optional env _ (λ doc.
                bind-Steps kept
                  (get_memory_at_locator env doc.frontmatter.scope doc.frontmatter.project_key u)
                  (located env doc.frontmatter.scope doc.frontmatter.project_key u)
                  (optional env (merge_found env others request)
                    (merge_found_kept others request))))))).at
        d
