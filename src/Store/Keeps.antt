-- ===== src/Store/Keeps.antt =====
-- No operation that changes a status ever deletes a file, also where it fails half way.
use jiandu.Prelude.{
  ◌≡◌, refl, sym, ap, ◌∙◌, Bool, true, false, List, [], ◌∷◌, Option, none, some, Bool-cases,
  Option-cases, inl, inr, is_some, is_empty, unwrap_or, length, if◌then◌else◌, false≢true,
}
use jiandu.Prelude.Classes.{◌=?◌, nat_eq, list_eq}
use jiandu.Text.{Text, text}
use jiandu.Types.{
  MemoryScope, project, global, DurableMemoryType, DurableMemoryStatus, active, stale, status_beq,
  status_as_str, TemporalGranularity, DurableMemoryDocument,
}
use jiandu.Validate.{validate_memory_id}
use jiandu.Document.{render_markdown_document}
use jiandu.Paths.{PathBuf}
use jiandu.Query.{match_memory_query}
use jiandu.Freshness.{granularity_expired, memory_age_days}
use jiandu.Store.Disk.{
  Env, Disk, Action, AuditLogEntry, Artifact, ◌>>=◌, ◌>>◌, return, lift, now_rfc3339,
  write_artifact, find_path, set_path, find-set_same, find-set_other, found_or_none,
}
use jiandu.Store.Steps.{Steps, SameFiles, KeepsFiles, same, kept, bind-Steps, pure-Steps, same-kept}
use jiandu.Store.Locate.{
  require_project_key, get_memory_at_locator, get_memory, or_global, list_memory_documents,
  write_document, append_audit,
}
use jiandu.Store.Locate.Lookup.{get_memory_at_locator_keeps}
use jiandu.Store.Artifacts.{
  refresh_scope_artifacts, write_batch, canonical_scope_generation, scope_artifacts,
}
use jiandu.Store.Status.{
  set_memory_status, archive_found, archive_locked, archive_memory, purge_docs, purge_memories,
  audit_expiry, expire_found, expire_docs, expire_stale_granularity, with_status, updater,
  purge_audit_log, audit_entry, cons_if,
}

module _ (env : Env) where
  write_batch_files : (batch : List (PathBuf × Artifact)) → Steps SameFiles (write_batch env batch)
  unfolding write_batch
  write_batch_files [] = pure-Steps same tt
  write_batch_files ((path, artifact) ∷ batch) =
      bind-Steps same (write_artifact path artifact) (record { at = λ d. refl })
        (λ u. write_batch_files batch)

  -- Refreshing the derived artifacts leaves the documents alone, also where it fails.
  pub refresh_scope_artifacts_files :
      (scope : MemoryScope) (key : Option Text)
      → Steps SameFiles (refresh_scope_artifacts env scope key)
  unfolding refresh_scope_artifacts list_memory_documents
  refresh_scope_artifacts_files scope key =
      bind-Steps same (lift (require_project_key env scope key)) (record { at = λ d. refl })
        (λ k.
          bind-Steps same (list_memory_documents env scope k) (record { at = λ d. refl })
            (λ docs.
              bind-Steps same (now_rfc3339 env) (record { at = λ d. refl })
                (λ now.
                  bind-Steps same (lift (canonical_scope_generation env docs))
                    (record { at = λ d. refl })
                    (λ generation.
                      write_batch_files (scope_artifacts env scope k now docs generation)))))

  pub unchanged :
      {A : Type 0} {m : Action A} → ((d : Disk) → (m d).1.files ≡ d.files) → Steps KeepsFiles m
  unchanged h = same-kept (record { at = h })

  pub audited :
      (scope : MemoryScope) (key : Option Text) (file : Text) (entry : AuditLogEntry)
      → Steps KeepsFiles (append_audit env scope key file entry)
  unfolding append_audit
  audited scope key file entry = unchanged (λ d. refl)

  pub listed :
      (scope : MemoryScope) (key : Option Text)
      → Steps KeepsFiles (list_memory_documents env scope key)
  unfolding list_memory_documents
  listed scope key = unchanged (λ d. refl)

  expiry_audited :
      (scope : MemoryScope) (key : Option Text) (doc : DurableMemoryDocument)
      → Steps KeepsFiles (audit_expiry env scope key doc)
  unfolding audit_expiry append_audit
  expiry_audited scope key doc = unchanged (λ d. refl)

  granularity_expired_files :
      (doc : DurableMemoryDocument) (d : Disk)
      → (granularity_expired env doc.frontmatter.granularity doc.frontmatter.updated_at d).1.files
        ≡ d.files
  unfolding granularity_expired
  granularity_expired_files doc d =
      elim (Option-cases (env.parse_rfc3339 doc.frontmatter.updated_at)) [
        | inl e ↦ rw (e, memory_age_days) refl
        | inr (t, e) ↦ rw (e, memory_age_days) refl
      ]

  pub refreshed :
      (scope : MemoryScope) (key : Option Text)
      → Steps KeepsFiles (refresh_scope_artifacts env scope key)
  refreshed scope key = same-kept (refresh_scope_artifacts_files scope key)

  set_kept :
      (q : PathBuf) (raw : Text) (files : List (PathBuf × Text)) (p : PathBuf)
      → is_some (find_path p files) ≡ true
      → is_some (find_path p (set_path q raw files)) ≡ true
  set_kept q raw files p h = elim (Bool-cases (q =? p)) [
    | inl e ↦ rw ((list_eq.beq_iff q p).0 e) (ap is_some (find-set_same p raw files))
    | inr e ↦
        ap is_some
          (find-set_other q p raw files (λ f. false≢true (sym e ∙ (list_eq.beq_iff q p).1 f)))
        ∙ h
  ]

  pub write_document_kept :
      (doc : DurableMemoryDocument) → Steps KeepsFiles (write_document env doc)
  unfolding write_document
  write_document_kept doc =
      bind-Steps kept (lift (validate_memory_id doc.frontmatter.id)) (unchanged (λ d. refl)) (λ id.
        bind-Steps kept (lift (render_markdown_document env.yaml doc.frontmatter doc.body))
          (unchanged (λ d. refl)) (λ raw. record { at = λ d. set_kept doc.path raw d.files }))

  pub set_memory_status_kept :
      (doc : DurableMemoryDocument) (status : DurableMemoryStatus) (kind actor : Text)
      → Steps KeepsFiles (set_memory_status env doc status kind actor)
  unfolding set_memory_status
  set_memory_status_kept doc status kind actor =
      elim (Bool-cases (status_beq doc.frontmatter.status status)) [
        | inl e ↦ rw e (pure-Steps kept (false, doc))
        | inr e ↦ rw e (
            bind-Steps kept (now_rfc3339 env) (unchanged (λ d. refl)) (λ now.
              bind-Steps kept (write_document env (with_status status now (updater kind actor) doc))
                (write_document_kept (with_status status now (updater kind actor) doc))
                (λ u. pure-Steps kept (true, with_status status now (updater kind actor) doc))))
      ]

  pub located :
      (scope : MemoryScope) (key : Option Text) (id : Text)
      → Steps KeepsFiles (get_memory_at_locator env scope key id)
  located scope key id =
      unchanged (λ d. ap (λ (x : Disk). x.files) (get_memory_at_locator_keeps env scope key id d))

  pub get_memory_kept :
      (id : Text) (preferred : Option Text) → Steps KeepsFiles (get_memory env id preferred)
  unfolding get_memory
  get_memory_kept id none =
      bind-Steps kept (lift (validate_memory_id id)) (unchanged (λ d. refl))
        (λ u. located global none u)
  get_memory_kept id (some key) =
      bind-Steps kept (lift (validate_memory_id id)) (unchanged (λ d. refl)) (λ u.
        bind-Steps kept (get_memory_at_locator env project (some key) u)
          (located project (some key) u) (chosen u))
    where
      chosen :
          (u : Text) (found : Option DurableMemoryDocument)
          → Steps KeepsFiles (or_global env u found)
      chosen u none = located global none u
      chosen u (some doc) = pure-Steps kept (some doc)

  pub optional :
      {A B : Type 0} (f : A → Action (Option B))
      → ((a : A) → Steps KeepsFiles (f a))
      → (found : Option A) → Steps KeepsFiles (found_or_none f found)
  optional f h none = pure-Steps kept none
  optional f h (some a) = h a

  archive_found_kept :
      (mode : DurableMemoryStatus) (reason : Option Text) (doc : DurableMemoryDocument)
      → Steps KeepsFiles (archive_found env mode reason doc)
  unfolding archive_found
  archive_found_kept mode reason doc =
      bind-Steps kept (set_memory_status env doc mode (text "memory_purge") (text "main-model"))
        (set_memory_status_kept doc mode (text "memory_purge") (text "main-model"))
        (λ set. bind-Steps kept (now_rfc3339 env) (unchanged (λ d. refl)) (λ now.
          let fm = set.1.frontmatter in
          bind-Steps kept
            (append_audit env fm.scope fm.project_key purge_audit_log (
              audit_entry now (status_as_str mode) fm.scope (some fm.id) none
                (unwrap_or reason (status_as_str mode))))
            (audited _ _ _ _)
            (λ u.
              bind-Steps kept (refresh_scope_artifacts env fm.scope fm.project_key)
                (refreshed fm.scope fm.project_key) (λ v. pure-Steps kept (some set.1)))))

  -- Archiving a memory, or giving it any other status, keeps every file of the store, whatever the
  -- result.
  pub archive_memory_kept :
      (id : Text) (preferred : Option Text) (mode : DurableMemoryStatus) (reason : Option Text)
      (d : Disk)
      → KeepsFiles d (archive_memory env id preferred mode reason d).1
  unfolding archive_memory archive_locked
  archive_memory_kept id preferred mode reason d =
      (bind-Steps kept (lift (validate_memory_id id)) (unchanged (λ d. refl)) (λ u.
          bind-Steps kept (get_memory env u preferred) (get_memory_kept u preferred) (
            optional _ (λ doc.
              bind-Steps kept
                (get_memory_at_locator env doc.frontmatter.scope doc.frontmatter.project_key u)
                (located doc.frontmatter.scope doc.frontmatter.project_key u)
                (optional (archive_found env mode reason) (archive_found_kept mode reason)))))).at
        d

  module _ (types : Option (List DurableMemoryType)) (statuses : Option (List DurableMemoryStatus))
      (granularities : Option (List TemporalGranularity)) where
    purge_docs_kept :
        (mode : DurableMemoryStatus) (docs : List DurableMemoryDocument)
        → Steps KeepsFiles (purge_docs env types statuses granularities mode docs)
    unfolding purge_docs
    purge_docs_kept mode [] = pure-Steps kept []
    purge_docs_kept mode (doc ∷ docs) =
        let rest = purge_docs_kept mode docs in
        elim (Bool-cases (
          is_some
            (match_memory_query env.unicode env.float doc none types statuses granularities))) [
              | inr e ↦ rw (e, purge_docs) rest
              | inl e ↦
                  rw (e, purge_docs)
                    (bind-Steps kept
                      (set_memory_status env doc mode (text "memory_purge") (text "main-model"))
                      (set_memory_status_kept doc mode (text "memory_purge") (text "main-model"))
                      (λ set.
                        bind-Steps kept (purge_docs env types statuses granularities mode docs) rest
                          (λ ids. pure-Steps kept (cons_if set.0 doc.frontmatter.id ids))))
            ]

    -- Purging keeps every file of the store, whatever the result.
    pub purge_memories_kept :
        (scope : MemoryScope) (key : Option Text) (mode : DurableMemoryStatus)
        (reason : Option Text) (d : Disk)
        → KeepsFiles d (purge_memories env types statuses granularities scope key mode reason d).1
    unfolding purge_memories
    purge_memories_kept scope key mode reason d =
        (bind-Steps kept (lift (require_project_key env scope key)) (unchanged (λ d. refl)) (λ k.
            bind-Steps kept (list_memory_documents env scope k) (listed scope k) (λ docs.
              bind-Steps kept (purge_docs env types statuses granularities mode docs)
                (purge_docs_kept mode docs)
                (λ ids. bind-Steps kept (now_rfc3339 env) (unchanged (λ d. refl)) (λ now.
                  bind-Steps kept
                    (append_audit env scope k purge_audit_log (
                      audit_entry now (status_as_str mode) scope none none
                        (unwrap_or reason (status_as_str mode))))
                    (audited _ _ _ _)
                    (λ u.
                      bind-Steps kept (refresh_scope_artifacts env scope k) (refreshed scope k)
                        (λ v. pure-Steps kept (record {
                          scope = scope;
                          project_key = k;
                          mode = mode;
                          matched_count = length ids;
                          updated_ids = ids;
                        })))))))).at
          d

  expire_found_kept :
      (scope : MemoryScope) (key : Option Text) (doc : DurableMemoryDocument)
      → Steps KeepsFiles (expire_found env scope key doc)
  unfolding expire_found
  expire_found_kept scope key doc =
      bind-Steps kept
        (set_memory_status env doc stale (text "granularity_expiry") (text "gardener"))
        (set_memory_status_kept doc stale (text "granularity_expiry") (text "gardener"))
        (λ set. noted set.0)
    where
      noted :
          (changed : Bool)
          → Steps KeepsFiles (if changed then audit_expiry env scope key doc else return false)
      noted true = expiry_audited scope key doc
      noted false = pure-Steps kept false

  expire_docs_kept :
      (scope : MemoryScope) (key : Option Text) (docs : List DurableMemoryDocument)
      → Steps KeepsFiles (expire_docs env scope key docs)
  unfolding expire_docs
  expire_docs_kept scope key [] = pure-Steps kept []
  expire_docs_kept scope key (doc ∷ docs) =
      elim (Bool-cases (status_beq doc.frontmatter.status active)) [
        | inr e ↦ rw (e, expire_docs) (expire_docs_kept scope key docs)
        | inl e ↦
            rw (e, expire_docs)
              (bind-Steps kept
                (granularity_expired env doc.frontmatter.granularity doc.frontmatter.updated_at)
                (unchanged (granularity_expired_files doc))
                (tested (expire_docs_kept scope key docs)))
      ]
    where
      tested :
          Steps KeepsFiles (expire_docs env scope key docs)
          → (expired : Bool)
          → Steps KeepsFiles (
              if expired
              then (expire_found env scope key doc >>= λ changed.
                  expire_docs env scope key docs >>= λ ids.
                  return (cons_if changed doc.frontmatter.id ids))
              else expire_docs env scope key docs)
      tested rest true =
          bind-Steps kept (expire_found env scope key doc) (expire_found_kept scope key doc)
            (λ changed.
              bind-Steps kept (expire_docs env scope key docs) rest
                (λ ids. pure-Steps kept (cons_if changed doc.frontmatter.id ids)))
      tested rest false = rest

  -- Expiring stale memories keeps every file of the store, whatever the result.
  pub expire_stale_granularity_kept :
      (scope : MemoryScope) (key : Option Text) (d : Disk)
      → KeepsFiles d (expire_stale_granularity env scope key d).1
  unfolding expire_stale_granularity
  expire_stale_granularity_kept scope key d =
      (bind-Steps kept (lift (require_project_key env scope key)) (unchanged (λ d. refl)) (λ k.
          bind-Steps kept (list_memory_documents env scope k) (listed scope k) (λ docs.
            bind-Steps kept (expire_docs env scope k docs) (expire_docs_kept scope k docs)
              (finish k)))).at
        d
    where
      finish :
          (k : Option Text) (ids : List Text)
          → Steps KeepsFiles (
              if is_empty ids
              then return ids
              else refresh_scope_artifacts env scope k >> return ids)
      finish k [] = pure-Steps kept []
      finish k (id ∷ ids) =
          bind-Steps kept (refresh_scope_artifacts env scope k) (refreshed scope k)
            (λ u. pure-Steps kept (id ∷ ids))
