-- ===== src/Gardener/Capacity.antt =====
-- Enforcing a capacity deletes nothing.
use jiandu.Prelude.{
  ℕ, refl, Bool, true, false, ◌||◌, List, [], ◌∷◌, Option, none, some, Bool-cases, inl, inr,
  is_empty, ◌==◌,
}
use jiandu.Prelude.Classes.{nat_eq, list_eq}
use jiandu.Text.{Text, text}
use jiandu.Types.{MemoryScope, archived, status_as_str, DurableMemoryDocument}
use jiandu.Search.{access_log_stats, access_log_path, stats_of}
use jiandu.Store.Disk.{Env, Disk, Artifact, lift, read_clock, now_rfc3339, read_artifact}
use jiandu.Store.Steps.{Steps, KeepsFiles, kept, bind-Steps, pure-Steps}
use jiandu.Store.Locate.{require_project_key, list_memory_documents}
use jiandu.Store.Status.{audit_entry, purge_audit_log, cons_if}
use jiandu.Store.Keeps.{unchanged, refreshed, audited, listed, set_memory_status_kept}
use jiandu.Gardener.{
  overflows, audit_eviction, archive_one, archive_each, refresh_unless, evict, evict_if,
  enforce_scope_capacity,
}

module _ (env : Env) where
  audit_eviction_kept :
      (scope : MemoryScope) (key : Option Text) (doc : DurableMemoryDocument) (b : Bool)
      → Steps KeepsFiles (audit_eviction env scope key doc b)
  audit_eviction_kept scope key doc false = pure-Steps kept false
  audit_eviction_kept scope key doc true =
      bind-Steps kept (now_rfc3339 env) (unchanged env (λ d. refl)) (λ now.
        bind-Steps kept _
          (audited env scope key purge_audit_log (
            audit_entry now (status_as_str archived) scope (some doc.frontmatter.id) none
              (text "Archived out of recall to enforce scope capacity.")))
          (λ a. pure-Steps kept true))

  archive_one_kept :
      (scope : MemoryScope) (key : Option Text) (doc : DurableMemoryDocument)
      → Steps KeepsFiles (archive_one env scope key doc)
  unfolding archive_one
  archive_one_kept scope key doc =
      bind-Steps kept _
        (set_memory_status_kept env doc archived (text "capacity_eviction") (text "gardener"))
        (λ set. audit_eviction_kept scope key set.1 set.0)

  archive_each_kept :
      (scope : MemoryScope) (key : Option Text) (docs : List DurableMemoryDocument)
      → Steps KeepsFiles (archive_each env scope key docs)
  unfolding archive_each
  archive_each_kept scope key [] = pure-Steps kept []
  archive_each_kept scope key (doc ∷ docs) =
      bind-Steps kept (archive_one env scope key doc) (archive_one_kept scope key doc) (λ changed.
        bind-Steps kept (archive_each env scope key docs) (archive_each_kept scope key docs)
          (λ ids. pure-Steps kept (cons_if changed doc.frontmatter.id ids)))

  refresh_unless_kept :
      (b : Bool) (scope : MemoryScope) (key : Option Text)
      → Steps KeepsFiles (refresh_unless env b scope key)
  refresh_unless_kept true scope key = pure-Steps kept tt
  refresh_unless_kept false scope key = refreshed env scope key

  stats_of_kept : (found : Option Artifact) → Steps KeepsFiles (stats_of env found)
  stats_of_kept none = pure-Steps kept []
  stats_of_kept (some artifact) = unchanged env (λ d. refl)

  stats_kept :
      (scope : MemoryScope) (key : Option Text) → Steps KeepsFiles (access_log_stats env scope key)
  unfolding access_log_stats
  stats_kept scope key =
      bind-Steps kept (read_artifact (access_log_path env scope key)) {f = stats_of env}
        (unchanged env (λ d. refl)) stats_of_kept

  evict_kept :
      (scope : MemoryScope) (key : Option Text) (capacity max_archivals now : ℕ)
      (docs : List DurableMemoryDocument)
      → Steps KeepsFiles (evict env scope key capacity max_archivals now docs)
  unfolding evict
  evict_kept scope key capacity max_archivals now docs =
      bind-Steps kept (access_log_stats env scope key) (stats_kept scope key) (λ stats.
        bind-Steps kept _ (archive_each_kept scope key _) (λ ids.
          bind-Steps kept _ (refresh_unless_kept (is_empty ids) scope key)
            (λ r. pure-Steps kept ids)))

  evict_if_kept :
      (b : Bool) (scope : MemoryScope) (key : Option Text) (capacity max_archivals : ℕ)
      (docs : List DurableMemoryDocument)
      → Steps KeepsFiles (evict_if env b scope key capacity max_archivals docs)
  evict_if_kept false scope key capacity max_archivals docs = pure-Steps kept []
  evict_if_kept true scope key capacity max_archivals docs =
      bind-Steps kept (read_clock env) (unchanged env (λ d. refl))
        (λ now. evict_kept scope key capacity max_archivals now docs)

  -- Enforcing a capacity keeps every file of the store, whatever the result.
  pub enforce_scope_capacity_kept :
      (scope : MemoryScope) (project_key : Option Text) (capacity max_archivals : ℕ) (d : Disk)
      → KeepsFiles d (enforce_scope_capacity env scope project_key capacity max_archivals d).1
  unfolding enforce_scope_capacity
  enforce_scope_capacity_kept scope project_key capacity max_archivals d =
      elim (Bool-cases (capacity == 0 || max_archivals == 0)) [
        | inl e ↦ rw e (λ p h. h)
        | inr e ↦ rw e (
            (bind-Steps kept (lift (require_project_key env scope project_key))
                (unchanged env (λ d. refl))
                (λ key.
                  bind-Steps kept (list_memory_documents env scope key) (listed env scope key)
                    (λ docs.
                      evict_if_kept (overflows env capacity docs) scope key capacity max_archivals
                        docs))).at
              d)
      ]
