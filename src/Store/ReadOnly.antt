-- ===== src/Store/ReadOnly.antt =====
-- The operations of the store that read change no document.
use jiandu.Prelude.{ℕ, ◌≡◌, refl, ap, Option, none, some, Option-cases, inl, inr}
use jiandu.Result.{Result, ok, err}
use jiandu.Text.{Text}
use jiandu.Types.{MemoryScope, project, global, DurableMemoryDocument}
use jiandu.Validate.{validate_memory_id}
use jiandu.Document.{Yaml}
use jiandu.Paths.{scope_generation_path, dream_path}
use jiandu.Store.Disk.{Env, Disk, next, lift, read_file, find_path}
use jiandu.Store.Steps.{Steps, SameFiles, same, bind-Steps, pure-Steps}
use jiandu.Store.Locate.{
  get_memory, get_memory_at_locator, or_global, list_memory_documents, count_scope_memories,
  require_project_key,
}
use jiandu.Store.Locate.Lookup.{get_memory_at_locator_keeps}
use jiandu.Store.Dream.{
  durable_only, unmarked_generation, current_scope_generation, DreamSnapshotFrontmatter,
  dream_result, read_dream_snapshot,
}

module _ (env : Env) where
  pub lifted : {A : Type 0} (r : Result A) → Steps SameFiles (lift r)
  lifted r = record { at = λ d. refl }

  located :
      (scope : MemoryScope) (key : Option Text) (id : Text)
      → Steps SameFiles (get_memory_at_locator env scope key id)
  located scope key id = record {
    at = λ d. ap (λ (x : Disk). x.files) (get_memory_at_locator_keeps env scope key id d);
  }

  or_global_same :
      (id : Text) (result : Option DurableMemoryDocument)
      → Steps SameFiles (or_global env id result)
  or_global_same id none = located global none id
  or_global_same id (some doc) = pure-Steps same (some doc)

  pub get_memory_same : (id : Text) (key : Option Text) → Steps SameFiles (get_memory env id key)
  unfolding get_memory
  get_memory_same id none =
      bind-Steps same (lift (validate_memory_id id)) (lifted (validate_memory_id id))
        (λ id. located global none id)
  get_memory_same id (some key) =
      bind-Steps same (lift (validate_memory_id id)) (lifted (validate_memory_id id)) (λ id.
        bind-Steps same (get_memory_at_locator env project (some key) id)
          (located project (some key) id) (or_global_same id))

  pub listed :
      (scope : MemoryScope) (key : Option Text)
      → Steps SameFiles (list_memory_documents env scope key)
  unfolding list_memory_documents
  listed scope key = record { at = λ d. refl }

  current_generation_same :
      (scope : MemoryScope) (key : Option Text)
      → Steps SameFiles (current_scope_generation env scope key)
  unfolding current_scope_generation count_scope_memories
  current_generation_same scope key =
      bind-Steps same (lift (durable_only scope)) (lifted (durable_only scope)) (λ u.
        bind-Steps same (lift (require_project_key env scope key))
          (lifted (require_project_key env scope key))
          (λ k. record {
            at = λ d.
                elim (Option-cases
                  (find_path (scope_generation_path env.resolver scope k) d.artifacts)) [
                    | inl e ↦ rw e (counted (count_scope_memories env scope k d))
                    | inr (marker, e) ↦ rw e refl
                  ];
          }))
    where
      counted :
          (r : Result ℕ × Disk)
          → (next r (λ count. lift (unmarked_generation env count))).1.files ≡ r.1.files
      counted (ok n, d) = refl
      counted (err e, d) = refl

  pub read_dream_snapshot_same :
      (dream_yaml : Yaml DreamSnapshotFrontmatter) (scope : MemoryScope) (key : Option Text)
      → Steps SameFiles (read_dream_snapshot env dream_yaml scope key)
  unfolding read_dream_snapshot
  read_dream_snapshot_same dream_yaml scope key =
      bind-Steps same (lift (durable_only scope)) (lifted (durable_only scope)) (λ u.
        bind-Steps same (lift (require_project_key env scope key))
          (lifted (require_project_key env scope key))
          (λ k.
            bind-Steps same (current_scope_generation env scope k) (current_generation_same scope k)
              (λ current.
                bind-Steps same (read_file (dream_path env.resolver scope k))
                  {f = λ found. lift (dream_result env dream_yaml scope k current found)}
                  (record { at = λ d. refl }) (λ found. lifted _))))
