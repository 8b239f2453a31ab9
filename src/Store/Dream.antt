-- ===== src/Store/Dream.antt =====
-- Dream snapshots of memory_store/store.rs: `validate_source_generation`, `render_dream_snapshot`,
-- `parse_dream_snapshot`, `current_scope_generation`, `read_dream_snapshot` and
-- `publish_dream_snapshot`. Their YAML is read and printed by serde_yaml, a parameter. Making
-- directories and taking the scope's lock are not modelled.
pub mod Snapshot
pub mod Publish
pub mod Read
use jiandu.Prelude.{
  ℕ, false, not, ◌&&◌, ◌||◌, [], ◌++◌, Option, none, some, ◌==◌, if◌then◌else◌, is_empty, is_some,
  length, ltb,
}
use jiandu.Prelude.Classes.{◌=?◌, nat_eq, list_eq, option_eq}
use jiandu.Result.{Result, ok, err, invalid_input, invalid_data, not_found, fail_if}
use jiandu.Result.{◌>>=◌ as ◌then◌, ◌>>◌ as ◌after◌}
use jiandu.Text.{Text, text, trim, strip_prefix}
use jiandu.Types.{DreamSnapshot, DreamReadResult, MemoryScope, session, project, global, scope_eq}
use jiandu.Validate.{validate_source_generation}
use jiandu.Paths.{PathBuf, dream_path, scope_generation_path}
use jiandu.Document.{Yaml, or_err, split_once, end_marker}
use jiandu.Store.Disk.{
  Env, Action, Artifact, scope_generation, ◌>>=◌, ◌>>◌, return, lift, read_file, atomic_write,
  now_rfc3339, find_path,
}
use jiandu.Store.Locate.{require_project_key, list_memory_documents, count_scope_memories}
use jiandu.Store.Artifacts.{canonical_scope_generation}

pub record DreamSnapshotFrontmatter : Type 0 where
  pub scope : MemoryScope
  pub project_key : Option Text
  pub generated_at : Text
  pub source_generation : Text

abbrev pub max_dream_content_chars : ℕ
max_dream_content_chars = 12000

abbrev pub snapshot_frontmatter : DreamSnapshot → DreamSnapshotFrontmatter
snapshot_frontmatter snapshot = record {
  scope = snapshot.scope;
  project_key = snapshot.project_key;
  generated_at = snapshot.generated_at;
  source_generation = snapshot.source_generation;
}

abbrev pub snapshot_of : DreamSnapshotFrontmatter → Text → DreamSnapshot
snapshot_of frontmatter content = record {
  scope = frontmatter.scope;
  project_key = frontmatter.project_key;
  generated_at = frontmatter.generated_at;
  source_generation = frontmatter.source_generation;
  content = content;
}

abbrev pub durable_only : MemoryScope → Result (Unit {0})
durable_only session = err invalid_input
durable_only project = ok tt
durable_only global = ok tt

module _ (dream_yaml : Yaml DreamSnapshotFrontmatter) where
  unfoldable pub render_dream_snapshot : DreamSnapshot → Result Text
  render_dream_snapshot snapshot =
      or_err (dream_yaml.to_string (snapshot_frontmatter snapshot)) then λ yaml.
      ok (text "---\n" ++ (yaml ++ (text "---\n\n" ++ (trim snapshot.content ++ text "\n"))))

  unfoldable pub parse_dream_snapshot : Text → Result DreamSnapshot
  parse_dream_snapshot raw = or_err (strip_prefix (text "---\n") raw) then λ rest.
      or_err (split_once end_marker rest) then λ parts.
      or_err (dream_yaml.from_str parts.0) then λ frontmatter.
      validate_source_generation frontmatter.source_generation then λ _.
      fail_if (is_empty (trim parts.1) || ltb max_dream_content_chars (length (trim parts.1)))
        invalid_data
      after ok (snapshot_of frontmatter (trim parts.1))

abbrev pub marked_generation : Option Artifact → Result Text
marked_generation (some (scope_generation marker)) = validate_source_generation marker.generation
marked_generation _ = err invalid_data

module _ (env : Env) where
  abbrev pub unmarked_generation : ℕ → Result Text
  unmarked_generation count =
      if count == 0 then canonical_scope_generation env [] else err not_found

  abbrev generation_marker : PathBuf → Action (Option Artifact)
  generation_marker path d = (ok (find_path path d.artifacts), d)

  unfoldable pub current_scope_generation : MemoryScope → Option Text → Action Text
  current_scope_generation scope project_key = do
    durable ← lift (durable_only scope)
    key ← lift (require_project_key env scope project_key)
    found ← generation_marker (scope_generation_path env.resolver scope key)
    elim found [
      | none ↦ count_scope_memories env scope key >>= λ count. lift (unmarked_generation count)
      | some marker ↦ lift (marked_generation (some marker))
    ]

module _ (env : Env) (dream_yaml : Yaml DreamSnapshotFrontmatter) where
  -- The result for a file that exists, or does not.
  unfoldable pub dream_result :
      MemoryScope → Option Text → Text → Option Text → Result DreamReadResult
  dream_result scope key current_generation none = ok (record {
    scope = scope;
    project_key = key;
    current_generation = current_generation;
    stale = false;
    snapshot = none;
  })
  dream_result scope key current_generation (some raw) =
      parse_dream_snapshot dream_yaml raw then λ snapshot.
      fail_if
        (not (snapshot.scope =? scope)
          || not (snapshot.project_key =? key)
          || (scope =? global) && is_some snapshot.project_key)
        invalid_data
      after ok (record {
        scope = scope;
        project_key = key;
        current_generation = current_generation;
        stale = not (snapshot.source_generation =? current_generation);
        snapshot = some snapshot;
      })

  unfoldable pub read_dream_snapshot : MemoryScope → Option Text → Action DreamReadResult
  read_dream_snapshot scope project_key = do
    durable ← lift (durable_only scope)
    key ← lift (require_project_key env scope project_key)
    current_generation ← current_scope_generation env scope key
    found ← read_file (dream_path env.resolver scope key)
    lift (dream_result scope key current_generation found)

  unfoldable pub publish_dream_snapshot :
      MemoryScope → Option Text → Text → Text → Action DreamSnapshot
  publish_dream_snapshot scope project_key source_generation content = do
    durable ← lift (durable_only scope)
    key ← lift (require_project_key env scope project_key)
    generation ← lift (validate_source_generation source_generation)
    sized ← lift (
        fail_if (length (trim content) == 0 || ltb max_dream_content_chars (length (trim content)))
          invalid_input)
    docs ← list_memory_documents env scope key
    current_generation ← lift (canonical_scope_generation env docs)
    fresh ← lift (fail_if (not (generation =? current_generation)) invalid_input)
    now ← now_rfc3339 env
    let snapshot : DreamSnapshot = record {
      scope = scope;
      project_key = key;
      generated_at = now;
      source_generation = generation;
      content = trim content;
    }
    rendered ← lift (render_dream_snapshot dream_yaml snapshot)
    written ← atomic_write (dream_path env.resolver scope key) rendered
    return snapshot
