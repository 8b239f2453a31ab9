-- ===== src/Gardener/Inspect.antt =====
-- `inspect_scope` of memory_store/store.rs.
use jiandu.Prelude.{
  ℕ, suc, List, [], ◌∷◌, ◌++◌, Option, none, some, length, map, filter, filter_map, take,
}
use jiandu.Prelude.Classes.{◌=?◌, nat_eq, list_eq, option_eq}
use jiandu.Prelude.Order.{text_cmp}
use jiandu.Prelude.{Ordering}
use jiandu.Result.{ok}
use jiandu.Terms.{insert_all}
use jiandu.Text.{Text, text}
use jiandu.Types.{MemoryScope, DurableMemoryDocument, type_as_str, status_as_str}
use jiandu.Paths.{PathBuf, join, parent, file_name, indexes_dir, views_dir, state_dir}
use jiandu.Store.Disk.{
  Env, Disk, Action, Artifact, stale_candidates, last_reindex, ◌>>=◌, lift, find_path,
}
use jiandu.Store.Locate.{require_project_key, list_memory_documents}

pub record MemoryInspectResult : Type 0 where
  pub scope : MemoryScope
  pub project_key : Option Text
  pub total_memories : ℕ
  pub by_type : List (Text × ℕ)
  pub by_status : List (Text × ℕ)
  pub recent_ids : List Text
  pub view_files : List Text
  pub index_files : List Text
  pub state_files : List Text
  pub stale_candidate_count : ℕ
  pub last_reindex_at : Option Text
  pub topic_paths : List PathBuf

-- `*entry(key).or_insert(0) += 1` on a `BTreeMap`, in the order of its keys.
unfoldable pub count_one : Text → List (Text × ℕ) → List (Text × ℕ)
count_one key [] = (key, 1) ∷ []
count_one key ((other, n) ∷ counts) = elim (text_cmp key other) [
  | Ordering.lt ↦ (key, 1) ∷ (other, n) ∷ counts
  | Ordering.eq ↦ (other, suc n) ∷ counts
  | Ordering.gt ↦ (other, n) ∷ count_one key counts
]

unfoldable pub count_keys : List (Text × ℕ) → List Text → List (Text × ℕ)
count_keys counts [] = counts
count_keys counts (key ∷ keys) = count_keys (count_one key counts) keys

-- The names directly in a directory, of documents and of artifacts, in order.
abbrev pub names_in {ℓ} : {V : Type ℓ} → PathBuf → List (PathBuf × V) → List Text
names_in dir files =
    filter_map (λ (entry : PathBuf × _). file_name entry.0)
      (filter (λ (entry : PathBuf × _). parent entry.0 =? some dir) files)

abbrev pub directory : PathBuf → Disk → List Text
directory dir d = insert_all [] (names_in dir d.files ++ names_in dir d.artifacts)

abbrev pub candidate_count : Option Artifact → ℕ
candidate_count (some (stale_candidates index)) = length index.items
candidate_count _ = 0

abbrev pub reindexed_at : Option Artifact → Option Text
reindexed_at (some (last_reindex at count)) = some at
reindexed_at _ = none

module _ (env : Env) where
  unfoldable pub inspected :
      MemoryScope → Option Text → List DurableMemoryDocument → Disk → MemoryInspectResult
  inspected scope key docs d =
      let indexes = indexes_dir env.resolver scope key in
      let state = state_dir env.resolver scope key in
      record {
        scope = scope;
        project_key = key;
        total_memories = length docs;
        by_type =
            count_keys []
              (map (λ (doc : DurableMemoryDocument). type_as_str doc.frontmatter.memory_type) docs);
        by_status =
            count_keys []
              (map (λ (doc : DurableMemoryDocument). status_as_str doc.frontmatter.status) docs);
        recent_ids = map (λ (doc : DurableMemoryDocument). doc.frontmatter.id) (take 10 docs);
        view_files = directory (views_dir env.resolver scope key) d;
        index_files = directory indexes d;
        state_files = directory state d;
        stale_candidate_count =
            candidate_count (find_path (join indexes (text "stale_candidates.json")) d.artifacts);
        last_reindex_at =
            reindexed_at (find_path (join state (text "last_reindex.json")) d.artifacts);
        topic_paths = map (λ (doc : DurableMemoryDocument). doc.path) docs;
      }

  unfoldable pub inspect_scope : MemoryScope → Option Text → Action MemoryInspectResult
  inspect_scope scope project_key = lift (require_project_key env scope project_key) >>= λ key.
      list_memory_documents env scope key >>= λ docs. λ d. (ok (inspected scope key docs d), d)
