-- ===== src/Tests/Kept.antt =====
-- The theorems that no file is lost, at a concrete disk.
use jiandu.Prelude.{arith, [], ◌∷◌, none, some}
use jiandu.Text.{text}
use jiandu.Types.{project, active, archived}
use jiandu.Store.Steps.{Steps, KeepsFiles}
use jiandu.Store.Artifacts.{refresh_scope_artifacts}
use jiandu.Store.Artifacts.Apart.{IsBeside, refresh_scope_artifacts-IsBeside}
use jiandu.Store.Status.{purge_memories}
use jiandu.Store.Merge.{MergeRequest, merge_memory_with_retrieval}
use jiandu.Store.Keeps.{purge_memories_kept}
use jiandu.Store.Merge.Kept.{merge_memory_kept}
use jiandu.Tests.{sample_env, sample_disk}

purge_memories_kept_example :
    KeepsFiles sample_disk
      (purge_memories sample_env none
        (some (active ∷ []))
        none
        project
        (some (text "p"))
        archived
        none
        sample_disk).1
purge_memories_kept_example =
    purge_memories_kept sample_env none (some (active ∷ [])) none project (some (text "p")) archived
      none sample_disk

abbrev sample_merge : MergeRequest
sample_merge = record {
  content = text "The dog.";
  tags = [];
  retrieval = record { keywords = []; entities = [] };
  session_id = none;
  actor = text "main-model";
}

merge_memory_kept_example :
    KeepsFiles sample_disk
      (merge_memory_with_retrieval sample_env
        (text "m1")
        (some (text "p"))
        sample_merge
        (text "m2" ∷ [])
        sample_disk).1
merge_memory_kept_example =
    merge_memory_kept sample_env (text "m1") (some (text "p")) sample_merge (text "m2" ∷ [])
      sample_disk

refresh_scope_artifacts-IsBeside_example :
    Steps (IsBeside sample_env) (refresh_scope_artifacts sample_env project (some (text "p")))
refresh_scope_artifacts-IsBeside_example =
    refresh_scope_artifacts-IsBeside sample_env project (some (text "p")) (λ e. ground arith)
