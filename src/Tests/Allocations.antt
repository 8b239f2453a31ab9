-- ===== src/Tests/Allocations.antt =====
-- The theorem that an id is allocated, at a scope where the first candidate is taken.
use jiandu.Prelude.{ℕ, zero, suc, ◌≡◌, refl, [], ◌∷◌, some, arith}
use jiandu.Result.{ok}
use jiandu.Text.{Text, text}
use jiandu.Types.{project}
use jiandu.Paths.{PathBuf}
use jiandu.Store.Disk.{Env, Disk}
use jiandu.Store.Locate.{allocate_memory_id}
use jiandu.Store.Locate.Allocate.{HasPath, allocate_memory_id-total}
use jiandu.Tests.{sample_env, empty_disk}

-- A hash that tells the first candidate from the others.
abbrev hash_of : ℕ → Text
hash_of zero = text "h"
hash_of (suc n) = text "g"

abbrev counting_env : Env
counting_env = record sample_env { hash_hex = λ scope key title timestamp counter. hash_of counter }

abbrev topic : Text → PathBuf
topic name =
    text "data"
    ∷ text "memory"
    ∷ text "v1"
    ∷ text "scopes"
    ∷ text "projects"
    ∷ text "p"
    ∷ text "topics"
    ∷ name
    ∷ []

abbrev taken_disk : Disk
taken_disk = record empty_disk { files = (topic (text "mem_t_h.md"), text "The fox.") ∷ [] }

paths :
    (n : ℕ)
    → (q : PathBuf) × HasPath counting_env project (some (text "p")) (text "A title") (text "t") n q
unfolding jiandu.Paths.topic_path jiandu.Validate.validate_memory_id jiandu.Text.trim
    jiandu.Text.Utf8.bytes jiandu.Paths.join jiandu.Paths.project_root jiandu.Paths.from_data_dir
    jiandu.Paths.components
paths zero = (topic (text "mem_t_h.md"), refl)
paths (suc n) = (topic (text "mem_t_g.md"), refl)

allocate_memory_id-total_example :
    (id : Text) × (d : Disk) × (allocate_memory_id counting_env project
        (some (text "p"))
        (text "A title")
        taken_disk
      ≡ (ok id, d))
unfolding jiandu.Paths.topic_path jiandu.Validate.validate_memory_id jiandu.Text.trim
    jiandu.Text.Utf8.bytes jiandu.Paths.join jiandu.Paths.project_root jiandu.Paths.from_data_dir
    jiandu.Paths.components jiandu.Store.Disk.find_path
allocate_memory_id-total_example =
    allocate_memory_id-total counting_env project (some (text "p")) (text "A title") taken_disk 1
      (topic (text "mem_t_g.md")) paths refl refl (omega arith)
