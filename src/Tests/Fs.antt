-- ===== src/Tests/Fs.antt =====
-- The theorems on writing through temporary files, at a concrete system.
use jiandu.Prelude.{refl, false, List, [], ◌∷◌, ◌==◌, none, some, if◌then◌else◌}
use jiandu.Result.{other}
use jiandu.Text.{Text, text}
use jiandu.Paths.{PathBuf}
use jiandu.AtomicFs.{Files, System, World, atomic_write, stage, atomic_write_batch}
use jiandu.AtomicFs.Single.{Outcome, atomic_write_complete}
use jiandu.AtomicFs.Commit.{BatchOutcome, IsUnchanged, atomic_write_batch_complete}

-- The tenth call fails: of a batch of two files, the rename of the second.
abbrev sample_system : System
sample_system = record {
  windows = false;
  process_id = 7;
  nanos = λ n. n;
  fault = λ n. if n == 9 then some other else none;
  torn = λ n bytes. [];
}

abbrev a_path : PathBuf
a_path = text "data" ∷ text "a.json" ∷ []

abbrev b_path : PathBuf
b_path = text "data" ∷ text "b.json" ∷ []

abbrev old_files : Files
old_files = (a_path, text "old") ∷ []

abbrev sample_writes : List (PathBuf × Text)
sample_writes = (a_path, text "new a") ∷ (b_path, text "new b") ∷ []

abbrev fresh : World
fresh = record { files = old_files; calls = 0; temp_seq = 3; seen = [] }

atomic_write_complete_example :
    Outcome sample_system old_files a_path
      (text "new a")
      (atomic_write sample_system a_path (text "new a") fresh)
atomic_write_complete_example =
    atomic_write_complete sample_system a_path (text "new a") old_files 3 refl

atomic_write_batch_complete_example :
    BatchOutcome sample_system old_files sample_writes
      (atomic_write_batch sample_system sample_writes fresh)
    × IsUnchanged sample_system old_files sample_writes
        (stage sample_system [] sample_writes fresh).0
        (atomic_write_batch sample_system sample_writes fresh).1.files
unfolding jiandu.Paths.split_last
atomic_write_batch_complete_example =
    atomic_write_batch_complete sample_system sample_writes old_files 3 refl (refl, (refl, tt))
