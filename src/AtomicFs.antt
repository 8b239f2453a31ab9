-- ===== src/AtomicFs.antt =====
-- crates/jiandu-memory/src/atomic_fs.rs: writing one file, or several, through temporary files. A call
-- of the file system may fail; the files after each call are recorded, since a crash leaves one of
-- these states.
pub mod Temp
pub mod Crash
pub mod Single
pub mod Batch
pub mod Commit
use jiandu.Prelude.{
  ℕ, suc, Bool, true, false, ◌&&◌, List, [], ◌∷◌, ◌++◌, Option, none, some, if◌then◌else◌, is_some,
}
use jiandu.Prelude.Classes.{nat_eq, list_eq, contains}
use jiandu.Result.{Result, ok, err, ErrorKind, not_found}
use jiandu.Text.{Text, text}
use jiandu.Query.Cursor.{to_string}
use jiandu.Paths.{PathBuf, split_last, file_name, parent}
use jiandu.Store.Disk.{find_path, set_path, remove_path}

abbrev pub Files : Type 0
Files = List (PathBuf × Text)

-- The choices of the system: whether the n-th call fails, and what a write that fails has written.
pub record System : Type 0 where
  pub windows : Bool
  pub process_id : ℕ
  pub nanos : ℕ → ℕ
  pub fault : ℕ → Option ErrorKind
  pub torn : ℕ → Text → Text

-- `seen` holds the files after each call, the latest first.
pub record World : Type 0 where
  pub files : Files
  pub calls : ℕ
  pub temp_seq : ℕ
  pub seen : List Files

abbrev pub Io : Type 0 → Type 0
Io A = World → Result A × World

abbrev pub next : {A B : Type 0} → Result A × World → (A → Io B) → Result B × World
next (ok a, w) f = f a w
next (err e, w) f = (err e, w)

infixl 5 ◌>>=◌ ◌>>◌
abbrev pub ◌>>=◌ : {A B : Type 0} → Io A → (A → Io B) → Io B
(m >>= f) w = next (m w) f

abbrev pub ◌>>◌ : {B : Type 0} → Io (Unit {0}) → Io B → Io B
(m >> k) w = next (m w) (λ _. k)

abbrev pub return : {A : Type 0} → A → Io A
return a w = (ok a, w)

-- `if let Err(err) = .. { cleanup; return Err(err) }`
abbrev pub cleaned : Result (Unit {0}) × World → Io (Unit {0}) → Result (Unit {0}) × World
cleaned (ok done, w) cleanup = (ok done, w)
cleaned (err e, w) cleanup = (err e, (cleanup w).1)

abbrev pub or_clean : Io (Unit {0}) → Io (Unit {0}) → Io (Unit {0})
or_clean m cleanup w = cleaned (m w) cleanup

-- `let _ = ..`
abbrev pub ignored : Io (Unit {0}) → Io (Unit {0})
ignored m w = (ok tt, (m w).1)

abbrev pub visit : Files → World → World
visit files w = record w { files = files; calls = suc w.calls; seen = files ∷ w.seen }

abbrev pub settle : Option ErrorKind → Files → Files → World → Result (Unit {0}) × World
settle none good bad w = (ok tt, visit good w)
settle (some e) good bad w = (err e, visit bad w)

abbrev pub rename_found : PathBuf → PathBuf → Option Text → World → Result (Unit {0}) × World
rename_found from to none w = (err not_found, visit w.files w)
rename_found from to (some t) w = (ok tt, visit (set_path to t (remove_path from w.files)) w)

abbrev pub rename_unless : Option ErrorKind → PathBuf → PathBuf → World → Result (Unit {0}) × World
rename_unless (some e) from to w = (err e, visit w.files w)
rename_unless none from to w = rename_found from to (find_path from w.files) w

-- `.<name>.<pid>.<nanos>.<seq>.tmp`
abbrev pub temp_name : Text → ℕ → ℕ → ℕ → Text
temp_name name process_id nanos seq =
    text "."
    ++ (name
        ++ (text "."
            ++ (to_string process_id
                ++ (text "."
                    ++ (to_string nanos ++ (text "." ++ (to_string seq ++ text ".tmp")))))))

abbrev pub dir_of : PathBuf → Option Text → Option (PathBuf × Text) → PathBuf
dir_of path none split = path
dir_of path (some name) none = []
dir_of path (some name) (some (init, last)) = init

-- `with_file_name`
abbrev pub named : PathBuf → Text → PathBuf
named path name = dir_of path (file_name path) (split_last path) ++ name ∷ []

abbrev pub name_or : Option Text → Text
name_or none = text "artifact"
name_or (some name) = name

module _ (system : System) where
  -- A call that leaves the files as they are.
  abbrev pub call : Io (Unit {0})
  call w = settle (system.fault w.calls) w.files w.files w

  abbrev pub create : PathBuf → Io (Unit {0})
  create path w = settle (system.fault w.calls) (set_path path [] w.files) w.files w

  abbrev pub write_all : PathBuf → Text → Io (Unit {0})
  write_all path bytes w =
      settle (system.fault w.calls) (set_path path bytes w.files)
        (set_path path (system.torn w.calls bytes) w.files) w

  abbrev pub remove_file : PathBuf → Io (Unit {0})
  remove_file path w = settle (system.fault w.calls) (remove_path path w.files) w.files w

  abbrev pub rename : PathBuf → PathBuf → Io (Unit {0})
  rename from to w = rename_unless (system.fault w.calls) from to w

  -- `if let Some(parent) = path.parent() { fs::create_dir_all(parent).await?; }`
  abbrev pub create_dir : Option PathBuf → Io (Unit {0})
  create_dir none = return tt
  create_dir (some dir) = call

  abbrev pub create_parent : PathBuf → Io (Unit {0})
  create_parent path = create_dir (parent path)

  unfoldable pub unique_temp_path : PathBuf → Io PathBuf
  unique_temp_path path w = (
    ok (
        named path (
          temp_name (name_or (file_name path)) system.process_id (system.nanos w.temp_seq)
            w.temp_seq)),
    record w { temp_seq = suc w.temp_seq },
  )

  unfoldable pub write_and_sync : PathBuf → Text → Io (Unit {0})
  write_and_sync tmp bytes = create tmp >> (write_all tmp bytes >> call)

  abbrev pub retry_rename :
      Result (Unit {0}) × World → PathBuf → PathBuf → Result (Unit {0}) × World
  retry_rename (ok done, w) from to = (ok done, w)
  retry_rename (err e, w) from to =
      if system.windows && is_some (find_path to w.files)
      then rename from to (remove_file to w).1
      else (err e, w)

  unfoldable pub atomic_rename : PathBuf → PathBuf → Io (Unit {0})
  atomic_rename from to w = retry_rename (rename from to w) from to

  -- Opening the directory, and its `sync_all` where that succeeds.
  abbrev pub synced : Result (Unit {0}) × World → World
  synced (ok done, w) = (call w).1
  synced (err e, w) = w

  abbrev pub sync_dir : Option PathBuf → Io (Unit {0})
  sync_dir none w = (ok tt, w)
  sync_dir (some dir) w = (ok tt, synced (call w))

  unfoldable pub sync_parent_dir : PathBuf → Io (Unit {0})
  sync_parent_dir path = sync_dir (parent path)

  unfoldable pub atomic_write : PathBuf → Text → Io (Unit {0})
  atomic_write path bytes = do
    create_parent path
    tmp ← unique_temp_path path
    or_clean (write_and_sync tmp bytes) (ignored (remove_file tmp))
    or_clean (atomic_rename tmp path) (ignored (remove_file tmp))
    sync_parent_dir path

  unfoldable pub cleanup_temps : List (PathBuf × PathBuf) → Io (Unit {0})
  cleanup_temps [] = return tt
  cleanup_temps ((tmp, path) ∷ staged) = ignored (remove_file tmp) >> cleanup_temps staged

  -- Phase 1, with the pairs staged so far.
  unfoldable pub stage :
      List (PathBuf × PathBuf) → List (PathBuf × Text) → Io (List (PathBuf × PathBuf))
  stage staged [] = return staged
  stage staged ((path, bytes) ∷ writes) = do
    or_clean (create_parent path) (cleanup_temps staged)
    tmp ← unique_temp_path path
    or_clean (write_and_sync tmp bytes) (ignored (remove_file tmp) >> cleanup_temps staged)
    stage (staged ++ (tmp, path) ∷ []) writes

  -- Phase 2.
  unfoldable pub publish : List (PathBuf × PathBuf) → Io (Unit {0})
  publish [] = return tt
  publish ((tmp, path) ∷ staged) =
      or_clean (atomic_rename tmp path) (cleanup_temps ((tmp, path) ∷ staged)) >> publish staged

  abbrev pub is_done : List PathBuf → Option PathBuf → Bool
  is_done done none = true
  is_done done (some dir) = contains done dir

  abbrev pub mark : List PathBuf → Option PathBuf → List PathBuf
  mark done none = done
  mark done (some dir) = if contains done dir then done else done ++ dir ∷ []

  abbrev pub sync_new : PathBuf → Bool → Io (Unit {0})
  sync_new path true = return tt
  sync_new path false = sync_parent_dir path

  -- Phase 3: each distinct parent directory once.
  unfoldable pub sync_parents : List PathBuf → List (PathBuf × PathBuf) → Io (Unit {0})
  sync_parents done [] = return tt
  sync_parents done ((tmp, path) ∷ staged) =
      sync_new path (is_done done (parent path)) >> sync_parents (mark done (parent path)) staged

  unfoldable pub atomic_write_batch : List (PathBuf × Text) → Io (Unit {0})
  atomic_write_batch writes = do staged ← stage [] writes; publish staged; sync_parents [] staged
