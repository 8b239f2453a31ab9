-- ===== src/AtomicFs/Crash.antt =====
-- What a crash during `atomic_write` leaves: a file is always as it was, or complete.
use jiandu.Prelude.{
  suc, ◌≡◌, ◌≢◌, ◌⊎◌, inl, inr, refl, sym, ap, ◌∙◌, subst, true, false, List, [], ◌∷◌, Option, none,
  some, Bool-cases, Option-cases, All, false≢true,
}
use jiandu.Prelude.Classes.{◌=?◌, nat_eq, list_eq}
use jiandu.Result.{Result, ok, err, ErrorKind}
use jiandu.Text.{Text}
use jiandu.Paths.{PathBuf, parent}
use jiandu.Store.Disk.{
  find_path, set_path, remove_path, find-set_same, find-set_other, find-remove_other,
}
use jiandu.AtomicFs.{
  Files, System, World, Io, next, visit, settle, rename_found, rename_unless, call, create,
  write_all, remove_file, create_dir, write_and_sync, retry_rename, atomic_rename, sync_dir,
  sync_parent_dir, synced,
}
use jiandu.AtomicFs.Temp.{is_temp}

-- The content is one that the writes have for the path.
abbrev pub IsWritten : List (PathBuf × Text) → PathBuf → Option Text → Type 0
IsWritten [] q found = ⊥
IsWritten ((path, bytes) ∷ writes) q found =
    ((q ≡ path) × (found ≡ some bytes)) ⊎ IsWritten writes q found

-- Every file that is not a temporary one is as it was, or is a whole new one.
abbrev pub IsComplete : Files → List (PathBuf × Text) → Files → Type 0
IsComplete old writes files =
    (q : PathBuf)
    → is_temp q ≡ false
    → (find_path q files ≡ find_path q old) ⊎ IsWritten writes q (find_path q files)

pub temp_ne : (tmp q : PathBuf) → is_temp tmp ≡ true → is_temp q ≡ false → tmp ≢ q
temp_ne tmp q t f e = false≢true (sym f ∙ ap is_temp (sym e) ∙ t)

module _ (old : Files) (writes : List (PathBuf × Text)) (tmp : PathBuf)
    (temp : is_temp tmp ≡ true) where
  same_found :
      (files files' : Files) (q : PathBuf)
      → find_path q files' ≡ find_path q files
      → (find_path q files ≡ find_path q old) ⊎ IsWritten writes q (find_path q files)
      → (find_path q files' ≡ find_path q old) ⊎ IsWritten writes q (find_path q files')
  same_found files files' q e h =
      subst (λ found. (found ≡ find_path q old) ⊎ IsWritten writes q found) (sym e) h

  pub set_temp-IsComplete :
      (files : Files) (t : Text)
      → IsComplete old writes files
      → IsComplete old writes (set_path tmp t files)
  set_temp-IsComplete files t h q n =
      same_found files (set_path tmp t files) q
        (find-set_other tmp q t files (temp_ne tmp q temp n)) (h q n)

  pub remove_temp-IsComplete :
      (files : Files) → IsComplete old writes files → IsComplete old writes (remove_path tmp files)
  remove_temp-IsComplete files h q n =
      same_found files (remove_path tmp files) q
        (find-remove_other tmp q files (temp_ne tmp q temp n)) (h q n)

  pub moved-IsComplete :
      (files : Files) (path : PathBuf) (bytes : Text)
      → IsWritten writes path (some bytes)
      → IsComplete old writes files
      → IsComplete old writes (set_path path bytes (remove_path tmp files))
  moved-IsComplete files path bytes given h q n = elim (Bool-cases (path =? q)) [
    | inl e ↦ inr (
        subst (λ p. IsWritten writes p (find_path p (set_path path bytes (remove_path tmp files))))
          ((list_eq.beq_iff path q).0 e)
          (rw (find-set_same path bytes (remove_path tmp files)) given))
    | inr e ↦
        same_found (remove_path tmp files) (set_path path bytes (remove_path tmp files)) q
          (find-set_other path q bytes (remove_path tmp files)
            (λ f. false≢true (sym e ∙ (list_eq.beq_iff path q).1 f)))
          (remove_temp-IsComplete files h q n)
  ]

-- A file that is complete also is so for more writes.
pub weaken :
    (old : Files) (writes : List (PathBuf × Text)) (files : Files)
    → IsComplete old [] files
    → IsComplete old writes files
weaken old writes files h q n = elim (h q n) [ inl e ↦ inl e | inr e ↦ absurd e ]

pub weaken-All :
    (old : Files) (writes : List (PathBuf × Text)) (seen : List Files)
    → All (IsComplete old []) seen
    → All (IsComplete old writes) seen
weaken-All old writes [] h = tt
weaken-All old writes (files ∷ seen) h =
    (weaken old writes files h.0, weaken-All old writes seen h.1)

module _ (P : Files → Type 0) where
  -- It holds now, and after each call so far.
  abbrev pub Holds : World → Type 0
  Holds w = P w.files × All P w.seen

  pub settle-Holds :
      (fault : Option ErrorKind) (good bad : Files) (w : World)
      → P good
      → P bad
      → Holds w
      → Holds (settle fault good bad w).1
  settle-Holds none good bad w g b h = (g, (g, h.1))
  settle-Holds (some e) good bad w g b h = (b, (b, h.1))

  pub next-Holds :
      {A B : Type 0} (r : Result A × World) (f : A → Io B)
      → Holds r.1
      → ((a : A) (w : World) → Holds w → Holds (f a w).1)
      → Holds (next r f).1
  next-Holds (ok a, w) f h k = k a w h
  next-Holds (err e, w) f h k = h

pub next-ok :
    (r : Result (Unit {0}) × World) (f : Unit {0} → Io (Unit {0})) (Q : World → Type 0)
    → ((x : World) → (f tt x).0 ≡ ok tt → Q (f tt x).1)
    → (next r f).0 ≡ ok tt
    → Q (next r f).1
next-ok (ok u, x) f Q k h = k x h
next-ok (err e, x) f Q k h = cc

settle_same :
    (fault : Option ErrorKind) (w : World) → (settle fault w.files w.files w).1.files ≡ w.files
settle_same none w = refl
settle_same (some e) w = refl

module _ (system : System) where
  then_call :
      (fault : Option ErrorKind) (good bad : Files) (w : World)
      → (next (settle fault good bad w) (λ u. call system)).0 ≡ ok tt
      → (next (settle fault good bad w) (λ u. call system)).1.files ≡ good
  then_call none good bad w h = settle_same (system.fault (suc w.calls)) (visit good w)
  then_call (some e) good bad w h = cc

  module _ (P : Files → Type 0) (tmp : PathBuf)
      (put : (files : Files) (t : Text) → P files → P (set_path tmp t files))
      (gone : (files : Files) → P files → P (remove_path tmp files)) where
    pub call-Holds : (w : World) → Holds P w → Holds P (call system w).1
    call-Holds w h = settle-Holds P (system.fault w.calls) w.files w.files w h.0 h.0 h

    pub write_and_sync-Holds :
        (bytes : Text) (w : World) → Holds P w → Holds P (write_and_sync system tmp bytes w).1
    unfolding write_and_sync
    write_and_sync-Holds bytes w h =
        next-Holds P (create system tmp w) _
          (settle-Holds P (system.fault w.calls) (set_path tmp [] w.files) w.files w
            (put w.files [] h.0) h.0 h)
          (λ u x hx.
            next-Holds P (write_all system tmp bytes x) _
              (settle-Holds P (system.fault x.calls) (set_path tmp bytes x.files)
                (set_path tmp (system.torn x.calls bytes) x.files) x (put x.files bytes hx.0)
                (put x.files (system.torn x.calls bytes) hx.0) hx)
              (λ v y hy. call-Holds y hy))

    pub remove_file-Holds : (w : World) → Holds P w → Holds P (remove_file system tmp w).1
    remove_file-Holds w h =
        settle-Holds P (system.fault w.calls) (remove_path tmp w.files) w.files w (gone w.files h.0)
          h.0 h

  -- What was written is there when the write succeeds.
  pub write_and_sync-content :
      (tmp : PathBuf) (bytes : Text) (w : World)
      → (write_and_sync system tmp bytes w).0 ≡ ok tt
      → find_path tmp (write_and_sync system tmp bytes w).1.files ≡ some bytes
  unfolding write_and_sync
  write_and_sync-content tmp bytes w h =
      next-ok (create system tmp w) _ (λ x. find_path tmp x.files ≡ some bytes)
        (λ x hx.
          rw
            (then_call (system.fault x.calls) (set_path tmp bytes x.files)
              (set_path tmp (system.torn x.calls bytes) x.files) x hx)
            (find-set_same tmp bytes x.files))
        h

  -- A failing rename leaves the files alone; one that succeeds has moved the content. Unix alone.
  pub atomic_rename_lem :
      (tmp path : PathBuf) (bytes : Text) (w : World)
      → system.windows ≡ false
      → find_path tmp w.files ≡ some bytes
      → (atomic_rename system tmp path w
          ≡ (ok tt, visit (set_path path bytes (remove_path tmp w.files)) w))
        ⊎ ((e : ErrorKind) × (atomic_rename system tmp path w ≡ (err e, visit w.files w)))
  unfolding atomic_rename
  atomic_rename_lem tmp path bytes w unix found = elim (Option-cases (system.fault w.calls)) [
    | inl f ↦ inl (
        ap (λ r. retry_rename system r tmp path)
          (ap (λ o. rename_unless o tmp path w) f ∙ ap (λ o. rename_found tmp path o w) found))
    | inr (e, f) ↦ inr (
      e,
      ap (λ r. retry_rename system r tmp path) (ap (λ o. rename_unless o tmp path w) f)
          ∙ rw unix refl,
    )
  ]

  module _ (P : Files → Type 0) where
    pub create_dir-Holds :
        (dir : Option PathBuf) (w : World) → Holds P w → Holds P (create_dir system dir w).1
    create_dir-Holds none w h = h
    create_dir-Holds (some dir) w h =
        settle-Holds P (system.fault w.calls) w.files w.files w h.0 h.0 h

    synced-Holds : (r : Result (Unit {0}) × World) → Holds P r.1 → Holds P (synced system r)
    synced-Holds (ok u, x) k = settle-Holds P (system.fault x.calls) x.files x.files x k.0 k.0 k
    synced-Holds (err e, x) k = k

    sync_dir-Holds :
        (dir : Option PathBuf) (w : World) → Holds P w → Holds P (sync_dir system dir w).1
    sync_dir-Holds none w h = h
    sync_dir-Holds (some dir) w h =
        synced-Holds (call system w)
          (settle-Holds P (system.fault w.calls) w.files w.files w h.0 h.0 h)

    pub sync_parent_dir-Holds :
        (path : PathBuf) (w : World) → Holds P w → Holds P (sync_parent_dir system path w).1
    unfolding sync_parent_dir
    sync_parent_dir-Holds path w h = sync_dir-Holds (parent path) w h

    pub sync_parent_dir-ok :
        (path : PathBuf) (w : World) → (sync_parent_dir system path w).0 ≡ ok tt
    unfolding sync_parent_dir
    sync_parent_dir-ok path w = sync_dir-ok (parent path)
      where
        sync_dir-ok : (dir : Option PathBuf) → (sync_dir system dir w).0 ≡ ok tt
        sync_dir-ok none = refl
        sync_dir-ok (some dir) = refl

    pub sync_parent_dir-files :
        (path : PathBuf) (w : World) → (sync_parent_dir system path w).1.files ≡ w.files
    unfolding sync_parent_dir
    sync_parent_dir-files path w = sync_dir-files (parent path)
      where
        again : (r : Result (Unit {0}) × World) → (synced system r).files ≡ r.1.files
        again (ok u, x) = settle_same (system.fault x.calls) x
        again (err e, x) = refl

        sync_dir-files : (dir : Option PathBuf) → (sync_dir system dir w).1.files ≡ w.files
        sync_dir-files none = refl
        sync_dir-files (some dir) = again (call system w) ∙ settle_same (system.fault w.calls) w
