-- ===== src/AtomicFs/Single.antt =====
-- `atomic_write`.
use jiandu.Prelude.{
  ℕ, suc, ◌≡◌, ◌⊎◌, inl, inr, refl, sym, ap, ◌∙◌, subst, true, false, [], ◌∷◌, some,
}
use jiandu.Prelude.Classes.{nat_eq, list_eq}
use jiandu.Result.{Result, ok, err, ErrorKind}
use jiandu.Text.{Text}
use jiandu.Paths.{PathBuf, parent, file_name}
use jiandu.Store.Disk.{find_path, set_path, remove_path, find-set_same}
use jiandu.AtomicFs.{
  Files, System, World, next, ◌>>=◌, ◌>>◌, cleaned, or_clean, ignored, visit, named, temp_name,
  name_or, remove_file, create_parent, unique_temp_path, write_and_sync, atomic_rename,
  sync_parent_dir, atomic_write,
}
use jiandu.AtomicFs.Temp.{is_temp, temp-IsTemp}
use jiandu.AtomicFs.Crash.{
  IsComplete, set_temp-IsComplete, remove_temp-IsComplete, moved-IsComplete, Holds,
  create_dir-Holds, write_and_sync-Holds, remove_file-Holds, write_and_sync-content,
  atomic_rename_lem, sync_parent_dir-Holds, sync_parent_dir-ok, sync_parent_dir-files, weaken,
  weaken-All,
}

module _ (system : System) where
  module _ (old : Files) (path : PathBuf) (bytes : Text) where
    abbrev Untouched : World → Type 0
    Untouched = Holds (IsComplete old [])

    -- A write that succeeds has put the content there; one that fails has changed no file. Whatever
    -- happens, each file is as it was or complete, after every call.
    abbrev pub Outcome : Result (Unit {0}) × World → Type 0
    Outcome r =
        Holds (IsComplete old ((path, bytes) ∷ [])) r.1
        × (((r.0 ≡ ok tt) × (find_path path r.1.files ≡ some bytes))
            ⊎ ((e : ErrorKind) × (r.0 ≡ err e) × IsComplete old [] r.1.files))

    failed : (e : ErrorKind) (w : World) → Untouched w → Outcome (err e, w)
    failed e w h = (
      (weaken old ((path, bytes) ∷ []) w.files h.0, weaken-All old ((path, bytes) ∷ []) w.seen h.1),
      inr (e, refl, h.0),
    )

    -- What is left to do from the rename on.
    finished :
        (tmp : PathBuf) (w : World)
        → is_temp tmp ≡ true
        → system.windows ≡ false
        → find_path tmp w.files ≡ some bytes
        → Untouched w
        → Outcome (
            (or_clean (atomic_rename system tmp path) (ignored (remove_file system tmp))
                >> sync_parent_dir system path)
              w)
    finished tmp w temp unix found h = elim (atomic_rename_lem system tmp path bytes w unix found) [
      | inl e ↦
          let files = set_path path bytes (remove_path tmp w.files) in
          let moved : IsComplete old ((path, bytes) ∷ []) files =
            moved-IsComplete old ((path, bytes) ∷ []) tmp temp w.files path bytes (inl (refl, refl))
              (weaken old ((path, bytes) ∷ []) w.files h.0) in
          let after = sync_parent_dir system path (visit files w) in
          let done : Outcome after = (
            sync_parent_dir-Holds system (IsComplete old ((path, bytes) ∷ [])) path (visit files w)
                (moved, (moved, weaken-All old ((path, bytes) ∷ []) w.seen h.1)),
            inl (
              sync_parent_dir-ok system (IsComplete old []) path (visit files w),
              ap (find_path path)
                    (sync_parent_dir-files system (IsComplete old []) path (visit files w))
                  ∙ find-set_same path bytes (remove_path tmp w.files),
            ),
          ) in
          subst
            (λ r. Outcome (
              next (cleaned r (ignored (remove_file system tmp)))
                (λ u. sync_parent_dir system path)))
            (sym e) done
      | inr (k, e) ↦
          subst
            (λ r. Outcome (
              next (cleaned r (ignored (remove_file system tmp)))
                (λ u. sync_parent_dir system path)))
            (sym e)
            (failed k (remove_file system tmp (visit w.files w)).1 (
              remove_file-Holds system (IsComplete old []) tmp (set_temp-IsComplete old [] tmp temp)
                (remove_temp-IsComplete old [] tmp temp) (visit w.files w) (h.0, (h.0, h.1))))
    ]

    staged :
        (tmp : PathBuf)
        → is_temp tmp ≡ true
        → system.windows ≡ false
        → (r : Result (Unit {0}) × World) → Untouched r.1
        → (r.0 ≡ ok tt → find_path tmp r.1.files ≡ some bytes)
        → Outcome (
            next (cleaned r (ignored (remove_file system tmp))) (λ u.
              or_clean (atomic_rename system tmp path) (ignored (remove_file system tmp))
              >> sync_parent_dir system path))
    staged tmp temp unix (ok u, w) h content = finished tmp w temp unix (content refl) h
    staged tmp temp unix (err e, w) h content = failed e (remove_file system tmp w).1 (
        remove_file-Holds system (IsComplete old []) tmp (set_temp-IsComplete old [] tmp temp)
          (remove_temp-IsComplete old [] tmp temp) w h)

    temp_of : World → PathBuf
    temp_of w = named path (
        temp_name (name_or (file_name path)) system.process_id (system.nanos w.temp_seq) w.temp_seq)

    opened :
        system.windows ≡ false
        → (r : Result (Unit {0}) × World) → Untouched r.1
        → Outcome (
            next r (λ u. unique_temp_path system path >>= λ tmp.
            or_clean (write_and_sync system tmp bytes) (ignored (remove_file system tmp))
            >> (or_clean (atomic_rename system tmp path) (ignored (remove_file system tmp))
                >> sync_parent_dir system path)))
    unfolding unique_temp_path temp_of
    opened unix (err e, w) h = failed e w h
    opened unix (ok u, w) h =
        let tmp = temp_of w in
        let temp =
          temp-IsTemp path (name_or (file_name path)) system.process_id (system.nanos w.temp_seq)
            w.temp_seq in
        let w' = record w { temp_seq = suc w.temp_seq } in
        staged tmp temp unix (write_and_sync system tmp bytes w')
          (write_and_sync-Holds system (IsComplete old []) tmp (set_temp-IsComplete old [] tmp temp)
            (remove_temp-IsComplete old [] tmp temp) bytes w' h)
          (write_and_sync-content system tmp bytes w')

  -- On Unix, a write that succeeds has put the content there, and one that fails has changed no file
  -- but temporary ones. After every call, so also where a crash ends the write, each other file is as
  -- it was or is the whole new one.
  pub atomic_write_complete :
      (path : PathBuf) (bytes : Text) (files : Files) (seq : ℕ)
      → system.windows ≡ false
      → Outcome files path bytes (
          atomic_write system path bytes
            (record { files = files; calls = 0; temp_seq = seq; seen = [] }))
  unfolding atomic_write
  atomic_write_complete path bytes files seq unix =
      let w : World = record { files = files; calls = 0; temp_seq = seq; seen = [] } in
      opened files path bytes unix (create_parent system path w)
        (create_dir-Holds system (IsComplete files []) (parent path) w (λ q n. inl refl, tt))
