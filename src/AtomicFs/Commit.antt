-- ===== src/AtomicFs/Commit.antt =====
-- The whole of `atomic_write_batch`: what a failure or a crash leaves.
use jiandu.Prelude.{
  ℕ, suc, ◌+◌, ◌≡◌, ◌⊎◌, inl, inr, refl, sym, ap, ◌∙◌, subst, Bool, true, false, List, [], ◌∷◌,
  ◌++◌, Option, some, arith, All, length, length-append, append_assoc, append-nil, Bool-cases,
  false≢true,
}
use jiandu.Prelude.Classes.{◌=?◌, nat_eq, list_eq}
use jiandu.Result.{Result, ok, err}
use jiandu.Text.{Text}
use jiandu.Paths.{PathBuf, parent, file_name, split_last}
use jiandu.Store.Disk.{
  find_path, set_path, remove_path, find-set_same, find-set_other, find-remove_other,
}
use jiandu.AtomicFs.{
  Files, System, World, Io, next, ◌>>=◌, ◌>>◌, cleaned, or_clean, ignored, visit, named, temp_name,
  name_or, remove_file, create_parent, unique_temp_path, write_and_sync, cleanup_temps, stage,
  publish, sync_parents, is_done, mark, sync_new, atomic_write_batch,
}
use jiandu.AtomicFs.Temp.{is_temp, place, temp-IsTemp, temp-place}
use jiandu.AtomicFs.Crash.{
  IsWritten, IsComplete, temp_ne, set_temp-IsComplete, remove_temp-IsComplete, Holds,
  create_dir-Holds, write_and_sync-Holds, remove_file-Holds, write_and_sync-content,
  atomic_rename_lem, sync_parent_dir-files, weaken, weaken-All,
}
use jiandu.AtomicFs.Batch.{
  IsStaged, IsStaged-kept, IsStaged-snoc, IsStaged-temps, renamed-IsStaged, create_dir-Unmoved,
  write_and_sync-Unmoved, cleanup_temps-Kept, sync_parents-Kept, publish-Kept,
}

module _ (system : System) (old : Files) (k : ℕ) (all : List (PathBuf × Text)) where
  abbrev Untouched : World → Type 0
  Untouched = Holds (IsComplete old [])

  -- Staging changes no file but temporary ones, and when it succeeds every write is staged.
  abbrev StageOutcome : Result (List (PathBuf × PathBuf)) × World → Type 0
  StageOutcome (ok staged, w) = IsStaged k staged all w.files × Untouched w
  StageOutcome (err e, w) = Untouched w

  module _ (path : PathBuf) (bytes : Text) (staged : List (PathBuf × PathBuf))
      (done : List (PathBuf × Text)) where
    -- What the rest of the staging has to meet.
    abbrev Continues : PathBuf → Io (List (PathBuf × PathBuf)) → Type 0
    Continues tmp rest =
        (x : World)
        → x.temp_seq ≡ suc (k + length staged)
        → IsStaged k (staged ++ (tmp, path) ∷ []) (done ++ (path, bytes) ∷ []) x.files
        → Untouched x
        → StageOutcome (rest x)

    wrote :
        (tmp : PathBuf)
        → is_temp tmp ≡ true
        → place tmp ≡ k + length staged
        → (rest : Io (List (PathBuf × PathBuf))) → Continues tmp rest
        → (r : Result (Unit {0}) × World) → r.1.temp_seq ≡ suc (k + length staged)
        → IsStaged k staged done r.1.files
        → Untouched r.1
        → (r.0 ≡ ok tt → find_path tmp r.1.files ≡ some bytes)
        → StageOutcome (
            next
              (cleaned r (ignored (remove_file system tmp) >> cleanup_temps system staged))
              (λ u. rest))
    wrote tmp t p rest cont (ok u, x) seq h kept content =
        cont x seq (IsStaged-snoc k staged done x.files tmp path bytes h t p (content refl)) kept
    wrote tmp t p rest cont (err e, x) seq h kept content =
        cleanup_temps-Kept system old [] staged (remove_file system tmp x).1
          (IsStaged-temps k staged done x.files h)
          (remove_file-Holds system (IsComplete old []) tmp (set_temp-IsComplete old [] tmp t)
            (remove_temp-IsComplete old [] tmp t) x kept)

    temp_of : World → PathBuf
    temp_of w = named path (
        temp_name (name_or (file_name path)) system.process_id (system.nanos w.temp_seq) w.temp_seq)

    opened :
        (rest : PathBuf → Io (List (PathBuf × PathBuf)))
        → ((tmp : PathBuf) → Continues tmp (rest tmp))
        → (r : Result (Unit {0}) × World) → r.1.temp_seq ≡ k + length staged
        → IsStaged k staged done r.1.files
        → Untouched r.1
        → StageOutcome (
            next (cleaned r (cleanup_temps system staged)) (λ u.
              unique_temp_path system path >>= λ tmp.
              or_clean
                (write_and_sync system tmp bytes)
                (ignored (remove_file system tmp) >> cleanup_temps system staged)
              >> rest tmp))
    unfolding unique_temp_path temp_of split_last
    opened rest cont (err e, x) seq h kept =
        cleanup_temps-Kept system old [] staged x (IsStaged-temps k staged done x.files h) kept
    opened rest cont (ok u, x) seq h kept =
        let tmp = temp_of x in
        let name = name_or (file_name path) in
        let t = temp-IsTemp path name system.process_id (system.nanos x.temp_seq) x.temp_seq in
        let p = temp-place path name system.process_id (system.nanos x.temp_seq) x.temp_seq in
        let y = record x { temp_seq = suc x.temp_seq } in
        wrote tmp t (p ∙ seq) (rest tmp) (cont tmp) (write_and_sync system tmp bytes y)
          ((write_and_sync-Unmoved system tmp [] bytes y (temp_ne tmp [] t refl)).0 ∙ ap suc seq)
          (IsStaged-kept (place tmp) k staged done x.files
            (write_and_sync system tmp bytes y).1.files (inr (omega (arith, p, seq)))
            (λ q tq away.
              (write_and_sync-Unmoved system tmp q bytes y (λ e. away (sym (ap place e)))).1)
            h)
          (write_and_sync-Holds system (IsComplete old []) tmp (set_temp-IsComplete old [] tmp t)
            (remove_temp-IsComplete old [] tmp t) bytes y kept)
          (write_and_sync-content system tmp bytes y)

  stage_lem :
      (staged : List (PathBuf × PathBuf)) (done writes : List (PathBuf × Text)) (w : World)
      → all ≡ done ++ writes
      → w.temp_seq ≡ k + length staged
      → IsStaged k staged done w.files
      → Untouched w
      → StageOutcome (stage system staged writes w)
  unfolding stage
  stage_lem staged done [] w e seq h kept =
      (subst (λ writes. IsStaged k staged writes w.files) (sym (append-nil done) ∙ sym e) h, kept)
  stage_lem staged done ((path, bytes) ∷ writes) w e seq h kept =
      opened path bytes staged done (λ tmp. stage system (staged ++ (tmp, path) ∷ []) writes)
        (λ tmp x next_seq next_h next_kept.
          stage_lem (staged ++ (tmp, path) ∷ []) (done ++ (path, bytes) ∷ []) writes x
            (e ∙ sym (append_assoc done ((path, bytes) ∷ []) writes))
            (omega (arith, next_seq, length-append {0} staged ((tmp, path) ∷ []))) next_h next_kept)
        (create_parent system path w) ((create_dir-Unmoved system [] (parent path) w).0 ∙ seq)
        (IsStaged-kept (k + length staged) k staged done w.files
          (create_parent system path w).1.files (inr (omega arith))
          (λ q tq away. (create_dir-Unmoved system q (parent path) w).1) h)
        (create_dir-Holds system (IsComplete old []) (parent path) w kept)

-- One of the writes is to the path.
abbrev pub IsTarget : PathBuf → List (PathBuf × Text) → Type 0
IsTarget q [] = ⊥
IsTarget q ((path, bytes) ∷ writes) = (q ≡ path) ⊎ IsTarget q writes

-- The writes are to no temporary path, and each is one of them all.
abbrev IsGiven : List (PathBuf × Text) → List (PathBuf × Text) → Type 0
IsGiven all rest =
    All
      (λ (write : PathBuf × Text). (is_temp write.0 ≡ false) × IsWritten all write.0 (some write.1))
      rest

IsGiven-All :
    (all rest : List (PathBuf × Text))
    → ((q : PathBuf) (found : Option Text) → IsWritten rest q found → IsWritten all q found)
    → All (λ (write : PathBuf × Text). is_temp write.0 ≡ false) rest
    → IsGiven all rest
IsGiven-All all [] sub h = tt
IsGiven-All all ((path, bytes) ∷ rest) sub h = (
  (h.0, sub path (some bytes) (inl (refl, refl))),
  IsGiven-All all rest (λ q found i. sub q found (inr i)) h.1,
)

module _ (system : System) (all : List (PathBuf × Text)) (q : PathBuf)
    (plain : is_temp q ≡ false) where
  abbrev IsNew : Files → Type 0
  IsNew files = IsWritten all q (find_path q files)

  -- After one rename, the path has its new content if it had, or if the rename was to it.
  renamed-IsNew :
      (tmp path : PathBuf) (bytes : Text) (rest : List (PathBuf × Text)) (files : Files)
      → is_temp tmp ≡ true
      → IsWritten all path (some bytes)
      → IsNew files ⊎ IsTarget q ((path, bytes) ∷ rest)
      → IsNew (set_path path bytes (remove_path tmp files)) ⊎ IsTarget q rest
  renamed-IsNew tmp path bytes rest files t given (inr (inr later)) = inr later
  renamed-IsNew tmp path bytes rest files t given (inr (inl e)) = inl (
      subst (λ p. IsWritten all p (find_path p (set_path path bytes (remove_path tmp files))))
        (sym e) (rw (find-set_same path bytes (remove_path tmp files)) given))
  renamed-IsNew tmp path bytes rest files t given (inl new) = inl (elim (Bool-cases (path =? q)) [
    | inl e ↦
        subst (λ p. IsWritten all p (find_path p (set_path path bytes (remove_path tmp files))))
          ((list_eq.beq_iff path q).0 e)
          (rw (find-set_same path bytes (remove_path tmp files)) given)
    | inr e ↦
        subst (λ found. IsWritten all q found)
          (sym (
            find-set_other path q bytes (remove_path tmp files)
              (λ f. false≢true (sym e ∙ (list_eq.beq_iff path q).1 f))
            ∙ find-remove_other tmp q files (temp_ne tmp q t plain)))
          new
  ])

  publish-IsNew :
      (k : ℕ) (staged : List (PathBuf × PathBuf)) (rest : List (PathBuf × Text)) (w : World)
      → system.windows ≡ false
      → IsGiven all rest
      → IsStaged k staged rest w.files
      → IsNew w.files ⊎ IsTarget q rest
      → (publish system staged w).0 ≡ ok tt
      → IsNew (publish system staged w).1.files
  unfolding publish
  publish-IsNew k [] [] w unix given h (inl new) done = new
  publish-IsNew k [] [] w unix given h (inr later) done = absurd later
  publish-IsNew k [] (write ∷ rest) w unix given h start done = absurd h
  publish-IsNew k (pair ∷ staged) [] w unix given h start done = absurd h
  publish-IsNew k ((tmp, path) ∷ staged) ((p, bytes) ∷ rest) w unix given h start done =
      let after = λ (r : Result (Unit {0}) × World).
        next (cleaned r (cleanup_temps system ((tmp, path) ∷ staged)))
          (λ u. publish system staged) in
      let written = subst (λ p. IsWritten all p (some bytes)) (sym h.0.0) given.0.1 in
      elim (atomic_rename_lem system tmp path bytes w unix h.0.3) [
        | inl e ↦
            let files = set_path path bytes (remove_path tmp w.files) in
            subst (λ r. IsNew (after r).1.files) (sym e)
              (publish-IsNew (suc k) staged rest (visit files w) unix given.1
                (renamed-IsStaged k tmp path bytes staged rest w.files
                  (subst (λ x. is_temp x ≡ false) (sym h.0.0) given.0.0) h.0.2 h.1)
                (renamed-IsNew tmp path bytes rest w.files h.0.1 written
                  (subst (λ x. IsNew w.files ⊎ IsTarget q ((x, bytes) ∷ rest)) (sym h.0.0) start))
                (sym (ap (λ r. (after r).0) e) ∙ done))
        | inr (x, e) ↦ let f = sym (ap (λ r. (after r).0) e) ∙ done in cc
      ]

module _ (system : System) where
  sync_new-files :
      (path : PathBuf) (b : Bool) (w : World) → (sync_new system path b w).1.files ≡ w.files
  sync_new-files path true w = refl
  sync_new-files path false w = sync_parent_dir-files system (λ files. Unit) path w

  next-files :
      (r : Result (Unit {0}) × World) (f : Unit {0} → Io (Unit {0})) (files : Files)
      → r.1.files ≡ files
      → ((x : World) → (f tt x).1.files ≡ x.files)
      → (next r f).1.files ≡ files
  next-files (ok u, x) f files e same = same x ∙ e
  next-files (err k, x) f files e same = e

  sync_parents-files :
      (done : List PathBuf) (staged : List (PathBuf × PathBuf)) (w : World)
      → (sync_parents system done staged w).1.files ≡ w.files
  unfolding sync_parents
  sync_parents-files done [] w = refl
  sync_parents-files done ((tmp, path) ∷ staged) w =
      next-files (sync_new system path (is_done system done (parent path)) w) _ w.files
        (sync_new-files path (is_done system done (parent path)) w)
        (λ x. sync_parents-files (mark system done (parent path)) staged x)

  module _ (old : Files) (writes : List (PathBuf × Text)) where
    -- Each file is as it was or a whole new one, after every call; and when the batch succeeds, every
    -- target is a new one.
    abbrev pub BatchOutcome : Result (Unit {0}) × World → Type 0
    BatchOutcome r =
        Holds (IsComplete old writes) r.1
        × ((q : PathBuf)
            → is_temp q ≡ false
            → IsTarget q writes
            → r.0 ≡ ok tt
            → IsWritten writes q (find_path q r.1.files))

    -- What a failed staging leaves.
    abbrev pub IsUnchanged : Result (List (PathBuf × PathBuf)) → Files → Type 0
    IsUnchanged (ok staged) files = Unit
    IsUnchanged (err e) files = IsComplete old [] files

    synced_all :
        (staged : List (PathBuf × PathBuf)) (r : Result (Unit {0}) × World)
        → BatchOutcome r
        → BatchOutcome (next r (λ u. sync_parents system [] staged))
    synced_all staged (err e, w) h = h
    synced_all staged (ok u, w) h = (
      sync_parents-Kept system old writes [] staged w h.0,
      λ q plain target done.
          subst (λ found. IsWritten writes q found)
            (ap (find_path q) (sym (sync_parents-files [] staged w))) (h.1 q plain target refl),
    )

    weakened : (w : World) → Holds (IsComplete old []) w → Holds (IsComplete old writes) w
    weakened w h = (weaken old writes w.files h.0, weaken-All old writes w.seen h.1)

    committed :
        (k : ℕ)
        → system.windows ≡ false
        → IsGiven writes writes
        → (r : Result (List (PathBuf × PathBuf)) × World) → StageOutcome system old k writes r
        → BatchOutcome (next r (λ staged. publish system staged >> sync_parents system [] staged))
          × IsUnchanged r.0
              (next r (λ staged. publish system staged >> sync_parents system [] staged)).1.files
    committed k unix given (err e, w) h = ((weakened w h, λ q plain target done. cc), h.0)
    committed k unix given (ok staged, w) h = (
      synced_all staged (publish system staged w) (
        publish-Kept system old writes k staged writes w unix given h.0 (weakened w h.1),
        λ q plain target done.
            publish-IsNew system writes q plain k staged writes w unix given h.0 (inr target) done,
      ),
      tt,
    )

  -- On Unix, and for targets that are no temporary paths: after every call of the batch, so also where
  -- a crash ends it, each file but a temporary one is as it was or has the whole content of one of the
  -- writes to it. When the batch succeeds, every target has such a content; when staging fails,
  -- nothing has changed but temporary files.
  pub atomic_write_batch_complete :
      (writes : List (PathBuf × Text)) (files : Files) (seq : ℕ)
      → system.windows ≡ false
      → All (λ (write : PathBuf × Text). is_temp write.0 ≡ false) writes
      → BatchOutcome files writes (
          atomic_write_batch system writes
            (record { files = files; calls = 0; temp_seq = seq; seen = [] }))
        × IsUnchanged files writes
            (stage system [] writes
              (record { files = files; calls = 0; temp_seq = seq; seen = [] })).0
            (atomic_write_batch system writes
              (record { files = files; calls = 0; temp_seq = seq; seen = [] })).1.files
  unfolding atomic_write_batch
  atomic_write_batch_complete writes files seq unix plain =
      let w : World = record { files = files; calls = 0; temp_seq = seq; seen = [] } in
      committed files writes seq unix (IsGiven-All writes writes (λ q found i. i) plain)
        (stage system [] writes w)
        (stage_lem system files seq writes [] [] writes w refl (omega arith) tt
          (λ q n. inl refl, tt))
