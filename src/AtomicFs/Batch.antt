-- ===== src/AtomicFs/Batch.antt =====
-- `atomic_write_batch`: nothing is published before everything is staged.
use jiandu.Prelude.{
  ℕ, suc, ◌+◌, ◌<◌, ◌≤◌, ◌≡◌, ◌≢◌, ◌⊎◌, inl, inr, refl, sym, ap, ◌∙◌, subst, Bool, true, false,
  List, [], ◌∷◌, ◌++◌, Option, none, some, arith, All, length,
}
use jiandu.Prelude.Classes.{nat_eq, list_eq}
use jiandu.Result.{Result, ok, err, ErrorKind}
use jiandu.Text.{Text}
use jiandu.Paths.{PathBuf, parent}
use jiandu.Store.Disk.{find_path, set_path, remove_path, find-set_other, find-remove_other}
use jiandu.AtomicFs.{
  Files, System, World, Io, next, cleaned, visit, settle, create, write_all, remove_file,
  create_dir, write_and_sync, cleanup_temps, publish, sync_parents, is_done, mark, sync_new,
}
use jiandu.AtomicFs.Temp.{is_temp, place}
use jiandu.AtomicFs.Crash.{
  IsWritten, IsComplete, temp_ne, set_temp-IsComplete, remove_temp-IsComplete, moved-IsComplete,
  Holds, next-Holds, remove_file-Holds, atomic_rename_lem, sync_parent_dir-Holds,
}

-- The staged pairs are of these writes, in order: each temporary file has the bytes, and the places
-- count on from `k`.
abbrev pub IsStaged : ℕ → List (PathBuf × PathBuf) → List (PathBuf × Text) → Files → Type 0
IsStaged k [] [] files = Unit
IsStaged k [] (write ∷ writes) files = ⊥
IsStaged k (pair ∷ staged) [] files = ⊥
IsStaged k ((tmp, path) ∷ staged) ((p, bytes) ∷ writes) files =
    ((path ≡ p) × (is_temp tmp ≡ true) × (place tmp ≡ k) × (find_path tmp files ≡ some bytes))
    × IsStaged (suc k) staged writes files

-- What happens at another place keeps them.
pub IsStaged-kept :
    (m k : ℕ) (staged : List (PathBuf × PathBuf)) (writes : List (PathBuf × Text))
    (files files' : Files)
    → (m < k) ⊎ (k + length staged ≤ m)
    → ((q : PathBuf) → is_temp q ≡ true → place q ≢ m → find_path q files' ≡ find_path q files)
    → IsStaged k staged writes files
    → IsStaged k staged writes files'
IsStaged-kept m k [] [] files files' away same h = tt
IsStaged-kept m k [] (write ∷ writes) files files' away same h = h
IsStaged-kept m k (pair ∷ staged) [] files files' away same h = h
IsStaged-kept m k ((tmp, path) ∷ staged) ((p, bytes) ∷ writes) files files' away same h =
    let other : place tmp ≢ m = λ e. omega (arith, away, h.0.2, e) in
    (
      (h.0.0, h.0.1, h.0.2, same tmp h.0.1 other ∙ h.0.3),
      IsStaged-kept m (suc k) staged writes files files' (further away) same h.1,
    )
  where
    further : (m < k) ⊎ (k + suc (length staged) ≤ m) → (m < suc k) ⊎ (suc k + length staged ≤ m)
    further (inl a) = inl (omega (arith, a))
    further (inr b) = inr (omega (arith, b))

-- The move of one staged file keeps those after it.
pub renamed-IsStaged :
    (k : ℕ) (tmp path : PathBuf) (bytes : Text) (staged : List (PathBuf × PathBuf))
    (rest : List (PathBuf × Text)) (files : Files)
    → is_temp path ≡ false
    → place tmp ≡ k
    → IsStaged (suc k) staged rest files
    → IsStaged (suc k) staged rest (set_path path bytes (remove_path tmp files))
renamed-IsStaged k tmp path bytes staged rest files plain at h =
    IsStaged-kept k (suc k) staged rest files (set_path path bytes (remove_path tmp files))
      (inl (omega arith))
      (λ q t away.
        find-set_other path q bytes (remove_path tmp files) (λ f. temp_ne q path t plain (sym f))
        ∙ find-remove_other tmp q files (λ f. away (sym (ap place f) ∙ at)))
      h

pub IsStaged-snoc :
    (k : ℕ) (staged : List (PathBuf × PathBuf)) (writes : List (PathBuf × Text)) (files : Files)
    (tmp path : PathBuf) (bytes : Text)
    → IsStaged k staged writes files
    → is_temp tmp ≡ true
    → place tmp ≡ k + length staged
    → find_path tmp files ≡ some bytes
    → IsStaged k (staged ++ (tmp, path) ∷ []) (writes ++ (path, bytes) ∷ []) files
IsStaged-snoc k [] [] files tmp path bytes h t p f = ((refl, t, omega (arith, p), f), tt)
IsStaged-snoc k [] (write ∷ writes) files tmp path bytes h t p f = absurd h
IsStaged-snoc k (pair ∷ staged) [] files tmp path bytes h t p f = absurd h
IsStaged-snoc k (pair ∷ staged) (write ∷ writes) files tmp path bytes h t p f =
    (h.0, IsStaged-snoc (suc k) staged writes files tmp path bytes h.1 t (omega (arith, p)) f)

pub IsStaged-temps :
    (k : ℕ) (staged : List (PathBuf × PathBuf)) (writes : List (PathBuf × Text)) (files : Files)
    → IsStaged k staged writes files
    → All (λ (pair : PathBuf × PathBuf). is_temp pair.0 ≡ true) staged
IsStaged-temps k [] [] files h = tt
IsStaged-temps k [] (write ∷ writes) files h = absurd h
IsStaged-temps k (pair ∷ staged) [] files h = absurd h
IsStaged-temps k (pair ∷ staged) (write ∷ writes) files h =
    (h.0.1, IsStaged-temps (suc k) staged writes files h.1)

-- A fact of the world, through the calls.
next-world :
    {A B : Type 0} (Q : World → Type 0) (r : Result A × World) (f : A → Io B)
    → Q r.1
    → ((a : A) (w : World) → Q w → Q (f a w).1)
    → Q (next r f).1
next-world Q (ok a, w) f h k = k a w h
next-world Q (err e, w) f h k = h

settle-world :
    (Q : World → Type 0) (fault : Option ErrorKind) (good bad : Files) (w : World)
    → Q (visit good w)
    → Q (visit bad w)
    → Q (settle fault good bad w).1
settle-world Q none good bad w g b = g
settle-world Q (some e) good bad w g b = b

-- The next place, and what is found at a path.
abbrev pub Unmoved : PathBuf → World → World → Type 0
Unmoved q w x = (x.temp_seq ≡ w.temp_seq) × (find_path q x.files ≡ find_path q w.files)

module _ (system : System) where
  pub create_dir-Unmoved :
      (q : PathBuf) (dir : Option PathBuf) (w : World) → Unmoved q w (create_dir system dir w).1
  create_dir-Unmoved q none w = (refl, refl)
  create_dir-Unmoved q (some dir) w =
      settle-world (Unmoved q w) (system.fault w.calls) w.files w.files w (refl, refl) (refl, refl)

  pub write_and_sync-Unmoved :
      (tmp q : PathBuf) (bytes : Text) (w : World)
      → tmp ≢ q
      → Unmoved q w (write_and_sync system tmp bytes w).1
  unfolding write_and_sync
  write_and_sync-Unmoved tmp q bytes w n =
      next-world (Unmoved q w) (create system tmp w) _
        (settle-world (Unmoved q w) (system.fault w.calls) (set_path tmp [] w.files) w.files w
          (refl, find-set_other tmp q [] w.files n) (refl, refl))
        (λ u x hx.
          next-world (Unmoved q w) (write_all system tmp bytes x) _
            (settle-world (Unmoved q w) (system.fault x.calls) (set_path tmp bytes x.files)
              (set_path tmp (system.torn x.calls bytes) x.files) x
              (hx.0, find-set_other tmp q bytes x.files n ∙ hx.1)
              (hx.0, find-set_other tmp q (system.torn x.calls bytes) x.files n ∙ hx.1))
            (λ v y hy. settle-world (Unmoved q w) (system.fault y.calls) y.files y.files y hy hy))

  module _ (old : Files) (writes : List (PathBuf × Text)) where
    abbrev pub Kept : World → Type 0
    Kept = Holds (IsComplete old writes)

    pub cleanup_temps-Kept :
        (staged : List (PathBuf × PathBuf)) (w : World)
        → All (λ (pair : PathBuf × PathBuf). is_temp pair.0 ≡ true) staged
        → Kept w
        → Kept (cleanup_temps system staged w).1
    unfolding cleanup_temps
    cleanup_temps-Kept [] w t h = h
    cleanup_temps-Kept ((tmp, path) ∷ staged) w t h =
        cleanup_temps-Kept staged (remove_file system tmp w).1 t.1 (
          remove_file-Holds system (IsComplete old writes) tmp
            (set_temp-IsComplete old writes tmp t.0) (remove_temp-IsComplete old writes tmp t.0) w
            h)

    sync_new-Kept :
        (path : PathBuf) (b : Bool) (w : World) → Kept w → Kept (sync_new system path b w).1
    sync_new-Kept path true w h = h
    sync_new-Kept path false w h = sync_parent_dir-Holds system (IsComplete old writes) path w h

    pub sync_parents-Kept :
        (done : List PathBuf) (staged : List (PathBuf × PathBuf)) (w : World)
        → Kept w
        → Kept (sync_parents system done staged w).1
    unfolding sync_parents
    sync_parents-Kept done [] w h = h
    sync_parents-Kept done ((tmp, path) ∷ staged) w h =
        next-Holds (IsComplete old writes)
          (sync_new system path (is_done system done (parent path)) w) _
          (sync_new-Kept path (is_done system done (parent path)) w h)
          (λ u x hx. sync_parents-Kept (mark system done (parent path)) staged x hx)

    -- Publishing what is staged.
    pub publish-Kept :
        (k : ℕ) (staged : List (PathBuf × PathBuf)) (rest : List (PathBuf × Text)) (w : World)
        → system.windows ≡ false
        → All
            (λ (write : PathBuf × Text).
              (is_temp write.0 ≡ false) × IsWritten writes write.0 (some write.1))
            rest
        → IsStaged k staged rest w.files
        → Kept w
        → Kept (publish system staged w).1
    unfolding publish
    publish-Kept k [] [] w unix given h kept = kept
    publish-Kept k [] (write ∷ rest) w unix given h kept = kept
    publish-Kept k (pair ∷ staged) [] w unix given h kept = absurd h
    publish-Kept k ((tmp, path) ∷ staged) ((p, bytes) ∷ rest) w unix given h kept =
        let next_one = λ (r : Result (Unit {0}) × World).
          Kept
            (next (cleaned r (cleanup_temps system ((tmp, path) ∷ staged)))
              (λ u. publish system staged)).1 in
        elim (atomic_rename_lem system tmp path bytes w unix h.0.3) [
          | inl e ↦
              let files = set_path path bytes (remove_path tmp w.files) in
              let written : IsWritten writes path (some bytes) =
                subst (λ q. IsWritten writes q (some bytes)) (sym h.0.0) given.0.1 in
              let moved = moved-IsComplete old writes tmp h.0.1 w.files path bytes written kept.0 in
              subst next_one (sym e) (
                publish-Kept (suc k) staged rest (visit files w) unix given.1
                  (renamed-IsStaged k tmp path bytes staged rest w.files
                    (subst (λ x. is_temp x ≡ false) (sym h.0.0) given.0.0) h.0.2 h.1)
                  (moved, (moved, kept.1)))
          | inr (x, e) ↦ subst next_one (sym e) (
              cleanup_temps-Kept ((tmp, path) ∷ staged) (visit w.files w)
                (h.0.1, IsStaged-temps (suc k) staged rest w.files h.1) (kept.0, (kept.0, kept.1)))
        ]
