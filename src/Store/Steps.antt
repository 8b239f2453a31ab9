-- ===== src/Store/Steps.antt =====
-- What a step does to the disk, whatever its result: a relation of the disk before and the disk after.
use jiandu.Prelude.{◌≡◌, ◌≢◌, refl, ◌∙◌, true, is_some}
use jiandu.Result.{Result, ok, err}
use jiandu.Paths.{PathBuf}
use jiandu.Store.Disk.{Disk, Action, ◌>>=◌, return, next, find_path}

pub record Steps {A : Type 0} (R : Disk → Disk → Type 0) (m : Action A) : Type 0 where
  pub at : (d : Disk) → R d (m d).1

pub record Preorder (R : Disk → Disk → Type 0) : Type 0 where
  pub none_done : (d : Disk) → R d d
  pub both : (a b c : Disk) → R a b → R b c → R a c

module _ {R : Disk → Disk → Type 0} (o : Preorder R) where
  pub pure-Steps : {A : Type 0} (a : A) → Steps R (return a)
  pure-Steps a = record { at = o.none_done }

  next-R :
      {A B : Type 0} (d : Disk) (r : Result A × Disk) (f : A → Action B)
      → R d r.1
      → ((a : A) (x : Disk) → R x (f a x).1)
      → R d (next r f).1
  next-R d (ok a, x) f h k = o.both d x (f a x).1 h (k a x)
  next-R d (err e, x) f h k = h

  pub bind-Steps :
      {A B : Type 0} (m : Action A) {f : A → Action B}
      → Steps R m
      → ((a : A) → Steps R (f a))
      → Steps R (m >>= f)
  bind-Steps m {f = f} s t = record { at = λ d. next-R d (m d) f (s.at d) (λ a. (t a).at) }

-- The files are the same.
abbrev pub SameFiles : Disk → Disk → Type 0
SameFiles d d' = d'.files ≡ d.files

-- No file is lost.
abbrev pub KeepsFiles : Disk → Disk → Type 0
KeepsFiles d d' =
    (p : PathBuf) → is_some (find_path p d.files) ≡ true → is_some (find_path p d'.files) ≡ true

-- Only the file at `path` may differ.
abbrev pub ChangesOnly : PathBuf → Disk → Disk → Type 0
ChangesOnly path d d' = (p : PathBuf) → path ≢ p → find_path p d'.files ≡ find_path p d.files

pub same : Preorder SameFiles
same = record { none_done = λ d. refl; both = λ a b c h k. k ∙ h }

pub kept : Preorder KeepsFiles
kept = record { none_done = λ d p h. h; both = λ a b c h k p e. k p (h p e) }

pub same-kept : {A : Type 0} {m : Action A} → Steps SameFiles m → Steps KeepsFiles m
same-kept {m = m} s = record { at = λ d p h. rw (s.at d) h }
