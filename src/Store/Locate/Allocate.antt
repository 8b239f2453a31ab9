-- ===== src/Store/Locate/Allocate.antt =====
-- Allocating ids: a new memory never takes the file of another.
use jiandu.Prelude.{
  ℕ, zero, suc, ◌+◌, ◌<◌, ◌≡◌, refl, sym, ap, subst, Option, none, arith, Option-cases, inl, inr,
}
use jiandu.Result.{Result, ok, ok_injective}
use jiandu.Text.{Text}
use jiandu.Types.{MemoryScope}
use jiandu.Paths.{PathBuf, topic_path}
use jiandu.Store.Disk.{Env, Disk, find_path, next-eq-ok}
use jiandu.Store.Locate.{allocate_from, allocate_memory_id, memory_id_candidate}

module _ (env : Env) where
  -- The id has a topic path in the scope, and no file is there.
  abbrev pub IsFree : MemoryScope → Option Text → Text → Disk → Type 0
  IsFree scope key id d =
      (p : PathBuf) × (topic_path env.resolver scope key id ≡ ok p) × (find_path p d.files ≡ none)

  allocate_from-IsFree :
      (left counter : ℕ) (scope : MemoryScope) (key : Option Text) (title timestamp id : Text)
      (d d' : Disk)
      → allocate_from env left counter scope key title timestamp d ≡ (ok id, d')
      → (d' ≡ d) × IsFree scope key id d
  unfolding allocate_from
  allocate_from-IsFree zero counter scope key title timestamp id d d' h = absurd (ground arith)
  allocate_from-IsFree (suc left) counter scope key title timestamp id d d' h =
      let candidate = memory_id_candidate env scope key title timestamp counter in
      let (path, d1, e1, h1) = next-eq-ok (topic_path env.resolver scope key candidate, d) _ h in
      let same : d ≡ d1 = ap (λ x. x.1) e1 in
      elim (Option-cases (find_path path d.files)) [
        | inr (raw, f) ↦
            let (same', free) =
              allocate_from-IsFree left (suc counter) scope key title timestamp id d d'
                (rw (← same, f) at h1) in
            (same', free)
        | inl f ↦
            let k : ◌≡◌ {A = Result Text × Disk} (ok candidate, d) (ok id, d') =
              rw (← same, f) at h1 in
            let id_eq : candidate ≡ id = ok_injective (ap (λ x. x.0) k) in
            (
              sym (ap (λ x. x.1) k),
              (
                path,
                subst (λ i. topic_path env.resolver scope key i ≡ ok path) id_eq (ap (λ x. x.0) e1),
                f,
              ),
            )
      ]

  -- An allocated id is valid and names a file of the scope that does not exist: writing the new
  -- memory there overwrites nothing. Allocating writes no file.
  pub allocate_memory_id-IsFree :
      (scope : MemoryScope) (key : Option Text) (title id : Text) (d d' : Disk)
      → allocate_memory_id env scope key title d ≡ (ok id, d')
      → (d'.files ≡ d.files)
        × ((p : PathBuf) × (topic_path env.resolver scope key id ≡ ok p)
            × (find_path p d.files ≡ none))
  unfolding allocate_memory_id
  allocate_memory_id-IsFree scope key title id d d' h =
      let d1 = record d { readings = suc d.readings } in
      let timestamp = env.to_id_timestamp (env.clock d.readings) in
      let (same, free) = allocate_from-IsFree 1000 0 scope key title timestamp id d1 d' h in
      (ap (λ (x : Disk). x.files) same, free)

  pub allocate_memory_id-artifacts :
      (scope : MemoryScope) (key : Option Text) (title id : Text) (d d' : Disk)
      → allocate_memory_id env scope key title d ≡ (ok id, d')
      → d'.artifacts ≡ d.artifacts
  unfolding allocate_memory_id
  allocate_memory_id-artifacts scope key title id d d' h =
      ap (λ (x : Disk). x.artifacts)
        (allocate_from-IsFree 1000 0 scope key title (env.to_id_timestamp (env.clock d.readings)) id
          (record d { readings = suc d.readings }) d' h).0

  module _ (scope : MemoryScope) (key : Option Text) (title timestamp : Text) where
    -- The topic path of the candidate of a counter.
    abbrev pub HasPath : ℕ → PathBuf → Type 0
    HasPath counter p =
        topic_path env.resolver scope key
          (memory_id_candidate env scope key title timestamp counter)
        ≡ ok p

    allocate_from-total :
        (left counter k : ℕ) (p : PathBuf) (d : Disk)
        → ((n : ℕ) → (q : PathBuf) × HasPath n q)
        → HasPath (counter + k) p
        → find_path p d.files ≡ none
        → k < left
        → (id : Text) × (allocate_from env left counter scope key title timestamp d ≡ (ok id, d))
    unfolding allocate_from
    allocate_from-total zero counter k p d paths at free lt = absurd (omega (arith, lt))
    allocate_from-total (suc left) counter zero p d paths at free lt =
        let here : HasPath counter p = subst (λ n. HasPath n p) (omega arith) at in
        (memory_id_candidate env scope key title timestamp counter, rw (here, free) refl)
    allocate_from-total (suc left) counter (suc k) p d paths at free lt =
        let (q, here) = paths counter in
        let (id, later) =
          allocate_from-total left (suc counter) k p d paths
            (subst (λ n. HasPath n p) (omega arith) at) free (omega (arith, lt)) in
        elim (Option-cases (find_path q d.files)) [
          | inl f ↦ (memory_id_candidate env scope key title timestamp counter, rw (here, f) refl)
          | inr (raw, f) ↦ (id, rw (here, f) later)
        ]

  -- Where every candidate has a topic path, and the file of one of the first 1000 does not exist, an
  -- id is allocated.
  pub allocate_memory_id-total :
      (scope : MemoryScope) (key : Option Text) (title : Text) (d : Disk) (counter : ℕ)
      (p : PathBuf)
      → ((n : ℕ)
          → (q : PathBuf) × HasPath scope key title
              (env.to_id_timestamp (env.clock d.readings))
              n
              q)
      → HasPath scope key title (env.to_id_timestamp (env.clock d.readings)) counter p
      → find_path p d.files ≡ none
      → counter < 1000
      → (id : Text) × (d' : Disk) × (allocate_memory_id env scope key title d ≡ (ok id, d'))
  unfolding allocate_memory_id
  allocate_memory_id-total scope key title d counter p paths at free lt =
      let d1 = record d { readings = suc d.readings } in
      let timestamp = env.to_id_timestamp (env.clock d.readings) in
      let (id, found) =
        allocate_from-total scope key title timestamp 1000 0 counter p d1 paths
          (subst (λ n. HasPath scope key title timestamp n p) (omega arith) at) free lt in
      (id, d1, found)
