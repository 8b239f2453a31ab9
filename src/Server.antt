-- ===== src/Server.antt =====
-- crates/jiandu-mcp/src/server.rs: the barrier between mutations and reads. Each step is one atomic
-- operation of a mutation's or a reader's task, and the tasks interleave in any order.
pub mod Barrier
pub mod Progress
use jiandu.Prelude.{
  ℕ, suc, ◌+◌, ◌-◌, ◌≡◌, Bool, true, false, List, [], ◌∷◌, ◌++◌, some, map, length, get_elem?, ◌==◌,
  if◌then◌else◌,
}
use jiandu.Prelude.Places.{set_elem}

-- The guard is held; it has brought the counter to zero and has to notify; it is gone.
pub data Mutation : Type 0 where
  running : Mutation
  must_notify : Mutation
  finished : Mutation

-- In `wait_for_idle`: at the top of the loop; registered; at the await, where a notification may have
-- come since; past it.
pub data Wait : Type 0 where
  arrived : Wait
  enabled : Bool → Wait
  awaiting : Bool → Wait
  passed : Wait

-- With the number of the mutations that were accepted when it came.
pub record Reader : Type 0 where
  pub accepted : ℕ
  pub wait : Wait

pub record InFlightMutations : Type 0 where
  pub active : ℕ
  pub mutations : List Mutation
  pub readers : List Reader

abbrev pub new : InFlightMutations
new = record { active = 0; mutations = []; readers = [] }

-- `fetch_add`
abbrev pub begin : InFlightMutations → InFlightMutations
begin s = record s { active = suc s.active; mutations = s.mutations ++ running ∷ [] }

-- The first half of `drop`: `fetch_sub`, and whether it was the last.
abbrev pub fetch_sub : ℕ → InFlightMutations → InFlightMutations
fetch_sub i s = record s {
  active = s.active - 1;
  mutations = set_elem i (if s.active == 1 then must_notify else finished) s.mutations;
}

abbrev pub notify : Wait → Wait
notify arrived = arrived
notify (enabled notified) = enabled true
notify (awaiting notified) = awaiting true
notify passed = passed

abbrev pub notified_reader : Reader → Reader
notified_reader r = record r { wait = notify r.wait }

-- The second half of `drop`.
abbrev pub notify_waiters : ℕ → InFlightMutations → InFlightMutations
notify_waiters i s = record s {
  mutations = set_elem i finished s.mutations;
  readers = map notified_reader s.readers;
}

abbrev pub arrive : InFlightMutations → InFlightMutations
arrive s = record s {
  readers = s.readers ++ record { accepted = length s.mutations; wait = arrived } ∷ [];
}

abbrev pub set_wait : ℕ → Reader → Wait → InFlightMutations → InFlightMutations
set_wait j r wait s = record s { readers = set_elem j (record r { wait = wait }) s.readers }

-- After registering: the load of the counter.
abbrev pub load : Bool → ℕ → Wait
load notified active = if active == 0 then passed else awaiting notified

pub data Step (s : InFlightMutations) : InFlightMutations → Type 0 where
  accept : Step s (begin s)
  drop : (i : ℕ) → get_elem? s.mutations i ≡ some running → Step s (fetch_sub i s)
  wake : (i : ℕ) → get_elem? s.mutations i ≡ some must_notify → Step s (notify_waiters i s)
  wait_for_idle : Step s (arrive s)
  enable :
      (j : ℕ) (r : Reader)
      → get_elem? s.readers j ≡ some r
      → r.wait ≡ arrived
      → Step s (set_wait j r (enabled false) s)
  check :
      (j : ℕ) (r : Reader) (notified : Bool)
      → get_elem? s.readers j ≡ some r
      → r.wait ≡ enabled notified
      → Step s (set_wait j r (load notified s.active) s)
  resume :
      (j : ℕ) (r : Reader)
      → get_elem? s.readers j ≡ some r
      → r.wait ≡ awaiting true
      → Step s (set_wait j r arrived s)

pub data Reach : InFlightMutations → Type 0 where
  start : Reach new
  later : {s t : InFlightMutations} → Reach s → Step s t → Reach t

-- A step of a mutation that was accepted, and a step of the reader at `j`.
abbrev pub OfMutations : (s t : InFlightMutations) → Step s t → Type 0
OfMutations s _ accept = ⊥
OfMutations s _ (drop i at) = Unit
OfMutations s _ (wake i at) = Unit
OfMutations s _ wait_for_idle = ⊥
OfMutations s _ (enable k r here at) = ⊥
OfMutations s _ (check k r notified here at) = ⊥
OfMutations s _ (resume k r here at) = ⊥

abbrev pub OfReader : ℕ → (s t : InFlightMutations) → Step s t → Type 0
OfReader j s _ accept = ⊥
OfReader j s _ (drop i at) = ⊥
OfReader j s _ (wake i at) = ⊥
OfReader j s _ wait_for_idle = ⊥
OfReader j s _ (enable k r here at) = k ≡ j
OfReader j s _ (check k r notified here at) = k ≡ j
OfReader j s _ (resume k r here at) = k ≡ j

-- Any number of steps of one kind.
pub data RunOf (Kind : (s t : InFlightMutations) → Step s t → Type 0)
    : InFlightMutations → InFlightMutations → Type 0 where
  done : {s : InFlightMutations} → RunOf Kind s s
  step : {s t u : InFlightMutations} (a : Step s t) → Kind s t a → RunOf Kind t u → RunOf Kind s u
