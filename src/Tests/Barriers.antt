-- ===== src/Tests/Barriers.antt =====
-- The theorems on the barrier, at a reader that waits for a mutation.
use jiandu.Prelude.{refl, false, [], ◌∷◌}
use jiandu.Server.{
  RunOf, OfMutations, running, arrived, enabled, awaiting, Reader, InFlightMutations, Reach, start,
  later, accept, wait_for_idle, enable, check,
}
use jiandu.Server.Barrier.{IsValid, Reach-IsValid}
use jiandu.Server.Progress.{Leads, HasPassed, AllFinished, wait_for_idle_passes}

abbrev waiting_reader : Reader
waiting_reader = record { accepted = 1; wait = awaiting false }

-- One mutation runs, and a reader that came after it waits.
abbrev waiting : InFlightMutations
waiting = record { active = 1; mutations = running ∷ []; readers = waiting_reader ∷ [] }

waiting_reached : Reach waiting
waiting_reached =
    later
      (later (later (later start accept) wait_for_idle)
        (enable 0 (record { accepted = 1; wait = arrived }) refl refl))
      (check 0 (record { accepted = 1; wait = enabled false }) false refl refl)

Reach-IsValid_example : IsValid waiting
Reach-IsValid_example = Reach-IsValid waiting_reached

wait_for_idle_passes_example :
    ((t : InFlightMutations) × RunOf OfMutations waiting t × AllFinished t)
    × ((t : InFlightMutations)
        → RunOf OfMutations waiting t
        → AllFinished t
        → Leads 0 t (HasPassed 0))
wait_for_idle_passes_example = wait_for_idle_passes 0 waiting waiting_reader waiting_reached refl
