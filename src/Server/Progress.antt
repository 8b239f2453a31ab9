-- ===== src/Server/Progress.antt =====
-- Every reader can get past the barrier.
use jiandu.Prelude.{
  ℕ, zero, suc, List, [], ◌∷◌, All, ◌+◌, ◌*◌, ◌≤◌, ◌<◌, ◌≡◌, refl, ap, ◌∙◌, Bool, true, false, some,
  get_elem?, ltb, ◌==◌, arith, Bool-cases, inl, inr,
}
use jiandu.Prelude.Places.{
  total, total-set_elem, total-pos, get_elem?-set_elem, get_elem?-map, All-get_elem?,
}
use jiandu.Server.{
  Mutation, running, must_notify, finished, Wait, arrived, enabled, awaiting, passed, Reader,
  InFlightMutations, fetch_sub, notified_reader, notify_waiters, set_wait, load, drop, wake, enable,
  check, resume, accept, wait_for_idle, Reach, RunOf, OfMutations, OfReader, done, step,
}
use jiandu.Server.Barrier.{runs, notifies, IsValid, IsGood, Sound, Step-IsValid, Reach-IsValid}

-- Steps of the reader alone lead to a state with the property.
abbrev pub Leads : ℕ → InFlightMutations → (InFlightMutations → Type 0) → Type 0
Leads j s Q = (t : InFlightMutations) × RunOf (OfReader j) s t × Q t

abbrev pub HasPassed : ℕ → InFlightMutations → Type 0
HasPassed j s = (r : Reader) × (get_elem? s.readers j ≡ some r) × (r.wait ≡ passed)

-- Every mutation has ended, and has notified if it was the last.
abbrev pub AllFinished : InFlightMutations → Type 0
AllFinished s = All (λ m. m ≡ finished) s.mutations

-- The steps that the mutations have left.
abbrev left : InFlightMutations → ℕ
left s = 2 * total runs s.mutations + total notifies s.mutations

runs-pos : (m : Mutation) → 1 ≤ runs m → m ≡ running
runs-pos running h = refl
runs-pos must_notify h = absurd (omega (arith, h))
runs-pos finished h = absurd (omega (arith, h))

notifies-pos : (m : Mutation) → 1 ≤ notifies m → m ≡ must_notify
notifies-pos running h = absurd (omega (arith, h))
notifies-pos must_notify h = refl
notifies-pos finished h = absurd (omega (arith, h))

drop-left :
    (i : ℕ) (s : InFlightMutations)
    → get_elem? s.mutations i ≡ some running
    → left (fetch_sub i s) < left s
drop-left i s found = elim (Bool-cases (s.active == 1)) [
  | inl e ↦ rw e (
      omega (
        arith,
        total-set_elem runs i running must_notify s.mutations found,
        total-set_elem notifies i running must_notify s.mutations found,
      ))
  | inr e ↦ rw e (
      omega (
        arith,
        total-set_elem runs i running finished s.mutations found,
        total-set_elem notifies i running finished s.mutations found,
      ))
]

wake-left :
    (i : ℕ) (s : InFlightMutations)
    → get_elem? s.mutations i ≡ some must_notify
    → left (notify_waiters i s) < left s
wake-left i s found = omega (
  arith,
  total-set_elem runs i must_notify finished s.mutations found,
  total-set_elem notifies i must_notify finished s.mutations found,
)

All-finished :
    (ms : List Mutation) → total runs ms ≡ 0 → total notifies ms ≡ 0 → All (λ m. m ≡ finished) ms
All-finished [] a b = tt
All-finished (running ∷ ms) a b = absurd (omega (arith, a))
All-finished (must_notify ∷ ms) a b = absurd (omega (arith, b))
All-finished (finished ∷ ms) a b = (refl, All-finished ms (omega (arith, a)) (omega (arith, b)))

total-finished :
    (ms : List Mutation)
    → All (λ m. m ≡ finished) ms
    → (total runs ms ≡ 0) × (total notifies ms ≡ 0)
total-finished [] h = (refl, refl)
total-finished (running ∷ ms) h = absurd (clash h.0)
  where
    clash : running ≡ finished → ⊥
    clash e = cc
total-finished (must_notify ∷ ms) h = absurd (clash h.0)
  where
    clash : must_notify ≡ finished → ⊥
    clash e = cc
total-finished (finished ∷ ms) h =
    let (a, b) = total-finished ms h.1 in (omega (arith, a), omega (arith, b))

-- The mutations that are left can end.
settle :
    (n : ℕ) (s : InFlightMutations)
    → left s ≤ n
    → (t : InFlightMutations) × RunOf OfMutations s t × AllFinished t
settle zero s le = (s, done, All-finished s.mutations (omega (arith, le)) (omega (arith, le)))
settle (suc n) s le = elim (Bool-cases (ltb 0 (total runs s.mutations))) [
  | inl e ↦
      let (i, m, found, pos) = total-pos runs s.mutations (ground arith) in
      let at = found ∙ ap some (runs-pos m pos) in
      let (t, run, quiet) = settle n (fetch_sub i s) (omega (arith, le, drop-left i s at)) in
      (t, step (drop i at) tt run, quiet)
  | inr none_runs ↦ elim (Bool-cases (ltb 0 (total notifies s.mutations))) [
    | inl e ↦
        let (i, m, found, pos) = total-pos notifies s.mutations (ground arith) in
        let at = found ∙ ap some (notifies-pos m pos) in
        let (t, run, quiet) = settle n (notify_waiters i s) (omega (arith, le, wake-left i s at)) in
        (t, step (wake i at) tt run, quiet)
    | inr none_notifies ↦ (s, done, All-finished s.mutations (ground arith) (ground arith))
  ]
]

module _ (j : ℕ) where
  -- Steps of the mutations keep the invariant, and the reader in its place.
  mutations_keep :
      (s t : InFlightMutations) (r : Reader)
      → RunOf OfMutations s t
      → IsValid s
      → get_elem? s.readers j ≡ some r
      → IsValid t × ((q : Reader) × (get_elem? t.readers j ≡ some q))
  mutations_keep s _ r done valid here = (valid, (r, here))
  mutations_keep s t r (step accept kind run) valid here = absurd kind
  mutations_keep s t r (step (drop i at) kind run) valid here =
      mutations_keep (fetch_sub i s) t r run (Step-IsValid (drop i at) valid) here
  mutations_keep s t r (step (wake i at) kind run) valid here =
      mutations_keep (notify_waiters i s) t (notified_reader r) run (Step-IsValid (wake i at) valid)
        (get_elem?-map notified_reader j r s.readers here)
  mutations_keep s t r (step wait_for_idle kind run) valid here = absurd kind
  mutations_keep s t r (step (enable k q there at) kind run) valid here = absurd kind
  mutations_keep s t r (step (check k q notified there at) kind run) valid here = absurd kind
  mutations_keep s t r (step (resume k q there at) kind run) valid here = absurd kind

  -- From each place of the loop, with nothing running.
  pass_enabled :
      (s : InFlightMutations) (r : Reader) (notified : Bool)
      → s.active ≡ 0
      → get_elem? s.readers j ≡ some r
      → r.wait ≡ enabled notified
      → Leads j s (HasPassed j)
  pass_enabled s r notified idle here at =
      let passed_on : load notified s.active ≡ passed = ap (load notified) idle in
      (
        set_wait j r (load notified s.active) s,
        step (check j r notified here at) refl done,
        (
          record r { wait = load notified s.active },
          get_elem?-set_elem j r (record r { wait = load notified s.active }) s.readers here,
          passed_on,
        ),
      )

  pass_arrived :
      (s : InFlightMutations) (r : Reader)
      → s.active ≡ 0
      → get_elem? s.readers j ≡ some r
      → r.wait ≡ arrived
      → Leads j s (HasPassed j)
  pass_arrived s r idle here at =
      let registered = record r { wait = enabled false } in
      let (t, run, h) =
        pass_enabled (set_wait j r (enabled false) s) registered false idle
          (get_elem?-set_elem j r registered s.readers here) refl in
      (t, step (enable j r here at) refl run, h)

  pass :
      (s : InFlightMutations) (r : Reader) (w : Wait)
      → r.wait ≡ w
      → s.active ≡ 0
      → total notifies s.mutations ≡ 0
      → get_elem? s.readers j ≡ some r
      → Sound s r.accepted w
      → Leads j s (HasPassed j)
  pass s r arrived at idle silent here sound = pass_arrived s r idle here at
  pass s r (enabled notified) at idle silent here sound = pass_enabled s r notified idle here at
  pass s r (awaiting true) at idle silent here sound =
      let again = record r { wait = arrived } in
      let (t, run, h) =
        pass_arrived (set_wait j r arrived s) again idle
          (get_elem?-set_elem j r again s.readers here) refl in
      (t, step (resume j r here at) refl run, h)
  pass s r (awaiting false) at idle silent here sound = absurd (omega (arith, idle, silent, sound))
  pass s r passed at idle silent here sound = (s, done, (r, here, at))

  -- From every state that is reached, the mutations that were accepted can all end by steps of their
  -- own; and wherever such steps lead in whichever order, once all have ended, steps of the reader
  -- alone lead it past the barrier: it needs no further mutation to be woken.
  pub wait_for_idle_passes :
      (s : InFlightMutations) (r : Reader)
      → Reach s
      → get_elem? s.readers j ≡ some r
      → ((t : InFlightMutations) × RunOf OfMutations s t × AllFinished t)
        × ((t : InFlightMutations)
            → RunOf OfMutations s t
            → AllFinished t
            → Leads j t (HasPassed j))
  wait_for_idle_passes s r reach here = (
    settle (left s) s (omega arith),
    λ t run ended.
        let (valid, (q, there)) = mutations_keep s t r run (Reach-IsValid reach) here in
        let (none_run, silent) = total-finished t.mutations ended in
        pass t q q.wait refl (omega (arith, none_run, valid.0)) silent there
          (All-get_elem? (IsGood t) j q t.readers there valid.1).1,
  )
