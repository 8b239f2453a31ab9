-- ===== src/Server/Barrier.antt =====
-- What holds in every state that the barrier reaches.
use jiandu.Prelude.{
  ◌≢◌, ℕ, ◌+◌, ◌-◌, ◌≤◌, ◌≡◌, refl, ap, ◌∙◌, Bool, true, false, List, [], ◌∷◌, some, All, All-imp,
  length, length-append, take, get_elem?, ◌==◌, arith, Bool-cases, inl, inr,
}
use jiandu.Prelude.Places.{
  set_elem, total, total-append, total-set_elem, total-take-set_elem, total-take, take-append,
  length-set_elem, All-set_elem, All-get_elem?, All-snoc, All-map,
}
use jiandu.Server.{
  Mutation, running, must_notify, finished, Wait, arrived, enabled, awaiting, passed, Reader,
  InFlightMutations, begin, fetch_sub, notify, notified_reader, notify_waiters, set_wait, load,
  Step, accept, drop, wake, wait_for_idle, enable, check, resume, Reach, start, later,
}

abbrev pub runs : Mutation → ℕ
runs running = 1
runs must_notify = 0
runs finished = 0

abbrev pub notifies : Mutation → ℕ
notifies running = 0
notifies must_notify = 1
notifies finished = 0

-- A reader that waits without a notification has one to come. One that passed has seen an end of
-- every mutation that was accepted before it came.
abbrev pub Sound : InFlightMutations → ℕ → Wait → Type 0
Sound s accepted arrived = Unit
Sound s accepted (enabled notified) = Unit
Sound s accepted (awaiting true) = Unit
Sound s accepted (awaiting false) = 1 ≤ s.active + total notifies s.mutations
Sound s accepted passed = total runs (take accepted s.mutations) ≡ 0

abbrev pub IsGood : InFlightMutations → Reader → Type 0
IsGood s r = (r.accepted ≤ length s.mutations) × Sound s r.accepted r.wait

abbrev pub IsValid : InFlightMutations → Type 0
IsValid s = (total runs s.mutations ≡ s.active) × All (IsGood s) s.readers

-- What a reader that passed relies on.
abbrev KeepsPast : InFlightMutations → InFlightMutations → Type 0
KeepsPast s t =
    (length s.mutations ≤ length t.mutations)
    × ((n : ℕ)
        → n ≤ length s.mutations
        → total runs (take n s.mutations) ≡ 0
        → total runs (take n t.mutations) ≡ 0)

-- What a reader that waits relies on.
abbrev KeepsWaking : InFlightMutations → InFlightMutations → Type 0
KeepsWaking s t =
    1 ≤ s.active + total notifies s.mutations → 1 ≤ t.active + total notifies t.mutations

Sound-kept :
    (s t : InFlightMutations)
    → KeepsPast s t
    → KeepsWaking s t
    → (n : ℕ) (w : Wait) → n ≤ length s.mutations
    → Sound s n w
    → Sound t n w
Sound-kept s t past waking n arrived le h = tt
Sound-kept s t past waking n (enabled notified) le h = tt
Sound-kept s t past waking n (awaiting true) le h = tt
Sound-kept s t past waking n (awaiting false) le h = waking h
Sound-kept s t past waking n passed le h = past.1 n le h

Sound-notify :
    (s t : InFlightMutations)
    → KeepsPast s t
    → (n : ℕ) (w : Wait) → n ≤ length s.mutations
    → Sound s n w
    → Sound t n (notify w)
Sound-notify s t past n arrived le h = tt
Sound-notify s t past n (enabled notified) le h = tt
Sound-notify s t past n (awaiting notified) le h = tt
Sound-notify s t past n passed le h = past.1 n le h

readers-kept :
    (s t : InFlightMutations)
    → KeepsPast s t
    → KeepsWaking s t
    → (rs : List Reader) → All (IsGood s) rs
    → All (IsGood t) rs
readers-kept s t past waking rs h =
    All-imp (IsGood s) (IsGood t)
      (λ r g. (omega (arith, g.0, past.0), Sound-kept s t past waking r.accepted r.wait g.0 g.1)) rs
      h

-- A mutation that leaves `running` or `must_notify` behind.
set_elem-KeepsPast :
    (i : ℕ) (x y : Mutation) (s t : InFlightMutations)
    → get_elem? s.mutations i ≡ some x
    → runs y ≤ runs x
    → t.mutations ≡ set_elem i y s.mutations
    → KeepsPast s t
set_elem-KeepsPast i x y s t found le e = (
  omega (arith, ap length e, length-set_elem i y s.mutations),
  λ n short none_left. omega (
    arith,
    ap (λ ms. total runs (take n ms)) e,
    total-take-set_elem runs n i x y s.mutations found le,
    none_left,
  ),
)

begin-IsValid : (s : InFlightMutations) → IsValid s → IsValid (begin s)
begin-IsValid s h = (
  omega (arith, h.0, total-append runs s.mutations (running ∷ [])),
  readers-kept s (begin s)
      (
        omega (arith, length-append s.mutations (running ∷ [])),
        λ n short none_left.
            ap (total runs) (take-append n s.mutations (running ∷ []) short) ∙ none_left,
      )
      (λ waking. omega (arith, waking)) s.readers h.1,
)

-- Either way out of `fetch_sub`.
dropped-IsValid :
    (i : ℕ) (s : InFlightMutations) (y : Mutation)
    → get_elem? s.mutations i ≡ some running
    → runs y ≡ 0
    → (s.active ≡ 1 → notifies y ≡ 1)
    → IsValid s
    → IsValid (record s { active = s.active - 1; mutations = set_elem i y s.mutations })
dropped-IsValid i s y found stopped last h =
    let t = record s { active = s.active - 1; mutations = set_elem i y s.mutations } in
    let r = total-set_elem runs i running y s.mutations found in
    let n = total-set_elem notifies i running y s.mutations found in
    (
      omega (arith, h.0, r, stopped),
      readers-kept s t (set_elem-KeepsPast i running y s t found (omega (arith, stopped)) refl)
          (λ waking. still r n) s.readers h.1,
    )
  where
    still :
        total runs (set_elem i y s.mutations) + 1 ≡ total runs s.mutations + runs y
        → total notifies (set_elem i y s.mutations) + 0 ≡ total notifies s.mutations + notifies y
        → 1 ≤ (s.active - 1) + total notifies (set_elem i y s.mutations)
    still r n = elim (Bool-cases (s.active == 1)) [
      | inl e ↦ let f : s.active ≡ 1 = ground arith in omega (arith, n, last f)
      | inr e ↦ let f : s.active ≢ 1 = ground arith in omega (arith, f, r, h.0, stopped)
    ]

fetch_sub-IsValid :
    (i : ℕ) (s : InFlightMutations)
    → get_elem? s.mutations i ≡ some running
    → IsValid s
    → IsValid (fetch_sub i s)
fetch_sub-IsValid i s found h = elim (Bool-cases (s.active == 1)) [
  | inl e ↦ rw e (dropped-IsValid i s must_notify found refl (λ last. refl) h)
  | inr e ↦ rw e (dropped-IsValid i s finished found refl (λ last. ground arith) h)
]

notify_waiters-IsValid :
    (i : ℕ) (s : InFlightMutations)
    → get_elem? s.mutations i ≡ some must_notify
    → IsValid s
    → IsValid (notify_waiters i s)
notify_waiters-IsValid i s found h =
    let t = notify_waiters i s in
    let past = set_elem-KeepsPast i must_notify finished s t found (omega arith) refl in
    (
      omega (arith, h.0, total-set_elem runs i must_notify finished s.mutations found),
      All-map (IsGood s) (IsGood t) notified_reader s.readers
          (λ r g. (omega (arith, g.0, past.0), Sound-notify s t past r.accepted r.wait g.0 g.1))
          h.1,
    )

set_wait-IsValid :
    (j : ℕ) (r : Reader) (w : Wait) (s : InFlightMutations)
    → get_elem? s.readers j ≡ some r
    → Sound s r.accepted w
    → IsValid s
    → IsValid (set_wait j r w s)
set_wait-IsValid j r w s found sound h = (
  h.0,
  All-set_elem (IsGood s) j (record r { wait = w }) s.readers
      ((All-get_elem? (IsGood s) j r s.readers found h.1).0, sound) h.1,
)

load-Sound :
    (s : InFlightMutations) (n : ℕ) (notified : Bool)
    → IsValid s
    → Sound s n (load notified s.active)
load-Sound s n notified h = elim (Bool-cases (s.active == 0)) [
  | inl e ↦
      let f : s.active ≡ 0 = ground arith in
      rw e (omega (arith, f, h.0, total-take runs n s.mutations))
  | inr e ↦ let f : s.active ≢ 0 = ground arith in rw e (waits notified f)
]
  where
    waits : (b : Bool) → s.active ≢ 0 → Sound s n (awaiting b)
    waits true f = tt
    waits false f = omega (arith, f)

pub Step-IsValid : {s t : InFlightMutations} → Step s t → IsValid s → IsValid t
Step-IsValid {s} accept h = begin-IsValid s h
Step-IsValid {s} (drop i found) h = fetch_sub-IsValid i s found h
Step-IsValid {s} (wake i found) h = notify_waiters-IsValid i s found h
Step-IsValid {s} wait_for_idle h = (h.0, All-snoc (IsGood s) s.readers _ h.1 (omega arith, tt))
Step-IsValid {s} (enable j r found at) h = set_wait-IsValid j r (enabled false) s found tt h
Step-IsValid {s} (check j r notified found at) h =
    set_wait-IsValid j r (load notified s.active) s found (load-Sound s r.accepted notified h) h
Step-IsValid {s} (resume j r found at) h = set_wait-IsValid j r arrived s found tt h

-- In every state that is reached, the counter is the number of the mutations that run; a reader that
-- waits unnotified has a mutation that runs or a notification still to come, so that no wakeup is
-- lost; and a reader that passed came after mutations that have all ended.
pub Reach-IsValid : {s : InFlightMutations} → Reach s → IsValid s
Reach-IsValid start = (refl, tt)
Reach-IsValid (later r step) = Step-IsValid step (Reach-IsValid r)
