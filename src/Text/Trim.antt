-- ===== src/Text/Trim.antt =====
-- Laws of trimming.
use jiandu.Prelude.{
  inl, inr, ℕ, ◌≡◌, refl, ap, Bool, true, false, not, [], ◌∷◌, arith, Bool-cases, all, and-true,
  length, ◌≤◌, suc,
}
use jiandu.Text.{
  Text, is_whitespace, trim, trim_matches, trim_start_matches, trim_end_matches, keep_last,
}

module _ (p : ℕ → Bool) where
  -- The first character, if any, fails the test.
  abbrev Starts : Text → Type 0
  Starts [] = Unit
  Starts (c ∷ t) = p c ≡ false

  trim_start_matches-Starts : (t : Text) → Starts (trim_start_matches p t)
  unfolding trim_start_matches
  trim_start_matches-Starts [] = tt
  trim_start_matches-Starts (c ∷ t) = elim (Bool-cases (p c)) [
    | inl e ↦ rw e (trim_start_matches-Starts t)
    | inr e ↦ rw e e
  ]

  trim_start_matches_fixed : (t : Text) → Starts t → trim_start_matches p t ≡ t
  unfolding trim_start_matches
  trim_start_matches_fixed [] s = refl
  trim_start_matches_fixed (c ∷ t) s = rw s

  keep_last-Starts : (c : ℕ) (t : Text) → p c ≡ false → Starts (keep_last p c t)
  keep_last-Starts c [] h = rw h h
  keep_last-Starts c (d ∷ t) h = h

  trim_end_matches-Starts : (t : Text) → Starts t → Starts (trim_end_matches p t)
  unfolding trim_end_matches
  trim_end_matches-Starts [] s = tt
  trim_end_matches-Starts (c ∷ t) s = keep_last-Starts c (trim_end_matches p t) s

  keep_last_again :
      (c : ℕ) (t : Text)
      → trim_end_matches p t ≡ t
      → trim_end_matches p (keep_last p c t) ≡ keep_last p c t
  unfolding trim_end_matches
  keep_last_again c [] h = elim (Bool-cases (p c)) [ inl e ↦ rw e | inr e ↦ rw e (rw e) ]
  keep_last_again c (d ∷ t) h = ap (keep_last p c) h

  trim_end_matches_idem :
      (t : Text) → trim_end_matches p (trim_end_matches p t) ≡ trim_end_matches p t
  unfolding trim_end_matches
  trim_end_matches_idem [] = refl
  trim_end_matches_idem (c ∷ t) = keep_last_again c (trim_end_matches p t) (trim_end_matches_idem t)

  -- Trimming twice is trimming once.
  pub trim_matches_idem : (t : Text) → trim_matches p (trim_matches p t) ≡ trim_matches p t
  unfolding trim_matches
  trim_matches_idem t =
      rw
        (trim_start_matches_fixed (trim_end_matches p (trim_start_matches p t))
          (trim_end_matches-Starts _ (trim_start_matches-Starts t)))
        (trim_end_matches_idem (trim_start_matches p t))

  -- A text none of whose characters pass the test is left alone.
  trim_end_matches_none : (t : Text) → all (λ c. not (p c)) t ≡ true → trim_end_matches p t ≡ t
  unfolding trim_end_matches
  trim_end_matches_none [] h = refl
  trim_end_matches_none (c ∷ []) h = ground arith
  trim_end_matches_none (c ∷ d ∷ t) h =
      ap (keep_last p c) (trim_end_matches_none (d ∷ t) (and-true (not (p c)) _ h).1)

  pub trim_matches_none : (t : Text) → all (λ c. not (p c)) t ≡ true → trim_matches p t ≡ t
  unfolding trim_matches trim_start_matches
  trim_matches_none [] h = refl
  trim_matches_none (c ∷ t) h = ground (arith, trim_end_matches_none (c ∷ t))

  -- Whatever holds of every character holds after trimming.
  all-trim_end_matches :
      (q : ℕ → Bool) (t : Text) → all q t ≡ true → all q (trim_end_matches p t) ≡ true
  unfolding trim_end_matches
  all-trim_end_matches q [] h = refl
  all-trim_end_matches q (c ∷ t) h =
      kept (trim_end_matches p t) (and-true (q c) (all q t) h).0
        (all-trim_end_matches q t (and-true (q c) (all q t) h).1)
    where
      kept : (u : Text) → q c ≡ true → all q u ≡ true → all q (keep_last p c u) ≡ true
      kept [] hc hu = ground arith
      kept (d ∷ u) hc hu = ground arith

  all-trim_start_matches :
      (q : ℕ → Bool) (t : Text) → all q t ≡ true → all q (trim_start_matches p t) ≡ true
  unfolding trim_start_matches
  all-trim_start_matches q [] h = refl
  all-trim_start_matches q (c ∷ t) h = ground (arith, all-trim_start_matches q t)

  pub all-trim_matches :
      (q : ℕ → Bool) (t : Text) → all q t ≡ true → all q (trim_matches p t) ≡ true
  unfolding trim_matches
  all-trim_matches q t h = all-trim_end_matches q _ (all-trim_start_matches q t h)

  length-trim_end_matches : (t : Text) → length (trim_end_matches p t) ≤ length t
  unfolding trim_end_matches
  length-trim_end_matches [] = omega arith
  length-trim_end_matches (c ∷ t) = kept (trim_end_matches p t) (length-trim_end_matches t)
    where
      kept : (u : Text) → length u ≤ length t → length (keep_last p c u) ≤ suc (length t)
      kept [] h = ground arith
      kept (d ∷ u) h = omega arith

  length-trim_start_matches : (t : Text) → length (trim_start_matches p t) ≤ length t
  unfolding trim_start_matches
  length-trim_start_matches [] = omega arith
  length-trim_start_matches (c ∷ t) = ground (arith, length-trim_start_matches t)

  pub length-trim_matches : (t : Text) → length (trim_matches p t) ≤ length t
  unfolding trim_matches
  length-trim_matches t =
      omega (arith, length-trim_end_matches (trim_start_matches p t), length-trim_start_matches t)

pub trim_idem : (t : Text) → trim (trim t) ≡ trim t
unfolding trim
trim_idem t = trim_matches_idem is_whitespace t

pub trim_none : (t : Text) → all (λ c. not (is_whitespace c)) t ≡ true → trim t ≡ t
unfolding trim
trim_none t h = trim_matches_none is_whitespace t h
