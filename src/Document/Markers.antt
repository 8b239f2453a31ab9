-- ===== src/Document/Markers.antt =====
-- The end marker is found behind the printed lines, and trimming undoes the blank lines around the
-- body.
use jiandu.Prelude.{
  ℕ, ◌≡◌, ◌≢◌, refl, ap, Bool, true, false, not, ◌&&◌, List, [], ◌∷◌, ◌++◌, none, some, arith, ◌==◌,
  all, All, Bool-cases, inl, inr, append_assoc,
}
use jiandu.Text.{
  Text, text, is_whitespace, trim, trim_matches, trim_start_matches, trim_end_matches, keep_last,
  strip_prefix, join,
}
use jiandu.Document.{split_once, end_marker}

abbrev pub not_newline : ℕ → Bool
not_newline c = not (c == b'\n')

abbrev pub IsPlain : Text → Type 0
IsPlain l = (all not_newline l ≡ true) × (l ≢ text "---")

dashes_absent : (l rest : Text) → IsPlain l → strip_prefix (text "---\n") (l ++ b'\n' ∷ rest) ≡ none
unfolding strip_prefix
dashes_absent [] rest h = refl
dashes_absent (a ∷ []) rest h = ground arith
dashes_absent (a ∷ b ∷ []) rest h = ground arith
dashes_absent (a ∷ b ∷ c ∷ []) rest h = ground (arith, three a b c h.1)
  where
    three :
        (a b c : ℕ)
        → a ∷ b ∷ c ∷ [] ≢ text "---"
        → ((b'-' == a) && (b'-' == b) && (b'-' == c)) ≡ false
    three a b c n = elim (Bool-cases ((b'-' == a) && (b'-' == b) && (b'-' == c))) [
      | inl e ↦ absurd (n (ground arith))
      | inr e ↦ e
    ]
dashes_absent (a ∷ b ∷ c ∷ d ∷ l) rest h = ground arith

-- What follows the first line in a document: the other lines, the marker, and the rest.
abbrev behind : List Text → Text → Text
behind [] rest = text "---\n" ++ rest
behind (l ∷ ls) rest = l ++ b'\n' ∷ behind ls rest

-- The first end marker stands behind the last line.
pub split_once_lines :
    (l : Text) (ls : List Text) (rest : Text)
    → all not_newline l ≡ true
    → All IsPlain ls
    → split_once end_marker (l ++ b'\n' ∷ behind ls rest) ≡ some (join (text "\n") (l ∷ ls), rest)
unfolding split_once strip_prefix join
split_once_lines [] [] rest h hs = refl
split_once_lines [] (m ∷ ms) rest h hs =
    rw (dashes_absent m (behind ms rest) hs.0, split_once)
      (rw (split_once_lines m ms rest hs.0.0 hs.1))
split_once_lines (c ∷ l) [] rest h hs = ground (arith, split_once_lines l [] rest)
split_once_lines (c ∷ l) (m ∷ ms) rest h hs = ground (arith, split_once_lines l (m ∷ ms) rest)

pub behind-join :
    (l : Text) (ls : List Text) (rest : Text)
    → (join (text "\n") (l ∷ ls) ++ text "\n") ++ (text "---\n" ++ rest)
      ≡ l ++ b'\n' ∷ behind ls rest
unfolding join
behind-join l [] rest = append_assoc l (text "\n") (text "---\n" ++ rest)
behind-join l (m ∷ ms) rest =
    rw (append_assoc l _ _)
      (rw (append_assoc l _ _) (ap (λ t. l ++ b'\n' ∷ t) (behind-join m ms rest)))

trim_end_matches-snoc :
    (p : ℕ → Bool) (t : Text) (c : ℕ)
    → p c ≡ true
    → trim_end_matches p (t ++ c ∷ []) ≡ trim_end_matches p t
unfolding trim_end_matches
trim_end_matches-snoc p [] c h = rw h
trim_end_matches-snoc p (d ∷ t) c h = ap (keep_last p d) (trim_end_matches-snoc p t c h)

trim_start_matches-snoc :
    (p : ℕ → Bool) (t : Text) (c : ℕ)
    → p c ≡ true
    → trim_end_matches p (trim_start_matches p (t ++ c ∷ []))
      ≡ trim_end_matches p (trim_start_matches p t)
unfolding trim_start_matches
trim_start_matches-snoc p [] c h = rw h refl
trim_start_matches-snoc p (d ∷ t) c h =
    ground (arith, trim_start_matches-snoc p t c, trim_end_matches-snoc p (d ∷ t) c)

-- The line breaks around a printed body are trimmed away.
pub trim_framed : (t : Text) → trim (b'\n' ∷ (t ++ text "\n")) ≡ trim t
unfolding trim trim_matches trim_start_matches is_whitespace
trim_framed t = trim_start_matches-snoc is_whitespace t b'\n' refl
