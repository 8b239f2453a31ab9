-- ===== src/Lexical/Tokens.antt =====
-- What the tokenizer yields.
use jiandu.Prelude.{
  ℕ, ◌≤◌, ◌≡◌, refl, ◌∙◌, true, ◌⊎◌, inl, inr, [], ◌∷◌, ◌++◌, arith, leb, length, all, All,
  All-append, and-true, Bool-cases, append_assoc, append-nil, all-append,
}
use jiandu.Text.{Text}
use jiandu.Unicode.{Unicode}
use jiandu.Lexical.{
  Scan, is_cjk, flush_latin, flush_cjk, windows, run_tokens, scan_char, scan_text, tokenize,
}

-- A word of two characters or more, or a piece of one or two CJK characters.
abbrev pub IsToken : Text → Type 0
IsToken t = (2 ≤ length t) ⊎ ((length t ≡ 1) × (all is_cjk t ≡ true))

-- The state of the loop: tokens so far, and a run of CJK characters alone.
pub record IsScan (s : Scan) : Type 0 where
  pub tokens : All IsToken s.tokens
  pub cjk : all is_cjk s.cjk ≡ true

flush_latin-IsScan : (s : Scan) → IsScan s → IsScan (flush_latin s)
unfolding flush_latin
flush_latin-IsScan s h = elim (Bool-cases (leb 2 (length s.latin))) [
  | inl e ↦ rw e (record {
    tokens = All-append IsToken s.tokens (s.latin ∷ []) h.tokens (inl (ground arith), tt);
    cjk = h.cjk;
  })
  | inr e ↦ rw e (record { tokens = h.tokens; cjk = h.cjk })
]

windows-IsToken : (t : Text) → All IsToken (windows t)
unfolding windows
windows-IsToken [] = tt
windows-IsToken (c ∷ []) = tt
windows-IsToken (c ∷ d ∷ t) = (inl (omega arith), windows-IsToken (d ∷ t))

run_tokens-IsToken : (t : Text) → all is_cjk t ≡ true → All IsToken (run_tokens t)
run_tokens-IsToken [] h = tt
run_tokens-IsToken (c ∷ []) h = (inr (refl, h), tt)
run_tokens-IsToken (c ∷ d ∷ t) h = windows-IsToken (c ∷ d ∷ t)

flush_cjk-IsScan : (s : Scan) → IsScan s → IsScan (flush_cjk s)
unfolding flush_cjk
flush_cjk-IsScan s h = record {
  tokens = All-append IsToken s.tokens (run_tokens s.cjk) h.tokens (run_tokens-IsToken s.cjk h.cjk);
  cjk = refl;
}

snoc_cjk :
    (t : Text) (c : ℕ) → all is_cjk t ≡ true → is_cjk c ≡ true → all is_cjk (t ++ c ∷ []) ≡ true
snoc_cjk t c h k = rw (all-append is_cjk t (c ∷ []), h, k)

module _ (unicode : Unicode) where
  scan_char-IsScan : (s : Scan) (ch : ℕ) → IsScan s → IsScan (scan_char unicode s ch)
  unfolding scan_char
  scan_char-IsScan s ch h = elim (Bool-cases (is_cjk ch)) [
    | inl e ↦
        let h' = flush_latin-IsScan s h in
        rw e (record { tokens = h'.tokens; cjk = snoc_cjk (flush_latin s).cjk ch h'.cjk e })
    | inr e ↦ rw e (elim (Bool-cases (unicode.is_alphanumeric ch)) [
      | inl a ↦ let h' = flush_cjk-IsScan s h in rw a (record { tokens = h'.tokens; cjk = h'.cjk })
      | inr a ↦ rw a (flush_cjk-IsScan (flush_latin s) (flush_latin-IsScan s h))
    ])
  ]

  scan_text-IsScan : (s : Scan) (t : Text) → IsScan s → IsScan (scan_text unicode s t)
  unfolding scan_text
  scan_text-IsScan s [] h = h
  scan_text-IsScan s (ch ∷ t) h =
      scan_text-IsScan (scan_char unicode s ch) t (scan_char-IsScan s ch h)

  -- Every token has two characters or more, or is one CJK character: single letters are noise and
  -- no token is empty.
  pub tokenize-IsToken : (t : Text) → All IsToken (tokenize unicode t)
  unfolding tokenize
  tokenize-IsToken t =
      let start : IsScan (record { tokens = []; latin = []; cjk = [] }) = record {
        tokens = tt;
        cjk = refl;
      } in
      let s = scan_text unicode (record { tokens = []; latin = []; cjk = [] }) (unicode.nfkc t) in
      (flush_cjk-IsScan _ (flush_latin-IsScan s (scan_text-IsScan _ (unicode.nfkc t) start))).tokens

  scan_text_cjk :
      (run t : Text)
      → all is_cjk t ≡ true
      → scan_text unicode (record { tokens = []; latin = []; cjk = run }) t
        ≡ record { tokens = []; latin = []; cjk = run ++ t }
  unfolding scan_text scan_char flush_latin
  scan_text_cjk run [] h = rw (append-nil run)
  scan_text_cjk run (c ∷ t) h =
      let both = and-true (is_cjk c) (all is_cjk t) h in
      rw (both.0) (scan_text_cjk (run ++ c ∷ []) t both.1 ∙ rw (append_assoc run (c ∷ []) t) refl)

  -- A text of CJK characters alone, already in NFKC, is searched by its overlapping pairs, and by
  -- its one character if it has no more.
  pub tokenize_cjk :
      (t : Text) → unicode.nfkc t ≡ t → all is_cjk t ≡ true → tokenize unicode t ≡ run_tokens t
  unfolding tokenize flush_cjk flush_latin
  tokenize_cjk t n h = rw n (rw (scan_text_cjk [] t h) refl)
