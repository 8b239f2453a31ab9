-- ===== src/Lexical.antt =====
-- The tokenizer of memory_store/lexical_bm25.rs.
pub mod Tokens
pub mod Bm25
pub mod Similarity
use jiandu.Prelude.{ℕ, Bool, ◌||◌, List, [], ◌∷◌, ◌++◌, leb, if◌then◌else◌, length}
use jiandu.Text.{Text, between}
use jiandu.Unicode.{Unicode}

abbrev pub min_latin_len : ℕ
min_latin_len = 2

abbrev pub is_cjk : ℕ → Bool
is_cjk c =
    between 0x4E00 0x9FFF c
    || between 0x3400 0x4DBF c
    || between 0xF900 0xFAFF c
    || between 0x3040 0x30FF c
    || between 0xAC00 0xD7AF c

-- The variables of the loop.
pub record Scan : Type 0 where
  pub tokens : List Text
  pub latin : Text
  pub cjk : Text

unfoldable pub flush_latin : Scan → Scan
flush_latin s =
    if leb min_latin_len (length s.latin)
    then record s { tokens = s.tokens ++ s.latin ∷ []; latin = [] }
    else record s { latin = [] }

-- `windows(2)`
unfoldable pub windows : Text → List Text
windows [] = []
windows (c ∷ []) = []
windows (c ∷ d ∷ t) = (c ∷ d ∷ []) ∷ windows (d ∷ t)

abbrev pub run_tokens : Text → List Text
run_tokens [] = []
run_tokens (c ∷ []) = (c ∷ []) ∷ []
run_tokens (c ∷ d ∷ t) = windows (c ∷ d ∷ t)

unfoldable pub flush_cjk : Scan → Scan
flush_cjk s = record s { tokens = s.tokens ++ run_tokens s.cjk; cjk = [] }

module _ (unicode : Unicode) where
  unfoldable pub scan_char : Scan → ℕ → Scan
  scan_char s ch =
      if is_cjk ch
      then (let s' = flush_latin s in record s' { cjk = s'.cjk ++ ch ∷ [] })
      else if unicode.is_alphanumeric ch
      then (let s' = flush_cjk s in record s' { latin = s'.latin ++ unicode.char_to_lowercase ch })
      else flush_cjk (flush_latin s)

  unfoldable pub scan_text : Scan → Text → Scan
  scan_text s [] = s
  scan_text s (ch ∷ t) = scan_text (scan_char s ch) t

  unfoldable pub tokenize : Text → List Text
  tokenize t =
      let s = scan_text (record { tokens = []; latin = []; cjk = [] }) (unicode.nfkc t) in
      (flush_cjk (flush_latin s)).tokens
