-- ===== src/Text/Utf8.antt =====
-- The UTF-8 encoding of a text, which `len` counts and `bytes` walks.
use jiandu.Prelude.{
  ℕ, ◌+◌, ◌/◌, ◌%◌, ◌≤◌, ◌<◌, ◌≡◌, refl, ap, sym, ◌∙◌, Bool, true, List, [], ◌∷◌, ◌++◌, arith, ltb,
  if◌then◌else◌, all, all-append, length, length-append, and-true,
}
use jiandu.Text.{Text}

unfoldable pub encode : ℕ → List ℕ
encode c =
    if ltb c 0x80
    then c ∷ []
    else if ltb c 0x800
    then (0xC0 + c / 64) ∷ (0x80 + c % 64) ∷ []
    else if ltb c 0x10000
    then (0xE0 + c / 4096) ∷ (0x80 + c / 64 % 64) ∷ (0x80 + c % 64) ∷ []
    else (0xF0 + c / 262144) ∷ (0x80 + c / 4096 % 64) ∷ (0x80 + c / 64 % 64) ∷ (0x80 + c % 64) ∷ []

unfoldable pub bytes : Text → List ℕ
unfolding encode
bytes [] = []
bytes (c ∷ t) = encode c ++ bytes t

-- `str::len`.
abbrev pub byte_len : Text → ℕ
byte_len t = length (bytes t)

-- A test that no byte of a longer encoding passes holds of all bytes exactly if it holds of all
-- characters, and the text then has as many bytes as characters.
module _ (p : ℕ → Bool) (ascii : (b : ℕ) → p b ≡ true → b < 0x80) where
  encode-ascii : (c : ℕ) → all p (encode c) ≡ true → (p c ≡ true) × (length (encode c) ≡ 1)
  unfolding encode
  encode-ascii c h =
      ground (arith, ascii (0xC0 + c / 64), ascii (0xE0 + c / 4096), ascii (0xF0 + c / 262144))

  pub bytes-ascii : (t : Text) → all p (bytes t) ≡ true → (all p t ≡ true) × (byte_len t ≡ length t)
  unfolding bytes
  bytes-ascii [] h = (refl, refl)
  bytes-ascii (c ∷ t) h =
      let both =
        and-true (all p (encode c)) (all p (bytes t))
          (sym (all-append p (encode c) (bytes t)) ∙ h) in
      let head = encode-ascii c both.0 in
      let tail = bytes-ascii t both.1 in
      (ground (arith, head, tail), omega (arith, length-append (encode c) (bytes t), head, tail))

  encode_of_ascii : (c : ℕ) → p c ≡ true → encode c ≡ c ∷ []
  unfolding encode
  encode_of_ascii c h = ground (arith, ascii c h)

  pub bytes_of_ascii : (t : Text) → all p t ≡ true → bytes t ≡ t
  unfolding bytes
  bytes_of_ascii [] h = refl
  bytes_of_ascii (c ∷ t) h =
      let both = and-true (p c) (all p t) h in
      rw (encode_of_ascii c both.0) (ap (◌∷◌ c) (bytes_of_ascii t both.1))

pub length-encode : (c : ℕ) → (1 ≤ length (encode c)) × (length (encode c) ≤ 4)
unfolding encode
length-encode c = ground arith
