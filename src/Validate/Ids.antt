-- ===== src/Validate/Ids.antt =====
-- What the identifier checks accept: the trimmed text, exactly if it is an identifier.
use jiandu.Prelude.{
  ℕ, ◌≤◌, ◌<◌, ◌≡◌, ◌≢◌, ◌↔◌, refl, sym, ap, ◌∙◌, subst, Bool, true, false, not, ◌||◌, [], ◌∷◌,
  arith, all, all-imp, length, is_empty,
}
use jiandu.Result.{ok}
use jiandu.Text.{Text, is_whitespace, is_ascii_digit, between, trim}
use jiandu.Text.Trim.{trim_none, trim_idem}
use jiandu.Text.Utf8.{bytes, byte_len, bytes-ascii, bytes_of_ascii}
use jiandu.Validate.{
  is_id_char, max_memory_id_len, max_project_id_len, validate_memory_id, parse_project_id,
  validate_source_generation,
}

-- An identifier of at most `n` characters: ASCII letters, digits, `-` and `_`.
abbrev pub IsId : ℕ → Text → Type 0
IsId n t = (t ≢ []) × (length t ≤ n) × (all is_id_char t ≡ true)

id_char-ascii : (c : ℕ) → is_id_char c ≡ true → c < 0x80
id_char-ascii c h = ground arith

id_char-not_space : (c : ℕ) → is_id_char c ≡ true → not (is_whitespace c) ≡ true
unfolding is_whitespace
id_char-not_space c h = ground arith

pub IsId-trim : (n : ℕ) (t : Text) → IsId n t → trim t ≡ t
IsId-trim n t h = trim_none t (all-imp is_id_char _ id_char-not_space t h.2)

pub IsId-bytes : (n : ℕ) (t : Text) → IsId n t → bytes t ≡ t
IsId-bytes n t h = bytes_of_ascii is_id_char id_char-ascii t h.2

not_empty : (t : Text) → is_empty t ≡ false → t ≢ []
not_empty [] h e = cc
not_empty (c ∷ t) h e = cc

empty_of_ne : (t : Text) → t ≢ [] → is_empty t ≡ false
empty_of_ne [] h = absurd (h refl)
empty_of_ne (c ∷ t) h = refl

-- The check on bytes is the check on characters.
checked_IsId :
    (n : ℕ) (t : Text)
    → is_empty t ≡ false
    → byte_len t ≤ n
    → all is_id_char (bytes t) ≡ true
    → IsId n t
checked_IsId n t e l h =
    let chars = bytes-ascii is_id_char id_char-ascii t h in
    (not_empty t e, omega (arith, chars.1), chars.0)

-- `validate_memory_id` returns `u` exactly if `u` is the trimmed input and an identifier of at most
-- 128 characters; every other input is refused.
pub validate_memory_id_iff :
    (t u : Text) → (validate_memory_id t ≡ ok u) ↔ ((u ≡ trim t) × IsId max_memory_id_len (trim t))
unfolding validate_memory_id
validate_memory_id_iff t u = (
  λ h. ground (arith, checked_IsId max_memory_id_len (trim t)),
  λ p.
      let (e, i) = p in
      ground
        (arith, empty_of_ne (trim t) i.0, IsId-bytes max_memory_id_len (trim t) i, i.1, i.2, e),
)

-- A returned memory id is canonical: checking it again returns it.
pub validate_memory_id_idem :
    (t u : Text) → validate_memory_id t ≡ ok u → validate_memory_id u ≡ ok u
validate_memory_id_idem t u h =
    let (e, i) = (validate_memory_id_iff t u).0 h in
    (validate_memory_id_iff u u).1 (
      rw e (sym (trim_idem t)),
      subst (IsId max_memory_id_len) (sym (trim_idem t) ∙ ap trim (sym e)) i,
    )

-- `ProjectId::parse` returns its input, untrimmed, exactly if it is an identifier of at most 64
-- characters.
pub parse_project_id_iff :
    (t u : Text) → (parse_project_id t ≡ ok u) ↔ ((u ≡ t) × IsId max_project_id_len t)
unfolding parse_project_id
parse_project_id_iff t u = (
  λ h. ground (arith, checked_IsId max_project_id_len t),
  λ p.
      let (e, i) = p in
      ground (arith, empty_of_ne t i.0, IsId-bytes max_project_id_len t i, i.1, i.2, e),
)

-- A project id is a memory id as it stands.
pub project_id-memory_id : (t u : Text) → parse_project_id t ≡ ok u → validate_memory_id t ≡ ok t
project_id-memory_id t u h =
    let (_, i) = (parse_project_id_iff t u).0 h in
    (validate_memory_id_iff t t).1 (
      sym (IsId-trim max_project_id_len t i),
      rw (IsId-trim max_project_id_len t i) (i.0, omega (arith, i.1), i.2),
    )

hex_digit : ℕ → Bool
hex_digit b = is_ascii_digit b || between b'a' b'f' b

hex_digit-ascii : (b : ℕ) → hex_digit b ≡ true → b < 0x80
unfolding hex_digit
hex_digit-ascii b h = ground arith

-- An accepted source generation is the trimmed input: 64 lowercase hexadecimal digits.
pub validate_source_generation_sound :
    (t u : Text)
    → validate_source_generation t ≡ ok u
    → (u ≡ trim t) × (length u ≡ 64) × (all (λ c. is_ascii_digit c || between b'a' b'f' c) u ≡ true)
unfolding validate_source_generation hex_digit
validate_source_generation_sound t u h =
    ground (arith, bytes-ascii hex_digit hex_digit-ascii (trim t))

pub validate_source_generation_idem :
    (t u : Text) → validate_source_generation t ≡ ok u → validate_source_generation u ≡ ok u
unfolding validate_source_generation
validate_source_generation_idem t u h =
    let same : u ≡ trim t = (validate_source_generation_sound t u h).0 in
    subst (λ v. validate_source_generation v ≡ ok u) (sym (same)) (rw (trim_idem t) h)
