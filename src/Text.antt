-- ===== src/Text.antt =====
-- Rust's text as the source uses it: a `str` is the list of its characters (Unicode scalar values),
-- with the UTF-8 bytes that `len` and `bytes` speak of, the White_Space property that `trim` tests,
-- and the searches and splits of `str`. These are the standard library's, so no line of the
-- repository is mapped here.
pub mod Trim
pub mod Utf8
use Prim.Native.Char.{code}
use jiandu.Prelude.{
  ℕ, ◌+◌, String, Bool, true, false, not, ◌&&◌, ◌||◌, List, [], ◌∷◌, ◌++◌, Option, none, some, ◌≡◌,
  refl, leb, ◌==◌, if◌then◌else◌, filter, is_empty, ◌↔◌,
}
use jiandu.Prelude.Classes.{◌=?◌, nat_eq, list_eq}

abbrev pub Text : Type 0
Text = List ℕ

-- The characters of a literal. `String` has its own `[]` and `∷`.
abbrev pub text : String → Text
text String.[] = []
text (String.◌∷◌ c s) = code c ∷ text s

abbrev pub between : ℕ → ℕ → ℕ → Bool
between lo hi c = leb lo c && leb c hi

-- The Unicode property White_Space.
unfoldable pub is_whitespace : ℕ → Bool
is_whitespace c =
    between 9 13 c
    || c == 32
    || c == 0x85
    || c == 0xA0
    || c == 0x1680
    || between 0x2000 0x200A c
    || c == 0x2028
    || c == 0x2029
    || c == 0x202F
    || c == 0x205F
    || c == 0x3000

abbrev pub is_ascii_digit : ℕ → Bool
is_ascii_digit c = between b'0' b'9' c

abbrev pub is_ascii_uppercase : ℕ → Bool
is_ascii_uppercase c = between b'A' b'Z' c

abbrev pub is_ascii_lowercase : ℕ → Bool
is_ascii_lowercase c = between b'a' b'z' c

abbrev pub is_ascii_alphanumeric : ℕ → Bool
is_ascii_alphanumeric c = is_ascii_digit c || is_ascii_uppercase c || is_ascii_lowercase c

unfoldable pub to_ascii_lowercase : ℕ → ℕ
to_ascii_lowercase c = if is_ascii_uppercase c then c + 32 else c

-- `trim_start_matches` and `trim_end_matches` by a test of one character.
unfoldable pub trim_start_matches : (ℕ → Bool) → Text → Text
trim_start_matches p [] = []
trim_start_matches p (c ∷ t) = if p c then trim_start_matches p t else c ∷ t

abbrev pub keep_last : (ℕ → Bool) → ℕ → Text → Text
keep_last p c [] = if p c then [] else c ∷ []
keep_last p c (d ∷ t) = c ∷ d ∷ t

unfoldable pub trim_end_matches : (ℕ → Bool) → Text → Text
trim_end_matches p [] = []
trim_end_matches p (c ∷ t) = keep_last p c (trim_end_matches p t)

unfoldable pub trim_matches : (ℕ → Bool) → Text → Text
unfolding trim_start_matches trim_end_matches
trim_matches p t = trim_end_matches p (trim_start_matches p t)

unfoldable pub trim : Text → Text
unfolding trim_matches is_whitespace
trim t = trim_matches is_whitespace t

unfoldable pub trim_end : Text → Text
unfolding trim_end_matches is_whitespace
trim_end t = trim_end_matches is_whitespace t

-- `map(str::trim).filter(|value| !value.is_empty())`
abbrev pub nonempty : Text → Option Text
nonempty [] = none
nonempty (c ∷ t) = some (c ∷ t)

unfoldable pub trimmed : Option Text → Option Text
trimmed none = none
trimmed (some t) = nonempty (trim t)

-- `strip_prefix`: what follows the prefix, if it is there.
unfoldable pub strip_prefix : Text → Text → Option Text
strip_prefix [] t = some t
strip_prefix (p ∷ ps) [] = none
strip_prefix (p ∷ ps) (c ∷ t) = if p == c then strip_prefix ps t else none

abbrev pub starts_with : Text → Text → Bool
starts_with [] t = true
starts_with (p ∷ ps) [] = false
starts_with (p ∷ ps) (c ∷ t) = p == c && starts_with ps t

-- `t.contains(needle)`.
unfoldable pub contains_text : Text → Text → Bool
contains_text needle [] = is_empty needle
contains_text needle (c ∷ t) = starts_with needle (c ∷ t) || contains_text needle t

abbrev prepend : ℕ → List Text → List Text
prepend c [] = (c ∷ []) ∷ []
prepend c (t ∷ ts) = (c ∷ t) ∷ ts

-- `split(p)`: the pieces between the characters that pass the test.
unfoldable pub split : (ℕ → Bool) → Text → List Text
split p [] = [] ∷ []
split p (c ∷ t) = let rest = split p t in if p c then [] ∷ rest else prepend c rest

unfoldable pub split_whitespace : Text → List Text
unfolding split is_whitespace
split_whitespace t = filter (λ piece. not (is_empty piece)) (split is_whitespace t)

unfoldable pub join : Text → List Text → Text
join sep [] = []
join sep (t ∷ []) = t
join sep (t ∷ u ∷ ts) = t ++ (sep ++ join sep (u ∷ ts))

pub text_eq_iff : (a b : Text) → ((a =? b) ≡ true) ↔ (a ≡ b)
text_eq_iff a b = list_eq.beq_iff a b

example_trim : trim (text "  a b\n") ≡ text "a b"
unfolding trim
example_trim = refl

example_split : split_whitespace (text " ab  c ") ≡ text "ab" ∷ text "c" ∷ []
unfolding split_whitespace
example_split = refl
