-- ===== src/Unicode.antt =====
-- What the program takes from unicode-normalization and from the Unicode tables of the standard
-- library: parameters of the modules that use them.
use jiandu.Prelude.{ℕ, Bool, ◌||◌, leb}
use jiandu.Text.{Text, between}

pub record Unicode : Type 0 where
  pub nfkc : Text → Text
  pub is_alphanumeric : ℕ → Bool
  pub char_to_lowercase : ℕ → Text
  pub str_to_lowercase : Text → Text

-- `char::is_control`, the category Cc.
abbrev pub is_control : ℕ → Bool
is_control c = leb c 31 || between 127 159 c
