-- ===== src/Validate.antt =====
-- The identifier checks of memory_store/mod.rs (`validate_memory_id`, `validate_session_id`,
-- `validate_session_topic`, `validate_memory_title`), of project_id.rs (`ProjectId::parse`) and of
-- memory_store/store.rs (`validate_source_generation`).
pub mod Ids
pub mod Safety
use jiandu.Prelude.{ℕ, Bool, not, ◌&&◌, ◌||◌, [], ◌∷◌, ltb, leb, ◌==◌, all, length, is_empty}
use jiandu.Prelude.Classes.{◌=?◌, nat_eq, list_eq}
use jiandu.Result.{Result, ok, invalid_input, fail_if, ◌>>=◌, ◌>>◌}
use jiandu.Text.{Text, text, between, is_ascii_digit, is_ascii_alphanumeric, trim, contains_text}
use jiandu.Text.Utf8.{bytes, byte_len}

abbrev pub max_session_topic_len : ℕ
max_session_topic_len = 50

abbrev pub max_memory_id_len : ℕ
max_memory_id_len = 128

abbrev pub max_memory_title_len : ℕ
max_memory_title_len = 160

-- `ProjectId::MAX_LEN`
abbrev pub max_project_id_len : ℕ
max_project_id_len = 64

-- The test of a byte or a character that the three identifier checks share.
abbrev pub is_id_char : ℕ → Bool
is_id_char c = is_ascii_alphanumeric c || c == b'-' || c == b'_'

unfoldable pub validate_memory_id : Text → Result Text
validate_memory_id memory_id = do
  let trimmed = trim memory_id
  fail_if (is_empty trimmed) invalid_input
  fail_if (ltb max_memory_id_len (byte_len trimmed)) invalid_input
  fail_if (not (all is_id_char (bytes trimmed))) invalid_input
  ok trimmed

-- `'/'`, `'\\'` or `".."` somewhere in the text.
unfoldable pub has_path_syntax : Text → Bool
has_path_syntax t =
    contains_text (text "/") t || contains_text (b'\\' ∷ []) t || contains_text (text "..") t

unfoldable pub validate_session_id : Text → Result Text
validate_session_id session_id = do
  let trimmed = trim session_id
  fail_if (is_empty trimmed) invalid_input
  fail_if (trimmed =? text "." || trimmed =? text ".." || has_path_syntax trimmed) invalid_input
  fail_if (not (all (λ c. is_id_char c || c == b'.') trimmed)) invalid_input
  ok trimmed

unfoldable pub validate_session_topic : Text → Result Text
validate_session_topic topic = do
  let trimmed = trim topic
  fail_if (is_empty trimmed) invalid_input
  fail_if (ltb max_session_topic_len (byte_len trimmed)) invalid_input
  fail_if (has_path_syntax trimmed) invalid_input
  fail_if (not (all is_id_char trimmed)) invalid_input
  ok trimmed

unfoldable pub validate_memory_title : Text → Result Text
validate_memory_title title = do
  let trimmed = trim title
  fail_if (is_empty trimmed) invalid_input
  fail_if (ltb max_memory_title_len (length trimmed)) invalid_input
  ok trimmed

-- A `ProjectId` is the text that `parse` accepted; nothing is trimmed.
unfoldable pub parse_project_id : Text → Result Text
parse_project_id value =
    fail_if
      (not (
        not (is_empty value)
        && leb (byte_len value) max_project_id_len
        && all is_id_char (bytes value)))
      invalid_input
    >> ok value

unfoldable pub validate_source_generation : Text → Result Text
validate_source_generation value = do
  let trimmed = trim value
  fail_if
      (not (byte_len trimmed == 64)
        || not (all (λ b. is_ascii_digit b || between b'a' b'f' b) (bytes trimmed)))
      invalid_input
  ok trimmed
