-- ===== src/Terms.antt =====
-- Tags, retrieval terms, keywords, entities and summaries: lines 190 to 420 of memory_store/mod.rs.
pub mod Bounds
use jiandu.Prelude.{
  ℕ, ◌+◌, ◌-◌, Bool, true, false, not, ◌&&◌, ◌||◌, List, [], ◌∷◌, ◌++◌, Option, none, some,
  Ordering, ltb, leb, ◌==◌, if◌then◌else◌, length, take, filter, any, is_empty, map,
}
use jiandu.Prelude.Classes.{nat_eq, list_eq, contains}
use jiandu.Prelude.Order.{text_cmp}
use jiandu.Text.{
  Text, text, nonempty, is_whitespace, is_ascii_alphanumeric, is_ascii_uppercase,
  to_ascii_lowercase, trim, trim_end, trim_matches, split, split_whitespace, join,
}
use jiandu.Unicode.{Unicode, is_control}
use jiandu.Lexical.{tokenize}

abbrev pub max_memory_tags : ℕ
max_memory_tags = 32

abbrev pub max_memory_tag_chars : ℕ
max_memory_tag_chars = 64

abbrev pub max_retrieval_term_chars : ℕ
max_retrieval_term_chars = 96

abbrev pub max_explicit_memory_keywords : ℕ
max_explicit_memory_keywords = 32

abbrev pub max_explicit_memory_entities : ℕ
max_explicit_memory_entities = 16

abbrev pub max_memory_keywords : ℕ
max_memory_keywords = 128

abbrev pub max_memory_entities : ℕ
max_memory_entities = 64

-- `BTreeSet::insert` on the set's elements in order; the order of UTF-8 texts is that of code points.
unfoldable pub insert_set : Text → List Text → List Text
insert_set t [] = t ∷ []
insert_set t (u ∷ us) = elim (text_cmp t u) [
  | Ordering.lt ↦ t ∷ u ∷ us
  | Ordering.eq ↦ u ∷ us
  | Ordering.gt ↦ u ∷ insert_set t us
]

unfoldable pub insert_all : List Text → List Text → List Text
insert_all seen [] = seen
insert_all seen (t ∷ ts) = insert_all (insert_set t seen) ts

abbrev is_dash : ℕ → Bool
is_dash c = c == b'-'

abbrev cons_if : Bool → Text → List Text → List Text
cons_if true t ts = t ∷ ts
cons_if false t ts = ts

-- The loop of `sanitize_component` on the characters to come, with `prev_dash`.
component_chars : Bool → Text → Text
component_chars prev_dash [] = []
component_chars prev_dash (ch ∷ t) =
    let normalized = if is_ascii_alphanumeric ch then to_ascii_lowercase ch else b'-' in
    let rest = component_chars (normalized == b'-') t in
    if normalized == b'-' && prev_dash then rest else normalized ∷ rest

unfoldable pub sanitize_component : Text → Text
unfolding component_chars
sanitize_component input =
    let trimmed = trim input in
    if is_empty trimmed
    then text "unknown"
    else (let out = trim_matches (λ c. c == b'-') (component_chars false trimmed) in
        if is_empty out then text "unknown" else out)

-- `lines().map(str::trim).filter(|line| !line.is_empty())`; a final carriage return is trimmed too.
abbrev pub trimmed_lines : Text → List Text
trimmed_lines t = filter (λ l. not (is_empty l)) (map trim (split (λ c. c == b'\n') t))

unfoldable pub truncate_chars : Text → ℕ → Text × Bool
truncate_chars value max_chars = (take max_chars value, ltb max_chars (length value))

unfoldable pub derive_summary : Text → ℕ → Text
derive_summary content max_chars =
    let (summary, truncated) = truncate_chars (join (text " ") (trimmed_lines content)) max_chars in
    if truncated then trim_end summary ++ text "..." else summary

abbrev pub is_entity_char : ℕ → Bool
is_entity_char c = is_ascii_alphanumeric c || c == b'-' || c == b'_' || c == b'/'

-- The characters of a piece are ASCII, so its bytes are its characters.
abbrev pub is_entity : Text → Bool
is_entity t =
    leb 3 (length t)
    && (any is_ascii_uppercase t || any (λ c. c == b'-' || c == b'_' || c == b'/') t)

unfoldable pub detect_entities : Text → Text → List Text
unfolding insert_all
detect_entities title content =
    let pieces = map trim (split (λ c. not (is_entity_char c)) (title ++ (b'\n' ∷ content))) in
    take max_memory_entities (insert_all [] (filter is_entity pieces))

module _ (unicode : Unicode) where
  unfoldable pub lowercase_chars : Text → Text
  lowercase_chars [] = []
  lowercase_chars (c ∷ t) = unicode.char_to_lowercase c ++ lowercase_chars t

  -- The loop of `normalize_tag` on the characters to come, with `prev_dash`.
  unfoldable pub tag_chars : Bool → Text → Text
  tag_chars prev_dash [] = []
  tag_chars prev_dash (ch ∷ t) =
      if unicode.is_alphanumeric ch
      then ch ∷ tag_chars false t
      else if (ch == b'-' || ch == b'_' || ch == b'.' || ch == b'/' || is_whitespace ch)
          && not prev_dash
      then b'-' ∷ tag_chars true t
      else tag_chars prev_dash t

  unfoldable pub normalize_tag : Text → Option Text
  normalize_tag tag =
      let trimmed = trim (unicode.nfkc tag) in
      if is_empty trimmed
      then none
      else (let out = tag_chars false (lowercase_chars trimmed) in
          nonempty (trim_matches is_dash (take max_memory_tag_chars (trim_matches is_dash out))))

  -- The loop of `normalize_tags`.
  unfoldable pub add_tags : List Text → List Text → List Text
  add_tags seen [] = seen
  add_tags seen (tag ∷ tags) = elim (normalize_tag tag) [
    | none ↦ add_tags seen tags
    | some t ↦
        let seen' = insert_set t seen in
        if leb max_memory_tags (length seen') then seen' else add_tags seen' tags
  ]

  unfoldable pub normalize_tags : List Text → List Text
  normalize_tags tags = add_tags [] tags

  unfoldable pub normalize_retrieval_term : Text → Option Text
  normalize_retrieval_term value =
      let collapsed = join (text " ") (split_whitespace (unicode.nfkc value)) in
      nonempty (trim (take max_retrieval_term_chars (filter (λ c. not (is_control c)) collapsed)))

  -- The loop of `normalize_retrieval_terms`, with the variables `seen` and `normalized`.
  unfoldable pub add_terms : ℕ → List Text → List Text → List Text → List Text
  add_terms limit seen normalized [] = normalized
  add_terms limit seen normalized (value ∷ values) = elim (normalize_retrieval_term value) [
    | none ↦ add_terms limit seen normalized values
    | some term ↦
        let key = unicode.str_to_lowercase term in
        if contains seen key
        then add_terms limit seen normalized values
        else if leb limit (length (normalized ++ term ∷ []))
        then normalized ++ term ∷ []
        else add_terms limit (seen ++ key ∷ []) (normalized ++ term ∷ []) values
  ]

  unfoldable pub normalize_retrieval_terms : List Text → ℕ → List Text
  normalize_retrieval_terms values limit = add_terms limit [] [] values

  unfoldable pub merge_retrieval_terms : List Text → List Text → ℕ → ℕ → List Text
  merge_retrieval_terms explicit fallback explicit_limit total_limit =
      normalize_retrieval_terms (normalize_retrieval_terms explicit explicit_limit ++ fallback)
        total_limit

  -- The tags of a list that are not empty after normalization.
  normal_tags : List Text → List Text
  normal_tags [] = []
  normal_tags (tag ∷ tags) = elim (normalize_tag tag) [
    | none ↦ normal_tags tags
    | some t ↦ t ∷ normal_tags tags
  ]

  unfoldable pub extract_keywords : Text → Text → List Text → List Text
  unfolding normal_tags
  extract_keywords title content tags = take max_memory_keywords (
      insert_all (insert_all [] (normal_tags tags)) (tokenize unicode (title ++ (b'\n' ∷ content))))

  unfoldable pub retrieval_keywords : Text → Text → List Text → List Text → List Text
  retrieval_keywords title content tags explicit =
      merge_retrieval_terms explicit (extract_keywords title content tags)
        max_explicit_memory_keywords max_memory_keywords

  unfoldable pub retrieval_keywords_preserving :
      Text → Text → List Text → List Text → List Text → List Text
  retrieval_keywords_preserving title content tags explicit preserved =
      normalize_retrieval_terms
        (normalize_retrieval_terms explicit max_explicit_memory_keywords
          ++ (preserved ++ extract_keywords title content tags))
        max_memory_keywords

  unfoldable pub retrieval_entities : Text → Text → List Text → List Text
  retrieval_entities title content explicit =
      merge_retrieval_terms explicit (detect_entities title content) max_explicit_memory_entities
        max_memory_entities

  unfoldable pub retrieval_entities_preserving : Text → Text → List Text → List Text → List Text
  retrieval_entities_preserving title content explicit preserved =
      normalize_retrieval_terms
        (normalize_retrieval_terms explicit max_explicit_memory_entities
          ++ (preserved ++ detect_entities title content))
        max_memory_entities
