-- ===== src/Document.antt =====
-- The Markdown documents of memory_store/mod.rs: `parse_markdown_document` and
-- `render_markdown_document`. The YAML between the markers is read and printed by serde_yaml, which
-- is the parameter `Yaml`.
pub mod Markers
pub mod RoundTrip
use jiandu.Prelude.{
  ℕ, ◌≡◌, ◌≢◌, true, not, List, [], ◌∷◌, ◌++◌, Option, none, some, ◌==◌, if◌then◌else◌, all,
  is_empty, All,
}
use jiandu.Result.{Result, ok, err, invalid_data, ◌>>=◌, map_err}
use jiandu.Text.{Text, text, trim, trim_start_matches, strip_prefix, join}
use jiandu.Types.{DurableMemoryFrontmatter}
use jiandu.Validate.{validate_memory_id}

-- serde_yaml at one type.
pub record Yaml (A : Type 0) : Type 0 where
  pub to_string : A → Option Text
  pub from_str : Text → Option A

-- What the documents rely on, at one value: it prints as one or more lines, none of them a document
-- marker, and is read back from these lines.
pub record YamlLaws {A : Type 0} (yaml : Yaml A) (a : A) : Type 0 where
  pub lines : List Text
  pub some_line : lines ≢ []
  pub plain : All (λ l. (all (λ c. not (c == b'\n')) l ≡ true) × (l ≢ text "---")) lines
  pub printed : yaml.to_string a ≡ some (join (text "\n") lines ++ text "\n")
  pub read_back : yaml.from_str (join (text "\n") lines) ≡ some a

abbrev pub or_err {ℓ} : {A : Type ℓ} → Option A → Result A
or_err none = err invalid_data
or_err (some a) = ok a

abbrev cons_fst : ℕ → Option (Text × Text) → Option (Text × Text)
cons_fst c none = none
cons_fst c (some (a, b)) = some (c ∷ a, b)

-- `find(needle)` with the two slices around the first occurrence.
unfoldable pub split_once : Text → Text → Option (Text × Text)
split_once needle [] = if is_empty needle then some ([], []) else none
split_once needle (c ∷ t) = elim (strip_prefix needle (c ∷ t)) [
  | some rest ↦ some ([], rest)
  | none ↦ cons_fst c (split_once needle t)
]

abbrev pub end_marker : Text
end_marker = text "\n---\n"

unfoldable pub parse_markdown_document :
    Yaml DurableMemoryFrontmatter → Text → Result (DurableMemoryFrontmatter × Text)
parse_markdown_document yaml content = do
  rest ← or_err (strip_prefix (text "---\n") (trim_start_matches (λ c. c == 0xFEFF) content))
  parts ← or_err (split_once end_marker rest)
  frontmatter ← or_err (yaml.from_str parts.0)
  id ← map_err invalid_data (validate_memory_id frontmatter.id)
  ok (record frontmatter { id = id }, trim parts.1)

unfoldable pub render_markdown_document :
    Yaml DurableMemoryFrontmatter → DurableMemoryFrontmatter → Text → Result Text
render_markdown_document yaml frontmatter body = do
  id ← validate_memory_id frontmatter.id
  printed ← or_err (yaml.to_string (record frontmatter { id = id }))
  ok (text "---\n" ++ (printed ++ (text "---\n\n" ++ (trim body ++ text "\n"))))
