-- ===== src/Query.antt =====
-- Query matching, the order of query results, the Markdown views and the cursors of
-- memory_store/mod.rs (lines 618 to 816).
pub mod Cursor
pub mod Match
pub mod Views
use jiandu.Prelude.{
  ℕ, Bool, true, false, not, ◌&&◌, ◌||◌, List, [], ◌∷◌, Option, none, some, if◌then◌else◌, length,
  is_empty, map, compare, unwrap_or,
}
use jiandu.Prelude.Classes.{nat_eq, list_eq, contains}
use jiandu.Prelude.Sort.{then_with, not_after, sort_by}
use jiandu.Prelude.Order.{text_cmp}
use jiandu.Text.{Text, text, trim, trimmed, contains_text, to_ascii_lowercase}
use jiandu.Unicode.{Unicode}
use jiandu.Float.{Float, gt}
use jiandu.Types.{
  DurableMemoryType, DurableMemoryStatus, TemporalGranularity, DurableMemoryDocument, type_eq,
  status_eq, granularity_eq,
}
use jiandu.Lexical.{tokenize}

-- `filter_x: Option<&HashSet<_>>`, absent or a set of the admitted values.
abbrev pub admits {ℓ} : {A : Type ℓ} → (List A → A → Bool) → Option (List A) → A → Bool
admits member none a = true
admits member (some values) a = member values a

abbrev pub admits_granularity :
    Option (List TemporalGranularity) → Option TemporalGranularity → Bool
admits_granularity none g = true
admits_granularity (some values) none = false
admits_granularity (some values) (some g) = contains values g

abbrev pub passes :
    Option (List DurableMemoryType)
    → Option (List DurableMemoryStatus)
    → Option (List TemporalGranularity)
    → DurableMemoryDocument
    → Bool
passes types statuses granularities doc =
    admits contains types doc.frontmatter.memory_type
    && admits contains statuses doc.frontmatter.status
    && admits_granularity granularities doc.frontmatter.granularity

abbrev pub lower : Text → Text
lower t = map to_ascii_lowercase t

-- Where a token occurs in a memory, the fields in the order of the source.
abbrev pub occurs : DurableMemoryDocument → Text → Bool
occurs doc token =
    contains_text token (lower doc.frontmatter.title)
    || contains (map lower doc.frontmatter.retrieval.keywords) token
    || contains (map lower doc.frontmatter.tags) token
    || contains (map lower doc.frontmatter.retrieval.entities) token
    || contains_text token (lower doc.body)

-- The order of `sort_memories_desc`: the newer first, then by id.
module _ (parse_rfc3339 : Text → Option ℕ) where
  unfoldable pub sort_memories_desc : List DurableMemoryDocument → List DurableMemoryDocument
  unfolding sort_by
  sort_memories_desc = sort_by (λ left right. not_after (
      then_with
        (compare (unwrap_or (parse_rfc3339 right.frontmatter.updated_at) 0)
          (unwrap_or (parse_rfc3339 left.frontmatter.updated_at) 0))
        (text_cmp left.frontmatter.id right.frontmatter.id)))

module _ (unicode : Unicode) (float : Float) where
  open float use {F, lit, of_ℕ, add, div}

  -- The variables of the loop in `match_memory_query`.
  pub record Matching : Type 0 where
    pub total : F
    pub matched_any : Bool

  abbrev add_if : Bool → F → F → F
  add_if b w s = if b then add s w else s

  unfoldable pub token_score : DurableMemoryDocument → Text → F
  token_score doc token =
      let s = add_if (contains_text token (lower doc.frontmatter.title)) (lit 3 1) (lit 0 1) in
      let s =
        add_if (contains (map lower doc.frontmatter.retrieval.keywords) token) (lit 25 10) s in
      let s = add_if (contains (map lower doc.frontmatter.tags) token) (lit 2 1) s in
      let s =
        add_if (contains (map lower doc.frontmatter.retrieval.entities) token) (lit 15 10) s in
      add_if (contains_text token (lower doc.body)) (lit 1 1) s

  unfoldable pub match_token : DurableMemoryDocument → Matching → Text → Matching
  match_token doc s token =
      let scored = token_score doc token in
      if gt float scored (lit 0 1)
      then record { total = add s.total scored; matched_any = true }
      else s

  unfoldable pub match_tokens : DurableMemoryDocument → Matching → List Text → Matching
  match_tokens doc s [] = s
  match_tokens doc s (token ∷ tokens) = match_tokens doc (match_token doc s token) tokens

  unfoldable pub score_query : DurableMemoryDocument → List Text → Option F
  score_query doc query_tokens =
      if is_empty query_tokens
      then some (lit 1 1)
      else (let s =
            match_tokens doc (record { total = lit 0 1; matched_any = false }) query_tokens in
          if s.matched_any then some (div s.total (of_ℕ (length query_tokens))) else none)

  unfoldable pub match_memory_query :
      DurableMemoryDocument
      → Option Text
      → Option (List DurableMemoryType)
      → Option (List DurableMemoryStatus)
      → Option (List TemporalGranularity)
      → Option F
  match_memory_query doc query types statuses granularities =
      if not (passes types statuses granularities doc) then none else elim (trimmed query) [
        | none ↦ some (lit 1 1)
        | some q ↦ score_query doc (tokenize unicode q)
      ]
