-- ===== src/Gardener/Scans.antt =====
-- `find_duplicate_candidates_with_retrieval`, `scan_blob_candidates` and `rebuild_scope` of
-- memory_store/store.rs.
use jiandu.Prelude.{
  ℕ, zero, suc, ◌+◌, ◌-◌, Bool, true, false, ◌&&◌, ◌||◌, List, [], ◌∷◌, ◌++◌, Option, none, some,
  ltb, leb, if◌then◌else◌, length, filter, filter_map, take, is_empty, max, compare,
}
use jiandu.Prelude.Classes.{◌=?◌, nat_eq, list_eq, contains}
use jiandu.Prelude.Sort.{then_with, not_after, sort_by}
use jiandu.Prelude.Order.{text_cmp}
use jiandu.Text.{Text, starts_with}
use jiandu.Float.{cmp_or_equal}
use jiandu.Types.{
  MemoryScope, DurableMemoryType, type_eq, active, status_beq, DurableMemoryDocument,
  MemoryRetrievalInput,
}
use jiandu.Terms.{retrieval_keywords, retrieval_entities, derive_summary, insert_all}
use jiandu.Store.Disk.{Env, Action, ◌>>=◌, return, lift}
use jiandu.Store.Locate.{require_project_key, list_memory_documents}
use jiandu.Store.Artifacts.{refresh_scope_artifacts}
use jiandu.Store.Limits.{max_durable_memory_body_chars, memory_section_separator}

pub record MemoryDuplicateCandidate (F : Type 0) : Type 0 where
  pub id : Text
  pub title : Text
  pub memory_type : DurableMemoryType
  pub scope : MemoryScope
  pub score : F
  pub snippet : Text

pub record BlobScanItem : Type 0 where
  pub id : Text
  pub title : Text
  pub appended_sections : ℕ
  pub body_chars : ℕ
  pub over_cap : Bool

pub record BlobScanReport : Type 0 where
  pub scope : MemoryScope
  pub project_key : Option Text
  pub scanned : ℕ
  pub flagged : ℕ
  pub threshold : ℕ
  pub items : List BlobScanItem

abbrev pub is_active : DurableMemoryDocument → Bool
is_active doc = status_beq doc.frontmatter.status active

-- A `HashSet` of texts, as a list of its elements in order.
abbrev pub set_of : List Text → List Text
set_of = insert_all []

abbrev pub shared : List Text → List Text → List Text
shared a b = filter (contains b) a

abbrev pub wanted_type : Option DurableMemoryType → DurableMemoryDocument → Bool
wanted_type none doc = true
wanted_type (some wanted) doc = doc.frontmatter.memory_type =? wanted

-- `split(separator).count() - 1`: the separators in a text, none of which overlap; `skip` characters of
-- the last one are still to come.
unfoldable pub separators : Text → ℕ → Text → ℕ
separators separator skip [] = 0
separators separator (suc skip) (c ∷ t) = separators separator skip t
separators separator zero (c ∷ t) =
    let after = separators separator (length separator - 1) t in
    let rest = separators separator 0 t in if starts_with separator (c ∷ t) then suc after else rest

module _ (env : Env) where
  open env.float use {F, lit, of_ℕ, mul, div, round}

  abbrev pub duplicate_of :
      List Text → DurableMemoryDocument → ℕ → Option (MemoryDuplicateCandidate F)
  duplicate_of wanted doc zero = none
  duplicate_of wanted doc (suc n) =
      let keywords =
        set_of (doc.frontmatter.retrieval.keywords ++ doc.frontmatter.retrieval.entities) in
      let union = (length wanted + length keywords) - suc n in
      some (record {
        id = doc.frontmatter.id;
        title = doc.frontmatter.title;
        memory_type = doc.frontmatter.memory_type;
        scope = doc.frontmatter.scope;
        score = div (round (mul (div (of_ℕ (suc n)) (of_ℕ union)) (lit 1000 10))) (lit 1000 10);
        snippet = derive_summary doc.body 200;
      })

  -- The candidate that a document gives, by what it shares with the wanted keywords.
  abbrev pub scored_duplicate :
      List Text → DurableMemoryDocument → Option (MemoryDuplicateCandidate F)
  scored_duplicate wanted doc = duplicate_of wanted doc (
      length (
        shared wanted
          (set_of (doc.frontmatter.retrieval.keywords ++ doc.frontmatter.retrieval.entities))))

  unfoldable pub sort_duplicates :
      List (MemoryDuplicateCandidate F) → List (MemoryDuplicateCandidate F)
  unfolding sort_by
  sort_duplicates = sort_by (λ left right.
      not_after
        (then_with (cmp_or_equal env.float right.score left.score) (text_cmp left.id right.id)))

  -- Without keywords there are no candidates.
  abbrev pub duplicates_if :
      Bool
      → MemoryScope
      → Option Text
      → Option DurableMemoryType
      → List Text
      → ℕ
      → Action (List (MemoryDuplicateCandidate F))
  duplicates_if true scope key memory_type wanted limit = return []
  duplicates_if false scope key memory_type wanted limit =
      list_memory_documents env scope key >>= λ docs. return (
        take (max limit 1) (
          sort_duplicates (
            filter_map (scored_duplicate wanted)
              (filter (λ doc. is_active doc && wanted_type memory_type doc) docs))))

  unfoldable pub find_duplicate_candidates_with_retrieval :
      MemoryScope
      → Option Text
      → Option DurableMemoryType
      → Text
      → Text
      → List Text
      → MemoryRetrievalInput
      → ℕ
      → Action (List (MemoryDuplicateCandidate F))
  find_duplicate_candidates_with_retrieval scope project_key memory_type title content tags
        retrieval limit =
      do
        key ← lift (require_project_key env scope project_key)
        let wanted = set_of (
            retrieval_keywords env.unicode title content tags retrieval.keywords
            ++ retrieval_entities env.unicode title content retrieval.entities)
        duplicates_if (is_empty wanted) scope key memory_type wanted limit

  abbrev pub blob_if : Bool → BlobScanItem → Option BlobScanItem
  blob_if false item = none
  blob_if true item = some item

  abbrev pub blob_item : DurableMemoryDocument → BlobScanItem
  blob_item doc = record {
    id = doc.frontmatter.id;
    title = doc.frontmatter.title;
    appended_sections = separators memory_section_separator 0 doc.body;
    body_chars = length doc.body;
    over_cap = ltb max_durable_memory_body_chars (length doc.body);
  }

  abbrev pub flagged_blob : ℕ → DurableMemoryDocument → Option BlobScanItem
  flagged_blob threshold doc =
      let item = blob_item doc in
      blob_if (leb threshold item.appended_sections || item.over_cap) item

  unfoldable pub sort_blobs : List BlobScanItem → List BlobScanItem
  unfolding sort_by
  sort_blobs = sort_by (λ left right. not_after (
      then_with (compare right.appended_sections left.appended_sections)
        (then_with (compare right.body_chars left.body_chars) (text_cmp left.id right.id))))

  unfoldable pub scan_blob_candidates : MemoryScope → Option Text → ℕ → ℕ → Action BlobScanReport
  scan_blob_candidates scope project_key threshold limit = do
    key ← lift (require_project_key env scope project_key)
    docs ← list_memory_documents env scope key
    let items = sort_blobs (filter_map (flagged_blob threshold) (filter is_active docs))
    return (record {
      scope = scope;
      project_key = key;
      scanned = length docs;
      flagged = length items;
      threshold = threshold;
      items = take (max limit 1) items;
    })

  -- `rebuild_scope`, without its guard.
  unfoldable pub rebuild_scope : MemoryScope → Option Text → Action (Unit {0})
  rebuild_scope scope project_key = lift (require_project_key env scope project_key) >>= λ key.
      refresh_scope_artifacts env scope key
