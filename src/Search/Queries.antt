-- ===== src/Search/Queries.antt =====
-- The queries of memory_store/store.rs: `query_scope_inner` over the lexical index and as a listing, and its
-- two callers.
use jiandu.Prelude.{
  ℕ, Bool, true, false, ◌&&◌, List, [], ◌∷◌, ◌++◌, Option, none, some, length, take, drop, filter,
  filter_map, map, compare, unwrap_or,
}
use jiandu.Prelude.Classes.{nat_eq, list_eq, contains}
use jiandu.Prelude.Sort.{then_with, not_after, sort_by}
use jiandu.Result.{Result, ok, err, invalid_input, invalid_data, fail_if, map_err}
use jiandu.Text.{Text, trimmed}
use jiandu.Float.{cmp_or_equal}
use jiandu.Types.{MemoryScope, DurableMemoryDocument, type_eq, status_eq, granularity_eq}
use jiandu.Index.{LexicalIndex, LexicalIndexItem}
use jiandu.Terms.{truncate_chars, derive_summary}
use jiandu.Query.{admits, admits_granularity, match_memory_query}
use jiandu.Query.Cursor.{parse_query_cursor}
use jiandu.Recall.{MemoryRecallCandidate, recall_candidates_from_lexical_index_with_status_policy}
use jiandu.Store.Disk.{Env, Action, ◌>>=◌, ◌>>◌, return, lift}
use jiandu.Store.Locate.{require_project_key, get_memory_at_locator, list_memory_documents}
use jiandu.Search.{
  MemoryQueryOptions, Filters, MemoryQueryItem, MemoryQueryResult, too_long, limit_of, per_item_max,
  combined_related_ids, page, some_or, indexed_by_id, short_summary, read_lexical_index,
  record_memory_accesses,
}

module _ (env : Env) where
  open env.float use {F, lit, mul, div, round}

  abbrev pub or_invalid_data : {A : Type 0} → Action A → Action A
  or_invalid_data m d = (map_err invalid_data (m d).0, (m d).1)

  abbrev pub filtered : Filters → LexicalIndex → LexicalIndex
  filtered filters index = record index {
    items =
        filter
          (λ item.
            admits contains filters.types item.memory_type
            && admits contains filters.statuses item.status
            && admits_granularity filters.granularities item.granularity)
          index.items;
  }

  abbrev pub related_or_invalid : Option DurableMemoryDocument → Result (List Text)
  related_or_invalid none = err invalid_data
  related_or_invalid (some doc) = ok (combined_related_ids doc)

  abbrev pub related_ids : MemoryScope → Option Text → Bool → Text → Action (List Text)
  related_ids scope key true id =
      get_memory_at_locator env scope key id >>= λ found. lift (related_or_invalid found)
  related_ids scope key false id = return []

  abbrev pub indexed_query_item : ℕ → F → LexicalIndexItem → List Text → MemoryQueryItem F
  indexed_query_item per_item relevance indexed related = record {
    id = indexed.id;
    title = indexed.title;
    memory_type = indexed.memory_type;
    scope = indexed.scope;
    status = indexed.status;
    summary = short_summary (truncate_chars indexed.summary per_item);
    tags = indexed.tags;
    granularity = indexed.granularity;
    relevance = relevance;
    related_ids = related;
    project_key = indexed.project_key;
  }

  abbrev pub add_item :
      MemoryScope
      → Option Text
      → Bool
      → ℕ
      → MemoryRecallCandidate F
      → Option LexicalIndexItem
      → Action (List (MemoryQueryItem F))
  add_item scope key include_related per_item candidate none = return []
  add_item scope key include_related per_item candidate (some indexed) =
      related_ids scope key include_related candidate.id >>= λ related.
      return (indexed_query_item per_item candidate.score indexed related ∷ [])

  unfoldable pub query_items :
      MemoryScope
      → Option Text
      → Bool
      → ℕ
      → List LexicalIndexItem
      → List (MemoryRecallCandidate F)
      → Action (List (MemoryQueryItem F))
  query_items scope key include_related per_item indexed [] = return []
  query_items scope key include_related per_item indexed (candidate ∷ candidates) =
      add_item scope key include_related per_item candidate (indexed_by_id candidate.id indexed)
      >>= λ item. query_items scope key include_related per_item indexed candidates >>= λ items.
          return (item ++ items)

  unfoldable pub query_index :
      MemoryScope → Option Text → Text → Filters → MemoryQueryOptions → Action (MemoryQueryResult F)
  query_index scope key query filters options = do
    read ← or_invalid_data (read_lexical_index env scope key)
    index ← lift (some_or read)
    let indexed = filtered filters index
    let candidates =
        recall_candidates_from_lexical_index_with_status_policy env.unicode env.float
          env.parse_rfc3339 indexed query (length indexed.items) true
    let offset = parse_query_cursor options.cursor
    let remaining = drop offset candidates
    items ←
        query_items scope key options.include_related (per_item_max options) indexed.items
          (take (limit_of options) remaining)
    return (page scope offset (length candidates) (length remaining) items)

  abbrev pub scored : Option F → DurableMemoryDocument → Option (DurableMemoryDocument × F)
  scored none doc = none
  scored (some relevance) doc = some (doc, relevance)

  abbrev pub instant_of : DurableMemoryDocument → ℕ
  instant_of doc = unwrap_or (env.parse_rfc3339 doc.frontmatter.updated_at) 0

  unfoldable pub sort_matches : List (DurableMemoryDocument × F) → List (DurableMemoryDocument × F)
  unfolding sort_by
  sort_matches = sort_by (λ left right. not_after (
      then_with (cmp_or_equal env.float right.1 left.1)
        (compare (instant_of right.0) (instant_of left.0))))

  abbrev pub related_if : Bool → DurableMemoryDocument → List Text
  related_if true doc = combined_related_ids doc
  related_if false doc = []

  abbrev pub listed_query_item : Bool → ℕ → DurableMemoryDocument × F → MemoryQueryItem F
  listed_query_item include_related per_item (doc, relevance) = record {
    id = doc.frontmatter.id;
    title = doc.frontmatter.title;
    memory_type = doc.frontmatter.memory_type;
    scope = doc.frontmatter.scope;
    status = doc.frontmatter.status;
    summary = derive_summary doc.body per_item;
    tags = doc.frontmatter.tags;
    granularity = doc.frontmatter.granularity;
    relevance = div (round (mul relevance (lit 100 1))) (lit 100 1);
    related_ids = related_if include_related doc;
    project_key = doc.frontmatter.project_key;
  }

  -- Without a query: the filtered listing.
  unfoldable pub query_listing :
      MemoryScope
      → Option Text
      → Option Text
      → Filters
      → MemoryQueryOptions
      → Action (MemoryQueryResult F)
  query_listing scope key query filters options = do
    docs ← list_memory_documents env scope key
    let matches = sort_matches (
        filter_map
          (λ doc.
            scored
              (match_memory_query env.unicode env.float doc query filters.types filters.statuses
                filters.granularities)
              doc)
          docs)
    let offset = parse_query_cursor options.cursor
    let remaining = drop offset matches
    let items =
        map (listed_query_item options.include_related (per_item_max options))
          (take (limit_of options) remaining)
    return (page scope offset (length matches) (length remaining) items)

  abbrev pub query_page :
      MemoryScope
      → Option Text
      → Option Text
      → Option Text
      → Filters
      → MemoryQueryOptions
      → Action (MemoryQueryResult F)
  query_page scope key query none filters options = query_listing scope key query filters options
  query_page scope key query (some nonblank) filters options =
      query_index scope key nonblank filters options

  abbrev pub record_if :
      Bool → MemoryScope → Option Text → List (MemoryQueryItem F) → Action (Unit {0})
  record_if true scope key items =
      record_memory_accesses env scope key (map (λ (item : MemoryQueryItem F). item.id) items)
  record_if false scope key items = return tt

  unfoldable pub query_scope_inner :
      MemoryScope
      → Option Text
      → Option Text
      → Filters
      → MemoryQueryOptions
      → Bool
      → Action (MemoryQueryResult F)
  query_scope_inner scope project_key query filters options record_access = do
    key ← lift (require_project_key env scope project_key)
    lift (fail_if (too_long (trimmed query)) invalid_input)
    result ← query_page scope key query (trimmed query) filters options
    record_if record_access scope key result.items
    return result

  unfoldable pub query_scope :
      MemoryScope
      → Option Text
      → Option Text
      → Filters
      → MemoryQueryOptions
      → Action (MemoryQueryResult F)
  query_scope scope project_key query filters options =
      query_scope_inner scope project_key query filters options true

  unfoldable pub query_scope_read_only :
      MemoryScope
      → Option Text
      → Option Text
      → Filters
      → MemoryQueryOptions
      → Action (MemoryQueryResult F)
  query_scope_read_only scope project_key query filters options =
      query_scope_inner scope project_key query filters options false
