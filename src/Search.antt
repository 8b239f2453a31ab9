-- ===== src/Search.antt =====
-- What a query of memory_store/store.rs takes and gives, the reading of the lexical index, and the access
-- log that a query adds to; `Queries` holds the queries.
pub mod Queries
pub mod Reading
pub mod Pages
use jiandu.Prelude.{
  ℕ, ◌+◌, ◌-◌, ◌/◌, Bool, true, false, not, List, [], ◌∷◌, ◌++◌, Option, none, some, ltb,
  if◌then◌else◌, length, filter, map, min, max, unwrap_or,
}
use jiandu.Prelude.Classes.{◌=?◌, nat_eq, list_eq}
use jiandu.Prelude.Sort.{not_after, sort_by}
use jiandu.Prelude.Order.{text_cmp}
use jiandu.Result.{Result, ok, err, invalid_data, not_found}
use jiandu.Text.{Text, text, trim_end}
use jiandu.Types.{
  MemoryScope, DurableMemoryType, DurableMemoryStatus, TemporalGranularity, DurableMemoryDocument,
  AccessLogEntry, type_eq, status_eq, granularity_eq,
}
use jiandu.Index.{LexicalIndex, LexicalIndexItem}
use jiandu.Query.Cursor.{make_query_cursor}
use jiandu.AccessLog.{compact_entries, AccessStats, aggregate_access_stats}
use jiandu.Paths.{PathBuf, join, indexes_dir, logs_dir}
use jiandu.Store.Disk.{
  Env, Action, Artifact, lexical, access_log, ◌>>=◌, ◌>>◌, return, lift, read_artifact,
  write_artifact, read_clock, now_rfc3339,
}
use jiandu.Store.Locate.{require_project_key}

abbrev pub max_memory_query_chars : ℕ
max_memory_query_chars = 512

abbrev pub default_query_limit : ℕ
default_query_limit = 3

abbrev pub max_query_limit : ℕ
max_query_limit = 20

abbrev pub default_max_chars : ℕ
default_max_chars = 3000

abbrev pub max_max_chars : ℕ
max_max_chars = 6000

abbrev pub access_log_compact_trigger_bytes : ℕ
access_log_compact_trigger_bytes = 262144

pub record MemoryQueryOptions : Type 0 where
  pub limit : Option ℕ
  pub max_chars : Option ℕ
  pub cursor : Option Text
  pub include_related : Bool

pub record Filters : Type 0 where
  pub types : Option (List DurableMemoryType)
  pub statuses : Option (List DurableMemoryStatus)
  pub granularities : Option (List TemporalGranularity)

pub record MemoryQueryItem (F : Type 0) : Type 0 where
  pub id : Text
  pub title : Text
  pub memory_type : DurableMemoryType
  pub scope : MemoryScope
  pub status : DurableMemoryStatus
  pub summary : Text
  pub tags : List Text
  pub granularity : Option TemporalGranularity
  pub relevance : F
  pub related_ids : List Text
  pub project_key : Option Text

pub record MemoryQueryResult (F : Type 0) : Type 0 where
  pub items : List (MemoryQueryItem F)
  pub returned_count : ℕ
  pub matched_count : ℕ
  pub truncated : Bool
  pub remaining_count : ℕ
  pub next_cursor : Option Text

abbrev pub clamp : ℕ → ℕ → ℕ → ℕ
clamp low high n = max low (min n high)

abbrev pub too_long : Option Text → Bool
too_long none = false
too_long (some query) = ltb max_memory_query_chars (length query)

abbrev pub chars_of : MemoryQueryOptions → ℕ
chars_of options = min (unwrap_or options.max_chars default_max_chars) max_max_chars

abbrev pub limit_of : MemoryQueryOptions → ℕ
limit_of options = clamp 1 max_query_limit (unwrap_or options.limit default_query_limit)

abbrev pub per_item_max : MemoryQueryOptions → ℕ
per_item_max options = max (chars_of options / max (limit_of options) 1) 120

abbrev pub dedup_after : Text → List Text → List Text
dedup_after x [] = x ∷ []
dedup_after x (y ∷ ys) = if x =? y then y ∷ ys else x ∷ y ∷ ys

-- `dedup`: equal neighbours once.
unfoldable pub dedup : List Text → List Text
dedup [] = []
dedup (x ∷ xs) = dedup_after x (dedup xs)

unfoldable pub combined_related_ids : DurableMemoryDocument → List Text
unfolding sort_by dedup
combined_related_ids doc =
    let relations = doc.frontmatter.relations in
    filter (λ value. not (value =? doc.frontmatter.id))
      (dedup (
        sort_by (λ a b. not_after (text_cmp a b))
          (relations.related ++ (relations.supersedes ++ relations.contradicted_by))))

-- The page that a query returns, out of what is left from its offset on.
abbrev pub page :
    {F : Type 0} → MemoryScope → ℕ → ℕ → ℕ → List (MemoryQueryItem F) → MemoryQueryResult F
page scope offset matched remaining items =
    let remaining_count = remaining - length items in
    record {
      items = items;
      returned_count = length items;
      matched_count = matched;
      truncated = ltb 0 remaining_count;
      remaining_count = remaining_count;
      next_cursor =
          if ltb 0 remaining_count
          then some (make_query_cursor scope (offset + length items))
          else none;
    }

abbrev pub as_lexical : Option Artifact → Result (Option LexicalIndex)
as_lexical none = ok none
as_lexical (some (lexical index)) = ok (some index)
as_lexical (some _) = err invalid_data

abbrev pub as_entries : Option Artifact → List AccessLogEntry
as_entries none = []
as_entries (some (access_log entries)) = entries
as_entries (some _) = []

abbrev pub some_or : Option LexicalIndex → Result LexicalIndex
some_or none = err not_found
some_or (some index) = ok index

-- `HashMap` of the items by id: the last of equal ids stays.
abbrev pub or_item : Option LexicalIndexItem → LexicalIndexItem → Text → Option LexicalIndexItem
or_item (some later) item id = some later
or_item none item id = if item.id =? id then some item else none

unfoldable pub indexed_by_id : Text → List LexicalIndexItem → Option LexicalIndexItem
indexed_by_id id [] = none
indexed_by_id id (item ∷ items) = or_item (indexed_by_id id items) item id

abbrev pub short_summary : Text × Bool → Text
short_summary (summary, true) = trim_end summary ++ text "..."
short_summary (summary, false) = summary

module _ (env : Env) where
  unfoldable pub read_lexical_index : MemoryScope → Option Text → Action (Option LexicalIndex)
  read_lexical_index scope project_key = do
    key ← lift (require_project_key env scope project_key)
    found ← read_artifact (join (indexes_dir env.resolver scope key) (text "lexical.json"))
    lift (as_lexical found)

  abbrev pub access_log_path : MemoryScope → Option Text → PathBuf
  access_log_path scope key = join (logs_dir env.resolver scope key) (text "access_log.jsonl")

  -- `compact_access_log_at`, at the time that it reads.
  abbrev compact_if : Bool → List AccessLogEntry → Action (List AccessLogEntry)
  compact_if false entries = return entries
  compact_if true entries =
      read_clock env >>= λ now. return (compact_entries env.parse_rfc3339 entries now)

  unfoldable pub record_memory_accesses_inner : PathBuf → List Text → Action (Unit {0})
  record_memory_accesses_inner path ids = do
    ts ← now_rfc3339 env
    found ← read_artifact path
    let entries = as_entries found ++ map (λ id. record { id = id; ts = ts }) ids
    kept ← compact_if (ltb access_log_compact_trigger_bytes (env.access_log_size entries)) entries
    write_artifact path (access_log kept)

  abbrev pub record_memory_accesses : MemoryScope → Option Text → List Text → Action (Unit {0})
  record_memory_accesses scope key [] = return tt
  record_memory_accesses scope key (id ∷ ids) =
      record_memory_accesses_inner (access_log_path scope key) (id ∷ ids)

  -- No clock is read where there is no log.
  abbrev pub stats_of : Option Artifact → Action (List (Text × AccessStats env.float))
  stats_of none = return []
  stats_of (some artifact) = read_clock env >>= λ now.
      return (aggregate_access_stats env.float env.parse_rfc3339 (as_entries (some artifact)) now)

  unfoldable pub access_log_stats :
      MemoryScope → Option Text → Action (List (Text × AccessStats env.float))
  access_log_stats scope key = read_artifact (access_log_path scope key) >>= stats_of
