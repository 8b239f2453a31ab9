-- ===== src/Gardener.antt =====
-- The capacity pass of memory_store/store.rs: `enforce_scope_capacity` with `memory_value`.
pub mod Capacity
pub mod Archiving
pub mod Eviction
pub mod Scans
pub mod Clusters
pub mod Inspect
use jiandu.Prelude.{
  ℕ, ◌-◌, Bool, true, false, not, ◌&&◌, ◌||◌, List, [], ◌∷◌, Option, none, some, ltb, leb, ◌==◌,
  if◌then◌else◌, length, map, filter, take, is_empty, min, max,
}
use jiandu.Prelude.Classes.{◌=?◌, nat_eq, list_eq, contains}
use jiandu.Prelude.Sort.{then_with, not_after, sort_by}
use jiandu.Prelude.Order.{text_cmp}
use jiandu.Assoc.{lookup}
use jiandu.Result.{ok}
use jiandu.Text.{Text, text}
use jiandu.Float.{Float, cmp_or_equal}
use jiandu.Types.{
  MemoryScope, project_type, type_beq, active, stale, archived, status_beq, status_as_str,
  DurableMemoryDocument,
}
use jiandu.Freshness.{age_days}
use jiandu.AccessLog.{AccessStats, access_multiplier}
use jiandu.Search.{access_log_stats}
use jiandu.Store.Disk.{Env, Action, ◌>>=◌, ◌>>◌, return, lift, read_clock, now_rfc3339}
use jiandu.Store.Locate.{require_project_key, list_memory_documents, append_audit}
use jiandu.Store.Artifacts.{refresh_scope_artifacts}
use jiandu.Store.Status.{set_memory_status, audit_entry, purge_audit_log, cons_if}

-- Both recallable and of the type that may be archived.
abbrev pub is_scorable : DurableMemoryDocument → Bool
is_scorable doc =
    status_beq doc.frontmatter.status active || status_beq doc.frontmatter.status stale

abbrev pub is_evictable : DurableMemoryDocument → Bool
is_evictable doc = is_scorable doc && type_beq doc.frontmatter.memory_type project_type

module _ (float : Float) (parse_rfc3339 : Text → Option ℕ) where
  open float use {F, lit, of_ℕ, add, mul, div}

  abbrev pub confidence_of : Option Text → F
  confidence_of none = lit 5 10
  confidence_of (some c) =
      if c =? text "high" then lit 10 10 else if c =? text "low" then lit 25 100 else lit 5 10

  abbrev pub age_of : ℕ → Option ℕ → F
  age_of now none = lit 36500 10
  age_of now (some ts) = of_ℕ (age_days now ts)

  unfoldable pub memory_value : DurableMemoryDocument → ℕ → F → F
  memory_value doc now multiplier =
      let recency = div (lit 10 10) (
        add (lit 10 10)
          (div (age_of now (parse_rfc3339 doc.frontmatter.updated_at)) (lit 300 10))) in
      let penalty = if status_beq doc.frontmatter.status stale then lit 5 10 else lit 10 10 in
      mul (mul (mul (confidence_of doc.frontmatter.confidence) recency) penalty) multiplier

module _ (env : Env) where
  open env.float use {F, lit, of_ℕ, mul, div, round}

  -- The memories to archive: the lowest values first, the older of equal ones first.
  unfoldable pub sort_evictable :
      ℕ
      → List (Text × AccessStats env.float)
      → List DurableMemoryDocument
      → List DurableMemoryDocument
  unfolding sort_by
  sort_evictable now stats = sort_by (λ a b. not_after (
      then_with
        (cmp_or_equal env.float
          (memory_value env.float env.parse_rfc3339 a now
            (access_multiplier env.float (lookup a.frontmatter.id stats)))
          (memory_value env.float env.parse_rfc3339 b now
            (access_multiplier env.float (lookup b.frontmatter.id stats))))
        (text_cmp a.frontmatter.updated_at b.frontmatter.updated_at)))

  abbrev pub audit_eviction : MemoryScope → Option Text → DurableMemoryDocument → Bool → Action Bool
  audit_eviction scope key doc false = return false
  audit_eviction scope key doc true = do
    now ← now_rfc3339 env
    append_audit env scope key purge_audit_log (
        audit_entry now (status_as_str archived) scope (some doc.frontmatter.id) none
          (text "Archived out of recall to enforce scope capacity."))
    return true

  unfoldable pub archive_one : MemoryScope → Option Text → DurableMemoryDocument → Action Bool
  archive_one scope key doc =
      set_memory_status env doc archived (text "capacity_eviction") (text "gardener") >>= λ set.
      audit_eviction scope key set.1 set.0

  unfoldable pub archive_each :
      MemoryScope → Option Text → List DurableMemoryDocument → Action (List Text)
  archive_each scope key [] = return []
  archive_each scope key (doc ∷ docs) = do
    changed ← archive_one scope key doc
    ids ← archive_each scope key docs
    return (cons_if changed doc.frontmatter.id ids)

  abbrev pub refresh_unless : Bool → MemoryScope → Option Text → Action (Unit {0})
  refresh_unless true scope key = return tt
  refresh_unless false scope key = refresh_scope_artifacts env scope key

  -- The ids of the `target` memories of least value.
  abbrev pub chosen_ids :
      ℕ → ℕ → List (Text × AccessStats env.float) → List DurableMemoryDocument → List Text
  chosen_ids target now stats docs =
      map (λ (doc : DurableMemoryDocument). doc.frontmatter.id)
        (take target (sort_evictable now stats (filter is_evictable docs)))

  abbrev pub target_of : ℕ → ℕ → List DurableMemoryDocument → ℕ
  target_of capacity max_archivals docs =
      min (min (length (filter is_scorable docs) - capacity) max_archivals)
        (length (filter is_evictable docs))

  unfoldable pub evict :
      MemoryScope → Option Text → ℕ → ℕ → ℕ → List DurableMemoryDocument → Action (List Text)
  evict scope key capacity max_archivals now docs = do
    stats ← access_log_stats env scope key
    let ids = chosen_ids (target_of capacity max_archivals docs) now stats docs
    archived_ids ← archive_each scope key (filter (λ doc. contains ids doc.frontmatter.id) docs)
    refresh_unless (is_empty archived_ids) scope key
    return archived_ids

  -- Nothing to do, or nothing that would reach the bound.
  abbrev pub evict_if :
      Bool → MemoryScope → Option Text → ℕ → ℕ → List DurableMemoryDocument → Action (List Text)
  evict_if false scope key capacity max_archivals docs = return []
  evict_if true scope key capacity max_archivals docs =
      read_clock env >>= λ now. evict scope key capacity max_archivals now docs

  abbrev pub overflows : ℕ → List DurableMemoryDocument → Bool
  overflows capacity docs =
      let scorable = length (filter is_scorable docs) in
      not (leb scorable capacity)
      && not (ltb capacity (scorable - length (filter is_evictable docs)))

  unfoldable pub enforce_scope_capacity : MemoryScope → Option Text → ℕ → ℕ → Action (List Text)
  enforce_scope_capacity scope project_key capacity max_archivals =
      if capacity == 0 || max_archivals == 0
      then return []
      else (lift (require_project_key env scope project_key) >>= λ key.
          list_memory_documents env scope key >>= λ docs.
          evict_if (overflows capacity docs) scope key capacity max_archivals docs)
