-- ===== src/Recall.antt =====
-- memory_store/recall.rs: ranking the items of a lexical index, and the shortlist of a store.
pub mod Ranking
pub mod Precedence
pub mod Best
use jiandu.Prelude.{
  ℕ, suc, Bool, true, false, not, ◌||◌, List, [], ◌∷◌, Option, none, some, ◌==◌, max, compare,
  Ordering, if◌then◌else◌, take, is_empty, unwrap_or,
}
use jiandu.Prelude.Sort.{then_with, not_after, sort_by}
use jiandu.Prelude.Order.{text_cmp}
use jiandu.Result.{Result, ok, ◌>>=◌}
use jiandu.Text.{Text, trim, trimmed}
use jiandu.Unicode.{Unicode}
use jiandu.Float.{Float, cmp_or_equal}
use jiandu.Types.{
  MemoryScope, project, global, DurableMemoryStatus, TemporalGranularity, cache_stability_rank,
}
use jiandu.Index.{LexicalIndex, LexicalIndexItem}
use jiandu.Lexical.{tokenize}
use jiandu.Lexical.Bm25.{Bm25Corpus, build_with_status_policy, score}

pub record MemoryRecallCandidate (F : Type 0) : Type 0 where
  pub id : Text
  pub title : Text
  pub score : F
  pub scope : MemoryScope
  pub project_key : Option Text
  pub status : DurableMemoryStatus
  pub updated_at : Text
  pub summary : Text
  pub granularity : Option TemporalGranularity

pub record MemoryRecallOptions : Type 0 where
  pub shortlist_limit : ℕ
  pub include_global_fallback : Bool
  pub max_candidates_per_scope : ℕ

-- `Default`
abbrev pub default_options : MemoryRecallOptions
default_options = record {
  shortlist_limit = 3;
  include_global_fallback = true;
  max_candidates_per_scope = 20;
}

-- chrono's `parse_from_rfc3339`: an instant is a number of nanoseconds after `MIN_UTC`.
module _ (unicode : Unicode) (float : Float) (parse_rfc3339 : Text → Option ℕ) where
  open float use {F}

  -- An unreadable time counts as `MIN_UTC`.
  abbrev pub instant : Text → ℕ
  instant t = unwrap_or (parse_rfc3339 t) 0

  -- The comparison of `sort_recall_candidates`.
  unfoldable pub compare_candidates : MemoryRecallCandidate F → MemoryRecallCandidate F → Ordering
  compare_candidates left right = then_with (cmp_or_equal float right.score left.score) (
      then_with
        (compare (cache_stability_rank left.granularity) (cache_stability_rank right.granularity))
        (then_with (compare (instant right.updated_at) (instant left.updated_at))
          (text_cmp left.title right.title)))

  unfoldable pub sort_recall_candidates :
      List (MemoryRecallCandidate F) → List (MemoryRecallCandidate F)
  unfolding sort_by compare_candidates
  sort_recall_candidates = sort_by (λ a b. not_after (compare_candidates a b))

  abbrev pub candidate_of : LexicalIndexItem → F → MemoryRecallCandidate F
  candidate_of item s = record {
    id = item.id;
    title = item.title;
    score = s;
    scope = item.scope;
    project_key = item.project_key;
    status = item.status;
    updated_at = item.updated_at;
    summary = item.summary;
    granularity = item.granularity;
  }

  abbrev add_scored :
      LexicalIndexItem → Option F → List (MemoryRecallCandidate F) → List (MemoryRecallCandidate F)
  add_scored item none rest = rest
  add_scored item (some s) rest = candidate_of item s ∷ rest

  -- `enumerate().filter_map(..)` from position `index` on.
  unfoldable pub scored_items :
      Bm25Corpus F → List Text → ℕ → List LexicalIndexItem → List (MemoryRecallCandidate F)
  scored_items corpus query_tokens index [] = []
  scored_items corpus query_tokens index (item ∷ items) =
      add_scored item (score unicode float corpus index query_tokens)
        (scored_items corpus query_tokens (suc index) items)

  unfoldable pub recall_candidates_from_lexical_index_with_status_policy :
      LexicalIndex → Text → ℕ → Bool → List (MemoryRecallCandidate F)
  recall_candidates_from_lexical_index_with_status_policy lexical query limit include_all_statuses =
      let query = trim query in
      if limit == 0 || is_empty query
      then []
      else (let query_tokens = tokenize unicode query in
          if is_empty query_tokens
          then []
          else (let corpus =
                build_with_status_policy unicode float lexical.items include_all_statuses in
              take limit
                (sort_recall_candidates (scored_items corpus query_tokens 0 lexical.items))))

  unfoldable pub recall_candidates_from_lexical_index :
      LexicalIndex → Text → ℕ → List (MemoryRecallCandidate F)
  unfolding recall_candidates_from_lexical_index_with_status_policy
  recall_candidates_from_lexical_index lexical query limit =
      recall_candidates_from_lexical_index_with_status_policy lexical query limit false

  -- The store's `read_lexical_index` is an argument here.
  module _ (read_lexical_index : MemoryScope → Option Text → Result (Option LexicalIndex)) where
    unfoldable pub shortlist_scope :
        MemoryScope → Option Text → Text → ℕ → Result (List (MemoryRecallCandidate F))
    shortlist_scope scope project_key query limit = do
      read ← read_lexical_index scope project_key
      ok (elim read [
        | none ↦ []
        | some lexical ↦ recall_candidates_from_lexical_index lexical query limit
      ])

    unfoldable pub lexical_shortlist_relevant_memories :
        Option Text → Text → MemoryRecallOptions → Result (List (MemoryRecallCandidate F))
    unfolding shortlist_scope
    lexical_shortlist_relevant_memories project_key query options =
        let query = trim query in
        if is_empty query
        then ok []
        else (let limit = max options.shortlist_limit 1 in
            let per_scope_limit = max options.max_candidates_per_scope limit in
            let fallback : Result (List (MemoryRecallCandidate F)) =
              if options.include_global_fallback
              then shortlist_scope global none query per_scope_limit
              else ok [] in
            elim (trimmed project_key) [
              | none ↦ fallback
              | some key ↦
                  shortlist_scope project (some key) query per_scope_limit >>= λ project_hits.
                  if is_empty project_hits then fallback else ok project_hits
            ])

    unfoldable pub shortlist_relevant_memories :
        Option Text → Text → MemoryRecallOptions → Result (List (MemoryRecallCandidate F))
    unfolding lexical_shortlist_relevant_memories
    shortlist_relevant_memories project_key query options = do
      candidates ← lexical_shortlist_relevant_memories project_key query options
      ok (take (max options.shortlist_limit 1) candidates)
