-- ===== src/Recall/Best.antt =====
-- In which order recall returns its candidates, and which ones a limit leaves out.
use mathlib.Core.List.Perm
use jiandu.Prelude.{
  ℕ, suc, ◌+◌, ◌≡◌, ◌≢◌, ◌<◌, inl, inr, refl, sym, ap, ◌∙◌, subst, false, List, [], ◌∷◌, ◌++◌,
  Option, some, ◌||◌, ◌==◌, Bool, get_elem?, arith, map, filter, All, take, drop, take-append-drop,
  min, is_empty, length, length-take, Bool-cases, Option-cases, Perm,
}
use jiandu.Prelude.Sort.{not_after, sort_by, sort_by-perm, sort_by-All}
use jiandu.Prelude.Order.{IsOrder}
use jiandu.Text.{Text, trim}
use jiandu.Unicode.{Unicode}
use jiandu.Float.{Float, cmp_or_equal}
use jiandu.Index.{LexicalIndex, LexicalIndexItem}
use jiandu.Lexical.{tokenize}
use jiandu.Lexical.Bm25.{Bm25Corpus, build_with_status_policy, score}
use jiandu.Recall.{
  MemoryRecallCandidate, compare_candidates, sort_recall_candidates, candidate_of, scored_items,
  recall_candidates_from_lexical_index_with_status_policy,
}
use jiandu.Recall.Ranking.{
  SameFrom, same_tail, scored_items-ids, no_hits, empty_list, is_hit, candidate_id, item_id,
}
use jiandu.Recall.Precedence.{IsNumber, HasNumber, IsRanked, sort_recall_candidates-IsRanked}

pub asked : (n : ℕ) (t : Text) → 0 < n → t ≢ [] → (n == 0 || is_empty t) ≡ false
asked n [] p h = absurd (h refl)
asked n (c ∷ t) p h = ground arith

min_zero : (n : ℕ) → 0 ≡ min n 0
min_zero n = ground arith

module _ (unicode : Unicode) (float : Float) (parse_rfc3339 : Text → Option ℕ) where
  open float use {F, partial_cmp}

  scored_items-HasNumber :
      (c : Bm25Corpus F) (q : List Text)
      → ((index : ℕ) (s : F)
          → score unicode float c index q ≡ some s
          → IsNumber unicode float parse_rfc3339 s)
      → (index : ℕ) (items : List LexicalIndexItem)
      → All
          (HasNumber unicode float parse_rfc3339)
          (scored_items unicode float parse_rfc3339 c q index items)
  unfolding scored_items
  scored_items-HasNumber c q numbers index [] = tt
  scored_items-HasNumber c q numbers index (item ∷ items) =
      let rest = scored_items-HasNumber c q numbers (suc index) items in
      elim (Option-cases (score unicode float c index q)) [
        | inl e ↦ rw (e, scored_items) rest
        | inr (s, e) ↦ rw (e, scored_items) (numbers index s e, rest)
      ]

  -- The candidate is an item of the index, with the score of its position.
  abbrev pub IsScored : List LexicalIndexItem → Bool → List Text → MemoryRecallCandidate F → Type 0
  IsScored items include q c =
      (index : ℕ) × (item : LexicalIndexItem) × (get_elem? items index ≡ some item)
      × (score unicode float (build_with_status_policy unicode float items include) index q
          ≡ some c.score)
      × (c ≡ candidate_of unicode float parse_rfc3339 item c.score)

  scored_items-IsScored :
      (items : List LexicalIndexItem) (include : Bool) (q : List Text)
      → (index : ℕ) (rest : List LexicalIndexItem)
      → SameFrom unicode float parse_rfc3339 items include q index rest
      → All (IsScored items include q) (
          scored_items unicode float parse_rfc3339
            (build_with_status_policy unicode float items include)
            q
            index
            rest)
  unfolding scored_items
  scored_items-IsScored items include q index [] same = tt
  scored_items-IsScored items include q index (item ∷ rest) same =
      let tail =
        scored_items-IsScored items include q (suc index) rest
          (same_tail unicode float parse_rfc3339 items include q index item rest same) in
      elim (Option-cases
        (score unicode float (build_with_status_policy unicode float items include) index q)) [
          | inl e ↦ rw (e, scored_items) tail
          | inr (s, e) ↦
              rw (e, scored_items)
                ((index, item, ap (get_elem? items) (omega arith) ∙ same 0, e, refl), tail)
        ]

  -- The result is the front of a list in order: what the limit leaves out stands after it. The list
  -- has the ids of all hits, and each candidate its score.
  abbrev pub IsBest :
      ℕ → List LexicalIndexItem → Bool → List Text → List (MemoryRecallCandidate F) → Type 0
  IsBest limit items include q result =
      (rest : List (MemoryRecallCandidate F)) × IsRanked unicode float parse_rfc3339
        (result ++ rest)
      × All (IsScored items include q) (result ++ rest)
      × Perm (map (candidate_id unicode float parse_rfc3339) (result ++ rest)) (
          map (item_id unicode float parse_rfc3339)
            (filter (is_hit unicode float parse_rfc3339 include q) items))
      × (length result ≡ min limit (length (result ++ rest)))

  -- Each score the corpus gives is a number.
  abbrev pub HasNumbers : List LexicalIndexItem → Bool → List Text → Type 0
  HasNumbers items include q =
      (index : ℕ) (s : F)
      → score unicode float (build_with_status_policy unicode float items include) index q ≡ some s
      → IsNumber unicode float parse_rfc3339 s

  -- `partial_cmp` is an order on numbers.
  module _
      (scores : IsOrder {A = (x : F) × IsNumber unicode float parse_rfc3339 x}
        (λ x y. cmp_or_equal float x.0 y.0)) where
    sort_recall_candidates-IsBest :
        (items : List LexicalIndexItem) (include : Bool) (q : List Text) (limit : ℕ)
        → HasNumbers items include q
        → IsBest limit items include q (
            take limit (
              sort_recall_candidates unicode float parse_rfc3339 (
                scored_items unicode float parse_rfc3339
                  (build_with_status_policy unicode float items include)
                  q
                  0
                  items)))
    unfolding sort_recall_candidates
    sort_recall_candidates-IsBest items include q limit numbers =
        let c = build_with_status_policy unicode float items include in
        let scored = scored_items unicode float parse_rfc3339 c q 0 items in
        let sorted =
          sort_by (λ a b. not_after (compare_candidates unicode float parse_rfc3339 a b)) scored in
        let all : (i : ℕ) → get_elem? items (0 + i) ≡ get_elem? items i =
          λ i. ap (get_elem? items) (omega arith) in
        let ranked =
          sort_recall_candidates-IsRanked unicode float parse_rfc3339 scores scored
            (scored_items-HasNumber c q numbers 0 items) in
        let found =
          sort_by-All _ (IsScored items include q) scored
            (scored_items-IsScored items include q 0 items all) in
        let ids : Perm (map (candidate_id unicode float parse_rfc3339) sorted) (
            map (item_id unicode float parse_rfc3339)
              (filter (is_hit unicode float parse_rfc3339 include q) items)) =
          rw (← scored_items-ids unicode float parse_rfc3339 items include q 0 items all)
            (Perm.map (candidate_id unicode float parse_rfc3339) (sort_by-perm _ scored)) in
        let whole = take-append-drop limit sorted in
        (
          drop limit sorted,
          subst (IsRanked unicode float parse_rfc3339) (sym whole) ranked,
          subst (All (IsScored items include q)) (sym whole) found,
          rw whole ids,
          rw whole (length-take limit sorted),
        )

    -- If the comparison of scores is an order on numbers and each score of the index is a number, a
    -- query that is not blank and a limit above 0 give the front of a list of all hits, up to the
    -- limit. In the list the greater score stands first; of equal scores the coarser granularity, then
    -- the newer memory, then the title that comes first. Each hit has the score of its own item.
    pub recall-IsBest :
        (lexical : LexicalIndex) (query : Text) (limit : ℕ) (include : Bool)
        → trim query ≢ []
        → 0 < limit
        → HasNumbers lexical.items include (tokenize unicode (trim query))
        → IsBest limit lexical.items include (tokenize unicode (trim query)) (
            recall_candidates_from_lexical_index_with_status_policy unicode float parse_rfc3339
              lexical query limit include)
    unfolding recall_candidates_from_lexical_index_with_status_policy
    recall-IsBest lexical query limit include nonblank pos numbers =
        let q = tokenize unicode (trim query) in
        rw (asked limit (trim query) pos nonblank) (elim (Bool-cases (is_empty q)) [
          | inl e ↦ rw e (
              rw (empty_list unicode float parse_rfc3339 q e) (
                (
                  [],
                  tt,
                  tt,
                  rw (no_hits unicode float parse_rfc3339 include lexical.items) (Perm.refl []),
                  min_zero limit,
                )))
          | inr e ↦ rw e (sort_recall_candidates-IsBest lexical.items include q limit numbers)
        ])
