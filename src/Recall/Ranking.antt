-- ===== src/Recall/Ranking.antt =====
-- What recall returns, and in which order.
use mathlib.Core.List.Perm
use jiandu.Prelude.{
  ℕ, suc, ◌+◌, ◌≤◌, ◌<◌, ◌≡◌, ◌≢◌, refl, sym, ap, ◌∙◌, Bool, true, false, ◌&&◌, ◌||◌, List, [], ◌∷◌,
  Option, ◌==◌, take, is_empty, arith, map, All, All-take, filter, any, is_some, Bool-cases,
  Option-cases, inl, inr, length, length-take, take_all, get_elem?, and-true, Perm,
}
use jiandu.Prelude.Classes.{contains, list_eq, nat_eq}
use jiandu.Prelude.Sort.{not_after, sort_by, sort_by-perm, sort_by-All, length-sort_by}
use jiandu.Text.{Text, trim}
use jiandu.Unicode.{Unicode}
use jiandu.Float.{Float}
use jiandu.Assoc.{keys}
use jiandu.Index.{LexicalIndex, LexicalIndexItem}
use jiandu.Lexical.{tokenize}
use jiandu.Lexical.Bm25.{
  Bm25Corpus, build_with_status_policy, score, is_scorable, is_recallable, item_bag,
}
use jiandu.Lexical.Bm25.Scores.{score_iff}
use jiandu.Recall.{
  MemoryRecallCandidate, compare_candidates, sort_recall_candidates, candidate_of, scored_items,
  recall_candidates_from_lexical_index_with_status_policy, recall_candidates_from_lexical_index,
}

module _ (unicode : Unicode) (float : Float) (parse_rfc3339 : Text → Option ℕ) where
  open float use {F}

  -- The item is eligible and shares a token with the query.
  abbrev pub is_hit : Bool → List Text → LexicalIndexItem → Bool
  is_hit include q item =
      is_scorable unicode float include item
      && any (λ t. contains (keys (item_bag unicode float item)) t) q

  abbrev pub candidate_id : MemoryRecallCandidate F → Text
  candidate_id c = c.id

  abbrev pub item_id : LexicalIndexItem → Text
  item_id item = item.id

  -- No more candidates than the limit.
  pub recall_bounded :
      (lexical : LexicalIndex) (query : Text) (limit : ℕ) (include : Bool)
      → length (
          recall_candidates_from_lexical_index_with_status_policy unicode float parse_rfc3339
            lexical query limit include)
        ≤ limit
  unfolding recall_candidates_from_lexical_index_with_status_policy
  recall_bounded lexical query limit include = ground (
    arith,
    length-take limit (
        sort_recall_candidates unicode float parse_rfc3339 (
          scored_items unicode float parse_rfc3339
            (build_with_status_policy unicode float lexical.items include)
            (tokenize unicode (trim query)) 0 lexical.items)),
  )

  -- The items from position `index` on are those of the whole index.
  module _ (items : List LexicalIndexItem) (include : Bool) (q : List Text) where
    abbrev pub corpus : Bm25Corpus F
    corpus = build_with_status_policy unicode float items include

    abbrev pub SameFrom : ℕ → List LexicalIndexItem → Type 0
    SameFrom index rest = (i : ℕ) → get_elem? items (index + i) ≡ get_elem? rest i

    score_lem :
        (index : ℕ) (item : LexicalIndexItem) (rest : List LexicalIndexItem)
        → SameFrom index (item ∷ rest)
        → is_some (score unicode float corpus index q) ≡ is_hit include q item
    score_lem index item rest same =
        score_iff unicode float items include index item q
          (ap (get_elem? items) (omega arith) ∙ same 0)

    pub same_tail :
        (index : ℕ) (item : LexicalIndexItem) (rest : List LexicalIndexItem)
        → SameFrom index (item ∷ rest)
        → SameFrom (suc index) rest
    same_tail index item rest same i = ap (get_elem? items) (omega arith) ∙ same (suc i)

    pub scored_items-ids :
        (index : ℕ) (rest : List LexicalIndexItem)
        → SameFrom index rest
        → map candidate_id (scored_items unicode float parse_rfc3339 corpus q index rest)
          ≡ map item_id (filter (is_hit include q) rest)
    unfolding scored_items
    scored_items-ids index [] same = refl
    scored_items-ids index (item ∷ rest) same =
        let tail = scored_items-ids (suc index) rest (same_tail index item rest same) in
        let hit = score_lem index item rest same in
        elim (Option-cases (score unicode float corpus index q)) [
          | inl e ↦ rw (e, scored_items) (rw (sym hit ∙ ap is_some e) tail)
          | inr (s, e) ↦ rw (e, scored_items) (rw (sym hit ∙ ap is_some e) (ap (◌∷◌ item.id) tail))
        ]

    scored_items-All :
        (P : MemoryRecallCandidate F → Type 0)
        → ((item : LexicalIndexItem) (s : F)
            → is_hit include q item ≡ true
            → P (candidate_of unicode float parse_rfc3339 item s))
        → (index : ℕ) (rest : List LexicalIndexItem) → SameFrom index rest
        → All P (scored_items unicode float parse_rfc3339 corpus q index rest)
    unfolding scored_items
    scored_items-All P h index [] same = tt
    scored_items-All P h index (item ∷ rest) same =
        let tail = scored_items-All P h (suc index) rest (same_tail index item rest same) in
        let hit = score_lem index item rest same in
        elim (Option-cases (score unicode float corpus index q)) [
          | inl e ↦ rw (e, scored_items) tail
          | inr (s, e) ↦ rw (e, scored_items) (h item s (sym hit ∙ ap is_some e), tail)
        ]

  sorted_hits :
      (items : List LexicalIndexItem) (include : Bool) (q : List Text)
      → (P : MemoryRecallCandidate F → Type 0)
      → ((item : LexicalIndexItem) (s : F)
          → is_hit include q item ≡ true
          → P (candidate_of unicode float parse_rfc3339 item s))
      → All P (
          sort_recall_candidates unicode float parse_rfc3339
            (scored_items unicode float parse_rfc3339 (corpus items include q) q 0 items))
  unfolding sort_recall_candidates
  sorted_hits items include q P h =
      sort_by-All _ P _
        (scored_items-All items include q P h 0 items (λ i. ap (get_elem? items) (omega arith)))

  -- Ordinary recall returns only memories that are Active or Stale.
  pub recall_eligible :
      (lexical : LexicalIndex) (query : Text) (limit : ℕ)
      → All
          (λ c. is_recallable c.status ≡ true)
          (recall_candidates_from_lexical_index unicode float parse_rfc3339 lexical query limit)
  unfolding recall_candidates_from_lexical_index
  recall_eligible lexical query limit =
      let q = tokenize unicode (trim query) in
      elim (Bool-cases (limit == 0 || is_empty (trim query))) [
        | inl e ↦ rw (e, recall_candidates_from_lexical_index_with_status_policy) tt
        | inr e ↦
            rw (e, recall_candidates_from_lexical_index_with_status_policy)
              (elim (Bool-cases (is_empty q)) [
                | inl f ↦ rw f tt
                | inr f ↦ rw f (
                    All-take _ limit _ (
                      sorted_hits lexical.items false q (λ c. is_recallable c.status ≡ true)
                        (λ item s hit. (and-true _ _ hit).0)))
              ])
      ]

  pub no_hits :
      (include : Bool) (items : List LexicalIndexItem) → filter (is_hit include []) items ≡ []
  no_hits include [] = refl
  no_hits include (item ∷ items) = ground (arith, no_hits include items)

  pub empty_list {ℓ} : {A : Type ℓ} (xs : List A) → is_empty xs ≡ true → xs ≡ []
  empty_list [] h = refl
  empty_list (x ∷ xs) h = cc

  length-scored_items :
      (c : Bm25Corpus F) (q : List Text) (index : ℕ) (items : List LexicalIndexItem)
      → length (scored_items unicode float parse_rfc3339 c q index items) ≤ length items
  unfolding scored_items
  length-scored_items c q index [] = omega arith
  length-scored_items c q index (item ∷ items) =
      ground (arith, length-scored_items c q (suc index) items)

  ranked_perm :
      (items : List LexicalIndexItem) (include : Bool) (q : List Text) (limit : ℕ)
      → length items ≤ limit
      → Perm
          (map candidate_id (
            take limit (
              sort_recall_candidates unicode float parse_rfc3339
                (scored_items unicode float parse_rfc3339 (corpus items include q) q 0 items))))
          (map item_id (filter (is_hit include q) items))
  unfolding sort_recall_candidates
  ranked_perm items include q limit room =
      let scored = scored_items unicode float parse_rfc3339 (corpus items include q) q 0 items in
      let sorted =
        sort_by (λ a b. not_after (compare_candidates unicode float parse_rfc3339 a b)) scored in
      let fits : length sorted ≤ limit = omega (
        arith,
        length-sort_by (λ a b. not_after (compare_candidates unicode float parse_rfc3339 a b))
            scored,
        length-scored_items (corpus items include q) q 0 items,
      ) in
      rw (take_all limit sorted fits) (
        rw (← scored_items-ids items include q 0 items (λ i. ap (get_elem? items) (omega arith)))
          (Perm.map candidate_id (sort_by-perm _ scored)))

  -- With room for the whole index, and a query that is not blank, recall returns exactly the eligible
  -- items that share a token with the query, each as often as the index has it.
  pub recall_complete :
      (lexical : LexicalIndex) (query : Text) (limit : ℕ) (include : Bool)
      → trim query ≢ []
      → 0 < limit
      → length lexical.items ≤ limit
      → Perm
          (map candidate_id (
            recall_candidates_from_lexical_index_with_status_policy unicode float parse_rfc3339
              lexical query limit include))
          (map item_id (filter (is_hit include (tokenize unicode (trim query))) lexical.items))
  unfolding recall_candidates_from_lexical_index_with_status_policy
  recall_complete lexical query limit include nonblank pos room =
      let q = tokenize unicode (trim query) in
      rw (blank limit (trim query) pos nonblank) (elim (Bool-cases (is_empty q)) [
        | inl e ↦ rw e (rw (empty_list q e) (rw (no_hits include lexical.items) (Perm.refl [])))
        | inr e ↦ rw e (ranked_perm lexical.items include q limit room)
      ])
    where
      blank : (n : ℕ) (t : Text) → 0 < n → t ≢ [] → (n == 0 || is_empty t) ≡ false
      blank n [] p h = absurd (h refl)
      blank n (c ∷ t) p h = ground arith
