-- ===== src/Search/Pages.antt =====
-- The page that a query returns.
use jiandu.Prelude.{
  ℕ, zero, suc, ◌+◌, ◌-◌, ◌^◌, ◌≤◌, ◌<◌, ◌≡◌, refl, sym, ap, ◌∙◌, subst, Bool, true, false, List,
  [], ◌∷◌, Option, none, some, if◌then◌else◌, ltb, length, take, drop, map, filter_map, min, arith,
  Bool-cases, inl, inr, All, All-imp, All-take, length-take, length-drop, length-map, length-append,
  is_some, is_empty, Option-cases, ◌==◌, ◌||◌,
}
use jiandu.Prelude.Classes.{nat_eq, list_eq, beq_refl}
use jiandu.Result.{ok, invalid_input, fail_if, ok_injective}
use jiandu.Text.{Text, trim, trimmed}
use jiandu.Types.{MemoryScope}
use jiandu.Index.{LexicalIndex, LexicalIndexItem}
use jiandu.Lexical.{tokenize}
use jiandu.Lexical.Bm25.{Bm25Corpus, score}
use jiandu.Prelude.Sort.{sort_by-All}
use jiandu.Recall.{
  MemoryRecallCandidate, scored_items, sort_recall_candidates,
  recall_candidates_from_lexical_index_with_status_policy,
}
use jiandu.Query.{match_memory_query}
use jiandu.Query.Cursor.{parse_query_cursor, make_query_cursor, parse-make_query_cursor}
use jiandu.Store.Disk.{Env, Disk, lift-eq-ok, next-eq-ok}
use jiandu.Store.Locate.{require_project_key, list_memory_documents}
use jiandu.Search.{
  Filters, MemoryQueryOptions, MemoryQueryItem, MemoryQueryResult, limit_of, per_item_max, page,
  or_item, indexed_by_id, read_lexical_index, some_or, too_long,
}
use jiandu.Search.Queries.{
  or_invalid_data, filtered, related_ids, add_item, query_items, scored, sort_matches,
  listed_query_item, record_if, query_index, query_listing, query_page, query_scope_inner,
}

-- A page that is cut short has a cursor, which reads back as the offset after it, and is not empty.
abbrev pub IsNext : ℕ → ℕ → Bool → Option Text → Type 0
IsNext offset returned false none = Unit
IsNext offset returned false (some cursor) = ⊥
IsNext offset returned true none = ⊥
IsNext offset returned true (some cursor) =
    (1 ≤ returned) × (parse_query_cursor (some cursor) ≡ offset + returned)

abbrev pub IsPage : {F : Type 0} → MemoryQueryOptions → MemoryQueryResult F → Type 0
IsPage options r =
    let offset = parse_query_cursor options.cursor in
    (length r.items ≡ r.returned_count)
    × (r.returned_count ≡ min (limit_of options) (r.matched_count - offset))
    × (r.returned_count + r.remaining_count ≡ r.matched_count - offset)
    × (r.truncated ≡ ltb 0 r.remaining_count)
    × IsNext offset r.returned_count r.truncated r.next_cursor

limit-pos : (options : MemoryQueryOptions) → 1 ≤ limit_of options
limit-pos options = omega arith

page-IsNext :
    (scope : MemoryScope) (offset returned left : ℕ)
    → (1 ≤ left → (1 ≤ returned) × (offset + returned < 2 ^ 64))
    → IsNext offset returned
        (ltb 0 left)
        (if ltb 0 left then some (make_query_cursor scope (offset + returned)) else none)
page-IsNext scope offset returned left moves = elim (Bool-cases (ltb 0 left)) [
  | inl e ↦
      let (pos, fits) = moves (ground arith) in
      rw e (pos, parse-make_query_cursor scope (offset + returned) fits)
  | inr e ↦ rw e tt
]

page-IsPage :
    {F : Type 0} (scope : MemoryScope) (options : MemoryQueryOptions) (matched remaining : ℕ)
    (items : List (MemoryQueryItem F))
    → remaining ≡ matched - parse_query_cursor options.cursor
    → length items ≡ min (limit_of options) remaining
    → matched < 2 ^ 64
    → IsPage options (page scope (parse_query_cursor options.cursor) matched remaining items)
page-IsPage scope options matched remaining items e n fits = (
  refl,
  omega (arith, e, n),
  omega (arith, e, n),
  refl,
  page-IsNext scope (parse_query_cursor options.cursor) (length items) (remaining - length items)
      (λ left. (omega (arith, left, n), omega (arith, left, n, e, fits))),
)

All-drop {ℓ} : {A : Type ℓ} (P : A → Type 0) (n : ℕ) (xs : List A) → All P xs → All P (drop n xs)
All-drop P zero xs h = h
All-drop P (suc n) [] h = tt
All-drop P (suc n) (x ∷ xs) h = All-drop P n xs h.1

abbrev IsIndexed : List LexicalIndexItem → Text → Type 0
IsIndexed items id = is_some (indexed_by_id id items) ≡ true

later_IsIndexed :
    (item : LexicalIndexItem) (items : List LexicalIndexItem) (id : Text)
    → IsIndexed items id
    → IsIndexed (item ∷ items) id
unfolding indexed_by_id
later_IsIndexed item items id h = later (indexed_by_id id items) h
  where
    later :
        (found : Option LexicalIndexItem)
        → is_some found ≡ true
        → is_some (or_item found item id) ≡ true
    later none e = cc
    later (some other) e = refl

here_IsIndexed :
    (item : LexicalIndexItem) (items : List LexicalIndexItem) → IsIndexed (item ∷ items) item.id
unfolding indexed_by_id
here_IsIndexed item items = here (indexed_by_id item.id items)
  where
    here : (found : Option LexicalIndexItem) → is_some (or_item found item item.id) ≡ true
    here none = rw (beq_refl item.id) refl
    here (some other) = refl

-- Every item is found by its id.
All-IsIndexed : (items : List LexicalIndexItem) → All (λ item. IsIndexed items item.id) items
All-IsIndexed [] = tt
All-IsIndexed (item ∷ items) = (
  here_IsIndexed item items,
  All-imp _ _ (λ other h. later_IsIndexed item items other.id h) items (All-IsIndexed items),
)

module _ (env : Env) where
  open env.float use {F}

  -- Every candidate is an item of the index.
  scored_IsIndexed :
      (all : List LexicalIndexItem) (corpus : Bm25Corpus F) (q : List Text) (index : ℕ)
      (items : List LexicalIndexItem)
      → All (λ item. IsIndexed all item.id) items
      → All
          (λ (c : MemoryRecallCandidate F). IsIndexed all c.id)
          (scored_items env.unicode env.float env.parse_rfc3339 corpus q index items)
  unfolding scored_items
  scored_IsIndexed all corpus q index [] h = tt
  scored_IsIndexed all corpus q index (item ∷ items) h =
      let rest = scored_IsIndexed all corpus q (suc index) items h.1 in
      elim (Option-cases (score env.unicode env.float corpus index q)) [
        | inl e ↦ rw (e, scored_items) rest
        | inr (s, e) ↦ rw (e, scored_items) (h.0, rest)
      ]

  candidates_IsIndexed :
      (index : LexicalIndex) (query : Text) (limit : ℕ) (b : Bool)
      → All
          (λ (c : MemoryRecallCandidate F). IsIndexed index.items c.id)
          (recall_candidates_from_lexical_index_with_status_policy env.unicode env.float
            env.parse_rfc3339 index query limit b)
  unfolding recall_candidates_from_lexical_index_with_status_policy sort_recall_candidates
  candidates_IsIndexed index query limit b =
      let q = tokenize env.unicode (trim query) in
      elim (Bool-cases (limit == 0 || is_empty (trim query))) [
        | inl e ↦ rw e tt
        | inr e ↦ rw e (elim (Bool-cases (is_empty q)) [
          | inl f ↦ rw f tt
          | inr f ↦ rw f (
              All-take _ limit _ (
                sort_by-All _ _ _
                  (scored_IsIndexed index.items _ q 0 index.items (All-IsIndexed index.items))))
        ])
      ]

  -- An indexed candidate gives one item of the page.
  add_item-length :
      (scope : MemoryScope) (key : Option Text) (b : Bool) (per_item : ℕ)
      (candidate : MemoryRecallCandidate F) (found : Option LexicalIndexItem)
      (item : List (MemoryQueryItem F)) (d d' : Disk)
      → is_some found ≡ true
      → add_item env scope key b per_item candidate found d ≡ (ok item, d')
      → length item ≡ 1
  add_item-length scope key b per_item candidate none item d d' found h = cc
  add_item-length scope key b per_item candidate (some indexed) item d d' found h =
      let (related, x, _, g) = next-eq-ok (related_ids env scope key b candidate.id d) _ h in
      let e : item ≡ _ = sym (ok_injective (ap (λ r. r.0) g)) in ap length e

  query_items-length :
      (scope : MemoryScope) (key : Option Text) (b : Bool) (per_item : ℕ)
      (indexed : List LexicalIndexItem) (candidates : List (MemoryRecallCandidate F))
      (items : List (MemoryQueryItem F)) (d d' : Disk)
      → All (λ (c : MemoryRecallCandidate F). IsIndexed indexed c.id) candidates
      → query_items env scope key b per_item indexed candidates d ≡ (ok items, d')
      → length items ≡ length candidates
  unfolding query_items
  query_items-length scope key b per_item indexed [] items d d' found h =
      ap length (sym (ok_injective (ap (λ r. r.0) h)))
  query_items-length scope key b per_item indexed (candidate ∷ candidates) items d d' found h =
      let (item, x, first, g) =
        next-eq-ok
          (add_item env scope key b per_item candidate (indexed_by_id candidate.id indexed) d) _
          h in
      let (rest, y, later, k) =
        next-eq-ok (query_items env scope key b per_item indexed candidates x) _ g in
      let one = add_item-length scope key b per_item candidate _ item d x found.0 first in
      let more =
        query_items-length scope key b per_item indexed candidates rest x y found.1 later in
      let e = ok_injective (ap (λ r. r.0) k) in
      omega (arith, ap length e, length-append item rest, one, more)

  -- An index page, in parts that are bound one after another.
  query_index-IsPage :
      (scope : MemoryScope) (key : Option Text) (query : Text) (filters : Filters)
      (options : MemoryQueryOptions) (r : MemoryQueryResult F) (d d' : Disk)
      → query_index env scope key query filters options d ≡ (ok r, d')
      → r.matched_count < 2 ^ 64
      → IsPage options r
  unfolding query_index
  query_index-IsPage scope key query filters options r d d' h fits =
      let offset = parse_query_cursor options.cursor in
      let (read, x, _, g) =
        next-eq-ok (or_invalid_data env (read_lexical_index env scope key) d) _ h in
      let (index, _, k) = lift-eq-ok (some_or read) x _ g in
      let indexed = filtered env filters index in
      let candidates =
        recall_candidates_from_lexical_index_with_status_policy env.unicode env.float
          env.parse_rfc3339 indexed query (length indexed.items) true in
      let shown = take (limit_of options) (drop offset candidates) in
      let (items, y, listed, last) =
        next-eq-ok
          (query_items env scope key options.include_related (per_item_max options) indexed.items
            shown x)
          _ k in
      let found = candidates_IsIndexed indexed query (length indexed.items) true in
      let n =
        query_items-length scope key options.include_related (per_item_max options) indexed.items
          shown items x y (All-take _ (limit_of options) _ (All-drop _ offset candidates found))
          listed in
      let e = ok_injective (ap (λ r. r.0) last) in
      subst (IsPage options) e (
        page-IsPage scope options (length candidates) (length (drop offset candidates)) items
          (length-drop offset candidates)
          (n ∙ length-take (limit_of options) (drop offset candidates))
          (rw (ap (λ (x : MemoryQueryResult F). x.matched_count) e) fits))

  query_listing-IsPage :
      (scope : MemoryScope) (key query : Option Text) (filters : Filters)
      (options : MemoryQueryOptions) (r : MemoryQueryResult F) (d d' : Disk)
      → query_listing env scope key query filters options d ≡ (ok r, d')
      → r.matched_count < 2 ^ 64
      → IsPage options r
  unfolding query_listing
  query_listing-IsPage scope key query filters options r d d' h fits =
      let offset = parse_query_cursor options.cursor in
      let (docs, x, _, g) = next-eq-ok (list_memory_documents env scope key d) _ h in
      let matches = sort_matches env (
        filter_map
          (λ doc.
            scored env
              (match_memory_query env.unicode env.float doc query filters.types filters.statuses
                filters.granularities)
              doc)
          docs) in
      let shown = take (limit_of options) (drop offset matches) in
      let items =
        map (listed_query_item env options.include_related (per_item_max options)) shown in
      let e = ok_injective (ap (λ r. r.0) g) in
      subst (IsPage options) e (
        page-IsPage scope options (length matches) (length (drop offset matches)) items
          (length-drop offset matches)
          (length-map (listed_query_item env options.include_related (per_item_max options)) shown
            ∙ length-take (limit_of options) (drop offset matches))
          (rw (ap (λ (x : MemoryQueryResult F). x.matched_count) e) fits))

  query_page-IsPage :
      (scope : MemoryScope) (key query nonblank : Option Text) (filters : Filters)
      (options : MemoryQueryOptions) (r : MemoryQueryResult F) (d d' : Disk)
      → query_page env scope key query nonblank filters options d ≡ (ok r, d')
      → r.matched_count < 2 ^ 64
      → IsPage options r
  query_page-IsPage scope key query none filters options r d d' h fits =
      query_listing-IsPage scope key query filters options r d d' h fits
  query_page-IsPage scope key query (some nonblank) filters options r d d' h fits =
      query_index-IsPage scope key nonblank filters options r d d' h fits

  -- A query that succeeds, over the index or as a listing, returns as many items as there are from its
  -- offset on, up to its limit, which is at least one and at most twenty; and says how many are left.
  -- Exactly if some are, it has a cursor, which reads back as the offset after the page, and the page
  -- is not empty, so that following the cursors comes to an end. The matches are counted by a `usize`.
  pub query_scope-IsPage :
      (scope : MemoryScope) (project_key query : Option Text) (filters : Filters)
      (options : MemoryQueryOptions) (record_access : Bool) (r : MemoryQueryResult F) (d d' : Disk)
      → query_scope_inner env scope project_key query filters options record_access d ≡ (ok r, d')
      → r.matched_count < 2 ^ 64
      → IsPage options r
  unfolding query_scope_inner
  query_scope-IsPage scope project_key query filters options record_access r d d' h fits =
      let (key, _, g) = lift-eq-ok (require_project_key env scope project_key) d _ h in
      let (u, _, k) = lift-eq-ok (fail_if (too_long (trimmed query)) invalid_input) d _ g in
      let (result, x, paged, l) =
        next-eq-ok (query_page env scope key query (trimmed query) filters options d) _ k in
      let (v, y, _, last) = next-eq-ok (record_if env record_access scope key result.items x) _ l in
      let e = ok_injective (ap (λ r. r.0) last) in
      subst (IsPage options) e (
        query_page-IsPage scope key query (trimmed query) filters options result d x paged
          (rw (ap (λ (x : MemoryQueryResult F). x.matched_count) e) fits))
