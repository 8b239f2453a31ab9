-- ===== src/Lexical/Bm25/Scores.antt =====
-- Which documents the scorer scores.
use mathlib.Core.Option.{some-injective}
use jiandu.Prelude.{
  ℕ, zero, suc, ◌≡◌, refl, sym, ap, ◌∙◌, subst, Bool, true, false, not, ◌&&◌, ◌||◌, List, [], ◌∷◌,
  ◌++◌, Option, none, some, ltb, ◌==◌, if◌then◌else◌, get_elem?, unwrap_or, arith, map, All,
  All-append, All-imp, any, is_some, Bool-cases, Option-cases, inl, inr, false≢true, append_assoc,
  append-nil,
}
use jiandu.Prelude.Classes.{◌=?◌, nat_eq, list_eq, contains}
use jiandu.Text.{Text, text_eq_iff}
use jiandu.Unicode.{Unicode}
use jiandu.Float.{Float}
use jiandu.Assoc.{
  lookup, upsert, keys, is_some-lookup, lookup-upsert_self, lookup-upsert_ne, apply_or,
}
use jiandu.Index.{LexicalIndexItem}
use jiandu.Lexical.Bm25.{
  DocBag, Bm25Corpus, Build, Sum, count_terms, item_bag, is_scorable, build_item, build_items,
  empty_build, build_with_status_policy, sum_values, score_token, score_tokens, score_doc, score,
}

-- The term has a positive document frequency.
abbrev pub is_positive : Option ℕ → Bool
is_positive none = false
is_positive (some n) = ltb 0 n

abbrev pub is_counted : List (Text × ℕ) → Text → Bool
is_counted df term = is_positive (lookup term df)

counted_step :
    (df : List (Text × ℕ)) (k t : Text)
    → (is_counted df t ≡ true → is_counted (upsert k 0 suc df) t ≡ true)
      × (is_counted (upsert k 0 suc df) k ≡ true)
counted_step df k t = (kept, rw (lookup-upsert_self k 0 suc df) (positive (lookup k df)))
  where
    positive : (o : Option ℕ) → is_positive (some (apply_or 0 suc o)) ≡ true
    positive none = refl
    positive (some n) = ground arith

    kept : is_counted df t ≡ true → is_counted (upsert k 0 suc df) t ≡ true
    kept h = elim (Bool-cases (k =? t)) [
      | inl e ↦
          subst (λ u. is_counted (upsert k 0 suc df) u ≡ true) ((text_eq_iff k t).0 e)
            (rw (lookup-upsert_self k 0 suc df) (positive (lookup k df)))
      | inr e ↦ rw (lookup-upsert_ne k t 0 suc df e) h
    ]

counted_kept :
    (df : List (Text × ℕ)) (terms : List Text) (t : Text)
    → is_counted df t ≡ true
    → is_counted (count_terms df terms) t ≡ true
unfolding count_terms
counted_kept df [] t h = h
counted_kept df (k ∷ terms) t h =
    counted_kept (upsert k 0 suc df) terms t ((counted_step df k t).0 h)

counted_new :
    (df : List (Text × ℕ)) (terms : List Text)
    → All (λ t. is_counted (count_terms df terms) t ≡ true) terms
unfolding count_terms
counted_new df [] = tt
counted_new df (k ∷ terms) = (
  counted_kept (upsert k 0 suc df) terms k (counted_step df k k).1,
  counted_new (upsert k 0 suc df) terms,
)

get_elem?-map {ℓ κ} :
    {A : Type ℓ} {B : Type κ} (f : A → B) (xs : List A) (i : ℕ) (x : A)
    → get_elem? xs i ≡ some x
    → get_elem? (map f xs) i ≡ some (f x)
get_elem?-map f [] i x h = cc
get_elem?-map f (y ∷ ys) zero x h = cc
get_elem?-map f (y ∷ ys) (suc i) x h = get_elem?-map f ys i x h

All-get_elem? {ℓ κ} :
    {A : Type ℓ} (P : A → Type κ) (xs : List A) (i : ℕ) (x : A)
    → All P xs
    → get_elem? xs i ≡ some x
    → P x
All-get_elem? P [] i x a h = absurd (cc)
All-get_elem? P (y ∷ ys) zero x a h = subst P (some-injective y x h) a.0
All-get_elem? P (y ∷ ys) (suc i) x a h = All-get_elem? P ys i x a.1 h

module _ (unicode : Unicode) (float : Float) where
  open float use {F, lit}

  abbrev Doc : Type 0
  Doc = DocBag F

  -- The document that the loop makes of an item.
  abbrev doc_of : Bool → LexicalIndexItem → Doc
  doc_of include item =
      if not (is_scorable unicode float include item)
      then record { scorable = false; status = item.status; tf = []; dl = lit 0 1 }
      else (let tf = item_bag unicode float item in
          record {
            scorable = true;
            status = item.status;
            tf = tf;
            dl = sum_values unicode float tf;
          })

  abbrev IsCountedDoc : Build F → Doc → Type 0
  IsCountedDoc b d =
      All (λ t. is_counted b.df t ≡ true) (keys d.tf) × (d.scorable ≡ true → (b.n == 0) ≡ false)

  -- Every term of a document is counted, and a scorable document is counted.
  abbrev IsBuild : Build F → Type 0
  IsBuild b = All (IsCountedDoc b) b.docs

  build_item-IsBuild :
      (include : Bool) (b : Build F) (item : LexicalIndexItem)
      → IsBuild b
      → (IsBuild (build_item unicode float include b item))
        × ((build_item unicode float include b item).docs ≡ b.docs ++ doc_of include item ∷ [])
  unfolding build_item
  build_item-IsBuild include b item h = elim (Bool-cases (is_scorable unicode float include item)) [
    | inr e ↦ rw e (All-append (IsCountedDoc b) b.docs _ h ((tt, λ p. cc), tt), refl)
    | inl e ↦
        let df' = count_terms b.df (keys (item_bag unicode float item)) in
        rw e (
          All-append _ b.docs _
              (All-imp (IsCountedDoc b) _
                (λ d k. (
                  All-imp _ _ (counted_kept b.df (keys (item_bag unicode float item))) (keys d.tf)
                      k.0,
                  λ p. ground arith,
                ))
                b.docs h)
              ((counted_new b.df (keys (item_bag unicode float item)), λ p. ground arith), tt),
          refl,
        )
  ]

  build_items-IsBuild :
      (include : Bool) (b : Build F) (items : List LexicalIndexItem)
      → IsBuild b
      → (IsBuild (build_items unicode float include b items))
        × ((build_items unicode float include b items).docs ≡ b.docs ++ map (doc_of include) items)
  unfolding build_items
  build_items-IsBuild include b [] h = (h, sym (append-nil b.docs))
  build_items-IsBuild include b (item ∷ items) h =
      let (h', e) = build_item-IsBuild include b item h in
      let (k, f) = build_items-IsBuild include (build_item unicode float include b item) items h' in
      (k, f ∙ ap (λ docs. docs ++ map (doc_of include) items) e ∙ append_assoc b.docs _ _)

  -- The hits that have been seen are matched.
  abbrev IsSum : Doc → Sum unicode float → Type 0
  IsSum doc s = All (λ t. contains (keys doc.tf) t ≡ true → s.lexical_matched ≡ true) s.seen

  seen_hit :
      (P : Text → Bool) (m : Bool) (seen : List Text) (t : Text)
      → All (λ u. P u ≡ true → m ≡ true) seen
      → contains seen t ≡ true
      → P t ≡ true
      → m ≡ true
  seen_hit P m [] t h c p = absurd (false≢true c)
  seen_hit P m (u ∷ seen) t h c p = elim (Bool-cases (u =? t)) [
    | inl e ↦ h.0 (subst (λ v. P v ≡ true) (sym ((text_eq_iff u t).0 e)) p)
    | inr e ↦ seen_hit P m seen t h.1 (rw e at c) p
  ]

  absorb : (m h : Bool) → (h ≡ true → m ≡ true) → m ≡ (m || h)
  absorb true h k = refl
  absorb false true k = k refl
  absorb false false k = refl

  or_true : (m : Bool) → true ≡ (m || true)
  or_true true = refl
  or_true false = refl

  or_assoc : (a b c : Bool) → ((a || b) || c) ≡ (a || (b || c))
  or_assoc true b c = refl
  or_assoc false b c = refl

  abbrev hit : Doc → Text → Bool
  hit doc t = contains (keys doc.tf) t

  counted_hit :
      (df : List (Text × ℕ)) (ts : List Text) (t : Text)
      → All (λ u. is_counted df u ≡ true) ts
      → contains ts t ≡ true
      → (unwrap_or (lookup t df) 0 == 0) ≡ false
  counted_hit df ts t h c = nonzero (lookup t df) (found ts h c)
    where
      nonzero : (o : Option ℕ) → is_positive o ≡ true → (unwrap_or o 0 == 0) ≡ false
      nonzero none p = absurd (false≢true p)
      nonzero (some n) p = ground arith

      found :
          (ts : List Text)
          → All (λ u. is_counted df u ≡ true) ts
          → contains ts t ≡ true
          → is_counted df t ≡ true
      found [] h c = absurd (false≢true c)
      found (u ∷ ts) h c = elim (Bool-cases (u =? t)) [
        | inl e ↦ subst (λ v. is_counted df v ≡ true) ((text_eq_iff u t).0 e) h.0
        | inr e ↦ found ts h.1 (rw e at c)
      ]

  module _ (corpus : Bm25Corpus F) (doc : Doc)
      (counted : All (λ t. is_counted corpus.df t ≡ true) (keys doc.tf)) where
    hit_lem : (t : Text) → hit doc t ≡ is_some (lookup t doc.tf)
    hit_lem t = sym (is_some-lookup t doc.tf)

    score_token-IsSum :
        (s : Sum unicode float) (t : Text)
        → IsSum doc s
        → (IsSum doc (score_token unicode float corpus doc s t))
          × ((score_token unicode float corpus doc s t).lexical_matched
              ≡ (s.lexical_matched || hit doc t))
    unfolding score_token
    score_token-IsSum s t h = elim (Bool-cases (contains s.seen t)) [
      | inl e ↦ rw e (
        h,
        absorb s.lexical_matched (hit doc t) (seen_hit (hit doc) s.lexical_matched s.seen t h e),
      )
      | inr e ↦ rw e (elim (Option-cases (lookup t doc.tf)) [
        | inl miss ↦
            let no_hit = hit_lem t ∙ ap is_some miss in
            rw miss (
              All-append _ s.seen (t ∷ []) h ((λ p. absurd (false≢true (sym no_hit ∙ p))), tt),
              rw no_hit (absorb s.lexical_matched false (λ p. absurd (false≢true p))),
            )
        | inr (w, found) ↦
            let is_hit = hit_lem t ∙ ap is_some found in
            rw found (
              rw (counted_hit corpus.df (keys doc.tf) t counted is_hit) (
                All-append _ s.seen (t ∷ []) (All-imp _ _ (λ u k p. refl) s.seen h)
                    ((λ p. refl), tt),
                rw is_hit (or_true s.lexical_matched),
              ))
      ])
    ]

    score_tokens-matched :
        (s : Sum unicode float) (q : List Text)
        → IsSum doc s
        → (score_tokens unicode float corpus doc s q).lexical_matched
          ≡ (s.lexical_matched || any (hit doc) q)
    unfolding score_tokens
    score_tokens-matched s [] h = absorb s.lexical_matched false (λ p. absurd (false≢true p))
    score_tokens-matched s (t ∷ q) h =
        let (h', e) = score_token-IsSum s t h in
        score_tokens-matched (score_token unicode float corpus doc s t) q h'
        ∙ ap (λ m. m || any (hit doc) q) e
        ∙ or_assoc s.lexical_matched (hit doc t) (any (hit doc) q)

    score_doc_lem :
        (q : List Text)
        → (doc.scorable ≡ true → (corpus.n == 0) ≡ false)
        → is_some (score_doc unicode float corpus doc q) ≡ (doc.scorable && any (hit doc) q)
    unfolding score_doc
    score_doc_lem q h = elim (Bool-cases doc.scorable) [
      | inr e ↦ rw e refl
      | inl e ↦ ground (
        arith,
        e,
        h e,
        score_tokens-matched (record { bm25 = lit 0 1; lexical_matched = false; seen = [] }) q tt,
      )
    ]

  scorable_lem :
      (include : Bool) (item : LexicalIndexItem) (q : List Text)
      → ((doc_of include item).scorable && any (hit (doc_of include item)) q) ≡ (
          is_scorable unicode float include item
          && any (λ t. contains (keys (item_bag unicode float item)) t) q)
  scorable_lem include item q = elim (Bool-cases (is_scorable unicode float include item)) [
    | inl e ↦ rw e refl
    | inr e ↦ rw e refl
  ]

  -- A document of the index is scored exactly if its status is eligible (Active or Stale, or any at
  -- all for a query over all statuses) and it shares a token with the query: its title, keywords,
  -- tags, entities or summary contain one of the query's tokens.
  pub score_iff :
      (items : List LexicalIndexItem) (include : Bool) (index : ℕ) (item : LexicalIndexItem)
      (q : List Text)
      → get_elem? items index ≡ some item
      → is_some (score unicode float (build_with_status_policy unicode float items include) index q)
        ≡ (is_scorable unicode float include item
            && any (λ t. contains (keys (item_bag unicode float item)) t) q)
  unfolding score build_with_status_policy
  score_iff items include index item q at_index =
      let (built, docs) = build_items-IsBuild include (empty_build unicode float) items tt in
      let b = build_items unicode float include (empty_build unicode float) items in
      let corpus = build_with_status_policy unicode float items include in
      let at_doc =
        ap (λ ds. get_elem? ds index) docs
        ∙ get_elem?-map (doc_of include) items index item at_index in
      let counted =
        All-get_elem? (IsCountedDoc b) b.docs index (doc_of include item) built at_doc in
      rw (at_doc, score)
        (score_doc_lem corpus (doc_of include item) counted.0 q counted.1
          ∙ scorable_lem include item q)
