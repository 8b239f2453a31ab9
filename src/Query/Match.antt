-- ===== src/Query/Match.antt =====
-- What a query matches.
use jiandu.Prelude.{
  ℕ, ◌≡◌, refl, sym, ◌∙◌, Bool, true, false, ◌&&◌, ◌||◌, List, [], ◌∷◌, Option, none, some, arith,
  is_some, any, is_empty, map, ◌<◌, ◌⊎◌, Bool-cases, Option-cases, inl, inr,
}
use jiandu.Prelude.Classes.{contains, nat_eq, list_eq}
use jiandu.Text.{Text, trimmed, contains_text}
use jiandu.Unicode.{Unicode}
use jiandu.Float.{Float, gt}
use jiandu.Types.{
  DurableMemoryType, DurableMemoryStatus, TemporalGranularity, DurableMemoryDocument,
}
use jiandu.Lexical.{tokenize}
use jiandu.Query.{
  passes, occurs, lower, Matching, add_if, token_score, match_token, match_tokens, score_query,
  match_memory_query,
}

module _ (unicode : Unicode) (float : Float) where
  open float use {F, lit, add}

  -- The laws of `f64` that matching rests on: zero is not above zero, and a sum that is zero or above
  -- it is above it after a positive literal is added.
  pub record WeightLaws : Type 0 where
    pub zero_not_above : gt float (lit 0 1) (lit 0 1) ≡ false
    pub grows :
        (s : F) (n d : ℕ)
        → 0 < n
        → (s ≡ lit 0 1) ⊎ (gt float s (lit 0 1) ≡ true)
        → gt float (add s (lit n d)) (lit 0 1) ≡ true

  -- A sum is above zero exactly if `hit`, and is zero otherwise.
  abbrev IsSum : Bool → F → Type 0
  IsSum hit s = (gt float s (lit 0 1) ≡ hit) × ((s ≡ lit 0 1) ⊎ (gt float s (lit 0 1) ≡ true))

  add_if-IsSum :
      WeightLaws
      → (b hit : Bool) (n d : ℕ) (s : F) → 0 < n
      → IsSum hit s
      → IsSum (b || hit) (add_if unicode float b (lit n d) s)
  add_if-IsSum laws true hit n d s p h = let up = laws.grows s n d p h.1 in (up, inr up)
  add_if-IsSum laws false hit n d s p h = h

  five : (a b c d e : Bool) → (e || (d || (c || (b || (a || false))))) ≡ (a || b || c || d || e)
  five a b c d e = ground arith

  token_score_iff :
      WeightLaws
      → (doc : DurableMemoryDocument) (token : Text)
      → gt float (token_score unicode float doc token) (lit 0 1) ≡ occurs doc token
  unfolding token_score
  token_score_iff laws doc token =
      let fm = doc.frontmatter in
      let zero : IsSum false (lit 0 1) = (laws.zero_not_above, inl refl) in
      let title =
        add_if-IsSum laws (contains_text token (lower fm.title)) _ 3 1 _ (omega arith) zero in
      let keywords =
        add_if-IsSum laws (contains (map lower fm.retrieval.keywords) token) _ 25 10 _ (omega arith)
          title in
      let tags =
        add_if-IsSum laws (contains (map lower fm.tags) token) _ 2 1 _ (omega arith) keywords in
      let entities =
        add_if-IsSum laws (contains (map lower fm.retrieval.entities) token) _ 15 10 _ (omega arith)
          tags in
      let body =
        add_if-IsSum laws (contains_text token (lower doc.body)) _ 1 1 _ (omega arith) entities in
      body.0
      ∙ five (contains_text token (lower fm.title))
          (contains (map lower fm.retrieval.keywords) token) (contains (map lower fm.tags) token)
          (contains (map lower fm.retrieval.entities) token) (contains_text token (lower doc.body))

  match_tokens-any :
      WeightLaws
      → (doc : DurableMemoryDocument) (s : Matching unicode float) (tokens : List Text)
      → (match_tokens unicode float doc s tokens).matched_any
        ≡ (s.matched_any || any (occurs doc) tokens)
  unfolding match_tokens match_token
  match_tokens-any laws doc s [] = ground arith
  match_tokens-any laws doc s (token ∷ tokens) =
      elim (Bool-cases (gt float (token_score unicode float doc token) (lit 0 1))) [
        | inl e ↦
            let rest = match_tokens-any laws doc (match_token unicode float doc s token) tokens in
            rest ∙ rw (e, sym (token_score_iff laws doc token) ∙ e) (ground arith)
        | inr e ↦
            let rest = match_tokens-any laws doc (match_token unicode float doc s token) tokens in
            rest ∙ rw (e, sym (token_score_iff laws doc token) ∙ e) refl
      ]

  -- The query has no token, or one of its tokens occurs in a field of the memory.
  abbrev pub hits : DurableMemoryDocument → List Text → Bool
  hits doc tokens = is_empty tokens || any (occurs doc) tokens

  score_query_lem :
      WeightLaws
      → (doc : DurableMemoryDocument) (tokens : List Text)
      → is_some (score_query unicode float doc tokens) ≡ hits doc tokens
  unfolding score_query
  score_query_lem laws doc [] = refl
  score_query_lem laws doc (token ∷ tokens) =
      let start : Matching unicode float = record { total = lit 0 1; matched_any = false } in
      let found = match_tokens-any laws doc start (token ∷ tokens) in
      elim (Bool-cases (match_tokens unicode float doc start (token ∷ tokens)).matched_any) [
        | inl e ↦ rw e (sym (sym found ∙ e))
        | inr e ↦ rw e (sym (sym found ∙ e))
      ]

  -- A memory matches a query exactly if it passes the filters and, where the query is not blank and
  -- has a token, one of its tokens occurs in the title, the body, or as a keyword, tag or entity.
  pub match_memory_query_iff :
      WeightLaws
      → (doc : DurableMemoryDocument) (query : Option Text)
        (types : Option (List DurableMemoryType)) (statuses : Option (List DurableMemoryStatus))
        (granularities : Option (List TemporalGranularity))
      → is_some (match_memory_query unicode float doc query types statuses granularities) ≡ (
          passes types statuses granularities doc
          && elim (trimmed query) [ none ↦ true | some q ↦ hits doc (tokenize unicode q) ])
  unfolding match_memory_query
  match_memory_query_iff laws doc query types statuses granularities =
      elim (Bool-cases (passes types statuses granularities doc)) [
        | inr e ↦ rw e refl
        | inl e ↦ elim (Option-cases (trimmed query)) [
          | inl f ↦ rw e (rw f refl)
          | inr (q, f) ↦ rw e (rw f (score_query_lem laws doc (tokenize unicode q)))
        ]
      ]
