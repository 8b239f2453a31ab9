-- ===== src/Lexical/Bm25.antt =====
-- The BM25(F) scorer of memory_store/lexical_bm25.rs.
pub mod Scores
use jiandu.Prelude.{
  ℕ, suc, ◌+◌, Bool, true, false, not, ◌||◌, List, [], ◌∷◌, ◌++◌, Option, none, some, ltb, ◌==◌,
  if◌then◌else◌, get_elem?, unwrap_or,
}
use jiandu.Prelude.Classes.{nat_eq, list_eq, contains}
use jiandu.Text.{Text}
use jiandu.Unicode.{Unicode}
use jiandu.Float.{Float}
use jiandu.Assoc.{lookup, upsert, keys}
use jiandu.Types.{DurableMemoryStatus, active, stale, status_beq}
use jiandu.Index.{LexicalIndexItem}
use jiandu.Lexical.{tokenize}

pub record DocBag (F : Type 0) : Type 0 where
  pub scorable : Bool
  pub status : DurableMemoryStatus
  pub tf : List (Text × F)
  pub dl : F

pub record Bm25Corpus (F : Type 0) : Type 0 where
  pub docs : List (DocBag F)
  pub df : List (Text × ℕ)
  pub avgdl : F
  pub n : ℕ

-- The variables of the loop in `build_with_status_policy`.
pub record Build (F : Type 0) : Type 0 where
  pub docs : List (DocBag F)
  pub df : List (Text × ℕ)
  pub total_dl : F
  pub n : ℕ

abbrev pub is_recallable : DurableMemoryStatus → Bool
is_recallable active = true
is_recallable stale = true
is_recallable _ = false

-- One more document for each of its terms.
unfoldable pub count_terms : List (Text × ℕ) → List Text → List (Text × ℕ)
count_terms df [] = df
count_terms df (term ∷ terms) = count_terms (upsert term 0 suc df) terms

module _ (unicode : Unicode) (float : Float) where
  open float use {F, lit, of_ℕ, add, sub, mul, div, maximum, ln, round, epsilon}

  add_tokens : List (Text × F) → List Text → F → List (Text × F)
  add_tokens tf [] weight = tf
  add_tokens tf (tok ∷ toks) weight =
      add_tokens (upsert tok (lit 0 1) (λ w. add w weight) tf) toks weight

  unfoldable pub add_field : List (Text × F) → Text → F → List (Text × F)
  unfolding add_tokens
  add_field tf field weight = add_tokens tf (tokenize unicode field) weight

  add_fields : List (Text × F) → List Text → F → List (Text × F)
  add_fields tf [] weight = tf
  add_fields tf (field ∷ fields) weight = add_fields (add_field tf field weight) fields weight

  unfoldable pub field_weighted_bag :
      Text → List Text → List Text → List Text → Text → List (Text × F)
  unfolding add_fields
  field_weighted_bag title keywords tags entities summary =
      let tf = add_field [] title (lit 3 1) in
      let tf = add_fields tf keywords (lit 25 10) in
      let tf = add_fields tf tags (lit 2 1) in
      let tf = add_fields tf entities (lit 15 10) in add_field tf summary (lit 1 1)

  -- The sum of the values.
  sum_values : List (Text × F) → F
  sum_values [] = lit 0 1
  sum_values ((k, w) ∷ m) = add w (sum_values m)

  abbrev pub item_bag : LexicalIndexItem → List (Text × F)
  item_bag item = field_weighted_bag item.title item.keywords item.tags item.entities item.summary

  abbrev pub is_scorable : Bool → LexicalIndexItem → Bool
  is_scorable include_all_statuses item = include_all_statuses || is_recallable item.status

  unfoldable pub build_item : Bool → Build F → LexicalIndexItem → Build F
  unfolding sum_values
  build_item include_all_statuses b item =
      if not (is_scorable include_all_statuses item)
      then record b {
        docs =
            b.docs ++ record { scorable = false; status = item.status; tf = []; dl = lit 0 1 } ∷ [];
      }
      else (let tf = item_bag item in
          let dl = sum_values tf in
          record {
            docs =
                b.docs ++ record { scorable = true; status = item.status; tf = tf; dl = dl } ∷ [];
            df = count_terms b.df (keys tf);
            total_dl = add b.total_dl dl;
            n = suc b.n;
          })

  unfoldable pub build_items : Bool → Build F → List LexicalIndexItem → Build F
  build_items include_all_statuses b [] = b
  build_items include_all_statuses b (item ∷ items) =
      build_items include_all_statuses (build_item include_all_statuses b item) items

  abbrev pub empty_build : Build F
  empty_build = record { docs = []; df = []; total_dl = lit 0 1; n = 0 }

  unfoldable pub build_with_status_policy : List LexicalIndexItem → Bool → Bm25Corpus F
  build_with_status_policy items include_all_statuses =
      let b = build_items include_all_statuses empty_build items in
      record {
        docs = b.docs;
        df = b.df;
        avgdl = if ltb 0 b.n then div b.total_dl (of_ℕ b.n) else lit 0 1;
        n = b.n;
      }

  -- The variables of the loop in `score`.
  pub record Sum : Type 0 where
    pub bm25 : F
    pub lexical_matched : Bool
    pub seen : List Text

  -- What one matching token adds.
  unfoldable pub term_score : Bm25Corpus F → DocBag F → F → ℕ → F
  term_score corpus doc tf df =
      let idf = ln (
        add (div (add (sub (of_ℕ corpus.n) (of_ℕ df)) (lit 5 10)) (add (of_ℕ df) (lit 5 10)))
          (lit 1 1)) in
      let norm =
        add (sub (lit 1 1) (lit 75 100))
          (mul (lit 75 100) (div doc.dl (maximum corpus.avgdl epsilon))) in
      let denom = add tf (mul (lit 12 10) norm) in
      div (mul idf (mul tf (add (lit 12 10) (lit 1 1)))) (maximum denom epsilon)

  unfoldable pub score_token : Bm25Corpus F → DocBag F → Sum → Text → Sum
  score_token corpus doc s token =
      if contains s.seen token
      then s
      else (let s' = record s { seen = s.seen ++ token ∷ [] } in
          elim (lookup token doc.tf) [
            | none ↦ s'
            | some tf ↦
                let df = unwrap_or (lookup token corpus.df) 0 in
                if df == 0 then s' else record s' {
                  bm25 = add s'.bm25 (term_score corpus doc tf df);
                  lexical_matched = true;
                }
          ])

  unfoldable pub score_tokens : Bm25Corpus F → DocBag F → Sum → List Text → Sum
  score_tokens corpus doc s [] = s
  score_tokens corpus doc s (token ∷ tokens) =
      score_tokens corpus doc (score_token corpus doc s token) tokens

  score_doc : Bm25Corpus F → DocBag F → List Text → Option F
  score_doc corpus doc query_tokens =
      if not doc.scorable || corpus.n == 0
      then none
      else (let s =
            score_tokens corpus doc (record { bm25 = lit 0 1; lexical_matched = false; seen = [] })
              query_tokens in
          if not s.lexical_matched
          then none
          else (let score = if status_beq doc.status stale then mul s.bm25 (lit 5 10) else s.bm25 in
              some (div (round (mul score (lit 1000 1))) (lit 1000 1))))

  unfoldable pub score : Bm25Corpus F → ℕ → List Text → Option F
  unfolding score_doc
  score corpus index query_tokens = elim (get_elem? corpus.docs index) [
    | none ↦ none
    | some doc ↦ score_doc corpus doc query_tokens
  ]
