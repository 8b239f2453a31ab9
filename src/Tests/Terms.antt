-- ===== src/Tests/Terms.antt =====
-- The theorems on terms, cursors, queries, freshness and bounds at concrete values.
use jiandu.Prelude.{◌≡◌, ◌↔◌, refl, true, ◌&&◌, [], ◌∷◌, none, some, arith, is_some}
use jiandu.Result.{ok}
use jiandu.Text.{Text, text, trimmed}
use jiandu.Types.{day, DurableMemorySource, active}
use jiandu.Terms.{normalize_retrieval_terms}
use jiandu.Terms.Bounds.{AreTerms, normalize_retrieval_terms-AreTerms}
use jiandu.Lexical.{tokenize}
use jiandu.Query.{match_memory_query, passes}
use jiandu.Query.Match.{WeightLaws, hits, match_memory_query_iff}
use jiandu.Freshness.{granularity_expired}
use jiandu.Freshness.Windows.{HasExpired, granularity_expired_iff}
use jiandu.Tests.{ascii_unicode, whole_float, sample_env, sample_document, empty_disk}

normalize_retrieval_terms_example :
    AreTerms ascii_unicode 2
      (normalize_retrieval_terms ascii_unicode (text "Fox" ∷ text "fox" ∷ text "dog" ∷ []) 2)
normalize_retrieval_terms_example =
    normalize_retrieval_terms-AreTerms ascii_unicode (text "Fox" ∷ text "fox" ∷ text "dog" ∷ []) 2

whole_weights : WeightLaws ascii_unicode whole_float
whole_weights = record { zero_not_above = refl; grows = λ s n d p h. ground arith }

match_memory_query_iff_example :
    is_some (
      match_memory_query ascii_unicode whole_float sample_document
        (some (text "Fox"))
        none
        (some (active ∷ []))
        none)
    ≡ (passes none (some (active ∷ [])) none sample_document && elim (trimmed (some (text "Fox"))) [
      | none ↦ true
      | some q ↦ hits ascii_unicode whole_float sample_document (tokenize ascii_unicode q)
    ])
match_memory_query_iff_example =
    match_memory_query_iff ascii_unicode whole_float whole_weights sample_document
      (some (text "Fox")) none (some (active ∷ [])) none

granularity_expired_iff_example :
    ((granularity_expired sample_env (some day) (text "then") empty_disk).0 ≡ ok true)
    ↔ HasExpired (some day) (sample_env.clock 0) 0
granularity_expired_iff_example =
    granularity_expired_iff sample_env (some day) (text "then") 0 empty_disk refl

abbrev session_source : Text → DurableMemorySource
session_source id = record {
  kind = text "session";
  id = id;
  message_range = text "a" ∷ text "b" ∷ [];
}
