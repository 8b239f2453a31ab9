-- ===== src/Tests/Ranks.antt =====
-- The theorems on scores and recall at a concrete index.
use jiandu.Prelude.{
  ℕ, ◌≡◌, refl, ap, some, compare, Ordering, true, false, ◌&&◌, [], ◌∷◌, arith, any, map, filter,
  is_some, Perm,
}
use jiandu.Prelude.Classes.{contains, nat_eq, list_eq}
use jiandu.Prelude.Order.{compare-IsOrder, key-IsOrder}
use jiandu.Text.{text, trim}
use jiandu.Assoc.{keys}
use jiandu.Types.{archived}
use jiandu.Lexical.{tokenize}
use jiandu.Lexical.Bm25.{is_scorable, item_bag, score, build_with_status_policy}
use jiandu.Lexical.Bm25.Scores.{score_iff}
use jiandu.Recall.{recall_candidates_from_lexical_index_with_status_policy}
use jiandu.Recall.Ranking.{recall_complete, is_hit, candidate_id, item_id}
use jiandu.Recall.Precedence.{IsNumber}
use jiandu.Recall.Best.{IsBest, recall-IsBest}
use jiandu.Tests.{ascii_unicode, whole_float, no_time, sample_index, sample_item}

score_iff_example :
    is_some (
      score ascii_unicode whole_float
        (build_with_status_policy ascii_unicode whole_float sample_index.items false)
        1
        (text "dog" ∷ []))
    ≡ (is_scorable ascii_unicode whole_float false
          (sample_item (text "b") (text "red dog") archived)
        && any
            (λ t.
              contains
                (keys (
                  item_bag ascii_unicode whole_float
                    (sample_item (text "b") (text "red dog") archived)))
                t)
            (text "dog" ∷ []))
score_iff_example =
    score_iff ascii_unicode whole_float sample_index.items false 1
      (sample_item (text "b") (text "red dog") archived) (text "dog" ∷ []) refl

recall_complete_example :
    Perm
      (map (candidate_id ascii_unicode whole_float no_time) (
        recall_candidates_from_lexical_index_with_status_policy ascii_unicode whole_float no_time
          sample_index
          (text "red")
          3
          false))
      (map (item_id ascii_unicode whole_float no_time) (
        filter
          (is_hit ascii_unicode whole_float no_time false
            (tokenize ascii_unicode (trim (text "red"))))
          sample_index.items))
unfolding trim
recall_complete_example =
    recall_complete ascii_unicode whole_float no_time sample_index (text "red") 3 false
      (λ e. ground arith) (omega arith) (omega arith)

equal_to_itself : (n : ℕ) → IsNumber ascii_unicode whole_float no_time n
equal_to_itself n = ap some (compare_same n)
  where
    compare_same : (n : ℕ) → compare n n ≡ Ordering.eq
    compare_same n = ground arith

recall-IsBest_example :
    IsBest ascii_unicode whole_float no_time 1 sample_index.items true
      (tokenize ascii_unicode (trim (text "red")))
      (recall_candidates_from_lexical_index_with_status_policy ascii_unicode whole_float no_time
        sample_index
        (text "red")
        1
        true)
unfolding trim
recall-IsBest_example =
    recall-IsBest ascii_unicode whole_float no_time (key-IsOrder (λ x. x.0) compare-IsOrder)
      sample_index (text "red") 1 true (λ e. ground arith) (omega arith)
      (λ index s h. equal_to_itself s)
