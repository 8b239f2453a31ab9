-- ===== src/Recall/Precedence.antt =====
-- Which of two candidates stands first in a sorted list of them.
use Prim.Native.Nat.{Ordering, compare}
use jiandu.Prelude.{
  ℕ, ◌≡◌, ◌<◌, ◌⊎◌, inl, inr, refl, true, List, [], ◌∷◌, Option, some, false≢true, arith, All,
  All-imp,
}
use jiandu.Prelude.Sort.{then_with, not_after, sort_by-IsSorted, IsSorted}
use jiandu.Prelude.Order.{
  IsOrder, text_cmp, text_cmp-IsOrder, then_with-IsOrder, compare-IsOrder, key-IsOrder,
  reversed-IsOrder,
}
use jiandu.Text.{Text}
use jiandu.Unicode.{Unicode}
use jiandu.Float.{Float, cmp_or_equal}
use jiandu.Types.{cache_stability_rank}
use jiandu.Recall.{MemoryRecallCandidate, instant, compare_candidates, sort_recall_candidates}

-- What `then_with` of four comparisons that is not "after" says of each.
decided :
    (a b c d : Ordering)
    → not_after (then_with a (then_with b (then_with c d))) ≡ true
    → (a ≡ Ordering.lt)
      ⊎ ((a ≡ Ordering.eq)
          × ((b ≡ Ordering.lt)
              ⊎ ((b ≡ Ordering.eq)
                  × ((c ≡ Ordering.lt) ⊎ ((c ≡ Ordering.eq) × (not_after d ≡ true))))))
decided Ordering.lt b c d h = inl refl
decided Ordering.gt b c d h = absurd (false≢true h)
decided Ordering.eq Ordering.lt c d h = inr (refl, inl refl)
decided Ordering.eq Ordering.gt c d h = absurd (false≢true h)
decided Ordering.eq Ordering.eq Ordering.lt d h = inr (refl, inr (refl, inl refl))
decided Ordering.eq Ordering.eq Ordering.gt d h = absurd (false≢true h)
decided Ordering.eq Ordering.eq Ordering.eq d h = inr (refl, inr (refl, inr (refl, h)))

compare-lt : (m n : ℕ) → compare m n ≡ Ordering.lt → m < n
compare-lt m n h = ground arith

compare-eq : (m n : ℕ) → compare m n ≡ Ordering.eq → m ≡ n
compare-eq m n h = ground arith

module _ (unicode : Unicode) (float : Float) (parse_rfc3339 : Text → Option ℕ) where
  open float use {F, partial_cmp}

  -- A value that is equal to itself: every one but NaN.
  abbrev pub IsNumber : F → Type 0
  IsNumber x = partial_cmp x x ≡ some Ordering.eq

  abbrev pub rank : MemoryRecallCandidate F → ℕ
  rank c = cache_stability_rank c.granularity

  abbrev pub updated : MemoryRecallCandidate F → ℕ
  updated c = instant unicode float parse_rfc3339 c.updated_at

  -- The first may stand before the second: its score is greater; or the scores are equal, and its
  -- granularity has the lower rank, which is the coarser one; or that is equal too, and it is newer;
  -- or all these are equal, and its title is no later.
  abbrev pub Precedes : MemoryRecallCandidate F → MemoryRecallCandidate F → Type 0
  Precedes a b =
      (cmp_or_equal float b.score a.score ≡ Ordering.lt)
      ⊎ ((cmp_or_equal float b.score a.score ≡ Ordering.eq)
          × ((rank a < rank b)
              ⊎ ((rank a ≡ rank b)
                  × ((updated b < updated a)
                      ⊎ ((updated b ≡ updated a)
                          × (not_after (text_cmp a.title b.title) ≡ true))))))

  -- Each candidate may stand before every later one.
  abbrev pub IsRanked : List (MemoryRecallCandidate F) → Type 0
  IsRanked [] = Unit
  IsRanked (c ∷ cs) = All (Precedes c) cs × IsRanked cs

  compare_candidates-Precedes :
      (a b : MemoryRecallCandidate F)
      → not_after (compare_candidates unicode float parse_rfc3339 a b) ≡ true
      → Precedes a b
  unfolding compare_candidates
  compare_candidates-Precedes a b h =
      elim (decided (cmp_or_equal float b.score a.score) (compare (rank a) (rank b))
        (compare (updated b) (updated a)) (text_cmp a.title b.title) h) [
          | inl x ↦ inl x
          | inr (x, inl y) ↦ inr (x, inl (compare-lt (rank a) (rank b) y))
          | inr (x, inr (y, inl z)) ↦
              inr (
                x,
                inr (compare-eq (rank a) (rank b) y, inl (compare-lt (updated b) (updated a) z)),
              )
          | inr (x, inr (y, inr (z, t))) ↦ inr (
            x,
            inr (compare-eq (rank a) (rank b) y, inr (compare-eq (updated b) (updated a) z, t)),
          )
        ]

  IsSorted-IsRanked :
      (cs : List (MemoryRecallCandidate F))
      → IsSorted (λ a b. not_after (compare_candidates unicode float parse_rfc3339 a b)) cs
      → IsRanked cs
  IsSorted-IsRanked [] h = tt
  IsSorted-IsRanked (c ∷ cs) h = (
    All-imp (λ d. not_after (compare_candidates unicode float parse_rfc3339 c d) ≡ true)
        (Precedes c) (compare_candidates-Precedes c) cs h.0,
    IsSorted-IsRanked cs h.1,
  )

  abbrev pub HasNumber : MemoryRecallCandidate F → Type 0
  HasNumber c = IsNumber c.score

  -- `partial_cmp` is an order on numbers.
  module _ (scores : IsOrder {A = (x : F) × IsNumber x} (λ x y. cmp_or_equal float x.0 y.0)) where
    abbrev Numbered : Type 0
    Numbered = (c : MemoryRecallCandidate F) × HasNumber c

    numbered-IsOrder :
        IsOrder {A = Numbered} (λ a b. compare_candidates unicode float parse_rfc3339 a.0 b.0)
    unfolding compare_candidates
    numbered-IsOrder =
        then_with-IsOrder _ _
          (key-IsOrder {A = Numbered} (λ c. (c.0.score, c.1)) (reversed-IsOrder scores))
          (then_with-IsOrder _ _ (key-IsOrder {A = Numbered} (λ c. rank c.0) compare-IsOrder) (
            then_with-IsOrder _ _
              (key-IsOrder {A = Numbered} (λ c. updated c.0) (reversed-IsOrder compare-IsOrder))
              (key-IsOrder {A = Numbered} (λ c. c.0.title) text_cmp-IsOrder)))

    pub sort_recall_candidates-IsRanked :
        (cs : List (MemoryRecallCandidate F))
        → All HasNumber cs
        → IsRanked (sort_recall_candidates unicode float parse_rfc3339 cs)
    unfolding sort_recall_candidates
    sort_recall_candidates-IsRanked cs all = IsSorted-IsRanked _ (
        sort_by-IsSorted _ HasNumber
          (λ x y p q h. ground (arith, numbered-IsOrder.flip (x, p) (y, q)))
          (λ x y z p q r. numbered-IsOrder.trans (x, p) (y, q) (z, r)) cs all)
