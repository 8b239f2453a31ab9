-- ===== src/Prelude/Sort.antt =====
-- The stable sort of Rust's `sort_by`, as insertion by a test for "not after", and its laws.
use Prim.Native.Nat.{Ordering, suc}
use mathlib.Core.Path.{◌≡◌, refl}
use mathlib.Core.Bool.{Bool, true, false}
use mathlib.Core.List.{List, [], ◌∷◌, Perm}
use mathlib.Core.List.Perm
use native.Mathlib.Omega.{arith}
use jiandu.Prelude.Tests.{if◌then◌else◌, Bool-cases}
use jiandu.Prelude.Lists.{All, length}
use mathlib.Core.Logic.{inl, inr}

-- `Ordering::then_with`, its second comparison made by the caller.
abbrev pub then_with : Ordering → Ordering → Ordering
then_with Ordering.eq o = o
then_with o p = o

abbrev pub reverse_ordering : Ordering → Ordering
reverse_ordering Ordering.lt = Ordering.gt
reverse_ordering Ordering.eq = Ordering.eq
reverse_ordering Ordering.gt = Ordering.lt

-- A comparison that does not put the first after the second.
abbrev pub not_after : Ordering → Bool
not_after Ordering.gt = false
not_after _ = true

module _ {ℓ} {A : Type ℓ} (le : A → A → Bool) where
  unfoldable pub insert_sorted : A → List A → List A
  insert_sorted x [] = x ∷ []
  insert_sorted x (y ∷ ys) = if le x y then x ∷ y ∷ ys else y ∷ insert_sorted x ys

  unfoldable pub sort_by : List A → List A
  unfolding insert_sorted
  sort_by [] = []
  sort_by (x ∷ xs) = insert_sorted x (sort_by xs)

  -- Each element is not after any later one.
  abbrev pub IsSorted : List A → Type 0
  IsSorted [] = Unit
  IsSorted (x ∷ xs) = All (λ y. le x y ≡ true) xs × IsSorted xs

  insert_sorted-perm : (x : A) (xs : List A) → Perm (insert_sorted x xs) (x ∷ xs)
  unfolding insert_sorted
  insert_sorted-perm x [] = Perm.refl _
  insert_sorted-perm x (y ∷ ys) = elim (Bool-cases (le x y)) [
    | inl e ↦ rw e (Perm.refl _)
    | inr e ↦ rw e (Perm.trans (Perm.cons y (insert_sorted-perm x ys)) (Perm.swap x y ys))
  ]

  pub sort_by-perm : (xs : List A) → Perm (sort_by xs) xs
  unfolding sort_by
  sort_by-perm [] = Perm.refl []
  sort_by-perm (x ∷ xs) =
      Perm.trans (insert_sorted-perm x (sort_by xs)) (Perm.cons x (sort_by-perm xs))

  insert_sorted-All {κ} :
      (P : A → Type κ) (x : A) (xs : List A) → P x → All P xs → All P (insert_sorted x xs)
  unfolding insert_sorted
  insert_sorted-All P x [] p ps = (p, tt)
  insert_sorted-All P x (y ∷ ys) p ps = elim (Bool-cases (le x y)) [
    | inl e ↦ rw e (p, ps)
    | inr e ↦ rw e (ps.0, insert_sorted-All P x ys p ps.1)
  ]

  pub sort_by-All {κ} : (P : A → Type κ) (xs : List A) → All P xs → All P (sort_by xs)
  unfolding sort_by
  sort_by-All P [] ps = tt
  sort_by-All P (x ∷ xs) ps = insert_sorted-All P x _ ps.0 (sort_by-All P xs ps.1)

  length-insert_sorted : (x : A) (xs : List A) → length (insert_sorted x xs) ≡ suc (length xs)
  unfolding insert_sorted
  length-insert_sorted x [] = refl
  length-insert_sorted x (y ∷ ys) = ground (arith, length-insert_sorted x ys)

  pub length-sort_by : (xs : List A) → length (sort_by xs) ≡ length xs
  unfolding sort_by
  length-sort_by [] = refl
  length-sort_by (x ∷ xs) = omega (arith, length-insert_sorted x (sort_by xs), length-sort_by xs)

  -- The test is an order on the values that have the property.
  module _ {κ} (P : A → Type κ) (total : (x y : A) → P x → P y → le x y ≡ false → le y x ≡ true)
      (transitive : (x y z : A)
        → P x
        → P y
        → P z
        → le x y ≡ true
        → le y z ≡ true
        → le x z ≡ true) where
    insert_sorted-IsSorted :
        (x : A) (xs : List A) → P x → All P xs → IsSorted xs → IsSorted (insert_sorted x xs)
    unfolding insert_sorted
    insert_sorted-IsSorted x [] p ps s = (tt, tt)
    insert_sorted-IsSorted x (y ∷ ys) p ps s = elim (Bool-cases (le x y)) [
      | inl e ↦ rw e ((e, later x y ys p ps.0 ps.1 e s.0), s)
      | inr e ↦ rw e (
        insert_sorted-All (λ z. le y z ≡ true) x ys (total x y p ps.0 e) s.0,
        insert_sorted-IsSorted x ys p ps.1 s.1,
      )
    ]
      where
        later :
            (x y : A) (ys : List A)
            → P x
            → P y
            → All P ys
            → le x y ≡ true
            → All (λ z. le y z ≡ true) ys
            → All (λ z. le x z ≡ true) ys
        later x y [] p q qs e h = tt
        later x y (z ∷ zs) p q qs e h =
            (transitive x y z p q qs.0 e h.0, later x y zs p q qs.1 e h.1)

    pub sort_by-IsSorted : (xs : List A) → All P xs → IsSorted (sort_by xs)
    unfolding sort_by
    sort_by-IsSorted [] ps = tt
    sort_by-IsSorted (x ∷ xs) ps =
        insert_sorted-IsSorted x (sort_by xs) ps.0 (sort_by-All P xs ps.1)
          (sort_by-IsSorted xs ps.1)
