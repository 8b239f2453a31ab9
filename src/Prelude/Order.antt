-- ===== src/Prelude/Order.antt =====
-- Comparisons that are total preorders: on numbers, on texts, reversed, by a key, and one after the
-- other.
use Prim.Native.Nat.{ℕ, Ordering, compare}
use mathlib.Core.Path.{◌≡◌, refl}
use mathlib.Core.Bool.{true}
use mathlib.Core.List.{List, [], ◌∷◌}
use native.Mathlib.Omega.{arith}
use jiandu.Prelude.Sort.{then_with, reverse_ordering, not_after}

pub record IsOrder {ℓ} {A : Type ℓ} (cmp : A → A → Ordering) : Type ℓ where
  pub flip : (x y : A) → cmp y x ≡ reverse_ordering (cmp x y)
  pub trans :
      (x y z : A)
      → not_after (cmp x y) ≡ true
      → not_after (cmp y z) ≡ true
      → not_after (cmp x z) ≡ true

pub compare-IsOrder : IsOrder compare
compare-IsOrder = record { flip = λ x y. ground arith; trans = λ x y z h k. ground arith }

then_with_flip :
    (c d : Ordering)
    → then_with (reverse_ordering c) (reverse_ordering d) ≡ reverse_ordering (then_with c d)
then_with_flip Ordering.lt d = refl
then_with_flip Ordering.eq d = refl
then_with_flip Ordering.gt d = refl

module _ {ℓ} {A : Type ℓ} where
  pub reversed-IsOrder : {cmp : A → A → Ordering} → IsOrder cmp → IsOrder (λ x y. cmp y x)
  reversed-IsOrder o = record { flip = λ x y. o.flip y x; trans = λ x y z h k. o.trans z y x k h }

  pub key-IsOrder {κ} :
      {B : Type κ} (f : A → B) {cmp : B → B → Ordering}
      → IsOrder cmp
      → IsOrder (λ x y. cmp (f x) (f y))
  key-IsOrder f o = record {
    flip = λ x y. o.flip (f x) (f y);
    trans = λ x y z. o.trans (f x) (f y) (f z);
  }

  pub then_with-IsOrder :
      (c d : A → A → Ordering) → IsOrder c → IsOrder d → IsOrder (λ x y. then_with (c x y) (d x y))
  then_with-IsOrder c d oc od = record {
    flip = λ x y. rw (oc.flip x y, od.flip x y) (then_with_flip (c x y) (d x y));
    trans = λ x y z h k. ground (
      arith,
      oc.flip x y,
      oc.flip y z,
      oc.flip x z,
      oc.trans x y z,
      oc.trans y z x,
      oc.trans z x y,
      od.trans x y z,
    );
  }

-- `str::cmp`. Comparing the UTF-8 bytes is comparing the characters.
abbrev pub text_cmp : List ℕ → List ℕ → Ordering
text_cmp [] [] = Ordering.eq
text_cmp [] (d ∷ u) = Ordering.lt
text_cmp (c ∷ t) [] = Ordering.gt
text_cmp (c ∷ t) (d ∷ u) = then_with (compare c d) (text_cmp t u)

text_cmp_flip : (t u : List ℕ) → text_cmp u t ≡ reverse_ordering (text_cmp t u)
text_cmp_flip [] [] = refl
text_cmp_flip [] (d ∷ u) = refl
text_cmp_flip (c ∷ t) [] = refl
text_cmp_flip (c ∷ t) (d ∷ u) = ground (arith, text_cmp_flip t u)

text_cmp_trans :
    (t u v : List ℕ)
    → not_after (text_cmp t u) ≡ true
    → not_after (text_cmp u v) ≡ true
    → not_after (text_cmp t v) ≡ true
text_cmp_trans [] [] v h k = k
text_cmp_trans [] (d ∷ u) [] h k = refl
text_cmp_trans [] (d ∷ u) (e ∷ v) h k = refl
text_cmp_trans (c ∷ t) [] v h k = ground arith
text_cmp_trans (c ∷ t) (d ∷ u) [] h k = ground arith
text_cmp_trans (c ∷ t) (d ∷ u) (e ∷ v) h k = ground (arith, text_cmp_trans t u v)

pub text_cmp-IsOrder : IsOrder text_cmp
text_cmp-IsOrder = record { flip = text_cmp_flip; trans = text_cmp_trans }
