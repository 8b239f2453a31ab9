-- ===== src/Prelude/Places.antt =====
-- Lists whose elements are changed at their places, and totals over them.
use Prim.Native.Nat.{ℕ, zero, suc, ◌+◌, ◌≤◌}
use mathlib.Core.Path.{◌≡◌, refl, ap, subst}
use mathlib.Core.List.{List, [], ◌∷◌, ◌++◌, map}
use mathlib.Core.Option.{some}
use native.Mathlib.Omega.{arith}
use jiandu.Prelude.Lists.{All, length, take, get_elem?}

module _ {ℓ} {A : Type ℓ} where
  abbrev pub set_elem : ℕ → A → List A → List A
  set_elem i y [] = []
  set_elem zero y (x ∷ xs) = y ∷ xs
  set_elem (suc i) y (x ∷ xs) = x ∷ set_elem i y xs

  abbrev pub total : (A → ℕ) → List A → ℕ
  total f [] = 0
  total f (x ∷ xs) = f x + total f xs

  pub total-append : (f : A → ℕ) (xs ys : List A) → total f (xs ++ ys) ≡ total f xs + total f ys
  total-append f [] ys = omega arith
  total-append f (x ∷ xs) ys = omega (arith, total-append f xs ys)

  pub total-set_elem :
      (f : A → ℕ) (i : ℕ) (x y : A) (xs : List A)
      → get_elem? xs i ≡ some x
      → total f (set_elem i y xs) + f x ≡ total f xs + f y
  total-set_elem f i x y [] h = cc
  total-set_elem f zero x y (z ∷ xs) h = let e : z ≡ x = cc in omega (arith, ap f e)
  total-set_elem f (suc i) x y (z ∷ xs) h = omega (arith, total-set_elem f i x y xs h)

  -- Among the first elements, a smaller one makes no larger total.
  pub total-take-set_elem :
      (f : A → ℕ) (n i : ℕ) (x y : A) (xs : List A)
      → get_elem? xs i ≡ some x
      → f y ≤ f x
      → total f (take n (set_elem i y xs)) ≤ total f (take n xs)
  total-take-set_elem f zero i x y xs h le = omega arith
  total-take-set_elem f (suc n) i x y [] h le = omega arith
  total-take-set_elem f (suc n) zero x y (z ∷ xs) h le = let e : z ≡ x = cc in omega (arith, ap f e)
  total-take-set_elem f (suc n) (suc i) x y (z ∷ xs) h le =
      omega (arith, total-take-set_elem f n i x y xs h le)

  pub total-take : (f : A → ℕ) (n : ℕ) (xs : List A) → total f (take n xs) ≤ total f xs
  total-take f zero xs = omega arith
  total-take f (suc n) [] = omega arith
  total-take f (suc n) (x ∷ xs) = omega (arith, total-take f n xs)

  pub take-append : (n : ℕ) (xs ys : List A) → n ≤ length xs → take n (xs ++ ys) ≡ take n xs
  take-append zero xs ys h = refl
  take-append (suc n) [] ys h = absurd (omega arith)
  take-append (suc n) (x ∷ xs) ys h = ap (λ r. x ∷ r) (take-append n xs ys (omega arith))

  pub length-set_elem : (i : ℕ) (y : A) (xs : List A) → length (set_elem i y xs) ≡ length xs
  length-set_elem i y [] = refl
  length-set_elem zero y (x ∷ xs) = refl
  length-set_elem (suc i) y (x ∷ xs) = ap suc (length-set_elem i y xs)

  -- A total that is not zero has an element that counts.
  pub total-pos :
      (f : A → ℕ) (xs : List A)
      → 1 ≤ total f xs
      → (i : ℕ) × (x : A) × (get_elem? xs i ≡ some x) × (1 ≤ f x)
  total-pos f [] h = absurd (omega arith)
  total-pos f (x ∷ xs) h = here_or_later (f x) refl (λ none_here. total-pos f xs (omega arith))
    where
      here_or_later :
          (n : ℕ)
          → f x ≡ n
          → (f x ≡ 0 → (i : ℕ) × (y : A) × (get_elem? xs i ≡ some y) × (1 ≤ f y))
          → (i : ℕ) × (y : A) × (get_elem? (x ∷ xs) i ≡ some y) × (1 ≤ f y)
      here_or_later zero e k = let (i, y, found, pos) = k e in (suc i, y, found, pos)
      here_or_later (suc n) e k = (0, x, refl, omega arith)

  pub get_elem?-set_elem :
      (i : ℕ) (x y : A) (xs : List A)
      → get_elem? xs i ≡ some x
      → get_elem? (set_elem i y xs) i ≡ some y
  get_elem?-set_elem i x y [] h = cc
  get_elem?-set_elem zero x y (z ∷ xs) h = refl
  get_elem?-set_elem (suc i) x y (z ∷ xs) h = get_elem?-set_elem i x y xs h

  module _ {κ} (P : A → Type κ) where
    pub All-set_elem : (i : ℕ) (y : A) (xs : List A) → P y → All P xs → All P (set_elem i y xs)
    All-set_elem i y [] p h = tt
    All-set_elem zero y (x ∷ xs) p h = (p, h.1)
    All-set_elem (suc i) y (x ∷ xs) p h = (h.0, All-set_elem i y xs p h.1)

    pub All-get_elem? : (i : ℕ) (x : A) (xs : List A) → get_elem? xs i ≡ some x → All P xs → P x
    All-get_elem? i x [] e h = cc
    All-get_elem? zero x (y ∷ xs) e h = let f : y ≡ x = cc in subst P f h.0
    All-get_elem? (suc i) x (y ∷ xs) e h = All-get_elem? i x xs e h.1

    pub All-snoc : (xs : List A) (y : A) → All P xs → P y → All P (xs ++ y ∷ [])
    All-snoc [] y h p = (p, tt)
    All-snoc (x ∷ xs) y h p = (h.0, All-snoc xs y h.1 p)

pub get_elem?-map {ℓ κ} :
    {A : Type ℓ} {B : Type κ} (f : A → B) (i : ℕ) (x : A) (xs : List A)
    → get_elem? xs i ≡ some x
    → get_elem? (map f xs) i ≡ some (f x)
get_elem?-map f i x [] h = cc
get_elem?-map f zero x (y ∷ xs) h = let e : y ≡ x = cc in ap (λ z. some (f z)) e
get_elem?-map f (suc i) x (y ∷ xs) h = get_elem?-map f i x xs h

-- A map that carries one property into another.
pub All-map {ℓ κ μ ν} :
    {A : Type ℓ} {B : Type ν} (P : A → Type κ) (Q : B → Type μ) (f : A → B) (xs : List A)
    → ((x : A) → P x → Q (f x))
    → All P xs
    → All Q (map f xs)
All-map P Q f [] k h = tt
All-map P Q f (x ∷ xs) k h = (k x h.0, All-map P Q f xs k h.1)
