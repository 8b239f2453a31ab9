-- ===== src/Prelude/Classes.antt =====
-- Types with a Boolean equality, and membership by it.
use mathlib.Core.Path.{◌≡◌, refl, ap, ap₂, subst}
use mathlib.Core.Logic.{◌↔◌, ◌≢◌, inl, inr}
use mathlib.Core.Bool.{Bool, true, false, ◌&&◌, ◌||◌, false≢true}
use mathlib.Core.List.{List, [], ◌∷◌, ◌++◌}
use mathlib.Core.Option.{Option, none, some, some-injective}
use native.Mathlib.Omega.{arith}
use Prim.Native.Nat.{ℕ, zero, suc}
use jiandu.Prelude.Lists.{take, filter}
use jiandu.Prelude.Tests.{◌==◌ as nat_beq, ==_iff, and-true, or-false, Bool-cases}

pub record Eq {ℓ} (A : Type ℓ) : Type ℓ where
  pub beq : A → A → Bool
  pub beq_iff : (a b : A) → (beq a b ≡ true) ↔ (a ≡ b)

infix 50 ◌=?◌
abbrev pub ◌=?◌ {ℓ} : {A : Type ℓ} ⦃e : Eq A⦄ → A → A → Bool
◌=?◌ ⦃e⦄ = e.beq

instance abbrev pub nat_eq : Eq ℕ
nat_eq = record { beq = nat_beq; beq_iff = ==_iff }

module _ {ℓ} {A : Type ℓ} ⦃e : Eq A⦄ where
  abbrev pub list_beq : List A → List A → Bool
  list_beq [] [] = true
  list_beq (x ∷ xs) (y ∷ ys) = e.beq x y && list_beq xs ys
  list_beq _ _ = false

  pub list_beq_sound : (xs ys : List A) → list_beq xs ys ≡ true → xs ≡ ys
  list_beq_sound [] [] h = refl
  list_beq_sound (x ∷ xs) (y ∷ ys) h =
      let both = and-true (e.beq x y) (list_beq xs ys) h in
      ap₂ ◌∷◌ ((e.beq_iff x y).0 both.0) (list_beq_sound xs ys both.1)
  list_beq_sound [] (y ∷ ys) h = absurd (false≢true h)
  list_beq_sound (x ∷ xs) [] h = absurd (false≢true h)

  pub list_beq_refl : (xs : List A) → list_beq xs xs ≡ true
  list_beq_refl [] = refl
  list_beq_refl (x ∷ xs) = ground (arith, (e.beq_iff x x).1 refl, list_beq_refl xs)

instance abbrev pub list_eq {ℓ} : {A : Type ℓ} ⦃e : Eq A⦄ → Eq (List A)
list_eq = record {
  beq = list_beq;
  beq_iff = λ xs ys.
      (list_beq_sound xs ys, λ p. subst (λ zs. list_beq xs zs ≡ true) p (list_beq_refl xs));
}

module _ {ℓ} {A : Type ℓ} ⦃e : Eq A⦄ where
  abbrev pub option_beq : Option A → Option A → Bool
  option_beq none none = true
  option_beq (some x) (some y) = e.beq x y
  option_beq _ _ = false

  pub option_beq_iff : (x y : Option A) → (option_beq x y ≡ true) ↔ (x ≡ y)
  option_beq_iff none none = (λ h. refl, λ h. refl)
  option_beq_iff (some x) (some y) =
      (λ h. ap some ((e.beq_iff x y).0 h), λ h. (e.beq_iff x y).1 (some-injective x y h))
  option_beq_iff none (some y) = (λ h. absurd (false≢true h), λ h. cc)
  option_beq_iff (some x) none = (λ h. absurd (false≢true h), λ h. cc)

instance abbrev pub option_eq {ℓ} : {A : Type ℓ} ⦃e : Eq A⦄ → Eq (Option A)
option_eq = record { beq = option_beq; beq_iff = option_beq_iff }

module _ {ℓ} {A : Type ℓ} ⦃e : Eq A⦄ where
  pub beq_refl : (x : A) → e.beq x x ≡ true
  beq_refl x = (e.beq_iff x x).1 refl

  pub beq_ne : (x y : A) → x ≢ y → e.beq x y ≡ false
  beq_ne x y n = elim (Bool-cases (e.beq x y)) [
    | inl h ↦ absurd (n ((e.beq_iff x y).0 h))
    | inr h ↦ h
  ]

  -- Rust's `contains` on a vector or a set.
  abbrev pub contains : List A → A → Bool
  contains [] a = false
  contains (x ∷ xs) a = e.beq x a || contains xs a

  -- No value occurs twice.
  abbrev pub Distinct : List A → Type 0
  Distinct [] = Unit
  Distinct (x ∷ xs) = (contains xs x ≡ false) × Distinct xs

  pub contains-append :
      (xs ys : List A) (a : A) → contains (xs ++ ys) a ≡ (contains xs a || contains ys a)
  contains-append [] ys a = refl
  contains-append (x ∷ xs) ys a = ground (arith, contains-append xs ys a)

  pub contains-filter :
      (p : A → Bool) (xs : List A) (a : A)
      → contains xs a ≡ false
      → contains (filter p xs) a ≡ false
  contains-filter p [] a h = refl
  contains-filter p (x ∷ xs) a h = ground (arith, contains-filter p xs a)

  pub contains-take :
      (n : ℕ) (xs : List A) (a : A) → contains xs a ≡ false → contains (take n xs) a ≡ false
  contains-take zero xs a h = refl
  contains-take (suc n) [] a h = refl
  contains-take (suc n) (x ∷ xs) a h = ground (arith, contains-take n xs a)

  pub Distinct-take : (n : ℕ) (xs : List A) → Distinct xs → Distinct (take n xs)
  Distinct-take zero xs h = tt
  Distinct-take (suc n) [] h = tt
  Distinct-take (suc n) (x ∷ xs) h = (contains-take n xs x h.0, Distinct-take n xs h.1)

  -- A new value at the end keeps the values distinct.
  pub Distinct-snoc :
      (xs : List A) (a : A) → Distinct xs → contains xs a ≡ false → Distinct (xs ++ a ∷ [])
  Distinct-snoc [] a d h = (refl, tt)
  Distinct-snoc (x ∷ xs) a d h =
      let parts = or-false (e.beq x a) (contains xs a) h in
      (
        ground (arith, contains-append xs (a ∷ []) x, e.beq_iff a x, e.beq_iff x a, parts, d.0),
        Distinct-snoc xs a d.1 parts.1,
      )
