-- ===== src/Float.antt =====
-- `f64`, with the operations that the program uses, as a parameter: the proofs use no law of it.
use jiandu.Prelude.{ℕ, Bool, true, false, Option, none, some, Ordering}

pub record Float : Type 1 where
  pub F : Type 0
  -- A decimal literal `n / d`, and the conversion of an integer.
  pub lit : ℕ → ℕ → F
  pub of_ℕ : ℕ → F
  pub add : F → F → F
  pub sub : F → F → F
  pub mul : F → F → F
  pub div : F → F → F
  pub maximum : F → F → F
  pub ln : F → F
  pub sqrt : F → F
  pub powf : F → F → F
  pub round : F → F
  pub epsilon : F
  pub partial_cmp : F → F → Option Ordering

module _ (float : Float) where
  open float use {F, partial_cmp}

  -- `partial_cmp(..).unwrap_or(Equal)`
  abbrev pub cmp_or_equal : F → F → Ordering
  cmp_or_equal a b = elim (partial_cmp a b) [ none ↦ Ordering.eq | some o ↦ o ]

  -- `a <= b`, `a >= b`, false where either is not a number.
  abbrev pub le : F → F → Bool
  le a b = elim (partial_cmp a b) [
    | none ↦ false
    | some o ↦ elim o [ Ordering.gt ↦ false | _ ↦ true ]
  ]

  abbrev pub ge : F → F → Bool
  ge a b = elim (partial_cmp a b) [
    | none ↦ false
    | some o ↦ elim o [ Ordering.lt ↦ false | _ ↦ true ]
  ]

  abbrev pub gt : F → F → Bool
  gt a b = elim (partial_cmp a b) [
    | none ↦ false
    | some o ↦ elim o [ Ordering.gt ↦ true | _ ↦ false ]
  ]
