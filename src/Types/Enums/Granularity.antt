-- ===== src/Types/Enums/Granularity.antt =====
-- `TemporalGranularity` of memory_store/types.rs: names, parsing, and the cache-stability order.
use jiandu.Prelude.{
  ℕ, ◌≡◌, refl, ◌↔◌, ◌⊎◌, inl, inr, Bool, true, false, map, Option, none, some, arith, ltb,
  if◌then◌else◌,
}
use jiandu.Prelude.Classes.{Eq, ◌=?◌, nat_eq, list_eq}
use jiandu.Text.{Text, text, trim, to_ascii_lowercase}

pub data TemporalGranularity : Type 0 where
  day week month quarter year : TemporalGranularity

abbrev pub granularity_as_str : TemporalGranularity → Text
granularity_as_str day = text "day"
granularity_as_str week = text "week"
granularity_as_str month = text "month"
granularity_as_str quarter = text "quarter"
granularity_as_str year = text "year"

unfoldable pub parse : Text → Option TemporalGranularity
unfolding trim to_ascii_lowercase
parse value =
    let word = map to_ascii_lowercase (trim value) in
    if word =? text "day"
    then some day
    else if word =? text "week"
    then some week
    else if word =? text "month"
    then some month
    else if word =? text "quarter"
    then some quarter
    else if word =? text "year"
    then some year
    else none

abbrev pub cache_stability_rank : Option TemporalGranularity → ℕ
cache_stability_rank none = 0
cache_stability_rank (some year) = 1
cache_stability_rank (some quarter) = 2
cache_stability_rank (some month) = 3
cache_stability_rank (some week) = 4
cache_stability_rank (some day) = 5

abbrev pub is_high_churn : Option TemporalGranularity → Bool
is_high_churn g = ltb (cache_stability_rank (some month)) (cache_stability_rank g)

-- The derived order, day < week < month < quarter < year, as the position of the constructor.
abbrev pub granularity_position : TemporalGranularity → ℕ
granularity_position day = 0
granularity_position week = 1
granularity_position month = 2
granularity_position quarter = 3
granularity_position year = 4

abbrev pub granularity_beq : TemporalGranularity → TemporalGranularity → Bool
granularity_beq day day = true
granularity_beq week week = true
granularity_beq month month = true
granularity_beq quarter quarter = true
granularity_beq year year = true
granularity_beq _ _ = false

pub granularity_beq_iff : (a b : TemporalGranularity) → (granularity_beq a b ≡ true) ↔ (a ≡ b)
granularity_beq_iff a b = (λ h. ground arith, λ h. ground arith)

instance abbrev pub granularity_eq : Eq TemporalGranularity
granularity_eq = record { beq = granularity_beq; beq_iff = granularity_beq_iff }

-- A memory is of high churn exactly if its granularity is a day or a week.
pub is_high_churn_iff :
    (g : Option TemporalGranularity) → (is_high_churn g ≡ true) ↔ ((g ≡ some day) ⊎ (g ≡ some week))
is_high_churn_iff none = (λ h. ground arith, λ h. ground arith)
is_high_churn_iff (some day) = (λ h. inl refl, λ h. refl)
is_high_churn_iff (some week) = (λ h. inr refl, λ h. refl)
is_high_churn_iff (some month) = (λ h. ground arith, λ h. ground arith)
is_high_churn_iff (some quarter) = (λ h. ground arith, λ h. ground arith)
is_high_churn_iff (some year) = (λ h. ground arith, λ h. ground arith)
