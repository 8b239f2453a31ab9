-- ===== src/Freshness.antt =====
-- memory_store/freshness.rs: the age of a memory and when a fine-grained one expires.
pub mod Windows
use jiandu.Prelude.{ℕ, ◌-◌, ◌/◌, Bool, false, Option, none, some, ltb, min}
use jiandu.Text.{Text}
use jiandu.Types.{TemporalGranularity, day, week}
use jiandu.Store.Disk.{Env, Action, ◌>>=◌, return, read_clock}

abbrev pub day_granularity_stale_after_days : ℕ
day_granularity_stale_after_days = 7

abbrev pub week_granularity_stale_after_days : ℕ
week_granularity_stale_after_days = 30

abbrev pub nanoseconds_per_day : ℕ
nanoseconds_per_day = 86400000000000

-- `(now - clamped).num_days()`, with an instant in the future clamped to now.
abbrev pub age_days : ℕ → ℕ → ℕ
age_days now updated = (now - min updated now) / nanoseconds_per_day

-- The time-based test at an age.
abbrev pub window_passed : Option TemporalGranularity → ℕ → Bool
window_passed (some day) age = ltb day_granularity_stale_after_days age
window_passed (some week) age = ltb week_granularity_stale_after_days age
window_passed _ age = false

abbrev pub expired_at : Option TemporalGranularity → Option ℕ → Bool
expired_at granularity none = false
expired_at granularity (some age) = window_passed granularity age

module _ (env : Env) where
  -- The clock is read only for a time that can be read.
  unfoldable pub memory_age_days : Text → Action (Option ℕ)
  memory_age_days updated_at = elim (env.parse_rfc3339 updated_at) [
    | none ↦ return none
    | some updated ↦ read_clock env >>= λ now. return (some (age_days now updated))
  ]

  unfoldable pub granularity_expired : Option TemporalGranularity → Text → Action Bool
  unfolding memory_age_days
  granularity_expired granularity updated_at =
      memory_age_days updated_at >>= λ age. return (expired_at granularity age)
