-- ===== src/Freshness/Windows.antt =====
-- Which memories expire, and when.
use jiandu.Prelude.{
  ℕ, ◌+◌, ◌*◌, ◌≤◌, ◌≡◌, ◌⊎◌, ◌↔◌, refl, ap, true, Option, none, some, arith, inl, inr,
}
use jiandu.Result.{ok}
use jiandu.Text.{Text}
use jiandu.Types.{TemporalGranularity, day, week, month, quarter, year}
use jiandu.Store.Disk.{Env, Disk}
use jiandu.Freshness.{
  granularity_expired, memory_age_days, age_days, window_passed, nanoseconds_per_day,
}

-- A window has passed exactly if a daily memory is at least 8 days old, or a weekly one at least 31.
abbrev pub HasExpired : Option TemporalGranularity → ℕ → ℕ → Type 0
HasExpired granularity now updated =
    ((granularity ≡ some day) × (updated + 8 * nanoseconds_per_day ≤ now))
    ⊎ ((granularity ≡ some week) × (updated + 31 * nanoseconds_per_day ≤ now))

window_passed_iff :
    (granularity : Option TemporalGranularity) (now updated : ℕ)
    → (window_passed granularity (age_days now updated) ≡ true) ↔ HasExpired granularity now updated
window_passed_iff none now updated = (λ h. ground arith, λ h. ground arith)
window_passed_iff (some day) now updated = (λ h. inl (refl, ground arith), λ h. ground arith)
window_passed_iff (some week) now updated = (λ h. inr (refl, ground arith), λ h. ground arith)
window_passed_iff (some month) now updated = (λ h. ground arith, λ h. ground arith)
window_passed_iff (some quarter) now updated = (λ h. ground arith, λ h. ground arith)
window_passed_iff (some year) now updated = (λ h. ground arith, λ h. ground arith)

module _ (env : Env) where
  -- A memory with a readable time expires exactly if it is daily and at least 8 days old, or weekly
  -- and at least 31 days old, by the clock that is read.
  pub granularity_expired_iff :
      (granularity : Option TemporalGranularity) (updated_at : Text) (updated : ℕ) (d : Disk)
      → env.parse_rfc3339 updated_at ≡ some updated
      → ((granularity_expired env granularity updated_at d).0 ≡ ok true)
        ↔ HasExpired granularity (env.clock d.readings) updated
  unfolding granularity_expired
  granularity_expired_iff granularity updated_at updated d e =
      let iff = window_passed_iff granularity (env.clock d.readings) updated in
      rw (e, memory_age_days) (λ h. iff.0 (ground arith), λ h. ap ok (iff.1 h))
