-- ===== src/AccessLog/Compaction.antt =====
-- What compaction keeps.
use jiandu.Prelude.{
  ℕ, suc, zero, ◌-◌, ◌≡◌, ◌≤◌, ◌⊎◌, inl, inr, refl, ap, List, [], ◌∷◌, ◌++◌, Option, arith,
  Bool-cases, length, ltb, filter, take, drop, length-drop,
}
use jiandu.Text.{Text}
use jiandu.AccessLog.{
  AccessLogEntry, access_log_max_retained_entries, is_recent, compact_entries, drop_oldest,
}

take-append_drop : {A : Type 0} (n : ℕ) (xs : List A) → take n xs ++ drop n xs ≡ xs
take-append_drop zero xs = refl
take-append_drop (suc n) [] = refl
take-append_drop (suc n) (x ∷ xs) = ap (λ t. x ∷ t) (take-append_drop n xs)

module _ (parse_rfc3339 : Text → Option ℕ) where
  -- The compacted log is the newest part of the entries of at most 90 days: at most 20,000 of them,
  -- and older ones are dropped only if 20,000 are kept.
  pub compact_entries_newest :
      (entries : List AccessLogEntry) (now : ℕ)
      → (oldest : List AccessLogEntry) × (oldest ++ compact_entries parse_rfc3339 entries now
          ≡ filter (is_recent parse_rfc3339 now) entries)
        × (length (compact_entries parse_rfc3339 entries now) ≤ access_log_max_retained_entries)
        × ((oldest ≡ [])
            ⊎ (length (compact_entries parse_rfc3339 entries now)
                ≡ access_log_max_retained_entries))
  unfolding compact_entries
  compact_entries_newest entries now = newest (filter (is_recent parse_rfc3339 now) entries)
    where
      newest :
          (kept : List AccessLogEntry)
          → (oldest : List AccessLogEntry) × (oldest ++ drop_oldest parse_rfc3339 kept ≡ kept)
            × (length (drop_oldest parse_rfc3339 kept) ≤ access_log_max_retained_entries)
            × ((oldest ≡ [])
                ⊎ (length (drop_oldest parse_rfc3339 kept) ≡ access_log_max_retained_entries))
      newest kept =
          let n = length kept - access_log_max_retained_entries in
          elim (Bool-cases (ltb access_log_max_retained_entries (length kept))) [
            | inl e ↦ (
              take n kept,
              rw e (take-append_drop n kept),
              rw e (ground (arith, length-drop n kept, e)),
              inr (rw e (ground (arith, length-drop n kept, e))),
            )
            | inr e ↦ ([], rw e refl, rw e (ground (arith, e)), inl refl)
          ]
