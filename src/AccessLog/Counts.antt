-- ===== src/AccessLog/Counts.antt =====
-- What aggregation counts.
use jiandu.Prelude.{
  ℕ, suc, ◌+◌, ◌≡◌, refl, ap, ◌∙◌, subst, Bool, true, false, not, ◌&&◌, List, [], ◌∷◌, Option, none,
  some, arith, Bool-cases, inl, inr, length, is_empty, is_some, filter,
}
use jiandu.Prelude.Classes.{◌=?◌, nat_eq, list_eq}
use jiandu.Text.{Text, trim, text_eq_iff}
use jiandu.Float.{Float}
use jiandu.Assoc.{apply_or, lookup, upsert, lookup-upsert_self, lookup-upsert_ne}
use jiandu.AccessLog.{
  AccessLogEntry, AccessStats, no_stats, accessed, weight_of, add_access, add_accesses,
  aggregate_access_stats,
}

abbrev plus_if : Bool → ℕ → ℕ
plus_if true n = suc n
plus_if false n = n

module _ (float : Float) (parse_rfc3339 : Text → Option ℕ) where
  -- The count that the statistics have for an id.
  abbrev pub counted : Option (AccessStats float) → ℕ
  counted none = 0
  counted (some stats) = stats.count

  abbrev pub names : Text → Text → Option ℕ → Bool
  names id u ts = not (is_empty u) && (u =? id) && is_some ts

  -- An entry that can be read, for this id.
  abbrev pub is_access : Text → AccessLogEntry → Bool
  is_access id entry = names id (trim entry.id) (parse_rfc3339 entry.ts)

  counted-accessed :
      (w : float.F) (found : Option (AccessStats float))
      → counted (some (apply_or (no_stats float) (accessed float w) found)) ≡ suc (counted found)
  counted-accessed w none = refl
  counted-accessed w (some stats) = refl

  counted-upsert :
      (id k : Text) (w : float.F) (stats : List (Text × AccessStats float))
      → counted (lookup id (upsert k (no_stats float) (accessed float w) stats))
        ≡ plus_if (k =? id) (counted (lookup id stats))
  counted-upsert id k w stats = elim (Bool-cases (k =? id)) [
    | inl e ↦ rw e (
        subst
          (λ j.
            counted (lookup j (upsert k (no_stats float) (accessed float w) stats))
            ≡ suc (counted (lookup j stats)))
          ((text_eq_iff k id).0 e)
          (ap counted (lookup-upsert_self k (no_stats float) (accessed float w) stats)
            ∙ counted-accessed w (lookup k stats)))
    | inr e ↦ rw e (ap counted (lookup-upsert_ne k id (no_stats float) (accessed float w) stats e))
  ]

  counted-add_access :
      (id : Text) (now : ℕ) (u : Text) (ts : Option ℕ) (stats : List (Text × AccessStats float))
      → counted (lookup id (add_access float parse_rfc3339 now u ts stats))
        ≡ plus_if (names id u ts) (counted (lookup id stats))
  unfolding add_access
  counted-add_access id now [] ts stats = refl
  counted-add_access id now (c ∷ u) none stats = elim (Bool-cases ((c ∷ u) =? id)) [
    | inl e ↦ rw e refl
    | inr e ↦ rw e refl
  ]
  counted-add_access id now (c ∷ u) (some ts) stats = elim (Bool-cases ((c ∷ u) =? id)) [
    | inl e ↦
        rw e (rw e at (counted-upsert id (c ∷ u) (weight_of float parse_rfc3339 now ts) stats))
    | inr e ↦
        rw e (rw e at (counted-upsert id (c ∷ u) (weight_of float parse_rfc3339 now ts) stats))
  ]

  counted-add_accesses :
      (id : Text) (now : ℕ) (entries : List AccessLogEntry)
      (stats : List (Text × AccessStats float))
      → counted (lookup id (add_accesses float parse_rfc3339 now entries stats))
        ≡ length (filter (is_access id) entries) + counted (lookup id stats)
  unfolding add_accesses
  counted-add_accesses id now [] stats = omega arith
  counted-add_accesses id now (entry ∷ entries) stats = ground (
    arith,
    counted-add_accesses id now entries
        (add_access float parse_rfc3339 now (trim entry.id) (parse_rfc3339 entry.ts) stats),
    counted-add_access id now (trim entry.id) (parse_rfc3339 entry.ts) stats,
  )

  -- The statistics count, for each id, the entries that have it, trimmed and not empty, with a time
  -- that can be read; an id that is not in the statistics has none.
  pub aggregate_access_stats_counts :
      (entries : List AccessLogEntry) (now : ℕ) (id : Text)
      → counted (lookup id (aggregate_access_stats float parse_rfc3339 entries now))
        ≡ length (filter (is_access id) entries)
  unfolding aggregate_access_stats lookup
  aggregate_access_stats_counts entries now id =
      ground (arith, counted-add_accesses id now entries [])
