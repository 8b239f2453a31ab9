-- ===== src/Tests/Accesses.antt =====
-- The theorems on the access log at a concrete log.
use jiandu.Prelude.{
  ℕ, ◌≡◌, ◌≤◌, ◌⊎◌, refl, List, [], ◌∷◌, ◌++◌, Option, none, some, length, filter, is_empty,
  if◌then◌else◌,
}
use jiandu.Text.{Text, text}
use jiandu.Assoc.{lookup}
use jiandu.AccessLog.{
  AccessLogEntry, is_recent, compact_entries, access_log_max_retained_entries,
  aggregate_access_stats,
}
use jiandu.AccessLog.Compaction.{compact_entries_newest}
use jiandu.AccessLog.Counts.{counted, is_access, aggregate_access_stats_counts}
use jiandu.Tests.{whole_float}

-- A time is as old as its text is long.
abbrev text_time : Text → Option ℕ
text_time t = if is_empty t then none else some (length t)

abbrev entry : Text → Text → AccessLogEntry
entry id ts = record { id = id; ts = ts }

abbrev entries : List AccessLogEntry
entries =
    entry (text "a") (text "t")
    ∷ entry (text " a ") (text "tt")
    ∷ entry (text "b") []
    ∷ entry (text " ") (text "t")
    ∷ []

-- Ninety-one days, and one nanosecond.
abbrev now : ℕ
now = 7862400000000001

old_entry_dropped : compact_entries text_time entries now ≡ entry (text " a ") (text "tt") ∷ []
unfolding compact_entries
old_entry_dropped = refl

two_accesses :
    counted whole_float text_time
      (lookup (text "a") (aggregate_access_stats whole_float text_time entries now))
    ≡ 2
unfolding lookup aggregate_access_stats jiandu.AccessLog.add_accesses jiandu.AccessLog.add_access
    jiandu.Text.trim jiandu.Assoc.upsert
two_accesses = refl

compact_entries_newest_example :
    (oldest : List AccessLogEntry) × (oldest ++ compact_entries text_time entries now
      ≡ filter (is_recent text_time now) entries)
    × (length (compact_entries text_time entries now) ≤ access_log_max_retained_entries)
    × ((oldest ≡ [])
        ⊎ (length (compact_entries text_time entries now) ≡ access_log_max_retained_entries))
compact_entries_newest_example = compact_entries_newest text_time entries now

aggregate_access_stats_counts_example :
    counted whole_float text_time
      (lookup (text "a") (aggregate_access_stats whole_float text_time entries now))
    ≡ length (filter (is_access whole_float text_time (text "a")) entries)
aggregate_access_stats_counts_example =
    aggregate_access_stats_counts whole_float text_time entries now (text "a")
