-- ===== src/AccessLog.antt =====
-- memory_store/access_log.rs: parsing, aggregating and compacting the access log of a scope. JSON is
-- read by serde_json and times by chrono, which are parameters.
pub mod Counts
pub mod Compaction
use jiandu.Prelude.{
  ℕ, suc, ◌-◌, ◌/◌, Bool, false, List, [], ◌∷◌, Option, none, some, ◌==◌, if◌then◌else◌, is_empty,
  length, ltb, leb, filter, drop,
}
pub use jiandu.Types.{AccessLogEntry}
use jiandu.Text.{Text, trim, split}
use jiandu.Float.{Float, le}
use jiandu.Freshness.{age_days, nanoseconds_per_day}
use jiandu.Assoc.{upsert}

abbrev pub access_log_aging_window_days : ℕ
access_log_aging_window_days = 90

abbrev pub access_log_max_retained_entries : ℕ
access_log_max_retained_entries = 20000

cons_some : Option AccessLogEntry → List AccessLogEntry → List AccessLogEntry
cons_some none entries = entries
cons_some (some entry) entries = entry ∷ entries

parse_lines : (Text → Option AccessLogEntry) → List Text → List AccessLogEntry
unfolding cons_some
parse_lines from_str [] = []
parse_lines from_str (line ∷ lines) =
    if is_empty (trim line)
    then parse_lines from_str lines
    else cons_some (from_str (trim line)) (parse_lines from_str lines)

-- `lines` also takes a carriage return off the end of a line, which is then trimmed away.
unfoldable pub parse_access_log : (Text → Option AccessLogEntry) → Text → List AccessLogEntry
unfolding parse_lines
parse_access_log from_str raw = parse_lines from_str (split (λ c. c == b'\n') raw)

module _ (parse_rfc3339 : Text → Option ℕ) where
  abbrev pub is_recent : ℕ → AccessLogEntry → Bool
  is_recent now entry = elim (parse_rfc3339 entry.ts) [
    | none ↦ false
    | some ts ↦ leb ((now - ts) / nanoseconds_per_day) access_log_aging_window_days
  ]

  abbrev pub drop_oldest : List AccessLogEntry → List AccessLogEntry
  drop_oldest entries =
      if ltb access_log_max_retained_entries (length entries)
      then drop (length entries - access_log_max_retained_entries) entries
      else entries

  unfoldable pub compact_entries : List AccessLogEntry → ℕ → List AccessLogEntry
  compact_entries entries now = drop_oldest (filter (is_recent now) entries)

module _ (float : Float) where
  open float use {F, lit, of_ℕ, add, mul, div, powf}

  pub record AccessStats : Type 0 where
    pub count : ℕ
    pub score : F

  abbrev pub no_stats : AccessStats
  no_stats = record { count = 0; score = lit 0 1 }

  abbrev pub accessed : F → AccessStats → AccessStats
  accessed weight stats = record { count = suc stats.count; score = add stats.score weight }

  abbrev pub score_of : Option AccessStats → F
  score_of none = lit 0 1
  score_of (some stats) = stats.score

  unfoldable pub access_multiplier : Option AccessStats → F
  access_multiplier stats =
      if le float (score_of stats) (lit 0 1)
      then lit 1 1
      else add (lit 1 1) (mul (lit 1 1) (div (score_of stats) (add (score_of stats) (lit 3 1))))

  module _ (parse_rfc3339 : Text → Option ℕ) where
    abbrev pub weight_of : ℕ → ℕ → F
    weight_of now ts = powf (lit 5 10) (div (of_ℕ (age_days now ts)) (lit 30 1))

    -- One turn of the loop, at the trimmed id and the time of the entry.
    unfoldable pub add_access :
        ℕ → Text → Option ℕ → List (Text × AccessStats) → List (Text × AccessStats)
    add_access now [] ts stats = stats
    add_access now (c ∷ id) none stats = stats
    add_access now (c ∷ id) (some ts) stats =
        upsert (c ∷ id) no_stats (accessed (weight_of now ts)) stats

    unfoldable pub add_accesses :
        ℕ → List AccessLogEntry → List (Text × AccessStats) → List (Text × AccessStats)
    add_accesses now [] stats = stats
    add_accesses now (entry ∷ entries) stats =
        add_accesses now entries (add_access now (trim entry.id) (parse_rfc3339 entry.ts) stats)

    unfoldable pub aggregate_access_stats : List AccessLogEntry → ℕ → List (Text × AccessStats)
    aggregate_access_stats entries now = add_accesses now entries []
