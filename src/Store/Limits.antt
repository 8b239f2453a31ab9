-- ===== src/Store/Limits.antt =====
-- The bounds of memory_store/store.rs on what one memory accretes.
pub mod Bounds
use jiandu.Prelude.{
  ℕ, suc, ◌+◌, Bool, true, false, not, ◌||◌, List, [], ◌∷◌, ◌++◌, ltb, length, filter,
  if◌then◌else◌,
}
use jiandu.Prelude.Classes.{nat_eq, list_eq, contains}
use jiandu.Text.{Text, text, trim_end}
use jiandu.Types.{DurableMemorySource, source_eq}

abbrev pub max_durable_memory_body_chars : ℕ
max_durable_memory_body_chars = 4000

abbrev pub max_durable_memory_source_items : ℕ
max_durable_memory_source_items = 256

abbrev pub memory_section_separator : Text
memory_section_separator = text "\n\n---\n\n"

unfoldable pub projected_merged_body_chars : Text → Text → ℕ
projected_merged_body_chars body content =
    length (trim_end body) + length memory_section_separator + length content

-- `format!("{}{}{}", body.trim_end(), MEMORY_SECTION_SEPARATOR, content)`
abbrev pub append_section : Text → Text → Text
append_section body content = trim_end body ++ (memory_section_separator ++ content)

-- The loop of `merged_source_coverage_fits`. The sum is checked at each step, before it could
-- saturate.
unfoldable pub coverage_fits : ℕ → ℕ → List DurableMemorySource → Bool
coverage_fits source_count message_count [] = true
coverage_fits source_count message_count (source ∷ sources) =
    let sources' = suc source_count in
    let messages' = message_count + length source.message_range in
    let rest = coverage_fits sources' messages' sources in
    if ltb max_durable_memory_source_items sources' || ltb max_durable_memory_source_items messages'
    then false
    else rest

unfoldable pub merged_source_coverage_fits :
    List DurableMemorySource → List DurableMemorySource → Bool
merged_source_coverage_fits existing incoming =
    coverage_fits 0 0 (existing ++ filter (λ source. not (contains existing source)) incoming)

-- Each incoming source that is not there yet is pushed.
unfoldable pub add_sources :
    List DurableMemorySource → List DurableMemorySource → List DurableMemorySource
add_sources existing [] = existing
add_sources existing (source ∷ sources) =
    add_sources (if contains existing source then existing else existing ++ source ∷ []) sources
