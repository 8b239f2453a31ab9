-- ===== src/Store/Limits/Bounds.antt =====
-- What the bounds guarantee.
use jiandu.Prelude.{
  ℕ, suc, ◌+◌, ◌≤◌, ◌≡◌, ap, ◌∙◌, true, not, List, [], ◌∷◌, ◌++◌, length, filter, arith,
  length-append, Bool-cases, inl, inr,
}
use jiandu.Prelude.Classes.{contains, contains-append}
use jiandu.Text.{Text, trim_end}
use jiandu.Types.{DurableMemorySource, source_eq}
use jiandu.Store.Limits.{
  max_durable_memory_source_items, memory_section_separator, projected_merged_body_chars,
  append_section, coverage_fits, merged_source_coverage_fits, add_sources,
}

-- The projection is exact: it is the length of the body after the append.
pub length-append_section :
    (body content : Text)
    → length (append_section body content) ≡ projected_merged_body_chars body content
unfolding projected_merged_body_chars
length-append_section body content =
    length-append (trim_end body) (memory_section_separator ++ content)
    ∙ ap (λ n. length (trim_end body) + n) (length-append memory_section_separator content)
    ∙ omega arith

-- The messages that the sources cover, with repetition.
abbrev pub messages : List DurableMemorySource → ℕ
messages [] = 0
messages (source ∷ sources) = length source.message_range + messages sources

abbrev pub IsCovered : List DurableMemorySource → Type 0
IsCovered sources =
    (length sources ≤ max_durable_memory_source_items)
    × (messages sources ≤ max_durable_memory_source_items)

coverage_fits_lem :
    (s m : ℕ) (sources : List DurableMemorySource)
    → s ≤ 256
    → m ≤ 256
    → coverage_fits s m sources ≡ true
    → (s + length sources ≤ 256) × (m + messages sources ≤ 256)
unfolding coverage_fits
coverage_fits_lem s m [] a b h = (omega (arith, a), omega (arith, b))
coverage_fits_lem s m (source ∷ sources) a b h =
    ground (arith, coverage_fits_lem (suc s) (m + length source.message_range) sources)

abbrev fresh : List DurableMemorySource → List DurableMemorySource → List DurableMemorySource
fresh existing incoming = filter (λ source. not (contains existing source)) incoming

messages-append :
    (xs ys : List DurableMemorySource) → messages (xs ++ ys) ≡ messages xs + messages ys
messages-append [] ys = omega arith
messages-append (x ∷ xs) ys =
    ap (λ n. length x.message_range + n) (messages-append xs ys) ∙ omega arith

-- A longer list of known sources leaves less to add.
fresh-le :
    (existing more incoming : List DurableMemorySource)
    → (length (fresh (existing ++ more) incoming) ≤ length (fresh existing incoming))
      × (messages (fresh (existing ++ more) incoming) ≤ messages (fresh existing incoming))
fresh-le existing more [] = (omega arith, omega arith)
fresh-le existing more (source ∷ incoming) =
    let rest = fresh-le existing more incoming in
    let split = contains-append existing more source in
    elim (Bool-cases (contains existing source)) [
      | inl e ↦ rw (split, e) rest
      | inr e ↦ elim (Bool-cases (contains more source)) [
        | inl f ↦ rw (split, e, f) (omega (arith, rest), omega (arith, rest))
        | inr f ↦ rw (split, e, f) (omega (arith, rest), omega (arith, rest))
      ]
    ]

-- Pushing the new sources one by one adds no more than the check has counted.
add_sources_le :
    (existing incoming : List DurableMemorySource)
    → (length (add_sources existing incoming) ≤ length existing + length (fresh existing incoming))
      × (messages (add_sources existing incoming)
          ≤ messages existing + messages (fresh existing incoming))
unfolding add_sources
add_sources_le existing [] = (omega arith, omega arith)
add_sources_le existing (source ∷ incoming) = elim (Bool-cases (contains existing source)) [
  | inl e ↦ rw (e, add_sources) (add_sources_le existing incoming)
  | inr e ↦
      let rest = add_sources_le (existing ++ source ∷ []) incoming in
      let less = fresh-le existing (source ∷ []) incoming in
      rw (e, add_sources)
        (
          omega (arith, rest, less, length-append existing (source ∷ [])),
          omega (arith, rest, less, messages-append existing (source ∷ [])),
        )
]

-- Where the check passes, the merged memory has at most 256 sources, and these cover at most 256
-- messages, with repetition.
pub add_sources-IsCovered :
    (existing incoming : List DurableMemorySource)
    → merged_source_coverage_fits existing incoming ≡ true
    → (length (add_sources existing incoming) ≤ max_durable_memory_source_items)
      × (messages (add_sources existing incoming) ≤ max_durable_memory_source_items)
unfolding merged_source_coverage_fits
add_sources-IsCovered existing incoming h =
    let fits =
      coverage_fits_lem 0 0 (existing ++ fresh existing incoming) (omega arith) (omega arith) h in
    let added = add_sources_le existing incoming in
    (
      omega (arith, fits, added, length-append existing (fresh existing incoming)),
      omega (arith, fits, added, messages-append existing (fresh existing incoming)),
    )
