-- ===== src/Store/Dream/Snapshot.antt =====
-- A rendered snapshot parses back.
use jiandu.Prelude.{◌≡◌, ◌≢◌, ◌≤◌, refl, [], ◌∷◌, ◌++◌, arith, is_empty, length, ◌||◌, false, ltb}
use jiandu.Result.{ok}
use jiandu.Text.{Text, text, trim, join, strip_prefix}
use jiandu.Text.Trim.{trim_idem}
use jiandu.Types.{DreamSnapshot}
use jiandu.Validate.{validate_source_generation}
use jiandu.Document.{Yaml, YamlLaws}
use jiandu.Document.Markers.{trim_framed}
use jiandu.Document.RoundTrip.{split_printed}
use jiandu.Store.Dream.{
  DreamSnapshotFrontmatter, snapshot_frontmatter, max_dream_content_chars, render_dream_snapshot,
  parse_dream_snapshot,
}

-- The content that may be published.
abbrev pub IsContent : Text → Type 0
IsContent content = (content ≢ []) × (length content ≤ max_dream_content_chars)

content_passes :
    (t : Text) → IsContent t → (is_empty t || ltb max_dream_content_chars (length t)) ≡ false
content_passes [] h = absurd (h.0 refl)
content_passes (c ∷ t) h = ground (arith, h.1)

module _ (dream_yaml : Yaml DreamSnapshotFrontmatter) where
  pub parse-render_dream_snapshot :
      (snapshot : DreamSnapshot) (u : Text)
      → validate_source_generation snapshot.source_generation ≡ ok u
      → IsContent (trim snapshot.content)
      → YamlLaws dream_yaml (snapshot_frontmatter snapshot)
      → (raw : Text) × (render_dream_snapshot dream_yaml snapshot ≡ ok raw)
        × (parse_dream_snapshot dream_yaml raw
            ≡ ok (record snapshot { content = trim snapshot.content }))
  unfolding render_dream_snapshot parse_dream_snapshot strip_prefix
  parse-render_dream_snapshot snapshot u h sized laws =
      let content = trim snapshot.content in
      let ls = laws.lines in
      let tail = content ++ text "\n" in
      (
        text "---\n" ++ ((join (text "\n") ls ++ text "\n") ++ (text "---\n\n" ++ tail)),
        rw (laws.printed) refl,
        rw (split_printed ls (b'\n' ∷ tail) (laws.some_line) (laws.plain)) (
            rw (laws.read_back) (
              rw h (
                rw (trim_framed content, trim_idem snapshot.content)
                  (rw (content_passes content sized) refl)))),
      )
