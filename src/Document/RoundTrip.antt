-- ===== src/Document/RoundTrip.antt =====
-- A rendered document parses back.
use jiandu.Prelude.{◌≡◌, ◌≢◌, refl, List, [], ◌∷◌, ◌++◌, some, All}
use jiandu.Result.{ok}
use jiandu.Text.{Text, text, trim, join, trim_start_matches, strip_prefix}
use jiandu.Text.Trim.{trim_idem}
use jiandu.Types.{DurableMemoryFrontmatter}
use jiandu.Validate.{validate_memory_id}
use jiandu.Validate.Ids.{validate_memory_id_idem}
use jiandu.Document.{
  Yaml, YamlLaws, split_once, end_marker, parse_markdown_document, render_markdown_document,
}
use jiandu.Document.Markers.{IsPlain, split_once_lines, behind-join, trim_framed}

-- The end marker is found behind the printed lines.
pub split_printed :
    (ls : List Text) (rest : Text)
    → ls ≢ []
    → All IsPlain ls
    → split_once end_marker ((join (text "\n") ls ++ text "\n") ++ (text "---\n" ++ rest))
      ≡ some (join (text "\n") ls, rest)
split_printed [] rest n p = absurd (n refl)
split_printed (l ∷ ls) rest n p = rw (behind-join l ls rest) (split_once_lines l ls rest p.0.0 p.1)

module _ (yaml : Yaml DurableMemoryFrontmatter) where
  -- A frontmatter whose id is valid is rendered, and its text parses to the frontmatter with the
  -- checked id and to the trimmed body, if its YAML prints as lines that read back.
  pub parse-render :
      (fm : DurableMemoryFrontmatter) (body id : Text)
      → validate_memory_id fm.id ≡ ok id
      → YamlLaws yaml (record fm { id = id })
      → (raw : Text) × (render_markdown_document yaml fm body ≡ ok raw)
        × (parse_markdown_document yaml raw ≡ ok (record fm { id = id }, trim body))
  unfolding render_markdown_document parse_markdown_document strip_prefix trim_start_matches
  parse-render fm body id h laws =
      let stored = record fm { id = id } in
      let ls = laws.lines in
      let tail = trim body ++ text "\n" in
      (
        text "---\n" ++ ((join (text "\n") ls ++ text "\n") ++ (text "---\n\n" ++ tail)),
        rw h (rw (laws.printed) refl),
        rw (split_printed ls (b'\n' ∷ tail) (laws.some_line) (laws.plain)) (
            rw (laws.read_back) (
              rw (validate_memory_id_idem fm.id id h)
                (rw (trim_framed (trim body), trim_idem body) refl))),
      )
