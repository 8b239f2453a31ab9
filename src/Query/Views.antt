-- ===== src/Query/Views.antt =====
-- The Markdown views of memory_store/mod.rs.
use jiandu.Prelude.{
  not, List, [], ◌∷◌, ◌++◌, Option, take, filter, is_empty, unwrap_or, if◌then◌else◌,
}
use jiandu.Text.{Text, text}
use jiandu.Types.{
  MemoryScope, session, project, global, active, status_beq, type_as_str, status_as_str,
  DurableMemoryDocument,
}
use jiandu.Terms.{derive_summary}

-- The lines of a view, one after the other.
concat_lines : List Text → Text
concat_lines [] = []
concat_lines (t ∷ ts) = t ++ concat_lines ts

abbrev lines_for : (DurableMemoryDocument → Text) → List DurableMemoryDocument → List Text
lines_for line [] = []
lines_for line (doc ∷ docs) = line doc ∷ lines_for line docs

abbrev heading : MemoryScope → Option Text → Text
heading global key = text "# Jiandu Memory Index (Global)"
heading project key =
    text "# Jiandu Memory Index (Project: " ++ (unwrap_or key (text "unknown") ++ text ")")
heading session key = text "# Jiandu Memory Index (Session)"

abbrev named : DurableMemoryDocument → Text
named doc = text "- `" ++ (doc.frontmatter.id ++ (text "` " ++ doc.frontmatter.title))

memory_line : DurableMemoryDocument → Text
memory_line doc =
    let summary = derive_summary doc.body 160 in
    named doc
    ++ (text " ["
        ++ (type_as_str doc.frontmatter.memory_type
            ++ (text " / "
                ++ (status_as_str doc.frontmatter.status
                    ++ (text "] updated "
                        ++ (doc.frontmatter.updated_at
                            ++ (text "\n"
                                ++ (if is_empty summary
                                    then []
                                    else text "  - " ++ (summary ++ text "\n")))))))))

unfoldable pub build_memory_markdown_view :
    MemoryScope → Option Text → List DurableMemoryDocument → Text
unfolding concat_lines memory_line
build_memory_markdown_view scope key docs =
    heading scope key
    ++ (text "\n\n"
        ++ (if is_empty docs
            then text "_(empty)_\n"
            else concat_lines (lines_for memory_line docs)))

unfoldable pub build_recent_markdown_view : List DurableMemoryDocument → Text
unfolding concat_lines
build_recent_markdown_view docs =
    text "# Recent Memory Updates\n\n"
    ++ (if is_empty docs
        then text "_(empty)_\n"
        else concat_lines (
            lines_for
              (λ doc. named doc ++ (text " — " ++ (doc.frontmatter.updated_at ++ text "\n")))
              (take 20 docs)))

unfoldable pub build_stale_markdown_view : List DurableMemoryDocument → Text
unfolding concat_lines
build_stale_markdown_view docs =
    let stale = filter (λ doc. not (status_beq doc.frontmatter.status active)) docs in
    text "# Stale Memory Candidates\n\n"
    ++ (if is_empty stale
        then text "_(no stale items)_\n"
        else concat_lines (
            lines_for
              (λ doc.
                named doc ++ (text " [" ++ (status_as_str doc.frontmatter.status ++ text "]\n")))
              stale))
