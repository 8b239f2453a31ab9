-- ===== src/Tests/Texts.antt =====
-- The theorems on ids, paths, tokens and documents at concrete texts.
use jiandu.Prelude.{◌≡◌, ◌↔◌, refl, List, [], ◌∷◌, ◌++◌, some, arith}
use jiandu.Result.{ok}
use jiandu.Text.{Text, text, join, trim}
use jiandu.Types.{DurableMemoryFrontmatter, project}
use jiandu.Validate.{validate_memory_id, max_memory_id_len}
use jiandu.Validate.Ids.{IsId, validate_memory_id_iff}
use jiandu.Validate.Safety.{IsComponent}
use jiandu.Paths.{MemoryPathResolver, topic_path, topic_dir, from_data_dir}
use jiandu.Paths.Layout.{topic_path_confined, topic_path_injective}
use jiandu.Document.{Yaml, YamlLaws, render_markdown_document, parse_markdown_document}
use jiandu.Document.RoundTrip.{parse-render}
use jiandu.Tests.{sample_frontmatter}

validate_memory_id_iff_example : (validate_memory_id (text " mem_1-a ") ≡ ok (text "mem_1-a")) ↔ (
    (text "mem_1-a" ≡ trim (text " mem_1-a ")) × IsId max_memory_id_len (trim (text " mem_1-a ")))
validate_memory_id_iff_example = validate_memory_id_iff (text " mem_1-a ") (text "mem_1-a")

abbrev resolver : MemoryPathResolver
resolver = from_data_dir (text "data" ∷ [])

abbrev record_path : List Text
record_path =
    text "data"
    ∷ text "memory"
    ∷ text "v1"
    ∷ text "scopes"
    ∷ text "projects"
    ∷ text "p"
    ∷ text "topics"
    ∷ text "m1.md"
    ∷ []

topic_path_example : topic_path resolver project (some (text "p")) (text " m1") ≡ ok record_path
unfolding topic_path validate_memory_id trim jiandu.Text.Utf8.bytes jiandu.Paths.join
    jiandu.Paths.project_root from_data_dir jiandu.Paths.components
topic_path_example = refl

topic_path_confined_example :
    (u : Text) × (validate_memory_id (text " m1") ≡ ok u)
    × (record_path ≡ topic_dir resolver project (some (text "p")) ++ (u ++ text ".md") ∷ [])
topic_path_confined_example =
    topic_path_confined resolver project (some (text "p")) (text " m1") record_path
      topic_path_example

p-IsComponent : IsComponent (text "p")
p-IsComponent = (λ e. ground arith, refl, λ e. ground arith, λ e. ground arith)

topic_path_injective_example : (text "p" ≡ text "p") × (trim (text " m1") ≡ trim (text "m1"))
unfolding from_data_dir topic_path validate_memory_id trim jiandu.Text.Utf8.bytes jiandu.Paths.join
    jiandu.Paths.project_root jiandu.Paths.components
topic_path_injective_example =
    topic_path_injective resolver (text "p") (text "p") (text " m1") (text "m1") record_path refl
      p-IsComponent p-IsComponent topic_path_example refl

-- A printer that knows one frontmatter.
abbrev one_yaml : Yaml DurableMemoryFrontmatter
one_yaml = record {
  to_string = λ fm. some (text "id: m1\ntype: user\n");
  from_str = λ t. some (sample_frontmatter (text "m1"));
}

one_laws : YamlLaws one_yaml (sample_frontmatter (text "m1"))
unfolding join
one_laws = record {
  lines = text "id: m1" ∷ text "type: user" ∷ [];
  some_line = λ e. ground arith;
  plain = ((refl, λ e. ground arith), ((refl, λ e. ground arith), tt));
  printed = refl;
  read_back = refl;
}

parse-render_example :
    (raw : Text) × (render_markdown_document one_yaml
        (sample_frontmatter (text " m1"))
        (text "The fox.\n")
      ≡ ok raw)
    × (parse_markdown_document one_yaml raw
        ≡ ok (sample_frontmatter (text "m1"), trim (text "The fox.\n")))
unfolding validate_memory_id trim jiandu.Text.Utf8.bytes
parse-render_example =
    parse-render one_yaml (sample_frontmatter (text " m1")) (text "The fox.\n") (text "m1") refl
      one_laws
