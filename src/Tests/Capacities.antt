-- ===== src/Tests/Capacities.antt =====
-- The theorem on the capacity pass, at a scope with two project memories and room for one.
use jiandu.Prelude.{◌≡◌, refl, ◌++◌, [], ◌∷◌, some, if◌then◌else◌}
use jiandu.Prelude.Classes.{◌=?◌, nat_eq, list_eq}
use jiandu.Result.{ok}
use jiandu.Text.{Text, text}
use jiandu.Types.{project, project_type, DurableMemoryFrontmatter}
use jiandu.Document.{Yaml}
use jiandu.Paths.{PathBuf}
use jiandu.Store.Disk.{Env, Disk}
use jiandu.Gardener.{enforce_scope_capacity}
use jiandu.Gardener.Eviction.{Evicted, enforce_scope_capacity-Evicted}
use jiandu.Tests.{sample_env, sample_path, sample_frontmatter}

abbrev project_frontmatter : Text → DurableMemoryFrontmatter
project_frontmatter id = record (sample_frontmatter id) { memory_type = project_type }

-- A printer that shows the id alone, and knows two frontmatters.
abbrev id_yaml : Yaml DurableMemoryFrontmatter
id_yaml = record {
  to_string = λ fm. some (text "id: " ++ (fm.id ++ text "\n"));
  from_str = λ t.
      if t =? text "id: m2"
      then some (project_frontmatter (text "m2"))
      else some (project_frontmatter (text "m1"));
}

abbrev capacity_env : Env
capacity_env = record sample_env { yaml = id_yaml }

abbrev second_path : PathBuf
second_path =
    text "data"
    ∷ text "memory"
    ∷ text "v1"
    ∷ text "scopes"
    ∷ text "projects"
    ∷ text "p"
    ∷ text "topics"
    ∷ text "m2.md"
    ∷ []

abbrev full_disk : Disk
full_disk = record {
  files =
      (sample_path, text "---\nid: m1\n---\n\nThe fox.\n")
      ∷ (second_path, text "---\nid: m2\n---\n\nThe dog.\n")
      ∷ [];
  artifacts = [];
  logs = [];
  readings = 0;
}

abbrev evicted_disk : Disk
evicted_disk = (enforce_scope_capacity capacity_env project (some (text "p")) 1 5 full_disk).1

evicted_run :
    enforce_scope_capacity capacity_env project (some (text "p")) 1 5 full_disk
    ≡ (ok (text "m1" ∷ []), evicted_disk)
unfolding enforce_scope_capacity jiandu.Store.Locate.require_project_key jiandu.Text.trimmed
    jiandu.Text.trim jiandu.Validate.parse_project_id jiandu.Text.Utf8.bytes
    jiandu.Paths.from_data_dir jiandu.Store.Locate.list_memory_documents
    jiandu.Store.Locate.add_entries jiandu.Paths.scope_read_roots jiandu.Paths.parent
    jiandu.Paths.join jiandu.Paths.components jiandu.Paths.file_name
    jiandu.Document.parse_markdown_document jiandu.Text.strip_prefix jiandu.Document.split_once
    jiandu.Validate.validate_memory_id jiandu.AccessLog.access_multiplier
    jiandu.AccessLog.add_access jiandu.AccessLog.add_accesses
    jiandu.AccessLog.aggregate_access_stats jiandu.Assoc.lookup jiandu.Assoc.upsert
    jiandu.Document.render_markdown_document jiandu.Gardener.archive_each
    jiandu.Gardener.archive_one jiandu.Gardener.evict jiandu.Gardener.memory_value
    jiandu.Gardener.sort_evictable jiandu.Paths.global_root jiandu.Paths.memory_root
    jiandu.Paths.project_home jiandu.Paths.project_read_roots jiandu.Paths.project_root
    jiandu.Paths.scope_generation_path jiandu.Paths.scope_root jiandu.Paths.scopes_root
    jiandu.Paths.sessions_root jiandu.Paths.split_last jiandu.Prelude.Sort.insert_sorted
    jiandu.Prelude.Sort.sort_by jiandu.Query.Cursor.print_digits
    jiandu.Query.Views.build_memory_markdown_view jiandu.Query.Views.build_recent_markdown_view
    jiandu.Query.Views.build_stale_markdown_view jiandu.Query.sort_memories_desc
    jiandu.Search.access_log_stats jiandu.Store.Artifacts.canonical_scope_generation
    jiandu.Store.Artifacts.frames jiandu.Store.Artifacts.refresh_scope_artifacts
    jiandu.Store.Artifacts.scope_artifacts jiandu.Store.Artifacts.taxonomy_of
    jiandu.Store.Artifacts.write_batch jiandu.Store.Disk.find_path jiandu.Store.Disk.set_path
    jiandu.Store.Locate.append_audit jiandu.Store.Locate.write_document
    jiandu.Store.Status.set_memory_status jiandu.Terms.derive_summary jiandu.Terms.truncate_chars
    jiandu.Text.Utf8.encode jiandu.Text.is_whitespace jiandu.Text.join jiandu.Text.split
    jiandu.Text.trim_end jiandu.Text.trim_end_matches jiandu.Text.trim_matches
    jiandu.Text.trim_start_matches
evicted_run = refl

enforce_scope_capacity-Evicted_example :
    Evicted capacity_env project (some (text "p")) 1 5 (text "m1" ∷ []) full_disk evicted_disk
enforce_scope_capacity-Evicted_example =
    enforce_scope_capacity-Evicted capacity_env project (some (text "p")) 1 5 (text "m1" ∷ [])
      full_disk evicted_disk evicted_run
