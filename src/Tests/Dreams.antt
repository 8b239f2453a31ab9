-- ===== src/Tests/Dreams.antt =====
-- The theorems on Dream snapshots at a concrete disk.
use jiandu.Prelude.{◌≡◌, ◌≢◌, refl, false, List, [], ◌∷◌, ◌++◌, Option, some, arith}
use jiandu.Result.{ok}
use jiandu.Text.{Text, text, trim, join}
use jiandu.Types.{DreamSnapshot, project, DurableMemoryDocument}
use jiandu.Validate.{validate_source_generation}
use jiandu.Paths.{PathBuf, dream_path, scope_generation_path}
use jiandu.Document.{Yaml, YamlLaws}
use jiandu.Store.Disk.{Env, Disk, find_path, set_path, scope_generation}
use jiandu.Store.Locate.{require_project_key, list_memory_documents}
use jiandu.Store.Artifacts.{canonical_scope_generation, refresh_scope_artifacts}
use jiandu.Store.Dream.{
  DreamSnapshotFrontmatter, snapshot_frontmatter, publish_dream_snapshot, current_scope_generation,
  read_dream_snapshot,
}
use jiandu.Store.Dream.Snapshot.{IsContent}
use jiandu.Store.Dream.Publish.{publish_dream_snapshot_fresh}
use jiandu.Store.Dream.Read.{publish-read_dream_snapshot, refresh-current_scope_generation}
use jiandu.Tests.{sample_env, sample_disk}

abbrev digest : Text
digest = text "0123456789abcdef0123456789abcdef0123456789abcdef0123456789abcdef"

abbrev dream_env : Env
dream_env = record sample_env { sha256_hex = λ t. digest }

abbrev dream_frontmatter : DreamSnapshotFrontmatter
dream_frontmatter = record {
  scope = project;
  project_key = some (text "p");
  generated_at = [];
  source_generation = digest;
}

-- A printer that knows one frontmatter.
abbrev dream_yaml : Yaml DreamSnapshotFrontmatter
dream_yaml = record {
  to_string = λ fm. some (text "scope: project\n");
  from_str = λ t. some dream_frontmatter;
}

abbrev snapshot : DreamSnapshot
snapshot = record {
  scope = project;
  project_key = some (text "p");
  generated_at = [];
  source_generation = digest;
  content = text "Of foxes.";
}

-- A project whose marker names the generation of its documents.
abbrev marked_disk : Disk
marked_disk = record sample_disk {
  artifacts =
      (
        scope_generation_path dream_env.resolver project (some (text "p")),
        scope_generation (record { generation = digest; topic_count = 1 }),
      )
      ∷ [];
}

abbrev published_disk : Disk
published_disk = record marked_disk {
  files =
      set_path (dream_path dream_env.resolver project (some (text "p")))
        (text "---\nscope: project\n---\n\nOf foxes.\n") marked_disk.files;
  readings = 1;
}

publish_run :
    publish_dream_snapshot dream_env dream_yaml project
      (some (text "p"))
      (digest ++ text "\n")
      (text " Of foxes. ")
      marked_disk
    ≡ (ok snapshot, published_disk)
unfolding publish_dream_snapshot require_project_key jiandu.Text.trimmed trim
    jiandu.Validate.parse_project_id jiandu.Text.Utf8.bytes jiandu.Paths.from_data_dir
    validate_source_generation list_memory_documents jiandu.Store.Locate.add_entries
    jiandu.Paths.scope_read_roots jiandu.Paths.parent jiandu.Paths.join jiandu.Paths.components
    jiandu.Paths.file_name jiandu.Document.parse_markdown_document jiandu.Text.strip_prefix
    jiandu.Document.split_once dream_path jiandu.Paths.global_root jiandu.Paths.memory_root
    jiandu.Paths.project_home jiandu.Paths.project_read_roots jiandu.Paths.project_root
    jiandu.Paths.scope_root jiandu.Paths.scopes_root jiandu.Paths.sessions_root
    jiandu.Paths.split_last jiandu.Prelude.Sort.insert_sorted jiandu.Prelude.Sort.sort_by
    jiandu.Query.Cursor.print_digits jiandu.Query.sort_memories_desc canonical_scope_generation
    jiandu.Store.Artifacts.frames set_path jiandu.Store.Dream.render_dream_snapshot
    jiandu.Text.Utf8.encode jiandu.Text.is_whitespace jiandu.Text.split jiandu.Text.trim_end_matches
    jiandu.Text.trim_matches jiandu.Text.trim_start_matches jiandu.Validate.validate_memory_id
    jiandu.Document.render_markdown_document
publish_run = refl

current_run :
    current_scope_generation dream_env project (some (text "p")) published_disk
    ≡ (ok digest, published_disk)
unfolding current_scope_generation require_project_key jiandu.Text.trimmed trim
    jiandu.Validate.parse_project_id jiandu.Text.Utf8.bytes jiandu.Paths.from_data_dir find_path
    scope_generation_path jiandu.Paths.join jiandu.Paths.project_root jiandu.Paths.components
    validate_source_generation
current_run = refl

refreshed_disk : Disk
refreshed_disk = (refresh_scope_artifacts dream_env project (some (text "p")) sample_disk).1

refresh_run :
    refresh_scope_artifacts dream_env project (some (text "p")) sample_disk
    ≡ (ok tt, refreshed_disk)
unfolding refreshed_disk refresh_scope_artifacts require_project_key jiandu.Text.trimmed trim
    jiandu.Validate.parse_project_id jiandu.Text.Utf8.bytes jiandu.Paths.from_data_dir
    list_memory_documents jiandu.Store.Locate.add_entries jiandu.Paths.scope_read_roots
    jiandu.Paths.parent jiandu.Paths.join jiandu.Paths.components jiandu.Paths.file_name
    jiandu.Document.parse_markdown_document jiandu.Text.strip_prefix jiandu.Document.split_once
    jiandu.Assoc.upsert jiandu.Paths.global_root jiandu.Paths.memory_root jiandu.Paths.project_home
    jiandu.Paths.project_read_roots jiandu.Paths.project_root scope_generation_path
    jiandu.Paths.scope_root jiandu.Paths.scopes_root jiandu.Paths.sessions_root
    jiandu.Paths.split_last jiandu.Prelude.Sort.insert_sorted jiandu.Prelude.Sort.sort_by
    jiandu.Query.Cursor.print_digits jiandu.Query.Views.build_memory_markdown_view
    jiandu.Query.Views.build_recent_markdown_view jiandu.Query.Views.build_stale_markdown_view
    jiandu.Query.sort_memories_desc canonical_scope_generation jiandu.Store.Artifacts.frames
    jiandu.Store.Artifacts.scope_artifacts jiandu.Store.Artifacts.taxonomy_of
    jiandu.Store.Artifacts.write_batch set_path jiandu.Terms.derive_summary
    jiandu.Terms.truncate_chars jiandu.Text.Utf8.encode jiandu.Text.is_whitespace join
    jiandu.Text.split jiandu.Text.to_ascii_lowercase jiandu.Text.trim_end
    jiandu.Text.trim_end_matches jiandu.Text.trim_matches jiandu.Text.trim_start_matches
    jiandu.Validate.validate_memory_id jiandu.Document.render_markdown_document
refresh_run = refl

digest_law : (t : Text) → validate_source_generation (dream_env.sha256_hex t) ≡ ok digest
unfolding validate_source_generation jiandu.Text.Utf8.bytes trim
digest_law t = refl

dream_laws : YamlLaws dream_yaml (snapshot_frontmatter snapshot)
unfolding join
dream_laws = record {
  lines = text "scope: project" ∷ [];
  some_line = λ e. ground arith;
  plain = ((refl, λ e. ground arith), tt);
  printed = refl;
  read_back = refl;
}

publish_dream_snapshot_fresh_example :
    (docs : List DurableMemoryDocument) × (list_memory_documents dream_env project
        (some (text "p"))
        marked_disk
      ≡ (ok docs, marked_disk))
    × (canonical_scope_generation dream_env docs ≡ ok digest)
    × (project ≡ project)
    × (require_project_key dream_env project (some (text "p")) ≡ ok (some (text "p")))
    × (digest ≡ trim (digest ++ text "\n"))
    × (text "Of foxes." ≡ trim (text " Of foxes. "))
    × IsContent (text "Of foxes.")
    × ((p : PathBuf)
        → dream_path dream_env.resolver project (some (text "p")) ≢ p
        → find_path p published_disk.files ≡ find_path p marked_disk.files)
publish_dream_snapshot_fresh_example =
    publish_dream_snapshot_fresh dream_env dream_yaml project (some (text "p"))
      (digest ++ text "\n") (text " Of foxes. ") snapshot marked_disk published_disk publish_run

publish-read_dream_snapshot_example :
    read_dream_snapshot dream_env dream_yaml project (some (text "p")) published_disk ≡ (
      ok (record {
        scope = project;
        project_key = some (text "p");
        current_generation = digest;
        stale = false;
        snapshot = some snapshot;
      }),
      published_disk,
    )
publish-read_dream_snapshot_example =
    publish-read_dream_snapshot dream_env dream_yaml project (some (text "p")) (digest ++ text "\n")
      (text " Of foxes. ") snapshot marked_disk published_disk publish_run dream_laws digest
      current_run

refresh-current_scope_generation_example :
    (key : Option Text) × (docs : List DurableMemoryDocument) × (generation : Text)
    × (require_project_key dream_env project (some (text "p")) ≡ ok key)
    × (list_memory_documents dream_env project key refreshed_disk ≡ (ok docs, refreshed_disk))
    × (canonical_scope_generation dream_env docs ≡ ok generation)
    × (current_scope_generation dream_env project (some (text "p")) refreshed_disk
        ≡ (ok generation, refreshed_disk))
refresh-current_scope_generation_example =
    refresh-current_scope_generation dream_env project (some (text "p")) sample_disk refreshed_disk
      refl digest_law refresh_run
