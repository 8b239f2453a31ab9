-- ===== src/Tests/Stores.antt =====
-- The theorems on the store at a concrete disk.
use jiandu.Prelude.{
  ◌≡◌, ◌≢◌, ◌≤◌, ◌⊎◌, refl, true, false, [], ◌∷◌, none, some, arith, All, length, max, is_some,
}
use jiandu.Result.{ok, err, ErrorKind}
use jiandu.Text.{Text, text, trim, trimmed, contains_text, join}
use jiandu.Types.{session, project, global, user, archived, DurableMemoryDocument}
use jiandu.Validate.{validate_memory_id}
use jiandu.Paths.{PathBuf, topic_path}
use jiandu.Document.{YamlLaws}
use jiandu.Store.Disk.{Disk, find_path}
use jiandu.Store.Locate.{
  require_project_key, get_memory, get_memory_at_locator, write_document, allocate_memory_id,
}
use jiandu.Store.Locate.Lookup.{get_memory_confined}
use jiandu.Store.Locate.Allocate.{allocate_memory_id-IsFree}
use jiandu.Store.Locate.Written.{write-get_memory_at_locator, stored, written}
use jiandu.Store.Artifacts.Apart.{TextFile}
use jiandu.Store.Status.{archive_locked}
use jiandu.Store.Status.Archive.{archive_locked-HasStatus}
use jiandu.Store.Limits.{max_durable_memory_body_chars, max_durable_memory_source_items}
use jiandu.Store.Limits.Bounds.{messages}
use jiandu.Store.Write.{
  WriteRequest, CheckedWrite, create_memory, can_merge, merged_document, new_frontmatter,
}
use jiandu.Store.Write.Accretion.{merged_document_bounded, create_memory_new}
use jiandu.Store.Merge.{MemorySplitPiece, merge_content, Merged, split_memory_with_retrieval}
use jiandu.Store.Merge.Split.{IsAtomic, merge_content_bounded, split_refused_whole}
use jiandu.Tests.{
  sample_env, sample_disk, empty_disk, sample_document, sample_path, sample_frontmatter,
  archived_frontmatter, status_yaml,
}

found_sample :
    get_memory sample_env (text "m1") (some (text "p")) sample_disk
    ≡ (ok (some sample_document), sample_disk)
unfolding get_memory validate_memory_id trim jiandu.Text.Utf8.bytes get_memory_at_locator
    require_project_key trimmed jiandu.Validate.parse_project_id jiandu.Paths.from_data_dir
    jiandu.Store.Locate.read_roots jiandu.Paths.scope_read_roots find_path jiandu.Paths.join
    jiandu.Paths.components jiandu.Store.Locate.located_document
    jiandu.Document.parse_markdown_document jiandu.Text.strip_prefix jiandu.Document.split_once
    jiandu.Paths.global_root jiandu.Paths.memory_root jiandu.Paths.project_home
    jiandu.Paths.project_read_roots jiandu.Paths.project_root jiandu.Paths.scope_root
    jiandu.Paths.scopes_root jiandu.Paths.sessions_root jiandu.Text.Utf8.encode
    jiandu.Text.is_whitespace jiandu.Text.split jiandu.Text.trim_end_matches
    jiandu.Text.trim_matches jiandu.Text.trim_start_matches
found_sample = refl

get_memory_confined_example :
    (sample_disk ≡ sample_disk)
    × (text "m1" ≡ trim (text "m1"))
    × (((some (text "p") ≢ none)
          × (project ≡ project)
          × (some (text "p") ≡ trimmed (some (text "p"))))
        ⊎ ((project ≡ global) × (some (text "p") ≡ none)))
get_memory_confined_example =
    get_memory_confined sample_env (text "m1") (some (text "p")) sample_document sample_disk
      sample_disk found_sample

active_laws : YamlLaws status_yaml (sample_frontmatter (text "m1"))
unfolding join
active_laws = record {
  lines = text "status: active" ∷ [];
  some_line = λ e. ground arith;
  plain = ((refl, λ e. ground arith), tt);
  printed = refl;
  read_back = refl;
}

archived_laws : YamlLaws status_yaml archived_frontmatter
unfolding join
archived_laws = record {
  lines = text "status: archived" ∷ [];
  some_line = λ e. ground arith;
  plain = ((refl, λ e. ground arith), tt);
  printed = refl;
  read_back = refl;
}

project_durable : project ≢ session
project_durable e = ground arith

write-get_memory_example :
    (raw : Text) × (write_document sample_env sample_document empty_disk
      ≡ (ok tt, written sample_env sample_document (text "m1") raw empty_disk))
    × (get_memory_at_locator sample_env project
          (some (text "p"))
          (text "m1")
          (written sample_env sample_document (text "m1") raw empty_disk)
        ≡ (
          ok (some (stored sample_env sample_document (text "m1"))),
          written sample_env sample_document (text "m1") raw empty_disk,
        ))
    × ((p : PathBuf)
        → sample_path ≢ p
        → find_path p (written sample_env sample_document (text "m1") raw empty_disk).files
          ≡ find_path p empty_disk.files)
unfolding validate_memory_id trim jiandu.Text.Utf8.bytes require_project_key trimmed
    jiandu.Validate.parse_project_id jiandu.Paths.from_data_dir topic_path jiandu.Paths.join
    jiandu.Paths.project_root jiandu.Paths.components
write-get_memory_example =
    write-get_memory_at_locator sample_env sample_document (text "m1") project (some (text "p"))
      (some (text "p")) (text "m1") empty_disk project_durable refl refl refl refl refl refl
      active_laws

abbrev allocated : Disk
allocated = record empty_disk { readings = 1 }

allocate_memory_id_example :
    (allocated.files ≡ empty_disk.files)
    × ((p : PathBuf) × (topic_path sample_env.resolver project (some (text "p")) (text "mem_t_h")
          ≡ ok p)
        × (find_path p empty_disk.files ≡ none))
unfolding allocate_memory_id jiandu.Store.Locate.allocate_from topic_path validate_memory_id trim
    jiandu.Text.Utf8.bytes find_path
allocate_memory_id_example =
    allocate_memory_id-IsFree sample_env project (some (text "p")) (text "A title") (text "mem_t_h")
      empty_disk allocated refl

abbrev archived_document : DurableMemoryDocument
archived_document = record sample_document { frontmatter = archived_frontmatter }

abbrev after_archive : Disk
after_archive =
    (archive_locked sample_env project (some (text "p")) (text "m1") archived none sample_disk).1

archive_run :
    archive_locked sample_env project (some (text "p")) (text "m1") archived none sample_disk
    ≡ (ok (some archived_document), after_archive)
unfolding archive_locked jiandu.Store.Status.archive_found validate_memory_id trim
    jiandu.Text.Utf8.bytes get_memory_at_locator require_project_key trimmed
    jiandu.Validate.parse_project_id jiandu.Paths.from_data_dir jiandu.Store.Locate.read_roots
    jiandu.Paths.scope_read_roots find_path jiandu.Paths.join jiandu.Paths.components
    jiandu.Store.Locate.located_document jiandu.Document.parse_markdown_document
    jiandu.Text.strip_prefix jiandu.Document.split_once jiandu.Paths.global_root
    jiandu.Paths.memory_root jiandu.Paths.project_home jiandu.Paths.project_read_roots
    jiandu.Paths.project_root jiandu.Paths.scope_root jiandu.Paths.scopes_root
    jiandu.Paths.sessions_root jiandu.Text.Utf8.encode jiandu.Text.is_whitespace jiandu.Text.split
    jiandu.Text.trim_end_matches jiandu.Text.trim_matches jiandu.Text.trim_start_matches
    jiandu.Assoc.upsert jiandu.Document.render_markdown_document jiandu.Paths.file_name
    jiandu.Paths.parent jiandu.Paths.scope_generation_path jiandu.Paths.split_last
    jiandu.Prelude.Sort.insert_sorted jiandu.Prelude.Sort.sort_by jiandu.Query.Cursor.print_digits
    jiandu.Query.Views.build_memory_markdown_view jiandu.Query.Views.build_recent_markdown_view
    jiandu.Query.Views.build_stale_markdown_view jiandu.Query.sort_memories_desc
    jiandu.Store.Artifacts.canonical_scope_generation jiandu.Store.Artifacts.frames
    jiandu.Store.Artifacts.refresh_scope_artifacts jiandu.Store.Artifacts.scope_artifacts
    jiandu.Store.Artifacts.taxonomy_of jiandu.Store.Artifacts.write_batch jiandu.Store.Disk.set_path
    jiandu.Store.Locate.add_entries jiandu.Store.Locate.append_audit
    jiandu.Store.Locate.list_memory_documents write_document jiandu.Store.Status.set_memory_status
    jiandu.Terms.derive_summary jiandu.Terms.truncate_chars join jiandu.Text.trim_end
archive_run = refl

archive_locked-HasStatus_example :
    (archived ≡ archived)
    × (get_memory_at_locator sample_env project (some (text "p")) (text "m1") after_archive
        ≡ (ok (some archived_document), after_archive))
    × ((p : PathBuf)
        → sample_path ≢ p
        → find_path p after_archive.files ≡ find_path p sample_disk.files)
archive_locked-HasStatus_example =
    archive_locked-HasStatus sample_env project (some (text "p")) (text "m1") archived none
      archived_document sample_disk after_archive project_durable archived_laws archive_run

abbrev sample_request : WriteRequest
sample_request = record {
  memory_type = user;
  title = text "A dog";
  content = text "The dog.";
  tags = [];
  retrieval = record { keywords = []; entities = [] };
  session_id = none;
  actor = text "main-model";
  allow_merge_if_similar = true;
  granularity = none;
  message_range = [];
}

abbrev sample_checked : CheckedWrite
sample_checked = record {
  project_key = some (text "p");
  session_id = none;
  title = text "A dog";
  content = text "The dog.";
  tags = [];
  sources = [];
}

merged_document_bounded_example :
    (contains_text
        (text "The dog.")
        (merged_document sample_env sample_document sample_checked sample_request []).body
      ≡ true)
    × (length (merged_document sample_env sample_document sample_checked sample_request []).body
        ≤ max max_durable_memory_body_chars (length sample_document.body))
    × (length
          (merged_document sample_env sample_document sample_checked sample_request
            []).frontmatter.sources
        ≤ max_durable_memory_source_items)
    × (messages
          (merged_document sample_env sample_document sample_checked sample_request
            []).frontmatter.sources
        ≤ max_durable_memory_source_items)
unfolding can_merge contains_text jiandu.Store.Limits.projected_merged_body_chars
    jiandu.Text.trim_end jiandu.Store.Limits.merged_source_coverage_fits
    jiandu.Store.Limits.coverage_fits
merged_document_bounded_example =
    merged_document_bounded sample_env sample_document sample_checked sample_request [] refl

abbrev sample_merged : Merged
sample_merged = record {
  doc = record sample_document { body = text "The fox.\n\n---\n\nThe dog." };
  changed = true;
  appended = true;
  tags_updated = false;
}

merge_content_bounded_example :
    (contains_text (text "The dog.") sample_merged.doc.body ≡ true)
    × (length sample_merged.doc.body
        ≤ max max_durable_memory_body_chars (length sample_document.body))
unfolding merge_content contains_text jiandu.Store.Limits.projected_merged_body_chars
    jiandu.Text.trim_end
merge_content_bounded_example =
    merge_content_bounded sample_env (text "The dog.") sample_document sample_merged refl

abbrev blank_piece : MemorySplitPiece
blank_piece = record { title = text "A dog"; content = text " "; memory_type = none; tags = [] }

split_refused_whole_example :
    (All (IsAtomic sample_env) (blank_piece ∷ []))
    ⊎ ((e : ErrorKind) × (split_memory_with_retrieval sample_env
            (text "m1")
            (some (text "p"))
            (blank_piece ∷ [])
            (record { keywords = []; entities = [] } ∷ [])
            none
            (text "main-model")
            sample_disk
          ≡ (err e, sample_disk)))
unfolding validate_memory_id trim jiandu.Text.Utf8.bytes
split_refused_whole_example =
    split_refused_whole sample_env (text "m1") (text "m1") (some (text "p")) (blank_piece ∷ [])
      (record { keywords = []; entities = [] } ∷ []) none (text "main-model") sample_document
      sample_disk refl found_sample

abbrev created_path : PathBuf
created_path =
    text "data"
    ∷ text "memory"
    ∷ text "v1"
    ∷ text "scopes"
    ∷ text "projects"
    ∷ text "p"
    ∷ text "topics"
    ∷ text "mem_t_h.md"
    ∷ []

abbrev after_create : Disk
after_create = (create_memory sample_env project sample_checked sample_request [] sample_disk).1

abbrev created_document : DurableMemoryDocument
created_document = record {
  frontmatter =
      new_frontmatter sample_env project sample_checked sample_request [] (text "mem_t_h") [];
  body = text "The dog.";
  path = created_path;
}

create_run :
    create_memory sample_env project sample_checked sample_request [] sample_disk
    ≡ (ok created_document, after_create)
unfolding create_memory jiandu.Store.Locate.allocate_memory_id jiandu.Store.Locate.allocate_from
    topic_path validate_memory_id trim jiandu.Text.Utf8.bytes get_memory_at_locator
    require_project_key trimmed jiandu.Validate.parse_project_id jiandu.Paths.from_data_dir
    jiandu.Store.Locate.read_roots jiandu.Paths.scope_read_roots find_path jiandu.Paths.join
    jiandu.Paths.components jiandu.Store.Locate.located_document
    jiandu.Document.parse_markdown_document jiandu.Text.strip_prefix jiandu.Document.split_once
    jiandu.Paths.global_root jiandu.Paths.memory_root jiandu.Paths.project_home
    jiandu.Paths.project_read_roots jiandu.Paths.project_root jiandu.Paths.scope_root
    jiandu.Paths.scopes_root jiandu.Paths.sessions_root jiandu.Text.Utf8.encode
    jiandu.Text.is_whitespace jiandu.Text.split jiandu.Text.trim_end_matches
    jiandu.Text.trim_matches jiandu.Text.trim_start_matches jiandu.Assoc.upsert
    jiandu.Document.render_markdown_document jiandu.Paths.file_name jiandu.Paths.parent
    jiandu.Paths.scope_generation_path jiandu.Paths.split_last jiandu.Prelude.Sort.insert_sorted
    jiandu.Prelude.Sort.sort_by jiandu.Query.Cursor.print_digits
    jiandu.Query.Views.build_memory_markdown_view jiandu.Query.Views.build_recent_markdown_view
    jiandu.Query.Views.build_stale_markdown_view jiandu.Query.sort_memories_desc
    jiandu.Store.Artifacts.canonical_scope_generation jiandu.Store.Artifacts.frames
    jiandu.Store.Artifacts.refresh_scope_artifacts jiandu.Store.Artifacts.scope_artifacts
    jiandu.Store.Artifacts.taxonomy_of jiandu.Store.Artifacts.write_batch jiandu.Store.Disk.set_path
    jiandu.Store.Locate.add_entries jiandu.Store.Locate.append_audit
    jiandu.Store.Locate.list_memory_documents write_document jiandu.Store.Status.set_memory_status
    jiandu.Terms.derive_summary jiandu.Terms.truncate_chars join jiandu.Text.trim_end
    new_frontmatter
create_run = refl

create_memory_new_example :
    (find_path created_path sample_disk.files ≡ none)
    × (is_some (find_path created_path after_create.files) ≡ true)
    × ((p : PathBuf)
        → created_path ≢ p
        → find_path p after_create.files ≡ find_path p sample_disk.files)
    × ((p : PathBuf)
        → TextFile sample_env.resolver p
        → find_path p after_create.artifacts ≡ find_path p sample_disk.artifacts)
create_memory_new_example =
    create_memory_new sample_env project sample_checked sample_request [] created_document
      sample_disk after_create (λ e. ground arith) create_run
