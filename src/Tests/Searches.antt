-- ===== src/Tests/Searches.antt =====
-- The theorems on queries, notes and consolidation at a concrete disk.
use jiandu.Prelude.{ℕ, ◌≡◌, refl, false, [], ◌∷◌, Option, none, some, arith}
use jiandu.Result.{ok}
use jiandu.Text.{Text, text}
use jiandu.Types.{project, user, active, MemoryRetrievalInput}
use jiandu.Paths.{PathBuf}
use jiandu.Store.Disk.{Disk, find_path}
use jiandu.Store.Steps.{KeepsFiles}
use jiandu.Store.Merge.{MemorySplitPiece}
use jiandu.Store.Consolidate.{consolidate_memories_with_retrieval}
use jiandu.Store.Consolidate.Kept.{consolidate_memories_kept}
use jiandu.Search.{Filters, MemoryQueryOptions, MemoryQueryResult}
use jiandu.Search.Queries.{query_scope_inner, query_scope, query_scope_read_only}
use jiandu.Search.Reading.{Agree, query_scope-read_only}
use jiandu.Search.Pages.{IsPage, query_scope-IsPage}
use jiandu.Sessions.{note_path, append_session_topic, appended}
use jiandu.Sessions.Notes.{Wrote, append_session_topic_lem}
use jiandu.Tests.{sample_env, sample_disk}

abbrev no_filters : Filters
no_filters = record { types = none; statuses = none; granularities = none }

abbrev two_at_most : MemoryQueryOptions
two_at_most = record { limit = some 2; max_chars = none; cursor = none; include_related = false }

query_scope-read_only_example :
    Agree sample_env project
      (some (text "p"))
      sample_disk
      (query_scope sample_env project (some (text "p")) none no_filters two_at_most sample_disk)
      (query_scope_read_only sample_env project
        (some (text "p"))
        none
        no_filters
        two_at_most
        sample_disk)
query_scope-read_only_example =
    query_scope-read_only sample_env project (some (text "p")) none no_filters two_at_most
      sample_disk

abbrev sample_page : MemoryQueryResult ℕ
sample_page = record {
  items =
      record {
        id = text "m1";
        title = text "red fox";
        memory_type = user;
        scope = project;
        status = active;
        summary = text "The fox.";
        tags = [];
        granularity = none;
        relevance = 100;
        related_ids = [];
        project_key = some (text "p");
      }
      ∷ [];
  returned_count = 1;
  matched_count = 1;
  truncated = false;
  remaining_count = 0;
  next_cursor = none;
}

listed_page :
    query_scope_inner sample_env project
      (some (text "p"))
      none
      no_filters
      two_at_most
      false
      sample_disk
    ≡ (ok sample_page, sample_disk)
unfolding query_scope_inner jiandu.Store.Locate.require_project_key jiandu.Text.trimmed
    jiandu.Text.trim jiandu.Validate.parse_project_id jiandu.Text.Utf8.bytes
    jiandu.Paths.from_data_dir jiandu.Search.Queries.query_listing
    jiandu.Store.Locate.list_memory_documents jiandu.Store.Locate.add_entries
    jiandu.Paths.scope_read_roots jiandu.Paths.parent jiandu.Paths.join jiandu.Paths.components
    jiandu.Paths.file_name jiandu.Document.parse_markdown_document jiandu.Text.strip_prefix
    jiandu.Document.split_once jiandu.Validate.validate_memory_id
    jiandu.Query.Cursor.parse_query_cursor jiandu.Search.Queries.sort_matches
    jiandu.Prelude.filter_map jiandu.Query.sort_memories_desc jiandu.Query.match_memory_query
    jiandu.Terms.derive_summary jiandu.Terms.truncate_chars jiandu.Text.join
listed_page = refl

query_scope-IsPage_example : IsPage two_at_most sample_page
query_scope-IsPage_example =
    query_scope-IsPage sample_env project (some (text "p")) none no_filters two_at_most false
      sample_page sample_disk sample_disk listed_page (omega arith)

abbrev note : PathBuf
note =
    text "data"
    ∷ text "memory"
    ∷ text "v1"
    ∷ text "sessions"
    ∷ text "s1"
    ∷ text "note"
    ∷ text "plan.md"
    ∷ []

note_found : note_path sample_env (text "s1") (text "plan") ≡ ok note
unfolding note_path jiandu.Validate.validate_session_id jiandu.Text.trim
    jiandu.Validate.has_path_syntax jiandu.Text.contains_text jiandu.Validate.validate_session_topic
    jiandu.Text.Utf8.bytes jiandu.Paths.session_topic_path jiandu.Paths.join
    jiandu.Paths.from_data_dir jiandu.Paths.components jiandu.Paths.session_note_dir
    jiandu.Paths.session_root jiandu.Paths.sessions_root jiandu.Paths.memory_root
    jiandu.Text.Utf8.encode jiandu.Text.split
note_found = refl

append_session_topic_example :
    (d : Disk) × (append_session_topic sample_env
        (text "s1")
        (text "plan")
        (text "Next.")
        sample_disk
      ≡ (ok note, d))
    × Wrote sample_env
        (text "s1")
        (text "plan")
        (some (appended (find_path note sample_disk.files) (text "Next.")))
        sample_disk
        d
append_session_topic_example =
    append_session_topic_lem sample_env (text "s1") (text "plan") (text "Next.") note sample_disk
      note_found

abbrev merged_piece : MemorySplitPiece
merged_piece = record {
  title = text "Foxes";
  content = text "Foxes and dogs.";
  memory_type = none;
  tags = [];
}

abbrev no_hints : MemoryRetrievalInput
no_hints = record { keywords = []; entities = [] }

consolidate_memories_kept_example :
    KeepsFiles sample_disk
      (consolidate_memories_with_retrieval sample_env
        (text "m1" ∷ text "m2" ∷ [])
        (some (text "p"))
        merged_piece
        no_hints
        none
        (text "main-model")
        sample_disk).1
consolidate_memories_kept_example =
    consolidate_memories_kept sample_env (text "m1" ∷ text "m2" ∷ []) (some (text "p")) merged_piece
      no_hints none (text "main-model") sample_disk
