-- ===== src/Tests/Calls.antt =====
-- The theorems on the identity of a call, the store that it gets, and the actions of the handler.
use jiandu.Prelude.{ℕ, ◌≡◌, refl, true, none, some}
use jiandu.Text.{Text, text, trimmed}
use jiandu.Types.{project}
use jiandu.Validate.{validate_session_id, parse_project_id}
use jiandu.Document.{Yaml}
use jiandu.Store.Dream.{DreamSnapshotFrontmatter}
use jiandu.Context.{done, MemoryExecutionContext, HostCallContext, Json, resolve_request}
use jiandu.Context.Access.{IsChecked, IsGranted, resolve_request_replaces}
use jiandu.Handler.{ResolvedMemoryAccess, bound_resolver, resolve_access}
use jiandu.Handler.Granted.{HasProject, resolve_access-IsGranted}
use jiandu.Handler.SessionActions.{session_append, session_replace, session_clear}
use jiandu.Handler.Notes.{NotesFit, session_actions_fit}
use jiandu.Args.{MemoryArgs, query}
use jiandu.Handler.Dispatch.{execute_parsed}
use jiandu.Handler.ReadOnly.{execute_parsed_read_only}
use jiandu.Tests.{sample_env, sample_disk, empty_disk}

abbrev host : HostCallContext
host = record { session_id = some (text " s1 "); project_id = none }

-- The metadata of a host that names a session.
abbrev sample_json : Json
sample_json = record {
  Value = Unit;
  is_object = λ value. true;
  host_call_context = λ value. some host;
}

-- The defaults of the server name a project, the host does not.
abbrev defaults : MemoryExecutionContext
defaults = record { session_id = none; project_id = some (text "p") }

abbrev session_context : MemoryExecutionContext
session_context = record { session_id = some (text "s1"); project_id = none }

resolved : resolve_request sample_json defaults (some tt) ≡ done session_context
unfolding resolve_request jiandu.Context.host_context jiandu.Context.with_session_id
    validate_session_id jiandu.Text.trim jiandu.Validate.has_path_syntax jiandu.Text.contains_text
resolved = refl

resolve_request_replaces_example :
    (c : HostCallContext) × (some host ≡ some c)
    × IsChecked validate_session_id c.session_id (some (text "s1"))
    × IsChecked parse_project_id c.project_id none
resolve_request_replaces_example =
    resolve_request_replaces sample_json defaults tt session_context resolved

abbrev bound_access : ResolvedMemoryAccess
bound_access = record {
  resolver = bound_resolver sample_env.resolver (some (text "p"));
  project_id = some (text "p");
}

access_run : resolve_access sample_env defaults (some (text " p ")) project ≡ done bound_access
unfolding resolve_access jiandu.Context.resolve_project_id trimmed jiandu.Text.trim parse_project_id
    jiandu.Text.Utf8.bytes
access_run = refl

resolve_access-IsGranted_example :
    (some (text "p") ≡ some (text "p"))
    × (bound_access.resolver ≡ bound_resolver sample_env.resolver (some (text "p")))
    × HasProject project (some (text "p"))
    × IsGranted defaults (trimmed (some (text " p ")))
resolve_access-IsGranted_example =
    resolve_access-IsGranted sample_env defaults (some (text " p ")) project bound_access access_run

-- A printer that knows nothing.
abbrev no_yaml : Yaml DreamSnapshotFrontmatter
no_yaml = record { to_string = λ fm. none; from_str = λ t. none }

abbrev fox_query : MemoryArgs ℕ
fox_query = query (record {
  scope = text "project";
  query_text = some (text "fox");
  filters = none;
  project_key = none;
  options = none;
})

execute_parsed_read_only_example :
    (execute_parsed sample_env defaults no_yaml fox_query sample_disk).1.files ≡ sample_disk.files
execute_parsed_read_only_example =
    execute_parsed_read_only sample_env defaults no_yaml fox_query sample_disk refl

empty_fits : NotesFit sample_env empty_disk
unfolding jiandu.Store.Disk.find_path
empty_fits s t p note h found = let impossible : ⊥ = cc in absurd impossible

session_actions_fit_example :
    NotesFit sample_env
      (session_append sample_env session_context none (text "A note.") empty_disk).1
    × NotesFit sample_env
        (session_replace sample_env session_context none (text "A note.") empty_disk).1
    × NotesFit sample_env (session_clear sample_env session_context none empty_disk).1
session_actions_fit_example =
    session_actions_fit sample_env session_context none (text "A note.") empty_disk empty_fits
