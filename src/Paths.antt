-- ===== src/Paths.antt =====
-- memory_store/paths.rs: where each scope's files are. A `PathBuf` is its list of components, which
-- is what its equality compares; the root directory is the component "/". Joining splits the joined
-- text at "/", drops empty and "." components, and starts anew at an absolute text.
pub mod Layout
use jiandu.Prelude.{
  Bool, false, not, ◌||◌, List, [], ◌∷◌, ◌++◌, Option, none, some, ◌==◌, if◌then◌else◌, filter,
  is_empty, unwrap_or,
}
use jiandu.Prelude.Classes.{◌=?◌, nat_eq, list_eq}
use jiandu.Result.{Result, ok, ◌>>=◌}
use jiandu.Text.{Text, text, split, starts_with}
use jiandu.Types.{MemoryScope, session, project, global}
use jiandu.Validate.{validate_memory_id}

abbrev pub PathBuf : Type 0
PathBuf = List Text

abbrev pub is_normal : Text → Bool
is_normal piece = not (is_empty piece || piece =? text ".")

unfoldable pub components : Text → List Text
unfolding split
components t = filter is_normal (split (λ c. c == b'/') t)

-- `Path::join`
unfoldable pub join : PathBuf → Text → PathBuf
join path t = if starts_with (text "/") t then text "/" ∷ components t else path ++ components t

abbrev pub memory_root_dir : Text
memory_root_dir = text "memory"

abbrev pub memory_version_dir : Text
memory_version_dir = text "v1"

abbrev pub sessions_dir : Text
sessions_dir = text "sessions"

abbrev pub scopes_dir : Text
scopes_dir = text "scopes"

abbrev pub global_dir : Text
global_dir = text "global"

abbrev pub projects_dir : Text
projects_dir = text "projects"

abbrev pub note_dir : Text
note_dir = text "note"

abbrev pub topics_dir : Text
topics_dir = text "topics"

abbrev pub scope_write_lock_file : Text
scope_write_lock_file = text ".jiandu-write.lock"

pub record MemoryPathResolver : Type 0 where
  pub data_dir : PathBuf
  pub root : PathBuf
  pub project_id : Option Text

-- `ProjectMemoryPathResolver`: its methods take its one field, the data directory.
unfoldable pub project_home : PathBuf → Text → PathBuf
project_home data_dir project_id = join (join data_dir projects_dir) project_id

unfoldable pub memory_root : PathBuf → Text → PathBuf
unfolding project_home
memory_root data_dir project_id =
    join (join (project_home data_dir project_id) memory_root_dir) memory_version_dir

-- The components but the last, and the last.
unfoldable pub split_last : PathBuf → Option (PathBuf × Text)
split_last [] = none
split_last (c ∷ path) = elim (split_last path) [
  | none ↦ some ([], c)
  | some (init, last) ↦ some (c ∷ init, last)
]

-- `Path::file_name`: the last component, unless it is the root or a parent reference.
unfoldable pub file_name : PathBuf → Option Text
unfolding split_last
file_name path = elim (split_last path) [
  | none ↦ none
  | some (init, last) ↦ if last =? text "/" || last =? text ".." then none else some last
]

unfoldable pub parent : PathBuf → Option PathBuf
unfolding split_last
parent path = elim (split_last path) [
  | none ↦ none
  | some (init, last) ↦ if last =? text "/" then none else some init
]

abbrev pub is_named : Text → PathBuf → Bool
is_named name path = elim (file_name path) [ none ↦ false | some last ↦ last =? name ]

unfoldable pub infer_data_dir_from_root : PathBuf → PathBuf
infer_data_dir_from_root root =
    if not (is_named memory_version_dir root) then root else elim (parent root) [
      | none ↦ root
      | some memory_dir ↦
          if not (is_named memory_root_dir memory_dir)
          then root
          else unwrap_or (parent memory_dir) root
    ]

-- `MemoryPathResolver::new`
unfoldable pub new : PathBuf → MemoryPathResolver
new root = record { data_dir = infer_data_dir_from_root root; root = root; project_id = none }

unfoldable pub from_data_dir : PathBuf → MemoryPathResolver
from_data_dir data_dir = record {
  data_dir = data_dir;
  root = join (join data_dir memory_root_dir) memory_version_dir;
  project_id = none;
}

unfoldable pub for_project : MemoryPathResolver → Text → MemoryPathResolver
for_project self project_id = record self { project_id = some project_id }

unfoldable pub sessions_root : MemoryPathResolver → PathBuf
sessions_root self = join self.root sessions_dir

unfoldable pub session_root : MemoryPathResolver → Text → PathBuf
unfolding sessions_root
session_root self session_id = join (sessions_root self) session_id

unfoldable pub session_note_dir : MemoryPathResolver → Text → PathBuf
unfolding session_root
session_note_dir self session_id = join (session_root self session_id) note_dir

unfoldable pub session_topic_path : MemoryPathResolver → Text → Text → PathBuf
unfolding session_note_dir
session_topic_path self session_id topic =
    join (session_note_dir self session_id) (topic ++ text ".md")

unfoldable pub session_state_path : MemoryPathResolver → Text → PathBuf
unfolding session_root
session_state_path self session_id = join (session_root self session_id) (text "state.json")

unfoldable pub scopes_root : MemoryPathResolver → PathBuf
scopes_root self = join self.root scopes_dir

unfoldable pub global_root : MemoryPathResolver → PathBuf
unfolding scopes_root
global_root self = join (scopes_root self) global_dir

abbrev pub is_bound_to : MemoryPathResolver → Text → Bool
is_bound_to self project_key = elim self.project_id [ none ↦ false | some id ↦ id =? project_key ]

-- The bound project lives in the project home; any other key in the legacy layout.
unfoldable pub project_root : MemoryPathResolver → Text → PathBuf
unfolding memory_root scopes_root
project_root self project_key =
    if is_bound_to self project_key
    then memory_root self.data_dir (unwrap_or self.project_id [])
    else join (join (scopes_root self) projects_dir) project_key

abbrev pub key_or_unknown : Option Text → Text
key_or_unknown project_key = unwrap_or project_key (text "unknown")

unfoldable pub scope_root : MemoryPathResolver → MemoryScope → Option Text → PathBuf
unfolding global_root project_root sessions_root
scope_root self global project_key = global_root self
scope_root self project project_key = project_root self (key_or_unknown project_key)
scope_root self session project_key = sessions_root self

unfoldable pub scope_write_lock_path : MemoryPathResolver → MemoryScope → Option Text → PathBuf
unfolding scope_root
scope_write_lock_path self scope project_key =
    join (scope_root self scope project_key) scope_write_lock_file

unfoldable pub project_read_roots : MemoryPathResolver → Text → List PathBuf
project_read_roots self project_key = project_root self project_key ∷ []

unfoldable pub scope_read_roots : MemoryPathResolver → MemoryScope → Option Text → List PathBuf
unfolding project_read_roots scope_root
scope_read_roots self project project_key = project_read_roots self (key_or_unknown project_key)
scope_read_roots self scope project_key = scope_root self scope project_key ∷ []

-- The directories of a scope: Global and Project have one each, Session shares `sessions`.
abbrev pub scope_dir : Text → MemoryPathResolver → MemoryScope → Option Text → PathBuf
scope_dir dir self global project_key = join (global_root self) dir
scope_dir dir self project project_key = join (project_root self (key_or_unknown project_key)) dir
scope_dir dir self session project_key = sessions_root self

abbrev pub topic_dir : MemoryPathResolver → MemoryScope → Option Text → PathBuf
topic_dir = scope_dir topics_dir

abbrev pub indexes_dir : MemoryPathResolver → MemoryScope → Option Text → PathBuf
indexes_dir = scope_dir (text "indexes")

abbrev pub views_dir : MemoryPathResolver → MemoryScope → Option Text → PathBuf
views_dir = scope_dir (text "views")

abbrev pub logs_dir : MemoryPathResolver → MemoryScope → Option Text → PathBuf
logs_dir = scope_dir (text "logs")

abbrev pub state_dir : MemoryPathResolver → MemoryScope → Option Text → PathBuf
state_dir = scope_dir (text "state")

unfoldable pub topic_path : MemoryPathResolver → MemoryScope → Option Text → Text → Result PathBuf
topic_path self scope project_key memory_id = do
  id ← validate_memory_id memory_id
  ok (join (topic_dir self scope project_key) (id ++ text ".md"))

unfoldable pub dream_path : MemoryPathResolver → MemoryScope → Option Text → PathBuf
dream_path self scope project_key = join (views_dir self scope project_key) (text "DREAM.md")

unfoldable pub scope_generation_path : MemoryPathResolver → MemoryScope → Option Text → PathBuf
scope_generation_path self scope project_key =
    join (state_dir self scope project_key) (text "source_generation.json")
