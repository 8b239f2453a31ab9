-- ===== src/Sessions.antt =====
-- The session notes of memory_store/store.rs: reading, writing, appending, deleting and listing the
-- notes of a session, and its state file. The append's lock is not modelled: one call runs at a time.
pub mod Notes
use jiandu.Prelude.{
  ℕ, ◌-◌, Bool, true, false, not, List, [], ◌∷◌, ◌++◌, Option, none, some, map, take, length,
  is_empty, if◌then◌else◌,
}
use jiandu.Prelude.Classes.{nat_eq, list_eq, option_eq}
use jiandu.Prelude.Order.{text_cmp}
use jiandu.Prelude.Sort.{sort_by, not_after}
use jiandu.Result.{Result, ok}
use jiandu.Result.{◌>>=◌ as ◌then◌}
use jiandu.Text.{Text, text, trim, trim_end}
use jiandu.Types.{SessionState}
use jiandu.Validate.{validate_session_id, validate_session_topic}
use jiandu.Paths.{PathBuf, file_name, session_topic_path, session_note_dir, session_state_path}
use jiandu.Store.Disk.{
  Env, Disk, Action, Artifact, session_state, ◌>>=◌, ◌>>◌, return, lift, read_file, exists_file,
  atomic_write, remove_file, read_artifact, write_artifact, now_rfc3339,
}
use jiandu.Store.Locate.{md_entries}

-- `file_stem` of a name that ends in `.md`.
abbrev pub stem : Option Text → Text
stem none = []
stem (some name) = take (length name - 3) name

abbrev pub appended : Option Text → Text → Text
appended none content = content
appended (some previous) content =
    if is_empty (trim previous) then content else trim_end previous ++ (text "\n\n" ++ content)

-- A state file that does not parse is as good as none.
abbrev pub as_state : Option Artifact → Option SessionState
as_state none = none
as_state (some (session_state state)) = some state
as_state (some _) = none

abbrev pub memory_schema_version : ℕ
memory_schema_version = 1

abbrev pub new_state : Text → Text → List Text → SessionState
new_state session_id now topics = record {
  version = memory_schema_version;
  session_id = session_id;
  created_at = now;
  updated_at = now;
  last_extracted_at = none;
  last_compacted_at = none;
  topics = topics;
}

abbrev pub state_or_new : Option SessionState → Text → Text → SessionState
state_or_new none session_id now = new_state session_id now []
state_or_new (some state) session_id now = state

abbrev pub persisted : SessionState → Text → List Text → SessionState
persisted state now topics = record state {
  version = memory_schema_version;
  created_at = if is_empty (trim state.created_at) then now else state.created_at;
  updated_at = now;
  topics = topics;
}

abbrev pub kept_note : Text → Option Text → List (Text × Text) → List (Text × Text)
kept_note topic none rest = rest
kept_note topic (some content) rest =
    if is_empty (trim content) then rest else (topic, trim content) ∷ rest

unfoldable pub topics_in : PathBuf → Disk → List Text
unfolding sort_by
topics_in dir d =
    sort_by (λ a b. not_after (text_cmp a b))
      (map (λ (entry : PathBuf × Text). stem (file_name entry.0)) (md_entries dir d.files))

module _ (env : Env) where
  unfoldable pub note_path : Text → Text → Result PathBuf
  note_path session_id topic = validate_session_id session_id then λ session_id.
      validate_session_topic topic then λ topic.
      ok (session_topic_path env.resolver session_id topic)

  unfoldable pub read_session_topic : Text → Text → Action (Option Text)
  read_session_topic session_id topic = do path ← lift (note_path session_id topic); read_file path

  -- `list_current_session_topics`; the directory is that of the id as it was given.
  unfoldable pub list_session_topics : Text → Action (List Text)
  list_session_topics session_id d = (
    validate_session_id session_id then λ u.
        ok (topics_in (session_note_dir env.resolver session_id) d),
    d,
  )

  unfoldable pub persist_session_state : Text → Action (Unit {0})
  persist_session_state session_id = do
    _ ← lift (validate_session_id session_id)
    topics ← list_session_topics session_id
    existing ← read_artifact (session_state_path env.resolver session_id)
    now ← now_rfc3339 env
    write_artifact (session_state_path env.resolver session_id)
        (session_state (persisted (state_or_new (as_state existing) session_id now) now topics))

  unfoldable pub write_session_topic : Text → Text → Text → Action PathBuf
  write_session_topic session_id topic content = do
    path ← lift (note_path session_id topic)
    atomic_write path content
    persist_session_state session_id
    return path

  unfoldable pub append_session_topic : Text → Text → Text → Action PathBuf
  append_session_topic session_id topic content = do
    existing ← read_session_topic session_id topic
    write_session_topic session_id topic (appended existing content)

  abbrev delete_if : Bool → PathBuf → Action Bool
  delete_if true path = remove_file path >> return true
  delete_if false path = return false

  unfoldable pub delete_session_topic : Text → Text → Action Bool
  delete_session_topic session_id topic = do
    path ← lift (note_path session_id topic)
    exists ← exists_file path
    deleted ← delete_if exists path
    persist_session_state session_id
    return deleted

  abbrev read_or_new : Text → Option SessionState → Action SessionState
  read_or_new session_id (some state) = return state
  read_or_new session_id none = do
    now ← now_rfc3339 env
    topics ← list_session_topics session_id
    return (new_state session_id now topics)

  unfoldable pub read_session_state : Text → Action SessionState
  read_session_state session_id = do
    _ ← lift (validate_session_id session_id)
    found ← read_artifact (session_state_path env.resolver session_id)
    read_or_new session_id (as_state found)

  -- The topics whose notes are not blank, with these, trimmed.
  unfoldable pub read_notes : Text → List Text → Action (List (Text × Text))
  read_notes session_id [] = return []
  read_notes session_id (topic ∷ topics) = do
    found ← read_session_topic session_id topic
    rest ← read_notes session_id topics
    return (kept_note topic found rest)

  unfoldable pub read_session_topics_with_content : Text → Action (List (Text × Text))
  read_session_topics_with_content session_id =
      list_session_topics session_id >>= λ topics. read_notes session_id topics

  unfoldable pub mark_session_extracted : Text → Text → Action (Unit {0})
  mark_session_extracted session_id extracted_at = do
    _ ← lift (validate_session_id session_id)
    state ← read_session_state session_id
    now ← now_rfc3339 env
    write_artifact (session_state_path env.resolver session_id) (
        session_state
          (record state { last_extracted_at = some (trim extracted_at); updated_at = now }))
