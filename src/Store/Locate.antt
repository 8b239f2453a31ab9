-- ===== src/Store/Locate.antt =====
-- Finding, listing and writing memory documents: `require_project_key`, `get_memory_at_locator`,
-- `get_memory`, `list_memory_documents`, `count_scope_memories`, `write_document`,
-- `allocate_memory_id` and `append_audit`.
pub mod Lookup
pub mod Allocate
pub mod Written
use jiandu.Prelude.{
  ℕ, zero, suc, ◌-◌, Bool, false, not, ◌&&◌, ◌||◌, List, [], ◌∷◌, ◌++◌, Option, none, some, ltb,
  if◌then◌else◌, length, drop, filter,
}
use jiandu.Prelude.Classes.{◌=?◌, nat_eq, list_eq, option_eq, contains}
use jiandu.Result.{Result, ok, err, invalid_input, invalid_data, already_exists, fail_if}
use jiandu.Result.{◌>>=◌ as ◌then◌, ◌>>◌ as ◌after◌}
use jiandu.Text.{Text, text, trimmed}
use jiandu.Types.{MemoryScope, session, project, global, scope_eq, DurableMemoryDocument}
use jiandu.Validate.{validate_memory_id, parse_project_id}
use jiandu.Paths.{
  PathBuf, join, parent, file_name, topics_dir, scope_read_roots, topic_dir, topic_path, logs_dir,
}
use jiandu.Document.{parse_markdown_document, render_markdown_document}
use jiandu.Query.{sort_memories_desc}
use jiandu.Store.Disk.{
  Env, Action, ◌>>=◌, ◌>>◌, return, lift, read_file, exists_file, atomic_write, append_log,
  read_clock, AuditLogEntry,
}

-- `Path::extension` is `md`: the name ends in `.md` and has more before it.
abbrev pub is_md_name : Option Text → Bool
is_md_name none = false
is_md_name (some name) = (drop (length name - 3) name =? text ".md") && ltb 3 (length name)

-- The entries of a directory whose extension is `md`.
abbrev pub md_entries : PathBuf → List (PathBuf × Text) → List (PathBuf × Text)
md_entries dir files =
    filter (λ entry. (parent entry.0 =? some dir) && is_md_name (file_name entry.0)) files

module _ (env : Env) where
  abbrev checked_key : Text → Result (Option Text)
  checked_key key = parse_project_id key then λ _. elim env.resolver.project_id [
    | none ↦ ok (some key)
    | some project_id ↦ if not (project_id =? key) then err invalid_input else ok (some key)
  ]

  unfoldable pub require_project_key : MemoryScope → Option Text → Result (Option Text)
  require_project_key global key = ok none
  require_project_key project key = elim (trimmed key) [
    | none ↦ err invalid_input
    | some k ↦ checked_key k
  ]
  require_project_key session key = ok key

  abbrev pub expected_project_key : MemoryScope → Option Text → Option Text
  expected_project_key project key = key
  expected_project_key global key = none
  expected_project_key session key = none

  -- The document of a file, if it is the one that its locator names.
  unfoldable pub located_document :
      MemoryScope → Option Text → Text → PathBuf → Text → Result (Option DurableMemoryDocument)
  located_document scope key id path raw = parse_markdown_document env.yaml raw then λ parts.
      fail_if
        (not (parts.0.id =? id)
          || not (parts.0.scope =? scope)
          || not (parts.0.project_key =? expected_project_key scope key))
        invalid_data
      after ok (some (record { frontmatter = parts.0; body = parts.1; path = path }))

  unfoldable pub read_roots :
      MemoryScope → Option Text → Text → List PathBuf → Action (Option DurableMemoryDocument)
  read_roots scope key id [] = return none
  read_roots scope key id (root ∷ roots) =
      let path = join (join root topics_dir) (id ++ text ".md") in
      read_file path >>= λ found. elim found [
        | none ↦ read_roots scope key id roots
        | some raw ↦ lift (located_document scope key id path raw)
      ]

  unfoldable pub get_memory_at_locator :
      MemoryScope → Option Text → Text → Action (Option DurableMemoryDocument)
  get_memory_at_locator scope project_key memory_id = do
    id ← lift (validate_memory_id memory_id)
    key ← lift (require_project_key scope project_key)
    read_roots scope key id (scope_read_roots env.resolver scope key)

  abbrev pub or_global : Text → Option DurableMemoryDocument → Action (Option DurableMemoryDocument)
  or_global id none = get_memory_at_locator global none id
  or_global id (some doc) = return (some doc)

  unfoldable pub get_memory : Text → Option Text → Action (Option DurableMemoryDocument)
  get_memory memory_id none = do
    id ← lift (validate_memory_id memory_id)
    get_memory_at_locator global none id
  get_memory memory_id (some project_key) = do
    id ← lift (validate_memory_id memory_id)
    found ← get_memory_at_locator project (some project_key) id
    or_global id found

  abbrev bound_key : MemoryScope → Option Text → Option Text
  bound_key project key = elim env.resolver.project_id [
    | none ↦ key
    | some project_id ↦ some project_id
  ]
  bound_key global key = key
  bound_key session key = key

  -- The loop over the entries of a directory, with the ids seen and the documents so far.
  unfoldable pub add_entries :
      MemoryScope
      → List Text
      → List DurableMemoryDocument
      → List (PathBuf × Text)
      → Result (List DurableMemoryDocument)
  add_entries scope seen docs [] = ok docs
  add_entries scope seen docs ((path, raw) ∷ entries) =
      parse_markdown_document env.yaml raw then λ parts.
      if contains seen parts.0.id
      then add_entries scope seen docs entries
      else add_entries scope (seen ++ parts.0.id ∷ [])
          (docs
            ++ record {
              frontmatter = record parts.0 { project_key = bound_key scope parts.0.project_key };
              body = parts.1;
              path = path;
            }
              ∷ [])
          entries

  abbrev root_entries : List (PathBuf × Text) → List PathBuf → List (PathBuf × Text)
  root_entries files [] = []
  root_entries files (root ∷ roots) =
      md_entries (join root topics_dir) files ++ root_entries files roots

  unfoldable pub list_memory_documents :
      MemoryScope → Option Text → Action (List DurableMemoryDocument)
  list_memory_documents scope project_key d = (
    require_project_key scope project_key then λ key.
        add_entries scope [] [] (root_entries d.files (scope_read_roots env.resolver scope key))
        then λ docs. ok (sort_memories_desc env.parse_rfc3339 docs),
    d,
  )

  unfoldable pub count_scope_memories : MemoryScope → Option Text → Action ℕ
  count_scope_memories scope project_key d = (
    require_project_key scope project_key then λ key.
        ok (length (md_entries (topic_dir env.resolver scope key) d.files)),
    d,
  )

  unfoldable pub write_document : DurableMemoryDocument → Action (Unit {0})
  write_document doc = do
    id ← lift (validate_memory_id doc.frontmatter.id)
    rendered ← lift (render_markdown_document env.yaml doc.frontmatter doc.body)
    atomic_write doc.path rendered

  abbrev pub memory_id_candidate : MemoryScope → Option Text → Text → Text → ℕ → Text
  memory_id_candidate scope key title timestamp counter =
      text "mem_" ++ (timestamp ++ (text "_" ++ env.hash_hex scope key title timestamp counter))

  -- The attempts that are left, from a counter on.
  unfoldable pub allocate_from : ℕ → ℕ → MemoryScope → Option Text → Text → Text → Action Text
  allocate_from zero counter scope key title timestamp = lift (err already_exists)
  allocate_from (suc left) counter scope key title timestamp = do
    let id = memory_id_candidate scope key title timestamp counter
    path ← lift (topic_path env.resolver scope key id)
    taken ← exists_file path
    if taken then allocate_from left (suc counter) scope key title timestamp else return id

  abbrev pub allocation_attempts : ℕ
  allocation_attempts = 1000

  unfoldable pub allocate_memory_id : MemoryScope → Option Text → Text → Action Text
  allocate_memory_id scope key title = do
    t ← read_clock env
    allocate_from allocation_attempts 0 scope key title (env.to_id_timestamp t)

  unfoldable pub append_audit : MemoryScope → Option Text → Text → AuditLogEntry → Action (Unit {0})
  append_audit scope key file entry = append_log (join (logs_dir env.resolver scope key) file) entry
