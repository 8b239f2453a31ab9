-- ===== src/Store/Status.antt =====
-- The operations that change the status of memories: `set_memory_status`, `archive_memory`,
-- `purge_memories`, `expire_stale_granularity` and `mark_memory_contradicted`.
pub mod Archive
use jiandu.Prelude.{
  ℕ, Bool, true, false, List, [], ◌∷◌, Option, none, some, if◌then◌else◌, is_some, is_empty, length,
  unwrap_or,
}
use jiandu.Prelude.Classes.{nat_eq, list_eq}
use jiandu.Result.{Result, err}
use jiandu.Text.{Text, text}
use jiandu.Types.{
  MemoryScope, DurableMemoryType, DurableMemoryStatus, active, stale, contradicted, status_beq,
  status_as_str, TemporalGranularity, CreatedBy, DurableMemoryDocument,
}
use jiandu.Validate.{validate_memory_id}
use jiandu.Query.{match_memory_query}
use jiandu.Freshness.{granularity_expired}
use jiandu.Store.Disk.{
  Env, Action, ◌>>=◌, ◌>>◌, return, lift, now_rfc3339, AuditLogEntry, found_or_none,
}
use jiandu.Store.Locate.{
  require_project_key, get_memory_at_locator, get_memory, list_memory_documents, write_document,
  append_audit,
}
use jiandu.Store.Artifacts.{refresh_scope_artifacts}

abbrev pub purge_audit_log : Text
purge_audit_log = text "purge_audit.jsonl"

abbrev pub contradiction_audit_log : Text
contradiction_audit_log = text "contradiction_audit.jsonl"

abbrev pub updater : Text → Text → CreatedBy
updater kind actor = record { kind = kind; id = none; actor = some actor }

abbrev pub audit_entry :
    Text → Text → MemoryScope → Option Text → Option Text → Text → AuditLogEntry
audit_entry timestamp action scope memory_id session_id summary = record {
  timestamp = timestamp;
  action = action;
  scope = scope;
  memory_id = memory_id;
  session_id = session_id;
  topic = none;
  summary = summary;
}

abbrev pub with_status :
    DurableMemoryStatus → Text → CreatedBy → DurableMemoryDocument → DurableMemoryDocument
with_status status now updated_by doc = record doc {
  frontmatter = record doc.frontmatter {
    status = status;
    updated_at = now;
    updated_by = updated_by;
  };
}

abbrev pub cons_if : Bool → Text → List Text → List Text
cons_if true id ids = id ∷ ids
cons_if false id ids = ids

-- `matched_count` is the number of `updated_ids`.
pub record MemoryPurgeResult : Type 0 where
  pub scope : MemoryScope
  pub project_key : Option Text
  pub mode : DurableMemoryStatus
  pub matched_count : ℕ
  pub updated_ids : List Text

pub record MemoryContradictionResult : Type 0 where
  pub target_id : Text
  pub target_scope : MemoryScope
  pub project_key : Option Text
  pub changed : Bool
  pub contradicted_ids : List Text
  pub missing_ids : List Text
  pub path : List Text

module _ (env : Env) where
  -- Whether the status changed, and the document after it.
  unfoldable pub set_memory_status :
      DurableMemoryDocument
      → DurableMemoryStatus
      → Text
      → Text
      → Action (Bool × DurableMemoryDocument)
  set_memory_status doc status kind actor =
      if status_beq doc.frontmatter.status status
      then return (false, doc)
      else (now_rfc3339 env >>= λ now.
          (let doc' = with_status status now (updater kind actor) doc in
            write_document env doc' >> return (true, doc')))

  unfoldable pub archive_found :
      DurableMemoryStatus
      → Option Text
      → DurableMemoryDocument
      → Action (Option DurableMemoryDocument)
  archive_found mode reason doc = do
    set ← set_memory_status doc mode (text "memory_purge") (text "main-model")
    let fm = set.1.frontmatter
    now ← now_rfc3339 env
    append_audit env fm.scope fm.project_key purge_audit_log (
        audit_entry now (status_as_str mode) fm.scope (some fm.id) none
          (unwrap_or reason (status_as_str mode)))
    refresh_scope_artifacts env fm.scope fm.project_key
    return (some set.1)

  -- The part under the scope's write guard: the record is read again, by its locator alone.
  unfoldable pub archive_locked :
      MemoryScope
      → Option Text
      → Text
      → DurableMemoryStatus
      → Option Text
      → Action (Option DurableMemoryDocument)
  archive_locked scope key id mode reason =
      get_memory_at_locator env scope key id >>= found_or_none (archive_found mode reason)

  unfoldable pub archive_memory :
      Text → Option Text → DurableMemoryStatus → Option Text → Action (Option DurableMemoryDocument)
  archive_memory memory_id preferred mode reason = do
    id ← lift (validate_memory_id memory_id)
    found ← get_memory env id preferred
    found_or_none
        (λ doc. archive_locked doc.frontmatter.scope doc.frontmatter.project_key id mode reason)
        found

  module _ (types : Option (List DurableMemoryType)) (statuses : Option (List DurableMemoryStatus))
      (granularities : Option (List TemporalGranularity)) where
    -- The loop of `purge_memories`: the ids of the documents that changed.
    unfoldable pub purge_docs :
        DurableMemoryStatus → List DurableMemoryDocument → Action (List Text)
    purge_docs mode [] = return []
    purge_docs mode (doc ∷ docs) =
        let rest = purge_docs mode docs in
        if is_some (match_memory_query env.unicode env.float doc none types statuses granularities)
        then (set_memory_status doc mode (text "memory_purge") (text "main-model") >>= λ set.
            rest >>= λ ids. return (cons_if set.0 doc.frontmatter.id ids))
        else rest

    unfoldable pub purge_memories :
        MemoryScope → Option Text → DurableMemoryStatus → Option Text → Action MemoryPurgeResult
    purge_memories scope project_key mode reason = do
      key ← lift (require_project_key env scope project_key)
      docs ← list_memory_documents env scope key
      updated_ids ← purge_docs mode docs
      now ← now_rfc3339 env
      append_audit env scope key purge_audit_log (
          audit_entry now (status_as_str mode) scope none none
            (unwrap_or reason (status_as_str mode)))
      refresh_scope_artifacts env scope key
      return (record {
        scope = scope;
        project_key = key;
        mode = mode;
        matched_count = length updated_ids;
        updated_ids = updated_ids;
      })

  unfoldable pub audit_expiry : MemoryScope → Option Text → DurableMemoryDocument → Action Bool
  audit_expiry scope key doc = do
    now ← now_rfc3339 env
    append_audit env scope key purge_audit_log (
        audit_entry now (status_as_str stale) scope (some doc.frontmatter.id) none (
          text
            "Marked stale: fine-grained (day/week) memory aged past its temporal-granularity freshness window."))
    return true

  -- One document that has expired.
  unfoldable pub expire_found : MemoryScope → Option Text → DurableMemoryDocument → Action Bool
  expire_found scope key doc =
      set_memory_status doc stale (text "granularity_expiry") (text "gardener") >>= λ set.
      if set.0 then audit_expiry scope key doc else return false

  -- The loop of `expire_stale_granularity`: the filters are lazy, so a document is tested in its turn.
  unfoldable pub expire_docs :
      MemoryScope → Option Text → List DurableMemoryDocument → Action (List Text)
  expire_docs scope key [] = return []
  expire_docs scope key (doc ∷ docs) =
      let rest = expire_docs scope key docs in
      if status_beq doc.frontmatter.status active
      then (granularity_expired env doc.frontmatter.granularity doc.frontmatter.updated_at
          >>= λ expired.
              if expired
              then (expire_found scope key doc >>= λ changed.
                  rest >>= λ ids. return (cons_if changed doc.frontmatter.id ids))
              else rest)
      else rest

  unfoldable pub expire_stale_granularity : MemoryScope → Option Text → Action (List Text)
  expire_stale_granularity scope project_key = do
    key ← lift (require_project_key env scope project_key)
    docs ← list_memory_documents env scope key
    expired ← expire_docs scope key docs
    if is_empty expired
        then return expired
        else refresh_scope_artifacts env scope key >> return expired
