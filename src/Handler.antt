-- ===== src/Handler.antt =====
-- crates/jiandu-mcp/src/handler.rs: the checks of a call's arguments, and the store that it gets.
pub mod Granted
pub mod Call
pub mod Response
pub mod SessionActions
pub mod ReadActions
pub mod WriteActions
pub mod Dispatch
pub mod ReadOnly
pub mod Notes
use jiandu.Prelude.{
  ℕ, not, ◌&&◌, List, [], ◌∷◌, Option, none, some, map, if◌then◌else◌, is_empty, is_some,
}
use jiandu.Prelude.Classes.{◌=?◌, nat_eq, list_eq}
use jiandu.Result.{Result}
use jiandu.Text.{Text, text, trim, trimmed, to_ascii_lowercase}
use jiandu.Types.{
  MemoryScope, session, project, global, DurableMemoryType, user, feedback, project_type, reference,
  DurableMemoryStatus, active, stale, superseded, contradicted, archived, TemporalGranularity,
  parse, scope_eq,
}
use jiandu.Validate.{validate_memory_id}
use jiandu.Paths.{MemoryPathResolver, for_project}
use jiandu.Store.Disk.{Env}
use jiandu.Context.{
  invalid_arguments, MemoryResult, failed, done, ◌>>=◌, ◌>>◌, invalid, invalid_if, require,
  MemoryExecutionContext, resolve_project_id,
}

abbrev pub default_session_topic : Text
default_session_topic = text "default"

abbrev pub max_session_note_chars : ℕ
max_session_note_chars = 12000

-- `value.trim().to_ascii_lowercase()`
unfoldable pub lowered : Text → Text
lowered value = map to_ascii_lowercase (trim value)

abbrev pub or_topic : Option Text → Text
or_topic none = default_session_topic
or_topic (some topic) = topic

unfoldable pub session_topic : Option Text → Text
session_topic topic = or_topic (trimmed topic)

unfoldable pub required_content : Text → MemoryResult Text
required_content content =
    let content = trim content in
    if is_empty content then failed invalid_arguments else done content

unfoldable pub parse_scope : Text → MemoryResult MemoryScope
parse_scope scope =
    let word = lowered scope in
    if word =? text "session"
    then done session
    else if word =? text "project"
    then done project
    else if word =? text "global"
    then done global
    else failed invalid_arguments

abbrev pub durable : MemoryScope → MemoryResult MemoryScope
durable session = failed invalid_arguments
durable project = done project
durable global = done global

unfoldable pub parse_durable_scope : Text → MemoryResult MemoryScope
parse_durable_scope scope = parse_scope scope >>= durable

abbrev pub parse_some {ℓ} :
    {A : Type ℓ} → (Text → MemoryResult A) → Option Text → MemoryResult (Option A)
parse_some parse_one none = done none
parse_some parse_one (some value) = parse_one value >>= λ a. done (some a)

unfoldable pub parse_granularity : Option Text → MemoryResult (Option TemporalGranularity)
parse_granularity value = parse_some (λ value. require (parse value)) (trimmed value)

unfoldable pub parse_type : Text → MemoryResult DurableMemoryType
parse_type value =
    let word = lowered value in
    if word =? text "user"
    then done user
    else if word =? text "feedback"
    then done feedback
    else if word =? text "project"
    then done project_type
    else if word =? text "reference"
    then done reference
    else failed invalid_arguments

unfoldable pub parse_status : Text → MemoryResult DurableMemoryStatus
parse_status value =
    let word = lowered value in
    if word =? text "active"
    then done active
    else if word =? text "stale"
    then done stale
    else if word =? text "superseded"
    then done superseded
    else if word =? text "contradicted"
    then done contradicted
    else if word =? text "archived"
    then done archived
    else failed invalid_arguments

abbrev pub collect {ℓ κ} :
    {A : Type ℓ} {B : Type κ} → (A → MemoryResult B) → List A → MemoryResult (List B)
collect f [] = done []
collect f (x ∷ xs) = f x >>= λ y. collect f xs >>= λ ys. done (y ∷ ys)

pub record QueryFilters : Type 0 where
  pub memory_type : List Text
  pub status : List Text
  pub granularity : List Text

-- A set of filters, unless it is empty.
abbrev pub filter_set {ℓ} :
    {A : Type ℓ} → (Text → MemoryResult A) → List Text → MemoryResult (Option (List A))
filter_set parse_one [] = done none
filter_set parse_one (item ∷ items) = collect parse_one (item ∷ items) >>= λ set. done (some set)

pub record FilterSets : Type 0 where
  pub types : Option (List DurableMemoryType)
  pub statuses : Option (List DurableMemoryStatus)
  pub granularities : Option (List TemporalGranularity)

abbrev pub filter_sets : QueryFilters → MemoryResult FilterSets
filter_sets filters = do
  types ← filter_set parse_type filters.memory_type
  statuses ← filter_set parse_status filters.status
  granularities ← filter_set (λ item. require (parse item)) filters.granularity
  done (record { types = types; statuses = statuses; granularities = granularities })

unfoldable pub parse_query_filters : Option QueryFilters → MemoryResult FilterSets
parse_query_filters none = done (record { types = none; statuses = none; granularities = none })
parse_query_filters (some filters) = filter_sets filters

abbrev pub merge_mode : Text → MemoryResult Text
merge_mode value =
    if value =? text "semantic_merge"
    then done value
    else if value =? text "merge"
    then done value
    else if value =? text "contradict"
    then done value
    else failed invalid_arguments

unfoldable pub parse_merge_mode : Option Text → MemoryResult (Option Text)
parse_merge_mode value =
    parse_some (λ value. merge_mode (map to_ascii_lowercase value)) (trimmed value)

unfoldable pub checked_memory_id : Text → MemoryResult Text
checked_memory_id id = invalid (validate_memory_id id)

unfoldable pub checked_memory_ids : List Text → MemoryResult (List Text)
checked_memory_ids ids = collect checked_memory_id ids

-- The store of a call is its resolver: the server's, bound to the project that the host granted.
pub record ResolvedMemoryAccess : Type 0 where
  pub resolver : MemoryPathResolver
  pub project_id : Option Text

abbrev pub bound_resolver : MemoryPathResolver → Option Text → MemoryPathResolver
bound_resolver resolver none = resolver
bound_resolver resolver (some id) = for_project resolver id

abbrev pub store_of : Env → ResolvedMemoryAccess → Env
store_of store access = record store { resolver = access.resolver }

unfoldable pub resolve_access :
    Env → MemoryExecutionContext → Option Text → MemoryScope → MemoryResult ResolvedMemoryAccess
resolve_access store context requested scope = do
  project_id ← resolve_project_id context requested
  invalid_if (scope =? project && not (is_some project_id))
  done (record { resolver = bound_resolver store.resolver project_id; project_id = project_id })

unfoldable pub resolve_id_access :
    Env → MemoryExecutionContext → Option Text → Text → MemoryResult ResolvedMemoryAccess
resolve_id_access store context requested id =
    checked_memory_id id >>= λ u. resolve_access store context requested global
