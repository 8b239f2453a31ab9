-- ===== src/Context.antt =====
-- crates/jiandu-mcp/src/context.rs: the identity that the host gives a call, and the caller's errors.
-- The texts of the errors are for people and are left out.
pub mod Access
use jiandu.Prelude.{◌≡◌, refl, Bool, true, false, not, Option, none, some, if◌then◌else◌}
use jiandu.Prelude.Classes.{◌=?◌, nat_eq, list_eq}
use jiandu.Result.{Result, ok, err, ErrorKind}
use jiandu.Text.{Text, trimmed}
use jiandu.Validate.{validate_session_id, parse_project_id}

pub data MemoryError : Type 0 where
  invalid_arguments : MemoryError
  execution : ErrorKind → MemoryError

-- `Result<_, MemoryError>`
pub data MemoryResult {ℓ} (A : Type ℓ) : Type ℓ where
  failed : MemoryError → MemoryResult A
  done : A → MemoryResult A

infixl 5 ◌>>=◌ ◌>>◌
abbrev pub ◌>>=◌ {ℓ κ} :
    {A : Type ℓ} {B : Type κ} → MemoryResult A → (A → MemoryResult B) → MemoryResult B
failed e >>= next = failed e
done a >>= next = next a

abbrev pub ◌>>◌ {ℓ} : {B : Type ℓ} → MemoryResult (Unit {0}) → MemoryResult B → MemoryResult B
r >> next = r >>= λ u. next

abbrev pub invalid_if : Bool → MemoryResult (Unit {0})
invalid_if true = failed invalid_arguments
invalid_if false = done tt

-- `map_err(|error| MemoryError::InvalidArguments(..))`
abbrev pub invalid {ℓ} : {A : Type ℓ} → Result A → MemoryResult A
invalid (ok a) = done a
invalid (err e) = failed invalid_arguments

pub >>=-eq-done {ℓ κ} :
    {A : Type ℓ} {B : Type κ} (r : MemoryResult A) (next : A → MemoryResult B) {b : B}
    → (r >>= next) ≡ done b
    → (a : A) × (r ≡ done a) × (next a ≡ done b)
>>=-eq-done (failed e) next h = cc
>>=-eq-done (done a) next h = (a, refl, h)

pub invalid-eq-done {ℓ} : {A : Type ℓ} (r : Result A) {a : A} → invalid r ≡ done a → r ≡ ok a
invalid-eq-done (ok a) h = cc
invalid-eq-done (err e) h = cc

pub record MemoryExecutionContext : Type 0 where
  pub session_id : Option Text
  pub project_id : Option Text

pub record HostCallContext : Type 0 where
  pub session_id : Option Text
  pub project_id : Option Text

abbrev pub no_context : MemoryExecutionContext
no_context = record { session_id = none; project_id = none }

-- serde_json: the value of a metadata entry, and the context that it holds if it is a valid one.
pub record Json : Type 1 where
  pub Value : Type 0
  pub is_object : Value → Bool
  pub host_call_context : Value → Option HostCallContext

unfoldable pub with_session_id : MemoryExecutionContext → Text → MemoryResult MemoryExecutionContext
with_session_id self session_id = do
  id ← invalid (validate_session_id session_id)
  done (record self { session_id = some id })

unfoldable pub with_project_id : MemoryExecutionContext → Text → MemoryResult MemoryExecutionContext
with_project_id self project_id = do
  id ← invalid (parse_project_id project_id)
  done (record self { project_id = some id })

abbrev pub require {ℓ} : {A : Type ℓ} → Option A → MemoryResult A
require none = failed invalid_arguments
require (some a) = done a

abbrev pub require_session_id : MemoryExecutionContext → MemoryResult Text
require_session_id self = require self.session_id

abbrev pub with_some :
    (MemoryExecutionContext → Text → MemoryResult MemoryExecutionContext)
    → MemoryExecutionContext
    → Option Text
    → MemoryResult MemoryExecutionContext
with_some set self none = done self
with_some set self (some id) = set self id

-- What an object in the metadata says; nothing of the defaults is in it.
unfoldable pub host_context : HostCallContext → MemoryResult MemoryExecutionContext
host_context context = with_some with_session_id no_context context.session_id >>= λ resolved.
    with_some with_project_id resolved context.project_id

-- The value is `metadata.get(MEMORY_CONTEXT_META_KEY)`.
unfoldable pub resolve_request :
    (json : Json) → MemoryExecutionContext → Option json.Value → MemoryResult MemoryExecutionContext
resolve_request json self none = done self
resolve_request json self (some value) =
    invalid_if (not (json.is_object value))
    >> (require (json.host_call_context value) >>= host_context)

abbrev pub requested_id : Option Text → MemoryResult (Option Text)
requested_id none = done none
requested_id (some value) = invalid (parse_project_id value) >>= λ id. done (some id)

abbrev pub granted : Option Text → Option Text → MemoryResult (Option Text)
granted (some context) (some requested) =
    if not (context =? requested) then failed invalid_arguments else done (some context)
granted (some context) none = done (some context)
granted none (some requested) = failed invalid_arguments
granted none none = done none

unfoldable pub resolve_project_id :
    MemoryExecutionContext → Option Text → MemoryResult (Option Text)
resolve_project_id self requested =
    requested_id (trimmed requested) >>= λ requested. granted self.project_id requested
