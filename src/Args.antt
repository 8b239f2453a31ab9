-- ===== src/Args.antt =====
-- crates/jiandu-mcp/src/args.rs: the arguments of the `memory` tool. serde_json reads them, and schemars
-- describes them; both are left out.
use jiandu.Prelude.{ℕ, Bool, List, Option}
use jiandu.Text.{Text, text}
use jiandu.Handler.{QueryFilters}

pub data MemoryToolClass : Type 0 where
  read_only_parallel mutating_serial : MemoryToolClass

pub record MemoryActionOptions : Type 0 where
  pub limit : Option ℕ
  pub max_chars : Option ℕ
  pub cursor : Option Text
  pub include_related : Option Bool

pub record WriteOptions : Type 0 where
  pub allow_merge_if_similar : Option Bool

pub record SplitPiece : Type 0 where
  pub title : Text
  pub memory_type : Option Text
  pub content : Text
  pub tags : List Text
  pub keywords : List Text
  pub entities : List Text

-- The fields that `Write` and `Consolidate` share.
pub record Hints : Type 0 where
  pub tags : List Text
  pub keywords : List Text
  pub entities : List Text

pub record WriteArgs : Type 0 where
  pub scope : Text
  pub memory_type : Text
  pub title : Text
  pub content : Text
  pub hints : Hints
  pub project_key : Option Text
  pub granularity : Option Text
  pub options : Option WriteOptions

pub record MergeArgs : Type 0 where
  pub id : Text
  pub content : Text
  pub hints : Hints
  pub project_key : Option Text
  pub source_memory_ids : List Text
  pub mode : Option Text
  pub reason : Option Text

pub record FindDuplicatesArgs : Type 0 where
  pub scope : Text
  pub title : Text
  pub content : Option Text
  pub memory_type : Option Text
  pub hints : Hints
  pub project_key : Option Text
  pub options : Option MemoryActionOptions

pub record ConsolidateArgs : Type 0 where
  pub ids : List Text
  pub title : Text
  pub content : Text
  pub memory_type : Option Text
  pub hints : Hints
  pub project_key : Option Text

pub record PurgeArgs : Type 0 where
  pub id : Option Text
  pub scope : Option Text
  pub reason : Option Text
  pub project_key : Option Text
  pub filters : Option QueryFilters
  pub mode : Option Text

pub record QueryArgs : Type 0 where
  pub scope : Text
  pub query_text : Option Text
  pub filters : Option QueryFilters
  pub project_key : Option Text
  pub options : Option MemoryActionOptions

-- `F` is `f64`.
pub data MemoryArgs (F : Type 0) : Type 0 where
  session_read : Option Text → Option MemoryActionOptions → MemoryArgs F
  session_append : Option Text → Text → MemoryArgs F
  session_replace : Option Text → Text → MemoryArgs F
  session_clear : Option Text → MemoryArgs F
  session_list_topics : MemoryArgs F
  query : QueryArgs → MemoryArgs F
  get : Text → Option Text → Option MemoryActionOptions → MemoryArgs F
  dream_read : Text → Option Text → MemoryArgs F
  dream_publish : Text → Text → Text → Option Text → MemoryArgs F
  write : WriteArgs → MemoryArgs F
  merge : MergeArgs → MemoryArgs F
  split : Text → Option Text → List SplitPiece → MemoryArgs F
  find_duplicates : FindDuplicatesArgs → MemoryArgs F
  scan_blobs : Text → Option Text → Option ℕ → Option MemoryActionOptions → MemoryArgs F
  scan_duplicates : Text → Option Text → Option F → Option MemoryActionOptions → MemoryArgs F
  consolidate : ConsolidateArgs → MemoryArgs F
  purge : PurgeArgs → MemoryArgs F
  inspect : Text → Option Text → MemoryArgs F
  rebuild : Text → Option Text → MemoryArgs F

abbrev pub action_name : {F : Type 0} → MemoryArgs F → Text
action_name (session_read _ _) = text "session_read"
action_name (session_append _ _) = text "session_append"
action_name (session_replace _ _) = text "session_replace"
action_name (session_clear _) = text "session_clear"
action_name session_list_topics = text "session_list_topics"
action_name (query _) = text "query"
action_name (get _ _ _) = text "get"
action_name (dream_read _ _) = text "dream_read"
action_name (dream_publish _ _ _ _) = text "dream_publish"
action_name (write _) = text "write"
action_name (merge _) = text "merge"
action_name (split _ _ _) = text "split"
action_name (find_duplicates _) = text "find_duplicates"
action_name (scan_blobs _ _ _ _) = text "scan_blobs"
action_name (scan_duplicates _ _ _ _) = text "scan_duplicates"
action_name (consolidate _) = text "consolidate"
action_name (purge _) = text "purge"
action_name (inspect _ _) = text "inspect"
action_name (rebuild _ _) = text "rebuild"

abbrev pub class : {F : Type 0} → MemoryArgs F → MemoryToolClass
class (session_read _ _) = read_only_parallel
class session_list_topics = read_only_parallel
class (query _) = read_only_parallel
class (get _ _ _) = read_only_parallel
class (dream_read _ _) = read_only_parallel
class (find_duplicates _) = read_only_parallel
class (scan_blobs _ _ _ _) = read_only_parallel
class (scan_duplicates _ _ _ _) = read_only_parallel
class (inspect _ _) = read_only_parallel
class _ = mutating_serial
