-- ===== src/Index.antt =====
-- The derived index files of memory_store/mod.rs.
use jiandu.Prelude.{ℕ, List, Option}
use jiandu.Text.{Text}
use jiandu.Types.{MemoryScope, DurableMemoryType, DurableMemoryStatus, TemporalGranularity}

pub record LexicalIndexItem : Type 0 where
  pub id : Text
  pub title : Text
  pub scope : MemoryScope
  pub project_key : Option Text
  pub memory_type : DurableMemoryType
  pub status : DurableMemoryStatus
  pub tags : List Text
  pub keywords : List Text
  pub entities : List Text
  pub updated_at : Text
  pub created_at : Text
  pub summary : Text
  pub granularity : Option TemporalGranularity

pub record LexicalIndex : Type 0 where
  pub generated_at : Text
  pub items : List LexicalIndexItem

pub record RecentIndexItem : Type 0 where
  pub id : Text
  pub title : Text
  pub updated_at : Text
  pub last_accessed_at : Option Text
  pub status : DurableMemoryStatus

pub record RecentIndex : Type 0 where
  pub generated_at : Text
  pub items : List RecentIndexItem

pub record GraphIndexItem : Type 0 where
  pub id : Text
  pub related : List Text
  pub supersedes : List Text
  pub contradicted_by : List Text

pub record GraphIndex : Type 0 where
  pub generated_at : Text
  pub items : List GraphIndexItem

pub record StaleCandidateItem : Type 0 where
  pub id : Text
  pub title : Text
  pub status : DurableMemoryStatus
  pub updated_at : Text
  pub reason : Text

pub record StaleCandidatesIndex : Type 0 where
  pub generated_at : Text
  pub items : List StaleCandidateItem

-- The maps from a wire name to a count, as entries in order of first insertion.
pub record TaxonomyIndex : Type 0 where
  pub generated_at : Text
  pub by_type : List (Text × ℕ)
  pub by_status : List (Text × ℕ)
  pub by_scope : List (Text × ℕ)
  pub total : ℕ
