-- ===== src/Types.antt =====
-- memory_store/types.rs: the scopes, the temporal granularity, the kinds and statuses of a durable
-- memory, and the records that a memory document is made of. A timestamp is kept as its text.
pub mod Enums
pub use Enums.*
pub use Enums.Granularity.*
use jiandu.Prelude.{ℕ, ◌≡◌, ◌↔◌, refl, Bool, true, ◌&&◌, Option, List, and-true}
use jiandu.Prelude.Classes.{Eq, ◌=?◌, nat_eq, list_eq, beq_refl}
use jiandu.Text.{Text}

pub record CreatedBy : Type 0 where
  pub kind : Text
  pub id : Option Text
  pub actor : Option Text

pub record DurableMemorySource : Type 0 where
  pub kind : Text
  pub id : Text
  pub message_range : List Text

abbrev pub source_beq : DurableMemorySource → DurableMemorySource → Bool
source_beq a b = a.kind =? b.kind && (a.id =? b.id && a.message_range =? b.message_range)

pub source_beq_iff : (a b : DurableMemorySource) → (source_beq a b ≡ true) ↔ (a ≡ b)
source_beq_iff a b =
    (sound, λ e. rw e (rw (beq_refl b.kind, beq_refl b.id, beq_refl b.message_range) refl))
  where
    sound : source_beq a b ≡ true → a ≡ b
    sound h =
        let (k, rest) = and-true (a.kind =? b.kind) _ h in
        let (i, r) = and-true (a.id =? b.id) (a.message_range =? b.message_range) rest in
        rw
          (
            (list_eq.beq_iff a.kind b.kind).0 k,
            (list_eq.beq_iff a.id b.id).0 i,
            (list_eq.beq_iff a.message_range b.message_range).0 r,
          )
          refl

instance abbrev pub source_eq : Eq DurableMemorySource
source_eq = record { beq = source_beq; beq_iff = source_beq_iff }

pub record DurableMemoryRelations : Type 0 where
  pub supersedes : List Text
  pub contradicted_by : List Text
  pub related : List Text

pub record DurableMemoryRetrieval : Type 0 where
  pub keywords : List Text
  pub entities : List Text
  pub last_accessed_at : Option Text

pub record MemoryRetrievalInput : Type 0 where
  pub keywords : List Text
  pub entities : List Text

-- `type` is called `memory_type`.
pub record DurableMemoryFrontmatter : Type 0 where
  pub id : Text
  pub title : Text
  pub memory_type : DurableMemoryType
  pub scope : MemoryScope
  pub project_key : Option Text
  pub granularity : Option TemporalGranularity
  pub status : DurableMemoryStatus
  pub freshness : Option Text
  pub confidence : Option Text
  pub created_at : Text
  pub updated_at : Text
  pub created_by : CreatedBy
  pub updated_by : CreatedBy
  pub sources : List DurableMemorySource
  pub relations : DurableMemoryRelations
  pub tags : List Text
  pub retrieval : DurableMemoryRetrieval

-- A path is the list of its components, as in `Paths`.
pub record DurableMemoryDocument : Type 0 where
  pub frontmatter : DurableMemoryFrontmatter
  pub body : Text
  pub path : List Text

pub record DreamSnapshot : Type 0 where
  pub scope : MemoryScope
  pub project_key : Option Text
  pub generated_at : Text
  pub source_generation : Text
  pub content : Text

pub record DreamReadResult : Type 0 where
  pub scope : MemoryScope
  pub project_key : Option Text
  pub current_generation : Text
  pub stale : Bool
  pub snapshot : Option DreamSnapshot

pub record SessionState : Type 0 where
  pub version : ℕ
  pub session_id : Text
  pub created_at : Text
  pub updated_at : Text
  pub last_extracted_at : Option Text
  pub last_compacted_at : Option Text
  pub topics : List Text

-- Of memory_store/access_log.rs.
pub record AccessLogEntry : Type 0 where
  pub id : Text
  pub ts : Text
