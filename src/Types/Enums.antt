-- ===== src/Types/Enums.antt =====
-- The enumerations of memory_store/types.rs, their wire names and their equality.
pub mod Granularity
use jiandu.Prelude.{◌≡◌, ◌↔◌, Bool, true, false, arith}
use jiandu.Prelude.Classes.{Eq}
use jiandu.Text.{Text, text}

pub data MemoryScope : Type 0 where
  session project global : MemoryScope

pub data DurableMemoryType : Type 0 where
  user feedback project_type reference : DurableMemoryType

pub data DurableMemoryStatus : Type 0 where
  active stale superseded contradicted archived : DurableMemoryStatus

abbrev pub scope_as_str : MemoryScope → Text
scope_as_str session = text "session"
scope_as_str project = text "project"
scope_as_str global = text "global"

abbrev pub type_as_str : DurableMemoryType → Text
type_as_str user = text "user"
type_as_str feedback = text "feedback"
type_as_str project_type = text "project"
type_as_str reference = text "reference"

abbrev pub status_as_str : DurableMemoryStatus → Text
status_as_str active = text "active"
status_as_str stale = text "stale"
status_as_str superseded = text "superseded"
status_as_str contradicted = text "contradicted"
status_as_str archived = text "archived"

abbrev pub scope_beq : MemoryScope → MemoryScope → Bool
scope_beq session session = true
scope_beq project project = true
scope_beq global global = true
scope_beq _ _ = false

pub scope_beq_iff : (a b : MemoryScope) → (scope_beq a b ≡ true) ↔ (a ≡ b)
scope_beq_iff session b = (λ h. ground arith, λ h. ground arith)
scope_beq_iff project b = (λ h. ground arith, λ h. ground arith)
scope_beq_iff global b = (λ h. ground arith, λ h. ground arith)

abbrev pub type_beq : DurableMemoryType → DurableMemoryType → Bool
type_beq user user = true
type_beq feedback feedback = true
type_beq project_type project_type = true
type_beq reference reference = true
type_beq _ _ = false

pub type_beq_iff : (a b : DurableMemoryType) → (type_beq a b ≡ true) ↔ (a ≡ b)
type_beq_iff a b = (λ h. ground arith, λ h. ground arith)

abbrev pub status_beq : DurableMemoryStatus → DurableMemoryStatus → Bool
status_beq active active = true
status_beq stale stale = true
status_beq superseded superseded = true
status_beq contradicted contradicted = true
status_beq archived archived = true
status_beq _ _ = false

pub status_beq_iff : (a b : DurableMemoryStatus) → (status_beq a b ≡ true) ↔ (a ≡ b)
status_beq_iff a b = (λ h. ground arith, λ h. ground arith)

instance abbrev pub scope_eq : Eq MemoryScope
scope_eq = record { beq = scope_beq; beq_iff = scope_beq_iff }

instance abbrev pub type_eq : Eq DurableMemoryType
type_eq = record { beq = type_beq; beq_iff = type_beq_iff }

instance abbrev pub status_eq : Eq DurableMemoryStatus
status_eq = record { beq = status_beq; beq_iff = status_beq_iff }
