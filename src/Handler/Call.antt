-- ===== src/Handler/Call.antt =====
-- A step of the handler: the result of a call, and the disk after it.
use jiandu.Prelude.{Option, none, some}
use jiandu.Prelude.Classes.{nat_eq, list_eq, option_eq}
use jiandu.Result.{Result, ok, err, not_found}
use jiandu.Context.{execution, MemoryResult, failed, done}
use jiandu.Store.Disk.{Disk, Action}

-- A step of the handler.
abbrev pub Call : Type 0 → Type 0
Call A = Disk → MemoryResult A × Disk

abbrev pub next : {A B : Type 0} → MemoryResult A × Disk → (A → Call B) → MemoryResult B × Disk
next (failed e, d) f = (failed e, d)
next (done a, d) f = f a d

infixl 5 ◌>>=◌ ◌>>◌
abbrev pub ◌>>=◌ : {A B : Type 0} → Call A → (A → Call B) → Call B
(m >>= f) d = next (m d) f

abbrev pub ◌>>◌ : {B : Type 0} → Call (Unit {0}) → Call B → Call B
(m >> k) d = next (m d) (λ u. k)

abbrev pub return : {A : Type 0} → A → Call A
return a d = (done a, d)

abbrev pub check : {A : Type 0} → MemoryResult A → Call A
check r d = (r, d)

abbrev pub executed : {A : Type 0} → Result A → MemoryResult A
executed (ok a) = done a
executed (err e) = failed (execution e)

-- `map_err(|error| execution(.., error))`
abbrev pub run : {A : Type 0} → Action A → Call A
run m d = (executed (m d).0, (m d).1)

-- `let Some(..) = .. else { return Err(..) }`
abbrev pub found : {A : Type 0} → Option A → MemoryResult A
found none = failed (execution not_found)
found (some a) = done a
