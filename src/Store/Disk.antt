-- ===== src/Store/Disk.antt =====
-- The state of a store. Text files are kept by their paths; a derived artifact and an audit line are
-- kept as the values that the source serializes. Reading and writing a file does not fail here.
use jiandu.Prelude.{
  ℕ, suc, ◌≡◌, ◌≢◌, refl, sym, ◌∙◌, Bool, List, [], ◌∷◌, ◌++◌, Option, none, some, if◌then◌else◌,
  is_some, Bool-cases, inl, inr,
}
use jiandu.Prelude.Classes.{◌=?◌, nat_eq, list_eq, beq_refl, beq_ne}
use jiandu.Result.{Result, ok, err}
use jiandu.Text.{Text}
use jiandu.Unicode.{Unicode}
use jiandu.Float.{Float}
use jiandu.Types.{MemoryScope, DurableMemoryFrontmatter, SessionState, AccessLogEntry}
use jiandu.Index.{LexicalIndex, RecentIndex, GraphIndex, StaleCandidatesIndex, TaxonomyIndex}
use jiandu.Document.{Yaml}
use jiandu.Paths.{PathBuf, MemoryPathResolver}

-- The metadata, JSON for people, is left out.
pub record AuditLogEntry : Type 0 where
  pub timestamp : Text
  pub action : Text
  pub scope : MemoryScope
  pub memory_id : Option Text
  pub session_id : Option Text
  pub topic : Option Text
  pub summary : Text

pub record ScopeGeneration : Type 0 where
  pub generation : Text
  pub topic_count : ℕ

pub data Artifact : Type 0 where
  lexical : LexicalIndex → Artifact
  recent : RecentIndex → Artifact
  graph : GraphIndex → Artifact
  stale_candidates : StaleCandidatesIndex → Artifact
  taxonomy : TaxonomyIndex → Artifact
  view : Text → Artifact
  schema_version : ℕ → Artifact
  last_reindex : Text → ℕ → Artifact
  scope_generation : ScopeGeneration → Artifact
  session_state : SessionState → Artifact
  access_log : List AccessLogEntry → Artifact

-- `readings` counts how often the clock has been read.
pub record Disk : Type 0 where
  pub files : List (PathBuf × Text)
  pub artifacts : List (PathBuf × Artifact)
  pub logs : List (PathBuf × AuditLogEntry)
  pub readings : ℕ

-- What a store is made with, and the libraries that it calls: serde_yaml, chrono, the clock (an
-- instant is a number of nanoseconds after `MIN_UTC`), the hash of a memory id, SHA-256, and the bytes
-- that serde_json makes of an access log.
pub record Env : Type 1 where
  pub resolver : MemoryPathResolver
  pub unicode : Unicode
  pub float : Float
  pub yaml : Yaml DurableMemoryFrontmatter
  pub parse_rfc3339 : Text → Option ℕ
  pub clock : ℕ → ℕ
  pub to_rfc3339 : ℕ → Text
  pub to_id_timestamp : ℕ → Text
  pub hash_hex : MemoryScope → Option Text → Text → Text → ℕ → Text
  pub sha256_hex : Text → Text
  pub access_log_size : List AccessLogEntry → ℕ

module _ {ℓ} {V : Type ℓ} where
  unfoldable pub find_path : PathBuf → List (PathBuf × V) → Option V
  find_path p [] = none
  find_path p ((q, v) ∷ files) = if q =? p then some v else find_path p files

  unfoldable pub set_path : PathBuf → V → List (PathBuf × V) → List (PathBuf × V)
  set_path p v [] = (p, v) ∷ []
  set_path p v ((q, w) ∷ files) = if q =? p then (q, v) ∷ files else (q, w) ∷ set_path p v files

  unfoldable pub remove_path : PathBuf → List (PathBuf × V) → List (PathBuf × V)
  remove_path p [] = []
  remove_path p ((q, v) ∷ files) =
      if q =? p then remove_path p files else (q, v) ∷ remove_path p files

  pub find-set_same :
      (p : PathBuf) (v : V) (files : List (PathBuf × V)) → find_path p (set_path p v files) ≡ some v
  unfolding find_path set_path
  find-set_same p v [] = rw (beq_refl p) refl
  find-set_same p v ((q, w) ∷ files) = elim (Bool-cases (q =? p)) [
    | inl e ↦ rw (e, find_path) (rw e refl)
    | inr e ↦ rw (e, find_path) (rw e (find-set_same p v files))
  ]

  pub find-set_other :
      (p q : PathBuf) (v : V) (files : List (PathBuf × V))
      → p ≢ q
      → find_path q (set_path p v files) ≡ find_path q files
  unfolding find_path set_path
  find-set_other p q v [] n = rw (beq_ne p q n) refl
  find-set_other p q v ((r, w) ∷ files) n = elim (Bool-cases (r =? p)) [
    | inl e ↦
        rw (e, find_path) (rw (beq_ne r q (λ f. n (sym ((list_eq.beq_iff r p).0 e) ∙ f))) refl)
    | inr e ↦ elim (Bool-cases (r =? q)) [
      | inl f ↦ rw (e, find_path) (rw f refl)
      | inr f ↦ rw (e, find_path) (rw f (find-set_other p q v files n))
    ]
  ]

module _ {ℓ} {V : Type ℓ} where
  pub find-remove_same :
      (p : PathBuf) (files : List (PathBuf × V)) → find_path p (remove_path p files) ≡ none
  unfolding find_path remove_path
  find-remove_same p [] = refl
  find-remove_same p ((q, v) ∷ files) = elim (Bool-cases (q =? p)) [
    | inl e ↦ rw (e, remove_path) (find-remove_same p files)
    | inr e ↦ rw (e, remove_path) (rw e (find-remove_same p files))
  ]

  pub find-remove_other :
      (p q : PathBuf) (files : List (PathBuf × V))
      → p ≢ q
      → find_path q (remove_path p files) ≡ find_path q files
  unfolding find_path remove_path
  find-remove_other p q [] n = refl
  find-remove_other p q ((r, v) ∷ files) n = elim (Bool-cases (r =? p)) [
    | inl e ↦
        rw (e, remove_path)
          (rw (beq_ne r q (λ f. n (sym ((list_eq.beq_iff r p).0 e) ∙ f)))
            (find-remove_other p q files n))
    | inr e ↦ elim (Bool-cases (r =? q)) [
      | inl f ↦ rw (e, remove_path) (rw f refl)
      | inr f ↦ rw (e, remove_path) (rw f (find-remove_other p q files n))
    ]
  ]

-- A step of a store: a result, and the disk after it, also where the result is an error.
abbrev pub Action : Type 0 → Type 0
Action A = Disk → Result A × Disk

abbrev pub next : {A B : Type 0} → Result A × Disk → (A → Action B) → Result B × Disk
next (ok a, d) f = f a d
next (err e, d) f = (err e, d)

-- If the whole succeeds, so does its first part.
pub next-eq-ok :
    {A B : Type 0} (r : Result A × Disk) (f : A → Action B) {b : B} {d' : Disk}
    → next r f ≡ (ok b, d')
    → (a : A) × (d : Disk) × (r ≡ (ok a, d)) × (f a d ≡ (ok b, d'))
next-eq-ok (ok a, d) f h = (a, d, refl, h)
next-eq-ok (err e, d) f h = cc

-- The same for a first part that leaves the disk alone.
pub lift-eq-ok :
    {A B : Type 0} (r : Result A) (d : Disk) (f : A → Action B) {b : B} {d' : Disk}
    → next (r, d) f ≡ (ok b, d')
    → (a : A) × (r ≡ ok a) × (f a d ≡ (ok b, d'))
lift-eq-ok (ok a) d f h = (a, refl, h)
lift-eq-ok (err e) d f h = cc

infixl 5 ◌>>=◌ ◌>>◌
abbrev pub ◌>>=◌ : {A B : Type 0} → Action A → (A → Action B) → Action B
(m >>= f) d = next (m d) f

abbrev pub ◌>>◌ : {B : Type 0} → Action (Unit {0}) → Action B → Action B
(m >> k) d = next (m d) (λ _. k)

abbrev pub return : {A : Type 0} → A → Action A
return a d = (ok a, d)

abbrev pub lift : {A : Type 0} → Result A → Action A
lift r d = (r, d)

-- The current contents of a file, if it exists.
abbrev pub read_file : PathBuf → Action (Option Text)
read_file p d = (ok (find_path p d.files), d)

abbrev pub exists_file : PathBuf → Action Bool
exists_file p d = (ok (is_some (find_path p d.files)), d)

abbrev pub atomic_write : PathBuf → Text → Action (Unit {0})
atomic_write p t d = (ok tt, record d { files = set_path p t d.files })

abbrev pub remove_file : PathBuf → Action (Unit {0})
remove_file p d = (ok tt, record d { files = remove_path p d.files })

-- What the file of an artifact has, if it exists.
abbrev pub read_artifact : PathBuf → Action (Option Artifact)
read_artifact p d = (ok (find_path p d.artifacts), d)

abbrev pub write_artifact : PathBuf → Artifact → Action (Unit {0})
write_artifact p a d = (ok tt, record d { artifacts = set_path p a d.artifacts })

abbrev pub append_log : PathBuf → AuditLogEntry → Action (Unit {0})
append_log p e d = (ok tt, record d { logs = d.logs ++ (p, e) ∷ [] })

abbrev pub read_clock : Env → Action ℕ
read_clock env d = (ok (env.clock d.readings), record d { readings = suc d.readings })

abbrev pub now_rfc3339 : Env → Action Text
now_rfc3339 env = read_clock env >>= λ t. return (env.to_rfc3339 t)

-- `let Some(a) = .. else { return Ok(None) }`
abbrev pub found_or_none : {A B : Type 0} → (A → Action (Option B)) → Option A → Action (Option B)
found_or_none f none = return none
found_or_none f (some a) = f a
