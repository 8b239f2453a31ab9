-- ===== src/Tests.antt =====
-- Concrete parameters and records for the tests.
pub mod Texts
pub mod Ranks
pub mod Terms
pub mod Stores
pub mod Kept
pub mod Dreams
pub mod Accesses
pub mod Fs
pub mod Barriers
pub mod Calls
pub mod Searches
pub mod Capacities
pub mod Allocations
use jiandu.Prelude.Classes.{◌=?◌, nat_eq, list_eq}
use jiandu.Prelude.{
  ◌++◌, ℕ, ◌+◌, ◌-◌, ◌*◌, ◌||◌, List, [], ◌∷◌, Option, none, some, max, map, length, compare,
  if◌then◌else◌,
}
use jiandu.Text.{Text, text, to_ascii_lowercase, is_ascii_digit, between}
use jiandu.Unicode.{Unicode}
use jiandu.Float.{Float}
use jiandu.Types.{
  project, user, active, stale, archived, status_as_str, DurableMemoryDocument, DurableMemoryStatus,
  DurableMemoryFrontmatter, CreatedBy,
}
use jiandu.Document.{Yaml}
use jiandu.Paths.{from_data_dir}
use jiandu.Store.Disk.{Env, Disk}
use jiandu.Index.{LexicalIndex, LexicalIndexItem}

-- ASCII alone.
abbrev pub ascii_unicode : Unicode
ascii_unicode = record {
  nfkc = λ t. t;
  is_alphanumeric = λ c. is_ascii_digit c || between b'a' b'z' c || between b'A' b'Z' c;
  char_to_lowercase = λ c. to_ascii_lowercase c ∷ [];
  str_to_lowercase = map to_ascii_lowercase;
}

-- Whole numbers for floats.
abbrev pub whole_float : Float
whole_float = record {
  F = ℕ;
  lit = λ n d. n;
  of_ℕ = λ n. n;
  add = λ a b. a + b;
  sub = λ a b. a - b;
  mul = λ a b. a * b;
  div = λ a b. a;
  maximum = max;
  ln = λ a. a;
  sqrt = λ a. a;
  powf = λ a b. a;
  round = λ a. a;
  epsilon = 1;
  partial_cmp = λ a b. some (compare a b);
}

abbrev pub no_time : Text → Option ℕ
no_time t = none

abbrev pub sample_item : Text → Text → DurableMemoryStatus → LexicalIndexItem
sample_item id title status = record {
  id = id;
  title = title;
  scope = project;
  project_key = some (text "p");
  memory_type = user;
  status = status;
  tags = [];
  keywords = [];
  entities = [];
  updated_at = [];
  created_at = [];
  summary = [];
  granularity = none;
}

abbrev pub sample_index : LexicalIndex
sample_index = record {
  generated_at = [];
  items =
      sample_item (text "a") (text "red fox") active
      ∷ sample_item (text "b") (text "red dog") archived
      ∷ sample_item (text "c") (text "dog red red") stale
      ∷ [];
}

abbrev pub sample_creator : CreatedBy
sample_creator = record { kind = text "tool"; id = none; actor = none }

abbrev pub sample_frontmatter : Text → DurableMemoryFrontmatter
sample_frontmatter id = record {
  id = id;
  title = text "red fox";
  memory_type = user;
  scope = project;
  project_key = some (text "p");
  granularity = none;
  status = active;
  freshness = none;
  confidence = none;
  created_at = [];
  updated_at = [];
  created_by = sample_creator;
  updated_by = sample_creator;
  sources = [];
  relations = record { supersedes = []; contradicted_by = []; related = [] };
  tags = [];
  retrieval = record { keywords = []; entities = []; last_accessed_at = none };
}

abbrev pub archived_frontmatter : DurableMemoryFrontmatter
archived_frontmatter = record (sample_frontmatter (text "m1")) {
  status = archived;
  updated_by = record { kind = text "memory_purge"; id = none; actor = some (text "main-model") };
}

-- A printer that shows the status alone, and knows two frontmatters.
abbrev pub status_yaml : Yaml DurableMemoryFrontmatter
status_yaml = record {
  to_string = λ fm. some (text "status: " ++ (status_as_str fm.status ++ text "\n"));
  from_str = λ t.
      if t =? text "status: archived"
      then some archived_frontmatter
      else some (sample_frontmatter (text "m1"));
}

abbrev pub sample_env : Env
sample_env = record {
  resolver = from_data_dir (text "data" ∷ []);
  unicode = ascii_unicode;
  float = whole_float;
  yaml = status_yaml;
  parse_rfc3339 = λ t. some 0;
  clock = λ n. 1000000000000000;
  to_rfc3339 = λ n. [];
  to_id_timestamp = λ n. text "t";
  hash_hex = λ scope key title timestamp counter. text "h";
  sha256_hex = λ t. text "d";
  access_log_size = length;
}

abbrev pub sample_path : List Text
sample_path =
    text "data"
    ∷ text "memory"
    ∷ text "v1"
    ∷ text "scopes"
    ∷ text "projects"
    ∷ text "p"
    ∷ text "topics"
    ∷ text "m1.md"
    ∷ []

abbrev pub empty_disk : Disk
empty_disk = record { files = []; artifacts = []; logs = []; readings = 0 }

abbrev pub sample_disk : Disk
sample_disk = record {
  files = (sample_path, text "---\nstatus: active\n---\n\nThe fox.\n") ∷ [];
  artifacts = [];
  logs = [];
  readings = 0;
}

abbrev pub sample_document : DurableMemoryDocument
sample_document = record {
  frontmatter = sample_frontmatter (text "m1");
  body = text "The fox.";
  path = sample_path;
}
