-- ===== src/Handler/Response.antt =====
-- What the handler answers: the results that its JSON is made of, without the arguments that the JSON
-- repeats; and the options of a call.
use jiandu.Prelude.{
  ℕ, Bool, false, List, [], ◌∷◌, ◌++◌, Option, none, some, ltb, if◌then◌else◌, length, is_some, min,
  unwrap_or,
}
use jiandu.Prelude.Classes.{nat_eq, list_eq, option_eq}
use jiandu.Result.{other}
use jiandu.Text.{Text, text}
use jiandu.Types.{
  DurableMemoryType, DurableMemoryDocument, DreamSnapshot, DreamReadResult, MemoryRetrievalInput,
}
use jiandu.Terms.{truncate_chars}
use jiandu.Context.{execution, MemoryResult, failed, done}
use jiandu.Handler.{max_session_note_chars, parse_type, parse_some, collect}
use jiandu.Args.{MemoryActionOptions, WriteOptions, SplitPiece, Hints}
use jiandu.Store.Merge.{MemoryMergeResult, MemorySplitPiece, MemorySplitResult}
use jiandu.Store.Status.{MemoryPurgeResult, MemoryContradictionResult}
use jiandu.Store.Consolidate.{MemoryConsolidateResult}
use jiandu.Search.{MemoryQueryOptions, MemoryQueryResult, max_query_limit, max_max_chars}
use jiandu.Gardener.Scans.{MemoryDuplicateCandidate, BlobScanReport}
use jiandu.Gardener.Clusters.{DuplicateScanReport}
use jiandu.Gardener.Inspect.{MemoryInspectResult}

pub record Note : Type 0 where
  pub topic : Text
  pub exists : Bool
  pub content : Text
  pub length_chars : ℕ
  pub body_truncated : Bool
  pub max_chars : ℕ

pub record Fetched : Type 0 where
  pub memory : DurableMemoryDocument
  pub body_truncated : Bool
  pub retrieval_metadata_truncated : Bool

-- What the answer of each action is made of.
pub data Response (F : Type 0) : Type 0 where
  note_read : Note → Response F
  note_written : Text → List Text → ℕ → Response F
  note_cleared : Text → Bool → Response F
  topics : List Text → Response F
  queried : MemoryQueryResult F → Response F
  fetched : Fetched → Response F
  dream : DreamReadResult → Response F
  published : DreamSnapshot → Response F
  written : DurableMemoryDocument → Response F
  merged : MemoryMergeResult → Response F
  contradicted : MemoryContradictionResult → Response F
  split_up : MemorySplitResult → Response F
  duplicates : List (MemoryDuplicateCandidate F) → Response F
  blobs : BlobScanReport → Response F
  clusters : DuplicateScanReport F → Response F
  consolidated : MemoryConsolidateResult → Response F
  purged : DurableMemoryDocument → Response F
  purged_all : MemoryPurgeResult → Response F
  inspection : MemoryInspectResult → Response F

abbrev pub option_field {ℓ} :
    {A : Type ℓ} → (MemoryActionOptions → Option A) → Option MemoryActionOptions → Option A
option_field field none = none
option_field field (some options) = field options

abbrev pub map_some {ℓ} : {A : Type ℓ} → (A → A) → Option A → Option A
map_some f none = none
map_some f (some a) = some (f a)

abbrev pub max_chars_of : Option MemoryActionOptions → Option ℕ
max_chars_of options = option_field (λ (o : MemoryActionOptions). o.max_chars) options

abbrev pub limit_of : Option MemoryActionOptions → Option ℕ
limit_of options = option_field (λ (o : MemoryActionOptions). o.limit) options

abbrev pub query_options : Option MemoryActionOptions → MemoryQueryOptions
query_options options = record {
  limit = map_some (λ n. min n max_query_limit) (limit_of options);
  max_chars = map_some (λ n. min n max_max_chars) (max_chars_of options);
  cursor = option_field (λ (o : MemoryActionOptions). o.cursor) options;
  include_related =
      unwrap_or (option_field (λ (o : MemoryActionOptions). o.include_related) options) false;
}

abbrev pub retrieval_of : Hints → MemoryRetrievalInput
retrieval_of hints = record { keywords = hints.keywords; entities = hints.entities }

abbrev pub allows_merge : Option WriteOptions → Bool
allows_merge none = false
allows_merge (some options) = unwrap_or options.allow_merge_if_similar false

abbrev pub note_of : Text → ℕ → Option Text → Note
note_of topic max_chars content =
    let body = unwrap_or content [] in
    let cut = truncate_chars body max_chars in
    record {
      topic = topic;
      exists = is_some content;
      content = cut.0;
      length_chars = length body;
      body_truncated = cut.1;
      max_chars = max_chars;
    }

abbrev pub too_large : Text → MemoryResult (Unit {0})
too_large note =
    if ltb max_session_note_chars (length note) then failed (execution other) else done tt

abbrev pub joined : Text → Text → Text
joined [] content = content
joined (c ∷ note) content = (c ∷ note) ++ (text "\n\n" ++ content)

abbrev pub parse_split_pieces :
    List SplitPiece → MemoryResult (List (MemorySplitPiece × MemoryRetrievalInput))
parse_split_pieces pieces = collect parse_piece pieces
  where
    with_type :
        SplitPiece
        → MemoryResult (Option DurableMemoryType)
        → MemoryResult (MemorySplitPiece × MemoryRetrievalInput)
    with_type piece (failed e) = failed e
    with_type piece (done memory_type) = done (
      record {
        title = piece.title;
        content = piece.content;
        memory_type = memory_type;
        tags = piece.tags;
      },
      record { keywords = piece.keywords; entities = piece.entities },
    )

    parse_piece : SplitPiece → MemoryResult (MemorySplitPiece × MemoryRetrievalInput)
    parse_piece piece = with_type piece (parse_some parse_type piece.memory_type)
