-- ===== src/Store/Write.antt =====
-- `write_memory_with_retrieval_and_source_range` and `find_similar_memory`: a write appends to a near
-- duplicate, or makes a new memory, linked to the related ones.
pub mod Accretion
use jiandu.Prelude.{
  ℕ, ◌+◌, Bool, not, ◌&&◌, ◌||◌, List, [], ◌∷◌, ◌++◌, Option, none, some, ltb, leb, if◌then◌else◌,
  length, take, filter, map, is_some, is_empty, unwrap_or, find,
}
use jiandu.Prelude.Classes.{◌=?◌, nat_eq, list_eq, contains}
use jiandu.Prelude.Sort.{sort_by, not_after}
use jiandu.Result.{Result, ok, invalid_input, fail_if}
use jiandu.Result.{◌>>=◌ as ◌then◌, ◌>>◌ as ◌after◌}
use jiandu.Text.{Text, text, trim, contains_text}
use jiandu.Float.{ge, cmp_or_equal}
use jiandu.Types.{
  MemoryScope, project, global, session, DurableMemoryType, active, status_beq, type_beq,
  TemporalGranularity, DurableMemorySource, DurableMemoryDocument, DurableMemoryFrontmatter,
  MemoryRetrievalInput, source_eq,
}
use jiandu.Validate.{validate_memory_id, validate_memory_title, validate_session_id}
use jiandu.Terms.{
  normalize_tags, retrieval_keywords, retrieval_keywords_preserving, retrieval_entities,
  retrieval_entities_preserving, sanitize_component,
}
use jiandu.Lexical.Bm25.{field_weighted_bag}
use jiandu.Lexical.Similarity.{SimilarityCorpus, build_similarity, cosine}
use jiandu.Paths.{topic_path}
use jiandu.Store.Disk.{Env, Action, ◌>>=◌, ◌>>◌, return, lift, now_rfc3339}
use jiandu.Store.Locate.{
  require_project_key, list_memory_documents, write_document, append_audit, allocate_memory_id,
}
use jiandu.Store.Artifacts.{refresh_scope_artifacts}
use jiandu.Store.Status.{updater, audit_entry}
use jiandu.Store.Limits.{
  max_durable_memory_body_chars, max_durable_memory_source_items, projected_merged_body_chars,
  append_section, merged_source_coverage_fits, add_sources,
}

abbrev pub write_audit_log : Text
write_audit_log = text "write_audit.jsonl"

abbrev pub merge_audit_log : Text
merge_audit_log = text "merge_audit.jsonl"

abbrev pub max_related_links : ℕ
max_related_links = 3

pub data WriteSimilarity : Type 0 where
  merge : DurableMemoryDocument → WriteSimilarity
  relate : List Text → WriteSimilarity
  unrelated : WriteSimilarity

-- The arguments of a write, after scope and project.
pub record WriteRequest : Type 0 where
  pub memory_type : DurableMemoryType
  pub title : Text
  pub content : Text
  pub tags : List Text
  pub retrieval : MemoryRetrievalInput
  pub session_id : Option Text
  pub actor : Text
  pub allow_merge_if_similar : Bool
  pub granularity : Option TemporalGranularity
  pub message_range : List Text

-- A write whose arguments have been checked.
pub record CheckedWrite : Type 0 where
  pub project_key : Option Text
  pub session_id : Option Text
  pub title : Text
  pub content : Text
  pub tags : List Text
  pub sources : List DurableMemorySource

-- Each message id is canonical and new.
unfoldable pub check_message_ids : List Text → List Text → Result (Unit {0})
check_message_ids seen [] = ok tt
check_message_ids seen (message_id ∷ message_ids) = validate_memory_id message_id then λ valid.
    fail_if (not (valid =? message_id) || contains seen message_id) invalid_input
    after check_message_ids (seen ++ message_id ∷ []) message_ids

abbrev pub checked_session : Option Text → Result (Option Text)
checked_session none = ok none
checked_session (some id) = validate_session_id id then λ u. ok (some u)

abbrev pub session_sources : Option Text → List Text → List DurableMemorySource
session_sources none message_range = []
session_sources (some id) message_range =
    record { kind = text "session"; id = id; message_range = message_range } ∷ []

module _ (env : Env) where
  open env.float use {F, lit}

  unfoldable pub check_write : MemoryScope → Option Text → WriteRequest → Result CheckedWrite
  check_write scope project_key request = checked_session request.session_id then λ session_id.
      fail_if
        (ltb max_durable_memory_source_items (length request.message_range)
          || (not (is_empty request.message_range) && not (is_some session_id)))
        invalid_input
      after check_message_ids [] request.message_range
      after (require_project_key env scope project_key then λ key.
          validate_memory_title request.title then λ title.
          fail_if (is_empty (trim request.content)) invalid_input
          after ok (record {
            project_key = key;
            session_id = session_id;
            title = title;
            content = trim request.content;
            tags = normalize_tags env.unicode request.tags;
            sources = session_sources session_id request.message_range;
          }))

  abbrev pub document_bag : DurableMemoryDocument → List (Text × F)
  document_bag doc =
      field_weighted_bag env.unicode env.float doc.frontmatter.title
        doc.frontmatter.retrieval.keywords doc.frontmatter.tags doc.frontmatter.retrieval.entities
        doc.body

  -- The variables of the loop over the candidates.
  pub record Ranked : Type 0 where
    pub best_merge : Option (F × DurableMemoryDocument)
    pub related : List (F × Text)

  abbrev better :
      F
      → DurableMemoryDocument
      → Option (F × DurableMemoryDocument)
      → Option (F × DurableMemoryDocument)
  better sim doc none = some (sim, doc)
  better sim doc (some (best, old)) =
      if ge env.float best sim then some (best, old) else some (sim, doc)

  unfoldable pub rank_candidate : F → DurableMemoryDocument → Ranked → Ranked
  rank_candidate sim doc r =
      if ge env.float sim (lit 6 10)
      then record r { best_merge = better sim doc r.best_merge }
      else if ge env.float sim (lit 3 10)
      then record r { related = r.related ++ (sim, doc.frontmatter.id) ∷ [] }
      else r

  rank_candidates :
      SimilarityCorpus → List (Text × F) → List DurableMemoryDocument → Ranked → Ranked
  rank_candidates corpus incoming [] r = r
  rank_candidates corpus incoming (doc ∷ docs) r =
      rank_candidates corpus incoming docs
        (rank_candidate (cosine env.float corpus incoming (document_bag doc)) doc r)

  abbrev related_ids : List (F × Text) → List Text
  related_ids [] = []
  related_ids ((sim, id) ∷ related) = id ∷ related_ids related

  abbrev similarity_of : Ranked → WriteSimilarity
  similarity_of r = elim r.best_merge [
    | some (sim, doc) ↦ merge doc
    | none ↦
        if is_empty r.related
        then unrelated
        else relate (
            related_ids (
              take max_related_links
                (sort_by (λ a b. not_after (cmp_or_equal env.float b.0 a.0)) r.related)))
  ]

  unfoldable pub classify :
      CheckedWrite → WriteRequest → List DurableMemoryDocument → WriteSimilarity
  unfolding rank_candidates sort_by
  classify checked request docs =
      let incoming =
        field_weighted_bag env.unicode env.float checked.title
          (retrieval_keywords env.unicode checked.title checked.content checked.tags
            request.retrieval.keywords)
          checked.tags
          (retrieval_entities env.unicode checked.title checked.content request.retrieval.entities)
          checked.content in
      let corpus = build_similarity env.float (incoming ∷ map document_bag docs) in
      similarity_of
        (rank_candidates corpus incoming docs (record { best_merge = none; related = [] }))

  -- The exact title first, then the exact body, then the similarity.
  abbrev choose :
      List DurableMemoryDocument
      → CheckedWrite
      → WriteRequest
      → Option DurableMemoryDocument
      → Option DurableMemoryDocument
      → WriteSimilarity
  choose docs checked request (some exact) dup = merge exact
  choose docs checked request none (some dup) = merge dup
  choose docs checked request none none =
      if is_empty docs then unrelated else classify checked request docs

  unfoldable pub find_similar_memory :
      MemoryScope → CheckedWrite → WriteRequest → Action WriteSimilarity
  find_similar_memory scope checked request = do
    all_docs ← list_memory_documents env scope checked.project_key
    let docs =
        filter
          (λ doc.
            status_beq doc.frontmatter.status active
            && type_beq doc.frontmatter.memory_type request.memory_type)
          all_docs
    let exact =
        find (λ doc. sanitize_component doc.frontmatter.title =? sanitize_component checked.title)
          docs
    let dup = find (λ doc. trim doc.body =? checked.content) docs
    return (choose docs checked request exact dup)

  -- Whether the content may be appended to the memory found.
  unfoldable pub can_merge : DurableMemoryDocument → CheckedWrite → Bool
  can_merge existing checked =
      (contains_text checked.content existing.body
        || leb (projected_merged_body_chars existing.body checked.content)
            max_durable_memory_body_chars)
      && merged_source_coverage_fits existing.frontmatter.sources checked.sources

  -- The memory with the content appended, unless it is there.
  unfoldable pub merged_document :
      DurableMemoryDocument → CheckedWrite → WriteRequest → Text → DurableMemoryDocument
  merged_document existing checked request now =
      let already_present = contains_text checked.content existing.body in
      let fm = existing.frontmatter in
      let body =
        if already_present then existing.body else append_section existing.body checked.content in
      let tags = normalize_tags env.unicode (fm.tags ++ checked.tags) in
      record existing {
        body = body;
        frontmatter = record fm {
          confidence = if already_present then fm.confidence else none;
          sources = add_sources fm.sources checked.sources;
          updated_at = now;
          updated_by = updater (text "memory_write") request.actor;
          tags = tags;
          retrieval = record fm.retrieval {
            keywords =
                retrieval_keywords_preserving env.unicode fm.title body tags
                  request.retrieval.keywords fm.retrieval.keywords;
            entities =
                retrieval_entities_preserving env.unicode fm.title body request.retrieval.entities
                  fm.retrieval.entities;
          };
        };
      }

  abbrev pub owned_key : MemoryScope → Option Text → Option Text
  owned_key project key = some (unwrap_or key (text "unknown"))
  owned_key global key = none
  owned_key session key = none

  unfoldable pub new_frontmatter :
      MemoryScope → CheckedWrite → WriteRequest → List Text → Text → Text → DurableMemoryFrontmatter
  new_frontmatter scope checked request related_ids id now = record {
    id = id;
    title = checked.title;
    memory_type = request.memory_type;
    scope = scope;
    project_key = owned_key scope checked.project_key;
    granularity = request.granularity;
    status = active;
    freshness = some (text "high");
    confidence = none;
    created_at = now;
    updated_at = now;
    created_by = record { kind = text "session"; id = checked.session_id; actor = none };
    updated_by = updater (text "memory_write") request.actor;
    sources = checked.sources;
    relations = record { supersedes = []; contradicted_by = []; related = related_ids };
    tags = checked.tags;
    retrieval = record {
      keywords =
          retrieval_keywords env.unicode checked.title checked.content checked.tags
            request.retrieval.keywords;
      entities =
          retrieval_entities env.unicode checked.title checked.content request.retrieval.entities;
      last_accessed_at = none;
    };
  }

  unfoldable pub merge_existing :
      MemoryScope
      → CheckedWrite
      → WriteRequest
      → DurableMemoryDocument
      → Action DurableMemoryDocument
  merge_existing scope checked request existing = do
    now ← now_rfc3339 env
    let doc = merged_document existing checked request now
    write_document env doc
    logged ← now_rfc3339 env
    append_audit env scope checked.project_key merge_audit_log (
        audit_entry logged (text "merge") scope (some doc.frontmatter.id) checked.session_id (
          text "Merged new content into existing memory '" ++ (doc.frontmatter.title ++ text "'.")))
    refresh_scope_artifacts env scope checked.project_key
    return doc

  unfoldable pub create_memory :
      MemoryScope → CheckedWrite → WriteRequest → List Text → Action DurableMemoryDocument
  create_memory scope checked request related_ids = do
    id ← allocate_memory_id env scope checked.project_key checked.title
    now ← now_rfc3339 env
    path ← lift (topic_path env.resolver scope checked.project_key id)
    let doc : DurableMemoryDocument = record {
      frontmatter = new_frontmatter scope checked request related_ids id now;
      body = checked.content;
      path = path;
    }
    write_document env doc
    logged ← now_rfc3339 env
    append_audit env scope checked.project_key write_audit_log (
        audit_entry logged (text "write") scope (some id) checked.session_id
          (text "Created durable memory '" ++ (checked.title ++ text "'.")))
    refresh_scope_artifacts env scope checked.project_key
    return doc

  unfoldable pub write_similar :
      MemoryScope → CheckedWrite → WriteRequest → WriteSimilarity → Action DurableMemoryDocument
  write_similar scope checked request (merge existing) =
      if can_merge existing checked
      then merge_existing scope checked request existing
      else create_memory scope checked request (existing.frontmatter.id ∷ [])
  write_similar scope checked request (relate ids) = create_memory scope checked request ids
  write_similar scope checked request unrelated = create_memory scope checked request []

  unfoldable pub write_memory_with_retrieval_and_source_range :
      MemoryScope → Option Text → WriteRequest → Action DurableMemoryDocument
  write_memory_with_retrieval_and_source_range scope project_key request = do
    checked ← lift (check_write scope project_key request)
    similarity ←
        (if request.allow_merge_if_similar
          then find_similar_memory scope checked request
          else return unrelated)
    write_similar scope checked request similarity
