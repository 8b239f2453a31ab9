-- ===== src/Store/Merge.antt =====
-- `merge_memory_with_retrieval`, `split_memory_with_retrieval` and `mark_memory_contradicted`: the
-- operations that relate memories to each other.
pub mod Split
pub mod Kept
use jiandu.Prelude.{
  ◌+◌, Bool, true, false, not, ◌&&◌, ◌||◌, List, [], ◌∷◌, ◌++◌, Option, none, some, ltb, ◌==◌,
  if◌then◌else◌, length, filter, is_some, is_empty, unwrap_or,
}
use jiandu.Prelude.Classes.{◌=?◌, nat_eq, list_eq, contains}
use jiandu.Result.{Result, ok, err, invalid_input, fail_if, collect}
use jiandu.Result.{◌>>=◌ as ◌then◌, ◌>>◌ as ◌after◌}
use jiandu.Text.{Text, text, trim, contains_text}
use jiandu.Types.{
  MemoryScope, project, DurableMemoryType, active, superseded, contradicted, status_beq,
  DurableMemoryDocument, MemoryRetrievalInput,
}
use jiandu.Validate.{validate_memory_id, validate_memory_title}
use jiandu.Terms.{
  normalize_tags, retrieval_keywords, retrieval_keywords_preserving, retrieval_entities,
  retrieval_entities_preserving, insert_all,
}
use jiandu.Query.Cursor.{to_string}
use jiandu.Paths.{topic_path}
use jiandu.Store.Disk.{Env, Action, ◌>>=◌, ◌>>◌, return, lift, now_rfc3339, found_or_none}
use jiandu.Store.Locate.{
  get_memory, get_memory_at_locator, write_document, append_audit, allocate_memory_id,
}
use jiandu.Store.Artifacts.{refresh_scope_artifacts}
use jiandu.Store.Status.{
  updater, audit_entry, set_memory_status, with_status, contradiction_audit_log,
  MemoryContradictionResult,
}
use jiandu.Store.Limits.{max_durable_memory_body_chars, projected_merged_body_chars, append_section}
use jiandu.Store.Write.{merge_audit_log, owned_key}

pub record MemoryMergeResult : Type 0 where
  pub merged_id : Text
  pub target_scope : MemoryScope
  pub project_key : Option Text
  pub changed : Bool
  pub appended : Bool
  pub tags_updated : Bool
  pub superseded_ids : List Text
  pub path : List Text

pub record MemorySplitPiece : Type 0 where
  pub title : Text
  pub content : Text
  pub memory_type : Option DurableMemoryType
  pub tags : List Text

pub record MemorySplitResult : Type 0 where
  pub source_id : Text
  pub target_scope : MemoryScope
  pub project_key : Option Text
  pub new_ids : List Text

-- The other ids of a request, checked.
abbrev pub other_ids : Text → List Text → Result (List Text)
other_ids id values = collect validate_memory_id values then λ checked.
    ok (filter (λ value. not (value =? id)) checked)

-- The arguments of a merge after the ids.
pub record MergeRequest : Type 0 where
  pub content : Text
  pub tags : List Text
  pub retrieval : MemoryRetrievalInput
  pub session_id : Option Text
  pub actor : Text

-- A merge so far, with the flags of its result.
pub record Merged : Type 0 where
  pub doc : DurableMemoryDocument
  pub changed : Bool
  pub appended : Bool
  pub tags_updated : Bool

unfoldable pub check_piece : MemorySplitPiece → Result (Unit {0})
check_piece piece = validate_memory_title piece.title then λ title.
    fail_if (is_empty (trim piece.content)) invalid_input
    after fail_if (ltb max_durable_memory_body_chars (length (trim piece.content))) invalid_input

unfoldable pub check_pieces : List MemorySplitPiece → Result (Unit {0})
check_pieces [] = ok tt
check_pieces (piece ∷ pieces) = check_piece piece after check_pieces pieces

module _ (env : Env) where
  -- Appending the content, unless it is there; an append past the cap is refused.
  unfoldable pub merge_content : Text → DurableMemoryDocument → Result Merged
  merge_content content doc =
      if contains_text content doc.body
      then ok (record { doc = doc; changed = false; appended = false; tags_updated = false })
      else if ltb max_durable_memory_body_chars (projected_merged_body_chars doc.body content)
      then err invalid_input
      else ok (record {
        doc = record doc {
          frontmatter = record doc.frontmatter { confidence = none };
          body = append_section doc.body content;
        };
        changed = true;
        appended = true;
        tags_updated = false;
      })

  abbrev pub merge_tags : List Text → Merged → Merged
  merge_tags tags m =
      let normalized = normalize_tags env.unicode (m.doc.frontmatter.tags ++ tags) in
      if normalized =? m.doc.frontmatter.tags then m else record m {
        doc = record m.doc { frontmatter = record m.doc.frontmatter { tags = normalized } };
        changed = true;
        tags_updated = true;
      }

  -- `supersedes` becomes a set, in order, unless no source is named.
  abbrev pub merge_lineage : List Text → Merged → Merged
  merge_lineage source_ids m =
      let next_supersedes = insert_all [] (m.doc.frontmatter.relations.supersedes ++ source_ids) in
      if is_empty source_ids || next_supersedes =? m.doc.frontmatter.relations.supersedes
      then m
      else record m {
        doc = record m.doc {
          frontmatter = record m.doc.frontmatter {
            relations = record m.doc.frontmatter.relations { supersedes = next_supersedes };
          };
        };
        changed = true;
      }

  abbrev pub merge_stamp : MergeRequest → Text → DurableMemoryDocument → DurableMemoryDocument
  merge_stamp request now doc =
      let fm = doc.frontmatter in
      record doc {
        frontmatter = record fm {
          updated_at = now;
          updated_by = updater (text "memory_merge") request.actor;
          retrieval = record fm.retrieval {
            keywords =
                retrieval_keywords_preserving env.unicode fm.title doc.body fm.tags
                  request.retrieval.keywords fm.retrieval.keywords;
            entities =
                retrieval_entities_preserving env.unicode fm.title doc.body
                  request.retrieval.entities fm.retrieval.entities;
          };
        };
      }

  -- One source of a merge, where it exists.
  unfoldable pub supersede_found : Text → DurableMemoryDocument → Action (Unit {0})
  supersede_found actor source_doc =
      if status_beq source_doc.frontmatter.status superseded
      then return tt
      else (now_rfc3339 env >>= λ now.
          write_document env
            (with_status superseded now (updater (text "memory_merge") actor) source_doc))

  -- The loop over the sources: the ids of those that exist.
  unfoldable pub supersede_sources :
      MemoryScope → Option Text → Text → List Text → Action (List Text)
  supersede_sources scope key actor [] = return []
  supersede_sources scope key actor (source_id ∷ source_ids) =
      let rest = supersede_sources scope key actor source_ids in
      get_memory_at_locator env scope key source_id >>= λ found. elim found [
        | none ↦ rest
        | some source_doc ↦
            supersede_found actor source_doc >> (rest >>= λ ids. return (source_id ∷ ids))
      ]

  unfoldable pub merge_found :
      List Text → MergeRequest → DurableMemoryDocument → Action (Option MemoryMergeResult)
  merge_found source_ids request found = do
    lift (fail_if (is_empty (trim request.content)) invalid_input)
    content_merged ← lift (merge_content (trim request.content) found)
    let m = merge_lineage source_ids (merge_tags request.tags content_merged)
    now ← now_rfc3339 env
    let doc = merge_stamp request now m.doc
    write_document env doc
    superseded_ids ←
        supersede_sources doc.frontmatter.scope doc.frontmatter.project_key request.actor source_ids
    logged ← now_rfc3339 env
    append_audit env doc.frontmatter.scope doc.frontmatter.project_key merge_audit_log (
        audit_entry logged (text "merge") doc.frontmatter.scope (some doc.frontmatter.id)
          request.session_id
          (text "Merged content into memory '" ++ (doc.frontmatter.title ++ text "'.")))
    refresh_scope_artifacts env doc.frontmatter.scope doc.frontmatter.project_key
    return (
        some (record {
          merged_id = doc.frontmatter.id;
          target_scope = doc.frontmatter.scope;
          project_key = doc.frontmatter.project_key;
          changed = m.changed;
          appended = m.appended;
          tags_updated = m.tags_updated;
          superseded_ids = superseded_ids;
          path = doc.path;
        }))

  unfoldable pub merge_memory_with_retrieval :
      Text → Option Text → MergeRequest → List Text → Action (Option MemoryMergeResult)
  merge_memory_with_retrieval memory_id preferred request source_memory_ids = do
    id ← lift (validate_memory_id memory_id)
    source_ids ← lift (other_ids id source_memory_ids)
    resolved ← get_memory env id preferred
    found_or_none
        (λ doc.
          get_memory_at_locator env doc.frontmatter.scope doc.frontmatter.project_key id
          >>= found_or_none (merge_found source_ids request))
        resolved

  unfoldable pub piece_document :
      DurableMemoryDocument
      → MemorySplitPiece
      → MemoryRetrievalInput
      → Option Text
      → Text
      → Text
      → Text
      → Text
      → List Text
      → DurableMemoryDocument
  piece_document source piece retrieval session_id actor id now title path =
      let content = trim piece.content in
      let tags = normalize_tags env.unicode piece.tags in
      record {
        frontmatter = record {
          id = id;
          title = title;
          memory_type = unwrap_or piece.memory_type source.frontmatter.memory_type;
          scope = source.frontmatter.scope;
          project_key = owned_key env source.frontmatter.scope source.frontmatter.project_key;
          granularity = source.frontmatter.granularity;
          status = active;
          freshness = some (text "high");
          confidence = none;
          created_at = now;
          updated_at = now;
          created_by = record { kind = text "memory_split"; id = session_id; actor = some actor };
          updated_by = updater (text "memory_split") actor;
          sources = source.frontmatter.sources;
          relations = record {
            supersedes = source.frontmatter.id ∷ [];
            contradicted_by = [];
            related = [];
          };
          tags = tags;
          retrieval = record {
            keywords = retrieval_keywords env.unicode title content tags retrieval.keywords;
            entities = retrieval_entities env.unicode title content retrieval.entities;
            last_accessed_at = none;
          };
        };
        body = content;
        path = path;
      }

  -- The loop over the pieces: the ids of the new memories. The lists have the same length.
  unfoldable pub write_pieces :
      DurableMemoryDocument
      → Option Text
      → Text
      → List MemorySplitPiece
      → List MemoryRetrievalInput
      → Action (List Text)
  write_pieces source session_id actor [] retrieval = return []
  write_pieces source session_id actor (piece ∷ pieces) [] = return []
  write_pieces source session_id actor (piece ∷ pieces) (input ∷ inputs) = do
    title ← lift (validate_memory_title piece.title)
    id ← allocate_memory_id env source.frontmatter.scope source.frontmatter.project_key title
    now ← now_rfc3339 env
    path ← lift (topic_path env.resolver source.frontmatter.scope source.frontmatter.project_key id)
    write_document env (piece_document source piece input session_id actor id now title path)
    ids ← write_pieces source session_id actor pieces inputs
    return (id ∷ ids)

  unfoldable pub split_found :
      List MemorySplitPiece
      → List MemoryRetrievalInput
      → Option Text
      → Text
      → DurableMemoryDocument
      → Action (Option MemorySplitResult)
  split_found pieces retrieval session_id actor source = do
    let fm = source.frontmatter
    new_ids ← write_pieces source session_id actor pieces retrieval
    set ← set_memory_status env source superseded (text "memory_split") actor
    logged ← now_rfc3339 env
    append_audit env fm.scope fm.project_key merge_audit_log (
        audit_entry logged (text "split") fm.scope (some fm.id) session_id (
          text "Split memory '"
          ++ (fm.title
              ++ (text "' into " ++ (to_string (length new_ids) ++ text " atomic memories.")))))
    refresh_scope_artifacts env fm.scope fm.project_key
    return (
        some (record {
          source_id = fm.id;
          target_scope = fm.scope;
          project_key = fm.project_key;
          new_ids = new_ids;
        }))

  -- The checks before anything is written.
  abbrev check_split : List MemorySplitPiece → List MemoryRetrievalInput → Result (Unit {0})
  check_split pieces retrieval =
      fail_if (is_empty pieces) invalid_input
      after fail_if (not (length retrieval == length pieces)) invalid_input
      after check_pieces pieces

  unfoldable pub split_memory_with_retrieval :
      Text
      → Option Text
      → List MemorySplitPiece
      → List MemoryRetrievalInput
      → Option Text
      → Text
      → Action (Option MemorySplitResult)
  split_memory_with_retrieval memory_id preferred pieces retrieval session_id actor = do
    id ← lift (validate_memory_id memory_id)
    resolved ← get_memory env id preferred
    found_or_none
        (λ doc.
          lift (check_split pieces retrieval)
          >> (get_memory_at_locator env doc.frontmatter.scope doc.frontmatter.project_key id
              >>= found_or_none (split_found pieces retrieval session_id actor)))
        resolved

  -- The requested ids as they are found: those added to `contradicted_by`, those that exist, and those
  -- that are missing, with whether one is new.
  pub record Contradicting : Type 0 where
    pub contradicted_by : List Text
    pub contradicted_ids : List Text
    pub missing_ids : List Text
    pub changed : Bool

  abbrev contradict_one : Text → Bool → Contradicting → Contradicting
  contradict_one source_id true c =
      if contains c.contradicted_by source_id
      then record c { contradicted_ids = c.contradicted_ids ++ source_id ∷ [] }
      else record c {
        contradicted_by = c.contradicted_by ++ source_id ∷ [];
        contradicted_ids = c.contradicted_ids ++ source_id ∷ [];
        changed = true;
      }
  contradict_one source_id false c = record c { missing_ids = c.missing_ids ++ source_id ∷ [] }

  unfoldable pub resolve_ids :
      MemoryScope → Option Text → List Text → Contradicting → Action Contradicting
  resolve_ids scope key [] c = return c
  resolve_ids scope key (source_id ∷ source_ids) c = do
    found ← get_memory_at_locator env scope key source_id
    resolve_ids scope key source_ids (contradict_one source_id (is_some found) c)

  -- The status, or only the list, is written, or nothing is new.
  unfoldable pub apply_contradiction :
      Text → Contradicting → DurableMemoryDocument → Action (Bool × DurableMemoryDocument)
  apply_contradiction actor c target =
      let doc = record target {
        frontmatter = record target.frontmatter {
          relations = record target.frontmatter.relations {
            contradicted_by = insert_all [] c.contradicted_by;
          };
        };
      } in
      if not (is_empty c.contradicted_ids) && not (status_beq doc.frontmatter.status contradicted)
      then (set_memory_status env doc contradicted (text "memory_contradiction") actor >>= λ set.
          return (true, set.1))
      else if c.changed
      then (now_rfc3339 env >>= λ now.
          (let doc' = record doc {
            frontmatter = record doc.frontmatter {
              updated_at = now;
              updated_by = updater (text "memory_contradiction") actor;
            };
          } in
            write_document env doc' >> return (true, doc')))
      else return (false, doc)

  unfoldable pub contradict_found :
      List Text
      → Option Text
      → Option Text
      → Text
      → DurableMemoryDocument
      → Action (Option MemoryContradictionResult)
  contradict_found requested_ids reason session_id actor target = do
    c ← resolve_ids target.frontmatter.scope target.frontmatter.project_key requested_ids (record {
      contradicted_by = target.frontmatter.relations.contradicted_by;
      contradicted_ids = [];
      missing_ids = [];
      changed = false;
    })
    applied ← apply_contradiction actor c target
    let fm = applied.1.frontmatter
    logged ← now_rfc3339 env
    append_audit env fm.scope fm.project_key contradiction_audit_log (
        audit_entry logged (text "contradict") fm.scope (some fm.id) session_id
          (unwrap_or reason (text "marked contradicted")))
    refresh_scope_artifacts env fm.scope fm.project_key
    return (
        some (record {
          target_id = fm.id;
          target_scope = fm.scope;
          project_key = fm.project_key;
          changed = applied.0;
          contradicted_ids = insert_all [] c.contradicted_ids;
          missing_ids = insert_all [] c.missing_ids;
          path = applied.1.path;
        }))

  unfoldable pub mark_memory_contradicted :
      Text
      → Option Text
      → List Text
      → Option Text
      → Option Text
      → Text
      → Action (Option MemoryContradictionResult)
  mark_memory_contradicted memory_id preferred contradicted_by_ids reason session_id actor = do
    id ← lift (validate_memory_id memory_id)
    requested_ids ← lift (other_ids id contradicted_by_ids)
    resolved ← get_memory env id preferred
    found_or_none
        (λ doc.
          get_memory_at_locator env doc.frontmatter.scope doc.frontmatter.project_key id
          >>= found_or_none (contradict_found requested_ids reason session_id actor))
        resolved
