-- ===== src/Store/Consolidate.antt =====
-- `consolidate_memories_with_retrieval`: several memories become one, which supersedes them.
pub mod Kept
use jiandu.Prelude.{
  ◌+◌, Bool, not, ◌||◌, List, [], ◌∷◌, ◌++◌, Option, none, some, ltb, if◌then◌else◌, length, map,
  any, is_empty, unwrap_or,
}
use jiandu.Prelude.Classes.{◌=?◌, nat_eq, list_eq, option_eq, contains}
use jiandu.Result.{Result, err, invalid_input, fail_if, collect}
use jiandu.Text.{Text, text, trim}
use jiandu.Types.{
  MemoryScope, scope_eq, source_eq, active, superseded, TemporalGranularity, granularity_position,
  DurableMemorySource, DurableMemoryDocument, MemoryRetrievalInput,
}
use jiandu.Validate.{validate_memory_id, validate_memory_title}
use jiandu.Terms.{normalize_tags, retrieval_keywords, retrieval_entities}
use jiandu.Query.Cursor.{to_string}
use jiandu.Paths.{topic_path}
use jiandu.Store.Disk.{Env, Action, ◌>>=◌, ◌>>◌, return, lift, now_rfc3339, found_or_none}
use jiandu.Store.Locate.{
  get_memory, get_memory_at_locator, write_document, append_audit, allocate_memory_id,
}
use jiandu.Store.Artifacts.{refresh_scope_artifacts}
use jiandu.Store.Status.{updater, audit_entry, set_memory_status}
use jiandu.Store.Limits.{max_durable_memory_body_chars, add_sources}
use jiandu.Store.Merge.{MemorySplitPiece}
use jiandu.Store.Write.{merge_audit_log, owned_key}

pub record MemoryConsolidateResult : Type 0 where
  pub new_id : Text
  pub target_scope : MemoryScope
  pub project_key : Option Text
  pub superseded_ids : List Text

-- The arguments after the ids, with the checked title.
pub record Consolidation : Type 0 where
  pub title : Text
  pub merged : MemorySplitPiece
  pub retrieval : MemoryRetrievalInput
  pub session_id : Option Text
  pub actor : Text

unfoldable pub sources_union :
    List DurableMemorySource → List DurableMemoryDocument → List DurableMemorySource
sources_union union [] = union
sources_union union (doc ∷ docs) = sources_union (add_sources union doc.frontmatter.sources) docs

abbrev pub coarser :
    Option TemporalGranularity → Option TemporalGranularity → Option TemporalGranularity
coarser none g = g
coarser (some a) none = some a
coarser (some a) (some b) =
    if ltb (granularity_position a) (granularity_position b) then some b else some a

-- The coarsest granularity that one of the documents has.
unfoldable pub coarsest : List DurableMemoryDocument → Option TemporalGranularity
coarsest [] = none
coarsest (doc ∷ docs) = coarser doc.frontmatter.granularity (coarsest docs)

abbrev pub elsewhere : DurableMemoryDocument → DurableMemoryDocument → Bool
elsewhere first doc =
    not (doc.frontmatter.scope =? first.frontmatter.scope)
    || not (doc.frontmatter.project_key =? first.frontmatter.project_key)

module _ (env : Env) where
  -- `let Some(doc) = .. else { return Ok(None) }`, and the rest of the loop.
  abbrev pub with_doc :
      Option DurableMemoryDocument
      → Action (Option (List DurableMemoryDocument))
      → Action (Option (List DurableMemoryDocument))
  with_doc none rest = return none
  with_doc (some doc) rest = rest >>= found_or_none (λ docs. return (some (doc ∷ docs)))

  -- The sources of the ids, each id once; a missing one ends the loop.
  unfoldable pub resolve_sources :
      Option Text → List Text → List Text → Action (Option (List DurableMemoryDocument))
  resolve_sources preferred seen [] = return (some [])
  resolve_sources preferred seen (id ∷ ids) =
      let repeated = resolve_sources preferred seen ids in
      let rest = resolve_sources preferred (id ∷ seen) ids in
      if contains seen id
      then repeated
      else (get_memory env id preferred >>= λ found. with_doc found rest)

  -- Read again under the scope's write guard.
  unfoldable pub reread_sources :
      MemoryScope
      → Option Text
      → List DurableMemoryDocument
      → Action (Option (List DurableMemoryDocument))
  reread_sources scope key [] = return (some [])
  reread_sources scope key (source ∷ sources) =
      get_memory_at_locator env scope key source.frontmatter.id >>= λ found.
      with_doc found (reread_sources scope key sources)

  abbrev pub consolidated_document :
      Consolidation
      → MemoryScope
      → Option Text
      → DurableMemoryDocument
      → List DurableMemoryDocument
      → Text
      → Text
      → List Text
      → DurableMemoryDocument
  consolidated_document request scope key first sources id now path =
      let content = trim request.merged.content in
      let tags = normalize_tags env.unicode request.merged.tags in
      record {
        frontmatter = record {
          id = id;
          title = request.title;
          memory_type = unwrap_or request.merged.memory_type first.frontmatter.memory_type;
          scope = scope;
          project_key = owned_key env scope key;
          granularity = coarsest sources;
          status = active;
          freshness = some (text "high");
          confidence = none;
          created_at = now;
          updated_at = now;
          created_by = record {
            kind = text "memory_consolidate";
            id = request.session_id;
            actor = some request.actor;
          };
          updated_by = updater (text "memory_consolidate") request.actor;
          sources = sources_union [] sources;
          relations = record {
            supersedes = map (λ (doc : DurableMemoryDocument). doc.frontmatter.id) sources;
            contradicted_by = [];
            related = [];
          };
          tags = tags;
          retrieval = record {
            keywords =
                retrieval_keywords env.unicode request.title content tags
                  request.retrieval.keywords;
            entities =
                retrieval_entities env.unicode request.title content request.retrieval.entities;
            last_accessed_at = none;
          };
        };
        body = content;
        path = path;
      }

  unfoldable pub supersede_all : Text → List DurableMemoryDocument → Action (Unit {0})
  supersede_all actor [] = return tt
  supersede_all actor (source ∷ sources) =
      set_memory_status env source superseded (text "memory_consolidate") actor >>= λ set.
      supersede_all actor sources

  -- What is written, with the sources as they are under the guard.
  unfoldable pub consolidate_found :
      Consolidation
      → MemoryScope
      → Option Text
      → DurableMemoryDocument
      → List DurableMemoryDocument
      → Action (Option MemoryConsolidateResult)
  consolidate_found request scope key first rest = do
    let sources = first ∷ rest
    let superseded_ids = map (λ (doc : DurableMemoryDocument). doc.frontmatter.id) sources
    id ← allocate_memory_id env scope key request.title
    now ← now_rfc3339 env
    path ← lift (topic_path env.resolver scope key id)
    write_document env (consolidated_document request scope key first sources id now path)
    supersede_all request.actor sources
    logged ← now_rfc3339 env
    append_audit env scope key merge_audit_log (
        audit_entry logged (text "consolidate") scope (some id) request.session_id (
          text "Consolidated "
          ++ (to_string (length superseded_ids)
              ++ (text " near-duplicate memories into '" ++ (request.title ++ text "'.")))))
    refresh_scope_artifacts env scope key
    return (
        some (record {
          new_id = id;
          target_scope = scope;
          project_key = key;
          superseded_ids = superseded_ids;
        }))

  abbrev pub consolidate_reread :
      Consolidation
      → MemoryScope
      → Option Text
      → List DurableMemoryDocument
      → Action (Option MemoryConsolidateResult)
  consolidate_reread request scope key [] = return none
  consolidate_reread request scope key (first ∷ rest) =
      consolidate_found request scope key first rest

  abbrev pub consolidate_sources :
      Consolidation → List DurableMemoryDocument → Action (Option MemoryConsolidateResult)
  consolidate_sources request [] = lift (err invalid_input)
  consolidate_sources request (first ∷ []) = lift (err invalid_input)
  consolidate_sources request (first ∷ second ∷ rest) =
      let scope = first.frontmatter.scope in
      let key = first.frontmatter.project_key in
      lift (fail_if (any (elsewhere first) (first ∷ second ∷ rest)) invalid_input)
      >> (reread_sources scope key (first ∷ second ∷ rest)
          >>= found_or_none (consolidate_reread request scope key))

  unfoldable pub consolidate_memories_with_retrieval :
      List Text
      → Option Text
      → MemorySplitPiece
      → MemoryRetrievalInput
      → Option Text
      → Text
      → Action (Option MemoryConsolidateResult)
  consolidate_memories_with_retrieval ids preferred merged retrieval session_id actor = do
    checked ← lift (collect validate_memory_id ids)
    lift (fail_if (ltb (length checked) 2) invalid_input)
    title ← lift (validate_memory_title merged.title)
    lift (fail_if (is_empty (trim merged.content)) invalid_input)
    lift (fail_if (ltb max_durable_memory_body_chars (length (trim merged.content))) invalid_input)
    resolved ← resolve_sources preferred [] checked
    found_or_none
        (consolidate_sources (record {
          title = title;
          merged = merged;
          retrieval = retrieval;
          session_id = session_id;
          actor = actor;
        }))
        resolved
