-- ===== src/Store/Artifacts.antt =====
-- `refresh_scope_artifacts` and `canonical_scope_generation`: what is derived from the documents of a
-- scope, and published together.
pub mod Apart
use jiandu.Prelude.{ℕ, suc, not, List, [], ◌∷◌, ◌++◌, Option, take, filter, map, length}
use jiandu.Prelude.Sort.{sort_by, not_after}
use jiandu.Prelude.Order.{text_cmp}
use jiandu.Result.{Result, ok}
use jiandu.Result.{◌>>=◌ as ◌then◌}
use jiandu.Text.{Text, text}
use jiandu.Text.Utf8.{bytes, byte_len}
use jiandu.Types.{
  MemoryScope, active, status_beq, status_as_str, type_as_str, scope_as_str, DurableMemoryDocument,
}
use jiandu.Assoc.{upsert}
use jiandu.Index.{
  LexicalIndexItem, RecentIndexItem, GraphIndexItem, StaleCandidateItem, TaxonomyIndex,
}
use jiandu.Paths.{PathBuf, join, indexes_dir, views_dir, state_dir, scope_generation_path}
use jiandu.Document.{render_markdown_document}
use jiandu.Terms.{derive_summary}
use jiandu.Query.Cursor.{to_string}
use jiandu.Query.Views.{
  build_memory_markdown_view, build_recent_markdown_view, build_stale_markdown_view,
}
use jiandu.Store.Disk.{
  Env, Action, ◌>>=◌, ◌>>◌, return, lift, Artifact, lexical, recent, graph, stale_candidates,
  taxonomy, view, schema_version, last_reindex, scope_generation, write_artifact, now_rfc3339,
}
use jiandu.Store.Locate.{require_project_key, list_memory_documents}

abbrev pub lexical_item : DurableMemoryDocument → LexicalIndexItem
lexical_item doc = record {
  id = doc.frontmatter.id;
  title = doc.frontmatter.title;
  scope = doc.frontmatter.scope;
  project_key = doc.frontmatter.project_key;
  memory_type = doc.frontmatter.memory_type;
  status = doc.frontmatter.status;
  tags = doc.frontmatter.tags;
  keywords = doc.frontmatter.retrieval.keywords;
  entities = doc.frontmatter.retrieval.entities;
  updated_at = doc.frontmatter.updated_at;
  created_at = doc.frontmatter.created_at;
  summary = derive_summary doc.body 240;
  granularity = doc.frontmatter.granularity;
}

abbrev pub recent_item : DurableMemoryDocument → RecentIndexItem
recent_item doc = record {
  id = doc.frontmatter.id;
  title = doc.frontmatter.title;
  updated_at = doc.frontmatter.updated_at;
  last_accessed_at = doc.frontmatter.retrieval.last_accessed_at;
  status = doc.frontmatter.status;
}

abbrev pub graph_item : DurableMemoryDocument → GraphIndexItem
graph_item doc = record {
  id = doc.frontmatter.id;
  related = doc.frontmatter.relations.related;
  supersedes = doc.frontmatter.relations.supersedes;
  contradicted_by = doc.frontmatter.relations.contradicted_by;
}

abbrev pub stale_item : DurableMemoryDocument → StaleCandidateItem
stale_item doc = record {
  id = doc.frontmatter.id;
  title = doc.frontmatter.title;
  status = doc.frontmatter.status;
  updated_at = doc.frontmatter.updated_at;
  reason = text "status=" ++ status_as_str doc.frontmatter.status;
}

count_names :
    (DurableMemoryDocument → Text) → List DurableMemoryDocument → List (Text × ℕ) → List (Text × ℕ)
count_names name [] counts = counts
count_names name (doc ∷ docs) counts = count_names name docs (upsert (name doc) 0 suc counts)

unfoldable pub taxonomy_of : Text → List DurableMemoryDocument → TaxonomyIndex
unfolding count_names
taxonomy_of now docs = record {
  generated_at = now;
  by_type = count_names (λ doc. type_as_str doc.frontmatter.memory_type) docs [];
  by_status = count_names (λ doc. status_as_str doc.frontmatter.status) docs [];
  by_scope = count_names (λ doc. scope_as_str doc.frontmatter.scope) docs [];
  total = length docs;
}

-- One text in the digest: its length in bytes, a zero byte, its bytes.
abbrev pub frame : Text → List ℕ
frame t = to_string (byte_len t) ++ (0 ∷ bytes t)

unfoldable pub frames : List (Text × Text) → List ℕ
frames [] = []
frames ((id, rendered) ∷ canonical) = frame id ++ (frame rendered ++ frames canonical)

module _ (env : Env) where
  pub rendered_documents : List DurableMemoryDocument → Result (List (Text × Text))
  rendered_documents [] = ok []
  rendered_documents (doc ∷ docs) =
      render_markdown_document env.yaml doc.frontmatter doc.body then λ rendered.
      rendered_documents docs then λ rest. ok ((doc.frontmatter.id, rendered) ∷ rest)

  unfoldable pub canonical_scope_generation : List DurableMemoryDocument → Result Text
  unfolding rendered_documents sort_by
  canonical_scope_generation docs = rendered_documents docs then λ canonical. ok (
      env.sha256_hex (
        text "jiandu-canonical-scope-generation-v1"
        ++ (0 ∷ frames (sort_by (λ a b. not_after (text_cmp a.0 b.0)) canonical))))

  abbrev pub memory_schema_version : ℕ
  memory_schema_version = 1

  -- The artifacts of a scope, in the order in which they are committed.
  unfoldable pub scope_artifacts :
      MemoryScope
      → Option Text
      → Text
      → List DurableMemoryDocument
      → Text
      → List (PathBuf × Artifact)
  scope_artifacts scope key now docs generation =
      let indexes = indexes_dir env.resolver scope key in
      let views = views_dir env.resolver scope key in
      let state = state_dir env.resolver scope key in
      (
        join indexes (text "lexical.json"),
        lexical (record { generated_at = now; items = map lexical_item docs }),
      )
      ∷ (
        join indexes (text "recent.json"),
        recent (record { generated_at = now; items = map recent_item (take 50 docs) }),
      )
      ∷ (
        join indexes (text "graph.json"),
        graph (record { generated_at = now; items = map graph_item docs }),
      )
      ∷ (
        join indexes (text "stale_candidates.json"),
        stale_candidates (record {
          generated_at = now;
          items =
              map stale_item (filter (λ doc. not (status_beq doc.frontmatter.status active)) docs);
        }),
      )
      ∷ (join indexes (text "taxonomy.json"), taxonomy (taxonomy_of now docs))
      ∷ (join views (text "MEMORY.md"), view (build_memory_markdown_view scope key docs))
      ∷ (join views (text "RECENT.md"), view (build_recent_markdown_view docs))
      ∷ (join views (text "STALE.md"), view (build_stale_markdown_view docs))
      ∷ (join state (text "schema_version.json"), schema_version memory_schema_version)
      ∷ (join state (text "last_reindex.json"), last_reindex now (length docs))
      ∷ (
        scope_generation_path env.resolver scope key,
        scope_generation (record { generation = generation; topic_count = length docs }),
      )
      ∷ []

  unfoldable pub write_batch : List (PathBuf × Artifact) → Action (Unit {0})
  write_batch [] = return tt
  write_batch ((path, artifact) ∷ batch) = write_artifact path artifact >> write_batch batch

  unfoldable pub refresh_scope_artifacts : MemoryScope → Option Text → Action (Unit {0})
  refresh_scope_artifacts scope project_key = do
    key ← lift (require_project_key env scope project_key)
    docs ← list_memory_documents env scope key
    now ← now_rfc3339 env
    generation ← lift (canonical_scope_generation docs)
    write_batch (scope_artifacts scope key now docs generation)
