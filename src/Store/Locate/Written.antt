-- ===== src/Store/Locate/Written.antt =====
-- Reading after writing.
use jiandu.Prelude.{◌≡◌, ◌≢◌, refl, ◌++◌, Option, some}
use jiandu.Prelude.Classes.{nat_eq, list_eq, option_eq, beq_refl}
use jiandu.Result.{ok, ok_injective}
use jiandu.Text.{Text, text, trim}
use jiandu.Types.{MemoryScope, session, project, global, scope_eq, DurableMemoryDocument}
use jiandu.Validate.{validate_memory_id}
use jiandu.Validate.Ids.{validate_memory_id_idem}
use jiandu.Paths.{
  PathBuf, join, topic_path, topics_dir, scope_read_roots, project_root, global_root,
  key_or_unknown,
}
use jiandu.Document.{YamlLaws}
use jiandu.Document.RoundTrip.{parse-render}
use jiandu.Store.Disk.{Env, Disk, find_path, set_path, find-set_same, find-set_other}
use jiandu.Store.Locate.{
  require_project_key, expected_project_key, located_document, read_roots, get_memory_at_locator,
  write_document,
}
use jiandu.Store.Locate.Lookup.{IsDurable}

module _ (env : Env) where
  -- In a scope of durable memories, the lookup reads the topic path.
  pub get_memory_at_locator_lem :
      (scope : MemoryScope) (project_key key : Option Text) (id u : Text) (path : PathBuf)
      (raw : Text) (d : Disk)
      → IsDurable scope
      → validate_memory_id id ≡ ok u
      → require_project_key env scope project_key ≡ ok key
      → topic_path env.resolver scope key u ≡ ok path
      → find_path path d.files ≡ some raw
      → get_memory_at_locator env scope project_key id d
        ≡ (located_document env scope key u path raw, d)
  unfolding get_memory_at_locator topic_path scope_read_roots read_roots
  get_memory_at_locator_lem session project_key key id u path raw d s v r p f = absurd (s refl)
  get_memory_at_locator_lem global project_key key id u path raw d s v r p f =
      let p' = rw (validate_memory_id_idem id u v) at p in
      let here : find_path (join (join (global_root env.resolver) topics_dir) (u ++ text ".md"))
            d.files
          ≡ some raw =
        rw (ok_injective p') f in
      rw v (rw r (rw here (rw (ok_injective p') refl)))
  get_memory_at_locator_lem project project_key key id u path raw d s v r p f =
      let p' = rw (validate_memory_id_idem id u v) at p in
      let here : find_path
            (join (join (project_root env.resolver (key_or_unknown key)) topics_dir)
              (u ++ text ".md"))
            d.files
          ≡ some raw =
        rw (ok_injective p') f in
      rw v (rw r (rw here (rw (ok_injective p') refl)))

  module _ (doc : DurableMemoryDocument) (u : Text) where
    -- The document as it is stored: with the checked id and the trimmed body.
    abbrev pub stored : DurableMemoryDocument
    stored = record {
      frontmatter = record doc.frontmatter { id = u };
      body = trim doc.body;
      path = doc.path;
    }

    abbrev pub written : Text → Disk → Disk
    written raw d = record d { files = set_path doc.path raw d.files }

    -- A document of a durable scope that is written to its own topic path is written, is the document
    -- that a lookup by its id then finds, with its body trimmed, and leaves every other file as it was.
    pub write-get_memory_at_locator :
        (scope : MemoryScope) (project_key key : Option Text) (id : Text) (d : Disk)
        → IsDurable scope
        → validate_memory_id doc.frontmatter.id ≡ ok u
        → validate_memory_id id ≡ ok u
        → require_project_key env scope project_key ≡ ok key
        → doc.frontmatter.scope ≡ scope
        → doc.frontmatter.project_key ≡ expected_project_key env scope key
        → topic_path env.resolver scope key u ≡ ok doc.path
        → YamlLaws env.yaml (record doc.frontmatter { id = u })
        → (raw : Text) × (write_document env doc d ≡ (ok tt, written raw d))
          × (get_memory_at_locator env scope project_key id (written raw d)
              ≡ (ok (some stored), written raw d))
          × ((p : PathBuf) → doc.path ≢ p → find_path p (written raw d).files ≡ find_path p d.files)
    unfolding write_document located_document
    write-get_memory_at_locator scope project_key key id d durable v w r s k p laws =
        let (raw, rendered, parsed) = parse-render env.yaml doc.frontmatter doc.body u v laws in
        (
          raw,
          rw v (rw rendered refl),
          rw
              (get_memory_at_locator_lem scope project_key key id u doc.path raw (written raw d)
                durable w r p (find-set_same doc.path raw d.files))
              (rw parsed (
                rw (beq_refl u, s, beq_refl scope, k, beq_refl (expected_project_key env scope key))
                  refl)),
          λ q n. find-set_other doc.path q raw d.files n,
        )
