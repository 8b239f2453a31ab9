-- ===== src/Store/Dream/Read.antt =====
-- Reading a published snapshot back, and the generation marker.
use jiandu.Prelude.{
  ℕ, ◌≡◌, refl, sym, ap, ◌∙◌, subst, suc, List, [], ◌∷◌, Option, none, some, arith, length, false,
  not, is_some, ◌&&◌,
}
use jiandu.Prelude.Classes.{◌=?◌, nat_eq, list_eq, option_eq, beq_refl}
use jiandu.Result.{ok, >>=-eq-ok, ok_injective}
use jiandu.Text.{Text, trim, trimmed, nonempty}
use jiandu.Text.Trim.{trim_idem}
use jiandu.Types.{
  DreamSnapshot, DreamReadResult, MemoryScope, session, project, global, scope_eq,
  DurableMemoryDocument,
}
use jiandu.Validate.{validate_source_generation}
use jiandu.Paths.{dream_path, scope_generation_path}
use jiandu.Document.{Yaml, YamlLaws}
use jiandu.Store.Disk.{Env, Disk, lift-eq-ok, find_path, find-set_same, scope_generation}
use jiandu.Store.Locate.{require_project_key, list_memory_documents}
use jiandu.Store.Locate.Lookup.{project_key_lem}
use jiandu.Store.Artifacts.{
  canonical_scope_generation, rendered_documents, refresh_scope_artifacts, write_batch,
  scope_artifacts,
}
use jiandu.Store.Dream.{
  DreamSnapshotFrontmatter, snapshot_frontmatter, durable_only, parse_dream_snapshot,
  publish_dream_snapshot, current_scope_generation, read_dream_snapshot, dream_result,
}
use jiandu.Store.Dream.Snapshot.{IsContent, parse-render_dream_snapshot}
use jiandu.Store.Dream.Publish.{Published, publish_dream_snapshot-Published}

again : (u : Text) → trim u ≡ u → trimmed (nonempty u) ≡ nonempty u
unfolding trimmed
again [] e = refl
again (c ∷ u) e = rw e refl

trimmed_idem : (t : Option Text) → trimmed (trimmed t) ≡ trimmed t
unfolding trimmed
trimmed_idem none = refl
trimmed_idem (some t) = again (trim t) (trim_idem t)

module _ (env : Env) (dream_yaml : Yaml DreamSnapshotFrontmatter) where
  -- The key that a store has checked is checked again with the same result.
  require_project_key_idem :
      (scope : MemoryScope) (key k : Option Text)
      → durable_only scope ≡ ok tt
      → require_project_key env scope key ≡ ok k
      → require_project_key env scope k ≡ ok k
  unfolding require_project_key
  require_project_key_idem session key k s h = absurd (ground arith)
  require_project_key_idem global key k s h = h
  require_project_key_idem project key k s h =
      subst (λ t. require_project_key env project t ≡ ok k) (sym (project_key_lem env key k h))
        (rw (trimmed_idem key, require_project_key) h)

  current_scope_generation_checked :
      (scope : MemoryScope) (key k : Option Text) (d : Disk)
      → durable_only scope ≡ ok tt
      → require_project_key env scope key ≡ ok k
      → current_scope_generation env scope k d ≡ current_scope_generation env scope key d
  unfolding current_scope_generation
  current_scope_generation_checked scope key k d s h =
      rw s (rw (h, require_project_key_idem scope key k s h) refl)

  global_key :
      (scope : MemoryScope) (key k : Option Text)
      → require_project_key env scope key ≡ ok k
      → ((scope =? global) && is_some k) ≡ false
  unfolding require_project_key
  global_key session key k h = refl
  global_key project key k h = refl
  global_key global key k h = ground arith

  module _ (scope : MemoryScope) (project_key : Option Text) (generation content : Text)
      (snapshot : DreamSnapshot) (d d' : Disk) where
    -- What a reader is told of a snapshot, at a current generation.
    abbrev pub read_of : Text → DreamReadResult
    read_of current = record {
      scope = scope;
      project_key = snapshot.project_key;
      current_generation = current;
      stale = not (snapshot.source_generation =? current);
      snapshot = some snapshot;
    }

    dream_result_lem :
        (p : Published env dream_yaml scope project_key generation content snapshot d d')
        → YamlLaws dream_yaml (snapshot_frontmatter snapshot)
        → (current : Text)
        → dream_result env dream_yaml scope snapshot.project_key current (some p.raw)
          ≡ ok (read_of current)
    unfolding dream_result
    dream_result_lem p laws current =
        let trimmed_content : trim snapshot.content ≡ snapshot.content =
          ap trim p.content_given ∙ trim_idem content ∙ sym p.content_given in
        let (raw, rendered, parsed) =
          parse-render_dream_snapshot dream_yaml snapshot snapshot.source_generation
            p.generation_checked (subst IsContent (sym trimmed_content) p.sized) laws in
        let same : raw ≡ p.raw = ok_injective (sym rendered ∙ p.rendered) in
        let parsed' : parse_dream_snapshot dream_yaml p.raw ≡ ok snapshot =
          subst (λ r. parse_dream_snapshot dream_yaml r ≡ ok snapshot) same
            (rw trimmed_content at parsed) in
        rw parsed' (
          rw
            (
              p.scope_same,
              beq_refl scope,
              beq_refl snapshot.project_key,
              global_key scope project_key snapshot.project_key p.key_checked,
            )
            refl)

    -- A published snapshot that prints as YAML which reads back is what the reader of its scope then
    -- gets, marked stale exactly if the scope's current generation is another one.
    pub publish-read_dream_snapshot :
        publish_dream_snapshot env dream_yaml scope project_key generation content d
          ≡ (ok snapshot, d')
        → YamlLaws dream_yaml (snapshot_frontmatter snapshot)
        → (current : Text) → current_scope_generation env scope project_key d' ≡ (ok current, d')
        → read_dream_snapshot env dream_yaml scope project_key d' ≡ (ok (read_of current), d')
    unfolding read_dream_snapshot
    publish-read_dream_snapshot h laws current at_current =
        let p =
          publish_dream_snapshot-Published env dream_yaml scope project_key generation content
            snapshot d d' h in
        let path = dream_path env.resolver scope snapshot.project_key in
        let at_key =
          current_scope_generation_checked scope project_key snapshot.project_key d' p.durable
            p.key_checked
          ∙ at_current in
        let here : find_path path d'.files ≡ some p.raw =
          rw p.files (find-set_same path p.raw d.files) in
        rw p.durable
          (rw p.key_checked (rw at_key (rw here (rw (dream_result_lem p laws current) refl))))

module _ (env : Env) where
  digest_checked :
      (docs : List DurableMemoryDocument) (generation : Text)
      → ((t : Text) → validate_source_generation (env.sha256_hex t) ≡ ok (env.sha256_hex t))
      → canonical_scope_generation env docs ≡ ok generation
      → validate_source_generation generation ≡ ok generation
  unfolding canonical_scope_generation
  digest_checked docs generation law h =
      let (canonical, _, e) = >>=-eq-ok (rendered_documents env docs) _ h in
      subst (λ g. validate_source_generation g ≡ ok g) (ok_injective e) (law _)

  listed_again :
      (scope : MemoryScope) (key : Option Text) (docs : List DurableMemoryDocument) (d d' : Disk)
      → d'.files ≡ d.files
      → (list_memory_documents env scope key d).0 ≡ ok docs
      → list_memory_documents env scope key d' ≡ (ok docs, d')
  unfolding list_memory_documents
  listed_again scope key docs d d' e h =
      ap (λ r. (r, d'))
        (subst
          (λ files. (list_memory_documents env scope key (record d' { files = files })).0 ≡ ok docs)
          (sym e) h)

  current_scope_generation_lem :
      (scope : MemoryScope) (project_key key : Option Text) (count : ℕ) (generation : Text)
      (d : Disk)
      → durable_only scope ≡ ok tt
      → require_project_key env scope project_key ≡ ok key
      → find_path (scope_generation_path env.resolver scope key) d.artifacts
        ≡ some (scope_generation (record { generation = generation; topic_count = count }))
      → validate_source_generation generation ≡ ok generation
      → current_scope_generation env scope project_key d ≡ (ok generation, d)
  unfolding current_scope_generation
  current_scope_generation_lem scope project_key key count generation d durable k here valid =
      rw durable (rw k (rw here (rw valid refl)))

  -- Once the artifacts of a durable scope have been refreshed, the current generation that the marker
  -- gives is the canonical generation of the documents of the scope, if SHA-256 prints as a digest.
  pub refresh-current_scope_generation :
      (scope : MemoryScope) (project_key : Option Text) (d d' : Disk)
      → durable_only scope ≡ ok tt
      → ((t : Text) → validate_source_generation (env.sha256_hex t) ≡ ok (env.sha256_hex t))
      → refresh_scope_artifacts env scope project_key d ≡ (ok tt, d')
      → (key : Option Text) × (docs : List DurableMemoryDocument) × (generation : Text)
        × (require_project_key env scope project_key ≡ ok key)
        × (list_memory_documents env scope key d' ≡ (ok docs, d'))
        × (canonical_scope_generation env docs ≡ ok generation)
        × (current_scope_generation env scope project_key d' ≡ (ok generation, d'))
  unfolding refresh_scope_artifacts list_memory_documents write_batch scope_artifacts
  refresh-current_scope_generation scope project_key d d' durable law h =
      let (key, at_key, h1) = lift-eq-ok (require_project_key env scope project_key) d _ h in
      let (docs, listed, h2) = lift-eq-ok (list_memory_documents env scope key d).0 d _ h1 in
      let (generation, e, h3) =
        lift-eq-ok (canonical_scope_generation env docs) (record d { readings = suc d.readings }) _
          h2 in
      let path = scope_generation_path env.resolver scope key in
      let marker =
        scope_generation (record { generation = generation; topic_count = length docs }) in
      let files : d'.files ≡ d.files = sym (ap (λ x. x.1.files) h3) in
      let here : find_path path d'.artifacts ≡ some marker =
        subst (λ (x : Disk). find_path path x.artifacts ≡ some marker) (ap (λ x. x.1) h3)
          (find-set_same path marker _) in
      (
        key,
        docs,
        generation,
        at_key,
        listed_again scope key docs d d' files listed,
        e,
        current_scope_generation_lem scope project_key key (length docs) generation d' durable
            at_key here (digest_checked docs generation law e),
      )
