-- ===== src/Store/Dream/Publish.antt =====
-- What publishing a snapshot checks.
use jiandu.Prelude.{
  ◌≡◌, ◌≢◌, refl, sym, ap, ◌∙◌, subst, suc, List, [], ◌∷◌, Option, arith, length, ◌||◌, false, true,
  not, ltb, ◌==◌, Bool,
}
use jiandu.Prelude.Classes.{◌=?◌, nat_eq, list_eq, option_eq}
use jiandu.Result.{ok, ok_injective, fail_if, ErrorKind, invalid_input}
use jiandu.Text.{Text, trim}
use jiandu.Types.{DreamSnapshot, MemoryScope, scope_eq, DurableMemoryDocument}
use jiandu.Validate.{validate_source_generation}
use jiandu.Validate.Ids.{validate_source_generation_idem, validate_source_generation_sound}
use jiandu.Paths.{PathBuf, dream_path}
use jiandu.Document.{Yaml}
use jiandu.Store.Disk.{Env, Disk, lift-eq-ok, find_path, set_path, find-set_other}
use jiandu.Store.Locate.{require_project_key, list_memory_documents}
use jiandu.Store.Artifacts.{canonical_scope_generation}
use jiandu.Store.Dream.{
  DreamSnapshotFrontmatter, durable_only, max_dream_content_chars, render_dream_snapshot,
  publish_dream_snapshot,
}
use jiandu.Store.Dream.Snapshot.{IsContent}

passed : (b : Bool) (e : ErrorKind) (u : Unit {0}) → fail_if b e ≡ ok u → b ≡ false
passed b e u h = ground arith

fits : (t : Text) → (length t == 0 || ltb max_dream_content_chars (length t)) ≡ false → IsContent t
fits [] h = absurd (ground arith)
fits (c ∷ t) h = (λ e. ground arith, ground arith)

equal_of : (b : Bool) (u : Unit {0}) → fail_if (not b) invalid_input ≡ ok u → b ≡ true
equal_of b u h = ground arith

module _ (env : Env) (dream_yaml : Yaml DreamSnapshotFrontmatter) where
  -- What a snapshot that was published stands for.
  pub record Published (scope : MemoryScope) (project_key : Option Text) (generation content : Text)
      (snapshot : DreamSnapshot) (d d' : Disk) : Type 0 where
    pub durable : durable_only scope ≡ ok tt
    pub key_checked : require_project_key env scope project_key ≡ ok snapshot.project_key
    pub scope_same : snapshot.scope ≡ scope
    pub docs : List DurableMemoryDocument
    pub listed : list_memory_documents env scope snapshot.project_key d ≡ (ok docs, d)
    pub fresh : canonical_scope_generation env docs ≡ ok snapshot.source_generation
    pub generation_checked :
        validate_source_generation snapshot.source_generation ≡ ok snapshot.source_generation
    pub sized : IsContent snapshot.content
    pub generation_given : snapshot.source_generation ≡ trim generation
    pub content_given : snapshot.content ≡ trim content
    pub raw : Text
    pub rendered : render_dream_snapshot dream_yaml snapshot ≡ ok raw
    pub files : d'.files ≡ set_path (dream_path env.resolver scope snapshot.project_key) raw d.files
    pub artifacts : d'.artifacts ≡ d.artifacts

  pub publish_dream_snapshot-Published :
      (scope : MemoryScope) (project_key : Option Text) (generation content : Text)
      (snapshot : DreamSnapshot) (d d' : Disk)
      → publish_dream_snapshot env dream_yaml scope project_key generation content d
        ≡ (ok snapshot, d')
      → Published scope project_key generation content snapshot d d'
  unfolding publish_dream_snapshot list_memory_documents
  publish_dream_snapshot-Published scope project_key generation content snapshot d d' h =
      let (u1, durable, h1) = lift-eq-ok (durable_only scope) d _ h in
      let (key, at_key, h2) = lift-eq-ok (require_project_key env scope project_key) d _ h1 in
      let (gen, valid, h3) = lift-eq-ok (validate_source_generation generation) d _ h2 in
      let (u2, size, h4) =
        lift-eq-ok
          (fail_if
            (length (trim content) == 0 || ltb max_dream_content_chars (length (trim content)))
            invalid_input)
          d _ h3 in
      let (docs, listed, h5) = lift-eq-ok (list_memory_documents env scope key d).0 d _ h4 in
      let (current, now, h6) = lift-eq-ok (canonical_scope_generation env docs) d _ h5 in
      let (u3, same, h7) = lift-eq-ok (fail_if (not (gen =? current)) invalid_input) d _ h6 in
      let s0 : DreamSnapshot = record {
        scope = scope;
        project_key = key;
        generated_at = env.to_rfc3339 (env.clock d.readings);
        source_generation = gen;
        content = trim content;
      } in
      let (raw, rendered, h8) =
        lift-eq-ok (render_dream_snapshot dream_yaml s0) (record d { readings = suc d.readings }) _
          h7 in
      let after : Disk = record d {
        files = set_path (dream_path env.resolver scope key) raw d.files;
        readings = suc d.readings;
      } in
      let equal : gen ≡ current =
        (list_eq.beq_iff gen current).0 (equal_of (gen =? current) u3 same) in
      subst (λ x. Published scope project_key generation content snapshot d x) (ap (λ x. x.1) h8)
        (subst (λ x. Published scope project_key generation content x d after)
          (ok_injective (ap (λ x. x.0) h8))
          (record {
            durable = durable;
            key_checked = at_key;
            scope_same = refl;
            docs = docs;
            listed = ap (λ x. (x, d)) listed;
            fresh = now ∙ ap ok (sym equal);
            generation_checked = validate_source_generation_idem generation gen valid;
            sized = fits (trim content) (passed _ _ u2 size);
            generation_given = (validate_source_generation_sound generation gen valid).0;
            content_given = refl;
            raw = raw;
            rendered = rendered;
            files = refl;
            artifacts = refl;
          }))

  -- A snapshot that was published names the generation of the documents that the scope had at that
  -- moment, stands for the scope asked for, has its content and generation trimmed, 1 to 12,000
  -- characters of content, and no other file was changed.
  pub publish_dream_snapshot_fresh :
      (scope : MemoryScope) (project_key : Option Text) (generation content : Text)
      (snapshot : DreamSnapshot) (d d' : Disk)
      → publish_dream_snapshot env dream_yaml scope project_key generation content d
        ≡ (ok snapshot, d')
      → (docs : List DurableMemoryDocument) × (list_memory_documents env scope snapshot.project_key
            d
          ≡ (ok docs, d))
        × (canonical_scope_generation env docs ≡ ok snapshot.source_generation)
        × (snapshot.scope ≡ scope)
        × (require_project_key env scope project_key ≡ ok snapshot.project_key)
        × (snapshot.source_generation ≡ trim generation)
        × (snapshot.content ≡ trim content)
        × IsContent snapshot.content
        × ((p : PathBuf)
            → dream_path env.resolver scope snapshot.project_key ≢ p
            → find_path p d'.files ≡ find_path p d.files)
  publish_dream_snapshot_fresh scope project_key generation content snapshot d d' h =
      let p =
        publish_dream_snapshot-Published scope project_key generation content snapshot d d' h in
      (
        p.docs,
        p.listed,
        p.fresh,
        p.scope_same,
        p.key_checked,
        p.generation_given,
        p.content_given,
        p.sized,
        λ q n.
            rw p.files (
              find-set_other (dream_path env.resolver scope snapshot.project_key) q p.raw d.files
                n),
      )
