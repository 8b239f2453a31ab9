-- ===== src/Store/Write/Accretion.antt =====
-- What an append to an existing memory, and a new memory, guarantee.
use jiandu.Prelude.{
  suc, ◌≤◌, ◌≡◌, ◌≢◌, refl, sym, ap, ◌∙◌, subst, true, List, [], ◌∷◌, ◌++◌, none, some, length,
  arith, max, Bool-cases, inl, inr, and-true, leb→le, append_assoc, is_some,
}
use jiandu.Prelude.Classes.{nat_eq, list_eq}
use jiandu.Result.{ok, ok_injective}
use jiandu.Text.{Text, text, contains_text, starts_with, trim_end}
use jiandu.Types.{MemoryScope, session, DurableMemoryDocument}
use jiandu.Validate.{validate_memory_id}
use jiandu.Paths.{PathBuf, topic_path, join, logs_dir}
use jiandu.Document.{render_markdown_document}
use jiandu.Store.Disk.{Env, Disk, find_path, set_path, find-set_same, find-set_other, next-eq-ok}
use jiandu.Store.Locate.{write_document, allocate_memory_id, append_audit}
use jiandu.Store.Artifacts.Apart.{TextFile, refresh_scope_artifacts-IsBeside}
use jiandu.Store.Locate.Allocate.{allocate_memory_id-artifacts, allocate_memory_id-IsFree}
use jiandu.Store.Artifacts.{refresh_scope_artifacts}
use jiandu.Store.Keeps.{refresh_scope_artifacts_files}
use jiandu.Store.Limits.{
  max_durable_memory_body_chars, max_durable_memory_source_items, projected_merged_body_chars,
  memory_section_separator, merged_source_coverage_fits,
}
use jiandu.Store.Limits.Bounds.{length-append_section, messages, add_sources-IsCovered}
use jiandu.Store.Write.{
  CheckedWrite, WriteRequest, can_merge, merged_document, create_memory, new_frontmatter,
  write_audit_log,
}
use jiandu.Store.Status.{audit_entry}

starts_with_self : (t u : Text) → starts_with t (t ++ u) ≡ true
starts_with_self [] u = refl
starts_with_self (c ∷ t) u = ground (arith, starts_with_self t u)

contains_start : (t u : Text) → contains_text t (t ++ u) ≡ true
unfolding contains_text
contains_start [] [] = refl
contains_start [] (c ∷ u) = refl
contains_start (c ∷ t) u = ground (arith, starts_with_self (c ∷ t) u)

pub contains_end : (a t : Text) → contains_text t (a ++ t) ≡ true
unfolding contains_text
contains_end [] [] = refl
contains_end [] (c ∷ t) = ground (arith, contains_start (c ∷ t) [], starts_with_same (c ∷ t))
  where
    starts_with_same : (u : Text) → starts_with u u ≡ true
    starts_with_same [] = refl
    starts_with_same (d ∷ u) = ground (arith, starts_with_same u)
contains_end (d ∷ a) t = ground (arith, contains_end a t)

module _ (env : Env) (existing : DurableMemoryDocument) (checked : CheckedWrite)
    (request : WriteRequest) (now : Text) where
  -- A write that may be merged gives a memory that holds the new content, whose body is no longer
  -- than it was or than 4000 characters, with at most 256 sources that cover at most 256 messages.
  pub merged_document_bounded :
      can_merge env existing checked ≡ true
      → (contains_text checked.content (merged_document env existing checked request now).body
          ≡ true)
        × (length (merged_document env existing checked request now).body
            ≤ max max_durable_memory_body_chars (length existing.body))
        × (length (merged_document env existing checked request now).frontmatter.sources
            ≤ max_durable_memory_source_items)
        × (messages (merged_document env existing checked request now).frontmatter.sources
            ≤ max_durable_memory_source_items)
  unfolding can_merge merged_document
  merged_document_bounded h =
      let (room, fits) =
        and-true _ (merged_source_coverage_fits existing.frontmatter.sources checked.sources) h in
      let covered = add_sources-IsCovered existing.frontmatter.sources checked.sources fits in
      elim (Bool-cases (contains_text checked.content existing.body)) [
        | inl e ↦ rw e (e, omega arith, covered.0, covered.1)
        | inr e ↦
            let small =
              leb→le (projected_merged_body_chars existing.body checked.content) 4000
                (rw e at room) in
            rw e (
              rw
                  (sym (
                    append_assoc (trim_end existing.body) memory_section_separator checked.content))
                  (contains_end (trim_end existing.body ++ memory_section_separator)
                    checked.content),
              omega (arith, small, length-append_section existing.body checked.content),
              covered.0,
              covered.1,
            )
      ]

module _ (env : Env) where
  written_file :
      (doc : DurableMemoryDocument) (d d' : Disk)
      → write_document env doc d ≡ (ok tt, d')
      → (raw : Text) × (d'.files ≡ set_path doc.path raw d.files) × (d'.artifacts ≡ d.artifacts)
  unfolding write_document
  written_file doc d d' h =
      let (id, d1, e1, h1) = next-eq-ok (validate_memory_id doc.frontmatter.id, d) _ h in
      let (raw, d2, e2, h2) =
        next-eq-ok (render_markdown_document env.yaml doc.frontmatter doc.body, d1) _ h1 in
      let same : d2 ≡ d = sym (ap (λ x. x.1) e2) ∙ sym (ap (λ x. x.1) e1) in
      (
        raw,
        ap (λ (x : Disk). x.files) (sym (ap (λ x. x.1) h2))
            ∙ ap (λ (x : Disk). set_path doc.path raw x.files) same,
        ap (λ (x : Disk). x.artifacts) (sym (ap (λ x. x.1) h2))
            ∙ ap (λ (x : Disk). x.artifacts) same,
      )

  -- A new memory of a durable scope is put where no file was. Every other text file, be it a document,
  -- a note or a Dream snapshot, is as it was; and what is derived anew of the scope is put at the path
  -- of none of them.
  pub create_memory_new :
      (scope : MemoryScope) (checked : CheckedWrite) (request : WriteRequest) (related : List Text)
      (doc : DurableMemoryDocument) (d d' : Disk)
      → scope ≢ session
      → create_memory env scope checked request related d ≡ (ok doc, d')
      → (find_path doc.path d.files ≡ none)
        × (is_some (find_path doc.path d'.files) ≡ true)
        × ((p : PathBuf) → doc.path ≢ p → find_path p d'.files ≡ find_path p d.files)
        × ((p : PathBuf)
            → TextFile env.resolver p
            → find_path p d'.artifacts ≡ find_path p d.artifacts)
  unfolding create_memory append_audit
  create_memory_new scope checked request related doc d d' durable h =
      let key = checked.project_key in
      let (id, d1, e1, h1) = next-eq-ok (allocate_memory_id env scope key checked.title d) _ h in
      let (same, (path, at_path, free)) =
        allocate_memory_id-IsFree env scope key checked.title id d d1 e1 in
      let (path', d3, e3, h3) =
        next-eq-ok (topic_path env.resolver scope key id, clocked d1) _ h1 in
      let now = env.to_rfc3339 (env.clock d1.readings) in
      let docn : DurableMemoryDocument = record {
        frontmatter = new_frontmatter env scope checked request related id now;
        body = checked.content;
        path = path';
      } in
      let (_, d4, e4, h4) = next-eq-ok (write_document env docn d3) _ h3 in
      let (raw, files, artifacts) = written_file docn d3 d4 e4 in
      let (_, d5, e5, h5) =
        next-eq-ok (refresh_scope_artifacts env scope key (audited d4 id)) _ h4 in
      let files' : d'.files ≡ set_path path' raw d.files =
        ap (λ (x : Disk). x.files) (sym (ap (λ x. x.1) h5) ∙ sym (ap (λ x. x.1) e5))
        ∙ (refresh_scope_artifacts_files env scope key).at (audited d4 id)
        ∙ files
        ∙ ap (λ (x : Disk). set_path path' raw x.files) (sym (ap (λ x. x.1) e3))
        ∙ ap (set_path path' raw) same in
      let derived : d4.artifacts ≡ d.artifacts =
        artifacts
        ∙ ap (λ (x : Disk). x.artifacts) (sym (ap (λ x. x.1) e3))
        ∙ allocate_memory_id-artifacts env scope key checked.title id d d1 e1 in
      let last : d' ≡ (refresh_scope_artifacts env scope key (audited d4 id)).1 =
        sym (ap (λ x. x.1) h5) ∙ sym (ap (λ x. x.1) e5) in
      let here : path' ≡ doc.path =
        ap (λ (x : DurableMemoryDocument). x.path) (ok_injective (ap (λ x. x.0) h5)) in
      let there : path ≡ doc.path = ok_injective (sym at_path ∙ ap (λ x. x.0) e3) ∙ here in
      (
        subst (λ p. find_path p d.files ≡ none) there free,
        subst (λ p. is_some (find_path p d'.files) ≡ true) here
            (rw files' (ap is_some (find-set_same path' raw d.files))),
        λ q n. rw files' (find-set_other path' q raw d.files (λ e. n (sym here ∙ e))),
        λ q f.
            ap (λ (x : Disk). find_path q x.artifacts) last
            ∙ ((refresh_scope_artifacts-IsBeside env scope key durable).at (audited d4 id)).1 q f
            ∙ ap (find_path q) derived,
      )
    where
      clocked : Disk → Disk
      clocked d1 = record d1 { readings = suc d1.readings }

      audited : Disk → Text → Disk
      audited d4 id = record d4 {
        readings = suc d4.readings;
        logs =
            d4.logs
            ++ (
              join (logs_dir env.resolver scope checked.project_key) write_audit_log,
              audit_entry (env.to_rfc3339 (env.clock d4.readings)) (text "write") scope (some id)
                  checked.session_id
                  (text "Created durable memory '" ++ (checked.title ++ text "'.")),
            )
              ∷ [];
      }
