-- ===== src/Store/Status/Archive.antt =====
-- Archiving changes one record, and it is found again as it was returned.
use jiandu.Prelude.{
  suc, ◌≡◌, ◌≢◌, refl, sym, ap, ◌∙◌, subst, Bool, true, false, not, ◌||◌, [], ◌∷◌, ◌++◌, Option,
  none, some, arith, ◌==◌, Bool-cases, Option-cases, inl, inr, unwrap_or,
}
use jiandu.Prelude.Classes.{◌=?◌, nat_eq, list_eq, option_eq}
use jiandu.Result.{Result, ok, ok_injective, >>=-eq-ok, map_err, invalid_data}
use jiandu.Text.{Text, text, trim, strip_prefix, trim_start_matches}
use jiandu.Text.Trim.{trim_idem}
use jiandu.Types.{
  MemoryScope, session, project, global, scope_eq, DurableMemoryStatus, DurableMemoryFrontmatter,
  status_beq, status_beq_iff, status_as_str, DurableMemoryDocument,
}
use jiandu.Validate.{validate_memory_id}
use jiandu.Validate.Ids.{validate_memory_id_idem}
use jiandu.Document.{YamlLaws, parse_markdown_document, or_err, split_once, end_marker}
use jiandu.Paths.{
  PathBuf, join, topic_path, topics_dir, logs_dir, scope_read_roots, project_root, global_root,
  key_or_unknown,
}
use jiandu.Store.Disk.{Env, Disk, find_path, next-eq-ok, found_or_none}
use jiandu.Store.Steps.{ChangesOnly}
use jiandu.Store.Locate.{
  require_project_key, expected_project_key, located_document, read_roots, write_document,
  get_memory_at_locator, append_audit,
}
use jiandu.Store.Locate.Lookup.{
  IsDurable, located_document-path, get_memory_at_locator-IsStored, located_document-IsAt,
  get_memory_at_locator_keeps,
}
use jiandu.Store.Locate.Written.{
  write-get_memory_at_locator, get_memory_at_locator_lem, stored, written,
}
use jiandu.Store.Artifacts.{refresh_scope_artifacts}
use jiandu.Store.Keeps.{refresh_scope_artifacts_files}
use jiandu.Store.Status.{
  set_memory_status, archive_found, archive_locked, with_status, updater, purge_audit_log,
  audit_entry,
}

-- A parsed body is trimmed.
parsed_body :
    (env : Env) (raw : Text) (fm : DurableMemoryFrontmatter) (body : Text)
    → parse_markdown_document env.yaml raw ≡ ok (fm, body)
    → trim body ≡ body
unfolding parse_markdown_document
parsed_body env raw fm body h =
    let (rest, _, h1) =
      >>=-eq-ok (or_err (strip_prefix (text "---\n") (trim_start_matches (λ c. c == 0xFEFF) raw))) _
        h in
    let (parts, _, h2) = >>=-eq-ok (or_err (split_once end_marker rest)) _ h1 in
    let (parsed, _, h3) = >>=-eq-ok (or_err (env.yaml.from_str parts.0)) _ h2 in
    let (id, _, h4) = >>=-eq-ok (map_err invalid_data (validate_memory_id parsed.id)) _ h3 in
    let e : trim parts.1 ≡ body =
      ap (λ (x : DurableMemoryFrontmatter × Text). x.1) (ok_injective h4) in
    ap trim (sym e) ∙ trim_idem parts.1 ∙ e

module _ (env : Env) where
  located_body :
      (scope : MemoryScope) (key : Option Text) (id : Text) (path : PathBuf) (raw : Text)
      (doc : DurableMemoryDocument)
      → located_document env scope key id path raw ≡ ok (some doc)
      → trim doc.body ≡ doc.body
  unfolding located_document
  located_body scope key id path raw doc h =
      let ((fm, body), e, k) = >>=-eq-ok (parse_markdown_document env.yaml raw) _ h in
      elim (Bool-cases (
        not (fm.id =? id)
        || not (fm.scope =? scope)
        || not (fm.project_key =? expected_project_key env scope key))) [
          | inl f ↦ absurd (ground arith)
          | inr f ↦
              let same : body ≡ doc.body = ground arith in
              subst (λ b. trim b ≡ b) same (parsed_body env raw fm body e)
        ]

  -- The path of a record that a lookup finds is its topic path.
  found_at :
      (scope : MemoryScope) (key : Option Text) (u : Text) (root : PathBuf)
      (doc : DurableMemoryDocument) (d d' : Disk)
      → read_roots env scope key u (root ∷ []) d ≡ (ok (some doc), d')
      → join (join root topics_dir) (u ++ text ".md") ≡ doc.path
  unfolding read_roots
  found_at scope key u root doc d d' h =
      let path = join (join root topics_dir) (u ++ text ".md") in
      elim (Option-cases (find_path path d.files)) [
        | inl e ↦ absurd (not_found (rw (e, read_roots) at h))
        | inr (raw, e) ↦
            let k : (located_document env scope key u path raw, d) ≡ (ok (some doc), d') =
              rw (e, read_roots) at h in
            located_document-path env scope key u path raw doc (ap (λ x. x.0) k)
      ]
    where
      not_found :
          ◌≢◌ {A = Result (Option DurableMemoryDocument) × Disk} (ok none, d) (ok (some doc), d')
      not_found e = ground arith

  found_path :
      (scope : MemoryScope) (project_key key : Option Text) (id u : Text)
      (doc : DurableMemoryDocument) (d d' : Disk)
      → IsDurable scope
      → validate_memory_id id ≡ ok u
      → require_project_key env scope project_key ≡ ok key
      → get_memory_at_locator env scope project_key id d ≡ (ok (some doc), d')
      → topic_path env.resolver scope key u ≡ ok doc.path
  unfolding get_memory_at_locator topic_path scope_read_roots
  found_path session project_key key id u doc d d' s v r h = absurd (s refl)
  found_path global project_key key id u doc d d' s v r h =
      rw (validate_memory_id_idem id u v)
        (ap ok (found_at global key u (global_root env.resolver) doc d d' (rw (v, r) at h)))
  found_path project project_key key id u doc d d' s v r h = rw (validate_memory_id_idem id u v) (
      ap ok (
        found_at project key u (project_root env.resolver (key_or_unknown key)) doc d d'
          (rw (v, r) at h)))

  -- What `set_memory_status` leaves: the status asked for, in the record at the same place.
  abbrev HasStatus :
      MemoryScope
      → Option Text
      → Text
      → DurableMemoryStatus
      → DurableMemoryDocument
      → Disk
      → Disk
      → Type 0
  HasStatus scope project_key id status doc d d' =
      (doc.frontmatter.status ≡ status)
      × (get_memory_at_locator env scope project_key id d' ≡ (ok (some doc), d'))
      × ChangesOnly doc.path d d'

  set_memory_status-HasStatus :
      (scope : MemoryScope) (project_key : Option Text) (id : Text) (status : DurableMemoryStatus)
      (kind actor : Text) (doc doc' : DurableMemoryDocument) (changed : Bool) (d d' : Disk)
      → IsDurable scope
      → YamlLaws env.yaml doc'.frontmatter
      → get_memory_at_locator env scope project_key id d ≡ (ok (some doc), d)
      → set_memory_status env doc status kind actor d ≡ (ok (changed, doc'), d')
      → HasStatus scope project_key id status doc' d d'
  unfolding set_memory_status
  set_memory_status-HasStatus scope project_key id status kind actor doc doc' changed d d' s laws h
        k =
      let (u, key, v, r, _, (raw, _, located)) =
        get_memory_at_locator-IsStored env scope project_key id doc d d h in
      let (i, sc, pk) = located_document-IsAt env scope key u doc.path raw doc located in
      elim (Bool-cases (status_beq doc.frontmatter.status status)) [
        | inl e ↦
            let k' : ◌≡◌ {A = Result (Bool × DurableMemoryDocument) × Disk} (ok (false, doc), d)
                (ok (changed, doc'), d') =
              rw e at k in
            let doc_eq : doc ≡ doc' = ground arith in
            let d_eq : d ≡ d' = ap (λ x. x.1) k' in
            let base : HasStatus scope project_key id status doc d d =
              ((status_beq_iff doc.frontmatter.status status).0 e, h, λ p n. refl) in
            subst (λ x. HasStatus scope project_key id status x d d') doc_eq
              (subst (λ x. HasStatus scope project_key id status doc d x) d_eq base)
        | inr e ↦
            let now = env.to_rfc3339 (env.clock d.readings) in
            let d1 = record d { readings = suc d.readings } in
            let docn = with_status status now (updater kind actor) doc in
            let (_, _, _, returned) = next-eq-ok (write_document env docn d1) _ (rw e at k) in
            let doc_eq : docn ≡ doc' = ground arith in
            let valid : validate_memory_id docn.frontmatter.id ≡ ok u =
              rw i (validate_memory_id_idem id u v) in
            let same_id : ◌≡◌ {A = DurableMemoryFrontmatter} docn.frontmatter
                (record docn.frontmatter { id = u }) =
              rw i refl in
            let (new_raw, wrote, found, others) =
              write-get_memory_at_locator env docn u scope project_key key id d1 s valid v r sc pk
                (found_path scope project_key key id u doc d d s v r h)
                (subst (YamlLaws env.yaml)
                  (ap (λ (x : DurableMemoryDocument). x.frontmatter) (sym doc_eq) ∙ same_id)
                  laws) in
            let after = written env docn u new_raw d1 in
            let k' : ◌≡◌ {A = Result (Bool × DurableMemoryDocument) × Disk} (ok (true, docn), after)
                (ok (changed, doc'), d') =
              rw (e, wrote) at k in
            let kept_body = located_body scope key u doc.path raw doc located in
            let stored_eq : stored env docn u ≡ docn =
              rw kept_body (ap (λ f. record docn { frontmatter = f }) (sym same_id)) in
            let base : HasStatus scope project_key id status docn d after = (
              refl,
              subst
                  (λ x. get_memory_at_locator env scope project_key id after ≡ (ok (some x), after))
                  stored_eq found,
              others,
            ) in
            subst (λ x. HasStatus scope project_key id status x d d') doc_eq
              (subst (λ x. HasStatus scope project_key id status docn d x) (ap (λ x. x.1) k') base)
      ]

  -- A lookup depends on the files alone.
  same_files-found :
      (scope : MemoryScope) (key : Option Text) (id : Text) (doc : DurableMemoryDocument)
      (d d' : Disk)
      → IsDurable scope
      → d'.files ≡ d.files
      → get_memory_at_locator env scope key id d ≡ (ok (some doc), d)
      → get_memory_at_locator env scope key id d' ≡ (ok (some doc), d')
  same_files-found scope project_key id doc d d' s same h =
      let (u, key, v, r, _, (raw, found, located)) =
        get_memory_at_locator-IsStored env scope project_key id doc d d h in
      get_memory_at_locator_lem env scope project_key key id u doc.path raw d' s v r
        (found_path scope project_key key id u doc d d s v r h) (rw same found)
      ∙ ap (λ x. (x, d')) located

  archive_found-HasStatus :
      (scope : MemoryScope) (key : Option Text) (id : Text) (mode : DurableMemoryStatus)
      (reason : Option Text) (found doc : DurableMemoryDocument) (d d' : Disk)
      → IsDurable scope
      → YamlLaws env.yaml doc.frontmatter
      → get_memory_at_locator env scope key id d ≡ (ok (some found), d)
      → archive_found env mode reason found d ≡ (ok (some doc), d')
      → HasStatus scope key id mode doc d d'
  unfolding archive_found append_audit
  archive_found-HasStatus scope key id mode reason found doc d d' s laws g h =
      let (set, d1, e1, h1) =
        next-eq-ok (set_memory_status env found mode (text "memory_purge") (text "main-model") d) _
          h in
      let fm = set.1.frontmatter in
      let refresh = refresh_scope_artifacts env fm.scope fm.project_key in
      let (_, d3, e3, h3) = next-eq-ok (refresh (audited d1 fm)) _ h1 in
      let doc_eq : set.1 ≡ doc = ground arith in
      let files : d'.files ≡ d1.files =
        ap (λ (x : Disk). x.files) (sym (ap (λ x. x.1) h3) ∙ sym (ap (λ x. x.1) e3))
        ∙ (refresh_scope_artifacts_files env fm.scope fm.project_key).at (audited d1 fm) in
      let (status, at_set, others) =
        set_memory_status-HasStatus scope key id mode (text "memory_purge") (text "main-model")
          found doc set.0 d d1 s laws g
          (subst
            (λ x.
              set_memory_status env found mode (text "memory_purge") (text "main-model") d
              ≡ (ok (set.0, x), d1))
            doc_eq e1) in
      (status, same_files-found scope key id doc d1 d' s files at_set, λ p n. rw files (others p n))
    where
      audited : Disk → DurableMemoryFrontmatter → Disk
      audited d1 fm = record d1 {
        readings = suc d1.readings;
        logs =
            d1.logs
            ++ (
              join (logs_dir env.resolver fm.scope fm.project_key) purge_audit_log,
              audit_entry (env.to_rfc3339 (env.clock d1.readings)) (status_as_str mode) fm.scope
                  (some fm.id) none (unwrap_or reason (status_as_str mode)),
            )
              ∷ [];
      }

  -- If an archival of a durable record returns a document, it has the status asked for, a lookup by
  -- the same id finds it, and every other file is as it was; its YAML must print as lines that read
  -- back.
  pub archive_locked-HasStatus :
      (scope : MemoryScope) (key : Option Text) (id : Text) (mode : DurableMemoryStatus)
      (reason : Option Text) (doc : DurableMemoryDocument) (d d' : Disk)
      → IsDurable scope
      → YamlLaws env.yaml doc.frontmatter
      → archive_locked env scope key id mode reason d ≡ (ok (some doc), d')
      → (doc.frontmatter.status ≡ mode)
        × (get_memory_at_locator env scope key id d' ≡ (ok (some doc), d'))
        × ((p : PathBuf) → doc.path ≢ p → find_path p d'.files ≡ find_path p d.files)
  unfolding archive_locked
  archive_locked-HasStatus scope key id mode reason doc d d' s laws h =
      let (found, d1, e1, h1) = next-eq-ok (get_memory_at_locator env scope key id d) _ h in
      let same : d1 ≡ d = sym (ap (λ x. x.1) e1) ∙ get_memory_at_locator_keeps env scope key id d in
      archived found (subst (λ x. get_memory_at_locator env scope key id d ≡ (ok found, x)) same e1)
        (subst (λ x. found_or_none (archive_found env mode reason) found x ≡ (ok (some doc), d'))
          same h1)
    where
      archived :
          (found : Option DurableMemoryDocument)
          → get_memory_at_locator env scope key id d ≡ (ok found, d)
          → found_or_none (archive_found env mode reason) found d ≡ (ok (some doc), d')
          → HasStatus scope key id mode doc d d'
      archived none g h = absurd (ground arith)
      archived (some found) g h =
          archive_found-HasStatus scope key id mode reason found doc d d' s laws g h
