-- ===== src/Store/Locate/Lookup.antt =====
-- What a lookup returns: only a record of the scope asked for, and what was last written.
use jiandu.Prelude.{
  ◌≡◌, ◌≢◌, ◌⊎◌, inl, inr, refl, sym, ap, ◌∙◌, subst, Bool, true, false, not, ◌||◌, List, [], ◌∷◌,
  ◌++◌, Option, none, some, arith, Bool-cases, Option-cases,
}
use jiandu.Prelude.Classes.{◌=?◌, nat_eq, list_eq, option_eq}
use jiandu.Result.{ok, >>=-eq-ok, ok_injective, Result-cases}
use jiandu.Text.{Text, text, trim, trimmed}
use jiandu.Types.{MemoryScope, session, project, global, scope_eq, DurableMemoryDocument}
use jiandu.Validate.{validate_memory_id}
use jiandu.Validate.Ids.{validate_memory_id_idem, validate_memory_id_iff}
use jiandu.Paths.{PathBuf, join, topics_dir, scope_read_roots}
use jiandu.Document.{parse_markdown_document}
use jiandu.Store.Disk.{Env, Disk, find_path, next-eq-ok}
use jiandu.Store.Locate.{
  require_project_key, expected_project_key, located_document, read_roots, get_memory_at_locator,
  get_memory, or_global,
}

-- A scope that holds durable memories.
abbrev pub IsDurable : MemoryScope → Type 0
IsDurable scope = scope ≢ session

not-false : (b : Bool) → not b ≡ false → b ≡ true
not-false b h = ground arith

module _ (env : Env) where
  -- The document is the one that the locator names.
  abbrev pub IsAt : MemoryScope → Option Text → Text → DurableMemoryDocument → Type 0
  IsAt scope key id doc =
      (doc.frontmatter.id ≡ id)
      × (doc.frontmatter.scope ≡ scope)
      × (doc.frontmatter.project_key ≡ expected_project_key env scope key)

  pub located_document-IsAt :
      (scope : MemoryScope) (key : Option Text) (id : Text) (path : PathBuf) (raw : Text)
      (doc : DurableMemoryDocument)
      → located_document env scope key id path raw ≡ ok (some doc)
      → IsAt scope key id doc
  unfolding located_document
  located_document-IsAt scope key id path raw doc h =
      let ((fm, body), _, k) = >>=-eq-ok (parse_markdown_document env.yaml raw) _ h in
      elim (Bool-cases (fm.id =? id)) [
        | inr e ↦ absurd (ground arith)
        | inl e ↦ elim (Bool-cases (fm.scope =? scope)) [
          | inr f ↦ absurd (ground arith)
          | inl f ↦ elim (Bool-cases (fm.project_key =? expected_project_key env scope key)) [
            | inr g ↦ absurd (ground arith)
            | inl g ↦
                let same : record { frontmatter = fm; body = body; path = path } ≡ doc =
                  ground arith in
                let id_eq = (list_eq.beq_iff fm.id id).0 e in
                let scope_eq_ = (scope_eq.beq_iff fm.scope scope).0 f in
                let key_eq =
                  (option_eq.beq_iff fm.project_key (expected_project_key env scope key)).0 g in
                (
                  ap (λ (x : DurableMemoryDocument). x.frontmatter.id) (sym same) ∙ id_eq,
                  ap (λ (x : DurableMemoryDocument). x.frontmatter.scope) (sym same) ∙ scope_eq_,
                  ap (λ (x : DurableMemoryDocument). x.frontmatter.project_key) (sym same) ∙ key_eq,
                )
          ]
        ]
      ]

  -- The file is on the disk and holds the document that the locator names.
  abbrev pub IsStored : MemoryScope → Option Text → Text → DurableMemoryDocument → Disk → Type 0
  IsStored scope key id doc d =
      (raw : Text) × (find_path doc.path d.files ≡ some raw)
      × (located_document env scope key id doc.path raw ≡ ok (some doc))

  pub located_document-path :
      (scope : MemoryScope) (key : Option Text) (id : Text) (path : PathBuf) (raw : Text)
      (doc : DurableMemoryDocument)
      → located_document env scope key id path raw ≡ ok (some doc)
      → path ≡ doc.path
  unfolding located_document
  located_document-path scope key id path raw doc h =
      let ((fm, body), _, k) = >>=-eq-ok (parse_markdown_document env.yaml raw) _ h in
      elim (Bool-cases (
        not (fm.id =? id)
        || not (fm.scope =? scope)
        || not (fm.project_key =? expected_project_key env scope key))) [
          | inl e ↦ absurd (ground arith)
          | inr e ↦
              let same : record { frontmatter = fm; body = body; path = path } ≡ doc =
                ground arith in
              ap (λ (x : DurableMemoryDocument). x.path) same
        ]

  read_roots-IsStored :
      (scope : MemoryScope) (key : Option Text) (id : Text) (roots : List PathBuf)
      (doc : DurableMemoryDocument) (d d' : Disk)
      → read_roots env scope key id roots d ≡ (ok (some doc), d')
      → (d' ≡ d) × IsStored scope key id doc d
  unfolding read_roots
  read_roots-IsStored scope key id [] doc d d' h = absurd (ground arith)
  read_roots-IsStored scope key id (root ∷ roots) doc d d' h =
      let path = join (join root topics_dir) (id ++ text ".md") in
      elim (Option-cases (find_path path d.files)) [
        | inl e ↦ read_roots-IsStored scope key id roots doc d d' (rw (e, read_roots) at h)
        | inr (raw, e) ↦
            let k : (located_document env scope key id path raw, d) ≡ (ok (some doc), d') =
              rw (e, read_roots) at h in
            let found : located_document env scope key id path raw ≡ ok (some doc) =
              ap (λ x. x.0) k in
            let same = located_document-path scope key id path raw doc found in
            (
              sym (ap (λ x. x.1) k),
              (
                raw,
                rw (sym same) e,
                subst (λ p. located_document env scope key id p raw ≡ ok (some doc)) same found,
              ),
            )
      ]

  -- A lookup that finds a document leaves the disk as it is.
  pub get_memory_at_locator-IsStored :
      (scope : MemoryScope) (project_key : Option Text) (id : Text) (doc : DurableMemoryDocument)
      (d d' : Disk)
      → get_memory_at_locator env scope project_key id d ≡ (ok (some doc), d')
      → (u : Text) × (key : Option Text) × (validate_memory_id id ≡ ok u)
        × (require_project_key env scope project_key ≡ ok key)
        × (d' ≡ d)
        × IsStored scope key u doc d
  unfolding get_memory_at_locator
  get_memory_at_locator-IsStored scope project_key id doc d d' h =
      let (u, d1, e1, h1) = next-eq-ok (validate_memory_id id, d) _ h in
      let (key, d2, e2, h2) = next-eq-ok (require_project_key env scope project_key, d1) _ h1 in
      let same : d2 ≡ d = sym (ap (λ x. x.1) e2) ∙ sym (ap (λ x. x.1) e1) in
      let (same', stored) =
        read_roots-IsStored scope key u (scope_read_roots env.resolver scope key) doc d2 d' h2 in
      (
        u,
        key,
        ap (λ x. x.0) e1,
        ap (λ x. x.0) e2,
        same' ∙ same,
        subst (IsStored scope key u doc) same stored,
      )

  read_roots_keeps :
      (scope : MemoryScope) (key : Option Text) (id : Text) (roots : List PathBuf) (d : Disk)
      → (read_roots env scope key id roots d).1 ≡ d
  unfolding read_roots
  read_roots_keeps scope key id [] d = refl
  read_roots_keeps scope key id (root ∷ roots) d =
      elim (Option-cases (find_path (join (join root topics_dir) (id ++ text ".md")) d.files)) [
        | inl e ↦ rw (e, read_roots) (read_roots_keeps scope key id roots d)
        | inr (raw, e) ↦ rw (e, read_roots) refl
      ]

  -- A lookup changes nothing, whatever it finds.
  pub get_memory_at_locator_keeps :
      (scope : MemoryScope) (key : Option Text) (id : Text) (d : Disk)
      → (get_memory_at_locator env scope key id d).1 ≡ d
  unfolding get_memory_at_locator
  get_memory_at_locator_keeps scope project_key id d = elim (Result-cases (validate_memory_id id)) [
    | inr (x, e) ↦ rw e refl
    | inl (u, e) ↦ elim (Result-cases (require_project_key env scope project_key)) [
      | inr (x, f) ↦ rw e (rw f refl)
      | inl (key, f) ↦
          rw e (rw f (read_roots_keeps scope key u (scope_read_roots env.resolver scope key) d))
    ]
  ]

  pub project_key_lem :
      (key k : Option Text) → require_project_key env project key ≡ ok k → k ≡ trimmed key
  unfolding require_project_key
  project_key_lem key k h = ground arith

  global_key_lem : (key k : Option Text) → require_project_key env global key ≡ ok k → k ≡ none
  unfolding require_project_key
  global_key_lem key k h = ground arith

  global_found :
      (id u : Text) (doc : DurableMemoryDocument) (d d' : Disk)
      → validate_memory_id id ≡ ok u
      → get_memory_at_locator env global none u d ≡ (ok (some doc), d')
      → (d' ≡ d) × IsAt global none u doc
  global_found id u doc d d' v h =
      let (w, key, e, _, same, (raw, _, found)) =
        get_memory_at_locator-IsStored global none u doc d d' h in
      let w_eq : w ≡ u = ok_injective (sym e ∙ validate_memory_id_idem id u v) in
      let (i, s, k) = located_document-IsAt global key w doc.path raw doc found in
      (same, (i ∙ w_eq, s, k))

  -- A memory found by id has that id, trimmed, and is of the preferred project or of the global
  -- scope; without a preferred project it is of the global scope. The lookup changes nothing.
  pub get_memory_confined :
      (id : Text) (preferred : Option Text) (doc : DurableMemoryDocument) (d d' : Disk)
      → get_memory env id preferred d ≡ (ok (some doc), d')
      → (d' ≡ d)
        × (doc.frontmatter.id ≡ trim id)
        × (((preferred ≢ none)
              × (doc.frontmatter.scope ≡ project)
              × (doc.frontmatter.project_key ≡ trimmed preferred))
            ⊎ ((doc.frontmatter.scope ≡ global) × (doc.frontmatter.project_key ≡ none)))
  unfolding get_memory
  get_memory_confined id none doc d d' h =
      let (u, d1, e1, h1) = next-eq-ok (validate_memory_id id, d) _ h in
      let v : validate_memory_id id ≡ ok u = ap (λ x. x.0) e1 in
      let (same, (i, s, k)) = global_found id u doc d1 d' v h1 in
      (same ∙ sym (ap (λ x. x.1) e1), i ∙ ((validate_memory_id_iff id u).0 v).0, inr (s, k))
  get_memory_confined id (some key) doc d d' h =
      let (u, d1, e1, h1) = next-eq-ok (validate_memory_id id, d) _ h in
      let v : validate_memory_id id ≡ ok u = ap (λ x. x.0) e1 in
      let u_eq = ((validate_memory_id_iff id u).0 v).0 in
      let (found, d2, e2, h2) =
        next-eq-ok (get_memory_at_locator env project (some key) u d1) _ h1 in
      let same : d2 ≡ d =
        sym (ap (λ x. x.1) e2)
        ∙ get_memory_at_locator_keeps project (some key) u d1
        ∙ sym (ap (λ x. x.1) e1) in
      chosen found u v u_eq d1 d2 e2 same h2
    where
      chosen :
          (found : Option DurableMemoryDocument) (u : Text)
          → validate_memory_id id ≡ ok u
          → u ≡ trim id
          → (d1 d2 : Disk) → get_memory_at_locator env project (some key) u d1 ≡ (ok found, d2)
          → d2 ≡ d
          → or_global env u found d2 ≡ (ok (some doc), d')
          → (d' ≡ d)
            × (doc.frontmatter.id ≡ trim id)
            × (((some key ≢ none)
                  × (doc.frontmatter.scope ≡ project)
                  × (doc.frontmatter.project_key ≡ trimmed (some key)))
                ⊎ ((doc.frontmatter.scope ≡ global) × (doc.frontmatter.project_key ≡ none)))
      chosen none u v u_eq d1 d2 e2 same h2 =
          let (same', (i, s, k)) = global_found id u doc d2 d' v h2 in
          (same' ∙ same, i ∙ u_eq, inr (s, k))
      chosen (some doc') u v u_eq d1 d2 e2 same h2 =
          let doc_eq : doc' ≡ doc = ground arith in
          let (w, k, e, r, _, (raw, _, at_path)) =
            get_memory_at_locator-IsStored project (some key) u doc' d1 d2 e2 in
          let w_eq : w ≡ u = ok_injective (sym e ∙ validate_memory_id_idem id u v) in
          let (i, s, f) = located_document-IsAt project k w doc'.path raw doc' at_path in
          (
            sym (ap (λ x. x.1) h2) ∙ same,
            subst (λ (x : DurableMemoryDocument). x.frontmatter.id ≡ trim id) doc_eq
                (i ∙ w_eq ∙ u_eq),
            inl (
              λ n. ground arith,
              subst (λ (x : DurableMemoryDocument). x.frontmatter.scope ≡ project) doc_eq s,
              subst (λ (x : DurableMemoryDocument). x.frontmatter.project_key ≡ trimmed (some key))
                  doc_eq (f ∙ project_key_lem (some key) k r),
            ),
          )
