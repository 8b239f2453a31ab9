-- ===== src/Gardener/Archiving.antt =====
-- What archiving memories does to the files.
use jiandu.Prelude.{
  suc, subst, All-imp, ◌≡◌, ◌≢◌, ◌⊎◌, inl, inr, refl, sym, ap, ◌∙◌, Bool, true, false, List, [],
  ◌∷◌, Option, some, Bool-cases, All, false≢true,
}
use jiandu.Prelude.Classes.{◌=?◌, nat_eq, list_eq}
use jiandu.Result.{Result, ok, err, ok_injective}
use jiandu.Text.{Text, text}
use jiandu.Types.{
  MemoryScope, archived, status_beq, DurableMemoryFrontmatter, DurableMemoryDocument,
}
use jiandu.Validate.{validate_memory_id}
use jiandu.Document.{render_markdown_document}
use jiandu.Paths.{PathBuf}
use jiandu.Store.Disk.{
  Env, Disk, Action, ◌>>=◌, lift, now_rfc3339, find_path, set_path, find-set_same, find-set_other,
  next-eq-ok, lift-eq-ok,
}
use jiandu.Store.Steps.{Steps, Preorder, bind-Steps, pure-Steps}
use jiandu.Store.Locate.{write_document, append_audit}
use jiandu.Store.Status.{set_memory_status, with_status, updater, cons_if}
use jiandu.Gardener.{audit_eviction, archive_one, archive_each}

module _ (env : Env) where
  -- The file is a record that is archived.
  abbrev pub ArchivedAt : PathBuf → Disk → Type 0
  ArchivedAt p d =
      (fm : DurableMemoryFrontmatter) × (body raw : Text) × (fm.status ≡ archived)
      × (render_markdown_document env.yaml fm body ≡ ok raw)
      × (find_path p d.files ≡ some raw)

  -- A relation of disks that the writing of archived records respects.
  module _ {R : Disk → Disk → Type 0} (o : Preorder R) (Allowed : PathBuf → Type 0)
      (quiet : (d x : Disk) → x.files ≡ d.files → R d x)
      (writes : (fm : DurableMemoryFrontmatter) (body raw : Text) (p : PathBuf) (d : Disk)
        → Allowed p
        → fm.status ≡ archived
        → render_markdown_document env.yaml fm body ≡ ok raw
        → R d (record d { files = set_path p raw d.files })) where
    still : {A : Type 0} {m : Action A} → ((d : Disk) → (m d).1.files ≡ d.files) → Steps R m
    still {m = m} h = record { at = λ d. quiet d (m d).1 (h d) }

    lift_then :
        {A B : Type 0} (r : Result A) {f : A → Action B}
        → ((a : A) → r ≡ ok a → Steps R (f a))
        → Steps R (lift r >>= f)
    lift_then (ok a) {f = f} h = record { at = (h a refl).at }
    lift_then (err e) {f = f} h = still (λ d. refl)

    write_document-Steps :
        (doc : DurableMemoryDocument)
        → Allowed doc.path
        → doc.frontmatter.status ≡ archived
        → Steps R (write_document env doc)
    unfolding write_document
    write_document-Steps doc allowed e =
        lift_then (validate_memory_id doc.frontmatter.id) (λ id valid.
          lift_then (render_markdown_document env.yaml doc.frontmatter doc.body) (λ raw rendered.
            record { at = λ d. writes doc.frontmatter doc.body raw doc.path d allowed e rendered }))

    set_memory_status-Steps :
        (doc : DurableMemoryDocument) (kind actor : Text)
        → Allowed doc.path
        → Steps R (set_memory_status env doc archived kind actor)
    unfolding set_memory_status
    set_memory_status-Steps doc kind actor allowed =
        elim (Bool-cases (status_beq doc.frontmatter.status archived)) [
          | inl e ↦ rw e (pure-Steps o (false, doc))
          | inr e ↦ rw e (
              bind-Steps o (now_rfc3339 env) (still (λ d. refl)) (λ now.
                bind-Steps o
                  (write_document env (with_status archived now (updater kind actor) doc))
                  (write_document-Steps (with_status archived now (updater kind actor) doc) allowed
                    refl)
                  (λ u. pure-Steps o (true, with_status archived now (updater kind actor) doc))))
        ]

    audit_eviction-Steps :
        (scope : MemoryScope) (key : Option Text) (doc : DurableMemoryDocument) (b : Bool)
        → Steps R (audit_eviction env scope key doc b)
    unfolding append_audit
    audit_eviction-Steps scope key doc false = pure-Steps o false
    audit_eviction-Steps scope key doc true = still (λ d. refl)

    archive_one-Steps :
        (scope : MemoryScope) (key : Option Text) (doc : DurableMemoryDocument)
        → Allowed doc.path
        → Steps R (archive_one env scope key doc)
    unfolding archive_one
    archive_one-Steps scope key doc allowed =
        bind-Steps o _
          (set_memory_status-Steps doc (text "capacity_eviction") (text "gardener") allowed)
          (λ set. audit_eviction-Steps scope key set.1 set.0)

    pub archive_each-Steps :
        (scope : MemoryScope) (key : Option Text) (docs : List DurableMemoryDocument)
        → All (λ (doc : DurableMemoryDocument). Allowed doc.path) docs
        → Steps R (archive_each env scope key docs)
    unfolding archive_each
    archive_each-Steps scope key [] all = pure-Steps o []
    archive_each-Steps scope key (doc ∷ docs) all =
        bind-Steps o (archive_one env scope key doc) (archive_one-Steps scope key doc all.0)
          (λ changed.
            bind-Steps o (archive_each env scope key docs) (archive_each-Steps scope key docs all.1)
              (λ ids. pure-Steps o (cons_if changed doc.frontmatter.id ids)))

  -- No file but those of the documents is changed.
  abbrev pub ChangesNone : (PathBuf → Type 0) → Disk → Disk → Type 0
  ChangesNone Outside d d' = (p : PathBuf) → Outside p → find_path p d'.files ≡ find_path p d.files

  abbrev pub Elsewhere : List DurableMemoryDocument → PathBuf → Type 0
  Elsewhere docs p = All (λ (doc : DurableMemoryDocument). doc.path ≢ p) docs

  apart-All :
      (all docs : List DurableMemoryDocument)
      → ((p : PathBuf) → Elsewhere all p → Elsewhere docs p)
      → All (λ (doc : DurableMemoryDocument). (p : PathBuf) → Elsewhere all p → doc.path ≢ p) docs
  apart-All all [] h = tt
  apart-All all (doc ∷ docs) h = (λ p e. (h p e).0, apart-All all docs (λ p e. (h p e).1))

  pub archive_each-ChangesNone :
      (scope : MemoryScope) (key : Option Text) (docs : List DurableMemoryDocument)
      → Steps (ChangesNone (Elsewhere docs)) (archive_each env scope key docs)
  archive_each-ChangesNone scope key docs =
      archive_each-Steps {R = ChangesNone (Elsewhere docs)}
        (record { none_done = λ d p h. refl; both = λ a b c h k p e. k p e ∙ h p e })
        (λ q. (p : PathBuf) → Elsewhere docs p → q ≢ p) (λ d x e p h. ap (find_path p) e)
        (λ fm body raw q d allowed e rendered p h. find-set_other q p raw d.files (allowed p h))
        scope key docs (apart-All docs docs (λ p h. h))

  abbrev KeepsArchived : PathBuf → Disk → Disk → Type 0
  KeepsArchived p d d' = ArchivedAt p d → ArchivedAt p d'

  archived_written :
      (p : PathBuf) (fm : DurableMemoryFrontmatter) (body raw : Text) (q : PathBuf) (d : Disk)
      → fm.status ≡ archived
      → render_markdown_document env.yaml fm body ≡ ok raw
      → KeepsArchived p d (record d { files = set_path q raw d.files })
  archived_written p fm body raw q d e rendered (fm', body', raw', e', rendered', found) =
      elim (Bool-cases (q =? p)) [
        | inl same ↦ (
          fm,
          body,
          raw,
          e,
          rendered,
          ap (λ x. find_path x (set_path q raw d.files)) (sym ((list_eq.beq_iff q p).0 same))
              ∙ find-set_same q raw d.files,
        )
        | inr apart ↦ (
          fm',
          body',
          raw',
          e',
          rendered',
          find-set_other q p raw d.files (λ f. false≢true (sym apart ∙ (list_eq.beq_iff q p).1 f))
              ∙ found,
        )
      ]

  everywhere :
      (docs : List DurableMemoryDocument) → All (λ (doc : DurableMemoryDocument). Unit {0}) docs
  everywhere [] = tt
  everywhere (doc ∷ docs) = (tt, everywhere docs)

  archive_each-KeepsArchived :
      (p : PathBuf) (scope : MemoryScope) (key : Option Text) (docs : List DurableMemoryDocument)
      → Steps (KeepsArchived p) (archive_each env scope key docs)
  archive_each-KeepsArchived p scope key docs =
      archive_each-Steps {R = KeepsArchived p}
        (record { none_done = λ d h. h; both = λ a b c h k x. k (h x) }) (λ q. Unit {0})
        (λ d x e (fm, body, raw, s, r, found). (fm, body, raw, s, r, ap (find_path p) e ∙ found))
        (λ fm body raw q d allowed e rendered. archived_written p fm body raw q d e rendered) scope
        key docs (everywhere docs)

  write_document-ArchivedAt :
      (doc : DurableMemoryDocument) (d x : Disk)
      → doc.frontmatter.status ≡ archived
      → write_document env doc d ≡ (ok tt, x)
      → ArchivedAt doc.path x
  unfolding write_document
  write_document-ArchivedAt doc d x e h =
      let (id, _, g) = lift-eq-ok (validate_memory_id doc.frontmatter.id) d _ h in
      let (raw, rendered, k) =
        lift-eq-ok (render_markdown_document env.yaml doc.frontmatter doc.body) d _ g in
      (
        doc.frontmatter,
        doc.body,
        raw,
        e,
        rendered,
        ap (λ (r : Result (Unit {0}) × Disk). find_path doc.path r.1.files) (sym k)
            ∙ find-set_same doc.path raw d.files,
      )

  set_memory_status-ArchivedAt :
      (doc doc' : DurableMemoryDocument) (kind actor : Text) (d x : Disk)
      → set_memory_status env doc archived kind actor d ≡ (ok (true, doc'), x)
      → ArchivedAt doc.path x
  unfolding set_memory_status
  set_memory_status-ArchivedAt doc doc' kind actor d x h =
      elim (Bool-cases (status_beq doc.frontmatter.status archived)) [
        | inl e ↦
            let k : ◌≡◌ {A = Result (Bool × DurableMemoryDocument) × Disk} (ok (false, doc), d)
                (ok (true, doc'), x) =
              rw e at h in
            absurd (
              false≢true
                (ap (λ (s : Bool × DurableMemoryDocument). s.0) (ok_injective (ap (λ r. r.0) k))))
        | inr e ↦
            let now = env.to_rfc3339 (env.clock d.readings) in
            let d1 = record d { readings = suc d.readings } in
            let docn = with_status archived now (updater kind actor) doc in
            let (_, y, wrote, k) = next-eq-ok (write_document env docn d1) _ (rw e at h) in
            subst (ArchivedAt doc.path) (ap (λ r. r.1) k)
              (write_document-ArchivedAt docn d1 y refl wrote)
      ]

  audit_eviction-eq-ok :
      (scope : MemoryScope) (key : Option Text) (doc : DurableMemoryDocument) (b : Bool)
      (d d' : Disk)
      → audit_eviction env scope key doc b d ≡ (ok true, d')
      → (b ≡ true) × (d'.files ≡ d.files)
  unfolding append_audit
  audit_eviction-eq-ok scope key doc false d d' h =
      absurd (false≢true (ok_injective (ap (λ r. r.0) h)))
  audit_eviction-eq-ok scope key doc true d d' h =
      (refl, sym (ap (λ (r : Result Bool × Disk). r.1.files) h))

  ArchivedAt-files : (p : PathBuf) (d x : Disk) → x.files ≡ d.files → KeepsArchived p d x
  ArchivedAt-files p d x e (fm, body, raw, s, r, found) =
      (fm, body, raw, s, r, ap (find_path p) e ∙ found)

  -- A record that is reported as changed has been written as archived.
  archive_one-ArchivedAt :
      (scope : MemoryScope) (key : Option Text) (doc : DurableMemoryDocument) (d d' : Disk)
      → archive_one env scope key doc d ≡ (ok true, d')
      → ArchivedAt doc.path d'
  unfolding archive_one
  archive_one-ArchivedAt scope key doc d d' h =
      let ((changed, doc'), x, at, g) =
        next-eq-ok
          (set_memory_status env doc archived (text "capacity_eviction") (text "gardener") d) _ h in
      let (reported, files) = audit_eviction-eq-ok scope key doc' changed x d' g in
      ArchivedAt-files doc.path x d' files
        (set_memory_status-ArchivedAt doc doc' _ _ d x (at ∙ ap (λ b. (ok (b, doc'), x)) reported))

  -- One of the documents has the id, and its file is an archived record.
  abbrev pub HasArchived : Disk → List DurableMemoryDocument → Text → Type 0
  HasArchived d [] id = ⊥
  HasArchived d (doc ∷ docs) id =
      (ArchivedAt doc.path d × (doc.frontmatter.id ≡ id)) ⊎ HasArchived d docs id

  HasArchived-files :
      (d x : Disk) (docs : List DurableMemoryDocument) (id : Text)
      → x.files ≡ d.files
      → HasArchived d docs id
      → HasArchived x docs id
  HasArchived-files d x [] id e h = absurd h
  HasArchived-files d x (doc ∷ docs) id e (inl (h, same)) =
      inl (ArchivedAt-files doc.path d x e h, same)
  HasArchived-files d x (doc ∷ docs) id e (inr h) = inr (HasArchived-files d x docs id e h)

  pub All-HasArchived-files :
      (d x : Disk) (docs : List DurableMemoryDocument) (ids : List Text)
      → x.files ≡ d.files
      → All (HasArchived d docs) ids
      → All (HasArchived x docs) ids
  All-HasArchived-files d x docs ids e h =
      All-imp (HasArchived d docs) (HasArchived x docs) (λ id. HasArchived-files d x docs id e) ids
        h

  pub archive_each-HasArchived :
      (scope : MemoryScope) (key : Option Text) (docs : List DurableMemoryDocument)
      (ids : List Text) (d d' : Disk)
      → archive_each env scope key docs d ≡ (ok ids, d')
      → All (HasArchived d' docs) ids
  unfolding archive_each
  archive_each-HasArchived scope key [] ids d d' h =
      subst (All (HasArchived d' [])) (ok_injective (ap (λ r. r.0) h)) tt
  archive_each-HasArchived scope key (doc ∷ docs) ids d d' h =
      let (changed, x, one, g) = next-eq-ok (archive_one env scope key doc d) _ h in
      let (rest, y, archived_rest, k) = next-eq-ok (archive_each env scope key docs x) _ g in
      let later = archive_each-HasArchived scope key docs rest x y archived_rest in
      let kept =
        subst (KeepsArchived doc.path x) (ap (λ r. r.1) archived_rest)
          ((archive_each-KeepsArchived doc.path scope key docs).at x) in
      subst (λ z. All (HasArchived z (doc ∷ docs)) ids) (ap (λ r. r.1) k)
        (subst (All (HasArchived y (doc ∷ docs))) (ok_injective (ap (λ r. r.0) k)) (
          add changed rest y
            (λ e. kept (archive_one-ArchivedAt scope key doc d x (one ∙ ap (λ b. (ok b, x)) e)))
            (All-imp (HasArchived y docs) (HasArchived y (doc ∷ docs)) (λ id a. inr a) rest later)))
    where
      add :
          (changed : Bool) (rest : List Text) (y : Disk)
          → (changed ≡ true → ArchivedAt doc.path y)
          → All (HasArchived y (doc ∷ docs)) rest
          → All (HasArchived y (doc ∷ docs)) (cons_if changed doc.frontmatter.id rest)
      add true rest y a h = (inl (a refl, refl), h)
      add false rest y a h = h
