-- ===== src/Store/Artifacts/Apart.antt =====
-- The derived files of a durable scope are apart from its documents, the Dream snapshots and the notes.
use jiandu.Prelude.{
  ◌≡◌, ◌≢◌, ◌⊎◌, inl, inr, refl, sym, ap, ◌∙◌, [], ◌∷◌, ◌++◌, List, Option, arith, All, length,
  length-append, all, all-append, ◌&&◌, true, false, false≢true,
}
use jiandu.Prelude.Classes.{◌=?◌, nat_eq, list_eq}
use jiandu.Result.{ok}
use jiandu.Text.{Text, text}
use jiandu.Types.{MemoryScope, session, project, global, DurableMemoryDocument}
use jiandu.Validate.{validate_session_topic}
use jiandu.Validate.Safety.{IsComponent, not_separator, validate_session_topic-IsComponent}
use jiandu.Paths.{
  PathBuf, MemoryPathResolver, join, topics_dir, note_dir, scope_dir, topic_path, dream_path,
  scope_generation_path, session_root, session_note_dir, session_topic_path,
}
use jiandu.Paths.Layout.{join-IsComponent, snoc_injective, topic_path_confined}
use jiandu.Store.Disk.{
  Env, Disk, Action, Artifact, lift, write_artifact, now_rfc3339, find_path, find-set_other,
}
use jiandu.Store.Steps.{Steps, Preorder, bind-Steps, pure-Steps}
use jiandu.Store.Locate.{require_project_key, list_memory_documents}
use jiandu.Store.Artifacts.{
  refresh_scope_artifacts, write_batch, scope_artifacts, canonical_scope_generation,
}

-- The files of the store that are not derived.
pub data TextFile (self : MemoryPathResolver) : PathBuf → Type 0 where
  document :
      (scope : MemoryScope) (key : Option Text) (id : Text) (p : PathBuf)
      → scope ≢ session
      → topic_path self scope key id ≡ ok p
      → TextFile self p
  snapshot :
      (scope : MemoryScope) (key : Option Text)
      → scope ≢ session
      → TextFile self (dream_path self scope key)
  note :
      (session_id topic u : Text)
      → validate_session_topic topic ≡ ok u
      → TextFile self (session_topic_path self session_id u)

differ : (a b : Text) → (a =? b) ≡ false → a ≢ b
differ a b h e = false≢true (sym h ∙ (list_eq.beq_iff a b).1 e)

component :
    (t : Text)
    → (t =? []) ≡ false
    → all not_separator t ≡ true
    → (t =? text ".") ≡ false
    → (t =? text "..") ≡ false
    → IsComponent t
component t a b c d = (differ t [] a, b, differ t (text ".") c, differ t (text "..") d)

IsComponent-md : (u : Text) → IsComponent u → IsComponent (u ++ text ".md")
IsComponent-md u c = (
  λ e. omega (arith, ap length e, length-append u (text ".md")),
  rw (all-append not_separator u (text ".md")) (rw c.1 refl),
  λ e. omega (arith, ap length e, length-append u (text ".md")),
  λ e. omega (arith, ap length e, length-append u (text ".md")),
)

-- The path names a file `name` in a directory `dir`.
abbrev IsIn : Text → Text → PathBuf → Type 0
IsIn dir name p = (root : PathBuf) × (p ≡ (root ++ dir ∷ []) ++ name ∷ [])

IsIn-apart :
    (dir name dir' name' : Text) (p q : PathBuf)
    → IsIn dir name p
    → IsIn dir' name' q
    → (dir ≡ dir' → name ≡ name' → ⊥)
    → p ≢ q
IsIn-apart dir name dir' name' p q (root, e) (root', e') differ same =
    let (dirs, names) = snoc_injective _ _ _ _ (sym e ∙ same ∙ e') in
    differ (snoc_injective _ _ _ _ dirs).1 names

module _ (self : MemoryPathResolver) where
  scope_dir-IsIn :
      (scope : MemoryScope) (key : Option Text) (dir : Text)
      → scope ≢ session
      → IsComponent dir
      → (root : PathBuf) × (scope_dir dir self scope key ≡ root ++ dir ∷ [])
  scope_dir-IsIn session key dir durable c = absurd (durable refl)
  scope_dir-IsIn project key dir durable c = (_, join-IsComponent _ dir c)
  scope_dir-IsIn global key dir durable c = (_, join-IsComponent _ dir c)

  file-IsIn :
      (scope : MemoryScope) (key : Option Text) (dir name : Text)
      → scope ≢ session
      → IsComponent dir
      → IsComponent name
      → IsIn dir name (join (scope_dir dir self scope key) name)
  file-IsIn scope key dir name durable c n =
      let (root, e) = scope_dir-IsIn scope key dir durable c in
      (root, join-IsComponent (scope_dir dir self scope key) name n ∙ ap (λ x. x ++ name ∷ []) e)

  -- Where the files are that are not derived.
  TextFile-IsIn :
      (p : PathBuf)
      → TextFile self p
      → ((name : Text) × IsIn topics_dir name p)
        ⊎ (IsIn (text "views") (text "DREAM.md") p ⊎ ((name : Text) × IsIn note_dir name p))
  unfolding dream_path session_topic_path session_note_dir
  TextFile-IsIn _ (document scope key id p durable at) =
      let (u, _, e) = topic_path_confined self scope key id p at in
      let (root, there) =
        scope_dir-IsIn scope key topics_dir durable (component topics_dir refl refl refl refl) in
      inl (u ++ text ".md", (root, e ∙ ap (λ x. x ++ (u ++ text ".md") ∷ []) there))
  TextFile-IsIn _ (snapshot scope key durable) = inr (
      inl (
        file-IsIn scope key (text "views") (text "DREAM.md") durable
          (component (text "views") refl refl refl refl)
          (component (text "DREAM.md") refl refl refl refl)))
  TextFile-IsIn _ (note session_id topic u valid) =
      let (_, c) = validate_session_topic-IsComponent topic u valid in
      inr (
        inr (
          u ++ text ".md",
          (
            session_root self session_id,
            join-IsComponent (session_note_dir self session_id) (u ++ text ".md")
                  (IsComponent-md u c)
                ∙ ap (λ x. x ++ (u ++ text ".md") ∷ [])
                    (join-IsComponent (session_root self session_id) note_dir
                      (component note_dir refl refl refl refl)),
          ),
        ))

  -- A file of another directory is none of these, nor is one of the views but DREAM.md.
  apart :
      (dir name : Text) (a p : PathBuf)
      → IsIn dir name a
      → (dir =? topics_dir) ≡ false
      → (dir =? note_dir) ≡ false
      → ((dir =? text "views") && (name =? text "DREAM.md")) ≡ false
      → TextFile self p
      → a ≢ p
  apart dir name a p at topics notes dream file = elim (TextFile-IsIn p file) [
    | inl (n, h) ↦ IsIn-apart dir name topics_dir n a p at h (λ e f. differ dir topics_dir topics e)
    | inr (inl h) ↦ IsIn-apart dir name (text "views") (text "DREAM.md") a p at h (λ e f.
        false≢true (
          sym dream
          ∙ ap (λ b. b && (name =? text "DREAM.md")) ((list_eq.beq_iff dir (text "views")).1 e)
          ∙ (list_eq.beq_iff name (text "DREAM.md")).1 f))
    | inr (inr (n, h)) ↦
        IsIn-apart dir name note_dir n a p at h (λ e f. differ dir note_dir notes e)
  ]

module _ (env : Env) where
  abbrev IsApart : PathBuf × Artifact → Type 0
  IsApart a = (p : PathBuf) → TextFile env.resolver p → a.0 ≢ p

  derived :
      (scope : MemoryScope) (key : Option Text) (dir name : Text)
      → scope ≢ session
      → IsComponent dir
      → IsComponent name
      → (dir =? topics_dir) ≡ false
      → (dir =? note_dir) ≡ false
      → ((dir =? text "views") && (name =? text "DREAM.md")) ≡ false
      → (p : PathBuf) → TextFile env.resolver p
      → join (scope_dir dir env.resolver scope key) name ≢ p
  derived scope key dir name durable c n topics notes dream p =
      apart env.resolver dir name (join (scope_dir dir env.resolver scope key) name) p
        (file-IsIn env.resolver scope key dir name durable c n) topics notes dream

  indexes_dir-IsComponent : IsComponent (text "indexes")
  indexes_dir-IsComponent = component (text "indexes") refl refl refl refl

  views_dir-IsComponent : IsComponent (text "views")
  views_dir-IsComponent = component (text "views") refl refl refl refl

  state_dir-IsComponent : IsComponent (text "state")
  state_dir-IsComponent = component (text "state") refl refl refl refl

  scope_artifacts-IsApart :
      (scope : MemoryScope) (key : Option Text) (now generation : Text)
      (docs : List DurableMemoryDocument)
      → scope ≢ session
      → All IsApart (scope_artifacts env scope key now docs generation)
  unfolding scope_artifacts scope_generation_path
  scope_artifacts-IsApart scope key now generation docs durable = (
    derived scope key (text "indexes") (text "lexical.json") durable indexes_dir-IsComponent
        (component (text "lexical.json") refl refl refl refl) refl refl refl,
    (
      derived scope key (text "indexes") (text "recent.json") durable indexes_dir-IsComponent
          (component (text "recent.json") refl refl refl refl) refl refl refl,
      (
        derived scope key (text "indexes") (text "graph.json") durable indexes_dir-IsComponent
            (component (text "graph.json") refl refl refl refl) refl refl refl,
        (
          derived scope key (text "indexes") (text "stale_candidates.json") durable
              indexes_dir-IsComponent (component (text "stale_candidates.json") refl refl refl refl)
              refl refl refl,
          (
            derived scope key (text "indexes") (text "taxonomy.json") durable
                indexes_dir-IsComponent (component (text "taxonomy.json") refl refl refl refl) refl
                refl refl,
            (
              derived scope key (text "views") (text "MEMORY.md") durable views_dir-IsComponent
                  (component (text "MEMORY.md") refl refl refl refl) refl refl refl,
              (
                derived scope key (text "views") (text "RECENT.md") durable views_dir-IsComponent
                    (component (text "RECENT.md") refl refl refl refl) refl refl refl,
                (
                  derived scope key (text "views") (text "STALE.md") durable views_dir-IsComponent
                      (component (text "STALE.md") refl refl refl refl) refl refl refl,
                  (
                    derived scope key (text "state") (text "schema_version.json") durable
                        state_dir-IsComponent
                        (component (text "schema_version.json") refl refl refl refl) refl refl refl,
                    (
                      derived scope key (text "state") (text "last_reindex.json") durable
                          state_dir-IsComponent
                          (component (text "last_reindex.json") refl refl refl refl) refl refl refl,
                      (
                        derived scope key (text "state") (text "source_generation.json") durable
                            state_dir-IsComponent
                            (component (text "source_generation.json") refl refl refl refl) refl
                            refl refl,
                        tt,
                      ),
                    ),
                  ),
                ),
              ),
            ),
          ),
        ),
      ),
    ),
  )

  -- The text files are as they were, and no derived file is put in the place of one.
  abbrev pub IsBeside : Disk → Disk → Type 0
  IsBeside d d' =
      (d'.files ≡ d.files)
      × ((p : PathBuf)
          → TextFile env.resolver p
          → find_path p d'.artifacts ≡ find_path p d.artifacts)

  beside : Preorder IsBeside
  beside = record {
    none_done = λ d. (refl, λ p f. refl);
    both = λ a b c h k. (k.0 ∙ h.0, λ p f. k.1 p f ∙ h.1 p f);
  }

  idle : {A : Type 0} {m : Action A} → ((d : Disk) → IsBeside d (m d).1) → Steps IsBeside m
  idle h = record { at = h }

  write_batch-IsBeside :
      (batch : List (PathBuf × Artifact))
      → All IsApart batch
      → Steps IsBeside (write_batch env batch)
  unfolding write_batch
  write_batch-IsBeside [] h = pure-Steps beside tt
  write_batch-IsBeside ((path, artifact) ∷ batch) h =
      bind-Steps beside (write_artifact path artifact)
        (idle (λ d. (refl, λ p f. find-set_other path p artifact d.artifacts (h.0 p f))))
        (λ u. write_batch-IsBeside batch h.1)

  -- Refreshing what is derived of a durable scope, also where it fails, changes no document, Dream
  -- snapshot or note of the store, and puts no derived file at the path of one.
  pub refresh_scope_artifacts-IsBeside :
      (scope : MemoryScope) (key : Option Text)
      → scope ≢ session
      → Steps IsBeside (refresh_scope_artifacts env scope key)
  unfolding refresh_scope_artifacts list_memory_documents
  refresh_scope_artifacts-IsBeside scope key durable =
      bind-Steps beside (lift (require_project_key env scope key)) (idle (λ d. (refl, λ p f. refl)))
        (λ k.
          bind-Steps beside (list_memory_documents env scope k) (idle (λ d. (refl, λ p f. refl)))
            (λ docs. bind-Steps beside (now_rfc3339 env) (idle (λ d. (refl, λ p f. refl))) (λ now.
              bind-Steps beside (lift (canonical_scope_generation env docs))
                (idle (λ d. (refl, λ p f. refl)))
                (λ generation.
                  write_batch-IsBeside (scope_artifacts env scope k now docs generation)
                    (scope_artifacts-IsApart scope k now generation docs durable)))))
