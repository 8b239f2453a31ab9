-- ===== src/Sessions/Notes.antt =====
-- Where a session's notes are, and what is read back.
use jiandu.Prelude.{
  suc, ◌⊎◌, ◌≡◌, ◌≢◌, refl, sym, ap, ◌∙◌, true, [], ◌∷◌, ◌++◌, Option, none, some, arith, all,
  is_some, Option-cases, inl, inr,
}
use jiandu.Prelude.Classes.{nat_eq, list_eq}
use jiandu.Result.{ok, >>=-eq-ok, ok_injective, Result-cases}
use jiandu.Text.{Text, text, trim}
use mathlib.Core.List.{append_cancel_right}
use jiandu.Types.{SessionState}
use jiandu.Validate.{is_id_char, validate_session_id, validate_session_topic}
use jiandu.Validate.Safety.{IsComponent, validate_session_id-IsComponent, IsComponent-append}
use jiandu.Paths.{
  PathBuf, note_dir, sessions_root, session_root, session_note_dir, session_topic_path,
  session_state_path,
}
use jiandu.Paths.Layout.{join-IsComponent, snoc_injective}
use jiandu.Store.Disk.{
  Env, Disk, session_state, find_path, set_path, remove_path, find-set_same, find-set_other,
  find-remove_same, find-remove_other,
}
use jiandu.Sessions.{
  note_path, read_session_topic, topics_in, list_session_topics, persist_session_state,
  write_session_topic, append_session_topic, appended, delete_session_topic, as_state, state_or_new,
  persisted,
}

topic_chars :
    (t u : Text)
    → validate_session_topic t ≡ ok u
    → (u ≡ trim t) × (u ≢ []) × (all is_id_char u ≡ true)
unfolding validate_session_topic
topic_chars t u h = ground arith

module _ (env : Env) where
  -- The file `<topic>.md`, directly in the note directory of the session.
  abbrev pub note_at : Text → Text → PathBuf
  note_at s t = ((sessions_root env.resolver ++ s ∷ []) ++ note_dir ∷ []) ++ (t ++ text ".md") ∷ []

  note_file :
      (s t : Text)
      → IsComponent s
      → t ≢ []
      → all is_id_char t ≡ true
      → session_topic_path env.resolver s t ≡ note_at s t
  unfolding session_topic_path session_note_dir session_root
  note_file s t c n h = rw (join-IsComponent (sessions_root env.resolver) s c) (
      rw (join-IsComponent (sessions_root env.resolver ++ s ∷ []) note_dir note_component) (
        join-IsComponent ((sessions_root env.resolver ++ s ∷ []) ++ note_dir ∷ []) (t ++ text ".md")
          (IsComponent-append t (text ".md") h n refl)))
    where
      note_component : IsComponent note_dir
      note_component = (λ e. ground arith, refl, λ e. ground arith, λ e. ground arith)

  -- A note's path is made only for a valid session and a valid topic, and names a file in the note
  -- directory of that session: neither can reach another directory.
  pub note_path_confined :
      (session_id topic : Text) (p : PathBuf)
      → note_path env session_id topic ≡ ok p
      → p ≡ note_at (trim session_id) (trim topic)
  unfolding note_path
  note_path_confined session_id topic p h =
      let (s, es, g) = >>=-eq-ok (validate_session_id session_id) _ h in
      let (t, et, k) = >>=-eq-ok (validate_session_topic topic) _ g in
      let (same, c) = validate_session_id-IsComponent session_id s es in
      let (trimmed, n, chars) = topic_chars topic t et in
      sym (ok_injective k)
      ∙ note_file s t c n chars
      ∙ ap (λ x. note_at x t) same
      ∙ ap (λ x. note_at (trim session_id) x) trimmed

  -- Two notes share a file only if they have the same session and the same topic, each trimmed.
  pub note_path_injective :
      (s t s' t' : Text) (p : PathBuf)
      → note_path env s t ≡ ok p
      → note_path env s' t' ≡ ok p
      → (trim s ≡ trim s') × (trim t ≡ trim t')
  note_path_injective s t s' t' p h k =
      let files =
        snoc_injective _ _ _ _ (sym (note_path_confined s t p h) ∙ note_path_confined s' t' p k) in
      let dirs = snoc_injective _ _ _ _ files.0 in
      (
        (snoc_injective _ _ _ _ dirs.0).1,
        append_cancel_right (trim t) (trim t') (text ".md") files.1,
      )

  valid_session :
      (session_id topic : Text) (p : PathBuf)
      → note_path env session_id topic ≡ ok p
      → (u : Text) × (validate_session_id session_id ≡ ok u)
  unfolding note_path
  valid_session session_id topic p h =
      let (s, es, g) = >>=-eq-ok (validate_session_id session_id) _ h in (s, es)

  list_session_topics_lem :
      (session_id u : Text) (d : Disk)
      → validate_session_id session_id ≡ ok u
      → list_session_topics env session_id d
        ≡ (ok (topics_in (session_note_dir env.resolver session_id) d), d)
  unfolding list_session_topics
  list_session_topics_lem session_id u d h = rw h refl

  -- What is left of a disk when the state of a session has been written.
  abbrev Persisted : Text → Disk → Disk → Type 0
  Persisted session_id d d' =
      (d'.files ≡ d.files)
      × ((state : SessionState) × (find_path (session_state_path env.resolver session_id)
              d'.artifacts
            ≡ some (session_state state))
          × (state.topics ≡ topics_in (session_note_dir env.resolver session_id) d'))

  persist_lem :
      (session_id u : Text) (d : Disk)
      → validate_session_id session_id ≡ ok u
      → (d' : Disk) × (persist_session_state env session_id d ≡ (ok tt, d'))
        × Persisted session_id d d'
  unfolding persist_session_state topics_in
  persist_lem session_id u d h =
      let path = session_state_path env.resolver session_id in
      let topics = topics_in (session_note_dir env.resolver session_id) d in
      let now = env.to_rfc3339 (env.clock d.readings) in
      let state =
        persisted (state_or_new (as_state (find_path path d.artifacts)) session_id now) now
          topics in
      let d' = record d {
        artifacts = set_path path (session_state state) d.artifacts;
        readings = suc d.readings;
      } in
      (
        d',
        rw h (rw (list_session_topics_lem session_id u d h) refl),
        (refl, (state, find-set_same path (session_state state) d.artifacts, refl)),
      )

  -- Writing a note, whatever else is there: the content is read back, every note of another session or
  -- of another topic is what it was, and the state of the session then lists the topics as they are.
  abbrev pub Wrote : Text → Text → Option Text → Disk → Disk → Type 0
  Wrote session_id topic content d d' =
      (read_session_topic env session_id topic d' ≡ (ok content, d'))
      × ((s t : Text) (p : PathBuf)
          → note_path env s t ≡ ok p
          → ((trim s ≡ trim session_id) × (trim t ≡ trim topic) → ⊥)
          → (read_session_topic env s t d').0 ≡ (read_session_topic env s t d).0)
      × ((state : SessionState) × (find_path (session_state_path env.resolver session_id)
              d'.artifacts
            ≡ some (session_state state))
          × (state.topics ≡ topics_in (session_note_dir env.resolver session_id) d'))

  others_kept :
      (session_id topic : Text) (p : PathBuf) (content : Option Text) (d d' : Disk)
      → note_path env session_id topic ≡ ok p
      → find_path p d'.files ≡ content
      → ((q : PathBuf) → p ≢ q → find_path q d'.files ≡ find_path q d.files)
      → ((state : SessionState) × (find_path
              (session_state_path env.resolver session_id)
              d'.artifacts
            ≡ some (session_state state))
          × (state.topics ≡ topics_in (session_note_dir env.resolver session_id) d'))
      → Wrote session_id topic content d d'
  unfolding read_session_topic
  others_kept session_id topic p content d d' h found other state = (
    rw h (rw found refl),
    λ s t q valid apart. rw valid (
        ap (λ o. ok o)
          (other q (λ e.
            apart (note_path_injective s t session_id topic q valid (h ∙ ap (λ x. ok x) e))))),
    state,
  )

  pub write_session_topic_lem :
      (session_id topic content : Text) (p : PathBuf) (d : Disk)
      → note_path env session_id topic ≡ ok p
      → (d' : Disk) × (write_session_topic env session_id topic content d ≡ (ok p, d'))
        × Wrote session_id topic (some content) d d'
  unfolding write_session_topic
  write_session_topic_lem session_id topic content p d h =
      let (u, valid) = valid_session session_id topic p h in
      let put = record d { files = set_path p content d.files } in
      let (d', e, (files, state)) = persist_lem session_id u put valid in
      (
        d',
        rw h (rw e refl),
        others_kept session_id topic p (some content) d d' h
            (ap (find_path p) files ∙ find-set_same p content d.files)
            (λ q n. ap (find_path q) files ∙ find-set_other p q content d.files n) state,
      )

  -- Where the session id and the topic are valid, appending succeeds: the note then reads back as the
  -- old one without the blanks at its end, an empty line, and the content, or as the content alone if
  -- there was no note or a blank one; every other note reads as before; and the state of the session
  -- lists the topics that its directory has.
  pub append_session_topic_lem :
      (session_id topic content : Text) (p : PathBuf) (d : Disk)
      → note_path env session_id topic ≡ ok p
      → (d' : Disk) × (append_session_topic env session_id topic content d ≡ (ok p, d'))
        × Wrote session_id topic (some (appended (find_path p d.files) content)) d d'
  unfolding append_session_topic read_session_topic
  append_session_topic_lem session_id topic content p d h =
      let (d', e, w) =
        write_session_topic_lem session_id topic (appended (find_path p d.files) content) p d h in
      (d', rw h e, w)

  pub delete_session_topic_lem :
      (session_id topic : Text) (p : PathBuf) (d : Disk)
      → note_path env session_id topic ≡ ok p
      → (d' : Disk) × (delete_session_topic env session_id topic d
          ≡ (ok (is_some (find_path p d.files)), d'))
        × Wrote session_id topic none d d'
  unfolding delete_session_topic
  delete_session_topic_lem session_id topic p d h =
      let (u, valid) = valid_session session_id topic p h in
      elim (Option-cases (find_path p d.files)) [
        | inl missing ↦
            let (d', e, (files, state)) = persist_lem session_id u d valid in
            (
              d',
              rw h (rw missing (rw e refl)),
              others_kept session_id topic p none d d' h (ap (find_path p) files ∙ missing)
                  (λ q n. ap (find_path q) files) state,
            )
        | inr (old, there) ↦
            let gone = record d { files = remove_path p d.files } in
            let (d', e, (files, state)) = persist_lem session_id u gone valid in
            (
              d',
              rw h (rw there (rw e refl)),
              others_kept session_id topic p none d d' h
                  (ap (find_path p) files ∙ find-remove_same p d.files)
                  (λ q n. ap (find_path q) files ∙ find-remove_other p q d.files n) state,
            )
      ]

  -- What the operations do to the files alone.
  pub read_session_topic_keeps :
      (session_id topic : Text) (d : Disk)
      → (read_session_topic env session_id topic d).1.files ≡ d.files
  unfolding read_session_topic
  read_session_topic_keeps session_id topic d =
      elim (Result-cases (note_path env session_id topic)) [
        | inl (p, h) ↦ rw h refl
        | inr (e, h) ↦ rw h refl
      ]

  pub write_session_topic_files :
      (session_id topic content : Text) (d : Disk)
      → ((write_session_topic env session_id topic content d).1.files ≡ d.files)
        ⊎ ((p : PathBuf) × (note_path env session_id topic ≡ ok p)
            × ((write_session_topic env session_id topic content d).1.files
                ≡ set_path p content d.files))
  unfolding write_session_topic
  write_session_topic_files session_id topic content d =
      elim (Result-cases (note_path env session_id topic)) [
        | inl (p, h) ↦
            let (u, valid) = valid_session session_id topic p h in
            let put = record d { files = set_path p content d.files } in
            let (d', e, (files, state)) = persist_lem session_id u put valid in
            inr (p, h, rw h (rw e files))
        | inr (e, h) ↦ inl (rw h refl)
      ]

  pub delete_session_topic_files :
      (session_id topic : Text) (d : Disk)
      → ((delete_session_topic env session_id topic d).1.files ≡ d.files)
        ⊎ ((p : PathBuf) × ((delete_session_topic env session_id topic d).1.files
              ≡ remove_path p d.files))
  unfolding delete_session_topic
  delete_session_topic_files session_id topic d =
      elim (Result-cases (note_path env session_id topic)) [
        | inl (p, h) ↦
            let (u, valid) = valid_session session_id topic p h in
            elim (Option-cases (find_path p d.files)) [
              | inl missing ↦
                  let (d', e, (files, state)) = persist_lem session_id u d valid in
                  inl (rw h (rw missing (rw e files)))
              | inr (old, there) ↦
                  let gone = record d { files = remove_path p d.files } in
                  let (d', e, (files, state)) = persist_lem session_id u gone valid in
                  inr (p, rw h (rw there (rw e files)))
            ]
        | inr (e, h) ↦ inl (rw h refl)
      ]
