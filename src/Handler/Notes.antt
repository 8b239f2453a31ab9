-- ===== src/Handler/Notes.antt =====
-- The session actions keep every note within its limit.
use jiandu.Prelude.{
  ◌≤◌, ◌≡◌, inl, inr, refl, sym, ap, ◌∙◌, [], Option, none, some, ltb, length, arith, Bool-cases,
  unwrap_or, false≢true,
}
use jiandu.Prelude.Classes.{◌=?◌, nat_eq, list_eq}
use jiandu.Result.{ok}
use jiandu.Text.{Text}
use jiandu.Context.{
  MemoryError, MemoryResult, failed, done, MemoryExecutionContext, require_session_id,
}
use jiandu.Paths.{PathBuf}
use jiandu.Store.Disk.{
  Env, Disk, find_path, set_path, remove_path, find-set_same, find-set_other, find-remove_same,
  find-remove_other,
}
use jiandu.Sessions.{note_path, read_session_topic, write_session_topic, delete_session_topic}
use jiandu.Sessions.Notes.{
  write_session_topic_files, delete_session_topic_files, read_session_topic_keeps,
}
use jiandu.Handler.{session_topic, required_content, max_session_note_chars}
use jiandu.Handler.Call.{Call, next, run}
use jiandu.Handler.Response.{joined, too_large}
use jiandu.Handler.SessionActions.{session_append, session_replace, session_clear}

module _ (store : Env) where
  -- Every note has at most `MAX_SESSION_NOTE_CHARS` characters.
  abbrev pub NotesFit : Disk → Type 0
  NotesFit d =
      (session_id topic : Text) (p : PathBuf) (note : Text)
      → note_path store session_id topic ≡ ok p
      → find_path p d.files ≡ some note
      → length note ≤ max_session_note_chars

  NotesFit-files : (d d' : Disk) → d'.files ≡ d.files → NotesFit d → NotesFit d'
  NotesFit-files d d' e fit s t p note h found = fit s t p note h (ap (find_path p) (sym e) ∙ found)

  NotesFit-set :
      (d d' : Disk) (q : PathBuf) (content : Text)
      → d'.files ≡ set_path q content d.files
      → length content ≤ max_session_note_chars
      → NotesFit d
      → NotesFit d'
  NotesFit-set d d' q content e le fit s t p note h found = elim (Bool-cases (q =? p)) [
    | inl same ↦
        let at = (list_eq.beq_iff q p).0 same in
        let here : find_path p d'.files ≡ some content =
          ap (find_path p) e
          ∙ ap (λ x. find_path x (set_path q content d.files)) (sym at)
          ∙ find-set_same q content d.files in
        let is_content : content ≡ note = some_injective (sym here ∙ found) in
        omega (arith, ap length is_content, le)
    | inr apart ↦ fit s t p note h (
        sym (
          find-set_other q p content d.files
            (λ f. false≢true (sym apart ∙ (list_eq.beq_iff q p).1 f)))
        ∙ ap (find_path p) (sym e)
        ∙ found)
  ]
    where
      some_injective : {a b : Text} → some a ≡ some b → a ≡ b
      some_injective i = cc

  NotesFit-remove :
      (d d' : Disk) (q : PathBuf) → d'.files ≡ remove_path q d.files → NotesFit d → NotesFit d'
  NotesFit-remove d d' q e fit s t p note h found = elim (Bool-cases (q =? p)) [
    | inl same ↦
        let at = (list_eq.beq_iff q p).0 same in
        let here : find_path p d'.files ≡ none =
          ap (find_path p) e
          ∙ ap (λ x. find_path x (remove_path q d.files)) (sym at)
          ∙ find-remove_same q d.files in
        absurd (none≢some (sym here ∙ found))
    | inr apart ↦ fit s t p note h (
        sym
          (find-remove_other q p d.files (λ f. false≢true (sym apart ∙ (list_eq.beq_iff q p).1 f)))
        ∙ ap (find_path p) (sym e)
        ∙ found)
  ]
    where
      none≢some : {a : Text} → ◌≡◌ {A = Option Text} none (some a) → ⊥
      none≢some i = cc

  -- What a step of the handler keeps.
  next-Fit :
      {A B : Type 0} (r : MemoryResult A × Disk) (f : A → Call B)
      → NotesFit r.1
      → ((a : A) (x : Disk) → NotesFit x → NotesFit (f a x).1)
      → NotesFit (next r f).1
  next-Fit (failed e, x) f h k = h
  next-Fit (done a, x) f h k = k a x h

  -- After a check that succeeded.
  next-checked :
      {A B : Type 0} (r : MemoryResult A) (f : A → Call B) (d : Disk)
      → NotesFit d
      → ((a : A) → r ≡ done a → NotesFit (f a d).1)
      → NotesFit (next (r, d) f).1
  next-checked (failed e) f d h k = h
  next-checked (done a) f d h k = k a refl

  fits : (note : Text) → too_large note ≡ done tt → length note ≤ max_session_note_chars
  fits note h = elim (Bool-cases (ltb max_session_note_chars (length note))) [
    | inl e ↦ let f : failed _ ≡ done tt = rw e at h in absurd (failed≢done f)
    | inr e ↦ ground arith
  ]
    where
      failed≢done : {e : MemoryError} → ◌≡◌ {A = MemoryResult (Unit {0})} (failed e) (done tt) → ⊥
      failed≢done i = cc

  wrote :
      (session_id topic content : Text) (d : Disk)
      → length content ≤ max_session_note_chars
      → NotesFit d
      → NotesFit (write_session_topic store session_id topic content d).1
  wrote session_id topic content d le fit =
      elim (write_session_topic_files store session_id topic content d) [
        | inl e ↦ NotesFit-files d (write_session_topic store session_id topic content d).1 e fit
        | inr (p, h, e) ↦
            NotesFit-set d (write_session_topic store session_id topic content d).1 p content e le
              fit
      ]

  module _ (context : MemoryExecutionContext) where
    replace-Fit :
        (topic : Option Text) (content : Text) (d : Disk)
        → NotesFit d
        → NotesFit (session_replace store context topic content d).1
    unfolding session_replace
    replace-Fit topic content d fit =
        next-checked (require_session_id context) _ d fit (λ session_id e.
          next-checked (required_content content) _ d fit (λ content f.
            next-checked (too_large content) _ d fit (λ u small.
              next-Fit (run (write_session_topic store session_id (session_topic topic) content) d)
                _ (wrote session_id (session_topic topic) content d (fits content small) fit)
                (λ path x kept. kept))))

    append-Fit :
        (topic : Option Text) (content : Text) (d : Disk)
        → NotesFit d
        → NotesFit (session_append store context topic content d).1
    unfolding session_append
    append-Fit topic content d fit =
        next-checked (require_session_id context) _ d fit (λ session_id e.
          next-checked (required_content content) _ d fit (λ content f.
            next-Fit (run (read_session_topic store session_id (session_topic topic)) d) _
              (NotesFit-files d (read_session_topic store session_id (session_topic topic) d).1
                (read_session_topic_keeps store session_id (session_topic topic) d) fit)
              (λ existing x kept.
                next-checked (too_large (joined (unwrap_or existing []) content)) _ x kept
                  (λ u small.
                    next-Fit
                      (run
                        (write_session_topic store session_id (session_topic topic)
                          (joined (unwrap_or existing []) content))
                        x)
                      _
                      (wrote session_id (session_topic topic)
                        (joined (unwrap_or existing []) content) x
                        (fits (joined (unwrap_or existing []) content) small) kept)
                      (λ path y rest. rest)))))

    clear-Fit :
        (topic : Option Text) (d : Disk)
        → NotesFit d
        → NotesFit (session_clear store context topic d).1
    unfolding session_clear
    clear-Fit topic d fit = next-checked (require_session_id context) _ d fit (λ session_id e.
        next-Fit (run (delete_session_topic store session_id (session_topic topic)) d) _
          (elim (delete_session_topic_files store session_id (session_topic topic) d) [
            | inl e ↦
                NotesFit-files d (delete_session_topic store session_id (session_topic topic) d).1 e
                  fit
            | inr (p, e) ↦
                NotesFit-remove d (delete_session_topic store session_id (session_topic topic) d).1
                  p e fit
          ])
          (λ deleted x kept. kept))

    -- No action on the notes of a session, whatever its arguments and its result, leaves a note of more
    -- than twelve thousand characters where there was none.
    pub session_actions_fit :
        (topic : Option Text) (content : Text) (d : Disk)
        → NotesFit d
        → NotesFit (session_append store context topic content d).1
          × NotesFit (session_replace store context topic content d).1
          × NotesFit (session_clear store context topic d).1
    session_actions_fit topic content d fit =
        (append-Fit topic content d fit, replace-Fit topic content d fit, clear-Fit topic d fit)
