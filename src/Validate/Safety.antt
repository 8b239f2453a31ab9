-- ===== src/Validate/Safety.antt =====
-- Identifiers are safe as one component of a path.
use jiandu.Prelude.{
  ℕ, ◌≡◌, ◌≢◌, refl, sym, ◌∙◌, subst, Bool, true, false, not, ◌||◌, [], ◌∷◌, arith, ◌==◌, all,
  all-imp, is_empty, false≢true, ◌++◌, all-append,
}
use jiandu.Prelude.Classes.{◌=?◌, nat_eq, list_eq}
use jiandu.Result.{ok}
use jiandu.Text.{Text, text, trim, contains_text}
use jiandu.Validate.{is_id_char, has_path_syntax, validate_session_id, validate_session_topic}

-- A text that can only name an entry of the directory it is joined to: it is not empty, holds no
-- separator, and is neither the directory itself nor its parent.
abbrev pub IsComponent : Text → Type 0
IsComponent t =
    (t ≢ [])
    × (all (λ c. not (c == b'/' || c == b'\\')) t ≡ true)
    × (t ≢ text ".")
    × (t ≢ text "..")

abbrev pub not_separator : ℕ → Bool
not_separator c = not (c == b'/' || c == b'\\')

no_separator :
    (t : Text)
    → contains_text (text "/") t ≡ false
    → contains_text (b'\\' ∷ []) t ≡ false
    → all not_separator t ≡ true
unfolding contains_text
no_separator [] h k = refl
no_separator (c ∷ t) h k = ground (arith, no_separator t)

not_empty : (t : Text) → is_empty t ≡ false → t ≢ []
not_empty [] h e = cc
not_empty (c ∷ t) h e = cc

differs : (t u : Text) → (t =? u) ≡ false → t ≢ u
differs t u h e = absurd (false≢true (sym h ∙ (list_eq.beq_iff t u).1 e))

-- An accepted session id is the trimmed input and names one component of a path.
pub validate_session_id-IsComponent :
    (t u : Text) → validate_session_id t ≡ ok u → (u ≡ trim t) × IsComponent u
unfolding validate_session_id has_path_syntax
validate_session_id-IsComponent t u h = ground (
  arith,
  not_empty (trim t),
  no_separator (trim t),
  differs (trim t) (text "."),
  differs (trim t) (text ".."),
)

id_char-not_dot : (c : ℕ) → is_id_char c ≡ true → not (c == b'.') ≡ true
id_char-not_dot c h = ground arith

dot_free : (t : Text) → all is_id_char t ≡ true → (t ≢ text ".") × (t ≢ text "..")
dot_free t h = (
  λ e. false≢true (subst (λ v. all is_id_char v ≡ true) e h),
  λ e. false≢true (subst (λ v. all is_id_char v ≡ true) e h),
)

id_char-not_separator : (c : ℕ) → is_id_char c ≡ true → not_separator c ≡ true
id_char-not_separator c h = ground arith

-- What is made of identifier characters alone names one component of a path.
pub id-IsComponent : (t : Text) → t ≢ [] → all is_id_char t ≡ true → IsComponent t
id-IsComponent t n h = (
  n,
  all-imp is_id_char not_separator id_char-not_separator t h,
  (dot_free t h).0,
  (dot_free t h).1,
)

-- An accepted topic is the trimmed input and names one component of a path.
pub validate_session_topic-IsComponent :
    (t u : Text) → validate_session_topic t ≡ ok u → (u ≡ trim t) × IsComponent u
unfolding validate_session_topic
validate_session_topic-IsComponent t u h =
    ground (arith, not_empty (trim t), id-IsComponent (trim t))

-- A name with an extension is still one component.
pub IsComponent-append :
    (t ext : Text)
    → all is_id_char t ≡ true
    → t ≢ []
    → all not_separator ext ≡ true
    → IsComponent (t ++ ext)
IsComponent-append [] ext h n k = absurd (n refl)
IsComponent-append (c ∷ t) ext h n k = (
  λ e. cc,
  rw (all-append not_separator (c ∷ t) ext)
      (ground (arith, all-imp is_id_char not_separator id_char-not_separator (c ∷ t) h)),
  λ e. ground arith,
  λ e. ground arith,
)
