-- ===== src/Terms/Bounds.antt =====
-- What normalized tags and terms look like, and how many there are.
use jiandu.Prelude.{
  ℕ, suc, ◌≤◌, ◌<◌, ◌≡◌, ◌≢◌, refl, sym, ap, ◌∙◌, false, not, List, [], ◌∷◌, ◌++◌, some, Ordering,
  leb, ◌==◌, length, take, filter, is_empty, arith, All, All-append, Bool-cases, Option-cases, inl,
  inr, max, length-take, map, length-append,
}
use jiandu.Prelude.Classes.{nat_eq, list_eq, contains, Distinct, Distinct-snoc}
use jiandu.Prelude.Order.{text_cmp}
use jiandu.Text.{Text, nonempty, text, trim, trim_matches, join, split_whitespace, is_whitespace}
use jiandu.Text.Trim.{length-trim_matches}
use jiandu.Unicode.{Unicode, is_control}
use jiandu.Terms.{
  max_memory_tags, max_memory_tag_chars, max_retrieval_term_chars, insert_set, lowercase_chars,
  tag_chars, normalize_tag, add_tags, normalize_tags, normalize_retrieval_term, add_terms,
  normalize_retrieval_terms,
}

pub length-insert_set : (t : Text) (ts : List Text) → length (insert_set t ts) ≤ suc (length ts)
unfolding insert_set
length-insert_set t [] = omega arith
length-insert_set t (u ∷ us) = ground (arith, length-insert_set t us)

pub insert_set-All :
    (P : Text → Type 0) (t : Text) (ts : List Text) → P t → All P ts → All P (insert_set t ts)
unfolding insert_set
insert_set-All P t [] p h = (p, tt)
insert_set-All P t (u ∷ us) p h =
    elim (text_cmp t u)
      as (λ o. All P (elim o [
        | Ordering.lt ↦ t ∷ u ∷ us
        | Ordering.eq ↦ u ∷ us
        | Ordering.gt ↦ u ∷ insert_set t us
      ])) [
        | Ordering.lt ↦ (p, h)
        | Ordering.eq ↦ h
        | Ordering.gt ↦ (h.0, insert_set-All P t us p h.1)
      ]

nonempty_lem : (t u : Text) → nonempty t ≡ some u → (t ≡ u) × (u ≢ [])
nonempty_lem [] u h = ground arith
nonempty_lem (c ∷ t) u h = (ground arith, λ e. ground arith)

module _ (unicode : Unicode) where
  abbrev pub IsTag : Text → Type 0
  IsTag t = (t ≢ []) × (length t ≤ max_memory_tag_chars)

  normalize_tag-IsTag : (tag t : Text) → normalize_tag unicode tag ≡ some t → IsTag t
  unfolding normalize_tag
  normalize_tag-IsTag tag t h = elim (Bool-cases (is_empty (trim (unicode.nfkc tag)))) [
    | inl e ↦ ground arith
    | inr e ↦
        let out = tag_chars unicode false (lowercase_chars unicode (trim (unicode.nfkc tag))) in
        let cut = take max_memory_tag_chars (trim_matches (λ c. c == b'-') out) in
        let (f, n) = nonempty_lem (trim_matches (λ c. c == b'-') cut) t (rw e at h) in
        (
          n,
          rw (sym f) (
              omega (
                arith,
                length-trim_matches (λ c. c == b'-') cut,
                length-take max_memory_tag_chars (trim_matches (λ c. c == b'-') out),
              )),
        )
  ]

  add_tags_lem :
      (seen tags : List Text)
      → All IsTag seen
      → length seen < max_memory_tags
      → All IsTag (add_tags unicode seen tags)
        × (length (add_tags unicode seen tags) ≤ max_memory_tags)
  unfolding add_tags
  add_tags_lem seen [] h l = (h, omega (arith, l))
  add_tags_lem seen (tag ∷ tags) h l = elim (Option-cases (normalize_tag unicode tag)) [
    | inl e ↦ rw (e, add_tags) (add_tags_lem seen tags h l)
    | inr (t, e) ↦
        let h' = insert_set-All IsTag t seen (normalize_tag-IsTag tag t e) h in
        let l' = length-insert_set t seen in
        elim (Bool-cases (leb max_memory_tags (length (insert_set t seen)))) [
          | inl f ↦ rw (e, add_tags) (rw f (h', omega (arith, l, l')))
          | inr f ↦
              rw (e, add_tags) (rw f (add_tags_lem (insert_set t seen) tags h' (ground arith)))
        ]
  ]

  -- Normalized tags are at most 32, each not empty and of at most 64 characters.
  pub normalize_tags_bounded :
      (tags : List Text)
      → All IsTag (normalize_tags unicode tags)
        × (length (normalize_tags unicode tags) ≤ max_memory_tags)
  unfolding normalize_tags
  normalize_tags_bounded tags = add_tags_lem [] tags tt (omega arith)

  abbrev pub IsTerm : Text → Type 0
  IsTerm t = (t ≢ []) × (length t ≤ max_retrieval_term_chars)

  abbrev pub lowered : List Text → List Text
  lowered ts = map unicode.str_to_lowercase ts

  normalize_retrieval_term-IsTerm :
      (value t : Text) → normalize_retrieval_term unicode value ≡ some t → IsTerm t
  unfolding normalize_retrieval_term trim
  normalize_retrieval_term-IsTerm value t h =
      let (f, n) = nonempty_lem _ t h in
      let kept =
        filter (λ c. not (is_control c))
          (join (text " ") (split_whitespace (unicode.nfkc value))) in
      (
        n,
        rw (sym f) (
            omega (
              arith,
              length-trim_matches is_whitespace (take max_retrieval_term_chars kept),
              length-take max_retrieval_term_chars kept,
            )),
      )

  abbrev pub AreTerms : ℕ → List Text → Type 0
  AreTerms limit ts = All IsTerm ts × Distinct (lowered ts) × (length ts ≤ max limit 1)

  lowered-snoc :
      (ts : List Text) (t : Text)
      → lowered (ts ++ t ∷ []) ≡ lowered ts ++ unicode.str_to_lowercase t ∷ []
  lowered-snoc [] t = refl
  lowered-snoc (u ∷ ts) t = ap (◌∷◌ (unicode.str_to_lowercase u)) (lowered-snoc ts t)

  -- One more term, whose lowercase form is new.
  AreTerms-snoc :
      (limit : ℕ) (ts : List Text) (t : Text)
      → AreTerms limit ts
      → length ts < max limit 1
      → IsTerm t
      → contains (lowered ts) (unicode.str_to_lowercase t) ≡ false
      → AreTerms limit (ts ++ t ∷ [])
  AreTerms-snoc limit ts t h l p c = (
    All-append IsTerm ts (t ∷ []) h.0 (p, tt),
    rw (lowered-snoc ts t) (Distinct-snoc (lowered ts) _ h.1 c),
    omega (arith, length-append ts (t ∷ []), l),
  )

  add_terms-AreTerms :
      (limit : ℕ) (seen normalized values : List Text)
      → seen ≡ lowered normalized
      → AreTerms limit normalized
      → length normalized < max limit 1
      → AreTerms limit (add_terms unicode limit seen normalized values)
  unfolding add_terms
  add_terms-AreTerms limit seen normalized [] e h l = h
  add_terms-AreTerms limit seen normalized (value ∷ values) e h l =
      elim (Option-cases (normalize_retrieval_term unicode value)) [
        | inl f ↦ rw (f, add_terms) (add_terms-AreTerms limit seen normalized values e h l)
        | inr (t, f) ↦ elim (Bool-cases (contains seen (unicode.str_to_lowercase t))) [
          | inl g ↦ rw (f, add_terms) (rw g (add_terms-AreTerms limit seen normalized values e h l))
          | inr g ↦
              let h' =
                AreTerms-snoc limit normalized t h l (normalize_retrieval_term-IsTerm value t f)
                  (rw (sym e) g) in
              elim (Bool-cases (leb limit (length (normalized ++ t ∷ [])))) [
                | inl k ↦ rw (f, add_terms) (rw g (rw k h'))
                | inr k ↦
                    rw (f, add_terms)
                      (rw g (
                        rw k (
                          add_terms-AreTerms limit (seen ++ unicode.str_to_lowercase t ∷ [])
                            (normalized ++ t ∷ []) values
                            (ap (λ s. s ++ unicode.str_to_lowercase t ∷ []) e
                              ∙ sym (lowered-snoc normalized t))
                            h' (ground arith))))
              ]
        ]
      ]

  -- Normalized retrieval terms are at most `limit`, or one if `limit` is 0; each is not empty and has
  -- at most 96 characters, and no two have the same lowercase form.
  pub normalize_retrieval_terms-AreTerms :
      (values : List Text) (limit : ℕ)
      → AreTerms limit (normalize_retrieval_terms unicode values limit)
  unfolding normalize_retrieval_terms
  normalize_retrieval_terms-AreTerms values limit =
      add_terms-AreTerms limit [] [] values refl (tt, tt, omega arith) (omega arith)
