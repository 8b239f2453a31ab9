-- ===== src/Store/Merge/Split.antt =====
-- What a merge and a split accept.
use jiandu.Prelude.{
  ◌≤◌, ◌≡◌, ◌≢◌, refl, sym, subst, true, false, not, List, [], ◌∷◌, ◌++◌, Option, some, ltb, length,
  arith, max, All, is_empty, Bool-cases, inl, inr, ltb-false→le, append_assoc, ◌⊎◌, ◌==◌,
}
use jiandu.Result.{ok, err, ErrorKind, Result-cases, >>=-eq-ok, fail_if, invalid_input, ◌>>◌}
use jiandu.Text.{Text, trim, trim_end, contains_text}
use jiandu.Types.{DurableMemoryDocument, MemoryRetrievalInput}
use jiandu.Validate.{validate_memory_id, validate_memory_title}
use jiandu.Store.Disk.{Env, Disk}
use jiandu.Store.Locate.{get_memory}
use jiandu.Store.Limits.{
  max_durable_memory_body_chars, projected_merged_body_chars, append_section,
  memory_section_separator,
}
use jiandu.Store.Limits.Bounds.{length-append_section}
use jiandu.Store.Write.Accretion.{contains_end}
use jiandu.Store.Merge.{
  Merged, merge_content, MemorySplitPiece, check_piece, check_pieces, check_split,
  split_memory_with_retrieval,
}

module _ (env : Env) where
  -- An accepted merge leaves a body that holds the content, and is no longer than it was or than
  -- 4000 characters.
  pub merge_content_bounded :
      (content : Text) (doc : DurableMemoryDocument) (m : Merged)
      → merge_content env content doc ≡ ok m
      → (contains_text content m.doc.body ≡ true)
        × (length m.doc.body ≤ max max_durable_memory_body_chars (length doc.body))
  unfolding merge_content
  merge_content_bounded content doc m h = elim (Bool-cases (contains_text content doc.body)) [
    | inl e ↦
        let same : doc ≡ m.doc = ground arith in
        subst
          (λ (x : DurableMemoryDocument).
            (contains_text content x.body ≡ true) × (length x.body ≤ max 4000 (length doc.body)))
          same (e, omega arith)
    | inr e ↦
        elim (Bool-cases
          (ltb max_durable_memory_body_chars (projected_merged_body_chars doc.body content))) [
            | inl f ↦ absurd (ground arith)
            | inr f ↦
                let body : append_section doc.body content ≡ m.doc.body = ground arith in
                let small = ltb-false→le 4000 (projected_merged_body_chars doc.body content) f in
                subst
                  (λ b. (contains_text content b ≡ true) × (length b ≤ max 4000 (length doc.body)))
                  body
                  (
                    rw (sym (append_assoc (trim_end doc.body) memory_section_separator content))
                        (contains_end (trim_end doc.body ++ memory_section_separator) content),
                    omega (arith, small, length-append_section doc.body content),
                  )
          ]
  ]

  abbrev pub IsAtomic : MemorySplitPiece → Type 0
  IsAtomic piece =
      (trim piece.content ≢ [])
      × (length (trim piece.content) ≤ max_durable_memory_body_chars)
      × ((title : Text) × (validate_memory_title piece.title ≡ ok title))

  not_empty : (t : Text) → is_empty t ≡ false → t ≢ []
  not_empty [] h e = cc
  not_empty (c ∷ t) h e = cc

  check_piece-IsAtomic : (piece : MemorySplitPiece) → check_piece piece ≡ ok tt → IsAtomic piece
  unfolding check_piece
  check_piece-IsAtomic piece h =
      let (title, e, k) = >>=-eq-ok (validate_memory_title piece.title) _ h in
      elim (Bool-cases (is_empty (trim piece.content))) [
        | inl f ↦ absurd (ground arith)
        | inr f ↦
            elim (Bool-cases (ltb max_durable_memory_body_chars (length (trim piece.content)))) [
              | inl g ↦ absurd (ground arith)
              | inr g ↦ (
                not_empty (trim piece.content) f,
                ltb-false→le 4000 (length (trim piece.content)) g,
                (title, e),
              )
            ]
      ]

  check_pieces-IsAtomic :
      (pieces : List MemorySplitPiece) → check_pieces pieces ≡ ok tt → All IsAtomic pieces
  unfolding check_pieces
  check_pieces-IsAtomic [] h = tt
  check_pieces-IsAtomic (piece ∷ pieces) h =
      let (u, e, k) = >>=-eq-ok (check_piece piece) _ h in
      (check_piece-IsAtomic piece e, check_pieces-IsAtomic pieces k)

  -- A split that finds its memory either has pieces that each have a valid title and 1 to 4000
  -- characters of content, or is refused and leaves the disk as it was: no partial split.
  pub split_refused_whole :
      (memory_id u : Text) (preferred : Option Text) (pieces : List MemorySplitPiece)
      (retrieval : List MemoryRetrievalInput) (session_id : Option Text) (actor : Text)
      (source : DurableMemoryDocument) (d : Disk)
      → validate_memory_id memory_id ≡ ok u
      → get_memory env u preferred d ≡ (ok (some source), d)
      → (All IsAtomic pieces)
        ⊎ ((e : ErrorKind) × (split_memory_with_retrieval env memory_id preferred pieces retrieval
                session_id actor d
              ≡ (err e, d)))
  unfolding split_memory_with_retrieval
  split_refused_whole memory_id u preferred pieces retrieval session_id actor source d v g =
      elim (Result-cases (check_split env pieces retrieval)) [
        | inr (e, f) ↦ inr (e, rw v (rw g (rw f refl)))
        | inl (w, f) ↦ inl (checked f)
      ]
    where
      checked : {w : Unit {0}} → check_split env pieces retrieval ≡ ok w → All IsAtomic pieces
      checked f =
          let (_, _, g) =
            >>=-eq-ok
              (fail_if (is_empty pieces) invalid_input
                >> fail_if (not (length retrieval == length pieces)) invalid_input)
              _ f in
          check_pieces-IsAtomic pieces g
