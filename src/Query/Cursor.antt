-- ===== src/Query/Cursor.antt =====
-- Cursors: `scope:offset`.
use jiandu.Prelude.{
  ℕ, zero, suc, ◌+◌, ◌*◌, ◌/◌, ◌%◌, ◌^◌, ◌-◌, ◌<◌, ◌≡◌, ◌≢◌, refl, ◌∙◌, true, false, ◌&&◌, List, [],
  ◌∷◌, ◌++◌, Option, none, some, ltb, ◌==◌, if◌then◌else◌, is_empty, all, all-append, arith,
  unwrap_or, Bool-cases, inl, inr, ltb-false→le, ltb→lt,
}
use jiandu.Text.{Text, is_ascii_digit, split}
use jiandu.Types.{MemoryScope, session, project, global, scope_as_str}

-- `rsplit(':').next()`, the text after the last colon.
abbrev last_piece : Text → List Text → Text
last_piece t [] = t
last_piece t (u ∷ ts) = last_piece u ts

abbrev pub after_colon : Text → Text
after_colon t = last_piece [] (split (λ c. c == b':') t)

abbrev pub push_digit : ℕ → ℕ → ℕ
push_digit n c = n * 10 + (c - b'0')

abbrev pub digits_value : ℕ → Text → ℕ
digits_value n [] = n
digits_value n (c ∷ t) = digits_value (push_digit n c) t

abbrev drop_plus : Text → Text
drop_plus [] = []
drop_plus (c ∷ t) = if c == b'+' then t else c ∷ t

-- `parse::<usize>()` with 64 bits: an optional plus sign and one digit or more.
unfoldable pub parse_usize : Text → Option ℕ
parse_usize t =
    let digits = drop_plus t in
    if is_empty digits
    then none
    else if all is_ascii_digit digits && ltb (digits_value 0 digits) (2 ^ 64)
    then some (digits_value 0 digits)
    else none

-- Printing a number, with fuel above the number of its digits.
unfoldable pub print_digits : ℕ → ℕ → Text
print_digits zero n = []
print_digits (suc fuel) n =
    let rest = print_digits fuel (n / 10) in
    if ltb n 10 then (b'0' + n) ∷ [] else rest ++ (b'0' + n % 10) ∷ []

abbrev pub to_string : ℕ → Text
to_string n = print_digits (suc n) n

unfoldable pub parse_query_cursor : Option Text → ℕ
parse_query_cursor none = 0
parse_query_cursor (some raw) = unwrap_or (parse_usize (after_colon raw)) 0

unfoldable pub make_query_cursor : MemoryScope → ℕ → Text
make_query_cursor scope offset = scope_as_str scope ++ (b':' ∷ to_string offset)

digits_value-append :
    (n : ℕ) (t : Text) (c : ℕ) → digits_value n (t ++ c ∷ []) ≡ push_digit (digits_value n t) c
digits_value-append n [] c = refl
digits_value-append n (d ∷ t) c = digits_value-append (push_digit n d) t c

-- Enough fuel prints digits whose value is the number.
pub print_digits_lem :
    (fuel n : ℕ)
    → n < fuel
    → (digits_value 0 (print_digits fuel n) ≡ n)
      × (all is_ascii_digit (print_digits fuel n) ≡ true)
      × (print_digits fuel n ≢ [])
unfolding print_digits
print_digits_lem zero n h = absurd (omega (arith, h))
print_digits_lem (suc fuel) n h = elim (Bool-cases (ltb n 10)) [
  | inl e ↦ rw e (omega (arith, ltb→lt n 10 e), ground arith, λ k. ground arith)
  | inr e ↦
      let (v, d, _) = print_digits_lem fuel (n / 10) (omega (arith, h, ltb-false→le n 10 e)) in
      rw e (
        digits_value-append 0 (print_digits fuel (n / 10)) (b'0' + n % 10) ∙ rw v (omega arith),
        rw (all-append is_ascii_digit (print_digits fuel (n / 10)) ((b'0' + n % 10) ∷ []))
            (rw d (ground arith)),
        snoc_some (print_digits fuel (n / 10)) (b'0' + n % 10),
      )
]
  where
    snoc_some : (t : Text) (c : ℕ) → t ++ c ∷ [] ≢ []
    snoc_some [] c e = ground arith
    snoc_some (d ∷ t) c e = ground arith

digit-not_colon : (c : ℕ) → is_ascii_digit c ≡ true → (c == b':') ≡ false
digit-not_colon c h = ground arith

split_digits : (t : Text) → all is_ascii_digit t ≡ true → split (λ c. c == b':') t ≡ t ∷ []
unfolding split
split_digits [] h = refl
split_digits (c ∷ t) h = ground (arith, split_digits t)

parse_digits :
    (t : Text)
    → all is_ascii_digit t ≡ true
    → t ≢ []
    → digits_value 0 t < 2 ^ 64
    → parse_usize t ≡ some (digits_value 0 t)
unfolding parse_usize
parse_digits [] d n l = absurd (n refl)
parse_digits (c ∷ t) d n l = ground arith

-- A cursor reads back as the offset that it was made from, which fits a `usize`.
pub parse-make_query_cursor :
    (scope : MemoryScope) (offset : ℕ)
    → offset < 2 ^ 64
    → parse_query_cursor (some (make_query_cursor scope offset)) ≡ offset
unfolding parse_query_cursor make_query_cursor split
parse-make_query_cursor scope offset h =
    let (v, d, n) = print_digits_lem (suc offset) offset (omega arith) in
    let t = print_digits (suc offset) offset in
    let parsed = parse_digits t d n (rw v h) in rw (after scope t (split_digits t d)) (rw parsed v)
  where
    after :
        (s : MemoryScope) (t : Text)
        → split (λ c. c == b':') t ≡ t ∷ []
        → after_colon (scope_as_str s ++ (b':' ∷ t)) ≡ t
    after session t e = rw e
    after project t e = rw e
    after global t e = rw e
