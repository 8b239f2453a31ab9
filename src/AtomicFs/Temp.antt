-- ===== src/AtomicFs/Temp.antt =====
-- Temporary names: a temporary path is no path of the store, and two of them are never the same.
use jiandu.Prelude.{
  ℕ, suc, ◌-◌, ◌≡◌, ◌≢◌, refl, ap, ◌∙◌, Bool, true, false, [], ◌∷◌, ◌++◌, Option, none, some, arith,
  if◌then◌else◌, ◌==◌, length, drop, length-append, and-true, append_assoc, all,
}
use jiandu.Prelude.Classes.{◌=?◌, nat_eq, list_eq, beq_refl}
use jiandu.Text.{Text, text, is_ascii_digit}
use jiandu.Query.Cursor.{to_string, push_digit, digits_value, print_digits_lem}
use jiandu.Paths.{PathBuf, split_last, file_name}
use jiandu.AtomicFs.{temp_name, named, dir_of}

-- A file name that ends in `.tmp`.
abbrev pub ends_in_tmp : Text → Bool
ends_in_tmp t = drop (length t - 4) t =? text ".tmp"

abbrev pub last_in_tmp : Option (PathBuf × Text) → Bool
last_in_tmp none = false
last_in_tmp (some (init, last)) = ends_in_tmp last

abbrev pub is_temp : PathBuf → Bool
is_temp path = last_in_tmp (split_last path)

drop-append : (a b : Text) → drop (length a) (a ++ b) ≡ b
drop-append [] b = refl
drop-append (c ∷ a) b = drop-append a b

ends-append : (a : Text) → ends_in_tmp (a ++ text ".tmp") ≡ true
ends-append a =
    let e : length (a ++ text ".tmp") - 4 ≡ length a =
      omega (arith, length-append {0} a (text ".tmp")) in
    rw e (rw (drop-append a (text ".tmp")) (beq_refl (text ".tmp")))

split_last-snoc : (init : PathBuf) (x : Text) → split_last (init ++ x ∷ []) ≡ some (init, x)
unfolding split_last
split_last-snoc [] x = refl
split_last-snoc (c ∷ init) x = rw (split_last-snoc init x) refl

-- The last number between dots, read from the left.
pub record Scan : Type 0 where
  pub before : ℕ
  pub current : ℕ

abbrev scan_one : Scan → ℕ → Scan
scan_one s c =
    if c == b'.'
    then record { before = s.current; current = 0 }
    else record s { current = push_digit s.current c }

pub scan : Scan → Text → Scan
scan s [] = s
scan s (c ∷ t) = scan (scan_one s c) t

scan-append : (s : Scan) (a b : Text) → scan s (a ++ b) ≡ scan (scan s a) b
unfolding scan
scan-append s [] b = refl
scan-append s (c ∷ a) b = scan-append (scan_one s c) a b

digit_step :
    (s : Scan) (c : ℕ)
    → is_ascii_digit c ≡ true
    → scan_one s c ≡ record s { current = push_digit s.current c }
digit_step s c h = ground arith

scan_digits :
    (s : Scan) (t : Text)
    → all is_ascii_digit t ≡ true
    → scan s t ≡ record s { current = digits_value s.current t }
unfolding scan
scan_digits s [] h = refl
scan_digits s (c ∷ t) h =
    let (d, ds) = and-true (is_ascii_digit c) (all is_ascii_digit t) h in
    rw (digit_step s c d) (scan_digits (record s { current = push_digit s.current c }) t ds)

-- The last number but one, which in a temporary name is its place in the sequence.
abbrev pub stamp : Text → ℕ
stamp name = (scan (record { before = 0; current = 0 }) name).before

stamp-dots : (a : Text) (seq : ℕ) → stamp (a ++ (text "." ++ (to_string seq ++ text ".tmp"))) ≡ seq
unfolding scan
stamp-dots a seq =
    let s0 : Scan = record { before = 0; current = 0 } in
    let (v, d, _) = print_digits_lem (suc seq) seq (omega arith) in
    let zeroed : Scan = record { before = (scan s0 a).current; current = 0 } in
    ap (λ (s : Scan). s.before)
      (scan-append s0 a (text "." ++ (to_string seq ++ text ".tmp"))
        ∙ scan-append zeroed (to_string seq) (text ".tmp"))
    ∙ ap (λ (s : Scan). s.current) (scan_digits zeroed (to_string seq) d)
    ∙ v

-- A name in front of the place.
abbrev front : Text → ℕ → ℕ → Text
front name process_id nanos =
    text "." ++ (name ++ (text "." ++ (to_string process_id ++ (text "." ++ to_string nanos))))

temp_name-front :
    (name : Text) (process_id nanos seq : ℕ)
    → temp_name name process_id nanos seq
      ≡ front name process_id nanos ++ (text "." ++ (to_string seq ++ text ".tmp"))
temp_name-front name process_id nanos seq = simp append_assoc

-- The place of a temporary path.
abbrev pub last_stamp : Option (PathBuf × Text) → ℕ
last_stamp none = 0
last_stamp (some (init, last)) = stamp last

abbrev pub place : PathBuf → ℕ
place path = last_stamp (split_last path)

module _ (path : PathBuf) (name : Text) (process_id nanos seq : ℕ) where
  abbrev temp : PathBuf
  temp = named path (temp_name name process_id nanos seq)

  temp-last :
      (init : PathBuf) × (split_last temp
        ≡ some (init, front name process_id nanos ++ (text "." ++ (to_string seq ++ text ".tmp"))))
  temp-last =
      let init = dir_of path (file_name path) (split_last path) in
      (
        init,
        split_last-snoc init (temp_name name process_id nanos seq)
            ∙ ap (λ t. some (init, t)) (temp_name-front name process_id nanos seq),
      )

  pub temp-IsTemp : is_temp temp ≡ true
  temp-IsTemp =
      let (init, e) = temp-last in
      let shape : front name process_id nanos ++ (text "." ++ (to_string seq ++ text ".tmp"))
          ≡ (front name process_id nanos ++ (text "." ++ to_string seq)) ++ text ".tmp" =
        simp append_assoc in
      ap last_in_tmp e
      ∙ ap ends_in_tmp shape
      ∙ ends-append (front name process_id nanos ++ (text "." ++ to_string seq))

  pub temp-place : place temp ≡ seq
  temp-place =
      let (init, e) = temp-last in ap last_stamp e ∙ stamp-dots (front name process_id nanos) seq

-- Paths that differ in a property are different.
pub ne_of {ℓ} : {A : Type ℓ} (f : PathBuf → A) (p q : PathBuf) → f p ≢ f q → p ≢ q
ne_of f p q n e = n (ap f e)
