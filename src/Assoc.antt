-- ===== src/Assoc.antt =====
-- `HashMap<String, V>` as a list of entries with distinct keys, in order of first insertion. The
-- program reads such a map by key, and walks it only where the order does not matter.
use jiandu.Prelude.{
  ◌≡◌, refl, false, List, [], ◌∷◌, Option, none, some, arith, if◌then◌else◌, is_some,
}
use jiandu.Prelude.Classes.{◌=?◌, nat_eq, list_eq, contains, beq_refl}
use jiandu.Text.{Text, text_eq_iff}

module _ {ℓ} {V : Type ℓ} where
  unfoldable pub lookup : Text → List (Text × V) → Option V
  lookup k [] = none
  lookup k ((j, v) ∷ m) = if j =? k then some v else lookup k m

  -- `entry(k).or_insert(d)`, then the update `f` of the value in place.
  unfoldable pub upsert : Text → V → (V → V) → List (Text × V) → List (Text × V)
  upsert k d f [] = (k, f d) ∷ []
  upsert k d f ((j, v) ∷ m) = if j =? k then (j, f v) ∷ m else (j, v) ∷ upsert k d f m

  abbrev pub keys : List (Text × V) → List Text
  keys [] = []
  keys ((k, v) ∷ m) = k ∷ keys m

  abbrev pub apply_or : V → (V → V) → Option V → V
  apply_or d f none = f d
  apply_or d f (some v) = f v

  pub lookup-upsert_self :
      (k : Text) (d : V) (f : V → V) (m : List (Text × V))
      → lookup k (upsert k d f m) ≡ some (apply_or d f (lookup k m))
  unfolding lookup upsert
  lookup-upsert_self k d f [] = rw (beq_refl k)
  lookup-upsert_self k d f ((j, v) ∷ m) = ground (arith, lookup-upsert_self k d f m)

  pub lookup-upsert_ne :
      (k j : Text) (d : V) (f : V → V) (m : List (Text × V))
      → (k =? j) ≡ false
      → lookup j (upsert k d f m) ≡ lookup j m
  unfolding lookup upsert
  lookup-upsert_ne k j d f [] h = rw h
  lookup-upsert_ne k j d f ((i, v) ∷ m) h =
      ground (arith, lookup-upsert_ne k j d f m, text_eq_iff i k, text_eq_iff i j, text_eq_iff k j)

  -- A key is found exactly if it is among the keys.
  pub is_some-lookup : (k : Text) (m : List (Text × V)) → is_some (lookup k m) ≡ contains (keys m) k
  unfolding lookup
  is_some-lookup k [] = refl
  is_some-lookup k ((j, v) ∷ m) = ground (arith, is_some-lookup k m)
