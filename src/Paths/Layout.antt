-- ===== src/Paths/Layout.antt =====
-- Where the resolver puts files: identifiers cannot leave their directory, two records never share
-- a file, and the data directory is recovered from the root.
use jiandu.Prelude.{
  ℕ, ◌≡◌, refl, sym, ap, ◌∙◌, true, false, [], ◌∷◌, ◌++◌, Option, none, some, arith, ◌==◌, all,
  and-true, Bool-cases, inl, inr,
}
use jiandu.Prelude.Classes.{◌=?◌, nat_eq, list_eq}
use jiandu.Result.{ok, >>=-eq-ok, ok_injective}
use jiandu.Text.{Text, text, trim, split, starts_with}
use jiandu.Types.{MemoryScope, project}
use jiandu.Validate.{validate_memory_id}
use jiandu.Validate.Ids.{validate_memory_id_iff}
use jiandu.Validate.Safety.{IsComponent, not_separator, IsComponent-append}
use mathlib.Core.List.{append_cancel_right}
use jiandu.Paths.{
  file_name, is_named, parent, split_last, scopes_root, projects_dir, topics_dir, project_root, new,
  from_data_dir, memory_root_dir, memory_version_dir, infer_data_dir_from_root, PathBuf,
  MemoryPathResolver, components, join, is_normal, topic_path, topic_dir,
}

not_slash : (c : ℕ) → not_separator c ≡ true → (c == b'/') ≡ false
not_slash c h = ground arith

split_one : (t : Text) → all not_separator t ≡ true → split (λ c. c == b'/') t ≡ t ∷ []
unfolding split
split_one [] h = refl
split_one (c ∷ t) h =
    let both = and-true (not_separator c) (all not_separator t) h in
    rw (not_slash c both.0, split_one t both.1)

normal_component : (t : Text) → IsComponent t → is_normal t ≡ true
normal_component [] h = absurd (h.0 refl)
normal_component (c ∷ t) h = elim (Bool-cases ((c ∷ t) =? text ".")) [
  | inl e ↦ absurd (h.2 ((list_eq.beq_iff (c ∷ t) (text ".")).0 e))
  | inr e ↦ rw e
]

relative : (t : Text) → IsComponent t → starts_with (text "/") t ≡ false
relative [] h = refl
relative (c ∷ t) h =
    ground (arith, not_slash c (and-true (not_separator c) (all not_separator t) h.1).0)

-- Joining a text that names one component adds that component, and nothing else.
pub join-IsComponent : (path : PathBuf) (t : Text) → IsComponent t → join path t ≡ path ++ t ∷ []
unfolding join components
join-IsComponent path t h =
    rw (relative t h) (rw (split_one t h.1) (rw (normal_component t h) refl))

split_last-snoc : (path : PathBuf) (t : Text) → split_last (path ++ t ∷ []) ≡ some (path, t)
unfolding split_last
split_last-snoc [] t = refl
split_last-snoc (c ∷ path) t = rw (split_last-snoc path t)

pub snoc_injective :
    (xs ys : PathBuf) (a b : Text) → xs ++ a ∷ [] ≡ ys ++ b ∷ [] → (xs ≡ ys) × (a ≡ b)
snoc_injective xs ys a b e =
    let same : ◌≡◌ {A = Option (PathBuf × Text)} (some (xs, a)) (some (ys, b)) =
      sym (split_last-snoc xs a) ∙ ap split_last e ∙ split_last-snoc ys b in
    (cc, cc)

-- The file of a checked memory id, directly in its scope's topic directory.
topic_path_lem :
    (self : MemoryPathResolver) (scope : MemoryScope) (key : Option Text) (id u : Text)
    → validate_memory_id id ≡ ok u
    → topic_path self scope key id ≡ ok (topic_dir self scope key ++ (u ++ text ".md") ∷ [])
unfolding topic_path
topic_path_lem self scope key id u h =
    let (e, i) = (validate_memory_id_iff id u).0 h in
    let named = IsComponent-append u (text ".md") (rw e i.2) (rw e i.0) refl in
    rw (h, join-IsComponent (topic_dir self scope key) (u ++ text ".md") named) refl

-- A topic path is made only for a valid memory id, and then names the file `<id>.md` directly in
-- the topic directory of the scope: no id can reach another directory.
pub topic_path_confined :
    (self : MemoryPathResolver) (scope : MemoryScope) (key : Option Text) (id : Text) (p : PathBuf)
    → topic_path self scope key id ≡ ok p
    → (u : Text) × (validate_memory_id id ≡ ok u)
      × (p ≡ topic_dir self scope key ++ (u ++ text ".md") ∷ [])
unfolding topic_path
topic_path_confined self scope key id p h =
    let (u, e, _) = >>=-eq-ok (validate_memory_id id) _ h in
    (u, e, ok_injective (sym h ∙ topic_path_lem self scope key id u e))

project_dir_lem :
    (self : MemoryPathResolver) (key : Text)
    → self.project_id ≡ none
    → IsComponent key
    → topic_dir self project (some key)
      ≡ (join (scopes_root self) projects_dir ++ key ∷ []) ++ topics_dir ∷ []
unfolding project_root
project_dir_lem self key h c =
    rw (h, join-IsComponent (join (scopes_root self) projects_dir) key c)
      (join-IsComponent _ topics_dir topics_component)
  where
    topics_component : IsComponent topics_dir
    topics_component = (λ e. ground arith, refl, λ e. ground arith, λ e. ground arith)

-- In an unbound store two project records share a file only if they have the same project and the
-- same (trimmed) id.
pub topic_path_injective :
    (self : MemoryPathResolver) (a b x y : Text) (p : PathBuf)
    → self.project_id ≡ none
    → IsComponent a
    → IsComponent b
    → topic_path self project (some a) x ≡ ok p
    → topic_path self project (some b) y ≡ ok p
    → (a ≡ b) × (trim x ≡ trim y)
topic_path_injective self a b x y p unbound ca cb h k =
    let (u, eu, pu) = topic_path_confined self project (some a) x p h in
    let (v, ev, pv) = topic_path_confined self project (some b) y p k in
    let files = snoc_injective _ _ _ _ (sym pu ∙ pv) in
    let dirs =
      sym (project_dir_lem self a unbound ca) ∙ files.0 ∙ project_dir_lem self b unbound cb in
    let keys = (snoc_injective _ _ _ _ dirs).0 in
    (
      (snoc_injective _ _ _ _ keys).1,
      sym ((validate_memory_id_iff x u).0 eu).0
          ∙ append_cancel_right u v (text ".md") files.1
          ∙ ((validate_memory_id_iff y v).0 ev).0,
    )

last_lem :
    (path : PathBuf) (t : Text)
    → (t =? text "/") ≡ false
    → (t =? text "..") ≡ false
    → (file_name (path ++ t ∷ []) ≡ some t) × (parent (path ++ t ∷ []) ≡ some path)
unfolding file_name parent
last_lem path t h k =
    (rw (split_last-snoc path t, file_name) (rw (h, k)), rw (split_last-snoc path t, parent) (rw h))

infer_lem :
    (d : PathBuf)
    → infer_data_dir_from_root ((d ++ memory_root_dir ∷ []) ++ memory_version_dir ∷ []) ≡ d
unfolding infer_data_dir_from_root
infer_lem d =
    let inner = last_lem d memory_root_dir refl refl in
    let outer = last_lem (d ++ memory_root_dir ∷ []) memory_version_dir refl refl in
    rw (outer.0, is_named, infer_data_dir_from_root)
      (rw outer.1 (rw (inner.0, is_named) (rw inner.1)))

-- A resolver made from the root of a data directory recovers that data directory.
pub new-from_data_dir : (d : PathBuf) → (new (from_data_dir d).root).data_dir ≡ d
unfolding new from_data_dir
new-from_data_dir d =
    let memory =
      join-IsComponent d memory_root_dir
        (λ e. ground arith, refl, λ e. ground arith, λ e. ground arith) in
    let version =
      join-IsComponent (d ++ memory_root_dir ∷ []) memory_version_dir
        (λ e. ground arith, refl, λ e. ground arith, λ e. ground arith) in
    rw memory (rw version (infer_lem d))
