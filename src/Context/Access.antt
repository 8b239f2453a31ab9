-- ===== src/Context/Access.antt =====
-- What a host's metadata and a call's arguments can make a call's identity.
use jiandu.Prelude.{
  ◌≡◌, ◌↔◌, refl, sym, ap, ◌∙◌, subst, not, Option, none, some, Bool-cases, inl, inr,
}
use jiandu.Prelude.Classes.{◌=?◌, nat_eq, list_eq, beq_refl}
use jiandu.Result.{Result, ok}
use jiandu.Text.{Text, trimmed}
use jiandu.Types.{scope_eq}
use jiandu.Validate.{validate_session_id, parse_project_id}
use jiandu.Validate.Ids.{parse_project_id_iff}
use jiandu.Context.{
  invalid_arguments, MemoryResult, failed, done, invalid, invalid_if, >>=-eq-done, invalid-eq-done,
  MemoryExecutionContext, HostCallContext, Json, no_context, require, with_some, with_session_id,
  with_project_id, host_context, resolve_request, requested_id, granted, resolve_project_id,
}
use jiandu.Context.{◌>>=◌ as ◌after◌}

-- What is there has been checked, and nothing else is there.
abbrev pub IsChecked : (Text → Result Text) → Option Text → Option Text → Type 0
IsChecked validate none none = Unit
IsChecked validate none (some id) = ⊥
IsChecked validate (some raw) none = ⊥
IsChecked validate (some raw) (some id) = validate raw ≡ ok id

with_session_id_lem :
    (self : MemoryExecutionContext) (raw : Option Text) (c : MemoryExecutionContext)
    → self.session_id ≡ none
    → with_some with_session_id self raw ≡ done c
    → IsChecked validate_session_id raw c.session_id × (c.project_id ≡ self.project_id)
unfolding with_session_id
with_session_id_lem self none c e h = let f : c ≡ self = cc in (rw (f, e) tt, rw f refl)
with_session_id_lem self (some raw) c e h =
    let (id, checked, g) = >>=-eq-done (invalid (validate_session_id raw)) _ h in
    let f : c ≡ record self { session_id = some id } = cc in
    (rw f (invalid-eq-done (validate_session_id raw) checked), rw f refl)

with_project_id_lem :
    (self : MemoryExecutionContext) (raw : Option Text) (c : MemoryExecutionContext)
    → self.project_id ≡ none
    → with_some with_project_id self raw ≡ done c
    → IsChecked parse_project_id raw c.project_id × (c.session_id ≡ self.session_id)
unfolding with_project_id
with_project_id_lem self none c e h = let f : c ≡ self = cc in (rw (f, e) tt, rw f refl)
with_project_id_lem self (some raw) c e h =
    let (id, checked, g) = >>=-eq-done (invalid (parse_project_id raw)) _ h in
    let f : c ≡ record self { project_id = some id } = cc in
    (rw f (invalid-eq-done (parse_project_id raw) checked), rw f refl)

require-eq-done {ℓ} : {A : Type ℓ} (o : Option A) {a : A} → require o ≡ done a → o ≡ some a
require-eq-done none h = cc
require-eq-done (some a) h = cc

-- A call whose metadata has a context gets exactly the identities that the context names, each one
-- checked: whatever the defaults of the server are, an identity that the context leaves out is absent.
pub resolve_request_replaces :
    (json : Json) (self : MemoryExecutionContext) (value : json.Value) (c : MemoryExecutionContext)
    → resolve_request json self (some value) ≡ done c
    → (host : HostCallContext) × (json.host_call_context value ≡ some host)
      × IsChecked validate_session_id host.session_id c.session_id
      × IsChecked parse_project_id host.project_id c.project_id
unfolding resolve_request host_context
resolve_request_replaces json self value c h =
    let (_, _, g) = >>=-eq-done (invalid_if (not (json.is_object value))) _ h in
    let (host, found, k) = >>=-eq-done (require (json.host_call_context value)) _ g in
    let (resolved, first, second) =
      >>=-eq-done (with_some with_session_id no_context host.session_id) _ k in
    let (s, none_yet) = with_session_id_lem no_context host.session_id resolved refl first in
    let (p, same) = with_project_id_lem resolved host.project_id c none_yet second in
    (
      host,
      require-eq-done (json.host_call_context value) found,
      subst (IsChecked validate_session_id host.session_id) (sym same) s,
      p,
    )

-- A request for a project is for the one that the host granted.
abbrev pub IsGranted : MemoryExecutionContext → Option Text → Type 0
IsGranted self none = Unit
IsGranted self (some requested) =
    (self.project_id ≡ some requested) × (parse_project_id requested ≡ ok requested)

pub done_injective {ℓ} : {A : Type ℓ} {a b : A} → done a ≡ done b → a ≡ b
done_injective h = cc

granted_lem :
    (context : Option Text) (r : Text) (p : Option Text)
    → granted context (some r) ≡ done p
    → (context ≡ some r) × (p ≡ context)
granted_lem none r p h = cc
granted_lem (some c) r p h = elim (Bool-cases (c =? r)) [
  | inl e ↦
      let f = (list_eq.beq_iff c r).0 e in
      let g : granted (some c) (some r) ≡ done (some c) = rw e refl in
      (ap some f, done_injective (sym h ∙ g))
  | inr e ↦ let g : granted (some c) (some r) ≡ failed invalid_arguments = rw e refl in cc
]

granted_same : (r : Text) → granted (some r) (some r) ≡ done (some r)
granted_same r = rw (beq_refl r) refl

granted-none : (context : Option Text) → granted context none ≡ done context
granted-none none = refl
granted-none (some c) = refl

abbrev bind_requested : MemoryExecutionContext → Option Text → MemoryResult (Option Text)
bind_requested self requested = requested_id requested after λ r. granted self.project_id r

requested_lem :
    (self : MemoryExecutionContext) (requested p : Option Text)
    → bind_requested self requested ≡ done p
    → IsGranted self requested × (p ≡ self.project_id)
requested_lem self none p h = (tt, sym (done_injective (sym (granted-none self.project_id) ∙ h)))
requested_lem self (some value) p h =
    let (r, parsed, g) = >>=-eq-done (requested_id (some value)) _ h in
    let (id, valid, k) = >>=-eq-done (invalid (parse_project_id value)) _ parsed in
    let valid = invalid-eq-done (parse_project_id value) valid in
    let same = ((parse_project_id_iff value id).0 valid).0 in
    let (e, f) =
      granted_lem self.project_id id p
        (subst (λ o. granted self.project_id o ≡ done p) (sym (done_injective k)) g) in
    ((e ∙ ap some same, subst (λ x. parse_project_id value ≡ ok x) same valid), f)

granted_back :
    (self : MemoryExecutionContext) (requested : Option Text)
    → IsGranted self requested
    → bind_requested self requested ≡ done self.project_id
granted_back self none h = granted-none self.project_id
granted_back self (some value) (e, valid) = rw (valid, e) (granted_same value)

-- A call has a project exactly if its host granted it; an argument never grants one. What the argument
-- names, trimmed and not empty, has to be the granted project.
pub resolve_project_id_iff :
    (self : MemoryExecutionContext) (requested p : Option Text)
    → (resolve_project_id self requested ≡ done p)
      ↔ ((p ≡ self.project_id) × IsGranted self (trimmed requested))
unfolding resolve_project_id
resolve_project_id_iff self requested p = (
  λ h. let (g, e) = requested_lem self (trimmed requested) p h in (e, g),
  λ h. rw h.0 (granted_back self (trimmed requested) h.1),
)
