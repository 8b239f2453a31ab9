-- ===== src/Handler/Granted.antt =====
-- The store that a call gets.
use jiandu.Prelude.{◌≡◌, refl, sym, ap, ◌∙◌, subst, true, not, ◌&&◌, Option, none, some, is_some}
use jiandu.Text.{Text, trimmed}
use jiandu.Types.{MemoryScope, project, global, scope_eq}
use jiandu.Prelude.Classes.{◌=?◌}
use jiandu.Store.Disk.{Env}
use jiandu.Context.{done, invalid_if, >>=-eq-done, MemoryExecutionContext, resolve_project_id}
use jiandu.Context.Access.{IsGranted, resolve_project_id_iff, done_injective}
use jiandu.Handler.{ResolvedMemoryAccess, bound_resolver, resolve_access}

-- A call of the project scope has a project.
abbrev pub HasProject : MemoryScope → Option Text → Type 0
HasProject MemoryScope.session id = Unit
HasProject project id = is_some id ≡ true
HasProject global id = Unit

has_project :
    (scope : MemoryScope) (id : Option Text)
    → invalid_if (scope =? project && not (is_some id)) ≡ done tt
    → HasProject scope id
has_project MemoryScope.session id h = tt
has_project global id h = tt
has_project project none h = cc
has_project project (some id) h = refl

-- The store of a call is bound to the project that the host granted, and to no other. Without a
-- granted project it is the server's own, and then no call of the project scope gets one.
pub resolve_access-IsGranted :
    (store : Env) (context : MemoryExecutionContext) (requested : Option Text) (scope : MemoryScope)
    (access : ResolvedMemoryAccess)
    → resolve_access store context requested scope ≡ done access
    → (access.project_id ≡ context.project_id)
      × (access.resolver ≡ bound_resolver store.resolver context.project_id)
      × HasProject scope context.project_id
      × IsGranted context (trimmed requested)
unfolding resolve_access
resolve_access-IsGranted store context requested scope access h =
    let (id, resolved, g) = >>=-eq-done (resolve_project_id context requested) _ h in
    let (u, checked, k) = >>=-eq-done (invalid_if (scope =? project && not (is_some id))) _ g in
    let (e, granted) = (resolve_project_id_iff context requested id).0 resolved in
    let a = done_injective k in
    (
      sym (ap (λ (x : ResolvedMemoryAccess). x.project_id) a) ∙ e,
      sym (ap (λ (x : ResolvedMemoryAccess). x.resolver) a) ∙ ap (bound_resolver store.resolver) e,
      subst (HasProject scope) e (has_project scope id checked),
      granted,
    )
