-- ===== src/Api/Tenancy.antt =====
-- Tenants in apps/api/src/plugins/auth.ts: the context a caller gets is one of its memberships.

use rescue.Api.Memberships.{
  any-map, any-select, is_member_of, is_with, resolve_organization-any, resolve_provider-any,
}
use mathlib.Core.Option.{some_inj}
use rescue.Api.Auth.{scope_of}
use rescue.Prelude.{ap, false, subst}
use rescue.Prelude.Table.{get}
use text.Mathlib.Text.{◌==◌ as str_eq}
use mathlib.Core.Option.{map as option_map}
use mathlib.Core.Option.{some_inj}
use rescue.Api.Auth.{
  AuthContext, AuthDeps, Request, authenticate, build_auth_context, is_relevant, principal_of,
  public_paths, resolve_organization, resolve_provider,
}
use rescue.Api.Header.{header_value}
use rescue.Contracts.Auth.{UserRole, is_staff_role}
use rescue.Prelude.{String, sym, ◌&&◌, ◌∙◌, ◌⊎◌}
use rescue.Prelude.Table.{values}
use rescue.Store.Action.{Result, Result-cases, err}
use rescue.Store.Jobs.{find_job}
use rescue.Store.People.{find_user_by_subject}
use rescue.Store.State.{to_job, visible, visible_job}
use rescue.Store.Types.{Job, JobRecord, MemoryStore, Scope, StoredUser}
use rescue.Contracts.Auth.{Membership}
use rescue.Prelude.{
  Bool-cases, List, Option, Option-cases, any, arith, inl, inr, map, none, refl, select, some, true,
  ℕ, ◌==◌, ◌≡◌,
}
use rescue.Store.Action.{ok}

-- Whether memberships give access to a job: a staff role, or its organisation, or a provider that
-- it is or was assigned to.
abbrev pub MayRead : MemoryStore → List Membership → Job → Type 0
MayRead s ms job =
    (any (λ m. is_staff_role m.role) ms ≡ true)
    ⊎ ((any (is_member_of job.organization_id) ms ≡ true)
        ⊎ ((id : ℕ) × (any (is_with id) ms ≡ true)
            × (any (λ a. a.job_id == job.id && a.provider_id == id) (values s.assignments) ≡ true)))

-- What a context is made of.
abbrev IsContext : AuthDeps → Request → MemoryStore → AuthContext → Type 0
IsContext deps request s auth =
    (subject : String) × (user : StoredUser) × (organization_id : Option ℕ) × (provider_id : Option
      ℕ)
    × (request.verified ≡ ok subject)
    × (find_user_by_subject subject s ≡ some user)
    × ((id : ℕ) → organization_id ≡ some id → any (is_member_of id) user.memberships ≡ true)
    × ((id : ℕ) → provider_id ≡ some id → any (is_with id) user.memberships ≡ true)
    × (auth ≡ build_auth_context deps (principal_of user) organization_id provider_id request.id)

abbrev Authenticated : AuthDeps → Request → MemoryStore → Result (Option AuthContext) → Type 0
Authenticated deps request s (err _) = Unit
Authenticated deps request s (ok none) = Unit
Authenticated deps request s (ok (some auth)) = IsContext deps request s auth

authenticate-Authenticated :
    (deps : AuthDeps) (request : Request) (s : MemoryStore)
    → Authenticated deps request s (authenticate deps request s)
unfolding authenticate
authenticate-Authenticated deps request s =
    elim (Bool-cases (any (λ path. str_eq path request.path) public_paths)) [
      | inl e ↦ rw (authenticate, e) tt
      | inr e ↦ elim (Result-cases request.verified) [
        | inl (x, f) ↦ rw (authenticate, e, f) tt
        | inr (subject, f) ↦ elim (Option-cases (find_user_by_subject subject s)) [
          | inl g ↦ rw (authenticate, e, f, g) tt
          | inr (user, g) ↦
              let org =
                resolve_organization (principal_of user)
                  (option_map deps.id_of (header_value request.organization_header)) in
              let prov =
                resolve_provider (principal_of user)
                  (option_map deps.id_of (header_value request.provider_header)) in
              elim (Result-cases org) [
                | inl (x, h) ↦ rw (authenticate, e, f, g, h) tt
                | inr (organization_id, h) ↦ elim (Result-cases prov) [
                  | inl (x, k) ↦ rw (authenticate, e, f, g, h, k) tt
                  | inr (provider_id, k) ↦
                      let made : authenticate deps request s
                          ≡ ok (
                              some (
                                build_auth_context deps (principal_of user) organization_id
                                  provider_id request.id)) =
                        rw (authenticate, e, f, g, h, k) refl in
                      subst (Authenticated deps request s) (sym made) (
                        subject,
                        user,
                        organization_id,
                        provider_id,
                        f,
                        g,
                        (λ id own.
                            resolve_organization-any (principal_of user) _ id
                              (h ∙ ap (λ o. ok o) own)),
                        (λ id own.
                            resolve_provider-any (principal_of user) _ id (k ∙ ap (λ o. ok o) own)),
                        refl,
                      )
                ]
              ]
        ]
      ]
    ]

to_job_organization : (r : JobRecord) → (to_job r).organization_id ≡ r.organization_id
unfolding to_job
to_job_organization r = refl

-- What a scope shows of a job.
find_job_cases :
    (s : MemoryStore) (id : ℕ) (scope : Scope) (job : Job)
    → find_job id scope s ≡ some job
    → (r : JobRecord) × (to_job r ≡ job) × (visible s r scope ≡ true)
unfolding find_job visible_job to_job
find_job_cases s id scope job h = elim (Option-cases (get s.jobs id)) [
  | inl e ↦ absurd (ground (arith, h, e))
  | inr (r, e) ↦ elim (Bool-cases (visible s r scope)) [
    | inl f ↦ (r, some_inj.0 (sym (rw (find_job, visible_job, e, f) refl) ∙ h), f)
    | inr f ↦ absurd (ground (arith, h, e, f))
  ]
]

scope_cases :
    (s : MemoryStore) (none_id : ℕ) (organization_id provider_id : Option ℕ) (r : JobRecord)
    → (r.organization_id ≡ none_id → ⊥)
    → visible s r (scope_of none_id false organization_id provider_id) ≡ true
    → (organization_id ≡ some r.organization_id)
      ⊎ ((id : ℕ) × (provider_id ≡ some id)
          × (any (λ a. a.job_id == r.id && a.provider_id == id) (values s.assignments) ≡ true))
unfolding visible
scope_cases s none_id (some o) provider_id r real h = inl (ground (arith, h))
scope_cases s none_id none (some p) r real h = inr (p, refl, h)
scope_cases s none_id none none r real h = absurd (real (ground (arith, h)))

scope_MayRead :
    (deps : AuthDeps) (s : MemoryStore) (user : StoredUser) (organization_id provider_id : Option ℕ)
    (correlation_id : String) (r : JobRecord)
    → (r.organization_id ≡ deps.none_id → ⊥)
    → ((id : ℕ) → organization_id ≡ some id → any (is_member_of id) user.memberships ≡ true)
    → ((id : ℕ) → provider_id ≡ some id → any (is_with id) user.memberships ≡ true)
    → visible s r
        (build_auth_context deps
          (principal_of user)
          organization_id
          provider_id
          correlation_id).scope
      ≡ true
    → MayRead s user.memberships (to_job r)
unfolding build_auth_context visible to_job
scope_MayRead deps s user organization_id provider_id correlation_id r real member with h =
    let roles : List UserRole =
      map (λ m. m.role) (select (is_relevant organization_id provider_id) user.memberships) in
    elim (Bool-cases (any is_staff_role roles)) [
      | inl e ↦ inl (
          any-select (λ m. is_staff_role m.role) (is_relevant organization_id provider_id)
            user.memberships (sym (any-map is_staff_role (λ m. m.role) _) ∙ e))
      | inr e ↦
          elim (scope_cases s deps.none_id organization_id provider_id r real (
            subst (λ b. visible s r (scope_of deps.none_id b organization_id provider_id) ≡ true) e
              h)) [
                | inl own ↦ inr (inl (member r.organization_id own))
                | inr (id, own, held) ↦ inr (inr (id, with id own, held))
              ]
    ]

-- What the caller of a request can find is its own: a job that `findJob` shows to the authenticated
-- caller belongs to an organisation of the user whose subject the token holds, or was assigned to a
-- provider of that user, or the user has a staff role. No organisation of a job has the id that
-- stands for none.
pub authenticate-MayRead :
    (deps : AuthDeps) (request : Request) (s : MemoryStore) (auth : AuthContext) (id : ℕ)
    (job : Job)
    → authenticate deps request s ≡ ok (some auth)
    → find_job id auth.scope s ≡ some job
    → (job.organization_id ≡ deps.none_id → ⊥)
    → (subject : String) × (user : StoredUser) × (request.verified ≡ ok subject)
      × (find_user_by_subject subject s ≡ some user)
      × MayRead s user.memberships job
authenticate-MayRead deps request s auth id job e found real =
    let (subject, user, o, p, f, g, member, with, own) =
      subst (Authenticated deps request s) e (authenticate-Authenticated deps request s) in
    let (r, same, shown) = find_job_cases s id auth.scope job found in
    (
      subject,
      user,
      f,
      g,
      subst (MayRead s user.memberships) same (
          scope_MayRead deps s user o p request.id r
            (λ bad. real (ap (λ j. j.organization_id) (sym same) ∙ to_job_organization r ∙ bad))
            member with (subst (λ a. visible s r a.scope ≡ true) own shown)),
    )
