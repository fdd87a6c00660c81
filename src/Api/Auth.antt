-- ===== src/Api/Auth.antt =====
-- apps/api/src/plugins/auth.ts: who calls, in which tenant, with which roles and which view of the
-- store. Ids are numbers here: the number of a header's text is a parameter.
use mathlib.Core.Option.{map as option_map}
use rescue.Api.Header.{HeaderValue, header_value}
use rescue.Contracts.Auth.{Membership, Principal, UserRole, is_provider_role, is_staff_role}
use rescue.Contracts.Errors.{AppError}
use text.Mathlib.Text.{◌==◌ as str_eq}
use rescue.Contracts.Auth.{user_role_coded}
use rescue.Prelude.{
  Bool, List, Option, String, [], any, false, if◌then◌else◌, map, none, select, some, true, ℕ,
  ◌===◌, ◌==◌, ◌||◌, ◌∷◌,
}
use rescue.Store.Action.{Result, err, ok}
use rescue.Store.Offers.{distinct}
use rescue.Store.People.{find_user_by_subject}
use rescue.Store.Types.{Actor, MemoryStore, Scope, StoredUser}

pub record AuthContext : Type 0 where
  pub principal : Principal
  pub roles : List UserRole
  pub organization_id : Option ℕ
  pub provider_id : Option ℕ
  pub is_staff : Bool
  pub actor : Actor
  pub scope : Scope

-- What the hook reads of a request. `verified` is the subject that the verifier finds in the bearer
-- token, or its error.
pub record Request : Type 0 where
  pub path : String
  pub verified : Result String
  pub organization_header : HeaderValue
  pub provider_header : HeaderValue
  pub id : String

-- The number of a text that is an id, and the number of the text `__none__`.
pub record AuthDeps : Type 0 where
  pub id_of : String → ℕ
  pub none_id : ℕ

-- `PUBLIC_PATHS`
abbrev pub public_paths : List String
public_paths =
    "/v1/health" ∷ "/v1/ready" ∷ "/v1/openapi.json" ∷ "/v1/auth/dev-token" ∷ "/metrics" ∷ []

-- The ids among the memberships that are not null.
abbrev pub held_ids : (Membership → Option ℕ) → List Membership → List ℕ
held_ids id [] = []
held_ids id (m ∷ rest) = elim (id m) [ none ↦ held_ids id rest | some n ↦ n ∷ held_ids id rest ]

-- What both resolutions do with the different ids held.
unfoldable pub resolve : AppError → AppError → List ℕ → Option ℕ → Result (Option ℕ)
resolve no_member ambiguous ids (some requested) =
    if any (λ id. id == requested) ids then ok (some requested) else err no_member
resolve no_member ambiguous [] none = ok none
resolve no_member ambiguous (id ∷ []) none = ok (some id)
resolve no_member ambiguous (id ∷ other ∷ rest) none = err ambiguous

unfoldable pub resolve_organization : Principal → Option ℕ → Result (Option ℕ)
resolve_organization principal requested =
    resolve (AppError.forbidden "You are not a member of that organisation")
      AppError.organization_required
      (distinct [] (held_ids (λ m. m.organization_id) principal.memberships)) requested

unfoldable pub resolve_provider : Principal → Option ℕ → Result (Option ℕ)
resolve_provider principal requested =
    resolve (AppError.forbidden "You are not a member of that provider")
      AppError.provider_context_required
      (distinct [] (held_ids (λ m. m.provider_id) principal.memberships)) requested

-- `held !== null && held === resolved`
abbrev pub same_id : Option ℕ → Option ℕ → Bool
same_id (some a) (some b) = a == b
same_id _ _ = false

abbrev pub is_relevant : Option ℕ → Option ℕ → Membership → Bool
is_relevant organization_id provider_id m =
    is_staff_role m.role
    || same_id m.organization_id organization_id
    || same_id m.provider_id provider_id

-- `[...new Set(roles)]`
abbrev pub distinct_roles : List UserRole → List UserRole → List UserRole
distinct_roles seen [] = []
distinct_roles seen (role ∷ rest) =
    let kept = distinct_roles (role ∷ seen) rest in
    let skipped = distinct_roles seen rest in
    if any (λ r. r === role) seen then skipped else role ∷ kept

abbrev pub first_role : List UserRole → UserRole
first_role [] = UserRole.customer_member
first_role (role ∷ rest) = role

-- Staff read everything, a customer its organisation's, a provider the jobs it holds or held.
abbrev pub scope_of : ℕ → Bool → Option ℕ → Option ℕ → Scope
scope_of none_id true organization_id provider_id = Scope.staff
scope_of none_id false (some organization_id) provider_id = Scope.organization organization_id
scope_of none_id false none (some provider_id) = Scope.provider provider_id
scope_of none_id false none none = Scope.organization none_id

unfoldable pub build_auth_context :
    AuthDeps → Principal → Option ℕ → Option ℕ → String → AuthContext
build_auth_context deps principal organization_id provider_id correlation_id =
    let roles : List UserRole =
      map (λ m. m.role) (select (is_relevant organization_id provider_id) principal.memberships) in
    let is_staff = any is_staff_role roles in
    record {
      principal = principal;
      roles = distinct_roles [] roles;
      organization_id = organization_id;
      provider_id = provider_id;
      is_staff = is_staff;
      actor = record {
        user_id = some principal.user_id;
        role = first_role roles;
        correlation_id = some correlation_id;
      };
      scope = scope_of deps.none_id is_staff organization_id provider_id;
    }

abbrev pub principal_of : StoredUser → Principal
principal_of user = record {
  user_id = user.id;
  subject = user.subject;
  email = user.email;
  name = user.name;
  memberships = user.memberships;
}

-- The hook on every request: no caller for a public path, and otherwise the caller or an error.
unfoldable pub authenticate : AuthDeps → Request → MemoryStore → Result (Option AuthContext)
authenticate deps request s =
    if any (λ path. str_eq path request.path) public_paths then ok none else elim request.verified [
      | err e ↦ err e
      | ok subject ↦ elim (find_user_by_subject subject s) [
        | none ↦ err (AppError.unauthenticated "Token subject is not a known user")
        | some user ↦
            let principal = principal_of user in
            elim (resolve_organization principal
              (option_map deps.id_of (header_value request.organization_header))) [
                | err e ↦ err e
                | ok organization_id ↦
                    elim (resolve_provider principal
                      (option_map deps.id_of (header_value request.provider_header))) [
                        | err e ↦ err e
                        | ok provider_id ↦ ok (
                            some (
                              build_auth_context deps principal organization_id provider_id
                                request.id))
                      ]
              ]
      ]
    ]

unfoldable pub require_auth : Option AuthContext → Result AuthContext
require_auth none = err (AppError.unauthenticated "Authentication required")
require_auth (some auth) = ok auth

-- One of the roles is held.
abbrev pub holds_one : List UserRole → AuthContext → Bool
holds_one roles auth = any (λ held. any (λ role. role === held) roles) auth.roles

unfoldable pub require_role : List UserRole → Option AuthContext → Result AuthContext
require_role roles none = err (AppError.unauthenticated "Authentication required")
require_role roles (some auth) =
    if holds_one roles auth
    then ok auth
    else err (AppError.forbidden "This action requires one of the roles")

unfoldable pub require_organization : Option AuthContext → Result (AuthContext × ℕ)
require_organization none = err (AppError.unauthenticated "Authentication required")
require_organization (some auth) = elim auth.organization_id [
  | none ↦ err (AppError.forbidden "This action requires an organisation membership")
  | some id ↦ ok (auth, id)
]

unfoldable pub require_provider : Option AuthContext → Result (AuthContext × ℕ)
require_provider none = err (AppError.unauthenticated "Authentication required")
require_provider (some auth) = elim auth.provider_id [
  | none ↦ err (AppError.forbidden "This action requires a provider membership")
  | some id ↦
      if any is_provider_role auth.roles
      then ok (auth, id)
      else err (AppError.forbidden "This action requires a provider membership")
]
