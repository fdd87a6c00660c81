-- ===== src/System/Refusals.antt =====
-- The guards of apps/api/src/plugins/auth.ts and apps/api/src/routes throw, and write nothing, when the
-- caller has not what they ask for.
use rescue.Api.Auth.{
  AuthContext, holds_one, require_auth, require_organization, require_provider, require_role,
}
use rescue.Api.Guards.{check_holder, of_result, require_holder}
use rescue.Api.Providers.{assert_access, require_own}
use rescue.Contracts.Auth.{UserRole, is_provider_role}
use rescue.Contracts.Errors.{AppError}
use rescue.Prelude.{
  Bool-cases, List, Option-cases, String, any, arith, false, inl, inr, is_some, refl, some, true, ℕ,
  ◌&&◌, ◌≡◌, ◌∙◌, ap,
}
use rescue.Store.Action.{Action, bind_eq, bind_err, err, ok, pure, ◌>>=◌}
use rescue.Store.Types.{MemoryStore}
use rescue.System.Permissions.{at_hand, on_itself}

module _ {A B : Type 0} (s : MemoryStore) (f : A → Action B) where
  -- A chain whose first part throws without a write, or returns without one.
  pub stops : (m : Action A) (x : AppError) → m s ≡ (err x, s) → ((m >>= f) s).1 ≡ s
  stops m x e = ap (λ r. r.1) (bind_err m f s s x e)

  pub goes_on : (m : Action A) (a : A) → m s ≡ (ok a, s) → (f a s).1 ≡ s → ((m >>= f) s).1 ≡ s
  goes_on m a e h = ap (λ r. r.1) (bind_eq m f s s a e) ∙ h

check_holder_refuses :
    (auth : AuthContext) (id : ℕ) (s : MemoryStore)
    → at_hand s id auth ≡ false
    → check_holder auth id s ≡ (err (AppError.not_found "Job"), s)
unfolding check_holder at_hand
check_holder_refuses auth id s e = ground (arith, e)

require_role_refuses :
    (roles : List UserRole) (auth : AuthContext)
    → holds_one roles auth ≡ false
    → require_role roles (some auth)
      ≡ err (AppError.forbidden "This action requires one of the roles")
unfolding require_role
require_role_refuses roles auth e = rw (require_role, e) refl

require_role_grants :
    (roles : List UserRole) (auth : AuthContext)
    → holds_one roles auth ≡ true
    → require_role roles (some auth) ≡ ok auth
unfolding require_role
require_role_grants roles auth e = rw (require_role, e) refl

require_own_refuses :
    (refusal : String) (auth : AuthContext) (id : ℕ)
    → on_itself id auth ≡ false
    → (x : AppError) × (require_own refusal (some auth) id ≡ err x)
unfolding require_own require_auth require_provider
require_own_refuses refusal auth id e = elim (Option-cases auth.provider_id) [
  | inl h ↦ (AppError.forbidden "This action requires a provider membership", ground (arith, e, h))
  | inr (own, h) ↦ elim (Bool-cases (any is_provider_role auth.roles)) [
    | inr k ↦
        (AppError.forbidden "This action requires a provider membership", ground (arith, e, h, k))
    | inl k ↦ (AppError.forbidden refusal, ground (arith, e, h, k))
  ]
]

-- An action that leaves the store as it is.
pub record Refuses {A : Type 0} (m : Action A) (s : MemoryStore) : Type 0 where
  pub refused : (m s).1 ≡ s

pub require_holder_refuses :
    (auth : AuthContext) (s : MemoryStore) (roles : List UserRole) (id : ℕ)
    → holds_one roles auth && at_hand s id auth ≡ false
    → (x : AppError) × ((require_holder roles (some auth) id s).0 ≡ err x)
      × ((require_holder roles (some auth) id s).1 ≡ s)
unfolding require_holder
require_holder_refuses auth s roles id e =
    let guard : AuthContext → Action AuthContext = λ a. check_holder a id >>= λ _. pure a in
    elim (Bool-cases (holds_one roles auth)) [
      | inr g ↦
          let thrown =
            bind_err (of_result (require_role roles (some auth))) guard s s
              (AppError.forbidden "This action requires one of the roles")
              (ap (λ r. (r, s)) (require_role_refuses roles auth g)) in
          (_, ap (λ r. r.0) thrown, ap (λ r. r.1) thrown)
      | inl g ↦
          let away : at_hand s id auth ≡ false = ground (arith, e, g) in
          let thrown =
            bind_eq (of_result (require_role roles (some auth))) guard s s auth
              (ap (λ r. (r, s)) (require_role_grants roles auth g))
            ∙ bind_err (check_holder auth id) (λ _. pure auth) s s (AppError.not_found "Job")
                (check_holder_refuses auth id s away) in
          (_, ap (λ r. r.0) thrown, ap (λ r. r.1) thrown)
    ]

module _ {A : Type 0} (auth : AuthContext) (s : MemoryStore) where
  role_refuses :
      (roles : List UserRole) (f : AuthContext → Action A)
      → holds_one roles auth ≡ false
      → ((of_result (require_role roles (some auth)) >>= f) s).1 ≡ s
  role_refuses roles f e =
      stops s f (of_result (require_role roles (some auth))) _
        (ap (λ r. (r, s)) (require_role_refuses roles auth e))

  buyer_refuses :
      (roles : List UserRole) (f : AuthContext × ℕ → AuthContext → Action A)
      → is_some auth.organization_id && holds_one roles auth ≡ false
      → ((of_result (require_organization (some auth)) >>= λ owner.
            of_result (require_role roles (some auth)) >>= f owner)
          s).1
        ≡ s
  unfolding require_organization
  buyer_refuses roles f e = elim (Option-cases auth.organization_id) [
    | inl g ↦
        stops s (λ owner. of_result (require_role roles (some auth)) >>= f owner)
          (of_result (require_organization (some auth)))
          (AppError.forbidden "This action requires an organisation membership")
          (rw (require_organization, g) refl)
    | inr (id, g) ↦
        goes_on s (λ owner. of_result (require_role roles (some auth)) >>= f owner)
          (of_result (require_organization (some auth))) (auth, id) (ground (arith, g))
          (role_refuses roles (f (auth, id)) (ground (arith, e, g)))
  ]

  carrier_refuses :
      (f : AuthContext × ℕ → Action A)
      → is_some auth.provider_id && any is_provider_role auth.roles ≡ false
      → ((of_result (require_provider (some auth)) >>= f) s).1 ≡ s
  unfolding require_provider
  carrier_refuses f e =
      stops s f (of_result (require_provider (some auth)))
        (AppError.forbidden "This action requires a provider membership") (ground (arith, e))

  access_refuses :
      (id : ℕ) (roles : List UserRole) (f : AuthContext → AuthContext → Action A)
      → on_itself id auth && holds_one roles auth ≡ false
      → ((of_result (assert_access (some auth) id) >>= λ a.
            of_result (require_role roles (some auth)) >>= f a)
          s).1
        ≡ s
  unfolding assert_access
  access_refuses id roles f e = elim (Bool-cases (on_itself id auth)) [
    | inl g ↦
        goes_on s (λ a. of_result (require_role roles (some auth)) >>= f a)
          (of_result (assert_access (some auth) id)) auth (ground (arith, g))
          (role_refuses roles (f auth) (ground (arith, e, g)))
    | inr g ↦
        stops s (λ a. of_result (require_role roles (some auth)) >>= f a)
          (of_result (assert_access (some auth) id)) (AppError.not_found "Provider")
          (ground (arith, g))
  ]

  own_refuses :
      (refusal : String) (id : ℕ) (f : AuthContext → Action A)
      → on_itself id auth ≡ false
      → ((of_result (require_own refusal (some auth) id) >>= f) s).1 ≡ s
  own_refuses refusal id f e =
      let (x, g) = require_own_refuses refusal auth id e in
      stops s f (of_result (require_own refusal (some auth) id)) x (ap (λ r. (r, s)) g)

module _ {A : Type 0} (auth : AuthContext) (s : MemoryStore) where
  pub by_role :
      (roles : List UserRole) (f : AuthContext → Action A)
      → holds_one roles auth ≡ false
      → Refuses (of_result (require_role roles (some auth)) >>= f) s
  by_role roles f e = record { refused = role_refuses auth s roles f e }

  pub by_buyer :
      (roles : List UserRole) (f : AuthContext × ℕ → AuthContext → Action A)
      → is_some auth.organization_id && holds_one roles auth ≡ false
      → Refuses
          (of_result (require_organization (some auth)) >>= λ owner.
            of_result (require_role roles (some auth)) >>= f owner)
          s
  by_buyer roles f e = record { refused = buyer_refuses auth s roles f e }

  pub by_carrier :
      (f : AuthContext × ℕ → Action A)
      → is_some auth.provider_id && any is_provider_role auth.roles ≡ false
      → Refuses (of_result (require_provider (some auth)) >>= f) s
  by_carrier f e = record { refused = carrier_refuses auth s f e }

  pub by_access :
      (id : ℕ) (roles : List UserRole) (f : AuthContext → AuthContext → Action A)
      → on_itself id auth && holds_one roles auth ≡ false
      → Refuses
          (of_result (assert_access (some auth) id) >>= λ a.
            of_result (require_role roles (some auth)) >>= f a)
          s
  by_access id roles f e = record { refused = access_refuses auth s id roles f e }

  pub by_own :
      (refusal : String) (id : ℕ) (f : AuthContext → Action A)
      → on_itself id auth ≡ false
      → Refuses (of_result (require_own refusal (some auth) id) >>= f) s
  by_own refusal id f e = record { refused = own_refuses auth s refusal id f e }
