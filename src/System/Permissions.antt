-- ===== src/System/Permissions.antt =====
-- Who may use which endpoint of apps/api/src/routes: a table apart from the code of the guards.
use rescue.Api.Auth.{AuthContext, holds_one, same_id}
use rescue.Contracts.Auth.{UserRole, is_provider_role}
use rescue.Prelude.{Bool, List, [], any, false, is_some, none, some, ℕ, ◌&&◌, ◌∷◌, ◌||◌}
use rescue.Store.Offers.{find_active_assignment}
use rescue.Store.Types.{MemoryStore}
use rescue.System.{Endpoint}

-- Staff, or a provider that holds the job now.
unfoldable pub at_hand : MemoryStore → ℕ → AuthContext → Bool
at_hand s job_id auth = auth.is_staff || elim (find_active_assignment job_id s) [
  | none ↦ false
  | some a ↦ same_id (some a.provider_id) auth.provider_id
]

-- Staff, or a provider on itself.
abbrev pub on_itself : ℕ → AuthContext → Bool
on_itself id auth = auth.is_staff || same_id (some id) auth.provider_id

abbrev pub dispatching : List UserRole
dispatching = UserRole.dispatcher ∷ UserRole.admin ∷ []

abbrev pub working : List UserRole
working = UserRole.provider_admin ∷ UserRole.provider_driver ∷ dispatching

abbrev pub buying : List UserRole
buying = UserRole.customer_admin ∷ UserRole.customer_member ∷ dispatching

-- Whether a caller may use an endpoint, whatever else the endpoint checks.
unfoldable pub may_use : MemoryStore → AuthContext → Endpoint → Bool
may_use s a (Endpoint.creates_job _ _) = is_some a.organization_id && holds_one buying a
may_use s a (Endpoint.approves_triage _ _ _) = holds_one dispatching a
may_use s a (Endpoint.starts id) = holds_one working a && at_hand s id a
may_use s a (Endpoint.completes id) = holds_one working a && at_hand s id a
may_use s a (Endpoint.cancels _ _) = holds_one (UserRole.customer_admin ∷ dispatching) a
may_use s a (Endpoint.quotes _ _ _) = holds_one dispatching a
may_use s a (Endpoint.decides _ _ _ _) =
    is_some a.organization_id && holds_one (UserRole.customer_admin ∷ UserRole.admin ∷ []) a
may_use s a (Endpoint.offers _ _ _) = holds_one dispatching a
may_use s a (Endpoint.responds _ _ _) = is_some a.provider_id && any is_provider_role a.roles
may_use s a (Endpoint.falls_through id _) =
    holds_one (UserRole.provider_admin ∷ dispatching) a && at_hand s id a
may_use s a (Endpoint.expires _) = holds_one (UserRole.admin ∷ []) a
may_use s a (Endpoint.asks_upload id _) = holds_one working a && at_hand s id a
may_use s a (Endpoint.confirms_upload _) = holds_one working a
may_use s a (Endpoint.onboards _) = holds_one (UserRole.provider_admin ∷ dispatching) a
may_use s a (Endpoint.reviews _ _) = holds_one (UserRole.compliance ∷ UserRole.admin ∷ []) a
may_use s a (Endpoint.pauses id _ _) =
    on_itself id a && holds_one (UserRole.provider_admin ∷ dispatching) a
may_use s a (Endpoint.adds_vehicle id _ _) = on_itself id a
may_use s a (Endpoint.adds_document id _) = on_itself id a
may_use s a (Endpoint.reviews_document _ _) =
    holds_one (UserRole.compliance ∷ UserRole.admin ∷ []) a
may_use s a (Endpoint.erases _) = holds_one (UserRole.compliance ∷ UserRole.admin ∷ []) a
