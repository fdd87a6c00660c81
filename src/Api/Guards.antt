-- ===== src/Api/Guards.antt =====
-- What several endpoints of apps/api/src/routes ask before they act.
use rescue.Api.Auth.{AuthContext, require_role, same_id}
use rescue.Contracts.Auth.{UserRole}
use rescue.Contracts.Errors.{AppError}
use rescue.Prelude.{List, Option, if◌then◌else◌, none, some, ℕ}
use rescue.Store.Action.{Action, Result, pure, raise, ◌>>=◌}
use rescue.Store.Jobs.{find_job}
use rescue.Store.Offers.{find_active_assignment}
use rescue.Store.Types.{Job, Scope}

-- An answer that depends on the request alone.
abbrev pub of_result : {A : Type 0} → Result A → Action A
of_result r s = (r, s)

-- `if (!auth.isStaff) { ... }`: a provider must hold the job now.
unfoldable pub check_holder : AuthContext → ℕ → Action (Unit {0})
check_holder auth job_id s =
    if auth.is_staff then pure tt s else elim (find_active_assignment job_id s) [
      | none ↦ raise (AppError.not_found "Job") s
      | some a ↦
          if same_id (some a.provider_id) auth.provider_id
          then pure tt s
          else raise (AppError.not_found "Job") s
    ]

-- `findJob`, with a throw of NOT_FOUND.
unfoldable pub require_job : ℕ → Scope → Action Job
require_job id scope s = elim (find_job id scope s) [
  | none ↦ raise (AppError.not_found "Job") s
  | some job ↦ pure job s
]

-- The caller of a route with roles, and the job's holder if it is a provider.
unfoldable pub require_holder : List UserRole → Option AuthContext → ℕ → Action AuthContext
require_holder roles caller job_id =
    of_result (require_role roles caller) >>= λ auth. check_holder auth job_id >>= λ _. pure auth
