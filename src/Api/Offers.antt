-- ===== src/Api/Offers.antt =====
-- apps/api/src/routes/offers.ts: the endpoints that offer a job to carriers, take their answers, and
-- take the job back. A request reads its clock once, and once more for its record.

use rescue.Dispatch.{is_approved}
use rescue.Contracts.Commerce.{quote_status_coded}
use rescue.Contracts.Job.{job_status_coded}
use rescue.Prelude.{any}
use rescue.Api.Auth.{AuthContext, require_provider, require_role}
use rescue.Api.Guards.{of_result, require_holder, require_job}
use rescue.Api.Idempotency.{KeyedRequest, Reply, Runner, Work, run_once}
use rescue.Api.Jobs.{dispatch_roles}
use rescue.Contracts.Auth.{UserRole}
use rescue.Contracts.Errors.{AppError}
use rescue.Contracts.Job.{JobStatus}
use rescue.Contracts.Provider.{EligibilityResult}
use rescue.Dispatch.{Maps, SweepConfig, SweepResult, rank_for_job, run_sweep}
use rescue.Prelude.{
  List, Option, String, [], any, if◌then◌else◌, length, map, not, select, some, take, ℕ, ◌*◌, ◌+◌,
  ◌===◌, ◌==◌, ◌∷◌,
}
use rescue.Store.Action.{Action, pure, raise, ◌>>=◌}
use rescue.Store.Offers.{
  AcceptOfferResult, accept_offer, create_offers, decline_offer, fallback_assignment,
  list_offers_for_job,
}
use rescue.Store.Quotes.{list_quotes_for_job}
use rescue.Store.Types.{Job, MemoryStore, StoredOffer}

pub record OffersInput : Type 0 where
  pub payout_net_cents : ℕ
  pub expires_in_minutes : ℕ
  pub max_providers : ℕ

-- The JSON text of the offers, with the number of carriers considered.
abbrev pub OffersView : Type 0
OffersView = List StoredOffer → ℕ → String

-- `GET /jobs/:id/eligible-providers`
unfoldable pub get_eligible : Maps → ℕ → Option AuthContext → ℕ → Action (List EligibilityResult)
get_eligible maps now caller id = of_result (require_role dispatch_roles caller) >>= λ auth.
    require_job id auth.scope >>= λ job s. pure (rank_for_job s job now maps) s

-- What a job must be for an offer: quoted, at a price that the customer has agreed to.
unfoldable pub check_offerable : AuthContext → Job → Action (Unit {0})
check_offerable auth job s =
    if not (job.status === JobStatus.quoted)
    then raise (AppError.invalid_state "Offers can only be made for a quoted job") s
    else (list_quotes_for_job job.id auth.scope >>= λ quotes t.
          if any is_approved quotes
          then pure tt t
          else raise
              (AppError.invalid_state
                "The customer must approve a quote before providers are offered the job")
              t)
        s

-- The eligible carriers that are asked, best-ranked first.
unfoldable pub chosen : Maps → ℕ → Job → ℕ → MemoryStore → List EligibilityResult
chosen maps now job max_providers s =
    take max_providers (select (λ c. c.eligible) (rank_for_job s job now maps))

-- The work of `POST /jobs/:id/offers`.
unfoldable pub offering :
    OffersView → ℕ → ℕ → AuthContext → Job → List EligibilityResult → OffersInput → Work
offering view considered now auth job eligible input =
    create_offers now job.id (map (λ c. c.provider_id) eligible) input.payout_net_cents
      (now + input.expires_in_minutes * 60_000) auth.actor
    >>= λ offers. pure (record { status_code = 201; body = view offers considered })

-- The end of `POST /jobs/:id/offers`, on the ranking as it is then.
unfoldable pub offer_chosen :
    Maps
    → OffersView
    → Runner
    → ℕ
    → ℕ
    → AuthContext
    → KeyedRequest
    → Job
    → OffersInput
    → Action Reply
offer_chosen maps view runner now later auth request job input s =
    let eligible = chosen maps now job input.max_providers s in
    if length eligible == 0
    then raise AppError.no_eligible_provider s
    else run_once (record runner { organization_id = job.organization_id }) request
        (offering view (length (rank_for_job s job now maps)) now auth job eligible input) now later
        s

-- `POST /jobs/:id/offers`
unfoldable pub post_offers :
    Maps
    → OffersView
    → Runner
    → ℕ
    → ℕ
    → Option AuthContext
    → KeyedRequest
    → ℕ
    → OffersInput
    → Action Reply
post_offers maps view runner now later caller request id input =
    of_result (require_role dispatch_roles caller) >>= λ auth. require_job id auth.scope >>= λ job.
    check_offerable auth job >>= λ _. offer_chosen maps view runner now later auth request job input

-- `GET /jobs/:id/offers`
unfoldable pub get_job_offers : Option AuthContext → ℕ → Action (List StoredOffer)
get_job_offers caller id = of_result (require_role dispatch_roles caller) >>= λ auth.
    require_job id auth.scope >>= λ job s. pure (list_offers_for_job id s) s

pub data OfferDecision : Type 0 where
  accept decline : OfferDecision

-- What an answer to an offer returns.
pub data Answered : Type 0 where
  declined : StoredOffer → Answered
  won : AcceptOfferResult → Answered

-- `POST /offers/:offerId/response`
unfoldable pub post_response :
    ℕ → Option AuthContext → ℕ → OfferDecision → Option String → Action Answered
post_response now caller offer_id OfferDecision.decline reason =
    of_result (require_provider caller) >>= λ owner.
    decline_offer now offer_id owner.1 reason owner.0.actor >>= λ offer.
    pure (Answered.declined offer)
post_response now caller offer_id OfferDecision.accept reason =
    of_result (require_provider caller) >>= λ owner.
    accept_offer offer_id owner.1 now owner.0.actor >>= λ result. pure (Answered.won result)

abbrev pub fallback_roles : List UserRole
fallback_roles = UserRole.provider_admin ∷ UserRole.dispatcher ∷ UserRole.admin ∷ []

-- `POST /jobs/:id/fallback`
unfoldable pub post_fallback : ℕ → Option AuthContext → ℕ → String → Action Job
post_fallback now caller id reason = require_holder fallback_roles caller id >>= λ auth.
    fallback_assignment now id (some reason) auth.actor

-- `POST /offers/expire`
unfoldable pub post_expire : SweepConfig → Maps → (ℕ → ℕ) → Option AuthContext → Action SweepResult
post_expire config maps clock caller =
    of_result (require_role (UserRole.admin ∷ []) caller) >>= λ auth.
    run_sweep config maps clock auth.actor
