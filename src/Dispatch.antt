-- ===== src/Dispatch.antt =====
-- apps/api/src/lib/dispatch.ts: the sweep that expires offers and re-offers the jobs they leave
-- uncovered. The maps provider is a parameter. A clock is the sequence of its readings; the wall
-- clock that the store reads is taken to agree with it.
pub mod Sweep
pub mod Rounds
pub mod Tests
use rescue.Contracts.Commerce.{OfferStatus, QuoteStatus}
use rescue.Contracts.Job.{JobStatus, VehicleClass}
use rescue.Contracts.Provider.{EligibilityResult}
use rescue.Eligibility.{
  EligibilityDocument, EligibilityProvider, EligibilityVehicle, ceil_div, demand_from_items,
  rank_providers,
}
use rescue.Outbox.{EscalationReason, EventType, Key, Payload, Value}
use rescue.Prelude.{
  Bool, List, Option, String, [], any, find, get_last?, if◌then◌else◌, leb, length, map, none, not,
  select, some, suc, take, ◌&&◌, ◌*◌, ◌++◌, ◌+◌, ◌-◌, ◌/◌, ◌===◌, ◌==◌, ◌∷◌,
}
use rescue.Store.Action.{Action, err, ok, pure, raise}
use rescue.Store.Jobs.{find_job, record_job_event}
use rescue.Store.Offers.{
  create_offers, distinct, expire_offers, find_active_assignment, list_offers_for_job,
}
use rescue.Store.Providers.{list_documents, list_providers, list_vehicles}
use rescue.Store.Quotes.{list_quotes_for_job}
use rescue.Store.Types.{
  Actor, Job, MemoryStore, Scope, StoredDocument, StoredOffer, StoredProvider, StoredQuote,
  StoredVehicle,
}
use rescue.Contracts.Commerce.{quote_status_coded, offer_status_coded}
use rescue.Contracts.Job.{job_status_coded}
use text.Mathlib.Text.{◌==◌ as str_eq}
use rescue.Prelude.{ℕ}

pub record RouteEstimate : Type 0 where
  pub distance_km : ℕ
  pub is_road_distance : Bool

-- The maps provider, if one is configured: the route between two postal codes.
abbrev pub Maps : Type 0
Maps = Option (String → String → RouteEstimate)

-- Only a measured distance is recorded, and only for a pickup with a postal code.
abbrev pub road_distance : Maps → String → String → Option ℕ
road_distance none from pickup = none
road_distance (some route) from pickup =
    let estimate = route from pickup in
    if str_eq pickup ""
    then none
    else if estimate.is_road_distance
    then some estimate.distance_km
    else none

abbrev pub eligibility_vehicle : StoredVehicle → EligibilityVehicle
eligibility_vehicle v = record {
  id = v.id;
  vehicle_class = v.vehicle_class;
  payload_kg = v.payload_kg;
  volume_cm3 = v.volume_cm3;
  active = v.active;
}

abbrev pub eligibility_document : StoredDocument → EligibilityDocument
eligibility_document d = record { type = d.type; status = d.status; expires_at = d.expires_at }

abbrev pub eligibility_provider : Maps → String → MemoryStore → StoredProvider → EligibilityProvider
eligibility_provider maps pickup s p = record {
  id = p.id;
  status = p.status;
  accepting_work = p.accepting_work;
  road_distance_km = road_distance maps p.base_postal_code pickup;
  base_postal_code = p.base_postal_code;
  service_radius_km = p.service_radius_km;
  service_types = p.service_types;
  vehicles = map eligibility_vehicle (list_vehicles p.id s);
  documents = map eligibility_document (list_documents p.id s);
}

unfoldable pub load_eligibility_providers : Maps → String → MemoryStore → List EligibilityProvider
load_eligibility_providers maps pickup s =
    map (eligibility_provider maps pickup s) (list_providers none s)

unfoldable pub rank_for_job : MemoryStore → Job → ℕ → Maps → List EligibilityResult
rank_for_job s job now maps =
    let demand = demand_from_items job.input.items in
    rank_providers (load_eligibility_providers maps job.input.pickup.postal_code s)
      (record {
        job_type = job.input.type;
        pickup_postal_code = job.input.pickup.postal_code;
        required_vehicle_class = VehicleClass.small_van;
        total_weight_kg = demand.total_weight_kg;
        total_volume_cm3 = demand.total_volume_cm3;
      })
      now

-- A round is offered to at least one provider.
pub record SweepConfig : Type 0 where
  pub providers_per_round : ℕ
  pub offer_ttl_minutes : ℕ
  pub max_rounds : ℕ

abbrev pub default_sweep_config : SweepConfig
default_sweep_config = record { providers_per_round = 3; offer_ttl_minutes = 20; max_rounds = 3 }

pub data Outcome : Type 0 where
  skipped reoffered : Outcome
  escalated : EscalationReason → Outcome

-- `automaticRoundsSoFar`
abbrev pub automatic_rounds_so_far : SweepConfig → ℕ → ℕ
automatic_rounds_so_far config offer_count = ceil_div offer_count config.providers_per_round - 1

unfoldable pub escalate : ℕ → ℕ → EscalationReason → Actor → Payload → Action Outcome
unfolding record_job_event
escalate now job_id reason actor payload s =
    let (logged, s') =
      record_job_event now job_id EventType.dispatch_escalated
        (payload ++ (Key.reason, Value.escalation reason) ∷ []) actor s in
    elim logged [ ok _ ↦ pure (Outcome.escalated reason) s' | err e ↦ raise e s' ]

abbrev pub asked_providers : List StoredOffer → List ℕ
asked_providers offers = map (λ o. o.provider_id) offers

unfoldable pub next_round : SweepConfig → List ℕ → List EligibilityResult → List EligibilityResult
next_round config asked ranked =
    take config.providers_per_round
      (select (λ c. c.eligible && not (any (λ id. id == c.provider_id) asked)) ranked)

-- The payout of the last offer, or 72 per cent of the price: no price is half a cent off.
abbrev pub carried_payout : List StoredOffer → StoredQuote → ℕ
carried_payout offers approved = elim (get_last? offers) [
  | some o ↦ o.payout_net_cents
  | none ↦ (approved.net_cents * 72 + 50) / 100
]

-- The end of `cover`, for a job that is dispatchable and uncovered.
unfoldable pub reoffer :
    SweepConfig → Maps → ℕ → ℕ → Job → List StoredOffer → StoredQuote → Actor → Action Outcome
reoffer config maps now job_id job offers approved actor s =
    let asked = asked_providers offers in
    let rounds = automatic_rounds_so_far config (length offers) in
    let next = next_round config asked (rank_for_job s job now maps) in
    if leb config.max_rounds rounds
    then escalate now job_id EscalationReason.max_rounds_reached actor
        ((Key.rounds, Value.number rounds) ∷ []) s
    else if length next == 0
    then escalate now job_id EscalationReason.no_eligible_provider_left actor
        ((Key.already_asked, Value.number (length (distinct [] asked))) ∷ []) s
    else let (_, s') =
        create_offers now job_id (map (λ c. c.provider_id) next) (carried_payout offers approved)
          (now + config.offer_ttl_minutes * 60_000) actor s in
      pure Outcome.reoffered s'

abbrev pub is_approved : StoredQuote → Bool
is_approved q = q.status === QuoteStatus.approved

abbrev pub is_pending : StoredOffer → Bool
is_pending o = o.status === OfferStatus.pending

-- The last guards of `cover`, on the quotes and the offers of the job.
unfoldable pub cover_unassigned : SweepConfig → Maps → ℕ → ℕ → Job → Actor → Action Outcome
cover_unassigned config maps now job_id job actor s =
    let offers = list_offers_for_job job_id s in
    if any is_pending offers
    then pure Outcome.skipped s
    else elim (list_quotes_for_job job_id Scope.staff s).0 [
      | err e ↦ raise e s
      | ok quotes ↦ elim (find is_approved quotes) [
        | none ↦ pure Outcome.skipped s
        | some approved ↦ reoffer config maps now job_id job offers approved actor s
      ]
    ]

unfoldable pub cover : SweepConfig → Maps → ℕ → ℕ → Actor → Action Outcome
cover config maps now job_id actor s = elim (find_job job_id Scope.staff s) [
  | none ↦ pure Outcome.skipped s
  | some job ↦
      if not (job.status === JobStatus.quoted)
      then pure Outcome.skipped s
      else elim (find_active_assignment job_id s) [
        | some _ ↦ pure Outcome.skipped s
        | none ↦ cover_unassigned config maps now job_id job actor s
      ]
]

pub record SweepResult : Type 0 where
  pub expired : ℕ
  pub reoffered : List ℕ
  pub escalated : List (ℕ × EscalationReason)

abbrev pub add_outcome : ℕ → Outcome → SweepResult → SweepResult
add_outcome job_id Outcome.skipped r = r
add_outcome job_id Outcome.reoffered r = record r { reoffered = r.reoffered ++ job_id ∷ [] }
add_outcome job_id (Outcome.escalated reason) r = record r {
  escalated = r.escalated ++ (job_id, reason) ∷ [];
}

-- The loop of `run`. The clock is read anew for each job.
unfoldable pub cover_each :
    SweepConfig → Maps → (ℕ → ℕ) → List ℕ → Actor → SweepResult → Action SweepResult
cover_each config maps clock [] actor result s = pure result s
cover_each config maps clock (job_id ∷ rest) actor result s =
    let (outcome, s') = cover config maps (clock 0) job_id actor s in
    elim outcome [
      | err e ↦ raise e s'
      | ok o ↦
          cover_each config maps (λ n. clock (suc n)) rest actor (add_outcome job_id o result) s'
    ]

unfoldable pub run_sweep : SweepConfig → Maps → (ℕ → ℕ) → Actor → Action SweepResult
run_sweep config maps clock actor s =
    let (swept, s') = expire_offers (clock 0) actor s in
    cover_each config maps (λ n. clock (suc n)) swept.job_ids actor
      (record { expired = swept.expired; reoffered = []; escalated = [] }) s'
