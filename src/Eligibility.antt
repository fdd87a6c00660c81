-- ===== src/Eligibility.antt =====
-- apps/api/src/lib/eligibility.ts: which providers may do a job, and in what order. Weights are
-- grams, volumes cubic centimetres, distances whole kilometres, exact where the source computes
-- with floats; the demand's volume is rounded up to hundredths of a cubic metre as there.
pub mod Vehicle
pub mod Gate
pub mod Ranking
mod Tests
use Prim.Native.Char.{code}
use text.Mathlib.Text.{◌==◌ as str_eq}
use rescue.Contracts.Job.{Item, JobType, job_type_coded, VehicleClass}
use rescue.Contracts.Provider.{
  DocumentStatus, DocumentType, EligibilityResult, IneligibilityReason, ProviderStatus,
  provider_status_coded, document_status_coded, document_type_coded, required_document_types,
}
use rescue.Prelude.{
  Bool, List, Option, String, [], any, if◌then◌else◌, is_some, leb, length, ltb, none, not, or_else,
  select, some, suc, true, zero, ℕ, ◌&&◌, ◌*◌, ◌++◌, ◌+◌, ◌-◌, ◌/◌, ◌===◌, ◌==◌, ◌∷◌,
}
use rescue.Prelude.Sort.{sort}

-- `vehicleClassRank`, the index in `VEHICLE_CLASS_ORDER`
abbrev pub vehicle_class_rank : VehicleClass → ℕ
vehicle_class_rank VehicleClass.cargo_bike = 0
vehicle_class_rank VehicleClass.small_van = 1
vehicle_class_rank VehicleClass.large_van = 2
vehicle_class_rank VehicleClass.box_van = 3
vehicle_class_rank VehicleClass.truck = 4

pub record EligibilityVehicle : Type 0 where
  pub id : ℕ
  pub vehicle_class : VehicleClass
  pub payload_kg : ℕ
  pub volume_cm3 : ℕ
  pub active : Bool

pub record EligibilityDocument : Type 0 where
  pub type : DocumentType
  pub status : DocumentStatus
  pub expires_at : Option ℕ

pub record EligibilityProvider : Type 0 where
  pub id : ℕ
  pub status : ProviderStatus
  pub accepting_work : Bool
  pub road_distance_km : Option ℕ
  pub base_postal_code : String
  pub service_radius_km : ℕ
  pub service_types : List JobType
  pub vehicles : List EligibilityVehicle
  pub documents : List EligibilityDocument

pub record EligibilityDemand : Type 0 where
  pub job_type : JobType
  pub pickup_postal_code : String
  pub required_vehicle_class : VehicleClass
  pub total_weight_kg : ℕ
  pub total_volume_cm3 : ℕ

-- The code points of a text.
abbrev pub codes : String → List ℕ
codes String.[] = []
codes (String.◌∷◌ c s) = code c ∷ codes s

-- The loop that counts the equal leading characters, for so many rounds. Past the end of a text
-- the source reads `undefined`, which equals itself.
unfoldable pub shared : ℕ → List ℕ → List ℕ → ℕ
shared zero xs ys = 0
shared (suc n) [] [] = suc (shared n [] [])
shared (suc n) [] (y ∷ ys) = 0
shared (suc n) (x ∷ xs) [] = 0
shared (suc n) (x ∷ xs) (y ∷ ys) = let rest = shared n xs ys in if x == y then suc rest else 0

-- The `switch` on the number of shared characters.
unfoldable pub distance_for : ℕ → ℕ
distance_for n =
    if n == 4 then 3 else if n == 3 then 10 else if n == 2 then 40 else if n == 1 then 120 else 400

unfoldable pub estimate_distance_km : String → String → ℕ
unfolding shared distance_for
estimate_distance_km from to =
    if str_eq from to then 0 else distance_for (shared 5 (codes from) (codes to))

-- A document with no expiry is treated as valid.
abbrev pub is_unexpired : ℕ → EligibilityDocument → Bool
is_unexpired now d = elim d.expires_at [ none ↦ true | some t ↦ ltb now t ]

-- One round of the loop of `documentProblems`.
unfoldable pub problem_with : List EligibilityDocument → ℕ → DocumentType → List IneligibilityReason
problem_with documents now required =
    let held = select (λ d. d.type === required) documents in
    let verified = select (λ d. d.status === DocumentStatus.verified) held in
    if length held == 0
    then IneligibilityReason.missing_required_document ∷ []
    else if length verified == 0
    then IneligibilityReason.document_not_verified ∷ []
    else if length (select (is_unexpired now) verified) == 0
    then IneligibilityReason.document_expired ∷ []
    else []

problems_with : List EligibilityDocument → ℕ → List DocumentType → List IneligibilityReason
problems_with documents now [] = []
problems_with documents now (required ∷ rest) =
    problem_with documents now required ++ problems_with documents now rest

unfoldable pub document_problems : List EligibilityDocument → ℕ → List IneligibilityReason
unfolding problem_with problems_with
document_problems documents now = problems_with documents now required_document_types

abbrev pub is_suitable : EligibilityDemand → EligibilityVehicle → Bool
is_suitable demand v =
    v.active
    && (leb (vehicle_class_rank demand.required_vehicle_class) (vehicle_class_rank v.vehicle_class)
        && (leb demand.total_weight_kg v.payload_kg && leb demand.total_volume_cm3 v.volume_cm3))

-- The comparator of `selectVehicle`: by class, then payload, then id.
abbrev pub smaller_vehicle : EligibilityVehicle → EligibilityVehicle → Bool
smaller_vehicle a b =
    let i = vehicle_class_rank a.vehicle_class in
    let j = vehicle_class_rank b.vehicle_class in
    if not (i == j)
    then ltb i j
    else if not (a.payload_kg == b.payload_kg)
    then ltb a.payload_kg b.payload_kg
    else ltb a.id b.id

abbrev pub first : List EligibilityVehicle → Option EligibilityVehicle
first [] = none
first (v ∷ _) = some v

unfoldable pub select_vehicle :
    List EligibilityVehicle → EligibilityDemand → Option EligibilityVehicle
unfolding sort
select_vehicle vehicles demand = first (sort smaller_vehicle (select (is_suitable demand) vehicles))

abbrev pub reason_if : Bool → IneligibilityReason → List IneligibilityReason
reason_if b r = if b then r ∷ [] else []

abbrev pub distance_of : EligibilityProvider → EligibilityDemand → ℕ
distance_of p demand =
    or_else p.road_distance_km (estimate_distance_km p.base_postal_code demand.pickup_postal_code)

-- The reasons, in the order in which the source pushes them.
unfoldable pub reasons_against :
    EligibilityProvider → EligibilityDemand → ℕ → List IneligibilityReason
reasons_against p demand now =
    reason_if (not (p.status === ProviderStatus.active)) IneligibilityReason.provider_not_active
    ++ (reason_if (not p.accepting_work) IneligibilityReason.provider_not_accepting_work
        ++ (reason_if (not (any (λ t. t === demand.job_type) p.service_types))
              IneligibilityReason.service_type_not_permitted
            ++ (reason_if (ltb p.service_radius_km (distance_of p demand))
                  IneligibilityReason.outside_service_radius
                ++ (document_problems p.documents now
                    ++ reason_if (not (is_some (select_vehicle p.vehicles demand)))
                        IneligibilityReason.no_suitable_vehicle))))

unfoldable pub evaluate_provider_eligibility :
    EligibilityProvider → EligibilityDemand → ℕ → EligibilityResult
unfolding reasons_against
evaluate_provider_eligibility p demand now = record {
  provider_id = p.id;
  eligible = length (reasons_against p demand now) == 0;
  reasons = reasons_against p demand now;
  rank = none;
  distance_km = distance_of p demand;
  distance_is_road = is_some p.road_distance_km;
}

pub record Evaluated : Type 0 where
  pub provider : EligibilityProvider
  pub result : EligibilityResult

unfoldable pub evaluate_all : List EligibilityProvider → EligibilityDemand → ℕ → List Evaluated
evaluate_all [] demand now = []
evaluate_all (p ∷ rest) demand now =
    record { provider = p; result = evaluate_provider_eligibility p demand now }
    ∷ evaluate_all rest demand now

-- The class of the vehicle that would be used. An eligible provider has one; the source reads it
-- with no check.
abbrev pub chosen_rank : EligibilityDemand → EligibilityProvider → ℕ
chosen_rank demand p = elim (select_vehicle p.vehicles demand) [
  | none ↦ 0
  | some v ↦ vehicle_class_rank v.vehicle_class
]

-- The comparator of `rankProviders`: by distance, then vehicle class, then id.
abbrev pub ranked_before : EligibilityDemand → Evaluated → Evaluated → Bool
ranked_before demand a b =
    if not (a.result.distance_km == b.result.distance_km)
    then ltb a.result.distance_km b.result.distance_km
    else if not (chosen_rank demand a.provider == chosen_rank demand b.provider)
    then ltb (chosen_rank demand a.provider) (chosen_rank demand b.provider)
    else ltb a.provider.id b.provider.id

-- `.map((entry, index) => ({ ...entry.result, rank: index + 1 }))`, from an index on.
unfoldable pub number_from : ℕ → List Evaluated → List EligibilityResult
number_from index [] = []
number_from index (e ∷ rest) =
    record e.result { rank = some (index + 1) } ∷ number_from (index + 1) rest

abbrev pub results_of : List Evaluated → List EligibilityResult
results_of [] = []
results_of (e ∷ rest) = e.result ∷ results_of rest

unfoldable pub rank_providers :
    List EligibilityProvider → EligibilityDemand → ℕ → List EligibilityResult
unfolding evaluate_all number_from sort
rank_providers providers demand now =
    let evaluated = evaluate_all providers demand now in
    number_from 0 (sort (ranked_before demand) (select (λ e. e.result.eligible) evaluated))
    ++ sort (λ a b. ltb a.provider_id b.provider_id)
        (results_of (select (λ e. not e.result.eligible) evaluated))

-- The sums of `demandFromItems`, in grams and cubic centimetres.
abbrev pub item_weight_g : Item → ℕ
item_weight_g item = or_else item.estimated_weight_g 50_000 * item.quantity

abbrev pub item_volume_cm3 : Item → ℕ
item_volume_cm3 item = elim item.dimensions_cm [
  | none ↦ 500_000 * item.quantity
  | some d ↦ d.length * d.width * d.height * item.quantity
]

unfoldable pub total : (Item → ℕ) → List Item → ℕ
total f [] = 0
total f (item ∷ rest) = f item + total f rest

-- `Math.ceil` of a quotient
abbrev pub ceil_div : ℕ → ℕ → ℕ
ceil_div a b = (a + (b - 1)) / b

pub record Demand : Type 0 where
  pub total_weight_kg : ℕ
  pub total_volume_cm3 : ℕ

unfoldable pub demand_from_items : List Item → Demand
unfolding total
demand_from_items items = record {
  total_weight_kg = ceil_div (total item_weight_g items) 1_000;
  total_volume_cm3 = ceil_div (total item_volume_cm3 items) 10_000 * 10_000;
}
