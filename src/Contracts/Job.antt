-- ===== src/Contracts/Job.antt =====
-- packages/contracts/src/job.ts: job statuses and their transitions, and what a job asks for.
-- Weights are grams and lengths centimetres, as whole numbers, where the source has numbers with
-- a fraction.
pub mod History
use rescue.Prelude.{ℕ, ◌≡◌, Bool, List, [], ◌∷◌, Option, String, Coded, ◌===◌, any, arith}

pub data JobType : Type 0 where
  failed_delivery bulky_return company_surplus : JobType

abbrev pub job_type_code : JobType → ℕ
job_type_code JobType.failed_delivery = 0
job_type_code JobType.bulky_return = 1
job_type_code JobType.company_surplus = 2

pub job_type_code-injective : (a b : JobType) → job_type_code a ≡ job_type_code b → a ≡ b
job_type_code-injective a b h = ground arith

instance abbrev pub job_type_coded : Coded JobType
job_type_coded = record { code = job_type_code; code-injective = job_type_code-injective }

pub data JobStatus : Type 0 where
  draft triaged quoted assigned in_progress completed cancelled : JobStatus

abbrev pub job_status_code : JobStatus → ℕ
job_status_code JobStatus.draft = 0
job_status_code JobStatus.triaged = 1
job_status_code JobStatus.quoted = 2
job_status_code JobStatus.assigned = 3
job_status_code JobStatus.in_progress = 4
job_status_code JobStatus.completed = 5
job_status_code JobStatus.cancelled = 6

pub job_status_code-injective : (a b : JobStatus) → job_status_code a ≡ job_status_code b → a ≡ b
job_status_code-injective a b h = ground arith

instance abbrev pub job_status_coded : Coded JobStatus
job_status_coded = record { code = job_status_code; code-injective = job_status_code-injective }

pub data Urgency : Type 0 where
  scheduled same_day urgent : Urgency

pub data VehicleClass : Type 0 where
  cargo_bike small_van large_van box_van truck : VehicleClass

abbrev pub vehicle_class_code : VehicleClass → ℕ
vehicle_class_code VehicleClass.cargo_bike = 0
vehicle_class_code VehicleClass.small_van = 1
vehicle_class_code VehicleClass.large_van = 2
vehicle_class_code VehicleClass.box_van = 3
vehicle_class_code VehicleClass.truck = 4

pub vehicle_class_code-injective :
    (a b : VehicleClass) → vehicle_class_code a ≡ vehicle_class_code b → a ≡ b
vehicle_class_code-injective a b h = ground arith

instance abbrev pub vehicle_class_coded : Coded VehicleClass
vehicle_class_coded = record {
  code = vehicle_class_code;
  code-injective = vehicle_class_code-injective;
}

pub data CircularRoute : Type 0 where
  deliver return store repair reuse donate recycle disposal manual_review : CircularRoute

abbrev pub circular_route_code : CircularRoute → ℕ
circular_route_code CircularRoute.deliver = 0
circular_route_code CircularRoute.return = 1
circular_route_code CircularRoute.store = 2
circular_route_code CircularRoute.repair = 3
circular_route_code CircularRoute.reuse = 4
circular_route_code CircularRoute.donate = 5
circular_route_code CircularRoute.recycle = 6
circular_route_code CircularRoute.disposal = 7
circular_route_code CircularRoute.manual_review = 8

pub circular_route_code-injective :
    (a b : CircularRoute) → circular_route_code a ≡ circular_route_code b → a ≡ b
circular_route_code-injective a b h = ground arith

instance abbrev pub circular_route_coded : Coded CircularRoute
circular_route_coded = record {
  code = circular_route_code;
  code-injective = circular_route_code-injective;
}

pub record Dimensions : Type 0 where
  pub length : ℕ
  pub width : ℕ
  pub height : ℕ

pub record Item : Type 0 where
  pub name : String
  pub quantity : ℕ
  pub estimated_weight_g : Option ℕ
  pub dimensions_cm : Option Dimensions

pub record Address : Type 0 where
  pub line1 : String
  pub postal_code : String
  pub city : String

pub record CreateJobInput : Type 0 where
  pub type : JobType
  pub urgency : Urgency
  pub pickup : Address
  pub destination : Option Address
  pub items : List Item
  pub stairs : ℕ
  pub lift_available : Bool
  pub customer_reference : Option String
  pub notes : Option String

-- `JOB_TRANSITIONS`
abbrev pub job_transitions : JobStatus → List JobStatus
job_transitions JobStatus.draft = JobStatus.triaged ∷ JobStatus.cancelled ∷ []
job_transitions JobStatus.triaged = JobStatus.quoted ∷ JobStatus.cancelled ∷ []
job_transitions JobStatus.quoted = JobStatus.assigned ∷ JobStatus.cancelled ∷ []
job_transitions JobStatus.assigned =
    JobStatus.in_progress ∷ JobStatus.quoted ∷ JobStatus.cancelled ∷ []
job_transitions JobStatus.in_progress = JobStatus.completed ∷ JobStatus.quoted ∷ []
job_transitions JobStatus.completed = []
job_transitions JobStatus.cancelled = []

-- `canTransition`
unfoldable pub can_transition : JobStatus → JobStatus → Bool
can_transition from to = any (λ s. s === to) (job_transitions from)
