-- ===== src/Outbox.antt =====
-- apps/api/src/lib/outbox.ts: which job events leave the system, and under which key.
-- A payload is a list of fields, and its values keep the type that `take` tests. A key is the list
-- of the parts that the source joins by `|`.
pub mod Keys
use text.Mathlib.Text.{◌==◌ as str_eq}
use rescue.Prelude.{
  ℕ, ◌≡◌, Bool, true, false, List, [], ◌∷◌, ◌++◌, Option, none, some, String, Coded, ◌===◌, ◌==◌,
  ◌&&◌, arith, if◌then◌else◌,
}
use rescue.Contracts.Job.{
  CircularRoute, JobStatus, JobType, VehicleClass, circular_route_coded, job_status_coded,
  job_type_coded, vehicle_class_coded,
}
use rescue.Contracts.Commerce.{EvidenceKind, evidence_kind_coded}
use rescue.Contracts.Ops.{OutboxTopic, outbox_topic_coded}

-- The types of the events that the source records.
pub data EventType : Type 0 where
  job_created triage_approved job_quoted quote_sent quote_approved quote_rejected : EventType
  offers_sent offer_accepted offer_declined offer_expired assignment_fell_through : EventType
  work_started job_completed job_cancelled dispatch_escalated evidence_uploaded : EventType

pub data Key : Type 0 where
  type from to offer_id provider_id assignment_id quote_id evidence_id reason round : Key
  rounds already_asked provider_count payout_net_cents gross_cents kind evidence_count : Key
  event_type vehicle_class workers circular_route dispatcher_notes : Key

abbrev pub key_code : Key → ℕ
key_code Key.type = 0
key_code Key.from = 1
key_code Key.to = 2
key_code Key.offer_id = 3
key_code Key.provider_id = 4
key_code Key.assignment_id = 5
key_code Key.quote_id = 6
key_code Key.evidence_id = 7
key_code Key.reason = 8
key_code Key.round = 9
key_code Key.rounds = 10
key_code Key.already_asked = 11
key_code Key.provider_count = 12
key_code Key.payout_net_cents = 13
key_code Key.gross_cents = 14
key_code Key.kind = 15
key_code Key.evidence_count = 16
key_code Key.event_type = 17
key_code Key.vehicle_class = 18
key_code Key.workers = 19
key_code Key.circular_route = 20
key_code Key.dispatcher_notes = 21

pub key_code-injective : (a b : Key) → key_code a ≡ key_code b → a ≡ b
key_code-injective a b h = ground arith

instance abbrev pub key_coded : Coded Key
key_coded = record { code = key_code; code-injective = key_code-injective }

-- Why automatic dispatch gives up; `reason` of a `DISPATCH_ESCALATED` event.
pub data EscalationReason : Type 0 where
  max_rounds_reached no_eligible_provider_left : EscalationReason

abbrev pub event_type_code : EventType → ℕ
event_type_code EventType.job_created = 0
event_type_code EventType.triage_approved = 1
event_type_code EventType.job_quoted = 2
event_type_code EventType.quote_sent = 3
event_type_code EventType.quote_approved = 4
event_type_code EventType.quote_rejected = 5
event_type_code EventType.offers_sent = 6
event_type_code EventType.offer_accepted = 7
event_type_code EventType.offer_declined = 8
event_type_code EventType.offer_expired = 9
event_type_code EventType.assignment_fell_through = 10
event_type_code EventType.work_started = 11
event_type_code EventType.job_completed = 12
event_type_code EventType.job_cancelled = 13
event_type_code EventType.dispatch_escalated = 14
event_type_code EventType.evidence_uploaded = 15

pub event_type_code-injective : (a b : EventType) → event_type_code a ≡ event_type_code b → a ≡ b
event_type_code-injective a b h = ground arith

instance abbrev pub event_type_coded : Coded EventType
event_type_coded = record { code = event_type_code; code-injective = event_type_code-injective }

abbrev pub escalation_reason_code : EscalationReason → ℕ
escalation_reason_code EscalationReason.max_rounds_reached = 0
escalation_reason_code EscalationReason.no_eligible_provider_left = 1

pub escalation_reason_code-injective :
    (a b : EscalationReason) → escalation_reason_code a ≡ escalation_reason_code b → a ≡ b
escalation_reason_code-injective a b h = ground arith

instance abbrev pub escalation_reason_coded : Coded EscalationReason
escalation_reason_coded = record {
  code = escalation_reason_code;
  code-injective = escalation_reason_code-injective;
}

-- A string or a number of a payload, or something else, which `take` passes over.
pub data Value : Type 0 where
  id number : ℕ → Value
  words : String → Value
  job_type : JobType → Value
  status : JobStatus → Value
  escalation : EscalationReason → Value
  event : EventType → Value
  vehicle : VehicleClass → Value
  route : CircularRoute → Value
  evidence : EvidenceKind → Value
  undefined : Value

abbrev pub Payload : Type 0
Payload = List (Key × Value)

-- A text that may be absent.
abbrev pub optional_words : Option String → Value
optional_words none = Value.undefined
optional_words (some t) = Value.words t

-- `TOPIC_BY_EVENT`
unfoldable pub topic_by_event : EventType → Option OutboxTopic
topic_by_event EventType.job_created = some OutboxTopic.job_created
topic_by_event EventType.triage_approved = some OutboxTopic.job_triaged
topic_by_event EventType.job_quoted = some OutboxTopic.job_quoted
topic_by_event EventType.quote_sent = none
topic_by_event EventType.quote_approved = some OutboxTopic.quote_decided
topic_by_event EventType.quote_rejected = some OutboxTopic.quote_decided
topic_by_event EventType.offers_sent = some OutboxTopic.offers_sent
topic_by_event EventType.offer_accepted = some OutboxTopic.offer_accepted
topic_by_event EventType.offer_declined = some OutboxTopic.offer_declined
topic_by_event EventType.offer_expired = some OutboxTopic.offer_expired
topic_by_event EventType.assignment_fell_through = some OutboxTopic.assignment_fell_through
topic_by_event EventType.work_started = some OutboxTopic.job_started
topic_by_event EventType.job_completed = some OutboxTopic.job_completed
topic_by_event EventType.job_cancelled = some OutboxTopic.job_cancelled
topic_by_event EventType.dispatch_escalated = some OutboxTopic.dispatch_escalated
topic_by_event EventType.evidence_uploaded = none

-- The text `topic|jobId|part|...` as its parts.
pub record DedupeKey : Type 0 where
  pub topic : OutboxTopic
  pub job_id : ℕ
  pub discriminator : List Value

-- `dedupeKeyFor`, for a key of at most 180 characters.
unfoldable pub dedupe_key_for : OutboxTopic → ℕ → List Value → DedupeKey
dedupe_key_for topic job_id discriminator = record {
  topic = topic;
  job_id = job_id;
  discriminator = discriminator;
}

abbrev pub field : Payload → Key → Option Value
field [] key = none
field ((k, v) ∷ payload) key = if k === key then some v else field payload key

abbrev value_parts : Option Value → List Value
value_parts none = []
value_parts (some Value.undefined) = []
value_parts (some (Value.id n)) = Value.id n ∷ []
value_parts (some (Value.number n)) = Value.number n ∷ []
value_parts (some (Value.words t)) = Value.words t ∷ []
value_parts (some (Value.job_type t)) = Value.job_type t ∷ []
value_parts (some (Value.status s)) = Value.status s ∷ []
value_parts (some (Value.escalation r)) = Value.escalation r ∷ []
value_parts (some (Value.event e)) = Value.event e ∷ []
value_parts (some (Value.vehicle c)) = Value.vehicle c ∷ []
value_parts (some (Value.route r)) = Value.route r ∷ []
value_parts (some (Value.evidence k)) = Value.evidence k ∷ []

-- The local function `take` of `discriminatorFor`.
unfoldable pub take_part : Payload → Key → List Value
take_part payload key = value_parts (field payload key)

unfoldable pub discriminator_for : EventType → Payload → List Value
unfolding take_part
discriminator_for EventType.offers_sent payload = take_part payload Key.round
discriminator_for EventType.offer_accepted payload = take_part payload Key.offer_id
discriminator_for EventType.offer_declined payload = take_part payload Key.offer_id
discriminator_for EventType.offer_expired payload = take_part payload Key.offer_id
discriminator_for EventType.quote_approved payload = take_part payload Key.quote_id
discriminator_for EventType.quote_rejected payload = take_part payload Key.quote_id
discriminator_for EventType.assignment_fell_through payload = take_part payload Key.assignment_id
discriminator_for EventType.dispatch_escalated payload = take_part payload Key.reason
discriminator_for _ payload = []

unfoldable pub value_eq : Value → Value → Bool
value_eq (Value.id a) (Value.id b) = a == b
value_eq (Value.number a) (Value.number b) = a == b
value_eq (Value.words a) (Value.words b) = str_eq a b
value_eq (Value.job_type a) (Value.job_type b) = a === b
value_eq (Value.status a) (Value.status b) = a === b
value_eq (Value.escalation a) (Value.escalation b) = a === b
value_eq (Value.event a) (Value.event b) = a === b
value_eq (Value.vehicle a) (Value.vehicle b) = a === b
value_eq (Value.route a) (Value.route b) = a === b
value_eq (Value.evidence a) (Value.evidence b) = a === b
value_eq Value.undefined Value.undefined = true
value_eq _ _ = false

unfoldable pub values_eq : List Value → List Value → Bool
unfolding value_eq
values_eq [] [] = true
values_eq (a ∷ as') (b ∷ bs) = value_eq a b && values_eq as' bs
values_eq _ _ = false

-- Equality of two key texts.
unfoldable pub key_eq : DedupeKey → DedupeKey → Bool
unfolding values_eq
key_eq a b =
    a.topic === b.topic && (a.job_id == b.job_id && values_eq a.discriminator b.discriminator)

pub record OutboxDraft : Type 0 where
  pub topic : OutboxTopic
  pub dedupe_key : DedupeKey
  pub job_id : ℕ
  pub payload : Payload

unfoldable pub outbox_for_event : ℕ → EventType → Payload → Option OutboxDraft
unfolding topic_by_event dedupe_key_for discriminator_for
outbox_for_event job_id event_kind payload = elim (topic_by_event event_kind) [
  | none ↦ none
  | some topic ↦ some (record {
    topic = topic;
    dedupe_key = dedupe_key_for topic job_id (discriminator_for event_kind payload);
    job_id = job_id;
    payload = payload ++ (Key.event_type, Value.event event_kind) ∷ [];
  })
]
