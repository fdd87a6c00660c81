-- ===== src/Store/Types.antt =====
-- apps/api/src/store/types.ts and the private types of apps/api/src/store/memory.ts: what is
-- stored, who reads it, and the state of a MemoryStore. Ids are numbers, instants milliseconds.
use rescue.Prelude.{ℕ, Bool, List, Option, String}
use rescue.Prelude.Table.{Table}
use rescue.Prelude.Int.{ℤ}
use rescue.Contracts.Job.{JobStatus, CreateJobInput, JobType, VehicleClass, CircularRoute}
use rescue.Contracts.Auth.{UserRole, Membership}
use rescue.Contracts.Commerce.{
  QuoteStatus, OfferStatus, AssignmentStatus, EvidenceKind, EvidenceStatus,
}
use rescue.Contracts.Provider.{ProviderStatus, DocumentStatus, DocumentType}
use rescue.Contracts.Ops.{OutboxTopic, OutboxStatus, LedgerEntryKind}
use rescue.Outbox.{EventType, Payload, DedupeKey}

pub data Scope : Type 0 where
  organization provider : ℕ → Scope
  staff : Scope

pub record Actor : Type 0 where
  pub user_id : Option ℕ
  pub role : UserRole
  pub correlation_id : Option String

pub record StoredUser : Type 0 where
  pub id : ℕ
  pub subject : String
  pub email : String
  pub name : String
  pub memberships : List Membership

pub record StoredProvider : Type 0 where
  pub id : ℕ
  pub legal_name : String
  pub status : ProviderStatus
  pub accepting_work : Bool
  pub availability_note : Option String
  pub base_postal_code : String
  pub service_radius_km : ℕ
  pub service_types : List JobType
  pub contact_email : String
  pub created_at : ℕ
  pub updated_at : ℕ

-- The volume is in cubic centimetres.
pub record StoredVehicle : Type 0 where
  pub id : ℕ
  pub provider_id : ℕ
  pub registration_hash : String
  pub vehicle_class : VehicleClass
  pub payload_kg : ℕ
  pub volume_cm3 : ℕ
  pub active : Bool
  pub created_at : ℕ

pub record StoredDocument : Type 0 where
  pub id : ℕ
  pub provider_id : ℕ
  pub type : DocumentType
  pub status : DocumentStatus
  pub storage_key : String
  pub expires_at : Option ℕ
  pub reviewed_at : Option ℕ
  pub created_at : ℕ

pub record StoredQuote : Type 0 where
  pub id : ℕ
  pub job_id : ℕ
  pub organization_id : ℕ
  pub status : QuoteStatus
  pub net_cents : ℕ
  pub vat_cents : ℕ
  pub gross_cents : ℕ
  pub vat_rate_basis_points : ℕ
  pub valid_until : ℕ
  pub approved_at : Option ℕ
  pub approved_by_user_id : Option ℕ
  pub created_at : ℕ

pub record StoredOffer : Type 0 where
  pub id : ℕ
  pub job_id : ℕ
  pub provider_id : ℕ
  pub status : OfferStatus
  pub payout_net_cents : ℕ
  pub expires_at : ℕ
  pub responded_at : Option ℕ
  pub decline_reason : Option String
  pub created_at : ℕ

pub record StoredAssignment : Type 0 where
  pub id : ℕ
  pub job_id : ℕ
  pub provider_id : ℕ
  pub status : AssignmentStatus
  pub payout_net_cents : ℕ
  pub accepted_at : ℕ
  pub completed_at : Option ℕ

pub record StoredOutboxMessage : Type 0 where
  pub id : ℕ
  pub topic : OutboxTopic
  pub dedupe_key : DedupeKey
  pub job_id : Option ℕ
  pub payload : Payload
  pub status : OutboxStatus
  pub attempts : ℕ
  pub available_at : ℕ
  pub last_error : Option String
  pub created_at : ℕ
  pub delivered_at : Option ℕ

pub record StoredLedgerEntry : Type 0 where
  pub id : ℕ
  pub job_id : ℕ
  pub kind : LedgerEntryKind
  pub amount_cents : ℤ
  pub external_reference : Option String
  pub note : Option String
  pub created_at : ℕ

pub record StoredEvidence : Type 0 where
  pub id : ℕ
  pub job_id : ℕ
  pub kind : EvidenceKind
  pub status : EvidenceStatus
  pub mime_type : String
  pub size_bytes : ℕ
  pub storage_key : String
  pub uploaded_by_user_id : Option ℕ
  pub created_at : ℕ

pub record StoredJobEvent : Type 0 where
  pub id : ℕ
  pub job_id : ℕ
  pub actor_id : Option ℕ
  pub type : EventType
  pub payload : Payload
  pub correlation_id : Option String
  pub created_at : ℕ

-- The body is the stored text of the response.
pub record StoredIdempotencyRecord : Type 0 where
  pub key : String
  pub organization_id : ℕ
  pub method : String
  pub path : String
  pub request_hash : String
  pub status_code : ℕ
  pub response_body : String
  pub expires_at : ℕ

-- The confidence is in thousandths.
pub record StoredSuggestion : Type 0 where
  pub id : ℕ
  pub job_id : ℕ
  pub kind : String
  pub output : String
  pub prompt_id : String
  pub prompt_version : String
  pub model : String
  pub confidence : ℕ
  pub latency_ms : ℕ
  pub fell_back_to_rules : Bool
  pub created_at : ℕ

pub record Approval : Type 0 where
  pub vehicle_class : VehicleClass
  pub workers : ℕ
  pub circular_route : CircularRoute

pub record JobRecord : Type 0 where
  pub id : ℕ
  pub organization_id : ℕ
  pub status : JobStatus
  pub input : CreateJobInput
  pub approved : Option Approval
  pub created_at : ℕ
  pub updated_at : ℕ

-- The public view of a job.
pub record Job : Type 0 where
  pub id : ℕ
  pub organization_id : ℕ
  pub status : JobStatus
  pub input : CreateJobInput
  pub created_at : ℕ
  pub updated_at : ℕ

pub data AuditAction : Type 0 where
  of_event : EventType → AuditAction
  provider_created provider_status_changed provider_availability_changed : AuditAction
  vehicle_added document_submitted document_reviewed offers_expired : AuditAction
  evidence_requested person_erased ledger_entry_appended : AuditAction

pub data EntityType : Type 0 where
  job provider vehicle provider_document quote assignment assignment_offer : EntityType
  evidence user ledger_entry : EntityType

-- `sweep` is the literal entity id that `expireOffers` writes.
pub data EntityId : Type 0 where
  entity : ℕ → EntityId
  sweep : EntityId

pub record AuditRecord : Type 0 where
  pub id : ℕ
  pub actor_id : Option ℕ
  pub actor_role : UserRole
  pub action : AuditAction
  pub entity_type : EntityType
  pub entity_id : EntityId
  pub correlation_id : Option String
  pub created_at : ℕ

-- The ids that the generator will return are the stream `new_ids`, from place `drawn` on.
pub record MemoryStore : Type 0 where
  pub users : List (String × StoredUser)
  pub jobs : Table JobRecord
  pub providers : Table StoredProvider
  pub vehicles : Table StoredVehicle
  pub documents : Table StoredDocument
  pub quotes : Table StoredQuote
  pub offers : Table StoredOffer
  pub assignments : Table StoredAssignment
  pub evidence : Table StoredEvidence
  pub idempotency : List StoredIdempotencyRecord
  pub outbox : Table StoredOutboxMessage
  pub outbox_keys : List (DedupeKey × ℕ)
  pub ledger : List StoredLedgerEntry
  pub suggestions : List StoredSuggestion
  pub events : List StoredJobEvent
  pub audit : List AuditRecord
  pub new_ids : ℕ → ℕ
  pub drawn : ℕ
