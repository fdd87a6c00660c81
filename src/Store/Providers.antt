-- ===== src/Store/Providers.antt =====
-- The methods on providers, vehicles and documents of apps/api/src/store/memory.ts.
use rescue.Prelude.{
  ℕ, suc, Bool, true, not, ◌&&◌, List, Option, none, some, String, ◌===◌, ◌==◌, if◌then◌else◌,
  select, any, is_some, ltb,
}
use rescue.Prelude.Sort.{sort}
use rescue.Prelude.Table.{get, set, values}
use text.Mathlib.Text.{◌==◌ as str_eq}
use rescue.Contracts.Job.{JobType, VehicleClass}
use rescue.Contracts.Errors.{AppError}
use rescue.Contracts.Provider.{ProviderStatus, DocumentStatus, DocumentType, provider_status_coded}
use rescue.Store.Types.{
  MemoryStore, Actor, StoredProvider, StoredVehicle, StoredDocument, AuditAction, EntityType,
  EntityId,
}
use rescue.Store.Action.{Action, pure, raise}
use rescue.Store.State.{new_id, record_audit}

pub record CreateProviderInput : Type 0 where
  pub legal_name : String
  pub base_postal_code : String
  pub service_radius_km : ℕ
  pub service_types : List JobType
  pub contact_email : String

abbrev pub pending_provider : ℕ → ℕ → CreateProviderInput → StoredProvider
pending_provider now id input = record {
  id = id;
  legal_name = input.legal_name;
  status = ProviderStatus.pending;
  accepting_work = true;
  availability_note = none;
  base_postal_code = input.base_postal_code;
  service_radius_km = input.service_radius_km;
  service_types = input.service_types;
  contact_email = input.contact_email;
  created_at = now;
  updated_at = now;
}

unfoldable pub create_provider : ℕ → CreateProviderInput → Actor → Action StoredProvider
unfolding record_audit
create_provider now input actor s = pure (pending_provider now (new_id s) input) (
    record_audit now actor AuditAction.provider_created EntityType.provider
      (EntityId.entity (new_id s))
      (record s {
        providers = set s.providers (new_id s) (pending_provider now (new_id s) input);
        drawn = suc s.drawn;
      }))

unfoldable pub list_providers : Option ProviderStatus → MemoryStore → List StoredProvider
unfolding sort
list_providers wanted s =
    sort (λ a b. ltb a.id b.id)
      (select (λ p. elim wanted [ none ↦ true | some status ↦ p.status === status ])
        (values s.providers))

unfoldable pub set_provider_status : ℕ → ℕ → ProviderStatus → Actor → Action StoredProvider
unfolding record_audit
set_provider_status now provider_id status actor s = elim (get s.providers provider_id) [
  | none ↦ raise (AppError.not_found "Provider") s
  | some p ↦
      let p' : StoredProvider = record p { status = status; updated_at = now } in
      pure p' (
        record_audit now actor AuditAction.provider_status_changed EntityType.provider
          (EntityId.entity p.id) (record s { providers = set s.providers provider_id p' }))
]

-- A note explains a pause, and resuming clears it.
unfoldable pub set_provider_availability :
    ℕ → ℕ → Bool → Option String → Actor → Action StoredProvider
unfolding record_audit
set_provider_availability now provider_id accepting_work note actor s =
    elim (get s.providers provider_id) [
      | none ↦ raise (AppError.not_found "Provider") s
      | some p ↦
          let p' : StoredProvider = record p {
            accepting_work = accepting_work;
            availability_note = if accepting_work then none else note;
            updated_at = now;
          } in
          pure p' (
            record_audit now actor AuditAction.provider_availability_changed EntityType.provider
              (EntityId.entity p.id) (record s { providers = set s.providers provider_id p' }))
    ]

pub record CreateVehicleInput : Type 0 where
  pub vehicle_class : VehicleClass
  pub payload_kg : ℕ
  pub volume_cm3 : ℕ
  pub active : Bool

abbrev pub new_vehicle : ℕ → ℕ → ℕ → CreateVehicleInput → String → StoredVehicle
new_vehicle now id provider_id input registration_hash = record {
  id = id;
  provider_id = provider_id;
  registration_hash = registration_hash;
  vehicle_class = input.vehicle_class;
  payload_kg = input.payload_kg;
  volume_cm3 = input.volume_cm3;
  active = input.active;
  created_at = now;
}

abbrev pub is_registered : MemoryStore → ℕ → String → Bool
is_registered s provider_id registration_hash =
    any (λ v. v.provider_id == provider_id && str_eq v.registration_hash registration_hash)
      (values s.vehicles)

unfoldable pub create_vehicle : ℕ → ℕ → CreateVehicleInput → String → Actor → Action StoredVehicle
unfolding record_audit
create_vehicle now provider_id input registration_hash actor s =
    if not (is_some (get s.providers provider_id))
    then raise (AppError.not_found "Provider") s
    else if is_registered s provider_id registration_hash
    then raise (AppError.conflict "This vehicle is already registered to the provider") s
    else let vehicle = new_vehicle now (new_id s) provider_id input registration_hash in
      pure vehicle (
        record_audit now actor AuditAction.vehicle_added EntityType.vehicle
          (EntityId.entity (new_id s))
          (record s { vehicles = set s.vehicles (new_id s) vehicle; drawn = suc s.drawn }))

unfoldable pub list_vehicles : ℕ → MemoryStore → List StoredVehicle
list_vehicles provider_id s = select (λ v. v.provider_id == provider_id) (values s.vehicles)

pub record CreateDocumentInput : Type 0 where
  pub type : DocumentType
  pub storage_key : String
  pub expires_at : Option ℕ

abbrev pub pending_document : ℕ → ℕ → ℕ → CreateDocumentInput → StoredDocument
pending_document now id provider_id input = record {
  id = id;
  provider_id = provider_id;
  type = input.type;
  status = DocumentStatus.pending;
  storage_key = input.storage_key;
  expires_at = input.expires_at;
  reviewed_at = none;
  created_at = now;
}

unfoldable pub create_document : ℕ → ℕ → CreateDocumentInput → Actor → Action StoredDocument
unfolding record_audit
create_document now provider_id input actor s =
    if not (is_some (get s.providers provider_id))
    then raise (AppError.not_found "Provider") s
    else let document = pending_document now (new_id s) provider_id input in
      pure document (
        record_audit now actor AuditAction.document_submitted EntityType.provider_document
          (EntityId.entity (new_id s))
          (record s { documents = set s.documents (new_id s) document; drawn = suc s.drawn }))

unfoldable pub list_documents : ℕ → MemoryStore → List StoredDocument
list_documents provider_id s = select (λ d. d.provider_id == provider_id) (values s.documents)

unfoldable pub review_document : ℕ → ℕ → DocumentStatus → Actor → Action StoredDocument
unfolding record_audit
review_document now document_id status actor s = elim (get s.documents document_id) [
  | none ↦ raise (AppError.not_found "Document") s
  | some d ↦
      let d' : StoredDocument = record d { status = status; reviewed_at = some now } in
      pure d' (
        record_audit now actor AuditAction.document_reviewed EntityType.provider_document
          (EntityId.entity d.id) (record s { documents = set s.documents document_id d' }))
]
