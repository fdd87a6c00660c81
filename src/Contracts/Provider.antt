-- ===== src/Contracts/Provider.antt =====
-- packages/contracts/src/provider.ts: providers, their documents, and why one is excluded.
use rescue.Prelude.{ℕ, ◌≡◌, Bool, List, [], ◌∷◌, Option, Coded, arith}

pub data ProviderStatus : Type 0 where
  pending active suspended rejected : ProviderStatus

abbrev pub provider_status_code : ProviderStatus → ℕ
provider_status_code ProviderStatus.pending = 0
provider_status_code ProviderStatus.active = 1
provider_status_code ProviderStatus.suspended = 2
provider_status_code ProviderStatus.rejected = 3

pub provider_status_code-injective :
    (a b : ProviderStatus) → provider_status_code a ≡ provider_status_code b → a ≡ b
provider_status_code-injective a b h = ground arith

instance abbrev pub provider_status_coded : Coded ProviderStatus
provider_status_coded = record {
  code = provider_status_code;
  code-injective = provider_status_code-injective;
}

pub data DocumentStatus : Type 0 where
  pending verified expired rejected : DocumentStatus

abbrev pub document_status_code : DocumentStatus → ℕ
document_status_code DocumentStatus.pending = 0
document_status_code DocumentStatus.verified = 1
document_status_code DocumentStatus.expired = 2
document_status_code DocumentStatus.rejected = 3

pub document_status_code-injective :
    (a b : DocumentStatus) → document_status_code a ≡ document_status_code b → a ≡ b
document_status_code-injective a b h = ground arith

instance abbrev pub document_status_coded : Coded DocumentStatus
document_status_coded = record {
  code = document_status_code;
  code-injective = document_status_code-injective;
}

pub data DocumentType : Type 0 where
  liability_insurance cargo_insurance trade_licence : DocumentType
  waste_carrier_permit vehicle_registration : DocumentType

abbrev pub document_type_code : DocumentType → ℕ
document_type_code DocumentType.liability_insurance = 0
document_type_code DocumentType.cargo_insurance = 1
document_type_code DocumentType.trade_licence = 2
document_type_code DocumentType.waste_carrier_permit = 3
document_type_code DocumentType.vehicle_registration = 4

pub document_type_code-injective :
    (a b : DocumentType) → document_type_code a ≡ document_type_code b → a ≡ b
document_type_code-injective a b h = ground arith

instance abbrev pub document_type_coded : Coded DocumentType
document_type_coded = record {
  code = document_type_code;
  code-injective = document_type_code-injective;
}

-- `REQUIRED_DOCUMENT_TYPES`
abbrev pub required_document_types : List DocumentType
required_document_types = DocumentType.liability_insurance ∷ DocumentType.trade_licence ∷ []

pub data IneligibilityReason : Type 0 where
  provider_not_active provider_not_accepting_work : IneligibilityReason
  service_type_not_permitted outside_service_radius : IneligibilityReason
  missing_required_document document_expired document_not_verified : IneligibilityReason
  no_suitable_vehicle : IneligibilityReason

pub record EligibilityResult : Type 0 where
  pub provider_id : ℕ
  pub eligible : Bool
  pub reasons : List IneligibilityReason
  pub rank : Option ℕ
  pub distance_km : ℕ
  pub distance_is_road : Bool
