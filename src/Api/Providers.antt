-- ===== src/Api/Providers.antt =====
-- apps/api/src/routes/providers.ts and apps/api/src/routes/privacy.ts: the endpoints for carriers,
-- their fleets and documents, and for erasure. The keyed hash of a registration is a parameter.
use text.Mathlib.Text.{◌==◌ as str_eq}
use rescue.Api.Auth.{AuthContext, require_auth, require_provider, require_role, same_id}
use rescue.Api.Guards.{of_result}
use rescue.Api.Header.{trim}
use rescue.Api.Quotes.{money_roles}
use rescue.Contracts.Auth.{UserRole}
use rescue.Contracts.Errors.{AppError}
use rescue.Contracts.Provider.{DocumentStatus, ProviderStatus}
use rescue.Prelude.{Bool, List, Option, String, [], if◌then◌else◌, none, some, ℕ, ◌==◌, ◌∷◌}
use rescue.Store.Action.{Action, Result, err, ok, pure, ◌>>=◌}
use rescue.Store.People.{Erasure, erase_person}
use rescue.Store.Providers.{
  CreateDocumentInput, CreateProviderInput, CreateVehicleInput, create_document, create_provider,
  create_vehicle, list_documents, list_providers, list_vehicles, review_document,
  set_provider_availability, set_provider_status,
}
use rescue.Store.Types.{StoredDocument, StoredProvider, StoredVehicle}

-- `assertProviderAccess`
unfoldable pub assert_access : Option AuthContext → ℕ → Result AuthContext
assert_access none id = err (AppError.unauthenticated "Authentication required")
assert_access (some auth) id =
    if auth.is_staff
    then ok auth
    else if same_id (some id) auth.provider_id
    then ok auth
    else err (AppError.not_found "Provider")

-- The guard of a fleet and of documents: staff, or a provider on its own.
unfoldable pub require_own : String → Option AuthContext → ℕ → Result AuthContext
require_own refusal caller id = elim (require_auth caller) [
  | err e ↦ err e
  | ok auth ↦ if auth.is_staff then ok auth else elim (require_provider caller) [
    | err e ↦ err e
    | ok owner ↦ if owner.1 == id then ok auth else err (AppError.forbidden refusal)
  ]
]

abbrev pub onboarding_roles : List UserRole
onboarding_roles = UserRole.provider_admin ∷ UserRole.dispatcher ∷ UserRole.admin ∷ []

-- `POST /providers`
unfoldable pub post_provider : ℕ → Option AuthContext → CreateProviderInput → Action StoredProvider
post_provider now caller input = of_result (require_role onboarding_roles caller) >>= λ auth.
    create_provider now input auth.actor

-- `GET /providers`
unfoldable pub get_providers :
    Option AuthContext → Option ProviderStatus → Action (List StoredProvider)
get_providers caller status =
    of_result (require_role money_roles caller) >>= λ auth s. pure (list_providers status s) s

abbrev pub review_roles : List UserRole
review_roles = UserRole.compliance ∷ UserRole.admin ∷ []

-- `POST /providers/:id/review`
unfoldable pub post_review : ℕ → Option AuthContext → ℕ → ProviderStatus → Action StoredProvider
post_review now caller id status = of_result (require_role review_roles caller) >>= λ auth.
    set_provider_status now id status auth.actor

-- `input.note?.trim() ? input.note.trim() : null`
abbrev pub trimmed_note : Option String → Option String
trimmed_note none = none
trimmed_note (some note) = if str_eq (trim note) "" then none else some (trim note)

-- `POST /providers/:id/availability`
unfoldable pub post_availability :
    ℕ → Option AuthContext → ℕ → Bool → Option String → Action StoredProvider
post_availability now caller id accepting note = of_result (assert_access caller id) >>= λ auth.
    of_result (require_role onboarding_roles caller) >>= λ _.
    set_provider_availability now id accepting (trimmed_note note) auth.actor

-- `POST /providers/:id/vehicles`
unfoldable pub post_vehicle :
    (String → String)
    → ℕ
    → Option AuthContext
    → ℕ
    → CreateVehicleInput
    → String
    → Action StoredVehicle
post_vehicle registration_hash now caller id input registration =
    of_result (require_own "You may only manage your own fleet" caller id) >>= λ auth.
    create_vehicle now id input (registration_hash registration) auth.actor

-- `GET /providers/:id/vehicles`
unfoldable pub get_vehicles : Option AuthContext → ℕ → Action (List StoredVehicle)
get_vehicles caller id =
    of_result (assert_access caller id) >>= λ auth s. pure (list_vehicles id s) s

-- `POST /providers/:id/documents`
unfoldable pub post_document :
    ℕ → Option AuthContext → ℕ → CreateDocumentInput → Action StoredDocument
post_document now caller id input =
    of_result (require_own "You may only manage your own documents" caller id) >>= λ auth.
    create_document now id input auth.actor

-- `GET /providers/:id/documents`
unfoldable pub get_documents : Option AuthContext → ℕ → Action (List StoredDocument)
get_documents caller id =
    of_result (assert_access caller id) >>= λ auth s. pure (list_documents id s) s

-- `POST /providers/:id/documents/:documentId/review`
unfoldable pub post_document_review :
    ℕ → Option AuthContext → ℕ → DocumentStatus → Action StoredDocument
post_document_review now caller document_id status =
    of_result (require_role review_roles caller) >>= λ auth.
    review_document now document_id status auth.actor

-- `POST /privacy/erasure`
unfoldable pub post_erasure : (ℕ → String) → ℕ → Option AuthContext → ℕ → Action Erasure
post_erasure id_text now caller user_id = of_result (require_role review_roles caller) >>= λ auth s.
    let (result, t) = erase_person id_text now user_id auth.actor s in pure result t
