-- ===== src/System/Carriers.antt =====
-- The endpoints of apps/api/src/routes/providers.ts and privacy.ts act on the store by single calls
-- of its methods.
use rescue.Api.Auth.{AuthContext, require_role}
use rescue.Api.Providers.{
  assert_access, onboarding_roles, post_availability, post_document, post_document_review,
  post_erasure, post_provider, post_review, post_vehicle, require_own, review_roles, trimmed_note,
}
use rescue.Contracts.Provider.{DocumentStatus, ProviderStatus}
use rescue.Prelude.{Bool, Option, String, refl, ℕ}
use rescue.Store.Calls.{Call, perform}
use rescue.Store.Providers.{
  CreateDocumentInput, CreateProviderInput, CreateVehicleInput, create_document, create_provider,
  create_vehicle, review_document, set_provider_availability, set_provider_status,
}
use rescue.Store.Types.{Actor}
use rescue.System.Effects.{Runs, Runs-bind, Runs-call, Runs-of_result, one_call}

create_provider-Runs :
    (now : ℕ) (input : CreateProviderInput) (actor : Actor) → Runs (create_provider now input actor)
unfolding perform
create_provider-Runs now input actor = Runs-call (Call.creates_provider now input actor) (λ s. refl)

set_provider_status-Runs :
    (now id : ℕ) (status : ProviderStatus) (actor : Actor)
    → Runs (set_provider_status now id status actor)
unfolding perform
set_provider_status-Runs now id status actor =
    Runs-call (Call.sets_provider_status now id status actor) (λ s. refl)

set_provider_availability-Runs :
    (now id : ℕ) (accepting : Bool) (note : Option String) (actor : Actor)
    → Runs (set_provider_availability now id accepting note actor)
unfolding perform
set_provider_availability-Runs now id accepting note actor =
    Runs-call (Call.sets_provider_availability now id accepting note actor) (λ s. refl)

create_vehicle-Runs :
    (now id : ℕ) (input : CreateVehicleInput) (hash : String) (actor : Actor)
    → Runs (create_vehicle now id input hash actor)
unfolding perform
create_vehicle-Runs now id input hash actor =
    Runs-call (Call.creates_vehicle now id input hash actor) (λ s. refl)

create_document-Runs :
    (now id : ℕ) (input : CreateDocumentInput) (actor : Actor)
    → Runs (create_document now id input actor)
unfolding perform
create_document-Runs now id input actor =
    Runs-call (Call.creates_document now id input actor) (λ s. refl)

review_document-Runs :
    (now id : ℕ) (status : DocumentStatus) (actor : Actor)
    → Runs (review_document now id status actor)
unfolding perform
review_document-Runs now id status actor =
    Runs-call (Call.reviews_document now id status actor) (λ s. refl)

pub post_provider-Runs :
    (now : ℕ) (caller : Option AuthContext) (input : CreateProviderInput)
    → Runs (post_provider now caller input)
unfolding post_provider
post_provider-Runs now caller input =
    Runs-bind (Runs-of_result {r = require_role onboarding_roles caller})
      (λ auth. create_provider-Runs now input auth.actor)

pub post_review-Runs :
    (now : ℕ) (caller : Option AuthContext) (id : ℕ) (status : ProviderStatus)
    → Runs (post_review now caller id status)
unfolding post_review
post_review-Runs now caller id status =
    Runs-bind (Runs-of_result {r = require_role review_roles caller})
      (λ auth. set_provider_status-Runs now id status auth.actor)

pub post_vehicle-Runs :
    (registration_hash : String → String) (now : ℕ) (caller : Option AuthContext) (id : ℕ)
    (input : CreateVehicleInput) (registration : String)
    → Runs (post_vehicle registration_hash now caller id input registration)
unfolding post_vehicle
post_vehicle-Runs registration_hash now caller id input registration =
    Runs-bind (Runs-of_result {r = require_own "You may only manage your own fleet" caller id})
      (λ auth. create_vehicle-Runs now id input (registration_hash registration) auth.actor)

pub post_document-Runs :
    (now : ℕ) (caller : Option AuthContext) (id : ℕ) (input : CreateDocumentInput)
    → Runs (post_document now caller id input)
unfolding post_document
post_document-Runs now caller id input =
    Runs-bind (Runs-of_result {r = require_own "You may only manage your own documents" caller id})
      (λ auth. create_document-Runs now id input auth.actor)

pub post_document_review-Runs :
    (now : ℕ) (caller : Option AuthContext) (id : ℕ) (status : DocumentStatus)
    → Runs (post_document_review now caller id status)
unfolding post_document_review
post_document_review-Runs now caller id status =
    Runs-bind (Runs-of_result {r = require_role review_roles caller})
      (λ auth. review_document-Runs now id status auth.actor)

pub post_availability-Runs :
    (now : ℕ) (caller : Option AuthContext) (id : ℕ) (accepting : Bool) (note : Option String)
    → Runs (post_availability now caller id accepting note)
unfolding post_availability
post_availability-Runs now caller id accepting note =
    Runs-bind (Runs-of_result {r = assert_access caller id}) (λ auth.
      Runs-bind (Runs-of_result {r = require_role onboarding_roles caller})
        (λ u. set_provider_availability-Runs now id accepting (trimmed_note note) auth.actor))

pub post_erasure-Runs :
    (id_text : ℕ → String) (now : ℕ) (caller : Option AuthContext) (user_id : ℕ)
    → Runs (post_erasure id_text now caller user_id)
unfolding post_erasure perform
post_erasure-Runs id_text now caller user_id =
    Runs-bind (Runs-of_result {r = require_role review_roles caller}) (λ auth. record {
      effect = λ s. one_call (Call.erases_person id_text now user_id auth.actor) s;
    })
