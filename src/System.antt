-- ===== src/System.antt =====
-- The program as a whole: requests to apps/api/src/routes, sweeps of apps/api/src/lib/dispatch.ts and
-- passes of apps/api/src/worker/worker.ts, one after the other, on one store.
pub mod Effects
pub mod Requests
pub mod Sweeps
pub mod Handlers
pub mod Passes
pub mod Endpoints
pub mod Carriers
pub mod Permissions
pub mod Refusals
pub mod Refused
pub mod Whole
mod Tests
mod WholeTests
use rescue.Api.Providers.{
  post_availability, post_document, post_document_review, post_erasure, post_provider, post_review,
  post_vehicle,
}
use rescue.Contracts.Provider.{DocumentStatus, ProviderStatus}
use rescue.Prelude.{Bool}
use rescue.Store.Providers.{CreateDocumentInput, CreateProviderInput, CreateVehicleInput}
use rescue.Api.Auth.{AuthContext, AuthDeps, Request, authenticate}
use rescue.Api.Evidence.{EvidenceStorage, UploadInput, post_evidence, post_uploaded}
use rescue.Api.Idempotency.{KeyedRequest, Runner}
use rescue.Api.Jobs.{TriageService, post_cancel, post_complete, post_job, post_start, post_triage}
use rescue.Api.Offers.{
  OfferDecision, OffersInput, OffersView, post_expire, post_fallback, post_offers, post_response,
}
use rescue.Api.Quotes.{QuoteInput, QuoteView, post_decision, post_quote}
use rescue.Contracts.Commerce.{QuoteDecision}
use rescue.Contracts.Errors.{AppError}
use rescue.Contracts.Job.{CreateJobInput}
use rescue.Dispatch.{Maps, SweepConfig, run_sweep}
use rescue.Prelude.{List, Option, String, [], ℕ, ◌∷◌}
use rescue.Store.Action.{err, ok}
use rescue.Store.Types.{Actor, Approval, MemoryStore}
use rescue.Worker.{World}
use rescue.Worker.Drain.{WorkerOptions, app_handlers, drain}
use rescue.Worker.Notices.{Sender}
use rescue.Worker.Payments.{PaymentDeps}

-- What the endpoints share, and what is outside the program.
pub record Site : Type 0 where
  pub auth : AuthDeps
  pub triage : TriageService
  pub runner : Runner
  pub quote_view : QuoteView
  pub offers_view : OffersView
  pub maps : Maps
  pub sweep : SweepConfig
  pub storage : EvidenceStorage
  pub sender : Sender
  pub payments : PaymentDeps
  pub batch_size : ℕ
  pub message_of : AppError → String
  pub registration_hash : String → String
  pub id_text : ℕ → String

-- The endpoints that can change the store.
pub data Endpoint : Type 0 where
  creates_job : KeyedRequest → CreateJobInput → Endpoint
  approves_triage : ℕ → Approval → Option String → Endpoint
  starts completes : ℕ → Endpoint
  cancels : ℕ → String → Endpoint
  quotes : KeyedRequest → ℕ → QuoteInput → Endpoint
  decides : KeyedRequest → ℕ → QuoteDecision → Option String → Endpoint
  offers : KeyedRequest → ℕ → OffersInput → Endpoint
  responds : ℕ → OfferDecision → Option String → Endpoint
  falls_through : ℕ → String → Endpoint
  expires : (ℕ → ℕ) → Endpoint
  asks_upload : ℕ → UploadInput → Endpoint
  confirms_upload : ℕ → Endpoint
  onboards : CreateProviderInput → Endpoint
  reviews : ℕ → ProviderStatus → Endpoint
  pauses : ℕ → Bool → Option String → Endpoint
  adds_vehicle : ℕ → CreateVehicleInput → String → Endpoint
  adds_document : ℕ → CreateDocumentInput → Endpoint
  reviews_document : ℕ → DocumentStatus → Endpoint
  erases : ℕ → Endpoint

-- The store after an endpoint has answered, well or with an error.
unfoldable pub handle : Site → ℕ → ℕ → Option AuthContext → Endpoint → MemoryStore → MemoryStore
handle site now later caller (Endpoint.creates_job request input) s =
    (post_job site.triage site.runner now later caller request input s).1
handle site now later caller (Endpoint.approves_triage id input notes) s =
    (post_triage now caller id input notes s).1
handle site now later caller (Endpoint.starts id) s = (post_start now caller id s).1
handle site now later caller (Endpoint.completes id) s = (post_complete now caller id s).1
handle site now later caller (Endpoint.cancels id reason) s = (post_cancel now caller id reason s).1
handle site now later caller (Endpoint.quotes request id input) s =
    (post_quote site.quote_view site.runner now later caller request id input s).1
handle site now later caller (Endpoint.decides request id decision reason) s =
    (post_decision site.quote_view site.runner now later caller request id decision reason s).1
handle site now later caller (Endpoint.offers request id input) s =
    (post_offers site.maps site.offers_view site.runner now later caller request id input s).1
handle site now later caller (Endpoint.responds id decision reason) s =
    (post_response now caller id decision reason s).1
handle site now later caller (Endpoint.falls_through id reason) s =
    (post_fallback now caller id reason s).1
handle site now later caller (Endpoint.expires clock) s =
    (post_expire site.sweep site.maps clock caller s).1
handle site now later caller (Endpoint.asks_upload id input) s =
    (post_evidence site.storage now caller id input s).1
handle site now later caller (Endpoint.confirms_upload id) s = (post_uploaded now caller id s).1
handle site now later caller (Endpoint.onboards input) s = (post_provider now caller input s).1
handle site now later caller (Endpoint.reviews id status) s = (post_review now caller id status s).1
handle site now later caller (Endpoint.pauses id accepting note) s =
    (post_availability now caller id accepting note s).1
handle site now later caller (Endpoint.adds_vehicle id input registration) s =
    (post_vehicle site.registration_hash now caller id input registration s).1
handle site now later caller (Endpoint.adds_document id input) s =
    (post_document now caller id input s).1
handle site now later caller (Endpoint.reviews_document id status) s =
    (post_document_review now caller id status s).1
handle site now later caller (Endpoint.erases user_id) s =
    (post_erasure site.id_text now caller user_id s).1

-- The hook, and then the endpoint.
unfoldable pub serve : Site → ℕ → ℕ → Request → Endpoint → MemoryStore → MemoryStore
serve site now later request endpoint s = elim (authenticate site.auth request s) [
  | err e ↦ s
  | ok caller ↦ handle site now later caller endpoint s
]

unfoldable pub worker_options : Site → WorkerOptions
worker_options site = record {
  handlers = app_handlers site.sender site.payments;
  batch_size = site.batch_size;
  message_of = site.message_of;
}

-- What happens to the program: a request, a sweep by the timer, a pass of the worker.
pub data Event : Type 0 where
  asks : ℕ → ℕ → Request → Endpoint → Event
  sweeps : (ℕ → ℕ) → Actor → Event
  drains : (ℕ → ℕ) → Event

unfoldable pub happen : Site → Event → World → World
happen site (Event.asks now later request endpoint) w = record w {
  store = serve site now later request endpoint w.store;
}
happen site (Event.sweeps clock actor) w = record w {
  store = (run_sweep site.sweep site.maps clock actor w.store).1;
}
happen site (Event.drains clock) w = (drain (worker_options site) clock w).1

unfoldable pub live : Site → List Event → World → World
live site [] w = w
live site (e ∷ rest) w = live site rest (happen site e w)
