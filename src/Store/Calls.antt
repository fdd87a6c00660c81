-- ===== src/Store/Calls.antt =====
-- A history of a MemoryStore (apps/api/src/store/memory.ts): the calls of its methods that can
-- change its state, each with the instant at which it runs.
use rescue.Prelude.{ℕ, Bool, List, [], ◌∷◌, Option, String}
use rescue.Contracts.Job.{CreateJobInput}
use rescue.Contracts.Commerce.{QuoteDecision}
use rescue.Contracts.Provider.{ProviderStatus, DocumentStatus}
use rescue.Outbox.{EventType, Payload}
use rescue.Store.Types.{MemoryStore, Scope, Actor, StoredIdempotencyRecord, StoredSuggestion}
use rescue.Store.Jobs.{TransitionInput, create_job, transition_job, record_job_event}
use rescue.Store.Quotes.{CreateQuote, create_quote, decide_quote}
use rescue.Store.Offers.{
  create_offers, accept_offer, decline_offer, expire_offers, fallback_assignment,
}
use rescue.Store.Providers.{
  CreateProviderInput, CreateVehicleInput, CreateDocumentInput, create_provider,
  set_provider_status, set_provider_availability, create_vehicle, create_document, review_document,
}
use rescue.Store.Evidence.{CreateEvidence, create_evidence, mark_evidence_uploaded}
use rescue.Store.Queue.{claim_outbox, mark_outbox_delivered, mark_outbox_failed}
use rescue.Store.Ledger.{EntryInput, append_ledger_entries}
use rescue.Store.People.{erase_person, record_suggestion}
use rescue.Store.Idempotency.{
  Cutoffs, find_idempotency_record, save_idempotency_record, run_retention,
}

pub data Call : Type 0 where
  creates_job : ℕ → ℕ → CreateJobInput → Actor → Call
  transitions_job : ℕ → TransitionInput → Call
  records_job_event : ℕ → ℕ → EventType → Payload → Actor → Call
  creates_provider : ℕ → CreateProviderInput → Actor → Call
  sets_provider_status : ℕ → ℕ → ProviderStatus → Actor → Call
  sets_provider_availability : ℕ → ℕ → Bool → Option String → Actor → Call
  creates_vehicle : ℕ → ℕ → CreateVehicleInput → String → Actor → Call
  creates_document : ℕ → ℕ → CreateDocumentInput → Actor → Call
  reviews_document : ℕ → ℕ → DocumentStatus → Actor → Call
  creates_quote : ℕ → CreateQuote → Call
  decides_quote : ℕ → ℕ → Scope → QuoteDecision → Option String → Actor → Call
  creates_offers : ℕ → ℕ → List ℕ → ℕ → ℕ → Actor → Call
  accepts_offer : ℕ → ℕ → ℕ → Actor → Call
  declines_offer : ℕ → ℕ → ℕ → Option String → Actor → Call
  expires_offers : ℕ → Actor → Call
  falls_back : ℕ → ℕ → Option String → Actor → Call
  creates_evidence : ℕ → CreateEvidence → Call
  marks_evidence_uploaded : ℕ → ℕ → Actor → Call
  claims_outbox : ℕ → ℕ → Call
  marks_outbox_delivered : ℕ → ℕ → Call
  marks_outbox_failed : ℕ → String → Option ℕ → Call
  appends_ledger : ℕ → List EntryInput → Actor → Call
  finds_idempotency_record : ℕ → ℕ → String → Call
  saves_idempotency_record : StoredIdempotencyRecord → Call
  runs_retention : Cutoffs → Call
  erases_person : (ℕ → String) → ℕ → ℕ → Actor → Call
  records_suggestion : ℕ → StoredSuggestion → Call

-- The state after a call, whether it returned or threw.
unfoldable pub perform : Call → MemoryStore → MemoryStore
perform (Call.creates_job now organization_id input actor) s =
    (create_job now organization_id input actor s).1
perform (Call.transitions_job now input) s = (transition_job now input s).1
perform (Call.records_job_event now job_id event_type payload actor) s =
    (record_job_event now job_id event_type payload actor s).1
perform (Call.creates_provider now input actor) s = (create_provider now input actor s).1
perform (Call.sets_provider_status now id status actor) s =
    (set_provider_status now id status actor s).1
perform (Call.sets_provider_availability now id accepting note actor) s =
    (set_provider_availability now id accepting note actor s).1
perform (Call.creates_vehicle now id input hash actor) s =
    (create_vehicle now id input hash actor s).1
perform (Call.creates_document now id input actor) s = (create_document now id input actor s).1
perform (Call.reviews_document now id status actor) s = (review_document now id status actor s).1
perform (Call.creates_quote now q) s = (create_quote now q s).1
perform (Call.decides_quote now id scope decision reason actor) s =
    (decide_quote now id scope decision reason actor s).1
perform (Call.creates_offers now job_id providers payout expires_at actor) s =
    (create_offers now job_id providers payout expires_at actor s).1
perform (Call.accepts_offer offer_id provider_id now actor) s =
    (accept_offer offer_id provider_id now actor s).1
perform (Call.declines_offer now offer_id provider_id reason actor) s =
    (decline_offer now offer_id provider_id reason actor s).1
perform (Call.expires_offers now actor) s = (expire_offers now actor s).1
perform (Call.falls_back now job_id reason actor) s =
    (fallback_assignment now job_id reason actor s).1
perform (Call.creates_evidence now e) s = (create_evidence now e s).1
perform (Call.marks_evidence_uploaded now id actor) s = (mark_evidence_uploaded now id actor s).1
perform (Call.claims_outbox now limit) s = (claim_outbox now limit s).1
perform (Call.marks_outbox_delivered id now) s = mark_outbox_delivered id now s
perform (Call.marks_outbox_failed id error retry_at) s = mark_outbox_failed id error retry_at s
perform (Call.appends_ledger now entries actor) s = (append_ledger_entries now entries actor s).1
perform (Call.finds_idempotency_record now organization_id key) s =
    (find_idempotency_record now organization_id key s).1
perform (Call.saves_idempotency_record r) s = save_idempotency_record r s
perform (Call.runs_retention cutoffs) s = (run_retention cutoffs s).1
perform (Call.erases_person id_text now user_id actor) s =
    (erase_person id_text now user_id actor s).1
perform (Call.records_suggestion now given) s = (record_suggestion now given s).1

unfoldable pub run : List Call → MemoryStore → MemoryStore
unfolding perform
run [] s = s
run (c ∷ calls) s = run calls (perform c s)

-- A property of states that every call keeps holds after any history.
pub run_keeps {ℓ} :
    (P : MemoryStore → Type ℓ)
    → ((c : Call) (s : MemoryStore) → P s → P (perform c s))
    → (calls : List Call) (s : MemoryStore) → P s
    → P (run calls s)
unfolding run
run_keeps P keep [] s h = h
run_keeps P keep (c ∷ calls) s h = run_keeps P keep calls (perform c s) (keep c s h)
