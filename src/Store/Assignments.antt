-- ===== src/Store/Assignments.antt =====
-- Assignments in apps/api/src/store/memory.ts: a job never has two active ones.
use rescue.Prelude.{
  List, ℕ, ◌≤◌, ◌≡◌, refl, Bool, true, false, Option, none, String, arith, count, Option-cases, inl,
  inr, count_of_not_any, find-eq-none,
}
use rescue.Prelude.Table.{Table, values, count-set_le, count-update_first}
use rescue.Contracts.Commerce.{assignment_status_coded, offer_status_coded}
use rescue.Store.Types.{StoredAssignment, MemoryStore, Actor, StoredOffer, JobRecord}
use rescue.Store.Offers.{
  is_active_on, new_assignment, find_active_assignment, accept_offer, award, fallback_assignment,
  release, decline_offer,
}
use rescue.Store.State.{new_id, record_event, record_audit}
use rescue.Store.Accepting.{accept_offer_cases}
use rescue.Store.Jobs.{create_job, transition_job, record_job_event}
use rescue.Store.Quotes.{create_quote, decide_quote}
use rescue.Store.Providers.{
  create_provider, set_provider_status, set_provider_availability, create_vehicle, create_document,
  review_document,
}
use rescue.Store.Evidence.{create_evidence, mark_evidence_uploaded}
use rescue.Store.Queue.{claim_outbox, mark_outbox_delivered, mark_outbox_failed}
use rescue.Store.People.{erase_person, record_suggestion}
use rescue.Store.Idempotency.{find_idempotency_record, save_idempotency_record, run_retention}
use rescue.Store.Frame.{
  expire_offers-SameWork, create_offers-SameWork, append_ledger_entries-SameWork,
}
use rescue.Store.Calls.{run_keeps, run, Call, perform}

-- Every job has at most one active assignment.
abbrev pub OneActive : MemoryStore → Type 0
OneActive s = (job_id : ℕ) → count (is_active_on job_id) (values s.assignments) ≤ 1

award-OneActive :
    (now offer_id : ℕ) (offer : StoredOffer) (r : JobRecord) (actor : Actor) (s : MemoryStore)
    → OneActive s
    → find_active_assignment offer.job_id s ≡ none
    → OneActive (award now offer_id offer r actor s).1
unfolding award find_active_assignment record_event record_audit
award-OneActive now offer_id offer r actor s h f job_id = ground (
  arith,
  h job_id,
  count-set_le (is_active_on job_id) s.assignments (new_id s) (new_assignment now (new_id s) offer),
  find-eq-none (is_active_on offer.job_id) (values s.assignments),
  count_of_not_any (is_active_on offer.job_id) (values s.assignments),
)

accept_offer-OneActive :
    (offer_id provider_id now : ℕ) (actor : Actor) (s : MemoryStore)
    → OneActive s
    → OneActive (accept_offer offer_id provider_id now actor s).1
accept_offer-OneActive offer_id provider_id now actor s h =
    accept_offer_cases (λ r. OneActive r.1) offer_id provider_id now actor s (λ e. h)
      (λ e offer status _. h)
      λ offer r _ _ _ _ f _ _. award-OneActive now offer_id offer r actor s h f

fallback_assignment-OneActive :
    (now job_id : ℕ) (reason : Option String) (actor : Actor) (s : MemoryStore)
    → OneActive s
    → OneActive (fallback_assignment now job_id reason actor s).1
unfolding fallback_assignment find_active_assignment record_event record_audit
fallback_assignment-OneActive now job_id reason actor s h k =
    elim (Option-cases (find_active_assignment job_id s)) [
      | inl e ↦ ground (arith, h k)
      | inr (a, e) ↦ ground (
        arith,
        h k,
        count-update_first (is_active_on k) (is_active_on job_id) release s.assignments a e,
      )
    ]

-- A call that neither accepts an offer nor falls back, and runs no loop.
abbrev leaves_assignments : Call → Bool
leaves_assignments (Call.accepts_offer _ _ _ _) = false
leaves_assignments (Call.falls_back _ _ _ _) = false
leaves_assignments (Call.creates_offers _ _ _ _ _ _) = false
leaves_assignments (Call.expires_offers _ _) = false
leaves_assignments (Call.appends_ledger _ _ _) = false
leaves_assignments _ = true

-- The calls of other components leave the assignments alone.
perform-assignments :
    (c : Call) (s : MemoryStore)
    → leaves_assignments c ≡ true
    → (perform c s).assignments ≡ s.assignments
unfolding perform create_job transition_job record_job_event create_provider set_provider_status
    set_provider_availability create_vehicle create_document review_document create_quote
    decide_quote decline_offer create_evidence mark_evidence_uploaded claim_outbox
    mark_outbox_delivered mark_outbox_failed find_idempotency_record save_idempotency_record
    run_retention erase_person record_suggestion
perform-assignments (Call.accepts_offer _ _ _ _) s h = cc
perform-assignments (Call.falls_back _ _ _ _) s h = cc
perform-assignments (Call.creates_offers _ _ _ _ _ _) s h = cc
perform-assignments (Call.expires_offers _ _) s h = cc
perform-assignments (Call.appends_ledger _ _ _) s h = cc
perform-assignments c s h = ground arith

same_assignments :
    {a b : Table StoredAssignment}
    → b ≡ a
    → ((k : ℕ) → count (is_active_on k) (values a) ≤ 1)
    → (k : ℕ) → count (is_active_on k) (values b) ≤ 1
same_assignments e h k = rw e (h k)

-- Whatever a call does, no job comes to have two active assignments.
pub perform-OneActive : (c : Call) (s : MemoryStore) → OneActive s → OneActive (perform c s)
unfolding perform
perform-OneActive (Call.accepts_offer offer_id provider_id now actor) s h =
    accept_offer-OneActive offer_id provider_id now actor s h
perform-OneActive (Call.falls_back now job_id reason actor) s h =
    fallback_assignment-OneActive now job_id reason actor s h
perform-OneActive (Call.creates_offers now job_id providers payout expires_at actor) s h =
    same_assignments
      (create_offers-SameWork now job_id providers payout expires_at actor s).assignments h
perform-OneActive (Call.expires_offers now actor) s h =
    same_assignments (expire_offers-SameWork now actor s).assignments h
perform-OneActive (Call.appends_ledger now entries actor) s h =
    same_assignments (append_ledger_entries-SameWork now actor entries s).assignments h
perform-OneActive c s h = same_assignments (perform-assignments c s refl) h

-- From a store in which no job has two active assignments, no history of calls leads to a store in
-- which one has.
pub run-OneActive : (calls : List Call) (s : MemoryStore) → OneActive s → OneActive (run calls s)
run-OneActive calls s h = run_keeps OneActive perform-OneActive calls s h
