-- ===== src/Store/Published.antt =====
-- What the methods of apps/api/src/store/memory.ts do to the outbox keys that are taken.
use rescue.Outbox.{Payload, DedupeKey, EventType}
use rescue.Prelude.{
  any, Bool-cases, List, [], arith, inl, inr, true, false, Bool, ℕ, ◌++◌, ◌∷◌, ◌≡◌, Option-cases,
  select,
}
use rescue.Prelude.Table.{update, values}
use rescue.Store.Accepting.{accept_offer_cases}
use rescue.Store.Calls.{Call, perform, run}
use rescue.Store.Evidence.{create_evidence, mark_evidence_uploaded}
use rescue.Store.Frame.{append_ledger_entries_keeps, expiry_events_keeps, offer_each_keeps}
use rescue.Store.People.{erase_person, record_suggestion}
use rescue.Store.Idempotency.{find_idempotency_record, save_idempotency_record}
use rescue.Store.Jobs.{record_both, create_job, record_job_event, transition_job}
use rescue.Store.Ledger.{EntryInput, append_entry}
use rescue.Store.Offers.{
  award, accept_offer, create_offers, decline_offer, expire_offer, expire_offers,
  fallback_assignment, is_stale,
}
use rescue.Store.Providers.{
  create_document, create_provider, create_vehicle, review_document, set_provider_availability,
  set_provider_status,
}
use rescue.Store.Queue.{claim_outbox, mark_outbox_delivered, mark_outbox_failed}
use rescue.Store.Quotes.{create_quote, decide_quote}
use rescue.Store.State.{has_key, new_draft, record_audit, record_event}
use rescue.Store.Types.{Actor, MemoryStore}
use rescue.Outbox.{outbox_for_event}

-- Whether a call is one of the retention job.
abbrev pub is_retention : Call → Bool
is_retention (Call.runs_retention _) = true
is_retention _ = false

-- The keys taken in `s` are taken in `t`.
pub record KeepsKeys (s t : MemoryStore) : Type 0 where
  pub taken : (k : DedupeKey) → has_key s.outbox_keys k ≡ true → has_key t.outbox_keys k ≡ true

KeepsKeys-refl : (s : MemoryStore) → KeepsKeys s s
KeepsKeys-refl s = record { taken = λ k h. h }

has_key-append :
    (keys : List (DedupeKey × ℕ)) (k : DedupeKey) (more : List (DedupeKey × ℕ))
    → has_key keys k ≡ true
    → has_key (keys ++ more) k ≡ true
has_key-append [] k more h = absurd (cc)
has_key-append ((j, i) ∷ keys) k more h = grind (arith, has_key-append keys k more)

record_event-taken :
    (now job_id : ℕ) (actor : Actor) (event_type : EventType) (payload : Payload) (s : MemoryStore)
    (k : DedupeKey)
    → has_key s.outbox_keys k ≡ true
    → has_key (record_event now job_id actor event_type payload s).outbox_keys k ≡ true
unfolding record_event new_draft
record_event-taken now job_id actor event_type payload s k h =
    elim (Option-cases (outbox_for_event job_id event_type payload)) [
      | inl e ↦ rw (record_event, new_draft, e) h
      | inr (d, e) ↦ elim (Bool-cases (has_key s.outbox_keys d.dedupe_key)) [
        | inl old ↦ rw (record_event, new_draft, e, old) h
        | inr new ↦ rw (record_event, new_draft, e, new) (has_key-append s.outbox_keys k _ h)
      ]
    ]

record_event-KeepsKeys :
    (now job_id : ℕ) (actor : Actor) (event_type : EventType) (payload : Payload)
    (s t : MemoryStore)
    → KeepsKeys s t
    → KeepsKeys s (record_event now job_id actor event_type payload t)
record_event-KeepsKeys now job_id actor event_type payload s t h = record {
  taken = λ k e. record_event-taken now job_id actor event_type payload t k (h.taken k e);
}

create_offers-KeepsKeys :
    (now job_id : ℕ) (provider_ids : List ℕ) (payout expires_at : ℕ) (actor : Actor)
    (s : MemoryStore)
    → KeepsKeys s (create_offers now job_id provider_ids payout expires_at actor s).1
unfolding create_offers record_audit
create_offers-KeepsKeys now job_id provider_ids payout expires_at actor s =
    let kept =
      offer_each_keeps (KeepsKeys s) now job_id payout expires_at
        (λ provider_id t h. record { taken = h.taken }) provider_ids s (KeepsKeys-refl s) in
    record { taken = λ k h. record_event-taken _ _ _ _ _ _ k (kept.taken k h) }

expire_offers-KeepsKeys :
    (now : ℕ) (actor : Actor) (s : MemoryStore) → KeepsKeys s (expire_offers now actor s).1
unfolding expire_offers record_audit
expire_offers-KeepsKeys now actor s =
    let kept =
      expiry_events_keeps (KeepsKeys s) now actor
        (λ offer t h. record_event-KeepsKeys now offer.job_id actor EventType.offer_expired _ s t h)
        (select (is_stale now) (values s.offers))
        (record s { offers = update (expire_offer now) s.offers }) (record { taken = λ k h. h }) in
    record { taken = λ k h. ground (arith, kept.taken k h) }

append_entry-KeepsKeys :
    (now : ℕ) (actor : Actor) (entry : EntryInput) (s t : MemoryStore)
    → KeepsKeys s t
    → KeepsKeys s (append_entry now actor entry t).1
unfolding append_entry
append_entry-KeepsKeys now actor entry s t h = record { taken = λ k e. ground (arith, h.taken k e) }

accept_offer-KeepsKeys :
    (offer_id provider_id now : ℕ) (actor : Actor) (s : MemoryStore)
    → KeepsKeys s (accept_offer offer_id provider_id now actor s).1
unfolding award record_audit
accept_offer-KeepsKeys offer_id provider_id now actor s =
    accept_offer_cases (λ r. KeepsKeys s r.1) offer_id provider_id now actor s
      (λ _. KeepsKeys-refl s) (λ _ _ _ _. record { taken = λ k h. h })
      (λ _ _ _ _ _ _ _ _ _. record { taken = λ k h. record_event-taken _ _ _ _ _ _ k h })

-- Every call but one of the retention job, whether it returns or throws, leaves each outbox key
-- taken.
pub perform-KeepsKeys :
    (c : Call) (s : MemoryStore) → is_retention c ≡ false → KeepsKeys s (perform c s)
unfolding perform create_job transition_job fallback_assignment record_job_event create_provider
    set_provider_status set_provider_availability create_vehicle create_document review_document
    create_quote decide_quote decline_offer create_evidence mark_evidence_uploaded claim_outbox
    mark_outbox_delivered mark_outbox_failed find_idempotency_record save_idempotency_record
    erase_person record_suggestion record_both record_audit record_event new_draft
perform-KeepsKeys (Call.accepts_offer offer_id provider_id now actor) s live =
    accept_offer-KeepsKeys offer_id provider_id now actor s
perform-KeepsKeys (Call.creates_offers now job_id providers payout expires_at actor) s live =
    create_offers-KeepsKeys now job_id providers payout expires_at actor s
perform-KeepsKeys (Call.expires_offers now actor) s live = expire_offers-KeepsKeys now actor s
perform-KeepsKeys (Call.appends_ledger now entries actor) s live =
    append_ledger_entries_keeps (KeepsKeys s) now actor
      (λ entry t h. append_entry-KeepsKeys now actor entry s t h) entries s (KeepsKeys-refl s)
perform-KeepsKeys c s live = record { taken = λ k h. grind (arith, has_key-append) }

-- So does a history without the retention job.
pub run-KeepsKeys :
    (calls : List Call) (s : MemoryStore)
    → any is_retention calls ≡ false
    → KeepsKeys s (run calls s)
unfolding run
run-KeepsKeys [] s live = KeepsKeys-refl s
run-KeepsKeys (c ∷ calls) s live =
    let first = perform-KeepsKeys c s (ground (arith, live)) in
    let rest = run-KeepsKeys calls (perform c s) (ground (arith, live)) in
    record { taken = λ k h. rest.taken k (first.taken k h) }
