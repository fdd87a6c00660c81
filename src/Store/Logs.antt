-- ===== src/Store/Logs.antt =====
-- The event stream, the audit log and the ledger of apps/api/src/store/memory.ts only grow.
use rescue.Outbox.{EventType, Key, Payload, Value}
use rescue.Prelude.{
  List, [], arith, length, refl, select, take, take-length, take-length-append, ℕ, ◌∷◌, ◌≡◌,
}
use rescue.Prelude.Table.{update, values}
use rescue.Store.Accepting.{accept_offer_cases}
use rescue.Store.Calls.{Call, perform}
use rescue.Store.Evidence.{create_evidence, mark_evidence_uploaded}
use rescue.Store.Frame.{append_ledger_entries_keeps, expiry_events_keeps, offer_each_keeps}
use rescue.Store.People.{erase_person, record_suggestion}
use rescue.Store.Idempotency.{find_idempotency_record, run_retention, save_idempotency_record}
use rescue.Store.Jobs.{create_job, record_job_event, transition_job}
use rescue.Store.Ledger.{EntryInput, append_entry}
use rescue.Store.Offers.{
  award, create_offers, decline_offer, expire_offer, expire_offers, expiry_events,
  fallback_assignment, is_stale, offer_each,
}
use rescue.Store.Providers.{
  create_document, create_provider, create_vehicle, review_document, set_provider_availability,
  set_provider_status,
}
use rescue.Store.Queue.{claim_outbox, mark_outbox_delivered, mark_outbox_failed}
use rescue.Store.Quotes.{create_quote, decide_quote}
use rescue.Store.State.{record_audit, record_event}
use rescue.Store.Types.{Actor, MemoryStore}

-- `xs` is the beginning of `ys`.
abbrev pub Begins {ℓ} : {A : Type ℓ} → List A → List A → Type ℓ
Begins xs ys = take (length xs) ys ≡ xs

Begins-trans {ℓ} : {A : Type ℓ} (xs ys zs : List A) → Begins xs ys → Begins ys zs → Begins xs zs
Begins-trans [] ys zs h k = refl
Begins-trans (x ∷ xs) [] zs h k = absurd (cc)
Begins-trans (x ∷ xs) (y ∷ ys) [] h k = absurd (cc)
Begins-trans (x ∷ xs) (y ∷ ys) (z ∷ zs) h k = let rest = Begins-trans xs ys zs (cc) (cc) in cc

-- What was in each log is still there, in its place.
pub record Keeps (s t : MemoryStore) : Type 0 where
  pub events : Begins s.events t.events
  pub audit : Begins s.audit t.audit
  pub ledger : Begins s.ledger t.ledger

Keeps-refl : (s : MemoryStore) → Keeps s s
Keeps-refl s = record {
  events = take-length s.events;
  audit = take-length s.audit;
  ledger = take-length s.ledger;
}

Keeps-trans : (s t u : MemoryStore) → Keeps s t → Keeps t u → Keeps s u
Keeps-trans s t u h k = record {
  events = Begins-trans s.events t.events u.events h.events k.events;
  audit = Begins-trans s.audit t.audit u.audit h.audit k.audit;
  ledger = Begins-trans s.ledger t.ledger u.ledger h.ledger k.ledger;
}

record_event-Keeps :
    (now job_id : ℕ) (actor : Actor) (event_type : EventType) (payload : Payload) (s : MemoryStore)
    → Keeps s (record_event now job_id actor event_type payload s)
unfolding record_event
record_event-Keeps now job_id actor event_type payload s =
    grind (arith, take-length-append, take-length)

append_entry-Keeps :
    (now : ℕ) (actor : Actor) (entry : EntryInput) (s : MemoryStore)
    → Keeps s (append_entry now actor entry s).1
unfolding append_entry
append_entry-Keeps now actor entry s = grind (arith, take-length-append, take-length)

create_offers-Keeps :
    (now job_id : ℕ) (provider_ids : List ℕ) (payout expires_at : ℕ) (actor : Actor)
    (s : MemoryStore)
    → Keeps s (create_offers now job_id provider_ids payout expires_at actor s).1
unfolding create_offers record_event record_audit
create_offers-Keeps now job_id provider_ids payout expires_at actor s =
    let kept =
      offer_each_keeps (Keeps s) now job_id payout expires_at
        (λ provider_id t h. record { events = h.events; audit = h.audit; ledger = h.ledger })
        provider_ids s (Keeps-refl s) in
    Keeps-trans s (offer_each now job_id payout expires_at provider_ids s).1 _ kept
      (grind (arith, take-length-append, take-length))

expire_offers-Keeps :
    (now : ℕ) (actor : Actor) (s : MemoryStore) → Keeps s (expire_offers now actor s).1
unfolding expire_offers record_audit
expire_offers-Keeps now actor s =
    let swept : MemoryStore = record s { offers = update (expire_offer now) s.offers } in
    let stale = select (is_stale now) (values s.offers) in
    let kept =
      expiry_events_keeps (Keeps s) now actor
        (λ offer t h. Keeps-trans s t _ h (
          record_event-Keeps now offer.job_id actor EventType.offer_expired
            ((Key.offer_id, Value.id offer.id) ∷ []) t))
        stale swept
        (record {
          events = take-length s.events;
          audit = take-length s.audit;
          ledger = take-length s.ledger;
        }) in
    Keeps-trans s (expiry_events now actor stale swept) _ kept
      (grind (arith, take-length-append, take-length))

-- No call of a method, whether it returns or throws, takes an entry out of the event stream, the
-- audit log or the ledger, changes one, or puts one in front of another.
pub perform-Keeps : (c : Call) (s : MemoryStore) → Keeps s (perform c s)
unfolding perform create_job transition_job award fallback_assignment record_job_event
    create_provider set_provider_status set_provider_availability create_vehicle create_document
    review_document create_quote decide_quote decline_offer create_evidence mark_evidence_uploaded
    claim_outbox mark_outbox_delivered mark_outbox_failed find_idempotency_record
    save_idempotency_record run_retention erase_person record_suggestion record_event record_audit
perform-Keeps (Call.accepts_offer offer_id provider_id now actor) s =
    accept_offer_cases (λ r. Keeps s r.1) offer_id provider_id now actor s (λ _. Keeps-refl s)
      (λ _ _ _ _. record {
        events = take-length s.events;
        audit = take-length s.audit;
        ledger = take-length s.ledger;
      })
      (λ _ _ _ _ _ _ _ _ _. record {
        events = take-length-append s.events _;
        audit = take-length-append s.audit _;
        ledger = take-length s.ledger;
      })
perform-Keeps (Call.creates_offers now job_id providers payout expires_at actor) s =
    create_offers-Keeps now job_id providers payout expires_at actor s
perform-Keeps (Call.expires_offers now actor) s = expire_offers-Keeps now actor s
perform-Keeps (Call.appends_ledger now entries actor) s =
    append_ledger_entries_keeps (Keeps s) now actor
      (λ entry t h. Keeps-trans s t _ h (append_entry-Keeps now actor entry t)) entries s
      (Keeps-refl s)
perform-Keeps c s = grind (arith, take-length-append, take-length)
