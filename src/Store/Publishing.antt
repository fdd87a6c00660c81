-- ===== src/Store/Publishing.antt =====
-- Which events of apps/api/src/store/memory.ts reach the outbox, through the keys of
-- apps/api/src/lib/outbox.ts.
use rescue.Contracts.Job.{JobStatus, can_transition}
use rescue.Prelude.{Option-cases, refl, ◌∙◌}
use rescue.Store.Frame.{offer_each_keeps}
use rescue.Store.Offers.{find_active_assignment, offer_each}
use rescue.Contracts.Ops.{OutboxTopic}
use rescue.Outbox.{DedupeKey, EventType, OutboxDraft, Payload, outbox_for_event}
use rescue.Outbox.Keys.{key_eq_refl}
use rescue.Prelude.{
  Bool-cases, List, Option, String, [], arith, inl, inr, some, suc, true, ℕ, ◌++◌, ◌∷◌, ◌≡◌,
}
use rescue.Prelude.Table.{get}
use rescue.Store.Offers.{create_offers, fallback_assignment}
use rescue.Store.State.{has_key, new_draft, record_audit, record_event}
use rescue.Store.Types.{Actor, JobRecord, MemoryStore}

has_key-append :
    (keys : List (DedupeKey × ℕ)) (k : DedupeKey) (id : ℕ) → has_key (keys ++ (k, id) ∷ []) k ≡ true
has_key-append [] k id = rw (key_eq_refl k)
has_key-append ((j, i) ∷ keys) k id = ground (arith, has_key-append keys k id)

-- After an event whose draft has a key, that key is taken.
pub record_event-has_key :
    (now job_id : ℕ) (actor : Actor) (event_type : EventType) (payload : Payload) (s : MemoryStore)
    (d : OutboxDraft)
    → outbox_for_event job_id event_type payload ≡ some d
    → has_key (record_event now job_id actor event_type payload s).outbox_keys d.dedupe_key ≡ true
unfolding record_event new_draft
record_event-has_key now job_id actor event_type payload s d e =
    elim (Bool-cases (has_key s.outbox_keys d.dedupe_key)) [
      | inl old ↦ rw (e, old, record_event, new_draft) old
      | inr new ↦
          rw (e, new, record_event, new_draft)
            (has_key-append s.outbox_keys d.dedupe_key (s.new_ids (suc s.drawn)))
    ]

-- An event whose key is taken adds no message.
pub record_event_silent :
    (now job_id : ℕ) (actor : Actor) (event_type : EventType) (payload : Payload) (s : MemoryStore)
    (d : OutboxDraft)
    → outbox_for_event job_id event_type payload ≡ some d
    → has_key s.outbox_keys d.dedupe_key ≡ true
    → (record_event now job_id actor event_type payload s).outbox ≡ s.outbox
unfolding record_event new_draft
record_event_silent now job_id actor event_type payload s d e taken =
    rw (e, taken, record_event, new_draft)

-- Of two events with the same key, the second adds no message to the outbox, whatever its type and
-- payload are.
pub record_event_once :
    (now later job_id other_job : ℕ) (actor other_actor : Actor) (event_type other_type : EventType)
    (payload other_payload : Payload) (s : MemoryStore) (d other : OutboxDraft)
    → outbox_for_event job_id event_type payload ≡ some d
    → outbox_for_event other_job other_type other_payload ≡ some other
    → other.dedupe_key ≡ d.dedupe_key
    → (record_event later other_job other_actor other_type other_payload
        (record_event now job_id actor event_type payload s)).outbox
      ≡ (record_event now job_id actor event_type payload s).outbox
record_event_once now later job_id other_job actor other_actor event_type other_type payload
      other_payload s d other e e' same =
    record_event_silent later other_job other_actor other_type other_payload _ other e'
      (rw same (record_event-has_key now job_id actor event_type payload s d e))

record SameOutbox (s t : MemoryStore) : Type 0 where
  outbox : t.outbox ≡ s.outbox
  keys : t.outbox_keys ≡ s.outbox_keys

-- The keys under which a fall-through and a round of offers are published: the job alone.
abbrev pub fell_through_key : ℕ → DedupeKey
fell_through_key job_id = record {
  topic = OutboxTopic.assignment_fell_through;
  job_id = job_id;
  discriminator = [];
}

abbrev pub offers_sent_key : ℕ → DedupeKey
offers_sent_key job_id = record {
  topic = OutboxTopic.offers_sent;
  job_id = job_id;
  discriminator = [];
}

-- While the key of a job is taken, a fall-through of the job adds no message.
pub fallback_assignment-taken :
    (now job_id : ℕ) (reason : Option String) (actor : Actor) (s : MemoryStore) (r : JobRecord)
    → get s.jobs job_id ≡ some r
    → has_key s.outbox_keys (fell_through_key r.id) ≡ true
    → (fallback_assignment now job_id reason actor s).1.outbox ≡ s.outbox
unfolding fallback_assignment record_audit outbox_for_event
fallback_assignment-taken now job_id reason actor s r e taken =
    elim (Option-cases (find_active_assignment job_id s)) [
      | inl f ↦ rw (e, f, fallback_assignment)
      | inr (a, f) ↦ elim (Bool-cases (can_transition r.status JobStatus.quoted)) [
        | inr g ↦ rw (e, f, g, fallback_assignment)
        | inl g ↦
            rw (e, f, g, fallback_assignment)
              (record_event_silent now r.id actor EventType.assignment_fell_through _ _ _ refl
                taken)
      ]
    ]

-- While the key of a job is taken, a round of offers for the job adds no message.
pub create_offers-taken :
    (now job_id : ℕ) (provider_ids : List ℕ) (payout expires_at : ℕ) (actor : Actor)
    (s : MemoryStore)
    → has_key s.outbox_keys (offers_sent_key job_id) ≡ true
    → (create_offers now job_id provider_ids payout expires_at actor s).1.outbox ≡ s.outbox
unfolding create_offers record_audit outbox_for_event
create_offers-taken now job_id provider_ids payout expires_at actor s taken =
    let after = (offer_each now job_id payout expires_at provider_ids s).1 in
    let kept =
      offer_each_keeps (SameOutbox s) now job_id payout expires_at
        (λ provider_id t h. record { outbox = h.outbox; keys = h.keys }) provider_ids s
        (record { outbox = refl; keys = refl }) in
    record_event_silent now job_id actor EventType.offers_sent _ after _ refl (rw kept.keys taken)
    ∙ kept.outbox
