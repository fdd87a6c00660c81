-- ===== src/Store/Silent.antt =====
-- The fall-throughs and the rounds of offers of a job after its first, in
-- apps/api/src/store/memory.ts, and the keys that apps/api/src/lib/outbox.ts gives them.
use rescue.Contracts.Job.{JobStatus, can_transition}
use rescue.Outbox.{EventType, outbox_for_event}
use rescue.Prelude.{
  sym, subst, Bool-cases, List, Option, Option-cases, String, any, arith, false, inl, inr, refl,
  true, ℕ, ◌≡◌,
}
use rescue.Prelude.Keyed.{Keyed, get-Keyed}
use rescue.Prelude.Table.{get}
use rescue.Store.Action.{ok}
use rescue.Store.Calls.{Call, run}
use rescue.Store.Offers.{create_offers, fallback_assignment, find_active_assignment}
use rescue.Store.Published.{is_retention, run-KeepsKeys}
use rescue.Store.Publishing.{
  create_offers-taken, fallback_assignment-taken, fell_through_key, offers_sent_key,
  record_event-has_key,
}
use rescue.Store.State.{has_key, record_audit}
use rescue.Store.Types.{Actor, Job, MemoryStore}

fallback_assignment_publishes :
    (now job_id : ℕ) (reason : Option String) (actor : Actor) (s t : MemoryStore) (job : Job)
    → Keyed (λ r. r.id) s.jobs
    → fallback_assignment now job_id reason actor s ≡ (ok job, t)
    → has_key t.outbox_keys (fell_through_key job_id) ≡ true
unfolding fallback_assignment record_audit outbox_for_event
fallback_assignment_publishes now job_id reason actor s t job keyed e =
    elim (Option-cases (get s.jobs job_id)) [
      | inl f ↦ absurd (ground (arith, e, f))
      | inr (r, f) ↦ elim (Option-cases (find_active_assignment job_id s)) [
        | inl g ↦ absurd (ground (arith, e, f, g))
        | inr (a, g) ↦ elim (Bool-cases (can_transition r.status JobStatus.quoted)) [
          | inr h ↦ absurd (ground (arith, e, f, g, h))
          | inl h ↦
              let own : r.id ≡ job_id = get-Keyed (λ r. r.id) s.jobs job_id r keyed f in
              let made =
                record_event-has_key now r.id actor EventType.assignment_fell_through _ _ _ refl in
              subst (λ x. has_key x.1.outbox_keys (fell_through_key job_id) ≡ true) e
                (rw (f, g, h, fallback_assignment, sym own) made)
        ]
      ]
    ]

-- Once a provider has fallen through on a job, no later fall-through of the job reaches the outbox,
-- whichever provider it is and whatever calls are made in between, unless the retention job runs
-- among them. The jobs stand under their ids.
pub fallback_assignment_silent :
    (now later job_id : ℕ) (reason again : Option String) (actor other : Actor) (calls : List Call)
    (s t : MemoryStore) (job : Job)
    → Keyed (λ r. r.id) s.jobs
    → Keyed (λ r. r.id) (run calls t).jobs
    → any is_retention calls ≡ false
    → fallback_assignment now job_id reason actor s ≡ (ok job, t)
    → (fallback_assignment later job_id again other (run calls t)).1.outbox ≡ (run calls t).outbox
unfolding fallback_assignment
fallback_assignment_silent now later job_id reason again actor other calls s t job keyed still live
      e =
    let taken =
      (run-KeepsKeys calls t live).taken (fell_through_key job_id)
        (fallback_assignment_publishes now job_id reason actor s t job keyed e) in
    elim (Option-cases (get (run calls t).jobs job_id)) [
      | inl f ↦ rw (fallback_assignment, f) refl
      | inr (r, f) ↦
          fallback_assignment-taken later job_id again other (run calls t) r f
            (rw (get-Keyed (λ r. r.id) (run calls t).jobs job_id r still f) taken)
    ]

create_offers_publishes :
    (now job_id : ℕ) (provider_ids : List ℕ) (payout expires_at : ℕ) (actor : Actor)
    (s : MemoryStore)
    → has_key
        (create_offers now job_id provider_ids payout expires_at actor s).1.outbox_keys
        (offers_sent_key job_id)
      ≡ true
unfolding create_offers record_audit outbox_for_event
create_offers_publishes now job_id provider_ids payout expires_at actor s =
    record_event-has_key now job_id actor EventType.offers_sent _ _ _ refl

-- Once a round of offers has been sent for a job, no later round of the job reaches the outbox,
-- whichever providers it asks and whatever calls are made in between, unless the retention job runs
-- among them.
pub create_offers_silent :
    (now later job_id : ℕ) (first second : List ℕ) (payout other_payout expires_at other_time : ℕ)
    (actor other : Actor) (calls : List Call) (s : MemoryStore)
    → any is_retention calls ≡ false
    → let t = (create_offers now job_id first payout expires_at actor s).1 in
      (create_offers later job_id second other_payout other_time other (run calls t)).1.outbox
      ≡ (run calls t).outbox
create_offers_silent now later job_id first second payout other_payout expires_at other_time actor
      other calls s live =
    let t = (create_offers now job_id first payout expires_at actor s).1 in
    create_offers-taken later job_id second other_payout other_time other (run calls t) (
      (run-KeepsKeys calls t live).taken (offers_sent_key job_id)
        (create_offers_publishes now job_id first payout expires_at actor s))
