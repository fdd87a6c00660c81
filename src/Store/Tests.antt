-- ===== src/Store/Tests.antt =====
-- A store of apps/api/src/store/memory.ts with one quoted job and two open offers, and what the
-- methods do to it.
use rescue.Store.State.{record_audit}
use rescue.Contracts.Ops.{OutboxTopic}
use rescue.Outbox.{EventType, Key, Value, dedupe_key_for, outbox_for_event}
use rescue.Prelude.Table.{get}
use rescue.Store.Assignments.{OneActive, run-OneActive}
use rescue.Store.Awards.{Won, accept_offer_excludes, accept_offer_wins}
use rescue.Store.Calls.{Call, perform, run}
use rescue.Store.Lifecycle.{Moves, StaysFresh, perform-Moves, run_final}
use rescue.Store.Logs.{Keeps, perform-Keeps}
use rescue.Store.Offers.{withdraw_other}
use rescue.Store.Publishing.{record_event_once}
use rescue.Store.Silent.{create_offers_silent, fallback_assignment_silent}
use rescue.Contracts.Auth.{UserRole}
use rescue.Contracts.Commerce.{OfferStatus}
use rescue.Contracts.Job.{can_transition, JobStatus, JobType, Urgency}
use rescue.Prelude.{List, [], false, none, refl, some, ℕ, ◌+◌, ◌∷◌, ◌≡◌}
use rescue.Store.Action.{is_ok, ok}
use rescue.Store.Offers.{
  find_active_assignment, create_offers, fallback_assignment, accept_open, AcceptOfferResult,
  accept_offer, accepted, award, new_assignment,
}
use rescue.Store.State.{record_event, to_job}
use rescue.Store.Types.{Actor, JobRecord, MemoryStore, StoredOffer}
use rescue.Contracts.Job.{CreateJobInput}
use rescue.Prelude.{arith}

abbrev pub staff : Actor
staff = record { user_id = some 5; role = UserRole.dispatcher; correlation_id = none }

abbrev pub bulky_return : CreateJobInput
bulky_return = record {
  type = JobType.bulky_return;
  urgency = Urgency.same_day;
  pickup = record { line1 = "Lindenweg 4"; postal_code = "10115"; city = "Berlin" };
  destination = none;
  items =
      record { name = "sofa"; quantity = 1; estimated_weight_g = some 60_000; dimensions_cm = none }
      ∷ [];
  stairs = 2;
  lift_available = false;
  customer_reference = none;
  notes = none;
}

abbrev pub quoted_job : JobRecord
quoted_job = record {
  id = 1;
  organization_id = 7;
  status = JobStatus.quoted;
  input = bulky_return;
  approved = none;
  created_at = 10;
  updated_at = 20;
}

abbrev pub open_offer : ℕ → ℕ → StoredOffer
open_offer id provider_id = record {
  id = id;
  job_id = 1;
  provider_id = provider_id;
  status = OfferStatus.pending;
  payout_net_cents = 9_000;
  expires_at = 1_000;
  responded_at = none;
  decline_reason = none;
  created_at = 30;
}

abbrev pub two_offers : MemoryStore
two_offers = record {
  users = [];
  jobs = (1, quoted_job) ∷ [];
  providers = [];
  vehicles = [];
  documents = [];
  quotes = [];
  offers = (2, open_offer 2 21) ∷ (3, open_offer 3 22) ∷ [];
  assignments = [];
  evidence = [];
  idempotency = [];
  outbox = [];
  outbox_keys = [];
  ledger = [];
  suggestions = [];
  events = [];
  audit = [];
  new_ids = λ n. n + 100;
  drawn = 0;
}

abbrev assigned_store : MemoryStore
assigned_store = (accept_offer 2 21 500 staff two_offers).1

abbrev first_win : AcceptOfferResult
first_win = record {
  offer = accepted 500 (open_offer 2 21);
  assignment = new_assignment 500 100 (open_offer 2 21);
  job = to_job (record quoted_job { status = JobStatus.assigned; updated_at = 500 });
}

one_winner : accept_offer 2 21 500 staff two_offers ≡ (ok first_win, assigned_store)
unfolding accept_offer award accept_open find_active_assignment can_transition
one_winner = refl

accept_offer_wins_example : Won 2 500 two_offers first_win assigned_store
accept_offer_wins_example =
    accept_offer_wins 2 21 500 staff two_offers assigned_store first_win
      (refl, refl, (refl, refl, tt)) one_winner

second_offer : get assigned_store.offers 3 ≡ some (withdraw_other 500 1 2 (open_offer 3 22))
unfolding accept_offer award accept_open find_active_assignment can_transition record_audit
    record_event
second_offer = refl

accept_offer_excludes_example : is_ok (accept_offer 3 22 600 staff assigned_store).0 ≡ false
accept_offer_excludes_example =
    accept_offer_excludes 2 21 500 staff 3 22 600 staff two_offers assigned_store first_win
      (open_offer 2 21) (withdraw_other 500 1 2 (open_offer 3 22)) (refl, refl, (refl, refl, tt))
      refl one_winner second_offer refl

abbrev history : List Call
history =
    Call.accepts_offer 2 21 500 staff
    ∷ Call.falls_back 600 1 none staff
    ∷ Call.accepts_offer 3 22 700 staff
    ∷ []

run-OneActive_example : OneActive (run history two_offers)
run-OneActive_example = run-OneActive history two_offers (λ job_id. omega arith)

perform-Moves_example :
    Moves JobStatus.quoted (get (perform (Call.accepts_offer 2 21 500 staff) two_offers).jobs 1)
perform-Moves_example =
    perform-Moves (Call.accepts_offer 2 21 500 staff) two_offers 1 quoted_job refl refl

abbrev finished_job : JobRecord
finished_job = record quoted_job { status = JobStatus.completed }

abbrev finished : MemoryStore
finished = record two_offers { jobs = (1, finished_job) ∷ [] }

history-StaysFresh : StaysFresh history finished
unfolding perform accept_offer fallback_assignment award accept_open find_active_assignment
    can_transition
history-StaysFresh = (refl, (refl, (refl, tt)))

run_final_example :
    (r : JobRecord) × (get (run history finished).jobs 1 ≡ some r)
    × (r.status ≡ JobStatus.completed)
run_final_example = run_final history finished 1 finished_job history-StaysFresh refl refl

perform-Keeps_example : Keeps two_offers (perform (Call.accepts_offer 2 21 500 staff) two_offers)
perform-Keeps_example = perform-Keeps (Call.accepts_offer 2 21 500 staff) two_offers

job_created_twice :
    outbox_for_event 1 EventType.job_created []
    ≡ some (record {
      topic = OutboxTopic.job_created;
      dedupe_key = dedupe_key_for OutboxTopic.job_created 1 [];
      job_id = 1;
      payload = (Key.event_type, Value.event EventType.job_created) ∷ [];
    })
unfolding outbox_for_event
job_created_twice = refl

record_event_once_example :
    (record_event 60 1 staff EventType.job_created []
      (record_event 50 1 staff EventType.job_created [] two_offers)).outbox
    ≡ (record_event 50 1 staff EventType.job_created [] two_offers).outbox
record_event_once_example =
    record_event_once 50 60 1 1 staff staff EventType.job_created EventType.job_created [] []
      two_offers _ _ job_created_twice job_created_twice refl

-- The first provider has fallen through, and the second holds the job.
abbrev fallen : MemoryStore
fallen =
    (fallback_assignment 500 1 none staff (record two_offers {
      jobs = (1, record quoted_job { status = JobStatus.assigned }) ∷ [];
      assignments = (101, new_assignment 400 101 (open_offer 2 21)) ∷ [];
    })).1

abbrev taken_again : List Call
taken_again = Call.accepts_offer 3 22 600 staff ∷ []

fallback_assignment_silent_example :
    (fallback_assignment 800 1 none staff (run taken_again fallen)).1.outbox
    ≡ (run taken_again fallen).outbox
unfolding fallback_assignment find_active_assignment can_transition run perform accept_offer
    accept_open award record_event record_audit to_job
fallback_assignment_silent_example =
    fallback_assignment_silent 500 800 1 none none staff staff taken_again
      (record two_offers {
        jobs = (1, record quoted_job { status = JobStatus.assigned }) ∷ [];
        assignments = (101, new_assignment 400 101 (open_offer 2 21)) ∷ [];
      })
      fallen (to_job (record quoted_job { status = JobStatus.quoted; updated_at = 500 }))
      (refl, refl, tt) (refl, refl, tt) refl refl

abbrev first_round : MemoryStore
first_round = (create_offers 500 1 (23 ∷ []) 9_000 2_000 staff two_offers).1

create_offers_silent_example :
    (create_offers 800 1
      (24 ∷ [])
      9_500
      3_000
      staff
      (run (Call.expires_offers 700 staff ∷ []) first_round)).1.outbox
    ≡ (run (Call.expires_offers 700 staff ∷ []) first_round).outbox
create_offers_silent_example =
    create_offers_silent 500 800 1 (23 ∷ []) (24 ∷ []) 9_000 9_500 2_000 3_000 staff staff
      (Call.expires_offers 700 staff ∷ []) two_offers refl
