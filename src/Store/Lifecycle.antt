-- ===== src/Store/Lifecycle.antt =====
-- Job statuses under the methods of apps/api/src/store/memory.ts: every write follows
-- `JOB_TRANSITIONS` of packages/contracts/src/job.ts.
use rescue.Contracts.Job.{CreateJobInput, JobStatus, can_transition}
use rescue.Prelude.{
  Bool, Bool-cases, List, Option, Option-cases, String, [], arith, false, inl, inr, none, refl,
  some, sym, true, ℕ, ◌==◌, ◌∙◌, ◌∷◌, ◌≡◌, ◌⊎◌,
}
use rescue.Prelude.Table.{Table, get, get-set, set}
use rescue.Store.Accepting.{accept_offer_cases}
use rescue.Store.Calls.{Call, perform, run}
use rescue.Store.Evidence.{create_evidence, mark_evidence_uploaded}
use rescue.Store.Frame.{
  append_ledger_entries-SameWork, create_offers-SameWork, expire_offers-SameWork,
}
use rescue.Store.People.{erase_person, record_suggestion}
use rescue.Store.Idempotency.{find_idempotency_record, run_retention, save_idempotency_record}
use rescue.Store.Jobs.{
  TransitionInput, create_job, moved_record, record_both, record_job_event, transition_job,
}
use rescue.Store.Offers.{
  accept_offer, award, decline_offer, fallback_assignment, find_active_assignment,
}
use rescue.Store.Providers.{
  create_document, create_provider, create_vehicle, review_document, set_provider_availability,
  set_provider_status,
}
use rescue.Store.Queue.{claim_outbox, mark_outbox_delivered, mark_outbox_failed}
use rescue.Store.Quotes.{create_quote, decide_quote}
use rescue.Store.State.{new_id, record_audit, record_event, visible, visible_job}
use rescue.Store.Types.{Actor, JobRecord, MemoryStore, StoredOffer}

-- What became of a job that had status `a`: it is still there, as it was or one step on.
abbrev pub Moves : JobStatus → Option JobRecord → Type 0
Moves a none = ⊥
Moves a (some r) = (a ≡ r.status) ⊎ (can_transition a r.status ≡ true)

-- The next id of the generator is no job's.
abbrev pub IsFresh : MemoryStore → Type 0
IsFresh s = get s.jobs (new_id s) ≡ none

set-Moves :
    (t : Table JobRecord) (j k : ℕ) (old new r : JobRecord)
    → get t j ≡ some old
    → can_transition old.status new.status ≡ true
    → get t k ≡ some r
    → Moves r.status (get (set t j new) k)
set-Moves t j k old new r e step found = elim (Bool-cases (j == k)) [
  | inl same ↦ rw (get-set t j k new, same) (inr (ground arith))
  | inr other ↦ rw (get-set t j k new, other, found) (inl refl)
]

stays-Moves :
    (t : Table JobRecord) (k : ℕ) (r : JobRecord) → get t k ≡ some r → Moves r.status (get t k)
stays-Moves t k r e = rw e (inl refl)

transition_job-Moves :
    (now : ℕ) (input : TransitionInput) (s : MemoryStore) (k : ℕ) (r : JobRecord)
    → get s.jobs k ≡ some r
    → Moves r.status (get (transition_job now input s).1.jobs k)
unfolding transition_job record_both record_event record_audit visible_job
transition_job-Moves now input s k r e = elim (Option-cases (get s.jobs input.job_id)) [
  | inl f ↦ rw (f, transition_job) (stays-Moves s.jobs k r e)
  | inr (old, f) ↦ elim (Bool-cases (visible s old input.scope)) [
    | inr hidden ↦ rw (f, hidden, transition_job) (stays-Moves s.jobs k r e)
    | inl seen ↦ elim (Bool-cases (can_transition old.status input.to)) [
      | inr no' ↦ rw (f, seen, no', transition_job) (stays-Moves s.jobs k r e)
      | inl allowed ↦
          rw (f, seen, allowed, transition_job)
            (set-Moves s.jobs input.job_id k old (moved_record now input old) r f allowed e)
    ]
  ]
]

award-Moves :
    (now offer_id : ℕ) (offer : StoredOffer) (old : JobRecord) (actor : Actor) (s : MemoryStore)
    (k : ℕ) (r : JobRecord)
    → get s.jobs offer.job_id ≡ some old
    → can_transition old.status JobStatus.assigned ≡ true
    → get s.jobs k ≡ some r
    → Moves r.status (get (award now offer_id offer old actor s).1.jobs k)
unfolding award record_event record_audit
award-Moves now offer_id offer old actor s k r f step e =
    set-Moves s.jobs offer.job_id k old
      (record old { status = JobStatus.assigned; updated_at = now }) r f step e

accept_offer-Moves :
    (offer_id provider_id now : ℕ) (actor : Actor) (s : MemoryStore) (k : ℕ) (r : JobRecord)
    → get s.jobs k ≡ some r
    → Moves r.status (get (accept_offer offer_id provider_id now actor s).1.jobs k)
accept_offer-Moves offer_id provider_id now actor s k r e =
    accept_offer_cases (λ o. Moves r.status (get o.1.jobs k)) offer_id provider_id now actor s
      (λ _. stays-Moves s.jobs k r e) (λ _ _ _ _. stays-Moves s.jobs k r e)
      λ offer old _ _ _ _ _ f step. award-Moves now offer_id offer old actor s k r f step e

fallback_assignment-Moves :
    (now job_id : ℕ) (reason : Option String) (actor : Actor) (s : MemoryStore) (k : ℕ)
    (r : JobRecord)
    → get s.jobs k ≡ some r
    → Moves r.status (get (fallback_assignment now job_id reason actor s).1.jobs k)
unfolding fallback_assignment record_event record_audit
fallback_assignment-Moves now job_id reason actor s k r e =
    elim (Option-cases (get s.jobs job_id)) [
      | inl f ↦ rw (f, fallback_assignment) (stays-Moves s.jobs k r e)
      | inr (old, f) ↦ elim (Option-cases (find_active_assignment job_id s)) [
        | inl g ↦ rw (f, g, fallback_assignment) (stays-Moves s.jobs k r e)
        | inr (a, g) ↦ elim (Bool-cases (can_transition old.status JobStatus.quoted)) [
          | inr refused ↦ rw (f, g, refused, fallback_assignment) (stays-Moves s.jobs k r e)
          | inl step ↦
              rw (f, g, step, fallback_assignment)
                (set-Moves s.jobs job_id k old
                  (record old { status = JobStatus.quoted; updated_at = now }) r f step e)
        ]
      ]
    ]

create_job-Moves :
    (now organization_id : ℕ) (input : CreateJobInput) (actor : Actor) (s : MemoryStore) (k : ℕ)
    (r : JobRecord)
    → IsFresh s
    → get s.jobs k ≡ some r
    → Moves r.status (get (create_job now organization_id input actor s).1.jobs k)
unfolding create_job record_both record_event record_audit
create_job-Moves now organization_id input actor s k r fresh e = elim (Bool-cases (new_id s == k)) [
  | inl same ↦ absurd (ground (arith, fresh, e))
  | inr other ↦ rw (get-set s.jobs (new_id s) k _, other, e) (inl refl)
]

abbrev pub leaves_jobs : Call → Bool
leaves_jobs (Call.creates_job _ _ _ _) = false
leaves_jobs (Call.transitions_job _ _) = false
leaves_jobs (Call.accepts_offer _ _ _ _) = false
leaves_jobs (Call.falls_back _ _ _ _) = false
leaves_jobs (Call.creates_offers _ _ _ _ _ _) = false
leaves_jobs (Call.expires_offers _ _) = false
leaves_jobs (Call.appends_ledger _ _ _) = false
leaves_jobs _ = true

perform-jobs : (c : Call) (s : MemoryStore) → leaves_jobs c ≡ true → (perform c s).jobs ≡ s.jobs
unfolding perform record_job_event create_provider set_provider_status set_provider_availability
    create_vehicle create_document review_document create_quote decide_quote decline_offer
    create_evidence mark_evidence_uploaded claim_outbox mark_outbox_delivered mark_outbox_failed
    find_idempotency_record save_idempotency_record run_retention erase_person record_suggestion
perform-jobs (Call.creates_job _ _ _ _) s h = cc
perform-jobs (Call.transitions_job _ _) s h = cc
perform-jobs (Call.accepts_offer _ _ _ _) s h = cc
perform-jobs (Call.falls_back _ _ _ _) s h = cc
perform-jobs (Call.creates_offers _ _ _ _ _ _) s h = cc
perform-jobs (Call.expires_offers _ _) s h = cc
perform-jobs (Call.appends_ledger _ _ _) s h = cc
perform-jobs c s h = ground arith

same_jobs-Moves :
    {t u : Table JobRecord} (k : ℕ) (r : JobRecord)
    → u ≡ t
    → get t k ≡ some r
    → Moves r.status (get u k)
same_jobs-Moves {t} k r same e = rw same (stays-Moves t k r e)

-- Whatever a call does, a job that was in the store is still there afterwards, and its status is as
-- it was or has taken one allowed transition. The next id of the generator is no job's.
pub perform-Moves :
    (c : Call) (s : MemoryStore) (k : ℕ) (r : JobRecord)
    → IsFresh s
    → get s.jobs k ≡ some r
    → Moves r.status (get (perform c s).jobs k)
unfolding perform
perform-Moves (Call.creates_job now organization_id input actor) s k r fresh e =
    create_job-Moves now organization_id input actor s k r fresh e
perform-Moves (Call.transitions_job now input) s k r fresh e =
    transition_job-Moves now input s k r e
perform-Moves (Call.accepts_offer offer_id provider_id now actor) s k r fresh e =
    accept_offer-Moves offer_id provider_id now actor s k r e
perform-Moves (Call.falls_back now job_id reason actor) s k r fresh e =
    fallback_assignment-Moves now job_id reason actor s k r e
perform-Moves (Call.creates_offers now job_id providers payout expires_at actor) s k r fresh e =
    same_jobs-Moves k r (create_offers-SameWork now job_id providers payout expires_at actor s).jobs
      e
perform-Moves (Call.expires_offers now actor) s k r fresh e =
    same_jobs-Moves k r (expire_offers-SameWork now actor s).jobs e
perform-Moves (Call.appends_ledger now entries actor) s k r fresh e =
    same_jobs-Moves k r (append_ledger_entries-SameWork now actor entries s).jobs e
perform-Moves c s k r fresh e = same_jobs-Moves k r (perform-jobs c s refl) e

-- Every id that a history draws for a job is new when it is drawn.
abbrev pub StaysFresh : List Call → MemoryStore → Type 0
StaysFresh [] s = Unit
StaysFresh (c ∷ calls) s = IsFresh s × StaysFresh calls (perform c s)

-- A job that is completed or cancelled stays so.
abbrev pub is_final : JobStatus → Bool
is_final JobStatus.completed = true
is_final JobStatus.cancelled = true
is_final _ = false

final-Moves :
    (a : JobStatus) (o : Option JobRecord)
    → is_final a ≡ true
    → Moves a o
    → (r : JobRecord) × (o ≡ some r) × (r.status ≡ a)
unfolding can_transition
final-Moves a none f m = absurd m
final-Moves a (some r) f (inl same) = (r, refl, sym same)
final-Moves a (some r) f (inr step) = absurd (ground arith)

-- No history of calls takes a job out of COMPLETED or CANCELLED, or removes it. Every id drawn for
-- a job is new.
pub run_final :
    (calls : List Call) (s : MemoryStore) (k : ℕ) (r : JobRecord)
    → StaysFresh calls s
    → get s.jobs k ≡ some r
    → is_final r.status ≡ true
    → (r' : JobRecord) × (get (run calls s).jobs k ≡ some r') × (r'.status ≡ r.status)
unfolding run
run_final [] s k r fresh e f = (r, e, refl)
run_final (c ∷ calls) s k r (fresh, rest) e f =
    let (q, found, same) = final-Moves r.status _ f (perform-Moves c s k r fresh e) in
    let (last, found', same') = run_final calls (perform c s) k q rest found (rw same f) in
    (last, found', same' ∙ same)
