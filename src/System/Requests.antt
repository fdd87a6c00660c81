-- ===== src/System/Requests.antt =====
-- The steps that the endpoints of apps/api/src/routes are made of act on the store by histories of
-- method calls.
use rescue.Api.Auth.{AuthContext}
use rescue.Api.Guards.{check_holder, require_holder, require_job}
use rescue.Api.Idempotency.{
  KeyedRequest, Runner, Work, answer, key_of, record_for, run_once, run_work,
}
use rescue.Api.Lookup.{run_once_absent, run_once_misses, run_once_finds}
use rescue.Api.Jobs.{TriageService, store_suggestion}
use rescue.Contracts.Auth.{UserRole}
use rescue.Contracts.Job.{CreateJobInput}
use rescue.Prelude.{List, Option, Option-cases, String, arith, inl, inr, refl, ℕ}
use rescue.Store.Action.{Result-cases}
use rescue.Store.Calls.{Call, perform}
use rescue.Store.Evidence.{list_evidence}
use rescue.Store.Idempotency.{find_idempotency_record}
use rescue.Store.Jobs.{TransitionInput, create_job, transition_job}
use rescue.Store.Quotes.{list_quotes_for_job}
use rescue.Store.Types.{Actor, Job, Scope, StoredIdempotencyRecord}
use rescue.System.Effects.{
  Runs, Runs-bind, Runs-call, Runs-of_result, Runs-pure, Runs-silent, and_then, one_call, stays,
}

check_holder-Runs : (auth : AuthContext) (id : ℕ) → Runs (check_holder auth id)
unfolding check_holder
check_holder-Runs auth id = Runs-silent (λ s. ground arith)

pub require_job-Runs : (id : ℕ) (scope : Scope) → Runs (require_job id scope)
unfolding require_job
require_job-Runs id scope = Runs-silent (λ s. ground arith)

pub list_evidence-Runs : (id : ℕ) (scope : Scope) → Runs (list_evidence id scope)
unfolding list_evidence
list_evidence-Runs id scope = Runs-silent (λ s. ground arith)

pub list_quotes-Runs : (id : ℕ) (scope : Scope) → Runs (list_quotes_for_job id scope)
unfolding list_quotes_for_job
list_quotes-Runs id scope = Runs-silent (λ s. ground arith)

pub require_holder-Runs :
    (roles : List UserRole) (caller : Option AuthContext) (id : ℕ)
    → Runs (require_holder roles caller id)
unfolding require_holder
require_holder-Runs roles caller id =
    Runs-bind Runs-of_result (λ auth. Runs-bind (check_holder-Runs auth id) (λ u. Runs-pure))

pub transition_job-Runs : (now : ℕ) (input : TransitionInput) → Runs (transition_job now input)
unfolding perform
transition_job-Runs now input = Runs-call (Call.transitions_job now input) (λ s. refl)

pub create_job-Runs :
    (now organization_id : ℕ) (input : CreateJobInput) (actor : Actor)
    → Runs (create_job now organization_id input actor)
unfolding perform
create_job-Runs now organization_id input actor =
    Runs-call (Call.creates_job now organization_id input actor) (λ s. refl)

pub store_suggestion-Runs :
    (triage : TriageService) (now : ℕ) (job : Job) → Runs (store_suggestion triage now job)
unfolding store_suggestion perform
store_suggestion-Runs triage now job = elim (Option-cases (triage.suggested job)) [
  | inl e ↦ Runs-silent (λ s. rw (store_suggestion, e) refl)
  | inr (given, e) ↦
      Runs-call (Call.records_suggestion now given) (λ s. rw (store_suggestion, e) refl)
]

answer-Runs :
    (runner : Runner) (request : KeyedRequest) (r : StoredIdempotencyRecord)
    → Runs (answer runner request r)
unfolding answer
answer-Runs runner request r = Runs-silent (λ s. ground arith)

run_work-Runs :
    (runner : Runner) (request : KeyedRequest) (key : String) (later : ℕ) (work : Work)
    → Runs work
    → Runs (run_work runner request key later work)
unfolding run_work perform
run_work-Runs runner request key later work h = record {
  effect = λ s. elim (Result-cases (work s).0) [
    | inl (x, e) ↦ rw (run_work, e) (h.effect s)
    | inr (response, e) ↦
        rw (run_work, e)
          (and_then s (work s).1 _ (h.effect s) (
            one_call (Call.saves_idempotency_record (record_for runner request key later response))
              (work s).1))
  ];
}

pub run_once-Runs :
    (runner : Runner) (request : KeyedRequest) (work : Work) (now later : ℕ)
    → Runs work
    → Runs (run_once runner request work now later)
unfolding perform
run_once-Runs runner request work now later h = record {
  effect = λ s. elim (Option-cases (key_of request.key_header)) [
    | inl f ↦ rw (run_once_absent runner request now s f work later) (stays s)
    | inr (key, f) ↦
        let (existing, t) = find_idempotency_record now runner.organization_id key s in
        let looked = one_call (Call.finds_idempotency_record now runner.organization_id key) s in
        elim (Option-cases existing) [
          | inr (r, g) ↦
              rw (run_once_finds runner request now key s f work later r g)
                (and_then s t _ looked ((answer-Runs runner request r).effect t))
          | inl g ↦
              rw (run_once_misses runner request now key s f work later g)
                (and_then s t _ looked ((run_work-Runs runner request key later work h).effect t))
        ]
  ];
}
