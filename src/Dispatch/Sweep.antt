-- ===== src/Dispatch/Sweep.antt =====
-- The sweep of apps/api/src/lib/dispatch.ts moves no job, and re-offers only what is uncovered.
use rescue.Contracts.Errors.{AppError}
use rescue.Contracts.Job.{JobStatus}
use rescue.Dispatch.{
  Outcome, SweepResult, add_outcome, cover, cover_each, cover_unassigned, is_approved, is_pending,
  run_sweep,
}
use rescue.Prelude.{
  ===_eq, Option-cases, [], any, false, find, find-any, none, some, suc, true, ◌===◌, ◌∷◌, ◌≡◌,
}
use rescue.Store.Action.{Result, Result-cases, err, ok}
use rescue.Store.Frame.{expire_offers-SameWork}
use rescue.Store.Jobs.{find_job}
use rescue.Store.Offers.{expire_offers, find_active_assignment, list_offers_for_job}
use rescue.Store.Quotes.{list_quotes_for_job}
use rescue.Store.Types.{Scope}
use rescue.Dispatch.{
  Maps, SweepConfig, asked_providers, automatic_rounds_so_far, escalate, next_round, rank_for_job,
  reoffer,
}
use rescue.Outbox.{EscalationReason, Payload}
use rescue.Prelude.{Bool-cases, List, inl, inr, leb, length, refl, ◌==◌, ◌∙◌}
use rescue.Store.Frame.{SameWork, create_offers-SameWork}
use rescue.Store.Jobs.{record_job_event}
use rescue.Store.State.{record_event}
use rescue.Store.Types.{Actor, Job, MemoryStore, StoredOffer, StoredQuote}
use rescue.Contracts.Commerce.{quote_status_coded, offer_status_coded}
use rescue.Contracts.Job.{job_status_coded}
use rescue.Prelude.{ℕ, arith}

SameWork-trans : (s t u : MemoryStore) → SameWork s t → SameWork t u → SameWork s u
SameWork-trans s t u h k = record {
  jobs = k.jobs ∙ h.jobs;
  assignments = k.assignments ∙ h.assignments;
}

SameWork-refl : (s : MemoryStore) → SameWork s s
SameWork-refl s = record { jobs = refl; assignments = refl }

escalate-SameWork :
    (now job_id : ℕ) (reason : EscalationReason) (actor : Actor) (payload : Payload)
    (s : MemoryStore)
    → SameWork s (escalate now job_id reason actor payload s).1
unfolding escalate record_job_event record_event
escalate-SameWork now job_id reason actor payload s = record {
  jobs = ground arith;
  assignments = ground arith;
}

reoffer-SameWork :
    (config : SweepConfig) (maps : Maps) (now job_id : ℕ) (job : Job) (offers : List StoredOffer)
    (approved : StoredQuote) (actor : Actor) (s : MemoryStore)
    → SameWork s (reoffer config maps now job_id job offers approved actor s).1
unfolding reoffer
reoffer-SameWork config maps now job_id job offers approved actor s =
    elim (Bool-cases (leb config.max_rounds (automatic_rounds_so_far config (length offers)))) [
      | inl e ↦ rw (reoffer, e) (escalate-SameWork now job_id _ actor _ s)
      | inr e ↦
          elim (Bool-cases (
            length (next_round config (asked_providers offers) (rank_for_job s job now maps))
            == 0)) [
              | inl f ↦ rw (reoffer, e, f) (escalate-SameWork now job_id _ actor _ s)
              | inr f ↦ rw (reoffer, e, f) (create_offers-SameWork now job_id _ _ _ actor s)
            ]
    ]

pub record IsUncovered (job_id : ℕ) (s : MemoryStore) : Type 0 where
  -- the job waits for a carrier
  pub quoted :
      (job : Job) × (find_job job_id Scope.staff s ≡ some job) × (job.status ≡ JobStatus.quoted)
  -- nobody holds it
  pub free : find_active_assignment job_id s ≡ none
  -- nobody has been asked and can still answer
  pub idle : any is_pending (list_offers_for_job job_id s) ≡ false
  -- the customer has agreed to a price
  pub agreed :
      (quotes : List StoredQuote) × ((list_quotes_for_job job_id Scope.staff s).0 ≡ ok quotes)
      × (any is_approved quotes ≡ true)

module _ {ℓ} (P : Result Outcome × MemoryStore → Type ℓ) (config : SweepConfig) (maps : Maps)
    (now job_id : ℕ) (actor : Actor) (s : MemoryStore) (skip : P (ok Outcome.skipped, s))
    (fail : (e : AppError) → P (err e, s)) where
  -- The ways through `cover`.
  cover_unassigned_cases :
      (job : Job)
      → ((quotes : List StoredQuote) (approved : StoredQuote)
          → any is_pending (list_offers_for_job job_id s) ≡ false
          → (list_quotes_for_job job_id Scope.staff s).0 ≡ ok quotes
          → find is_approved quotes ≡ some approved
          → P (reoffer config maps now job_id job (list_offers_for_job job_id s) approved actor s))
      → P (cover_unassigned config maps now job_id job actor s)
  unfolding cover_unassigned
  cover_unassigned_cases job go =
      elim (Bool-cases (any is_pending (list_offers_for_job job_id s))) [
        | inl e ↦ rw (cover_unassigned, e) skip
        | inr e ↦ elim (Result-cases (list_quotes_for_job job_id Scope.staff s).0) [
          | inl (x, f) ↦ rw (cover_unassigned, e, f) (fail x)
          | inr (quotes, f) ↦ elim (Option-cases (find is_approved quotes)) [
            | inl g ↦ rw (cover_unassigned, e, f, g) skip
            | inr (approved, g) ↦ rw (cover_unassigned, e, f, g) (go quotes approved e f g)
          ]
        ]
      ]

  pub cover_cases :
      ((job : Job) (approved : StoredQuote)
        → IsUncovered job_id s
        → find_job job_id Scope.staff s ≡ some job
        → P (reoffer config maps now job_id job (list_offers_for_job job_id s) approved actor s))
      → P (cover config maps now job_id actor s)
  unfolding cover
  cover_cases go = elim (Option-cases (find_job job_id Scope.staff s)) [
    | inl e ↦ rw (cover, e) skip
    | inr (job, e) ↦ elim (Bool-cases (job.status === JobStatus.quoted)) [
      | inr f ↦ rw (cover, e, f) skip
      | inl f ↦ elim (Option-cases (find_active_assignment job_id s)) [
        | inr (a, g) ↦ rw (cover, e, f, g) skip
        | inl g ↦
            rw (cover, e, f, g)
              (cover_unassigned_cases job (λ quotes approved idle q found.
                go job approved
                  (record {
                    quoted = (job, e, ===_eq job.status JobStatus.quoted f);
                    free = g;
                    idle = idle;
                    agreed = (quotes, q, find-any is_approved quotes approved found);
                  })
                  e))
      ]
    ]
  ]

cover-SameWork :
    (config : SweepConfig) (maps : Maps) (now job_id : ℕ) (actor : Actor) (s : MemoryStore)
    → SameWork s (cover config maps now job_id actor s).1
cover-SameWork config maps now job_id actor s =
    cover_cases (λ r. SameWork s r.1) config maps now job_id actor s (SameWork-refl s)
      (λ e. SameWork-refl s)
      (λ job approved h found. reoffer-SameWork config maps now job_id job _ approved actor s)

cover_each-SameWork :
    (config : SweepConfig) (maps : Maps) (clock : ℕ → ℕ) (job_ids : List ℕ) (actor : Actor)
    (result : SweepResult) (s : MemoryStore)
    → SameWork s (cover_each config maps clock job_ids actor result s).1
unfolding cover_each
cover_each-SameWork config maps clock [] actor result s = SameWork-refl s
cover_each-SameWork config maps clock (job_id ∷ rest) actor result s =
    let here = cover-SameWork config maps (clock 0) job_id actor s in
    elim (Result-cases (cover config maps (clock 0) job_id actor s).0) [
      | inl (x, f) ↦ rw (cover_each, f) here
      | inr (o, f) ↦
          rw (cover_each, f)
            (SameWork-trans s _ _ here (
              cover_each-SameWork config maps (λ n. clock (suc n)) rest actor
                (add_outcome job_id o result) (cover config maps (clock 0) job_id actor s).1))
    ]

-- A sweep moves no job and touches no assignment, whether it finishes or fails on the way.
pub run_sweep-SameWork :
    (config : SweepConfig) (maps : Maps) (clock : ℕ → ℕ) (actor : Actor) (s : MemoryStore)
    → SameWork s (run_sweep config maps clock actor s).1
unfolding run_sweep
run_sweep-SameWork config maps clock actor s =
    SameWork-trans s (expire_offers (clock 0) actor s).1 _
      (expire_offers-SameWork (clock 0) actor s)
      (cover_each-SameWork config maps (λ n. clock (suc n)) _ actor _ _)
