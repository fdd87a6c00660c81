-- ===== src/System/Sweeps.antt =====
-- A sweep of apps/api/src/lib/dispatch.ts acts on the store by a history of method calls.
use rescue.Dispatch.{
  add_outcome, Maps, SweepConfig, SweepResult, asked_providers, automatic_rounds_so_far,
  carried_payout, cover, cover_each, escalate, next_round, rank_for_job, reoffer, run_sweep,
}
use rescue.Dispatch.Sweep.{cover_cases}
use rescue.Outbox.{EscalationReason, EventType, Key, Payload, Value}
use rescue.Prelude.{
  Bool-cases, List, [], arith, inl, inr, leb, length, map, suc, ℕ, ◌*◌, ◌++◌, ◌+◌, ◌==◌, ◌∷◌,
}
use rescue.Store.Calls.{Call, perform}
use rescue.Store.Offers.{expire_offers, list_offers_for_job}
use rescue.Store.Types.{Actor, Job, StoredOffer, StoredQuote}
use rescue.System.Effects.{IsRun, Runs, Runs-bind, Runs-call, Runs-pure, and_then, one_call, stays}

escalate-Runs :
    (now job_id : ℕ) (reason : EscalationReason) (actor : Actor) (payload : Payload)
    → Runs (escalate now job_id reason actor payload)
unfolding escalate perform
escalate-Runs now job_id reason actor payload =
    Runs-call
      (Call.records_job_event now job_id EventType.dispatch_escalated
        (payload ++ (Key.reason, Value.escalation reason) ∷ []) actor)
      (λ s. ground arith)

reoffer-Runs :
    (config : SweepConfig) (maps : Maps) (now job_id : ℕ) (job : Job) (offers : List StoredOffer)
    (approved : StoredQuote) (actor : Actor)
    → Runs (reoffer config maps now job_id job offers approved actor)
unfolding reoffer perform
reoffer-Runs config maps now job_id job offers approved actor = record {
  effect = λ s.
      let next = next_round config (asked_providers offers) (rank_for_job s job now maps) in
      elim (Bool-cases (leb config.max_rounds (automatic_rounds_so_far config (length offers)))) [
        | inl e ↦ rw (reoffer, e) ((escalate-Runs now job_id _ actor _).effect s)
        | inr e ↦ elim (Bool-cases (length next == 0)) [
          | inl f ↦ rw (reoffer, e, f) ((escalate-Runs now job_id _ actor _).effect s)
          | inr f ↦
              rw (reoffer, e, f)
                (one_call
                  (Call.creates_offers now job_id (map (λ c. c.provider_id) next)
                    (carried_payout offers approved) (now + config.offer_ttl_minutes * 60_000)
                    actor)
                  s)
        ]
      ];
}

cover-Runs :
    (config : SweepConfig) (maps : Maps) (now job_id : ℕ) (actor : Actor)
    → Runs (cover config maps now job_id actor)
cover-Runs config maps now job_id actor = record {
  effect = λ s.
      cover_cases (λ r. IsRun s r.1) config maps now job_id actor s (stays s) (λ e. stays s)
        (λ job approved h found.
          (reoffer-Runs config maps now job_id job (list_offers_for_job job_id s) approved
              actor).effect
            s);
}

cover_each-Runs :
    (config : SweepConfig) (maps : Maps) (clock : ℕ → ℕ) (job_ids : List ℕ) (actor : Actor)
    (result : SweepResult)
    → Runs (cover_each config maps clock job_ids actor result)
unfolding cover_each
cover_each-Runs config maps clock [] actor result = Runs-pure
cover_each-Runs config maps clock (job_id ∷ rest) actor result =
    Runs-bind (cover-Runs config maps (clock 0) job_id actor) (λ o.
      cover_each-Runs config maps (λ n. clock (suc n)) rest actor (add_outcome job_id o result))

pub run_sweep-Runs :
    (config : SweepConfig) (maps : Maps) (clock : ℕ → ℕ) (actor : Actor)
    → Runs (run_sweep config maps clock actor)
unfolding run_sweep perform
run_sweep-Runs config maps clock actor = record {
  effect = λ s.
      let (swept, t) = expire_offers (clock 0) actor s in
      and_then s t _ (one_call (Call.expires_offers (clock 0) actor) s)
        ((cover_each-Runs config maps (λ n. clock (suc n)) swept.job_ids actor _).effect t);
}
