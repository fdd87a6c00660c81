-- ===== src/Dispatch/Rounds.antt =====
-- What a round of re-offering in apps/api/src/lib/dispatch.ts consists of.
use rescue.Prelude.{some}
use rescue.Store.Jobs.{find_job}
use rescue.Store.Types.{Scope}
use rescue.Contracts.Provider.{EligibilityResult}
use rescue.Dispatch.{
  Maps, Outcome, SweepConfig, asked_providers, automatic_rounds_so_far, carried_payout, cover,
  escalate, next_round, rank_for_job, reoffer,
}
use rescue.Dispatch.Sweep.{IsUncovered, cover_cases}
use rescue.Outbox.{EscalationReason, EventType, Key, Payload, Value}
use rescue.Prelude.{
  All, All-take, All-map, Bool, Bool-cases, List, [], any, false, inl, inr, leb, length,
  length-take, map, not, refl, select, select_passes, subst, true, ◌&&◌, ◌*◌, ◌++◌, ◌+◌, ◌<◌, ◌==◌,
  ◌∷◌, ◌≡◌, ◌≤◌,
}
use rescue.Store.Action.{Result, Result-cases, err, ok}
use rescue.Store.Jobs.{record_job_event}
use rescue.Store.Offers.{create_offers, list_offers_for_job}
use rescue.Store.Types.{Actor, Job, MemoryStore, StoredQuote}
use rescue.Contracts.Commerce.{quote_status_coded, offer_status_coded}
use rescue.Prelude.{ℕ, arith}

abbrev pub is_asked : ℕ → MemoryStore → EligibilityResult → Bool
is_asked job_id s c =
    any (λ id. id == c.provider_id) (asked_providers (list_offers_for_job job_id s))

-- The offers of one automatic round, from the state `s` to the state `t`.
pub record IsRound (config : SweepConfig) (maps : Maps) (now job_id : ℕ) (actor : Actor)
    (s t : MemoryStore) : Type 0 where
  pub bounded :
      automatic_rounds_so_far config (length (list_offers_for_job job_id s)) < config.max_rounds
  pub next : List EligibilityResult
  pub payout : ℕ
  -- the next of the ranking, in its order
  pub chosen :
      (job : Job) × (find_job job_id Scope.staff s ≡ some job)
      × (next
          ≡ next_round config
              (asked_providers (list_offers_for_job job_id s))
              (rank_for_job s job now maps))
  pub offered :
      t
      ≡ (create_offers now job_id
          (map (λ c. c.provider_id) next)
          payout
          (now + config.offer_ttl_minutes * 60_000)
          actor
          s).1
  pub nonempty : 0 < length next
  pub few : length next ≤ config.providers_per_round
  pub fresh : All (λ c. (c.eligible ≡ true) × (is_asked job_id s c ≡ false)) next

next_round-All :
    (config : SweepConfig) (asked : List ℕ) (ranked : List EligibilityResult)
    → All
        (λ c. (c.eligible ≡ true) × (any (λ id. id == c.provider_id) asked ≡ false))
        (next_round config asked ranked)
unfolding next_round
next_round-All config asked ranked = All-take _ config.providers_per_round _ (
    All-map (λ c h. ground arith) _
      (select_passes (λ c. c.eligible && not (any (λ id. id == c.provider_id) asked)) ranked))

length-next_round :
    (config : SweepConfig) (asked : List ℕ) (ranked : List EligibilityResult)
    → length (next_round config asked ranked) ≤ config.providers_per_round
unfolding next_round
length-next_round config asked ranked = grind (
  arith,
  length-take config.providers_per_round
      (select (λ c. c.eligible && not (any (λ id. id == c.provider_id) asked)) ranked),
)

abbrev Rounds :
    SweepConfig → Maps → ℕ → ℕ → Actor → MemoryStore → Result Outcome × MemoryStore → Type 0
Rounds config maps now job_id actor s (err _, t) = Unit
Rounds config maps now job_id actor s (ok Outcome.skipped, t) = Unit
Rounds config maps now job_id actor s (ok (Outcome.escalated _), t) = Unit
Rounds config maps now job_id actor s (ok Outcome.reoffered, t) =
    IsUncovered job_id s × IsRound config maps now job_id actor s t

escalate-Rounds :
    (config : SweepConfig) (maps : Maps) (now job_id : ℕ) (reason : EscalationReason)
    (actor : Actor) (payload : Payload) (s : MemoryStore)
    → Rounds config maps now job_id actor s (escalate now job_id reason actor payload s)
unfolding escalate
escalate-Rounds config maps now job_id reason actor payload s =
    elim (Result-cases
      (record_job_event now job_id EventType.dispatch_escalated
        (payload ++ (Key.reason, Value.escalation reason) ∷ []) actor s).0) [
          | inl (x, f) ↦ rw (escalate, f) tt
          | inr (x, f) ↦ rw (escalate, f) tt
        ]

reoffer-Rounds :
    (config : SweepConfig) (maps : Maps) (now job_id : ℕ) (job : Job) (approved : StoredQuote)
    (actor : Actor) (s : MemoryStore)
    → IsUncovered job_id s
    → find_job job_id Scope.staff s ≡ some job
    → Rounds config maps now job_id actor s
        (reoffer config maps now job_id job (list_offers_for_job job_id s) approved actor s)
unfolding reoffer
reoffer-Rounds config maps now job_id job approved actor s h found =
    let offers = list_offers_for_job job_id s in
    let asked = asked_providers offers in
    let ranked = rank_for_job s job now maps in
    elim (Bool-cases (leb config.max_rounds (automatic_rounds_so_far config (length offers)))) [
      | inl e ↦ rw (reoffer, e) (escalate-Rounds config maps now job_id _ actor _ s)
      | inr e ↦ elim (Bool-cases (length (next_round config asked ranked) == 0)) [
        | inl f ↦ rw (reoffer, e, f) (escalate-Rounds config maps now job_id _ actor _ s)
        | inr f ↦
            rw (reoffer, e, f)
              (
                h,
                record {
                  bounded = ground arith;
                  next = next_round config asked ranked;
                  payout = carried_payout offers approved;
                  chosen = (job, found, refl);
                  offered = refl;
                  nonempty = ground arith;
                  few = length-next_round config asked ranked;
                  fresh = next_round-All config asked ranked;
                },
              )
      ]
    ]

cover-Rounds :
    (config : SweepConfig) (maps : Maps) (now job_id : ℕ) (actor : Actor) (s : MemoryStore)
    → Rounds config maps now job_id actor s (cover config maps now job_id actor s)
cover-Rounds config maps now job_id actor s =
    cover_cases (Rounds config maps now job_id actor s) config maps now job_id actor s tt (λ e. tt)
      (λ job approved h found. reoffer-Rounds config maps now job_id job approved actor s h found)

-- When the sweep re-offers a job, the job is quoted at an agreed price, nobody holds it, and
-- nobody who was asked can still answer. One less than the number of its offers over the size of
-- a round, rounded up, which is how the code counts its automatic rounds, is below the limit. The
-- offers go to the next carriers of the job's ranking, at least one and at most one round's
-- number of them, each eligible and never asked before.
pub cover_reoffers :
    (config : SweepConfig) (maps : Maps) (now job_id : ℕ) (actor : Actor) (s t : MemoryStore)
    → cover config maps now job_id actor s ≡ (ok Outcome.reoffered, t)
    → IsUncovered job_id s × IsRound config maps now job_id actor s t
cover_reoffers config maps now job_id actor s t e =
    subst (Rounds config maps now job_id actor s) e (cover-Rounds config maps now job_id actor s)
