-- ===== src/Api/Offering.antt =====
-- What `POST /jobs/:id/offers` of apps/api/src/routes/offers.ts has checked when it answers.
use rescue.Api.Auth.{require_role}
use rescue.Api.Completion.{require_role_ok}
use rescue.Api.Guards.{of_result}
use rescue.Api.Asking.{Asks, offer_chosen_ok}
use rescue.Api.Offers.{offer_chosen, post_offers}
use rescue.Dispatch.{rank_for_job}
use rescue.Prelude.{
  All-take, Bool-cases, ap, length-take, select, select-any, select_passes, subst, sym, ◌∙◌,
}
use rescue.Store.Action.{bind_ok, ◌>>=◌}
use rescue.Store.Quotes.{quotes_in_scope}
use rescue.Store.State.{visible_job}
use rescue.Contracts.Job.{job_status_coded}
use rescue.Api.Auth.{AuthContext, holds_one}
use rescue.Api.Guards.{require_job}
use rescue.Api.Idempotency.{KeyedRequest, Reply, Runner}
use rescue.Api.Jobs.{dispatch_roles}
use rescue.Api.Offers.{OffersInput, OffersView, check_offerable, chosen}
use rescue.Contracts.Job.{JobStatus}
use rescue.Dispatch.{Maps, is_approved}
use rescue.Prelude.{
  All, Option, Option-cases, any, arith, inl, inr, length, some, true, ℕ, ◌&&◌, ◌<◌, ◌===◌, ◌==◌,
  ◌≡◌, ◌≤◌,
}
use rescue.Prelude.Table.{values}
use rescue.Store.Action.{ok}
use rescue.Store.Jobs.{find_job}
use rescue.Store.Quotes.{list_quotes_for_job}
use rescue.Store.Types.{Job, MemoryStore, Scope}

-- What a round of offers is made on.
pub record IsOffered (maps : Maps) (now : ℕ) (caller : Option AuthContext) (id : ℕ)
    (input : OffersInput) (s t : MemoryStore) (reply : Reply) : Type 0 where
  pub auth : AuthContext
  pub called : caller ≡ some auth
  pub role : holds_one dispatch_roles auth ≡ true
  pub job : Job
  pub found : find_job id auth.scope s ≡ some job
  pub quoted : (job.status === JobStatus.quoted) ≡ true
  -- the customer has agreed to a price of this job
  pub agreed : any (λ q. q.job_id == job.id && is_approved q) (values s.quotes) ≡ true
  -- at least one carrier is asked, at most as many as the request says, and each is eligible
  pub asked : 0 < length (chosen maps now job input.max_providers s)
  pub few : length (chosen maps now job input.max_providers s) ≤ input.max_providers
  pub eligible : All (λ c. c.eligible ≡ true) (chosen maps now job input.max_providers s)
  -- the offers that stand afterwards
  pub asks : Asks maps now job input s t reply

require_job_ok :
    (id : ℕ) (scope : Scope) (s t : MemoryStore) (job : Job)
    → require_job id scope s ≡ (ok job, t)
    → (t ≡ s) × (find_job id scope s ≡ some job)
unfolding require_job
require_job_ok id scope s t job e = elim (Option-cases (find_job id scope s)) [
  | inl f ↦ absurd (ground (arith, e, f))
  | inr (own, f) ↦ (ground (arith, e, f), ground (arith, e, f))
]

any-approved :
    (job_id : ℕ) (scope : Scope) (s : MemoryStore)
    → any is_approved (quotes_in_scope job_id scope s) ≡ true
    → any (λ q. q.job_id == job_id && is_approved q) (values s.quotes) ≡ true
any-approved job_id (Scope.organization _) s h =
    sym (select-any is_approved (λ q. q.job_id == job_id) (values s.quotes)) ∙ h
any-approved job_id Scope.staff s h =
    sym (select-any is_approved (λ q. q.job_id == job_id) (values s.quotes)) ∙ h
any-approved job_id (Scope.provider _) s h = absurd (cc)

check_offerable_ok :
    (auth : AuthContext) (job : Job) (s t : MemoryStore) (u : Unit {0})
    → check_offerable auth job s ≡ (ok u, t)
    → (t ≡ s)
      × ((job.status === JobStatus.quoted) ≡ true)
      × (any (λ q. q.job_id == job.id && is_approved q) (values s.quotes) ≡ true)
unfolding check_offerable list_quotes_for_job
check_offerable_ok auth job s t u e = elim (Bool-cases (job.status === JobStatus.quoted)) [
  | inr f ↦ absurd (ground (arith, e, f))
  | inl f ↦ elim (Option-cases (visible_job s job.id auth.scope)) [
    | inl g ↦ absurd (ground (arith, e, f, g))
    | inr (r, g) ↦ elim (Bool-cases (any is_approved (quotes_in_scope job.id auth.scope s))) [
      | inr h ↦ absurd (ground (arith, e, f, g, h))
      | inl h ↦ (ground (arith, e, f, g, h), f, any-approved job.id auth.scope s h)
    ]
  ]
]

chosen-All :
    (maps : Maps) (now : ℕ) (job : Job) (n : ℕ) (s : MemoryStore)
    → All (λ c. c.eligible ≡ true) (chosen maps now job n s)
unfolding chosen
chosen-All maps now job n s =
    All-take _ n _ (select_passes (λ c. c.eligible) (rank_for_job s job now maps))

length-chosen :
    (maps : Maps) (now : ℕ) (job : Job) (n : ℕ) (s : MemoryStore)
    → length (chosen maps now job n s) ≤ n
unfolding chosen
length-chosen maps now job n s =
    grind (arith, length-take n (select (λ c. c.eligible) (rank_for_job s job now maps)))

-- When `POST /jobs/:id/offers` succeeds, a dispatcher or an admin asked, for a job that is quoted and
-- has a price that the customer approved, and there was a carrier to ask. Each carrier chosen is
-- eligible, and they are no more than the request allows. A repeated answer leaves the offers as
-- they were; any other answer makes the offers to the carriers chosen, at the payout and for the time of
-- the request. No other offer is written: each that stands afterwards stood before, or is for this
-- job and to a carrier chosen.
pub post_offers-IsOffered :
    (maps : Maps) (view : OffersView) (runner : Runner) (now later : ℕ)
    (caller : Option AuthContext) (request : KeyedRequest) (id : ℕ) (input : OffersInput)
    (s t : MemoryStore) (reply : Reply)
    → post_offers maps view runner now later caller request id input s ≡ (ok reply, t)
    → IsOffered maps now caller id input s t reply
unfolding post_offers
post_offers-IsOffered maps view runner now later caller request id input s t reply e =
    let (auth, u, f, g) =
      bind_ok (of_result (require_role dispatch_roles caller))
        (λ auth. require_job id auth.scope >>= λ job. check_offerable auth job >>= λ _.
          offer_chosen maps view runner now later auth request job input)
        s t reply e in
    let (job, v, h, k) =
      bind_ok (require_job id auth.scope)
        (λ job. check_offerable auth job >>= λ _.
          offer_chosen maps view runner now later auth request job input)
        u t reply g in
    let (x, w, l, made) =
      bind_ok (check_offerable auth job)
        (λ _. offer_chosen maps view runner now later auth request job input) v t reply k in
    let (called, role) = require_role_ok dispatch_roles caller auth (ap (λ r. r.0) f) in
    let begun : u ≡ s = sym (ap (λ r. r.1) f) in
    let (kept, found) = require_job_ok id auth.scope u v job h in
    let (still, quoted, agreed) = check_offerable_ok auth job v w x l in
    let same : w ≡ s = still ∙ kept ∙ begun in
    let (some_one, asks) =
      offer_chosen_ok maps view runner now later auth request job input w t reply made in
    record {
      auth = auth;
      called = called;
      role = role;
      job = job;
      found = subst (λ y. find_job id auth.scope y ≡ some job) begun found;
      quoted = quoted;
      agreed =
          subst (λ y. any (λ q. q.job_id == job.id && is_approved q) (values y.quotes) ≡ true)
            (kept ∙ begun) agreed;
      asked = subst (λ y. 0 < length (chosen maps now job input.max_providers y)) same some_one;
      few = length-chosen maps now job input.max_providers s;
      eligible = chosen-All maps now job input.max_providers s;
      asks = subst (λ y. Asks maps now job input y t reply) same asks;
    }
