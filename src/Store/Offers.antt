-- ===== src/Store/Offers.antt =====
-- The methods on offers and assignments of apps/api/src/store/memory.ts.
use rescue.Prelude.{
  ℕ, suc, Bool, not, ◌&&◌, ◌||◌, List, [], ◌∷◌, ◌++◌, Option, none, some, String, ◌===◌, ◌==◌,
  if◌then◌else◌, leb, ltb, select, find, any, length,
}
use rescue.Prelude.Table.{Table, get, set, values, update, update_first}
use rescue.Contracts.Job.{JobStatus, can_transition}
use rescue.Contracts.Errors.{AppError}
use rescue.Contracts.Commerce.{
  OfferStatus, AssignmentStatus, offer_status_coded, assignment_status_coded,
}
use rescue.Outbox.{EventType, Key, Value, optional_words}
use rescue.Store.Types.{
  MemoryStore, Actor, JobRecord, Job, StoredOffer, StoredAssignment, AuditAction, EntityType,
  EntityId,
}
use rescue.Store.Action.{Action, pure, raise}
use rescue.Store.State.{new_id, to_job, record_event, record_audit}
use rescue.Store.Jobs.{record_both}

-- Whether a provider already has an offer for the job, whatever became of it.
abbrev pub already_offered : MemoryStore → ℕ → ℕ → Bool
already_offered s job_id provider_id =
    any (λ o. o.job_id == job_id && o.provider_id == provider_id) (values s.offers)

abbrev pub pending_offer : ℕ → ℕ → ℕ → ℕ → ℕ → ℕ → StoredOffer
pending_offer now id job_id provider_id payout_net_cents expires_at = record {
  id = id;
  job_id = job_id;
  provider_id = provider_id;
  status = OfferStatus.pending;
  payout_net_cents = payout_net_cents;
  expires_at = expires_at;
  responded_at = none;
  decline_reason = none;
  created_at = now;
}

-- `offers.set` of a fresh offer.
abbrev pub add_offer : ℕ → ℕ → ℕ → ℕ → ℕ → MemoryStore → MemoryStore
add_offer now job_id payout expires_at provider_id s = record s {
  offers =
      set s.offers (new_id s) (pending_offer now (new_id s) job_id provider_id payout expires_at);
  drawn = suc s.drawn;
}

-- The loop of `createOffers`: the offers made, and the state after it.
unfoldable pub offer_each : ℕ → ℕ → ℕ → ℕ → List ℕ → MemoryStore → List StoredOffer × MemoryStore
offer_each now job_id payout expires_at [] s = ([], s)
offer_each now job_id payout expires_at (provider_id ∷ rest) s =
    let offer = pending_offer now (new_id s) job_id provider_id payout expires_at in
    let skipped = offer_each now job_id payout expires_at rest s in
    let next =
      offer_each now job_id payout expires_at rest
        (add_offer now job_id payout expires_at provider_id s) in
    if already_offered s job_id provider_id then skipped else (offer ∷ next.0, next.1)

unfoldable pub create_offers : ℕ → ℕ → List ℕ → ℕ → ℕ → Actor → Action (List StoredOffer)
create_offers now job_id provider_ids payout expires_at actor s =
    let (created, s') = offer_each now job_id payout expires_at provider_ids s in
    pure created (
      record_audit now actor (AuditAction.of_event EventType.offers_sent) EntityType.job
        (EntityId.entity job_id)
        (record_event now job_id actor EventType.offers_sent
          ((Key.provider_count, Value.number (length created))
            ∷ (Key.payout_net_cents, Value.number payout)
            ∷ [])
          s'))

unfoldable pub list_offers_for_job : ℕ → MemoryStore → List StoredOffer
list_offers_for_job job_id s = select (λ o. o.job_id == job_id) (values s.offers)

abbrev pub is_active_on : ℕ → StoredAssignment → Bool
is_active_on job_id a = a.job_id == job_id && (a.status === AssignmentStatus.active)

unfoldable pub find_active_assignment : ℕ → MemoryStore → Option StoredAssignment
find_active_assignment job_id s = find (is_active_on job_id) (values s.assignments)

abbrev pub new_assignment : ℕ → ℕ → StoredOffer → StoredAssignment
new_assignment now id offer = record {
  id = id;
  job_id = offer.job_id;
  provider_id = offer.provider_id;
  status = AssignmentStatus.active;
  payout_net_cents = offer.payout_net_cents;
  accepted_at = now;
  completed_at = none;
}

abbrev pub is_open_on : ℕ → StoredOffer → Bool
is_open_on job_id o = o.job_id == job_id && (o.status === OfferStatus.pending)

-- Every other open offer for the job is withdrawn.
abbrev pub withdraw_other : ℕ → ℕ → ℕ → StoredOffer → StoredOffer
withdraw_other now job_id offer_id other =
    if other.job_id == job_id
      && (not (other.id == offer_id) && (other.status === OfferStatus.pending))
    then record other { status = OfferStatus.withdrawn; responded_at = some now }
    else other

abbrev pub accepted : ℕ → StoredOffer → StoredOffer
accepted now offer = record offer { status = OfferStatus.accepted; responded_at = some now }

-- The offers after `offer` has been accepted.
abbrev pub accepted_offers : ℕ → ℕ → StoredOffer → Table StoredOffer → Table StoredOffer
accepted_offers now offer_id offer offers =
    update (withdraw_other now offer.job_id offer.id) (set offers offer_id (accepted now offer))

pub record AcceptOfferResult : Type 0 where
  pub offer : StoredOffer
  pub assignment : StoredAssignment
  pub job : Job

-- The last step of `acceptOffer`, once every test has passed.
unfoldable pub award : ℕ → ℕ → StoredOffer → JobRecord → Actor → Action AcceptOfferResult
award now offer_id offer r actor s =
    let assignment = new_assignment now (new_id s) offer in
    let moved : JobRecord = record r { status = JobStatus.assigned; updated_at = now } in
    pure (record { offer = accepted now offer; assignment = assignment; job = to_job moved })
      (record_audit now actor (AuditAction.of_event EventType.offer_accepted) EntityType.assignment
        (EntityId.entity (new_id s))
        (record_event now r.id actor EventType.offer_accepted
          ((Key.from, Value.status r.status)
            ∷ (Key.to, Value.status JobStatus.assigned)
            ∷ (Key.offer_id, Value.id offer.id)
            ∷ (Key.provider_id, Value.id offer.provider_id)
            ∷ [])
          (record s {
            jobs = set s.jobs offer.job_id moved;
            offers = accepted_offers now offer_id offer s.offers;
            assignments = set s.assignments (new_id s) assignment;
            drawn = suc s.drawn;
          })))

-- A state with one offer's status written.
abbrev pub with_status : MemoryStore → ℕ → StoredOffer → OfferStatus → MemoryStore
with_status s offer_id offer status = record s {
  offers = set s.offers offer_id (record offer { status = status });
}

-- An offer that has expired, or whose time is over.
abbrev pub lapsed : ℕ → StoredOffer → Bool
lapsed now offer = (offer.status === OfferStatus.expired) || leb offer.expires_at now

-- `acceptOffer` for an offer that is open: the job must be free and able to move.
unfoldable pub accept_open : ℕ → StoredOffer → ℕ → Actor → Action AcceptOfferResult
accept_open offer_id offer now actor s = elim (find_active_assignment offer.job_id s) [
  | some _ ↦
      raise (AppError.offer_already_taken "Another provider has already accepted this job")
        (with_status s offer_id offer OfferStatus.withdrawn)
  | none ↦ elim (get s.jobs offer.job_id) [
    | none ↦ raise (AppError.not_found "Job") s
    | some r ↦
        if can_transition r.status JobStatus.assigned
        then award now offer_id offer r actor s
        else raise (AppError.invalid_transition r.status JobStatus.assigned) s
  ]
]

-- `acceptOffer`
unfoldable pub accept_offer : ℕ → ℕ → ℕ → Actor → Action AcceptOfferResult
accept_offer offer_id provider_id now actor s = elim (get s.offers offer_id) [
  | none ↦ raise (AppError.not_found "Offer") s
  | some offer ↦
      if not (offer.provider_id == provider_id)
      then raise (AppError.not_found "Offer") s
      else if lapsed now offer
      then raise AppError.offer_expired (with_status s offer_id offer OfferStatus.expired)
      else if not (offer.status === OfferStatus.pending)
      then raise (AppError.offer_already_taken "This offer is no longer open") s
      else accept_open offer_id offer now actor s
]

unfoldable pub decline_offer : ℕ → ℕ → ℕ → Option String → Actor → Action StoredOffer
unfolding record_both
decline_offer now offer_id provider_id reason actor s = elim (get s.offers offer_id) [
  | none ↦ raise (AppError.not_found "Offer") s
  | some offer ↦
      if not (offer.provider_id == provider_id)
      then raise (AppError.not_found "Offer") s
      else if not (offer.status === OfferStatus.pending)
      then raise (AppError.conflict "This offer is no longer open") s
      else let declined : StoredOffer = record offer {
        status = OfferStatus.declined;
        responded_at = some now;
        decline_reason = reason;
      } in
        pure declined (
          record_both now offer.job_id actor EventType.offer_declined
            ((Key.offer_id, Value.id offer.id) ∷ (Key.provider_id, Value.id offer.provider_id) ∷ [])
            EntityType.assignment_offer offer.id
            (record s { offers = set s.offers offer_id declined }))
]

abbrev pub is_stale : ℕ → StoredOffer → Bool
is_stale now offer = (offer.status === OfferStatus.pending) && leb offer.expires_at now

abbrev pub expire_offer : ℕ → StoredOffer → StoredOffer
expire_offer now offer =
    if is_stale now offer
    then record offer { status = OfferStatus.expired; responded_at = some now }
    else offer

-- The events of the loop in `expireOffers`, one for each offer that lapsed.
unfoldable pub expiry_events : ℕ → Actor → List StoredOffer → MemoryStore → MemoryStore
expiry_events now actor [] s = s
expiry_events now actor (offer ∷ rest) s = expiry_events now actor rest (
    record_event now offer.job_id actor EventType.offer_expired
      ((Key.offer_id, Value.id offer.id) ∷ []) s)

-- A JavaScript Set of ids, in insertion order.
unfoldable pub distinct : List ℕ → List ℕ → List ℕ
distinct seen [] = seen
distinct seen (x ∷ xs) = distinct (if any (λ y. y == x) seen then seen else seen ++ x ∷ []) xs

abbrev pub job_ids_of : List StoredOffer → List ℕ
job_ids_of [] = []
job_ids_of (offer ∷ rest) = offer.job_id ∷ job_ids_of rest

pub record ExpireResult : Type 0 where
  pub expired : ℕ
  pub job_ids : List ℕ

unfoldable pub expire_offers : ℕ → Actor → MemoryStore → ExpireResult × MemoryStore
expire_offers now actor s =
    let stale = select (is_stale now) (values s.offers) in
    let swept =
      expiry_events now actor stale (record s { offers = update (expire_offer now) s.offers }) in
    (
      record { expired = length stale; job_ids = distinct [] (job_ids_of stale) },
      if ltb 0 (length stale)
          then record_audit now actor AuditAction.offers_expired EntityType.assignment_offer
              EntityId.sweep swept
          else swept,
    )

abbrev pub release : StoredAssignment → StoredAssignment
release a = record a { status = AssignmentStatus.fell_through }

unfoldable pub fallback_assignment : ℕ → ℕ → Option String → Actor → Action Job
fallback_assignment now job_id reason actor s = elim (get s.jobs job_id) [
  | none ↦ raise (AppError.not_found "Job") s
  | some r ↦ elim (find_active_assignment job_id s) [
    | none ↦ raise (AppError.conflict "This job has no active assignment") s
    | some assignment ↦
        let moved : JobRecord = record r { status = JobStatus.quoted; updated_at = now } in
        if can_transition r.status JobStatus.quoted
        then pure (to_job moved) (
            record_audit now actor (AuditAction.of_event EventType.assignment_fell_through)
              EntityType.assignment (EntityId.entity assignment.id)
              (record_event now r.id actor EventType.assignment_fell_through
                ((Key.from, Value.status r.status)
                  ∷ (Key.to, Value.status JobStatus.quoted)
                  ∷ (Key.provider_id, Value.id assignment.provider_id)
                  ∷ (Key.reason, optional_words reason)
                  ∷ [])
                (record s {
                  jobs = set s.jobs job_id moved;
                  assignments = update_first (is_active_on job_id) release s.assignments;
                })))
        else raise (AppError.invalid_transition r.status JobStatus.quoted) s
  ]
]
