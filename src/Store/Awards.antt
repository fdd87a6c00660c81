-- ===== src/Store/Awards.antt =====
-- What a successful `acceptOffer` of apps/api/src/store/memory.ts has done, and that it is the last.
use rescue.Contracts.Commerce.{OfferStatus, offer_status_coded}
use rescue.Contracts.Job.{JobStatus}
use rescue.Prelude.{
  subst, ===_eq, find-eq-none, ==_refl, any, arith, false, refl, some, true, ℕ, ◌<◌, ◌≡◌,
}
use rescue.Prelude.Keyed.{Keyed, get-Keyed, none_after_set}
use rescue.Prelude.Table.{any-set, get, get-set_self, values}
use rescue.Store.Accepting.{accept_offer_cases}
use rescue.Store.Action.{Result, err, is_ok, ok}
use rescue.Store.Offers.{
  AcceptOfferResult, accept_offer, award, find_active_assignment, is_active_on, is_open_on,
  accepted, new_assignment, withdraw_other,
}
use rescue.Store.State.{new_id, record_audit, record_event}
use rescue.Store.Types.{Actor, JobRecord, MemoryStore, StoredOffer}

pub record IsAwarded (offer : StoredOffer) (s t : MemoryStore) : Type 0 where
  -- the job has moved
  pub moved : (r : JobRecord) × (get t.jobs offer.job_id ≡ some r) × (r.status ≡ JobStatus.assigned)
  -- the job has an active assignment
  pub held : any (is_active_on offer.job_id) (values t.assignments) ≡ true
  -- no offer for the job is open any more
  pub closed : any (is_open_on offer.job_id) (values t.offers) ≡ false

award-IsAwarded :
    (now offer_id : ℕ) (offer : StoredOffer) (r : JobRecord) (actor : Actor) (s : MemoryStore)
    → Keyed (λ o. o.id) s.offers
    → get s.offers offer_id ≡ some offer
    → IsAwarded offer s (award now offer_id offer r actor s).1
unfolding award record_event record_audit
award-IsAwarded now offer_id offer r actor s keyed e =
    let own : offer.id ≡ offer_id = get-Keyed (λ o. o.id) s.offers offer_id offer keyed e in
    record {
      moved = (
        record r { status = JobStatus.assigned; updated_at = now },
        get-set_self s.jobs offer.job_id
            (record r { status = JobStatus.assigned; updated_at = now }),
        refl,
      );
      held =
          any-set (is_active_on offer.job_id) s.assignments (new_id s)
            (new_assignment now (new_id s) offer) (ground (arith, ==_refl offer.job_id));
      closed =
          none_after_set (λ o. o.id) (is_open_on offer.job_id)
            (withdraw_other now offer.job_id offer.id) offer_id (accepted now offer)
            (λ v n. ground arith) (ground arith) s.offers keyed;
    }

abbrev pub Won : ℕ → ℕ → MemoryStore → AcceptOfferResult → MemoryStore → Type 0
Won offer_id now s won t =
    (offer : StoredOffer) × (get s.offers offer_id ≡ some offer)
    × (offer.status ≡ OfferStatus.pending)
    × (now < offer.expires_at)
    × (won.assignment.provider_id ≡ offer.provider_id)
    × (won.assignment.payout_net_cents ≡ offer.payout_net_cents)
    × IsAwarded offer s t

abbrev Wins : ℕ → ℕ → MemoryStore → Result AcceptOfferResult × MemoryStore → Type 0
Wins offer_id now s (err _, t) = Unit
Wins offer_id now s (ok won, t) = Won offer_id now s won t

accept_offer-Wins :
    (offer_id provider_id now : ℕ) (actor : Actor) (s : MemoryStore)
    → Keyed (λ o. o.id) s.offers
    → Wins offer_id now s (accept_offer offer_id provider_id now actor s)
unfolding award
accept_offer-Wins offer_id provider_id now actor s keyed =
    accept_offer_cases (Wins offer_id now s) offer_id provider_id now actor s (λ e. tt)
      (λ e offer status _. tt)
      λ offer r e mine open' live f g c. (
        offer,
        e,
        ===_eq _ _ open',
        ground arith,
        refl,
        refl,
        award-IsAwarded now offer_id offer r actor s keyed e,
      )

-- An acceptance that succeeds was of an open offer in its time. It awards the provider the payout
-- of that offer, moves the job to ASSIGNED under an active assignment, and leaves no offer for the
-- job open. The offers stand under their ids.
pub accept_offer_wins :
    (offer_id provider_id now : ℕ) (actor : Actor) (s t : MemoryStore) (won : AcceptOfferResult)
    → Keyed (λ o. o.id) s.offers
    → accept_offer offer_id provider_id now actor s ≡ (ok won, t)
    → Won offer_id now s won t
accept_offer_wins offer_id provider_id now actor s t won keyed e =
    subst (Wins offer_id now s) e (accept_offer-Wins offer_id provider_id now actor s keyed)

held_refuses :
    (offer_id provider_id now : ℕ) (actor : Actor) (s : MemoryStore) (offer : StoredOffer)
    → get s.offers offer_id ≡ some offer
    → any (is_active_on offer.job_id) (values s.assignments) ≡ true
    → is_ok (accept_offer offer_id provider_id now actor s).0 ≡ false
unfolding find_active_assignment
held_refuses offer_id provider_id now actor s offer e held =
    accept_offer_cases (λ r. is_ok r.0 ≡ false) offer_id provider_id now actor s (λ _. refl)
      (λ _ _ _ _. refl)
      λ o r e' _ _ _ f _ _.
        ground (arith, find-eq-none (is_active_on o.job_id) (values s.assignments) f)

-- Once an acceptance has succeeded, the next acceptance of any offer for the same job, by any
-- provider at any time, is refused. The offers stand under their ids.
pub accept_offer_excludes :
    (offer_id provider_id now : ℕ) (actor : Actor) (other_id other_provider later : ℕ)
    (other_actor : Actor) (s t : MemoryStore) (won : AcceptOfferResult) (offer other : StoredOffer)
    → Keyed (λ o. o.id) s.offers
    → get s.offers offer_id ≡ some offer
    → accept_offer offer_id provider_id now actor s ≡ (ok won, t)
    → get t.offers other_id ≡ some other
    → other.job_id ≡ offer.job_id
    → is_ok (accept_offer other_id other_provider later other_actor t).0 ≡ false
accept_offer_excludes offer_id provider_id now actor other_id other_provider later other_actor s t
      won offer other keyed e success e' same =
    let (o, f, _, _, _, _, awarded) =
      accept_offer_wins offer_id provider_id now actor s t won keyed success in
    let found : o ≡ offer = cc in
    let job : other.job_id ≡ o.job_id = rw (found, same) in
    held_refuses other_id other_provider later other_actor t other e' (rw job awarded.held)
