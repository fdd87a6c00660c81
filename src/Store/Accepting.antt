-- ===== src/Store/Accepting.antt =====
-- How `acceptOffer` of apps/api/src/store/memory.ts can end.
use rescue.Prelude.{
  ℕ, ◌≡◌, true, false, none, some, ◌==◌, ◌===◌, Bool-cases, Option-cases, inl, inr,
}
use rescue.Prelude.Table.{get}
use rescue.Contracts.Job.{JobStatus, can_transition}
use rescue.Contracts.Errors.{AppError}
use rescue.Contracts.Commerce.{OfferStatus, offer_status_coded}
use rescue.Store.Types.{MemoryStore, Actor, StoredOffer, JobRecord}
use rescue.Store.Action.{Result, err}
use rescue.Store.Offers.{
  AcceptOfferResult, accept_offer, accept_open, award, with_status, lapsed, find_active_assignment,
}

module _ {ℓ} (P : Result AcceptOfferResult × MemoryStore → Type ℓ) where
  accept_open_cases :
      (offer_id : ℕ) (offer : StoredOffer) (now : ℕ) (actor : Actor) (s : MemoryStore)
      → ((e : AppError) → P (err e, s))
      → ((e : AppError) (status : OfferStatus) → P (err e, with_status s offer_id offer status))
      → ((r : JobRecord)
          → find_active_assignment offer.job_id s ≡ none
          → get s.jobs offer.job_id ≡ some r
          → can_transition r.status JobStatus.assigned ≡ true
          → P (award now offer_id offer r actor s))
      → P (accept_open offer_id offer now actor s)
  unfolding accept_open
  accept_open_cases offer_id offer now actor s refused written awarded =
      elim (Option-cases (find_active_assignment offer.job_id s)) [
        | inr (a, f) ↦ rw (f, accept_open) (written _ OfferStatus.withdrawn)
        | inl f ↦ elim (Option-cases (get s.jobs offer.job_id)) [
          | inl g ↦ rw (f, g, accept_open) (refused _)
          | inr (r, g) ↦ elim (Bool-cases (can_transition r.status JobStatus.assigned)) [
            | inl c ↦ rw (f, g, c, accept_open) (awarded r f g c)
            | inr c ↦ rw (f, g, c, accept_open) (refused _)
          ]
        ]
      ]

  -- Refused with the state as it was, refused with the offer's status written, or awarded with
  -- every test passed.
  pub accept_offer_cases :
      (offer_id provider_id now : ℕ) (actor : Actor) (s : MemoryStore)
      → ((e : AppError) → P (err e, s))
      → ((e : AppError) (offer : StoredOffer) (status : OfferStatus)
          → get s.offers offer_id ≡ some offer
          → P (err e, with_status s offer_id offer status))
      → ((offer : StoredOffer) (r : JobRecord)
          → get s.offers offer_id ≡ some offer
          → (offer.provider_id == provider_id) ≡ true
          → (offer.status === OfferStatus.pending) ≡ true
          → lapsed now offer ≡ false
          → find_active_assignment offer.job_id s ≡ none
          → get s.jobs offer.job_id ≡ some r
          → can_transition r.status JobStatus.assigned ≡ true
          → P (award now offer_id offer r actor s))
      → P (accept_offer offer_id provider_id now actor s)
  unfolding accept_offer
  accept_offer_cases offer_id provider_id now actor s refused written awarded =
      elim (Option-cases (get s.offers offer_id)) [
        | inl e ↦ rw (e, accept_offer) (refused _)
        | inr (offer, e) ↦ elim (Bool-cases (offer.provider_id == provider_id)) [
          | inr other ↦ rw (e, other, accept_offer) (refused _)
          | inl mine ↦ elim (Bool-cases (lapsed now offer)) [
            | inl late ↦ rw (e, mine, late, accept_offer) (written _ offer OfferStatus.expired e)
            | inr live ↦ elim (Bool-cases (offer.status === OfferStatus.pending)) [
              | inr closed ↦ rw (e, mine, live, closed, accept_offer) (refused _)
              | inl open' ↦
                  rw (e, mine, live, open', accept_offer)
                    (accept_open_cases offer_id offer now actor s refused
                      (λ err' status. written err' offer status e)
                      (λ r f g c. awarded offer r e mine open' live f g c))
            ]
          ]
        ]
      ]
