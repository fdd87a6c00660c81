-- ===== src/Api/Asking.antt =====
-- The offers that `POST /jobs/:id/offers` of apps/api/src/routes/offers.ts makes.
use rescue.Api.Auth.{AuthContext}
use rescue.Api.Idempotency.{KeyedRequest, Reply, Runner}
use rescue.Api.Lookup.{Answers, run_once_ok}
use rescue.Api.Offers.{OffersInput, OffersView, chosen, offer_chosen, offering}
use rescue.Dispatch.{Maps, rank_for_job}
use rescue.Prelude.{
  ◌∙◌, sym, ap, Bool-cases, List, [], any, arith, false, inl, inr, length, map, some, true, ℕ, ◌*◌,
  ◌+◌, ◌==◌, ◌∷◌, ◌≡◌, ◌⊎◌, ◌<◌,
}
use rescue.Prelude.Table.{get, get-set}
use rescue.Store.Action.{ok}
use rescue.Store.Offers.{already_offered, add_offer, create_offers, offer_each, pending_offer}
use rescue.Store.State.{new_id, record_audit, record_event}
use rescue.Store.Types.{Job, MemoryStore, StoredOffer}

-- An offer that stood before, or one for the job to one of the carriers.
abbrev pub IsOfferTo : ℕ → List ℕ → MemoryStore → ℕ → StoredOffer → Type 0
IsOfferTo job_id providers s offer_id o =
    (get s.offers offer_id ≡ some o)
    ⊎ ((o.job_id ≡ job_id) × (any (λ p. p == o.provider_id) providers ≡ true))

add_offer-IsOfferTo :
    (now job_id payout expires_at provider_id : ℕ) (s : MemoryStore) (offer_id : ℕ)
    (o : StoredOffer)
    → get (add_offer now job_id payout expires_at provider_id s).offers offer_id ≡ some o
    → IsOfferTo job_id (provider_id ∷ []) s offer_id o
add_offer-IsOfferTo now job_id payout expires_at provider_id s offer_id o e =
    let split =
      get-set s.offers (new_id s) offer_id
        (pending_offer now (new_id s) job_id provider_id payout expires_at) in
    elim (Bool-cases (new_id s == offer_id)) [
      | inl f ↦ inr (ground (arith, e, f, split), ground (arith, e, f, split))
      | inr f ↦ inl (ground (arith, e, f, split))
    ]

pub offer_each-IsOfferTo :
    (now job_id payout expires_at : ℕ) (providers : List ℕ) (s : MemoryStore) (offer_id : ℕ)
    (o : StoredOffer)
    → get (offer_each now job_id payout expires_at providers s).1.offers offer_id ≡ some o
    → IsOfferTo job_id providers s offer_id o
unfolding offer_each
offer_each-IsOfferTo now job_id payout expires_at [] s offer_id o e = inl e
offer_each-IsOfferTo now job_id payout expires_at (p ∷ rest) s offer_id o e =
    elim (Bool-cases (already_offered s job_id p)) [
      | inl old ↦
          elim (offer_each-IsOfferTo now job_id payout expires_at rest s offer_id o
            (ground (arith, e, old))) [ inl h ↦ inl h | inr (h, k) ↦ inr (h, ground (arith, k)) ]
      | inr new ↦
          elim (offer_each-IsOfferTo now job_id payout expires_at rest
            (add_offer now job_id payout expires_at p s) offer_id o (ground (arith, e, new))) [
              | inr (h, k) ↦ inr (h, ground (arith, k))
              | inl h ↦ elim (add_offer-IsOfferTo now job_id payout expires_at p s offer_id o h) [
                | inl before ↦ inl before
                | inr (k, l) ↦ inr (k, ground (arith, l))
              ]
            ]
    ]

-- The carriers that a request chooses, in their order.
abbrev pub chosen_ids : Maps → ℕ → Job → ℕ → MemoryStore → List ℕ
chosen_ids maps now job n s = map (λ c. c.provider_id) (chosen maps now job n s)

-- What becomes of the offers: a repeated answer makes none, and any other makes one for each carrier
-- chosen that has had none for the job.
pub record Asks (maps : Maps) (now : ℕ) (job : Job) (input : OffersInput) (s t : MemoryStore)
    (reply : Reply) : Type 0 where
  pub repeated : reply.replayed ≡ true → t.offers ≡ s.offers
  pub made :
      reply.replayed ≡ false
      → (u : MemoryStore) × (u.offers ≡ s.offers)
        × (t.offers
            ≡ (offer_each now job.id input.payout_net_cents
                (now + input.expires_in_minutes * 60_000)
                (chosen_ids maps now job input.max_providers s)
                u).1.offers)
  pub only :
      (offer_id : ℕ) (o : StoredOffer)
      → get t.offers offer_id ≡ some o
      → IsOfferTo job.id (chosen_ids maps now job input.max_providers s) s offer_id o

Answers-Asks :
    (maps : Maps) (view : OffersView) (considered now : ℕ) (auth : AuthContext) (job : Job)
    (input : OffersInput) (s t : MemoryStore) (reply : Reply)
    → Answers
        (offering view considered now auth job (chosen maps now job input.max_providers s) input)
        s
        t
        reply
    → Asks maps now job input s t reply
unfolding offering create_offers record_event record_audit
Answers-Asks maps view considered now auth job input s t reply (inl (old, same)) = record {
  repeated = λ _. same;
  made = λ new. absurd (cc);
  only = λ offer_id o e. inl (ap (λ x. get x offer_id) (sym same) ∙ e);
}
Answers-Asks maps view considered now auth job input s t reply (inr (new, u, v, same, ran, ended)) =
    let ids = chosen_ids maps now job input.max_providers s in
    let until = now + input.expires_in_minutes * 60_000 in
    let all : v.offers ≡ (offer_each now job.id input.payout_net_cents until ids u).1.offers =
      sym (ap (λ r. r.1.offers) ran) in
    record {
      repeated = λ old. absurd (cc);
      made = λ _. (u, same, ended ∙ all);
      only = λ offer_id o e.
          elim (offer_each-IsOfferTo now job.id input.payout_net_cents until ids u offer_id o
            (ap (λ x. get x offer_id) (sym (ended ∙ all)) ∙ e)) [
              | inl h ↦ inl (ap (λ x. get x offer_id) (sym same) ∙ h)
              | inr h ↦ inr h
            ];
    }

pub offer_chosen_ok :
    (maps : Maps) (view : OffersView) (runner : Runner) (now later : ℕ) (auth : AuthContext)
    (request : KeyedRequest) (job : Job) (input : OffersInput) (s t : MemoryStore) (reply : Reply)
    → offer_chosen maps view runner now later auth request job input s ≡ (ok reply, t)
    → (0 < length (chosen maps now job input.max_providers s)) × Asks maps now job input s t reply
unfolding offer_chosen
offer_chosen_ok maps view runner now later auth request job input s t reply e =
    elim (Bool-cases (length (chosen maps now job input.max_providers s) == 0)) [
      | inl z ↦ absurd (ground (arith, e, z))
      | inr z ↦ (
        ground (arith, z),
        Answers-Asks maps view (length (rank_for_job s job now maps)) now auth job input s t reply (
            run_once_ok (record runner { organization_id = job.organization_id }) request _ now
              later s t reply (rw (offer_chosen, z) at e)),
      )
    ]
