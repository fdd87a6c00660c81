-- ===== src/Store/Frame.antt =====
-- The loops of apps/api/src/store/memory.ts keep what each of their rounds keeps; the log writers
-- leave the jobs and the assignments alone.
use rescue.Prelude.{select, ℕ, ◌≡◌, refl, Bool-cases, inl, inr, List, [], ◌∷◌, arith}
use rescue.Outbox.{EventType, Key, Value}
use rescue.Store.Types.{MemoryStore, Actor, StoredOffer, StoredLedgerEntry}
use rescue.Store.Action.{Result, ok, err}
use rescue.Prelude.Table.{values, update}
use rescue.Store.State.{record_event, record_audit}
use rescue.Store.Offers.{
  offer_each, add_offer, expiry_events, already_offered, create_offers, expire_offers, is_stale,
  expire_offer,
}
use rescue.Store.Ledger.{EntryInput, append_entry, append_ledger_entries, joined}

module _ {ℓ} (P : MemoryStore → Type ℓ) where
  pub offer_each_keeps :
      (now job_id payout expires_at : ℕ)
      → ((provider_id : ℕ) (s : MemoryStore)
          → P s
          → P (add_offer now job_id payout expires_at provider_id s))
      → (provider_ids : List ℕ) (s : MemoryStore) → P s
      → P (offer_each now job_id payout expires_at provider_ids s).1
  unfolding offer_each
  offer_each_keeps now job_id payout expires_at add [] s h = h
  offer_each_keeps now job_id payout expires_at add (p ∷ rest) s h =
      elim (Bool-cases (already_offered s job_id p)) [
        | inl old ↦ rw old (offer_each_keeps now job_id payout expires_at add rest s h)
        | inr new ↦ rw new (offer_each_keeps now job_id payout expires_at add rest _ (add p s h))
      ]

  pub expiry_events_keeps :
      (now : ℕ) (actor : Actor)
      → ((offer : StoredOffer) (s : MemoryStore)
          → P s
          → P (
              record_event now offer.job_id actor EventType.offer_expired
                ((Key.offer_id, Value.id offer.id) ∷ [])
                s))
      → (offers : List StoredOffer) (s : MemoryStore) → P s
      → P (expiry_events now actor offers s)
  unfolding expiry_events
  expiry_events_keeps now actor log [] s h = h
  expiry_events_keeps now actor log (offer ∷ rest) s h =
      expiry_events_keeps now actor log rest _ (log offer s h)

  joined_keeps :
      (first : Result StoredLedgerEntry × MemoryStore)
      (more : Result (List StoredLedgerEntry) × MemoryStore)
      → P first.1
      → P more.1
      → P (joined first more).1
  joined_keeps (err e, s) more h k = h
  joined_keeps (ok w, _) (err e, s) h k = k
  joined_keeps (ok w, _) (ok ws, s) h k = k

  pub append_ledger_entries_keeps :
      (now : ℕ) (actor : Actor)
      → ((entry : EntryInput) (s : MemoryStore) → P s → P (append_entry now actor entry s).1)
      → (entries : List EntryInput) (s : MemoryStore) → P s
      → P (append_ledger_entries now entries actor s).1
  unfolding append_ledger_entries
  append_ledger_entries_keeps now actor append [] s h = h
  append_ledger_entries_keeps now actor append (entry ∷ rest) s h =
      joined_keeps (append_entry now actor entry s) _ (append entry s h)
        (append_ledger_entries_keeps now actor append rest _ (append entry s h))

-- The jobs and the assignments are the same.
pub record SameWork (s t : MemoryStore) : Type 0 where
  pub jobs : t.jobs ≡ s.jobs
  pub assignments : t.assignments ≡ s.assignments

pub offer_each-SameWork :
    (now job_id payout expires_at : ℕ) (provider_ids : List ℕ) (s : MemoryStore)
    → SameWork s (offer_each now job_id payout expires_at provider_ids s).1
offer_each-SameWork now job_id payout expires_at provider_ids s =
    offer_each_keeps (SameWork s) now job_id payout expires_at
      (λ provider_id t h. record { jobs = h.jobs; assignments = h.assignments }) provider_ids s
      (record { jobs = refl; assignments = refl })

pub expiry_events-SameWork :
    (now : ℕ) (actor : Actor) (offers : List StoredOffer) (s : MemoryStore)
    → SameWork s (expiry_events now actor offers s)
unfolding record_event
expiry_events-SameWork now actor offers s =
    expiry_events_keeps (SameWork s) now actor
      (λ offer t h. record { jobs = h.jobs; assignments = h.assignments }) offers s
      (record { jobs = refl; assignments = refl })

pub append_ledger_entries-SameWork :
    (now : ℕ) (actor : Actor) (entries : List EntryInput) (s : MemoryStore)
    → SameWork s (append_ledger_entries now entries actor s).1
unfolding append_entry
append_ledger_entries-SameWork now actor entries s =
    append_ledger_entries_keeps (SameWork s) now actor (λ entry t h. ground arith) entries s
      (record { jobs = refl; assignments = refl })

pub create_offers-SameWork :
    (now job_id : ℕ) (provider_ids : List ℕ) (payout expires_at : ℕ) (actor : Actor)
    (s : MemoryStore)
    → SameWork s (create_offers now job_id provider_ids payout expires_at actor s).1
unfolding create_offers record_event record_audit
create_offers-SameWork now job_id provider_ids payout expires_at actor s =
    let kept = offer_each-SameWork now job_id payout expires_at provider_ids s in
    record { jobs = kept.jobs; assignments = kept.assignments }

pub expire_offers-SameWork :
    (now : ℕ) (actor : Actor) (s : MemoryStore) → SameWork s (expire_offers now actor s).1
unfolding expire_offers record_audit
expire_offers-SameWork now actor s =
    let kept =
      expiry_events-SameWork now actor (select (is_stale now) (values s.offers))
        (record s { offers = update (expire_offer now) s.offers }) in
    record { jobs = ground (arith, kept.jobs); assignments = ground (arith, kept.assignments) }
