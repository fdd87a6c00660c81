-- ===== src/Worker/Once/Entries.antt =====
-- One entry more in the ledger: what the steps of apps/api/src/worker/payments.ts do to the counts.
use rescue.Contracts.Errors.{AppError}
use rescue.Contracts.Ops.{LedgerEntryKind}
use rescue.Prelude.{
  ===_eq, Bool, Bool-cases, List, Option-cases, String, [], any, ap, count, count-append,
  count_of_not_any, false, inl, inr, refl, select, select-any, sym, true, ◌&&◌, ◌++◌, ◌===◌, ◌==◌,
  ◌∙◌, ◌∷◌, ◌≡◌, ◌≤◌,
}
use rescue.Prelude.Int.{is_positive}
use rescue.Store.Action.{Result, Result-cases, err, ok}
use rescue.Store.Ledger.{
  EntryInput, append_entry, append_ledger_entries, iff, is_zero, joined, ledger_entry, list_ledger,
  must_be_positive,
}
use rescue.Store.State.{new_id, record_audit, visible_job}
use rescue.Store.Types.{Actor, MemoryStore, Scope, StoredLedgerEntry, StoredOutboxMessage}
use rescue.Worker.{GatewayCall, World}
use rescue.Worker.Payments.{PaymentDeps, append, call_and_append, is_kind, outbox_actor}
use rescue.Contracts.Ops.{ledger_entry_kind_coded}
use rescue.Prelude.{ℕ, arith}

abbrev pub is_entry : ℕ → LedgerEntryKind → StoredLedgerEntry → Bool
is_entry job_id kind e = e.job_id == job_id && is_kind kind e

-- No job has two entries of one kind that the handlers write.
abbrev pub OnePayment : List StoredLedgerEntry → Type 0
OnePayment ledger = (job_id : ℕ) (kind : LedgerEntryKind) → count (is_entry job_id kind) ledger ≤ 1

append_entry_cases :
    (P : Result StoredLedgerEntry × MemoryStore → Type 0) (now : ℕ) (actor : Actor)
    (entry : EntryInput) (s : MemoryStore)
    → ((e : AppError) → P (err e, s))
    → ((t : MemoryStore)
        → t.ledger ≡ s.ledger ++ ledger_entry now (new_id s) entry ∷ []
        → P (ok (ledger_entry now (new_id s) entry), t))
    → P (append_entry now actor entry s)
unfolding append_entry record_audit
append_entry_cases P now actor entry s refused written =
    elim (Bool-cases (is_zero entry.amount_cents)) [
      | inl e ↦ rw (append_entry, e) (refused _)
      | inr e ↦
          elim (Bool-cases (iff (must_be_positive entry.kind) (is_positive entry.amount_cents))) [
            | inl f ↦ rw (append_entry, e, f) (written _ refl)
            | inr f ↦ rw (append_entry, e, f) (refused _)
          ]
    ]

pub append_cases :
    (P : List StoredLedgerEntry → Type 0) (deps : PaymentDeps) (now : ℕ) (m : StoredOutboxMessage)
    (entry : EntryInput) (w : World)
    → P w.store.ledger
    → ((id : ℕ) → P (w.store.ledger ++ ledger_entry now id entry ∷ []))
    → P (append deps now m entry w).1.store.ledger
unfolding append append_ledger_entries
append_cases P deps now m entry w h k =
    append_entry_cases (λ r. P (joined r (ok [], r.1)).1.ledger) now (outbox_actor deps m) entry
      w.store (λ e. h) (λ t e. rw e (k (new_id w.store)))

pub listed :
    (job_id : ℕ) (kind : LedgerEntryKind) (s : MemoryStore) (entries : List StoredLedgerEntry)
    → (list_ledger job_id Scope.staff s).0 ≡ ok entries
    → any (is_kind kind) entries ≡ false
    → count (is_entry job_id kind) s.ledger ≡ 0
unfolding list_ledger
listed job_id kind s entries e h = elim (Option-cases (visible_job s job_id Scope.staff)) [
  | inl f ↦ absurd (ground (arith, e, f))
  | inr (r, f) ↦
      let same : select (λ e. e.job_id == job_id) s.ledger ≡ entries = ground (arith, e, f) in
      count_of_not_any (is_entry job_id kind) s.ledger (
        sym (select-any (is_kind kind) (λ e. e.job_id == job_id) s.ledger)
        ∙ ap (any (is_kind kind)) same
        ∙ h)
]

pub call_and_append_cases :
    (P : List StoredLedgerEntry → Type 0) (deps : PaymentDeps) (now : ℕ) (m : StoredOutboxMessage)
    (call : GatewayCall) (entry : String → EntryInput) (w : World)
    → P w.store.ledger
    → ((id : ℕ) (reference : String)
        → P (w.store.ledger ++ ledger_entry now id (entry reference) ∷ []))
    → P (call_and_append deps now m call entry w).1.store.ledger
unfolding call_and_append
call_and_append_cases P deps now m call entry w h k =
    elim (Result-cases (deps.gateway w.calls call)) [
      | inl (e, f) ↦ rw (call_and_append, f) h
      | inr (reference, f) ↦
          rw (call_and_append, f)
            (append_cases P deps now m (entry reference) _ h (λ id. k id reference))
    ]

is_entry_same :
    (j job_id : ℕ) (k kind : LedgerEntryKind) (e : StoredLedgerEntry)
    → e.job_id ≡ job_id
    → e.kind ≡ kind
    → is_entry j k e ≡ true
    → (j ≡ job_id) × (k ≡ kind)
is_entry_same j job_id k kind e f g h = (ground arith, sym (===_eq e.kind k (ground arith)) ∙ g)

pub OnePayment-push :
    (job_id : ℕ) (kind : LedgerEntryKind) (ledger : List StoredLedgerEntry) (e : StoredLedgerEntry)
    → e.job_id ≡ job_id
    → e.kind ≡ kind
    → count (is_entry job_id kind) ledger ≡ 0
    → OnePayment ledger
    → OnePayment (ledger ++ e ∷ [])
OnePayment-push job_id kind ledger e f g none_yet h j k = elim (Bool-cases (is_entry j k e)) [
  | inr other ↦ rw (count-append (is_entry j k) ledger (e ∷ []), other) (omega (arith, h j k))
  | inl own ↦
      let (a, b) = is_entry_same j job_id k kind e f g own in
      let zero' : count (is_entry j k) ledger ≡ 0 = rw (a, b) none_yet in
      rw (count-append (is_entry j k) ledger (e ∷ []), own) (omega (arith, zero'))
]

-- An entry of another kind leaves a kind's count alone.
pub count-push_other :
    (job_id : ℕ) (kind : LedgerEntryKind) (ledger : List StoredLedgerEntry) (e : StoredLedgerEntry)
    → (e.kind === kind) ≡ false
    → count (is_entry job_id kind) ledger ≡ 0
    → count (is_entry job_id kind) (ledger ++ e ∷ []) ≡ 0
count-push_other job_id kind ledger e f h =
    rw (count-append (is_entry job_id kind) ledger (e ∷ [])) (ground (arith, h))
