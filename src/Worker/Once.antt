-- ===== src/Worker/Once.antt =====
-- However often the messages of a job are delivered, apps/api/src/worker/payments.ts writes each of
-- its entries at most once.
pub mod Entries
use mathlib.Core.Option.{some_inj}
use rescue.Contracts.Ops.{LedgerEntryKind, OutboxTopic}
use rescue.Outbox.{Key, field}
use rescue.Prelude.{
  Bool-cases, List, Option-cases, [], any, count, false, find, inl, inr, none, refl, some, subst,
  ◌∷◌, ◌≡◌,
}
use rescue.Store.Action.{Result-cases, ok}
use rescue.Store.Ledger.{list_ledger}
use rescue.Store.Offers.{find_active_assignment}
use rescue.Store.Queue.{hold}
use rescue.Store.Quotes.{list_quotes_for_job}
use rescue.Store.Types.{Scope, StoredLedgerEntry, StoredOutboxMessage}
use rescue.Worker.{Handler, World}
use rescue.Worker.Once.Entries.{
  OnePayment, OnePayment-push, append_cases, call_and_append_cases, count-push_other, is_entry,
  listed,
}
use rescue.Worker.Payments.{
  PaymentDeps, authorise, authorise_job, capture, capture_and_pay, is_approval_event,
  is_approved_quote, is_kind, pay, payment_handlers,
}
use rescue.Contracts.Ops.{ledger_entry_kind_coded}
use rescue.Worker.Payments.{release}
use rescue.Prelude.{ℕ}

authorise_job-OnePayment :
    (deps : PaymentDeps) (now : ℕ) (m : StoredOutboxMessage) (job_id : ℕ) (w : World)
    → count (is_entry job_id LedgerEntryKind.authorisation) w.store.ledger ≡ 0
    → OnePayment w.store.ledger
    → OnePayment (authorise_job deps now m job_id w).1.store.ledger
unfolding authorise_job
authorise_job-OnePayment deps now m job_id w zero' h =
    elim (Result-cases (list_quotes_for_job job_id Scope.staff w.store).0) [
      | inl (e, f) ↦ rw (authorise_job, f) h
      | inr (quotes, f) ↦ elim (Option-cases (find is_approved_quote quotes)) [
        | inl g ↦ rw (authorise_job, f, g) h
        | inr (q, g) ↦
            rw (authorise_job, f, g)
              (call_and_append_cases OnePayment deps now m _ _ w h (λ id reference.
                OnePayment-push job_id LedgerEntryKind.authorisation w.store.ledger _ refl refl
                  zero' h))
      ]
    ]

authorise-OnePayment :
    (deps : PaymentDeps) (now : ℕ) (m : StoredOutboxMessage) (w : World)
    → OnePayment w.store.ledger
    → OnePayment (authorise deps now m w).1.store.ledger
unfolding authorise
authorise-OnePayment deps now m w h = elim (Option-cases m.job_id) [
  | inl a ↦ rw (authorise, a) h
  | inr (job_id, a) ↦ elim (Bool-cases (is_approval_event (field m.payload Key.event_type))) [
    | inr b ↦ rw (authorise, a, b) h
    | inl b ↦ elim (Result-cases (list_ledger job_id Scope.staff w.store).0) [
      | inl (e, c) ↦ rw (authorise, a, b, c) h
      | inr (entries, c) ↦ elim (Bool-cases (any (is_kind LedgerEntryKind.authorisation) entries)) [
        | inl d ↦ rw (authorise, a, b, c, d) h
        | inr d ↦
            rw (authorise, a, b, c, d)
              (authorise_job-OnePayment deps now m job_id w
                (listed job_id LedgerEntryKind.authorisation w.store entries c d) h)
      ]
    ]
  ]
]

-- What holds of the ledger between the two halves of `captureAndPay`.
abbrev Unpaid : ℕ → List StoredLedgerEntry → List StoredLedgerEntry → Type 0
Unpaid job_id entries ledger =
    OnePayment ledger
    × (any (is_kind LedgerEntryKind.payout) entries ≡ false
        → count (is_entry job_id LedgerEntryKind.payout) ledger ≡ 0)

capture-Unpaid :
    (deps : PaymentDeps) (now : ℕ) (m : StoredOutboxMessage) (job_id : ℕ)
    (entries : List StoredLedgerEntry) (hold : StoredLedgerEntry) (w : World)
    → (list_ledger job_id Scope.staff w.store).0 ≡ ok entries
    → OnePayment w.store.ledger
    → Unpaid job_id entries (capture deps now m job_id entries hold w).1.store.ledger
unfolding capture
capture-Unpaid deps now m job_id entries hold w c h =
    let unpaid = listed job_id LedgerEntryKind.payout w.store entries c in
    elim (Bool-cases (any (is_kind LedgerEntryKind.capture) entries)) [
      | inl d ↦ rw (capture, d) (h, unpaid)
      | inr d ↦
          rw (capture, d)
            (call_and_append_cases (Unpaid job_id entries) deps now m _ _ w (h, unpaid)
              (λ id reference. (
                OnePayment-push job_id LedgerEntryKind.capture w.store.ledger _ refl refl
                    (listed job_id LedgerEntryKind.capture w.store entries c d) h,
                λ e.
                    count-push_other job_id LedgerEntryKind.payout w.store.ledger _ refl (unpaid e),
              )))
    ]

pay-OnePayment :
    (deps : PaymentDeps) (now : ℕ) (m : StoredOutboxMessage) (job_id : ℕ)
    (entries : List StoredLedgerEntry) (hold : StoredLedgerEntry) (w : World)
    → Unpaid job_id entries w.store.ledger
    → OnePayment (pay deps now m job_id entries hold w).1.store.ledger
unfolding pay
pay-OnePayment deps now m job_id entries hold w (h, unpaid) =
    elim (Bool-cases (any (is_kind LedgerEntryKind.payout) entries)) [
      | inl d ↦ rw (pay, d) h
      | inr d ↦ elim (Option-cases (find_active_assignment job_id w.store)) [
        | inl e ↦ rw (pay, d, e) h
        | inr (a, e) ↦
            rw (pay, d, e)
              (call_and_append_cases OnePayment deps now m _ _ w h (λ id reference.
                OnePayment-push job_id LedgerEntryKind.payout w.store.ledger _ refl refl (unpaid d)
                  h))
      ]
    ]

capture_and_pay-OnePayment :
    (deps : PaymentDeps) (now : ℕ) (m : StoredOutboxMessage) (w : World)
    → OnePayment w.store.ledger
    → OnePayment (capture_and_pay deps now m w).1.store.ledger
unfolding capture_and_pay
capture_and_pay-OnePayment deps now m w h = elim (Option-cases m.job_id) [
  | inl a ↦ rw (capture_and_pay, a) h
  | inr (job_id, a) ↦ elim (Result-cases (list_ledger job_id Scope.staff w.store).0) [
    | inl (e, c) ↦ rw (capture_and_pay, a, c) h
    | inr (entries, c) ↦
        elim (Option-cases (find (is_kind LedgerEntryKind.authorisation) entries)) [
          | inl f ↦ rw (capture_and_pay, a, c, f) h
          | inr (hold, f) ↦
              let half = capture-Unpaid deps now m job_id entries hold w c h in
              elim (Result-cases (capture deps now m job_id entries hold w).0) [
                | inl (e, g) ↦ rw (capture_and_pay, a, c, f, g) half.0
                | inr (u, g) ↦
                    rw (capture_and_pay, a, c, f, g)
                      (pay-OnePayment deps now m job_id entries hold _ half)
              ]
        ]
  ]
]

release-OnePayment :
    (deps : PaymentDeps) (now : ℕ) (m : StoredOutboxMessage) (w : World)
    → OnePayment w.store.ledger
    → OnePayment (release deps now m w).1.store.ledger
unfolding release
release-OnePayment deps now m w h = elim (Option-cases m.job_id) [
  | inl a ↦ rw (release, a) h
  | inr (job_id, a) ↦ elim (Result-cases (list_ledger job_id Scope.staff w.store).0) [
    | inl (e, c) ↦ rw (release, a, c) h
    | inr (entries, c) ↦
        elim (Option-cases (find (is_kind LedgerEntryKind.authorisation) entries)) [
          | inl f ↦ rw (release, a, c, f) h
          | inr (hold, f) ↦ elim (Bool-cases (any (is_kind LedgerEntryKind.capture) entries)) [
            | inl g ↦ rw (release, a, c, f, g) h
            | inr g ↦ elim (Bool-cases (any (is_kind LedgerEntryKind.authorisation_void) entries)) [
              | inl d ↦ rw (release, a, c, f, g, d) h
              | inr d ↦
                  rw (release, a, c, f, g, d)
                    (append_cases OnePayment deps now m _ w h (λ id.
                      OnePayment-push job_id LedgerEntryKind.authorisation_void w.store.ledger _
                        refl refl
                        (listed job_id LedgerEntryKind.authorisation_void w.store entries c d) h))
            ]
          ]
        ]
  ]
]

-- Messages, each delivered at an instant, one after the other, whatever their handlers answer.
unfoldable pub deliver_all : PaymentDeps → List (ℕ × StoredOutboxMessage) → World → World
unfolding payment_handlers
deliver_all deps [] w = w
deliver_all deps ((now, m) ∷ rest) w = elim (payment_handlers deps now m.topic) [
  | none ↦ deliver_all deps rest w
  | some handler ↦ deliver_all deps rest (handler m w).1
]

handler-OnePayment :
    (deps : PaymentDeps) (now : ℕ) (topic : OutboxTopic) (handler : Handler)
    (m : StoredOutboxMessage) (w : World)
    → payment_handlers deps now topic ≡ some handler
    → OnePayment w.store.ledger
    → OnePayment (handler m w).1.store.ledger
unfolding payment_handlers
handler-OnePayment deps now OutboxTopic.quote_decided handler m w e h =
    subst (λ (g : Handler). OnePayment (g m w).1.store.ledger) (some_inj.0 e)
      (authorise-OnePayment deps now m w h)
handler-OnePayment deps now OutboxTopic.job_completed handler m w e h =
    subst (λ (g : Handler). OnePayment (g m w).1.store.ledger) (some_inj.0 e)
      (capture_and_pay-OnePayment deps now m w h)
handler-OnePayment deps now OutboxTopic.job_cancelled handler m w e h =
    subst (λ (g : Handler). OnePayment (g m w).1.store.ledger) (some_inj.0 e)
      (release-OnePayment deps now m w h)
handler-OnePayment deps now topic handler m w e h = cc

-- From a ledger in which no job has two entries of one kind, no sequence of deliveries leads to
-- one: however often a message comes, and whatever the gateway answers, a job is authorised,
-- captured, paid out and released at most once.
pub deliver_all-OnePayment :
    (deps : PaymentDeps) (deliveries : List (ℕ × StoredOutboxMessage)) (w : World)
    → OnePayment w.store.ledger
    → OnePayment (deliver_all deps deliveries w).store.ledger
unfolding deliver_all
deliver_all-OnePayment deps [] w h = h
deliver_all-OnePayment deps ((now, m) ∷ rest) w h =
    elim (Option-cases (payment_handlers deps now m.topic)) [
      | inl e ↦ rw (deliver_all, e) (deliver_all-OnePayment deps rest w h)
      | inr (handler, e) ↦
          rw (deliver_all, e)
            (deliver_all-OnePayment deps rest _
              (handler-OnePayment deps now m.topic handler m w e h))
    ]
