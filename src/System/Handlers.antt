-- ===== src/System/Handlers.antt =====
-- A pass of apps/api/src/worker/worker.ts acts on the store by a history of method calls.
use rescue.Worker.Payments.{release}
use rescue.Contracts.Ops.{LedgerEntryKind}
use rescue.Outbox.{Key, field}
use rescue.Prelude.{Bool-cases, List, Option-cases, String, [], any, find, inl, inr, ℕ, ◌∷◌}
use rescue.Store.Action.{Result-cases}
use rescue.Store.Calls.{Call, perform}
use rescue.Store.Ledger.{EntryInput, list_ledger}
use rescue.Store.Offers.{find_active_assignment}
use rescue.Store.Quotes.{list_quotes_for_job}
use rescue.Store.Types.{Scope, StoredLedgerEntry, StoredOutboxMessage}
use rescue.System.Effects.{IsRun, and_then, one_call, stays}
use rescue.Worker.{GatewayCall, Handler, World}
use rescue.Worker.Payments.{
  PaymentDeps, append, authorise, authorise_job, call_and_append, capture, capture_and_pay,
  is_approval_event, is_approved_quote, is_kind, outbox_actor, pay,
}

-- A handler whose effect on the store is a history of method calls, whether it returns or throws.
abbrev pub HandlerRuns : Handler → Type 0
HandlerRuns h = (m : StoredOutboxMessage) (w : World) → IsRun w.store (h m w).1.store

append-IsRun :
    (deps : PaymentDeps) (now : ℕ) (m : StoredOutboxMessage) (entry : EntryInput) (w : World)
    → IsRun w.store (append deps now m entry w).1.store
unfolding append perform
append-IsRun deps now m entry w =
    one_call (Call.appends_ledger now (entry ∷ []) (outbox_actor deps m)) w.store

call_and_append-IsRun :
    (deps : PaymentDeps) (now : ℕ) (m : StoredOutboxMessage) (call : GatewayCall)
    (entry : String → EntryInput) (w : World)
    → IsRun w.store (call_and_append deps now m call entry w).1.store
unfolding call_and_append
call_and_append-IsRun deps now m call entry w = elim (Result-cases (deps.gateway w.calls call)) [
  | inl (x, e) ↦ rw (call_and_append, e) (stays w.store)
  | inr (reference, e) ↦ rw (call_and_append, e) (append-IsRun deps now m (entry reference) _)
]

authorise_job-IsRun :
    (deps : PaymentDeps) (now : ℕ) (m : StoredOutboxMessage) (job_id : ℕ) (w : World)
    → IsRun w.store (authorise_job deps now m job_id w).1.store
unfolding authorise_job
authorise_job-IsRun deps now m job_id w =
    elim (Result-cases (list_quotes_for_job job_id Scope.staff w.store).0) [
      | inl (x, e) ↦ rw (authorise_job, e) (stays w.store)
      | inr (quotes, e) ↦ elim (Option-cases (find is_approved_quote quotes)) [
        | inl f ↦ rw (authorise_job, e, f) (stays w.store)
        | inr (q, f) ↦ rw (authorise_job, e, f) (call_and_append-IsRun deps now m _ _ w)
      ]
    ]

pub authorise-HandlerRuns : (deps : PaymentDeps) (now : ℕ) → HandlerRuns (authorise deps now)
unfolding authorise
authorise-HandlerRuns deps now m w = elim (Option-cases m.job_id) [
  | inl e ↦ rw (authorise, e) (stays w.store)
  | inr (job_id, e) ↦ elim (Bool-cases (is_approval_event (field m.payload Key.event_type))) [
    | inr f ↦ rw (authorise, e, f) (stays w.store)
    | inl f ↦ elim (Result-cases (list_ledger job_id Scope.staff w.store).0) [
      | inl (x, g) ↦ rw (authorise, e, f, g) (stays w.store)
      | inr (entries, g) ↦ elim (Bool-cases (any (is_kind LedgerEntryKind.authorisation) entries)) [
        | inl h ↦ rw (authorise, e, f, g, h) (stays w.store)
        | inr h ↦ rw (authorise, e, f, g, h) (authorise_job-IsRun deps now m job_id w)
      ]
    ]
  ]
]

capture-IsRun :
    (deps : PaymentDeps) (now : ℕ) (m : StoredOutboxMessage) (job_id : ℕ)
    (entries : List StoredLedgerEntry) (held : StoredLedgerEntry) (w : World)
    → IsRun w.store (capture deps now m job_id entries held w).1.store
unfolding capture
capture-IsRun deps now m job_id entries held w =
    elim (Bool-cases (any (is_kind LedgerEntryKind.capture) entries)) [
      | inl e ↦ rw (capture, e) (stays w.store)
      | inr e ↦ rw (capture, e) (call_and_append-IsRun deps now m _ _ w)
    ]

pay-IsRun :
    (deps : PaymentDeps) (now : ℕ) (m : StoredOutboxMessage) (job_id : ℕ)
    (entries : List StoredLedgerEntry) (held : StoredLedgerEntry) (w : World)
    → IsRun w.store (pay deps now m job_id entries held w).1.store
unfolding pay
pay-IsRun deps now m job_id entries held w =
    elim (Bool-cases (any (is_kind LedgerEntryKind.payout) entries)) [
      | inl e ↦ rw (pay, e) (stays w.store)
      | inr e ↦ elim (Option-cases (find_active_assignment job_id w.store)) [
        | inl f ↦ rw (pay, e, f) (stays w.store)
        | inr (a, f) ↦ rw (pay, e, f) (call_and_append-IsRun deps now m _ _ w)
      ]
    ]

pub capture_and_pay-HandlerRuns :
    (deps : PaymentDeps) (now : ℕ) → HandlerRuns (capture_and_pay deps now)
unfolding capture_and_pay
capture_and_pay-HandlerRuns deps now m w = elim (Option-cases m.job_id) [
  | inl e ↦ rw (capture_and_pay, e) (stays w.store)
  | inr (job_id, e) ↦ elim (Result-cases (list_ledger job_id Scope.staff w.store).0) [
    | inl (x, g) ↦ rw (capture_and_pay, e, g) (stays w.store)
    | inr (entries, g) ↦
        elim (Option-cases (find (is_kind LedgerEntryKind.authorisation) entries)) [
          | inl h ↦ rw (capture_and_pay, e, g, h) (stays w.store)
          | inr (held, h) ↦
              let w' = (capture deps now m job_id entries held w).1 in
              let taken = capture-IsRun deps now m job_id entries held w in
              elim (Result-cases (capture deps now m job_id entries held w).0) [
                | inl (x, k) ↦ rw (capture_and_pay, e, g, h, k) taken
                | inr (u, k) ↦
                    rw (capture_and_pay, e, g, h, k)
                      (and_then w.store w'.store _ taken
                        (pay-IsRun deps now m job_id entries held w'))
              ]
        ]
  ]
]

pub release-HandlerRuns : (deps : PaymentDeps) (now : ℕ) → HandlerRuns (release deps now)
unfolding release
release-HandlerRuns deps now m w = elim (Option-cases m.job_id) [
  | inl e ↦ rw (release, e) (stays w.store)
  | inr (job_id, e) ↦ elim (Result-cases (list_ledger job_id Scope.staff w.store).0) [
    | inl (x, g) ↦ rw (release, e, g) (stays w.store)
    | inr (entries, g) ↦
        elim (Option-cases (find (is_kind LedgerEntryKind.authorisation) entries)) [
          | inl h ↦ rw (release, e, g, h) (stays w.store)
          | inr (held, h) ↦ elim (Bool-cases (any (is_kind LedgerEntryKind.capture) entries)) [
            | inl k ↦ rw (release, e, g, h, k) (stays w.store)
            | inr k ↦ elim (Bool-cases (any (is_kind LedgerEntryKind.authorisation_void) entries)) [
              | inl l ↦ rw (release, e, g, h, k, l) (stays w.store)
              | inr l ↦ rw (release, e, g, h, k, l) (append-IsRun deps now m _ w)
            ]
          ]
        ]
  ]
]
