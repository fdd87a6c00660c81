-- ===== src/Worker/Payments.antt =====
-- apps/api/src/worker/payments.ts: the handlers that authorise, capture, pay and release. Shares
-- are whole per cents.
use rescue.Contracts.Auth.{UserRole}
use rescue.Contracts.Commerce.{OfferStatus, QuoteStatus}
use rescue.Outbox.{event_type_coded}
use rescue.Contracts.Ops.{LedgerEntryKind, OutboxTopic}
use rescue.Outbox.{EventType, Key, Value, field}
use rescue.Prelude.{
  Bool, List, Option, String, [], any, false, find, if◌then◌else◌, none, not, or_else, some, ◌*◌,
  ◌++◌, ◌+◌, ◌/◌, ◌===◌, ◌∷◌,
}
use rescue.Prelude.Int.{neg, pos, pos_part, ℤ}
use rescue.Store.Action.{Result, err, ok}
use rescue.Store.Ledger.{EntryInput, append_ledger_entries, list_ledger}
use rescue.Store.Offers.{find_active_assignment, list_offers_for_job}
use rescue.Store.Queue.{hold}
use rescue.Store.Quotes.{list_quotes_for_job}
use rescue.Store.Types.{
  Actor, Scope, StoredLedgerEntry, StoredOffer, StoredOutboxMessage, StoredQuote,
}
use rescue.Worker.{GatewayCall, Handler, World, done, finished}
use rescue.Contracts.Commerce.{quote_status_coded, offer_status_coded}
use rescue.Contracts.Ops.{ledger_entry_kind_coded}
use Prim.Native.String.{◌++◌ as text_append}
use rescue.Prelude.{ℕ}

-- What the gateway answers to a call, after the calls that went before: its reference, or an error,
-- which stands for whatever it throws.
abbrev pub Gateway : Type 0
Gateway = List GatewayCall → GatewayCall → Result String

-- The text of an id, as ids are numbers here, is a parameter.
pub record PaymentDeps : Type 0 where
  pub gateway : Gateway
  pub provider_share : ℕ
  pub id_text : ℕ → String

abbrev pub default_provider_share : ℕ
default_provider_share = 72

-- `actor` of the entries that a message leads to.
abbrev pub outbox_actor : PaymentDeps → StoredOutboxMessage → Actor
outbox_actor deps m = record {
  user_id = none;
  role = UserRole.admin;
  correlation_id = some (text_append "outbox:" (deps.id_text m.id));
}

abbrev pub is_kind : LedgerEntryKind → StoredLedgerEntry → Bool
is_kind kind e = e.kind === kind

abbrev pub entry_of : ℕ → LedgerEntryKind → ℤ → Option String → String → EntryInput
entry_of job_id kind amount reference note = record {
  job_id = job_id;
  kind = kind;
  amount_cents = amount;
  external_reference = reference;
  note = some note;
}

-- `appendLedgerEntries` with one entry.
unfoldable pub append :
    PaymentDeps → ℕ → StoredOutboxMessage → EntryInput → World → Result (Unit {0}) × World
append deps now m entry w =
    let (r, s) = append_ledger_entries now (entry ∷ []) (outbox_actor deps m) w.store in
    (finished r, record w { store = s })

-- A call of the gateway, and then the entry that records it.
unfoldable pub call_and_append :
    PaymentDeps
    → ℕ
    → StoredOutboxMessage
    → GatewayCall
    → (String → EntryInput)
    → World
    → Result (Unit {0}) × World
call_and_append deps now m call entry w =
    let called = record w { calls = w.calls ++ call ∷ [] } in
    elim (deps.gateway w.calls call) [
      | err e ↦ (err e, called)
      | ok reference ↦ append deps now m (entry reference) called
    ]

abbrev pub is_approval_event : Option Value → Bool
is_approval_event (some (Value.event e)) = e === EventType.quote_approved
is_approval_event _ = false

abbrev pub is_approved_quote : StoredQuote → Bool
is_approved_quote q = q.status === QuoteStatus.approved

-- `authorise`, for a job that has no hold yet.
unfoldable pub authorise_job :
    PaymentDeps → ℕ → StoredOutboxMessage → ℕ → World → Result (Unit {0}) × World
authorise_job deps now m job_id w = elim (list_quotes_for_job job_id Scope.staff w.store).0 [
  | err e ↦ (err e, w)
  | ok quotes ↦ elim (find is_approved_quote quotes) [
    | none ↦ done w
    | some q ↦
        call_and_append deps now m (GatewayCall.authorise job_id q.gross_cents)
          (λ reference.
            entry_of job_id LedgerEntryKind.authorisation (pos q.gross_cents) (some reference)
              "Hold placed when the customer approved the quote")
          w
  ]
]

unfoldable pub authorise : PaymentDeps → ℕ → Handler
authorise deps now m w = elim m.job_id [
  | none ↦ done w
  | some job_id ↦
      if not (is_approval_event (field m.payload Key.event_type))
      then done w
      else elim (list_ledger job_id Scope.staff w.store).0 [
        | err e ↦ (err e, w)
        | ok entries ↦
            if any (is_kind LedgerEntryKind.authorisation) entries
            then done w
            else authorise_job deps now m job_id w
      ]
]

-- The first half of `captureAndPay`: take the money that is held.
unfoldable pub capture :
    PaymentDeps
    → ℕ
    → StoredOutboxMessage
    → ℕ
    → List StoredLedgerEntry
    → StoredLedgerEntry
    → World
    → Result (Unit {0}) × World
capture deps now m job_id entries hold w =
    if any (is_kind LedgerEntryKind.capture) entries
    then done w
    else call_and_append deps now m
        (GatewayCall.capture
          (or_else hold.external_reference (text_append "auth:" (deps.id_text job_id)))
          hold.amount_cents)
        (λ reference.
          entry_of job_id LedgerEntryKind.capture hold.amount_cents (some reference)
            "Captured on completion, against proof of delivery")
        w

abbrev pub is_accepted_offer : StoredOffer → Bool
is_accepted_offer o = o.status === OfferStatus.accepted

-- What the carrier is paid. A hold is positive.
unfoldable pub payout_cents : PaymentDeps → List StoredOffer → StoredLedgerEntry → ℕ
payout_cents deps offers hold = elim (find is_accepted_offer offers) [
  | some o ↦ o.payout_net_cents
  | none ↦ (pos_part hold.amount_cents * deps.provider_share + 50) / 100
]

-- The second half: pay the carrier that holds the job.
unfoldable pub pay :
    PaymentDeps
    → ℕ
    → StoredOutboxMessage
    → ℕ
    → List StoredLedgerEntry
    → StoredLedgerEntry
    → World
    → Result (Unit {0}) × World
pay deps now m job_id entries hold w =
    if any (is_kind LedgerEntryKind.payout) entries
    then done w
    else elim (find_active_assignment job_id w.store) [
      | none ↦ done w
      | some a ↦
          let cents = payout_cents deps (list_offers_for_job job_id w.store) hold in
          call_and_append deps now m (GatewayCall.payout a.provider_id job_id cents)
            (λ reference.
              entry_of job_id LedgerEntryKind.payout (neg (pos cents)) (some reference)
                "Payout to the provider that completed the work")
            w
    ]

unfoldable pub capture_and_pay : PaymentDeps → ℕ → Handler
capture_and_pay deps now m w = elim m.job_id [
  | none ↦ done w
  | some job_id ↦ elim (list_ledger job_id Scope.staff w.store).0 [
    | err e ↦ (err e, w)
    | ok entries ↦ elim (find (is_kind LedgerEntryKind.authorisation) entries) [
      | none ↦ done w
      | some hold ↦
          let (r, w') = capture deps now m job_id entries hold w in
          elim r [ err e ↦ (err e, w') | ok _ ↦ pay deps now m job_id entries hold w' ]
    ]
  ]
]

unfoldable pub release : PaymentDeps → ℕ → Handler
release deps now m w = elim m.job_id [
  | none ↦ done w
  | some job_id ↦ elim (list_ledger job_id Scope.staff w.store).0 [
    | err e ↦ (err e, w)
    | ok entries ↦ elim (find (is_kind LedgerEntryKind.authorisation) entries) [
      | none ↦ done w
      | some hold ↦
          if any (is_kind LedgerEntryKind.capture) entries
          then done w
          else if any (is_kind LedgerEntryKind.authorisation_void) entries
          then done w
          else append deps now m
              (entry_of job_id LedgerEntryKind.authorisation_void (neg hold.amount_cents)
                hold.external_reference "Hold released when the job was cancelled")
              w
    ]
  ]
]

-- `buildPaymentHandlers`: the handler of a topic, if it has one.
unfoldable pub payment_handlers : PaymentDeps → ℕ → OutboxTopic → Option Handler
payment_handlers deps now OutboxTopic.quote_decided = some (authorise deps now)
payment_handlers deps now OutboxTopic.job_completed = some (capture_and_pay deps now)
payment_handlers deps now OutboxTopic.job_cancelled = some (release deps now)
payment_handlers deps now _ = none
