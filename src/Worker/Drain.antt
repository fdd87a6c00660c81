-- ===== src/Worker/Drain.antt =====
-- apps/api/src/worker/worker.ts: one pass over the outbox, and the composition of registries. The
-- clock is the sequence of its readings, one for the claim and one for each message; the registry
-- takes the reading that its handlers see.
use rescue.Worker.Notices.{Sender, notice_handlers}
use rescue.Worker.Payments.{PaymentDeps, payment_handlers}
use rescue.Contracts.Errors.{AppError}
use rescue.Contracts.Ops.{OutboxTopic, outbox_backoff_ms, outbox_max_attempts}
use rescue.Prelude.{
  Bool, List, Option, String, [], if◌then◌else◌, leb, length, none, some, suc, ◌+◌, ◌∷◌,
}
use rescue.Store.Action.{err, ok}
use rescue.Store.Queue.{claim_outbox, mark_outbox_delivered, mark_outbox_failed}
use rescue.Store.Types.{StoredOutboxMessage}
use rescue.Worker.{Handler, World}
use rescue.Prelude.{ℕ}

abbrev pub Registry : Type 0
Registry = OutboxTopic → Option Handler

pub record WorkerOptions : Type 0 where
  pub handlers : ℕ → Registry
  pub batch_size : ℕ
  -- the text of what was thrown
  pub message_of : AppError → String

abbrev pub default_batch_size : ℕ
default_batch_size = 20

pub record DrainResult : Type 0 where
  pub claimed : ℕ
  pub delivered : ℕ
  pub failed : ℕ
  pub dead : ℕ
  pub skipped : ℕ

-- What became of one message.
pub data Outcome : Type 0 where
  delivered failed dead skipped : Outcome

abbrev pub give_up : StoredOutboxMessage → Bool
give_up m = leb outbox_max_attempts (m.attempts + 1)

abbrev pub retry_at : ℕ → StoredOutboxMessage → Option ℕ
retry_at now m = if give_up m then none else some (now + outbox_backoff_ms (m.attempts + 1))

abbrev pub mark_delivered : ℕ → StoredOutboxMessage → World → World
mark_delivered now m w = record w { store = mark_outbox_delivered m.id now w.store }

-- The body of the loop of `drain`.
unfoldable pub process : WorkerOptions → ℕ → StoredOutboxMessage → World → Outcome × World
process options now m w = elim (options.handlers now m.topic) [
  | none ↦ (Outcome.skipped, mark_delivered now m w)
  | some handler ↦
      let (answer, w') = handler m w in
      elim answer [
        | ok _ ↦ (Outcome.delivered, mark_delivered now m w')
        | err e ↦ (
          if give_up m then Outcome.dead else Outcome.failed,
          record w' {
            store = mark_outbox_failed m.id (options.message_of e) (retry_at now m) w'.store;
          },
        )
      ]
]

abbrev pub add_outcome : Outcome → DrainResult → DrainResult
add_outcome Outcome.delivered r = record r { delivered = r.delivered + 1 }
add_outcome Outcome.failed r = record r { failed = r.failed + 1 }
add_outcome Outcome.dead r = record r { dead = r.dead + 1 }
add_outcome Outcome.skipped r = record r { skipped = r.skipped + 1 }

unfoldable pub drain_each :
    WorkerOptions → (ℕ → ℕ) → List StoredOutboxMessage → DrainResult → World → DrainResult × World
drain_each options clock [] result w = (result, w)
drain_each options clock (m ∷ rest) result w =
    let (outcome, w') = process options (clock 0) m w in
    drain_each options (λ n. clock (suc n)) rest (add_outcome outcome result) w'

unfoldable pub drain : WorkerOptions → (ℕ → ℕ) → World → DrainResult × World
drain options clock w =
    let (batch, s) = claim_outbox (clock 0) options.batch_size w.store in
    drain_each options (λ n. clock (suc n)) batch
      (record { claimed = length batch; delivered = 0; failed = 0; dead = 0; skipped = 0 })
      (record w { store = s })

-- One handler after another: the second runs if the first returns.
unfoldable pub in_turn : Handler → Handler → Handler
in_turn existing handler m w =
    let (answer, w') = existing m w in elim answer [ err e ↦ (err e, w') | ok _ ↦ handler m w' ]

-- One registry on top of what is composed so far.
unfoldable pub compose_one : Registry → Registry → Registry
compose_one composed registry topic = elim (registry topic) [
  | none ↦ composed topic
  | some handler ↦ elim (composed topic) [
    | none ↦ some handler
    | some existing ↦ some (in_turn existing handler)
  ]
]

-- The loop of `composeHandlers`.
unfoldable pub compose_from : Registry → List Registry → Registry
compose_from composed [] = composed
compose_from composed (registry ∷ rest) = compose_from (compose_one composed registry) rest

abbrev pub compose_handlers : List Registry → Registry
compose_handlers registries = compose_from (λ topic. none) registries

-- The registry that apps/api/src/app.ts gives the worker: notifications first.
abbrev pub app_handlers : Sender → PaymentDeps → ℕ → Registry
app_handlers sender deps now =
    compose_handlers (notice_handlers sender ∷ payment_handlers deps now ∷ [])
