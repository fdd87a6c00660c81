-- ===== src/System/Passes.antt =====
-- A pass of apps/api/src/worker/worker.ts with the registry of apps/api/src/app.ts acts on the store
-- by a history of method calls.
use mathlib.Core.Option.{some_inj}
use rescue.Contracts.Ops.{OutboxTopic}
use rescue.Prelude.{
  List, Option-cases, [], arith, inl, inr, refl, some, subst, suc, sym, ℕ, ◌∙◌, ◌∷◌, ◌≡◌,
}
use rescue.Store.Action.{Result-cases}
use rescue.Store.Calls.{run, Call, perform}
use rescue.Store.Queue.{claim_outbox}
use rescue.Store.Types.{StoredOutboxMessage}
use rescue.System.Effects.{IsRun, and_then, one_call, stays}
use rescue.System.Handlers.{
  HandlerRuns, authorise-HandlerRuns, capture_and_pay-HandlerRuns, release-HandlerRuns,
}
use rescue.Worker.{Handler, World}
use rescue.Worker.Drain.{
  DrainResult, Registry, WorkerOptions, app_handlers, compose_from, compose_one, drain, drain_each,
  in_turn, process, retry_at,
}
use rescue.Worker.Notices.{Sender, Template, notice_handlers, notify, template_for}
use rescue.Worker.Payments.{PaymentDeps, payment_handlers}

-- Every handler of a registry acts on the store by a history of method calls.
abbrev pub RegistryRuns : Registry → Type 0
RegistryRuns registry =
    (topic : OutboxTopic) (handler : Handler) → registry topic ≡ some handler → HandlerRuns handler

notify-HandlerRuns : (sender : Sender) (t : Template) → HandlerRuns (notify sender t)
unfolding notify run
notify-HandlerRuns sender t m w = ([], ground arith)

notice_handlers-RegistryRuns : (sender : Sender) → RegistryRuns (notice_handlers sender)
unfolding notice_handlers
notice_handlers-RegistryRuns sender topic handler e = elim (Option-cases (template_for topic)) [
  | inl f ↦ absurd (ground (arith, e, f))
  | inr (t, f) ↦
      let own : notify sender t ≡ handler = some_inj.0 (sym (rw (notice_handlers, f) refl) ∙ e) in
      subst HandlerRuns own (notify-HandlerRuns sender t)
]

payment_handlers-RegistryRuns :
    (deps : PaymentDeps) (now : ℕ) → RegistryRuns (payment_handlers deps now)
unfolding payment_handlers
payment_handlers-RegistryRuns deps now OutboxTopic.quote_decided handler e =
    subst HandlerRuns (some_inj.0 e) (authorise-HandlerRuns deps now)
payment_handlers-RegistryRuns deps now OutboxTopic.job_completed handler e =
    subst HandlerRuns (some_inj.0 e) (capture_and_pay-HandlerRuns deps now)
payment_handlers-RegistryRuns deps now OutboxTopic.job_cancelled handler e =
    subst HandlerRuns (some_inj.0 e) (release-HandlerRuns deps now)
payment_handlers-RegistryRuns deps now topic handler e = cc

in_turn-HandlerRuns :
    (existing handler : Handler)
    → HandlerRuns existing
    → HandlerRuns handler
    → HandlerRuns (in_turn existing handler)
unfolding in_turn
in_turn-HandlerRuns existing handler h k m w = elim (Result-cases (existing m w).0) [
  | inl (x, e) ↦ rw (in_turn, e) (h m w)
  | inr (u, e) ↦
      rw (in_turn, e) (and_then w.store (existing m w).1.store _ (h m w) (k m (existing m w).1))
]

compose_one-RegistryRuns :
    (composed registry : Registry)
    → RegistryRuns composed
    → RegistryRuns registry
    → RegistryRuns (compose_one composed registry)
unfolding compose_one
compose_one-RegistryRuns composed registry h k topic handler e =
    elim (Option-cases (registry topic)) [
      | inl f ↦ h topic handler (sym (rw (compose_one, f) refl) ∙ e)
      | inr (own, f) ↦ elim (Option-cases (composed topic)) [
        | inl g ↦ k topic handler (f ∙ sym (rw (compose_one, f, g) refl) ∙ e)
        | inr (existing, g) ↦
            let both : in_turn existing own ≡ handler =
              some_inj.0 (sym (rw (compose_one, f, g) refl) ∙ e) in
            subst HandlerRuns both
              (in_turn-HandlerRuns existing own (h topic existing g) (k topic own f))
      ]
    ]

pub app_handlers-RegistryRuns :
    (sender : Sender) (deps : PaymentDeps) (now : ℕ) → RegistryRuns (app_handlers sender deps now)
unfolding compose_from
app_handlers-RegistryRuns sender deps now =
    compose_one-RegistryRuns _ _
      (compose_one-RegistryRuns _ _ (λ topic handler e. cc) (notice_handlers-RegistryRuns sender))
      (payment_handlers-RegistryRuns deps now)

module _ (options : WorkerOptions) (acts : (now : ℕ) → RegistryRuns (options.handlers now)) where
  process-IsRun :
      (now : ℕ) (m : StoredOutboxMessage) (w : World)
      → IsRun w.store (process options now m w).1.store
  unfolding process perform
  process-IsRun now m w = elim (Option-cases (options.handlers now m.topic)) [
    | inl e ↦ rw (process, e) (one_call (Call.marks_outbox_delivered m.id now) w.store)
    | inr (handler, e) ↦
        let v = (handler m w).1 in
        let handled = acts now m.topic handler e m w in
        elim (Result-cases (handler m w).0) [
          | inr (u, f) ↦
              rw (process, e, f)
                (and_then w.store v.store _ handled
                  (one_call (Call.marks_outbox_delivered m.id now) v.store))
          | inl (x, f) ↦
              rw (process, e, f)
                (and_then w.store v.store _ handled (
                  one_call (Call.marks_outbox_failed m.id (options.message_of x) (retry_at now m))
                    v.store))
        ]
  ]

  drain_each-IsRun :
      (clock : ℕ → ℕ) (batch : List StoredOutboxMessage) (result : DrainResult) (w : World)
      → IsRun w.store (drain_each options clock batch result w).1.store
  unfolding drain_each
  drain_each-IsRun clock [] result w = stays w.store
  drain_each-IsRun clock (m ∷ rest) result w =
      and_then w.store (process options (clock 0) m w).1.store _ (process-IsRun (clock 0) m w)
        (drain_each-IsRun (λ n. clock (suc n)) rest _ (process options (clock 0) m w).1)

  pub drain-IsRun : (clock : ℕ → ℕ) (w : World) → IsRun w.store (drain options clock w).1.store
  unfolding drain perform
  drain-IsRun clock w =
      let (batch, t) = claim_outbox (clock 0) options.batch_size w.store in
      and_then w.store t _ (one_call (Call.claims_outbox (clock 0) options.batch_size) w.store)
        (drain_each-IsRun (λ n. clock (suc n)) batch _ (record w { store = t }))
