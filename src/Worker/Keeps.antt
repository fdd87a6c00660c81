-- ===== src/Worker/Keeps.antt =====
-- The handlers of apps/api/src/worker leave the outbox and the jobs alone.
use rescue.Contracts.Ops.{OutboxTopic}
use rescue.Prelude.{Option-cases, inl, inr, refl, subst, sym, ◌∙◌}
use rescue.Store.Action.{Result-cases}
use rescue.Worker.{Handler}
use rescue.Worker.Drain.{Registry, app_handlers, compose_from, compose_one, in_turn}
use rescue.Worker.Notices.{notice_handlers, template_for}
use rescue.Worker.Payments.{payment_handlers}
use rescue.Worker.Settled.{IsQuiet}
use rescue.Prelude.{List, String, ◌≡◌}
use rescue.Store.Ledger.{EntryInput, append_entry, append_ledger_entries}
use rescue.Store.Queue.{hold}
use rescue.Store.State.{record_audit}
use rescue.Store.Types.{StoredLedgerEntry, StoredOutboxMessage}
use rescue.Worker.{GatewayCall, World}
use rescue.Worker.Notices.{Sender, Template, notify}
use rescue.Worker.Payments.{
  PaymentDeps, append, authorise, authorise_job, call_and_append, capture, capture_and_pay, pay,
}
use mathlib.Core.Option.{some_inj}
use rescue.Worker.Payments.{release}
use rescue.Prelude.{ℕ, arith}

append-outbox :
    (deps : PaymentDeps) (now : ℕ) (m : StoredOutboxMessage) (entry : EntryInput) (w : World)
    → (append deps now m entry w).1.store.outbox ≡ w.store.outbox
unfolding append append_ledger_entries append_entry record_audit
append-outbox deps now m entry w = ground arith

call_and_append-outbox :
    (deps : PaymentDeps) (now : ℕ) (m : StoredOutboxMessage) (call : GatewayCall)
    (entry : String → EntryInput) (w : World)
    → (call_and_append deps now m call entry w).1.store.outbox ≡ w.store.outbox
unfolding call_and_append
call_and_append-outbox deps now m call entry w = grind (arith, append-outbox)

authorise-outbox :
    (deps : PaymentDeps) (now : ℕ) (m : StoredOutboxMessage) (w : World)
    → (authorise deps now m w).1.store.outbox ≡ w.store.outbox
unfolding authorise authorise_job
authorise-outbox deps now m w = grind (arith, call_and_append-outbox)

capture-outbox :
    (deps : PaymentDeps) (now : ℕ) (m : StoredOutboxMessage) (job_id : ℕ)
    (entries : List StoredLedgerEntry) (hold : StoredLedgerEntry) (w : World)
    → (capture deps now m job_id entries hold w).1.store.outbox ≡ w.store.outbox
unfolding capture
capture-outbox deps now m job_id entries hold w = grind (arith, call_and_append-outbox)

pay-outbox :
    (deps : PaymentDeps) (now : ℕ) (m : StoredOutboxMessage) (job_id : ℕ)
    (entries : List StoredLedgerEntry) (hold : StoredLedgerEntry) (w : World)
    → (pay deps now m job_id entries hold w).1.store.outbox ≡ w.store.outbox
unfolding pay
pay-outbox deps now m job_id entries hold w = grind (arith, call_and_append-outbox)

capture_and_pay-outbox :
    (deps : PaymentDeps) (now : ℕ) (m : StoredOutboxMessage) (w : World)
    → (capture_and_pay deps now m w).1.store.outbox ≡ w.store.outbox
unfolding capture_and_pay
capture_and_pay-outbox deps now m w = grind (arith, capture-outbox, pay-outbox)

release-outbox :
    (deps : PaymentDeps) (now : ℕ) (m : StoredOutboxMessage) (w : World)
    → (release deps now m w).1.store.outbox ≡ w.store.outbox
unfolding release
release-outbox deps now m w = grind (arith, append-outbox)

notify-outbox :
    (sender : Sender) (t : Template) (m : StoredOutboxMessage) (w : World)
    → (notify sender t m w).1.store.outbox ≡ w.store.outbox
unfolding notify
notify-outbox sender t m w = ground arith

in_turn-outbox :
    (existing handler : Handler) (m : StoredOutboxMessage) (w : World)
    → (existing m w).1.store.outbox ≡ w.store.outbox
    → ((v : World) → (handler m v).1.store.outbox ≡ v.store.outbox)
    → (in_turn existing handler m w).1.store.outbox ≡ w.store.outbox
unfolding in_turn
in_turn-outbox existing handler m w h k = elim (Result-cases (existing m w).0) [
  | inl (e, f) ↦ rw (in_turn, f) h
  | inr (u, f) ↦ rw (in_turn, f) (k (existing m w).1 ∙ h)
]

IsQuiet-compose_one :
    (composed registry : Registry)
    → IsQuiet composed
    → IsQuiet registry
    → IsQuiet (compose_one composed registry)
unfolding compose_one in_turn
IsQuiet-compose_one composed registry q r topic handler e m w =
    elim (Option-cases (registry topic)) [
      | inl f ↦ q topic handler (sym (rw (compose_one, f) refl) ∙ e) m w
      | inr (h, f) ↦ elim (Option-cases (composed topic)) [
        | inl g ↦ r topic handler (f ∙ sym (rw (compose_one, f, g) refl) ∙ e) m w
        | inr (h', g) ↦
            let own : in_turn h' h ≡ handler = some_inj.0 (sym (rw (compose_one, f, g) refl) ∙ e) in
            subst (λ (g : Handler). (g m w).1.store.outbox ≡ w.store.outbox) own
              (in_turn-outbox h' h m w (q topic h' g m w) (r topic h f m))
      ]
    ]

notice_handlers-IsQuiet : (sender : Sender) → IsQuiet (notice_handlers sender)
unfolding notice_handlers
notice_handlers-IsQuiet sender topic handler e m w = elim (Option-cases (template_for topic)) [
  | inl f ↦ absurd (ground (arith, e, f))
  | inr (t, f) ↦
      let own : notify sender t ≡ handler = some_inj.0 (sym (rw (notice_handlers, f) refl) ∙ e) in
      subst (λ (g : Handler). (g m w).1.store.outbox ≡ w.store.outbox) own
        (notify-outbox sender t m w)
]

payment_handlers-IsQuiet : (deps : PaymentDeps) (now : ℕ) → IsQuiet (payment_handlers deps now)
unfolding payment_handlers
payment_handlers-IsQuiet deps now OutboxTopic.quote_decided handler e m w =
    subst (λ (g : Handler). (g m w).1.store.outbox ≡ w.store.outbox) (some_inj.0 e)
      (authorise-outbox deps now m w)
payment_handlers-IsQuiet deps now OutboxTopic.job_completed handler e m w =
    subst (λ (g : Handler). (g m w).1.store.outbox ≡ w.store.outbox) (some_inj.0 e)
      (capture_and_pay-outbox deps now m w)
payment_handlers-IsQuiet deps now OutboxTopic.job_cancelled handler e m w =
    subst (λ (g : Handler). (g m w).1.store.outbox ≡ w.store.outbox) (some_inj.0 e)
      (release-outbox deps now m w)
payment_handlers-IsQuiet deps now topic handler e m w = cc

-- The handlers of the app do not write to the outbox.
pub app_handlers-IsQuiet :
    (sender : Sender) (deps : PaymentDeps) (now : ℕ) → IsQuiet (app_handlers sender deps now)
unfolding compose_from
app_handlers-IsQuiet sender deps now =
    IsQuiet-compose_one _ _
      (IsQuiet-compose_one _ _ (λ topic handler e m w. cc) (notice_handlers-IsQuiet sender))
      (payment_handlers-IsQuiet deps now)
