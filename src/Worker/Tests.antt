-- ===== src/Worker/Tests.antt =====
-- The worker on a store with one approved quote and the message that it was approved.
use rescue.Prelude.{◌≡◌, ◌⊎◌}
use rescue.Store.Offers.{find_active_assignment}
use rescue.Worker.{NotificationKind}
use rescue.Worker.Notices.{Audience, notice_handlers, notify, template_for}
use rescue.Worker.Unheard.{offers_sent_unheard, unaddressed}
use rescue.Contracts.Commerce.{QuoteStatus}
use rescue.Contracts.Ops.{OutboxStatus, OutboxTopic}
use rescue.Outbox.{EventType, Key, Value, dedupe_key_for}
use rescue.Prelude.{All, [], arith, none, refl, some, ℕ, ◌+◌, ◌∷◌, ◌≤◌}
use rescue.Prelude.Table.{get}
use rescue.Store.Action.{ok}
use rescue.Store.Queue.{claim_outbox}
use rescue.Store.Tests.{two_offers}
use rescue.Store.Types.{StoredOutboxMessage, StoredQuote}
use rescue.Worker.{World}
use rescue.Worker.Attempts.{times_claimed, times_claimed_bounded}
use rescue.Worker.Drain.{WorkerOptions, app_handlers, default_batch_size, drain}
use rescue.Worker.Keeps.{app_handlers-IsQuiet}
use rescue.Worker.Notices.{Sender}
use rescue.Worker.Once.{deliver_all, deliver_all-OnePayment}
use rescue.Worker.Once.Entries.{OnePayment}
use rescue.Worker.Passes.{drain-IsSettled}
use rescue.Worker.Payments.{PaymentDeps, default_provider_share}
use rescue.Worker.Settled.{IsSettled}

abbrev approved : StoredOutboxMessage
approved = record {
  id = 90;
  topic = OutboxTopic.quote_decided;
  job_id = some 1;
  dedupe_key = dedupe_key_for OutboxTopic.quote_decided 1 (Value.id 4 ∷ []);
  payload =
      (Key.quote_id, Value.id 4) ∷ (Key.event_type, Value.event EventType.quote_approved) ∷ [];
  status = OutboxStatus.pending;
  attempts = 0;
  available_at = 50;
  last_error = none;
  created_at = 50;
  delivered_at = none;
}

abbrev agreed : StoredQuote
agreed = record {
  id = 4;
  job_id = 1;
  organization_id = 7;
  status = QuoteStatus.approved;
  net_cents = 10_000;
  vat_cents = 1_900;
  gross_cents = 11_900;
  vat_rate_basis_points = 1_900;
  valid_until = 900;
  approved_at = some 40;
  approved_by_user_id = some 5;
  created_at = 20;
}

abbrev waiting : World
waiting = record {
  store = record two_offers { quotes = (4, agreed) ∷ []; outbox = (90, approved) ∷ [] };
  calls = [];
  sent = [];
}

abbrev pub deps : PaymentDeps
deps = record {
  gateway = λ calls call. ok "ref";
  provider_share = default_provider_share;
  id_text = λ n. "id";
}

abbrev pub sender : Sender
sender = λ sent n. ok tt

abbrev options : WorkerOptions
options = record {
  handlers = app_handlers sender deps;
  batch_size = default_batch_size;
  message_of = λ e. "failed";
}

abbrev clock : ℕ → ℕ
clock n = 100 + n

deliver_all-OnePayment_example :
    OnePayment (deliver_all deps ((100, approved) ∷ (200, approved) ∷ []) waiting).store.ledger
deliver_all-OnePayment_example =
    deliver_all-OnePayment deps ((100, approved) ∷ (200, approved) ∷ []) waiting
      (λ job_id kind. omega arith)

drain-IsSettled_example :
    All
      (λ m. IsSettled m (get (drain options clock waiting).1.store.outbox m.id))
      (claim_outbox (clock 0) options.batch_size waiting.store).0
drain-IsSettled_example =
    drain-IsSettled options clock waiting (app_handlers-IsQuiet sender deps) (refl, refl, tt)

times_claimed_bounded_example :
    (times_claimed options 90 (clock ∷ clock ∷ []) waiting ≤ 5) × (5 ≤ 5)
times_claimed_bounded_example =
    times_claimed_bounded options 90 (clock ∷ clock ∷ []) waiting approved
      (app_handlers-IsQuiet sender deps) (refl, refl, tt) refl (λ e. omega arith)

abbrev on_offer : StoredOutboxMessage
on_offer = record approved {
  topic = OutboxTopic.offers_sent;
  payload = (Key.event_type, Value.event EventType.offers_sent) ∷ [];
}

offers_sent_unheard_example :
    ((notify sender
        (record { kind = NotificationKind.offer_received; audience = Audience.provider })
        on_offer
        waiting).1.sent
      ≡ [])
    ⊎ ((notify sender
          (record { kind = NotificationKind.offer_received; audience = Audience.provider })
          on_offer
          waiting).1.sent
        ≡ unaddressed 1 ∷ [])
unfolding notice_handlers template_for find_active_assignment
offers_sent_unheard_example =
    offers_sent_unheard sender on_offer
      (notify sender
        (record { kind = NotificationKind.offer_received; audience = Audience.provider }))
      waiting 1 refl refl refl
