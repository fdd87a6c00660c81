-- ===== src/Worker/Unheard.antt =====
-- Who a notification of apps/api/src/worker/handlers.ts reaches.
use rescue.Prelude.{Option, ap, ◌∙◌}
use rescue.Worker.Notices.{Recipient}
use rescue.Worker.Notices.{nobody}
use mathlib.Core.Option.{some_inj}
use rescue.Contracts.Ops.{OutboxTopic}
use rescue.Prelude.{[], inl, inr, none, refl, some, subst, ℕ, ◌++◌, ◌∷◌, ◌≡◌, ◌⊎◌}
use rescue.Store.Action.{Result-cases}
use rescue.Store.Offers.{find_active_assignment}
use rescue.Store.Types.{StoredOutboxMessage}
use rescue.Worker.{Addressee, Handler, Notification, NotificationKind, World}
use rescue.Worker.Notices.{
  Audience, Sender, notice_handlers, notify, recipient_about, recipient_for, template_for,
}

-- The notification of new offers for a job, with no address.
abbrev pub unaddressed : ℕ → Notification
unaddressed job_id = record {
  kind = NotificationKind.offer_received;
  email = none;
  name = Addressee.partner;
  job_id = some job_id;
}

abbrev offered_to : Recipient → Option ℕ → Notification
offered_to to job_id = record {
  kind = NotificationKind.offer_received;
  email = to.email;
  name = to.name;
  job_id = job_id;
}

notify-unaddressed :
    (sender : Sender) (m : StoredOutboxMessage) (w : World) (job_id : ℕ)
    → m.job_id ≡ some job_id
    → find_active_assignment job_id w.store ≡ none
    → let sent =
        (notify sender
          (record { kind = NotificationKind.offer_received; audience = Audience.provider })
          m
          w).1.sent in
      (sent ≡ w.sent) ⊎ (sent ≡ w.sent ++ unaddressed job_id ∷ [])
unfolding notify recipient_for recipient_about
notify-unaddressed sender m w job_id about free =
    let to : recipient_for Audience.provider m w.store ≡ nobody Addressee.partner =
      rw (recipient_for, about, recipient_about, free) refl in
    let same : offered_to (recipient_for Audience.provider m w.store) m.job_id
        ≡ unaddressed job_id =
      ap (λ r. offered_to r m.job_id) to
      ∙ ap (λ j. offered_to (nobody Addressee.partner) j) about in
    elim (Result-cases
      (sender w.sent (offered_to (recipient_for Audience.provider m w.store) m.job_id))) [
        | inl (x, e) ↦ inl (rw (notify, e) refl)
        | inr (u, e) ↦ inr (rw (notify, e) (ap (λ n. w.sent ++ n ∷ []) same))
      ]

-- The notice that a job is on offer reaches no carrier: it is meant for a carrier, but the carrier is
-- looked up by the job's active assignment, and while nobody holds the job the notice goes out with
-- no address, if it goes out.
pub offers_sent_unheard :
    (sender : Sender) (m : StoredOutboxMessage) (handler : Handler) (w : World) (job_id : ℕ)
    → m.job_id ≡ some job_id
    → find_active_assignment job_id w.store ≡ none
    → notice_handlers sender OutboxTopic.offers_sent ≡ some handler
    → ((handler m w).1.sent ≡ w.sent) ⊎ ((handler m w).1.sent ≡ w.sent ++ unaddressed job_id ∷ [])
unfolding notice_handlers template_for
offers_sent_unheard sender m handler w job_id about free e =
    subst
      (λ (g : Handler).
        ((g m w).1.sent ≡ w.sent) ⊎ ((g m w).1.sent ≡ w.sent ++ unaddressed job_id ∷ []))
      (some_inj.0 e) (notify-unaddressed sender m w job_id about free)
