-- ===== src/Worker/Notices.antt =====
-- apps/api/src/worker/handlers.ts: which topics are told to whom. The sender is a parameter: it
-- accepts a notification, after those that went before, or throws.
use rescue.Contracts.Ops.{OutboxTopic}
use rescue.Prelude.{List, Option, String, [], none, some, ◌++◌, ◌∷◌}
use rescue.Prelude.Table.{get}
use rescue.Store.Action.{Result, err, ok}
use rescue.Store.Jobs.{find_job}
use rescue.Store.Offers.{find_active_assignment}
use rescue.Store.Types.{MemoryStore, Scope, StoredOutboxMessage}
use rescue.Worker.{Addressee, Handler, Notification, NotificationKind}
use rescue.Prelude.{ℕ}

pub data Audience : Type 0 where
  customer provider dispatch : Audience

-- A template without its texts.
pub record Template : Type 0 where
  pub kind : NotificationKind
  pub audience : Audience

abbrev template : NotificationKind → Audience → Option Template
template kind audience = some (record { kind = kind; audience = audience })

-- `TEMPLATES`
unfoldable pub template_for : OutboxTopic → Option Template
template_for OutboxTopic.job_created = template NotificationKind.job_received Audience.customer
template_for OutboxTopic.job_quoted = template NotificationKind.quote_ready Audience.customer
template_for OutboxTopic.quote_decided = template NotificationKind.quote_decided Audience.dispatch
template_for OutboxTopic.offers_sent = template NotificationKind.offer_received Audience.provider
template_for OutboxTopic.offer_accepted = template NotificationKind.offer_won Audience.provider
template_for OutboxTopic.offer_declined = template NotificationKind.offer_lost Audience.dispatch
template_for OutboxTopic.offer_expired = template NotificationKind.offer_lost Audience.dispatch
template_for OutboxTopic.assignment_fell_through =
    template NotificationKind.dispatch_escalation Audience.dispatch
template_for OutboxTopic.job_started = template NotificationKind.job_started Audience.customer
template_for OutboxTopic.job_completed = template NotificationKind.job_completed Audience.customer
template_for OutboxTopic.job_cancelled = template NotificationKind.job_cancelled Audience.customer
template_for OutboxTopic.dispatch_escalated =
    template NotificationKind.dispatch_escalation Audience.dispatch
template_for _ = none

pub record Recipient : Type 0 where
  pub email : Option String
  pub name : Addressee

abbrev pub nobody : Addressee → Recipient
nobody name = record { email = none; name = name }

-- `recipientFor`, for a message about a job.
unfoldable pub recipient_about : Audience → ℕ → MemoryStore → Recipient
recipient_about Audience.dispatch job_id s = nobody Addressee.disposition
recipient_about Audience.provider job_id s = elim (find_active_assignment job_id s) [
  | none ↦ nobody Addressee.partner
  | some a ↦ elim (get s.providers a.provider_id) [
    | none ↦ nobody Addressee.partner
    | some p ↦ record { email = some p.contact_email; name = Addressee.carrier p.legal_name }
  ]
]
recipient_about Audience.customer job_id s = elim (find_job job_id Scope.staff s) [
  | none ↦ nobody Addressee.customer
  | some job ↦ nobody (Addressee.organization job.organization_id)
]

unfoldable pub recipient_for : Audience → StoredOutboxMessage → MemoryStore → Recipient
unfolding recipient_about
recipient_for audience m s = elim m.job_id [
  | none ↦ nobody Addressee.disposition
  | some job_id ↦ recipient_about audience job_id s
]

abbrev pub Sender : Type 0
Sender = List Notification → Notification → Result (Unit {0})

-- The handler that `buildHandlers` makes of a template.
unfoldable pub notify : Sender → Template → Handler
notify sender t m w =
    let to = recipient_for t.audience m w.store in
    let notification : Notification = record {
      kind = t.kind;
      email = to.email;
      name = to.name;
      job_id = m.job_id;
    } in
    elim (sender w.sent notification) [
      | err e ↦ (err e, w)
      | ok _ ↦ (ok tt, record w { sent = w.sent ++ notification ∷ [] })
    ]

-- `buildHandlers`
unfoldable pub notice_handlers : Sender → OutboxTopic → Option Handler
unfolding template_for
notice_handlers sender topic = elim (template_for topic) [
  | none ↦ none
  | some t ↦ some (notify sender t)
]
