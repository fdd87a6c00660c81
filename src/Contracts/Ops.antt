-- ===== src/Contracts/Ops.antt =====
-- packages/contracts/src/ops.ts: outbox topics, the retry schedule, ledger kinds.
pub mod Backoff
use rescue.Prelude.{ℕ, ◌-◌, ◌*◌, ◌^◌, ◌≡◌, min, Coded, arith}

pub data OutboxTopic : Type 0 where
  job_created job_triaged job_quoted quote_decided offers_sent offer_accepted : OutboxTopic
  offer_declined offer_expired assignment_fell_through job_started job_completed : OutboxTopic
  job_cancelled dispatch_escalated payment_authorisation_requested : OutboxTopic
  payment_capture_requested payout_requested : OutboxTopic

abbrev pub outbox_topic_code : OutboxTopic → ℕ
outbox_topic_code OutboxTopic.job_created = 0
outbox_topic_code OutboxTopic.job_triaged = 1
outbox_topic_code OutboxTopic.job_quoted = 2
outbox_topic_code OutboxTopic.quote_decided = 3
outbox_topic_code OutboxTopic.offers_sent = 4
outbox_topic_code OutboxTopic.offer_accepted = 5
outbox_topic_code OutboxTopic.offer_declined = 6
outbox_topic_code OutboxTopic.offer_expired = 7
outbox_topic_code OutboxTopic.assignment_fell_through = 8
outbox_topic_code OutboxTopic.job_started = 9
outbox_topic_code OutboxTopic.job_completed = 10
outbox_topic_code OutboxTopic.job_cancelled = 11
outbox_topic_code OutboxTopic.dispatch_escalated = 12
outbox_topic_code OutboxTopic.payment_authorisation_requested = 13
outbox_topic_code OutboxTopic.payment_capture_requested = 14
outbox_topic_code OutboxTopic.payout_requested = 15

pub outbox_topic_code-injective :
    (a b : OutboxTopic) → outbox_topic_code a ≡ outbox_topic_code b → a ≡ b
outbox_topic_code-injective a b h = ground arith

instance abbrev pub outbox_topic_coded : Coded OutboxTopic
outbox_topic_coded = record {
  code = outbox_topic_code;
  code-injective = outbox_topic_code-injective;
}

pub data OutboxStatus : Type 0 where
  pending sent failed dead : OutboxStatus

abbrev pub outbox_status_code : OutboxStatus → ℕ
outbox_status_code OutboxStatus.pending = 0
outbox_status_code OutboxStatus.sent = 1
outbox_status_code OutboxStatus.failed = 2
outbox_status_code OutboxStatus.dead = 3

pub outbox_status_code-injective :
    (a b : OutboxStatus) → outbox_status_code a ≡ outbox_status_code b → a ≡ b
outbox_status_code-injective a b h = ground arith

instance abbrev pub outbox_status_coded : Coded OutboxStatus
outbox_status_coded = record {
  code = outbox_status_code;
  code-injective = outbox_status_code-injective;
}

-- `OUTBOX_MAX_ATTEMPTS`
abbrev pub outbox_max_attempts : ℕ
outbox_max_attempts = 5

-- `Math.max(0, attempts - 1)` is the truncated difference.
unfoldable pub outbox_backoff_ms : ℕ → ℕ
outbox_backoff_ms attempts =
    let base : ℕ = 30_000 in
    let ceiling : ℕ = 30 * 60_000 in min ceiling (base * 2 ^ (attempts - 1))

pub data LedgerEntryKind : Type 0 where
  authorisation authorisation_void capture refund payout payout_reversal : LedgerEntryKind

abbrev pub ledger_entry_kind_code : LedgerEntryKind → ℕ
ledger_entry_kind_code LedgerEntryKind.authorisation = 0
ledger_entry_kind_code LedgerEntryKind.authorisation_void = 1
ledger_entry_kind_code LedgerEntryKind.capture = 2
ledger_entry_kind_code LedgerEntryKind.refund = 3
ledger_entry_kind_code LedgerEntryKind.payout = 4
ledger_entry_kind_code LedgerEntryKind.payout_reversal = 5

pub ledger_entry_kind_code-injective :
    (a b : LedgerEntryKind) → ledger_entry_kind_code a ≡ ledger_entry_kind_code b → a ≡ b
ledger_entry_kind_code-injective a b h = ground arith

instance abbrev pub ledger_entry_kind_coded : Coded LedgerEntryKind
ledger_entry_kind_coded = record {
  code = ledger_entry_kind_code;
  code-injective = ledger_entry_kind_code-injective;
}
