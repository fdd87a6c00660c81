-- ===== src/Store/Queue.antt =====
-- The methods on the outbox of apps/api/src/store/memory.ts.
use rescue.Prelude.{
  ℕ, ◌+◌, Bool, ◌&&◌, ◌||◌, List, [], ◌∷◌, Option, none, some, String, ◌===◌, ◌==◌, if◌then◌else◌,
  leb, ltb, select, any, take, map, count,
}
use rescue.Prelude.Sort.{sort}
use rescue.Prelude.Table.{get, set, values, update}
use rescue.Contracts.Ops.{OutboxStatus, outbox_status_coded}
use rescue.Store.Types.{MemoryStore, StoredOutboxMessage}

abbrev pub is_due : ℕ → StoredOutboxMessage → Bool
is_due now m =
    ((m.status === OutboxStatus.pending) || (m.status === OutboxStatus.failed))
    && leb m.available_at now

-- The messages that a poll hands out, oldest first.
unfoldable pub due_messages : ℕ → ℕ → MemoryStore → List StoredOutboxMessage
unfolding sort
due_messages now limit s =
    take limit (sort (λ a b. leb a.created_at b.created_at) (select (is_due now) (values s.outbox)))

-- A claimed message is out of reach for a minute.
abbrev pub hold : ℕ → StoredOutboxMessage → StoredOutboxMessage
hold now m = record m { available_at = now + 60_000 }

abbrev pub hold_claimed : ℕ → List StoredOutboxMessage → StoredOutboxMessage → StoredOutboxMessage
hold_claimed now due m = if any (λ d. d.id == m.id) due then hold now m else m

unfoldable pub claim_outbox : ℕ → ℕ → MemoryStore → List StoredOutboxMessage × MemoryStore
unfolding due_messages
claim_outbox now limit s =
    let due = due_messages now limit s in
    (map (hold now) due, record s { outbox = update (hold_claimed now due) s.outbox })

abbrev pub delivered : ℕ → StoredOutboxMessage → StoredOutboxMessage
delivered now m = record m {
  status = OutboxStatus.sent;
  delivered_at = some now;
  last_error = none;
}

unfoldable pub mark_outbox_delivered : ℕ → ℕ → MemoryStore → MemoryStore
mark_outbox_delivered id now s = elim (get s.outbox id) [
  | none ↦ s
  | some m ↦ record s { outbox = set s.outbox id (delivered now m) }
]

-- The error text is kept whole; the source keeps its first 500 characters.
abbrev pub undelivered : String → Option ℕ → StoredOutboxMessage → StoredOutboxMessage
undelivered error none m = record m {
  attempts = m.attempts + 1;
  last_error = some error;
  status = OutboxStatus.dead;
}
undelivered error (some at) m = record m {
  attempts = m.attempts + 1;
  last_error = some error;
  status = OutboxStatus.failed;
  available_at = at;
}

unfoldable pub mark_outbox_failed : ℕ → String → Option ℕ → MemoryStore → MemoryStore
mark_outbox_failed id error retry_at s = elim (get s.outbox id) [
  | none ↦ s
  | some m ↦ record s { outbox = set s.outbox id (undelivered error retry_at m) }
]

pub record OutboxStats : Type 0 where
  pub pending : ℕ
  pub sent : ℕ
  pub failed : ℕ
  pub dead : ℕ
  pub oldest_undelivered : Option ℕ

abbrev with_status : OutboxStatus → MemoryStore → ℕ
with_status status s = count (λ m. m.status === status) (values s.outbox)

-- The loop's running minimum.
unfoldable pub oldest_from : Option ℕ → List StoredOutboxMessage → Option ℕ
oldest_from oldest [] = oldest
oldest_from oldest (m ∷ rest) =
    oldest_from
      (if m.status === OutboxStatus.sent then oldest else elim oldest [
        | none ↦ some m.created_at
        | some t ↦ if ltb m.created_at t then some m.created_at else some t
      ])
      rest

unfoldable pub outbox_stats : MemoryStore → OutboxStats
unfolding oldest_from
outbox_stats s = record {
  pending = with_status OutboxStatus.pending s;
  sent = with_status OutboxStatus.sent s;
  failed = with_status OutboxStatus.failed s;
  dead = with_status OutboxStatus.dead s;
  oldest_undelivered = oldest_from none (values s.outbox);
}
