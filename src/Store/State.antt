-- ===== src/Store/State.antt =====
-- The helpers of apps/api/src/store/memory.ts: visibility, the audit log, the event stream and the
-- outbox rows that it projects to. `now` is the instant that `new Date()` returns.
use rescue.Prelude.{
  ℕ, suc, Bool, true, false, ◌&&◌, List, [], ◌∷◌, ◌++◌, Option, none, some, any, ◌==◌,
  if◌then◌else◌,
}
use rescue.Prelude.Table.{get, set, values}
use rescue.Outbox.{EventType, Payload, DedupeKey, OutboxDraft, key_eq, outbox_for_event}
use rescue.Contracts.Ops.{OutboxStatus}
use rescue.Store.Types.{
  MemoryStore, Scope, Actor, JobRecord, Job, StoredOutboxMessage, AuditAction, EntityType, EntityId,
}

-- `newId()`: the next id of the generator.
abbrev pub new_id : MemoryStore → ℕ
new_id s = s.new_ids s.drawn

unfoldable pub to_job : JobRecord → Job
to_job r = record {
  id = r.id;
  organization_id = r.organization_id;
  status = r.status;
  input = r.input;
  created_at = r.created_at;
  updated_at = r.updated_at;
}

unfoldable pub visible : MemoryStore → JobRecord → Scope → Bool
visible s r Scope.staff = true
visible s r (Scope.organization organization_id) = r.organization_id == organization_id
visible s r (Scope.provider provider_id) =
    any (λ a. a.job_id == r.id && a.provider_id == provider_id) (values s.assignments)

-- `requireJob`, with `none` for its throw of NOT_FOUND; and the lookup of `findJob`.
unfoldable pub visible_job : MemoryStore → ℕ → Scope → Option JobRecord
unfolding visible
visible_job s job_id scope = elim (get s.jobs job_id) [
  | none ↦ none
  | some r ↦ if visible s r scope then some r else none
]

unfoldable pub record_audit :
    ℕ → Actor → AuditAction → EntityType → EntityId → MemoryStore → MemoryStore
record_audit now actor action entity_type entity_id s = record s {
  audit =
      s.audit
      ++ (record {
        id = new_id s;
        actor_id = actor.user_id;
        actor_role = actor.role;
        action = action;
        entity_type = entity_type;
        entity_id = entity_id;
        correlation_id = actor.correlation_id;
        created_at = now;
      })
        ∷ [];
  drawn = suc s.drawn;
}

-- `outboxKeys.has(key)`
abbrev pub has_key : List (DedupeKey × ℕ) → DedupeKey → Bool
has_key [] key = false
has_key ((k, id) ∷ keys) key = if key_eq k key then true else has_key keys key

-- The draft that becomes a new outbox row: none where its key is already there.
unfoldable pub new_draft : MemoryStore → ℕ → EventType → Payload → Option OutboxDraft
new_draft s job_id event_type payload = elim (outbox_for_event job_id event_type payload) [
  | none ↦ none
  | some draft ↦ if has_key s.outbox_keys draft.dedupe_key then none else some draft
]

abbrev pub pending_message : ℕ → ℕ → OutboxDraft → StoredOutboxMessage
pending_message now id draft = record {
  id = id;
  topic = draft.topic;
  dedupe_key = draft.dedupe_key;
  job_id = some draft.job_id;
  payload = draft.payload;
  status = OutboxStatus.pending;
  attempts = 0;
  available_at = 0;
  last_error = none;
  created_at = now;
  delivered_at = none;
}

unfoldable pub record_event : ℕ → ℕ → Actor → EventType → Payload → MemoryStore → MemoryStore
record_event now job_id actor event_type payload s =
    let draft = new_draft s job_id event_type payload in
    let id = s.new_ids (suc s.drawn) in
    record s {
      events =
          s.events
          ++ (record {
            id = new_id s;
            job_id = job_id;
            actor_id = actor.user_id;
            type = event_type;
            payload = payload;
            correlation_id = actor.correlation_id;
            created_at = now;
          })
            ∷ [];
      outbox_keys = elim draft [
        | none ↦ s.outbox_keys
        | some d ↦ s.outbox_keys ++ (d.dedupe_key, id) ∷ []
      ];
      outbox = elim draft [ none ↦ s.outbox | some d ↦ set s.outbox id (pending_message now id d) ];
      drawn = elim draft [ none ↦ suc s.drawn | some d ↦ suc (suc s.drawn) ];
    }
