-- ===== src/Store/Idempotency.antt =====
-- Idempotency records and retention in apps/api/src/store/memory.ts. The records are a list with
-- one for each organisation and key, which together are the Map's key.
use rescue.Prelude.{
  ℕ, Bool, not, ◌&&◌, List, [], ◌∷◌, Option, none, some, String, ◌===◌, ◌==◌, if◌then◌else◌, leb,
  ltb, select, find, length, or_else,
}
use rescue.Prelude.Table.{values, delete_if}
use text.Mathlib.Text.{◌==◌ as str_eq}
use rescue.Contracts.Ops.{OutboxStatus, outbox_status_coded}
use rescue.Outbox.{DedupeKey, key_eq}
use rescue.Store.Types.{MemoryStore, StoredIdempotencyRecord, StoredOutboxMessage, StoredEvidence}

abbrev pub has_idempotency_key : ℕ → String → StoredIdempotencyRecord → Bool
has_idempotency_key organization_id key r = r.organization_id == organization_id && str_eq r.key key

abbrev pub without_key : ℕ → String → List StoredIdempotencyRecord → List StoredIdempotencyRecord
without_key organization_id key = select (λ r. not (has_idempotency_key organization_id key r))

-- An expired record is deleted when it is met.
unfoldable pub find_idempotency_record :
    ℕ → ℕ → String → MemoryStore → Option StoredIdempotencyRecord × MemoryStore
find_idempotency_record now organization_id key s =
    elim (find (has_idempotency_key organization_id key) s.idempotency) [
      | none ↦ (none, s)
      | some r ↦
          if leb r.expires_at now
          then (none, record s { idempotency = without_key organization_id key s.idempotency })
          else (some r, s)
    ]

-- `idempotency.set`
abbrev pub put_record :
    StoredIdempotencyRecord → List StoredIdempotencyRecord → List StoredIdempotencyRecord
put_record r [] = r ∷ []
put_record r (q ∷ rest) =
    if has_idempotency_key r.organization_id r.key q then r ∷ rest else q ∷ put_record r rest

unfoldable pub save_idempotency_record : StoredIdempotencyRecord → MemoryStore → MemoryStore
save_idempotency_record r s = record s { idempotency = put_record r s.idempotency }

pub record Cutoffs : Type 0 where
  pub evidence_older_than : ℕ
  pub outbox_sent_older_than : ℕ
  pub idempotency_older_than : ℕ

pub record Removed : Type 0 where
  pub evidence : ℕ
  pub outbox : ℕ
  pub idempotency : ℕ
  pub storage_keys : List String

abbrev pub is_old_evidence : ℕ → StoredEvidence → Bool
is_old_evidence cutoff e = ltb e.created_at cutoff

-- Sent, and settled before the cutoff.
abbrev pub is_settled : ℕ → StoredOutboxMessage → Bool
is_settled cutoff m =
    (m.status === OutboxStatus.sent) && ltb (or_else m.delivered_at m.created_at) cutoff

abbrev pub storage_keys_of : List StoredEvidence → List String
storage_keys_of [] = []
storage_keys_of (e ∷ rest) =
    if str_eq e.storage_key "" then storage_keys_of rest else e.storage_key ∷ storage_keys_of rest

abbrev pub drop_keys : List StoredOutboxMessage → List (DedupeKey × ℕ) → List (DedupeKey × ℕ)
drop_keys [] keys = keys
drop_keys (m ∷ rest) keys = drop_keys rest (select (λ k. not (key_eq k.0 m.dedupe_key)) keys)

unfoldable pub run_retention : Cutoffs → MemoryStore → Removed × MemoryStore
unfolding key_eq
run_retention c s =
    let old = select (is_old_evidence c.evidence_older_than) (values s.evidence) in
    let settled = select (is_settled c.outbox_sent_older_than) (values s.outbox) in
    let expired = select (λ r. ltb r.expires_at c.idempotency_older_than) s.idempotency in
    let keys = storage_keys_of old in
    (
      record {
        evidence = length keys;
        outbox = length settled;
        idempotency = length expired;
        storage_keys = keys;
      },
      record s {
        evidence = delete_if (is_old_evidence c.evidence_older_than) s.evidence;
        outbox = delete_if (is_settled c.outbox_sent_older_than) s.outbox;
        outbox_keys = drop_keys settled s.outbox_keys;
        idempotency = select (λ r. not (ltb r.expires_at c.idempotency_older_than)) s.idempotency;
      },
    )
