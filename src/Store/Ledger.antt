-- ===== src/Store/Ledger.antt =====
-- The methods on the ledger and on suggestions of apps/api/src/store/memory.ts.
use rescue.Prelude.{
  ℕ, suc, Bool, true, false, not, ◌&&◌, List, [], ◌∷◌, ◌++◌, Option, none, some, String, ◌===◌,
  ◌==◌, if◌then◌else◌, select, any,
}
use rescue.Prelude.Int.{ℤ, is_positive, pos_part, neg_part}
use rescue.Contracts.Errors.{AppError}
use rescue.Contracts.Ops.{LedgerEntryKind, ledger_entry_kind_coded}
use rescue.Store.Types.{
  MemoryStore, Scope, Actor, StoredLedgerEntry, AuditAction, EntityType, EntityId,
}
use rescue.Store.Action.{Action, Result, ok, err, pure, raise}
use rescue.Store.State.{new_id, visible_job, record_audit}

pub record EntryInput : Type 0 where
  pub job_id : ℕ
  pub kind : LedgerEntryKind
  pub amount_cents : ℤ
  pub external_reference : Option String
  pub note : Option String

abbrev pub is_zero : ℤ → Bool
is_zero a = pos_part a == 0 && (neg_part a == 0)

abbrev pub must_be_positive : LedgerEntryKind → Bool
must_be_positive kind =
    any (λ k. k === kind)
      (LedgerEntryKind.authorisation ∷ LedgerEntryKind.capture ∷ LedgerEntryKind.payout_reversal
        ∷ [])

abbrev pub iff : Bool → Bool → Bool
iff true b = b
iff false b = not b

abbrev pub ledger_entry : ℕ → ℕ → EntryInput → StoredLedgerEntry
ledger_entry now id entry = record {
  id = id;
  job_id = entry.job_id;
  kind = entry.kind;
  amount_cents = entry.amount_cents;
  external_reference = entry.external_reference;
  note = entry.note;
  created_at = now;
}

-- One round of the loop of `appendLedgerEntries`.
unfoldable pub append_entry : ℕ → Actor → EntryInput → Action StoredLedgerEntry
unfolding record_audit
append_entry now actor entry s =
    if is_zero entry.amount_cents
    then raise (AppError.validation_error "A ledger entry cannot be zero") s
    else if not (iff (must_be_positive entry.kind) (is_positive entry.amount_cents))
    then raise (AppError.validation_error "The entry has the wrong sign for its kind") s
    else pure (ledger_entry now (new_id s) entry) (
        record_audit now actor AuditAction.ledger_entry_appended EntityType.ledger_entry
          (EntityId.entity (new_id s))
          (record s {
            ledger = s.ledger ++ ledger_entry now (new_id s) entry ∷ [];
            drawn = suc s.drawn;
          }))

-- The outcome of one entry before that of the entries after it.
abbrev pub joined :
    Result StoredLedgerEntry × MemoryStore
    → Result (List StoredLedgerEntry) × MemoryStore
    → Result (List StoredLedgerEntry) × MemoryStore
joined (err e, s) _ = (err e, s)
joined (ok written, _) (err e, s) = (err e, s)
joined (ok written, _) (ok others, s) = (ok (written ∷ others), s)

-- A refused entry throws, and the entries before it stay written.
unfoldable pub append_ledger_entries : ℕ → List EntryInput → Actor → Action (List StoredLedgerEntry)
append_ledger_entries now [] actor s = pure [] s
append_ledger_entries now (entry ∷ rest) actor s =
    let first = append_entry now actor entry s in
    joined first (append_ledger_entries now rest actor first.1)

unfoldable pub list_ledger : ℕ → Scope → Action (List StoredLedgerEntry)
unfolding visible_job
list_ledger job_id scope s = elim (visible_job s job_id scope) [
  | none ↦ raise (AppError.not_found "Job") s
  | some r ↦ pure (select (λ e. e.job_id == job_id) s.ledger) s
]
