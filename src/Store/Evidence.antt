-- ===== src/Store/Evidence.antt =====
-- The methods on evidence of apps/api/src/store/memory.ts.
use rescue.Prelude.{ℕ, suc, List, [], ◌∷◌, Option, none, some, String, ◌==◌, if◌then◌else◌, select}
use rescue.Prelude.Table.{get, set, values}
use rescue.Contracts.Errors.{AppError}
use rescue.Contracts.Commerce.{EvidenceKind, EvidenceStatus}
use rescue.Outbox.{EventType, Key, Value}
use rescue.Store.Types.{
  MemoryStore, Scope, Actor, StoredEvidence, AuditAction, EntityType, EntityId,
}
use rescue.Store.Action.{Action, pure, raise}
use rescue.Store.State.{new_id, visible, visible_job, record_audit}
use rescue.Store.Jobs.{record_both}

pub record CreateEvidence : Type 0 where
  pub job_id : ℕ
  pub kind : EvidenceKind
  pub mime_type : String
  pub size_bytes : ℕ
  pub storage_key : String
  pub actor : Actor

abbrev pub requested_evidence : ℕ → ℕ → CreateEvidence → StoredEvidence
requested_evidence now id e = record {
  id = id;
  job_id = e.job_id;
  kind = e.kind;
  status = EvidenceStatus.requested;
  mime_type = e.mime_type;
  size_bytes = e.size_bytes;
  storage_key = e.storage_key;
  uploaded_by_user_id = none;
  created_at = now;
}

unfoldable pub create_evidence : ℕ → CreateEvidence → Action StoredEvidence
unfolding record_audit
create_evidence now e s =
    let item = requested_evidence now (new_id s) e in
    pure item (
      record_audit now e.actor AuditAction.evidence_requested EntityType.evidence
        (EntityId.entity (new_id s))
        (record s { evidence = set s.evidence (new_id s) item; drawn = suc s.drawn }))

unfoldable pub mark_evidence_uploaded : ℕ → ℕ → Actor → Action StoredEvidence
unfolding record_both
mark_evidence_uploaded now evidence_id actor s = elim (get s.evidence evidence_id) [
  | none ↦ raise (AppError.not_found "Evidence") s
  | some e ↦
      let e' : StoredEvidence = record e {
        status = EvidenceStatus.uploaded;
        uploaded_by_user_id = actor.user_id;
      } in
      pure e' (
        record_both now e.job_id actor EventType.evidence_uploaded
          ((Key.evidence_id, Value.id e.id) ∷ (Key.kind, Value.evidence e.kind) ∷ [])
          EntityType.evidence e.id (record s { evidence = set s.evidence evidence_id e' }))
]

unfoldable pub list_evidence : ℕ → Scope → Action (List StoredEvidence)
unfolding visible_job
list_evidence job_id scope s = elim (visible_job s job_id scope) [
  | none ↦ raise (AppError.not_found "Job") s
  | some r ↦ pure (select (λ e. e.job_id == job_id) (values s.evidence)) s
]

unfoldable pub find_evidence : ℕ → Scope → MemoryStore → Option StoredEvidence
unfolding visible
find_evidence evidence_id scope s = elim (get s.evidence evidence_id) [
  | none ↦ none
  | some e ↦ elim (get s.jobs e.job_id) [
    | none ↦ none
    | some r ↦ if visible s r scope then some e else none
  ]
]
