-- ===== src/Store/Jobs.antt =====
-- The methods on jobs of apps/api/src/store/memory.ts. A method's body runs without interruption:
-- those that wait do so before their first read, for the job's lock.
use rescue.Prelude.{
  ℕ, suc, List, [], ◌∷◌, Option, none, some, ◌==◌, if◌then◌else◌, select, is_some, leb,
}
use rescue.Prelude.Sort.{sort}
use rescue.Prelude.Table.{get, set}
use rescue.Contracts.Job.{JobStatus, CreateJobInput, can_transition}
use rescue.Contracts.Errors.{AppError}
use rescue.Outbox.{EventType, Payload, Key, Value}
use rescue.Store.Types.{
  MemoryStore, Scope, Actor, JobRecord, Job, Approval, StoredJobEvent, AuditAction, EntityType,
  EntityId,
}
use rescue.Store.Action.{Action, pure, raise}
use rescue.Store.State.{new_id, to_job, visible_job, record_audit, record_event}

pub record TransitionInput : Type 0 where
  pub job_id : ℕ
  pub scope : Scope
  pub to : JobStatus
  pub actor : Actor
  pub event_type : EventType
  pub payload : Payload
  pub approved : Option Approval

-- An event and its audit record, as most methods write them.
unfoldable pub record_both :
    ℕ → ℕ → Actor → EventType → Payload → EntityType → ℕ → MemoryStore → MemoryStore
unfolding record_event record_audit
record_both now job_id actor event_type payload entity_type entity_id s =
    record_audit now actor (AuditAction.of_event event_type) entity_type (EntityId.entity entity_id)
      (record_event now job_id actor event_type payload s)

unfoldable pub create_job : ℕ → ℕ → CreateJobInput → Actor → Action Job
unfolding to_job record_both
create_job now organization_id input actor s =
    let r : JobRecord = record {
      id = new_id s;
      organization_id = organization_id;
      status = JobStatus.draft;
      input = input;
      approved = none;
      created_at = now;
      updated_at = now;
    } in
    pure (to_job r) (
      record_both now (new_id s) actor EventType.job_created
        ((Key.type, Value.job_type input.type) ∷ []) EntityType.job (new_id s)
        (record s { jobs = set s.jobs (new_id s) r; drawn = suc s.drawn }))

unfoldable pub find_job : ℕ → Scope → MemoryStore → Option Job
unfolding visible_job to_job
find_job id scope s = elim (visible_job s id scope) [ none ↦ none | some r ↦ some (to_job r) ]

-- The record that a transition writes.
abbrev pub moved_record : ℕ → TransitionInput → JobRecord → JobRecord
moved_record now input r = record r {
  status = input.to;
  updated_at = now;
  approved = elim input.approved [ none ↦ r.approved | some a ↦ some a ];
}

unfoldable pub transition_job : ℕ → TransitionInput → Action Job
unfolding visible_job can_transition to_job record_both
transition_job now input s = elim (visible_job s input.job_id input.scope) [
  | none ↦ raise (AppError.not_found "Job") s
  | some r ↦
      if can_transition r.status input.to
      then pure (to_job (moved_record now input r)) (
          record_both now r.id input.actor input.event_type
            ((Key.from, Value.status r.status) ∷ (Key.to, Value.status input.to) ∷ input.payload)
            EntityType.job r.id
            (record s { jobs = set s.jobs input.job_id (moved_record now input r) }))
      else raise (AppError.invalid_transition r.status input.to) s
]

-- `recordJobEvent`
unfoldable pub record_job_event : ℕ → ℕ → EventType → Payload → Actor → Action (Unit {0})
unfolding record_event
record_job_event now job_id event_type payload actor s =
    if is_some (get s.jobs job_id)
    then pure tt (record_event now job_id actor event_type payload s)
    else raise (AppError.not_found "Job") s

unfoldable pub list_job_events : ℕ → Scope → Action (List StoredJobEvent)
unfolding visible_job
list_job_events job_id scope s = elim (visible_job s job_id scope) [
  | none ↦ raise (AppError.not_found "Job") s
  | some r ↦
      pure (sort (λ a b. leb a.created_at b.created_at) (select (λ e. e.job_id == job_id) s.events))
        s
]
