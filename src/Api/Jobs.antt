-- ===== src/Api/Jobs.antt =====
-- apps/api/src/routes/jobs.ts: the endpoints that create a job and move it. What a request holds
-- has been checked against its schema.
use rescue.Prelude.{count}
use rescue.Store.Jobs.{TransitionInput}
use rescue.Contracts.Commerce.{evidence_status_coded}
use rescue.Api.Auth.{AuthContext, require_auth, require_organization, require_role}
use rescue.Api.Guards.{of_result, require_holder, require_job}
use rescue.Api.Idempotency.{KeyedRequest, Reply, Runner, Work, run_once}
use rescue.Contracts.Auth.{UserRole}
use rescue.Contracts.Commerce.{EvidenceStatus}
use rescue.Contracts.Errors.{AppError}
use rescue.Contracts.Job.{CreateJobInput, JobStatus}
use rescue.Outbox.{EventType, Key, Payload, Value, optional_words}
use rescue.Prelude.{
  Bool, List, Option, String, [], if◌then◌else◌, length, none, select, some, ℕ, ◌===◌, ◌==◌, ◌∷◌,
}
use rescue.Store.Action.{Action, pure, raise, ◌>>=◌}
use rescue.Store.Evidence.{list_evidence}
use rescue.Store.Jobs.{create_job, list_job_events, transition_job}
use rescue.Store.People.{record_suggestion}
use rescue.Store.Types.{Actor, Approval, Job, StoredEvidence, StoredJobEvent, StoredSuggestion}

-- The service that suggests a triage: what it gives to be recorded, if it comes with its
-- provenance, and the JSON text of the answer.
pub record TriageService : Type 0 where
  pub suggested : Job → Option StoredSuggestion
  pub created_view : Job → String

unfoldable pub store_suggestion : TriageService → ℕ → Job → Action (Unit {0})
store_suggestion triage now job s = elim (triage.suggested job) [
  | none ↦ pure tt s
  | some given ↦ pure tt (record_suggestion now given s).1
]

-- The work of `POST /jobs`.
unfoldable pub creation : TriageService → ℕ → ℕ → CreateJobInput → Actor → Work
creation triage now organization_id input actor =
    create_job now organization_id input actor >>= λ job. store_suggestion triage now job >>= λ _.
    pure (record { status_code = 201; body = triage.created_view job })

abbrev pub creating_roles : List UserRole
creating_roles =
    UserRole.customer_admin ∷ UserRole.customer_member ∷ UserRole.dispatcher ∷ UserRole.admin ∷ []

-- `POST /jobs`
unfoldable pub post_job :
    TriageService
    → Runner
    → ℕ
    → ℕ
    → Option AuthContext
    → KeyedRequest
    → CreateJobInput
    → Action Reply
post_job triage runner now later caller request input =
    of_result (require_organization caller) >>= λ owner.
    of_result (require_role creating_roles caller) >>= λ _.
    run_once (record runner { organization_id = owner.1 }) request
      (creation triage now owner.1 input owner.0.actor) now later

-- `GET /jobs/:id`
unfoldable pub get_job : Option AuthContext → ℕ → Action Job
get_job caller id = of_result (require_auth caller) >>= λ auth. require_job id auth.scope

-- `GET /jobs/:id/events`
unfoldable pub get_events : Option AuthContext → ℕ → Action (List StoredJobEvent)
get_events caller id = of_result (require_auth caller) >>= λ auth. list_job_events id auth.scope

abbrev pub dispatch_roles : List UserRole
dispatch_roles = UserRole.dispatcher ∷ UserRole.admin ∷ []

abbrev pub triage_payload : Approval → Option String → Payload
triage_payload a notes =
    (Key.vehicle_class, Value.vehicle a.vehicle_class)
    ∷ (Key.workers, Value.number a.workers)
    ∷ (Key.circular_route, Value.route a.circular_route)
    ∷ (Key.dispatcher_notes, optional_words notes)
    ∷ []

-- `POST /jobs/:id/triage`
unfoldable pub post_triage : ℕ → Option AuthContext → ℕ → Approval → Option String → Action Job
post_triage now caller id input notes = of_result (require_role dispatch_roles caller) >>= λ auth.
    transition_job now (record {
      job_id = id;
      scope = auth.scope;
      to = JobStatus.triaged;
      actor = auth.actor;
      event_type = EventType.triage_approved;
      payload = triage_payload input notes;
      approved = some input;
    })

abbrev pub working_roles : List UserRole
working_roles =
    UserRole.provider_admin ∷ UserRole.provider_driver ∷ UserRole.dispatcher ∷ UserRole.admin ∷ []

-- `POST /jobs/:id/start`
unfoldable pub post_start : ℕ → Option AuthContext → ℕ → Action Job
post_start now caller id = require_holder working_roles caller id >>= λ auth.
    transition_job now (record {
      job_id = id;
      scope = auth.scope;
      to = JobStatus.in_progress;
      actor = auth.actor;
      event_type = EventType.work_started;
      payload = [];
      approved = none;
    })

abbrev pub is_uploaded : StoredEvidence → Bool
is_uploaded e = e.status === EvidenceStatus.uploaded

abbrev pub completion : AuthContext → ℕ → ℕ → TransitionInput
completion auth id count = record {
  job_id = id;
  scope = auth.scope;
  to = JobStatus.completed;
  actor = auth.actor;
  event_type = EventType.job_completed;
  payload = (Key.evidence_count, Value.number count) ∷ [];
  approved = none;
}

-- The job is completed on the evidence that was uploaded.
unfoldable pub complete_with : ℕ → AuthContext → ℕ → List StoredEvidence → Action Job
complete_with now auth id uploaded s =
    if length uploaded == 0
    then raise (AppError.conflict "Upload proof of completion before completing the job") s
    else transition_job now (completion auth id (length uploaded)) s

-- `POST /jobs/:id/complete`
unfoldable pub post_complete : ℕ → Option AuthContext → ℕ → Action Job
post_complete now caller id = require_holder working_roles caller id >>= λ auth.
    list_evidence id auth.scope >>= λ evidence.
    complete_with now auth id (select is_uploaded evidence)

abbrev pub cancelling_roles : List UserRole
cancelling_roles = UserRole.customer_admin ∷ UserRole.dispatcher ∷ UserRole.admin ∷ []

-- `POST /jobs/:id/cancel`
unfoldable pub post_cancel : ℕ → Option AuthContext → ℕ → String → Action Job
post_cancel now caller id reason = of_result (require_role cancelling_roles caller) >>= λ auth.
    transition_job now (record {
      job_id = id;
      scope = auth.scope;
      to = JobStatus.cancelled;
      actor = auth.actor;
      event_type = EventType.job_cancelled;
      payload = (Key.reason, Value.words reason) ∷ [];
      approved = none;
    })
