-- ===== src/Api/Overlap.antt =====
-- Requests with one key that overlap, in apps/api/src/plugins/idempotency.ts.
use rescue.Store.Action.{bind_eq, pure, ◌>>=◌}
use rescue.Prelude.{arith}
use rescue.Store.Types.{Job}
use rescue.Api.Idempotency.{
  KeyedRequest, Reply, Found, Response, Runner, Work, key_of, look_up, proceed, run_work,
}
use rescue.Api.Lookup.{look_up_misses}
use rescue.Api.Replay.{still_none}
use rescue.Store.Idempotency.{find_idempotency_record}
use rescue.Store.Action.{Action}
use rescue.Api.Jobs.{TriageService, creation, store_suggestion}
use rescue.Contracts.Job.{CreateJobInput, JobStatus}
use rescue.Prelude.{String, ap, false, none, refl, some, ℕ, ◌==◌, ◌∙◌, ◌≡◌}
use rescue.Prelude.Table.{get, get-set, get-set_self, set}
use rescue.Store.Action.{ok}
use rescue.Store.Idempotency.{save_idempotency_record}
use rescue.Store.Jobs.{create_job, record_both}
use rescue.Store.People.{record_suggestion}
use rescue.Store.State.{new_id, record_audit, record_event, to_job}
use rescue.Store.Types.{Actor, JobRecord, MemoryStore}

-- The job that `POST /jobs` makes.
abbrev pub draft : ℕ → ℕ → CreateJobInput → ℕ → JobRecord
draft now organization_id input id = record {
  id = id;
  organization_id = organization_id;
  status = JobStatus.draft;
  input = input;
  approved = none;
  created_at = now;
  updated_at = now;
}

store_suggestion_lem :
    (triage : TriageService) (now : ℕ) (job : Job) (s : MemoryStore)
    → ((store_suggestion triage now job s).0 ≡ ok tt)
      × ((store_suggestion triage now job s).1.jobs ≡ s.jobs)
unfolding store_suggestion record_suggestion
store_suggestion_lem triage now job s = (ground arith, ground arith)

creation_lem :
    (triage : TriageService) (now organization_id : ℕ) (input : CreateJobInput) (actor : Actor)
    (s : MemoryStore)
    → (response : Response) × ((creation triage now organization_id input actor s).0 ≡ ok response)
      × ((creation triage now organization_id input actor s).1.jobs
          ≡ set s.jobs (new_id s) (draft now organization_id input (new_id s)))
unfolding creation create_job record_both record_event record_audit to_job
creation_lem triage now organization_id input actor s =
    let job = to_job (draft now organization_id input (new_id s)) in
    let made = (create_job now organization_id input actor s).1 in
    let kept = (store_suggestion triage now job made).1 in
    let response : Response = record { status_code = 201; body = triage.created_view job } in
    let (fine, same) = store_suggestion_lem triage now job made in
    let ran : creation triage now organization_id input actor s ≡ (ok response, kept) =
      bind_eq (create_job now organization_id input actor)
        (λ job. store_suggestion triage now job >>= λ _.
          pure (record { status_code = 201; body = triage.created_view job }))
        s made job refl
      ∙ bind_eq (store_suggestion triage now job) (λ _. pure response) made kept tt
          (ap (λ r. (r, kept)) fine) in
    (response, ap (λ r. r.0) ran, ap (λ r. r.1.jobs) ran ∙ same)

run_work_creates :
    (triage : TriageService) (runner : Runner) (request : KeyedRequest) (key : String)
    (now later organization_id : ℕ) (input : CreateJobInput) (actor : Actor) (s : MemoryStore)
    → let ran =
        run_work runner request key later (creation triage now organization_id input actor) s in
      (reply : Reply) × (ran ≡ (ok reply, ran.1))
      × (reply.replayed ≡ false)
      × (ran.1.jobs ≡ set s.jobs (new_id s) (draft now organization_id input (new_id s)))
unfolding run_work save_idempotency_record
run_work_creates triage runner request key now later organization_id input actor s =
    let (response, e, f) = creation_lem triage now organization_id input actor s in
    (
      record { replayed = false; response = response },
      rw (run_work, e) refl,
      refl,
      rw (run_work, e) f,
    )

-- Two requests of which the second looks its key up before the first is answered.
unfoldable pub overlapping :
    Runner → KeyedRequest → KeyedRequest → Work → Work → ℕ → ℕ → ℕ → ℕ → Action (Reply × Reply)
overlapping runner request again work other now later now' later' =
    look_up runner request now >>= λ one. look_up runner again now' >>= λ two.
    proceed runner request work later one >>= λ first.
    proceed runner again other later' two >>= λ second. pure (first, second)

-- When neither lookup finds a record, both requests run their own work.
overlapping_lem :
    (runner : Runner) (request again : KeyedRequest) (work other : Work) (now later now' later' : ℕ)
    (key : String) (s u v t : MemoryStore) (first second : Reply)
    → look_up runner request now s ≡ (ok (Found.begins key), u)
    → look_up runner again now' u ≡ (ok (Found.begins key), u)
    → run_work runner request key later work u ≡ (ok first, v)
    → run_work runner again key later' other v ≡ (ok second, t)
    → overlapping runner request again work other now later now' later' s ≡ (ok (first, second), t)
unfolding overlapping proceed
overlapping_lem runner request again work other now later now' later' key s u v t first second one
      two begun ended =
    bind_eq (look_up runner request now)
      (λ one. look_up runner again now' >>= λ two.
        proceed runner request work later one >>= λ first.
        proceed runner again other later' two >>= λ second. pure (first, second))
      s u (Found.begins key) one
    ∙ bind_eq (look_up runner again now')
        (λ two. run_work runner request key later work >>= λ first.
          proceed runner again other later' two >>= λ second. pure (first, second))
        u u (Found.begins key) two
    ∙ bind_eq (run_work runner request key later work)
        (λ first. run_work runner again key later' other >>= λ second. pure (first, second)) u v
        first begun
    ∙ bind_eq (run_work runner again key later' other) (λ second. pure (first, second)) v t second
        ended

-- Two requests to create a job carry one key, which no record answers, and the second looks it up
-- before the first is answered: both are answered by their own work, and both jobs stand in the
-- store. The generator does not give the two jobs one id.
pub creation_overlaps :
    (triage : TriageService) (runner : Runner) (request again : KeyedRequest) (key : String)
    (now later now' later' organization_id : ℕ) (input : CreateJobInput) (actor : Actor)
    (s : MemoryStore)
    → key_of request.key_header ≡ some key
    → key_of again.key_header ≡ some key
    → (find_idempotency_record now runner.organization_id key s).0 ≡ none
    → let u = (find_idempotency_record now runner.organization_id key s).1 in
      let v =
        (run_work runner request key later (creation triage now organization_id input actor) u).1 in
      (new_id v == new_id u) ≡ false
      → (first : Reply) × (second : Reply) × (t : MemoryStore) × (overlapping runner request again
            (creation triage now organization_id input actor)
            (creation triage now' organization_id input actor)
            now
            later
            now'
            later'
            s
          ≡ (ok (first, second), t))
        × (first.replayed ≡ false)
        × (second.replayed ≡ false)
        × (get t.jobs (new_id u) ≡ some (draft now organization_id input (new_id u)))
        × (get t.jobs (new_id v) ≡ some (draft now' organization_id input (new_id v)))
creation_overlaps triage runner request again key now later now' later' organization_id input actor
      s named again_named gone apart =
    let work : Work = creation triage now organization_id input actor in
    let other : Work = creation triage now' organization_id input actor in
    let u = (find_idempotency_record now runner.organization_id key s).1 in
    let empty = still_none now now' runner.organization_id key s u gone refl in
    let (first, begun, new, jobs) =
      run_work_creates triage runner request key now later organization_id input actor u in
    let v = (run_work runner request key later work u).1 in
    let (second, ended, own, more) =
      run_work_creates triage runner again key now' later' organization_id input actor v in
    (
      first,
      second,
      (run_work runner again key later' other v).1,
      overlapping_lem runner request again work other now later now' later' key s u v _ first second
          (look_up_misses runner request now key s named gone)
          (look_up_misses runner again now' key u again_named (ap (λ r. r.0) empty)
            ∙ ap (λ r. (ok (Found.begins key), r.1)) empty)
          begun ended,
      new,
      own,
      ap (λ x. get x (new_id u)) more
          ∙ get-set v.jobs (new_id v) (new_id u) _
          ∙ rw apart (ap (λ x. get x (new_id u)) jobs ∙ get-set_self u.jobs (new_id u) _),
      ap (λ x. get x (new_id v)) more ∙ get-set_self v.jobs (new_id v) _,
    )
