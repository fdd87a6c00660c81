-- ===== src/Contracts/Job/History.antt =====
-- What `JOB_TRANSITIONS` in packages/contracts/src/job.ts says of whole histories of a job.
use rescue.Prelude.{◌≡◌, Bool, true, List, [], ◌∷◌, ◌===◌, any, All, arith}
use rescue.Contracts.Job.{JobStatus, can_transition, job_status_coded}

-- The statuses of a job so far, the newest first: it begins as a draft, and each change is allowed.
pub data IsHistory : List JobStatus → Type 0 where
  created : IsHistory (JobStatus.draft ∷ [])
  moved :
      {from : JobStatus} {past : List JobStatus} (to : JobStatus)
      → can_transition from to ≡ true
      → IsHistory (from ∷ past)
      → IsHistory (to ∷ from ∷ past)

abbrev pub visited : List JobStatus → JobStatus → Bool
visited past s = any (λ t. t === s) past

-- The statuses that must lie behind a job.
abbrev pub milestones : JobStatus → List JobStatus
milestones JobStatus.draft = []
milestones JobStatus.triaged = JobStatus.draft ∷ []
milestones JobStatus.quoted = JobStatus.triaged ∷ JobStatus.draft ∷ []
milestones JobStatus.assigned = JobStatus.quoted ∷ JobStatus.triaged ∷ JobStatus.draft ∷ []
milestones JobStatus.in_progress =
    JobStatus.assigned ∷ JobStatus.quoted ∷ JobStatus.triaged ∷ JobStatus.draft ∷ []
milestones JobStatus.completed =
    JobStatus.in_progress ∷ JobStatus.assigned ∷ JobStatus.quoted ∷ JobStatus.triaged
    ∷ JobStatus.draft ∷ []
milestones JobStatus.cancelled = JobStatus.draft ∷ []

abbrev Behind : List JobStatus → JobStatus → Type 0
Behind past s = All (λ t. visited past t ≡ true) (milestones s)

step-Behind :
    (from to : JobStatus) (past : List JobStatus)
    → can_transition from to ≡ true
    → Behind past from
    → Behind (from ∷ past) to
unfolding can_transition
step-Behind from to past h b = ground arith

-- In every history each status comes after all its milestones.
pub IsHistory-milestones :
    (s : JobStatus) (past : List JobStatus)
    → IsHistory (s ∷ past)
    → All (λ t. visited past t ≡ true) (milestones s)
IsHistory-milestones _ _ created = tt
IsHistory-milestones _ _ (moved {from} {past} to h r) =
    step-Behind from to past h (IsHistory-milestones from past r)
