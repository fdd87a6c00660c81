-- ===== src/Api/Completion.antt =====
-- What the endpoints of apps/api/src/routes/jobs.ts have checked when they succeed.
use rescue.Prelude.Table.{get-set_self}
use rescue.Api.Jobs.{complete_with, completion, is_uploaded, post_complete, working_roles}
use rescue.Contracts.Job.{JobStatus}
use rescue.Prelude.{length, refl, select, ◌<◌, ◌==◌}
use rescue.Prelude.Table.{get, values}
use rescue.Store.Action.{ok_injective}
use rescue.Store.Evidence.{list_evidence}
use rescue.Store.Types.{Scope, StoredEvidence}
use rescue.Prelude.{ap, subst, sym, ◌∙◌}
use rescue.Store.Action.{pure, ◌>>=◌}
use rescue.Api.Auth.{AuthContext, holds_one, require_role, same_id}
use rescue.Api.Guards.{check_holder, of_result, require_holder}
use rescue.Contracts.Auth.{UserRole}
use rescue.Contracts.Job.{can_transition}
use rescue.Prelude.{
  arith, Bool-cases, List, Option, Option-cases, inl, inr, none, some, true, ℕ, ◌≡◌, ◌⊎◌,
}
use rescue.Prelude.Table.{set}
use rescue.Store.Action.{bind_ok, ok}
use rescue.Store.Jobs.{TransitionInput, moved_record, record_both, transition_job}
use rescue.Store.Offers.{find_active_assignment}
use rescue.Store.State.{to_job, visible_job}
use rescue.Store.Types.{Job, JobRecord, MemoryStore, StoredAssignment}

-- The caller is staff, or a provider that holds the job now.
abbrev pub Holds : AuthContext → ℕ → MemoryStore → Type 0
Holds auth id s =
    (auth.is_staff ≡ true)
    ⊎ ((a : StoredAssignment) × (find_active_assignment id s ≡ some a)
        × (auth.provider_id ≡ some a.provider_id))

pub require_role_ok :
    (roles : List UserRole) (caller : Option AuthContext) (auth : AuthContext)
    → require_role roles caller ≡ ok auth
    → (caller ≡ some auth) × (holds_one roles auth ≡ true)
unfolding require_role
require_role_ok roles none auth e = absurd (cc)
require_role_ok roles (some own) auth e = elim (Bool-cases (holds_one roles own)) [
  | inl f ↦ ground (arith, e, f)
  | inr f ↦ absurd (ground (arith, e, f))
]

same_id_eq : (n : ℕ) (m : Option ℕ) → same_id (some n) m ≡ true → m ≡ some n
same_id_eq n none h = absurd (cc)
same_id_eq n (some k) h = ground (arith, h)

check_holder_ok :
    (auth : AuthContext) (id : ℕ) (s t : MemoryStore) (u : Unit {0})
    → check_holder auth id s ≡ (ok u, t)
    → (t ≡ s) × Holds auth id s
unfolding check_holder
check_holder_ok auth id s t u e = elim (Bool-cases auth.is_staff) [
  | inl f ↦ (ground (arith, e, f), inl f)
  | inr f ↦ elim (Option-cases (find_active_assignment id s)) [
    | inl g ↦ absurd (ground (arith, e, f, g))
    | inr (a, g) ↦ elim (Bool-cases (same_id (some a.provider_id) auth.provider_id)) [
      | inl h ↦
          (ground (arith, e, f, g, h), inr (a, g, same_id_eq a.provider_id auth.provider_id h))
      | inr h ↦ absurd (ground (arith, e, f, g, h))
    ]
  ]
]

pub require_holder_ok :
    (roles : List UserRole) (caller : Option AuthContext) (id : ℕ) (s t : MemoryStore)
    (auth : AuthContext)
    → require_holder roles caller id s ≡ (ok auth, t)
    → (t ≡ s) × (caller ≡ some auth) × (holds_one roles auth ≡ true) × Holds auth id s
unfolding require_holder
require_holder_ok roles caller id s t auth e =
    let (own, u, f, g) =
      bind_ok (of_result (require_role roles caller))
        (λ auth. check_holder auth id >>= λ _. pure auth) s t auth e in
    let (x, v, h, k) = bind_ok (check_holder own id) (λ _. pure own) u t auth g in
    let (same, named) = require_role_ok roles caller own (ap (λ r. r.0) f) in
    let (kept, holds) = check_holder_ok own id u v x h in
    let begun : s ≡ u = ap (λ r. r.1) f in
    let mine : own ≡ auth = ok_injective (ap (λ r. r.0) k) in
    let ended : v ≡ t = ap (λ r. r.1) k in
    let all =
      subst (λ a. (caller ≡ some a) × (holds_one roles a ≡ true) × Holds a id s) mine
        (same, named, subst (Holds own id) (sym begun) holds) in
    (sym ended ∙ kept ∙ sym begun, all.0, all.1, all.2)

transition_job_ok :
    (now : ℕ) (input : TransitionInput) (s t : MemoryStore) (job : Job)
    → transition_job now input s ≡ (ok job, t)
    → (r : JobRecord) × (visible_job s input.job_id input.scope ≡ some r)
      × (can_transition r.status input.to ≡ true)
      × (job ≡ to_job (moved_record now input r))
      × (t.jobs ≡ set s.jobs input.job_id (moved_record now input r))
unfolding transition_job record_both
transition_job_ok now input s t job e =
    elim (Option-cases (visible_job s input.job_id input.scope)) [
      | inl f ↦ absurd (ground (arith, e, f))
      | inr (r, f) ↦ elim (Bool-cases (can_transition r.status input.to)) [
        | inl g ↦ (r, f, g, ground (arith, e, f, g), ground (arith, e, f, g))
        | inr g ↦ absurd (ground (arith, e, f, g))
      ]
    ]

-- What a completed job is completed on.
pub record IsProven (caller : Option AuthContext) (id : ℕ) (s t : MemoryStore) : Type 0 where
  pub auth : AuthContext
  pub called : caller ≡ some auth
  pub role : holds_one working_roles auth ≡ true
  pub holder : Holds auth id s
  pub row : JobRecord
  -- the caller sees the job, and work on it has started
  pub seen : visible_job s id auth.scope ≡ some row
  pub started : can_transition row.status JobStatus.completed ≡ true
  -- proof of this job has been uploaded
  pub proof : 0 < length (select is_uploaded (select (λ e. e.job_id == id) (values s.evidence)))
  pub ended : (new : JobRecord) × (get t.jobs id ≡ some new) × (new.status ≡ JobStatus.completed)

complete_with_ok :
    (now : ℕ) (auth : AuthContext) (id : ℕ) (items : List StoredEvidence) (s t : MemoryStore)
    (job : Job)
    → complete_with now auth id items s ≡ (ok job, t)
    → (0 < length items) × (transition_job now (completion auth id (length items)) s ≡ (ok job, t))
unfolding complete_with
complete_with_ok now auth id items s t job e = elim (Bool-cases (length items == 0)) [
  | inl z ↦ absurd (ground (arith, e, z))
  | inr z ↦ (ground (arith, z), rw z at e)
]

list_evidence_ok :
    (id : ℕ) (scope : Scope) (s t : MemoryStore) (items : List StoredEvidence)
    → list_evidence id scope s ≡ (ok items, t)
    → (t ≡ s) × (items ≡ select (λ e. e.job_id == id) (values s.evidence))
unfolding list_evidence
list_evidence_ok id scope s t items e = elim (Option-cases (visible_job s id scope)) [
  | inl f ↦ absurd (ground (arith, e, f))
  | inr (r, f) ↦ (ground (arith, e, f), ground (arith, e, f))
]

-- A completion succeeds only for staff or for the provider that holds the job now, on a job that
-- the caller sees and whose work has started, and only when proof of that job has been uploaded;
-- the job is then completed.
pub post_complete-IsProven :
    (now : ℕ) (caller : Option AuthContext) (id : ℕ) (s t : MemoryStore) (job : Job)
    → post_complete now caller id s ≡ (ok job, t)
    → IsProven caller id s t
unfolding post_complete complete_with
post_complete-IsProven now caller id s t job e =
    let (auth, u, f, g) =
      bind_ok (require_holder working_roles caller id)
        (λ auth. list_evidence id auth.scope >>= λ evidence.
          complete_with now auth id (select is_uploaded evidence))
        s t job e in
    let (kept, called, role, holder) = require_holder_ok working_roles caller id s u auth f in
    let (items, v, h, k) =
      bind_ok (list_evidence id auth.scope)
        (λ evidence. complete_with now auth id (select is_uploaded evidence)) u t job g in
    let (still, all_items) = list_evidence_ok id auth.scope u v items h in
    let input = completion auth id (length (select is_uploaded items)) in
    let (some_proof, moved) = complete_with_ok now auth id (select is_uploaded items) v t job k in
    let (r, seen, started, same, jobs) =
      transition_job_ok now input s t job
        (subst (λ x. transition_job now input x ≡ (ok job, t)) (still ∙ kept) moved) in
    let here = all_items ∙ ap (λ x. select (λ e. e.job_id == id) (values x.evidence)) kept in
    record {
      auth = auth;
      called = called;
      role = role;
      holder = holder;
      row = r;
      seen = seen;
      started = started;
      proof = subst (λ xs. 0 < length (select is_uploaded xs)) here some_proof;
      ended = (moved_record now input r, ap (λ x. get x id) jobs ∙ get-set_self s.jobs id _, refl);
    }
