-- ===== src/Api/Confirming.antt =====
-- Who may confirm an upload, in apps/api/src/routes/evidence.ts.
use rescue.Api.Auth.{AuthContext, holds_one, require_role}
use rescue.Api.Evidence.{post_uploaded}
use rescue.Api.Guards.{of_result}
use rescue.Api.Jobs.{working_roles}
use rescue.Contracts.Commerce.{EvidenceStatus}
use rescue.Prelude.{refl, some, true, ℕ, ◌∙◌, ◌≡◌}
use rescue.Prelude.Table.{get, get-set_self}
use rescue.Store.Action.{bind_eq, ok}
use rescue.Store.Evidence.{mark_evidence_uploaded}
use rescue.Store.Jobs.{record_both}
use rescue.Store.State.{record_audit, record_event}
use rescue.Store.Types.{MemoryStore, StoredEvidence}

-- Any caller with a role of `POST /evidence/:evidenceId/complete` confirms the upload of any piece of
-- evidence: a provider marks the proof of a job uploaded that it neither holds nor sees.
pub post_uploaded_unscoped :
    (now : ℕ) (auth : AuthContext) (evidence_id : ℕ) (s : MemoryStore) (e : StoredEvidence)
    → holds_one working_roles auth ≡ true
    → get s.evidence evidence_id ≡ some e
    → (e' : StoredEvidence) × (t : MemoryStore) × (post_uploaded now (some auth) evidence_id s
        ≡ (ok e', t))
      × (get t.evidence evidence_id ≡ some e')
      × (e'.status ≡ EvidenceStatus.uploaded)
      × (e'.job_id ≡ e.job_id)
unfolding post_uploaded require_role mark_evidence_uploaded record_both record_event record_audit
post_uploaded_unscoped now auth evidence_id s e role found =
    let e' : StoredEvidence = record e {
      status = EvidenceStatus.uploaded;
      uploaded_by_user_id = auth.actor.user_id;
    } in
    (
      e',
      (mark_evidence_uploaded now evidence_id auth.actor s).1,
      bind_eq (of_result (require_role working_roles (some auth)))
            (λ a. mark_evidence_uploaded now evidence_id a.actor) s s auth
            (rw (require_role, role) refl)
          ∙ rw (mark_evidence_uploaded, found) refl,
      rw (mark_evidence_uploaded, found) (get-set_self s.evidence evidence_id e'),
      refl,
      refl,
    )
