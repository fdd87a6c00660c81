-- ===== src/Api/Evidence.antt =====
-- apps/api/src/routes/evidence.ts: the endpoints for proof of completion. The storage that signs
-- the links, and names the objects, is a parameter.
use rescue.Api.Storage.{KeyTexts, assert_upload_allowed, build_storage_key}
use rescue.Contracts.Commerce.{quote_status_coded}
use rescue.Contracts.Job.{job_status_coded}
use rescue.Api.Auth.{AuthContext, require_auth, require_role}
use rescue.Api.Guards.{of_result, require_holder, require_job}
use rescue.Api.Jobs.{is_uploaded, working_roles}
use rescue.Contracts.Commerce.{EvidenceKind}
use rescue.Contracts.Errors.{AppError}
use rescue.Prelude.{List, Option, String, if◌then◌else◌, none, some, ℕ}
use rescue.Store.Action.{Action, pure, raise, ◌>>=◌}
use rescue.Store.Evidence.{create_evidence, find_evidence, list_evidence, mark_evidence_uploaded}
use rescue.Store.Types.{StoredEvidence}

-- What the storage signs: the link under which an object is read.
pub record EvidenceStorage : Type 0 where
  pub key_texts : KeyTexts
  pub download_url : ℕ → String → String

pub record UploadInput : Type 0 where
  pub kind : EvidenceKind
  pub mime_type : String
  pub size_bytes : ℕ
  pub filename : String

-- `POST /jobs/:id/evidence`
unfoldable pub post_evidence :
    EvidenceStorage → ℕ → Option AuthContext → ℕ → UploadInput → Action StoredEvidence
post_evidence storage now caller id input = require_holder working_roles caller id >>= λ auth.
    require_job id auth.scope >>= λ job.
    of_result (assert_upload_allowed input.mime_type input.size_bytes) >>= λ _.
    create_evidence now (record {
      job_id = id;
      kind = input.kind;
      mime_type = input.mime_type;
      size_bytes = input.size_bytes;
      storage_key = build_storage_key storage.key_texts id input.kind input.mime_type now;
      actor = auth.actor;
    })

-- `POST /evidence/:evidenceId/complete`
unfoldable pub post_uploaded : ℕ → Option AuthContext → ℕ → Action StoredEvidence
post_uploaded now caller evidence_id = of_result (require_role working_roles caller) >>= λ auth.
    mark_evidence_uploaded now evidence_id auth.actor

-- `GET /jobs/:id/evidence`
unfoldable pub get_evidence : Option AuthContext → ℕ → Action (List StoredEvidence)
get_evidence caller id = of_result (require_auth caller) >>= λ auth. list_evidence id auth.scope

-- `GET /evidence/:evidenceId/download`
unfoldable pub get_download :
    EvidenceStorage → ℕ → Option AuthContext → ℕ → Action (StoredEvidence × String)
get_download storage now caller evidence_id = of_result (require_auth caller) >>= λ auth s.
    elim (find_evidence evidence_id auth.scope s) [
      | none ↦ raise (AppError.not_found "Evidence") s
      | some e ↦
          if is_uploaded e
          then pure (e, storage.download_url now e.storage_key) s
          else raise (AppError.not_found "Evidence") s
    ]
