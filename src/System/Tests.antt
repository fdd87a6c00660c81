-- ===== src/System/Tests.antt =====
-- The program on one small store: who calls, a retry, a completion, deliveries and passes.
use rescue.Eligibility.{
  demand_from_items, document_problems, estimate_distance_km, evaluate_provider_eligibility,
  rank_providers, select_vehicle,
}
use rescue.Store.Providers.{list_documents, list_providers, list_vehicles}
use rescue.Store.State.{new_draft}
use rescue.Api.Confirming.{post_uploaded_unscoped}
use rescue.Api.Evidence.{post_uploaded}
use rescue.Api.Guards.{require_job}
use rescue.Api.Idempotency.{Reply}
use rescue.Api.Jobs.{TriageService, creation, store_suggestion}
use rescue.Api.Offering.{IsOffered, post_offers-IsOffered}
use rescue.Api.Offers.{
  OffersInput, OffersView, check_offerable, chosen, offer_chosen, offering, post_offers,
}
use rescue.Api.Overlap.{creation_overlaps, draft, overlapping}
use rescue.Dispatch.{load_eligibility_providers, rank_for_job}
use rescue.Dispatch.Tests.{uncovered}
use rescue.Outbox.{dedupe_key_for, discriminator_for, outbox_for_event, topic_by_event}
use rescue.Prelude.Table.{get}
use rescue.Store.Jobs.{create_job}
use rescue.Store.Offers.{create_offers, offer_each}
use rescue.Store.Quotes.{list_quotes_for_job}
use rescue.Store.State.{new_id, record_audit, record_event}
use rescue.Store.Tests.{bulky_return, staff}
use text.Mathlib.Text.{◌==◌ as str_eq}
use rescue.Api.Auth.{
  AuthContext, AuthDeps, Request, authenticate, build_auth_context, principal_of, require_role,
  resolve, resolve_organization, resolve_provider,
}
use rescue.Api.Completion.{IsProven, post_complete-IsProven}
use rescue.Api.Guards.{check_holder, require_holder}
use rescue.Api.Header.{HeaderValue, header_value}
use rescue.Api.Idempotency.{
  KeyedRequest, Runner, Work, key_of, request_hash, look_up, proceed, run_once, run_work,
}
use rescue.Api.Jobs.{complete_with, post_complete}
use rescue.Api.Replay.{run_once_again, run_once_fails}
use rescue.Api.Tenancy.{MayRead, authenticate-MayRead}
use rescue.Contracts.Auth.{UserRole, is_provider_role, is_staff_role}
use rescue.Contracts.Commerce.{EvidenceKind, EvidenceStatus}
use rescue.Contracts.Errors.{AppError}
use rescue.Contracts.Job.{JobStatus, can_transition}
use rescue.Prelude.{String, [], arith, false, if◌then◌else◌, none, refl, some, true, ◌∷◌, ◌≡◌}
use rescue.Store.Action.{err, ok, pure, raise}
use rescue.Store.Evidence.{list_evidence}
use rescue.Store.Idempotency.{find_idempotency_record, save_idempotency_record}
use rescue.Store.Jobs.{find_job, record_both, transition_job}
use rescue.Store.Offers.{distinct, find_active_assignment, new_assignment}
use rescue.Store.People.{find_user_by_subject}
use rescue.Store.State.{to_job, visible, visible_job}
use rescue.Store.Tests.{open_offer, quoted_job, two_offers}
use rescue.Store.Types.{JobRecord, MemoryStore, Scope, StoredEvidence, StoredUser}

abbrev pub mara : StoredUser
mara = record {
  id = 51;
  subject = "mara";
  email = "mara@example.org";
  name = "Mara";
  memberships =
      record {
        id = 61;
        role = UserRole.provider_admin;
        organization_id = none;
        provider_id = some 21;
      }
      ∷ [];
}

abbrev proof_photo : StoredEvidence
proof_photo = record {
  id = 71;
  job_id = 1;
  kind = EvidenceKind.delivery_photo;
  status = EvidenceStatus.uploaded;
  mime_type = "image/jpeg";
  size_bytes = 1_000;
  storage_key = "evidence/71";
  uploaded_by_user_id = some 51;
  created_at = 600;
}

abbrev started_job : JobRecord
started_job = record quoted_job { status = JobStatus.in_progress }

-- Mara's provider holds the job, has begun, and has uploaded a photograph.
abbrev at_work : MemoryStore
at_work = record two_offers {
  users = ("mara", mara) ∷ [];
  jobs = (1, started_job) ∷ [];
  assignments = (81, new_assignment 500 81 (open_offer 2 21)) ∷ [];
  evidence = (71, proof_photo) ∷ [];
}

abbrev auth_deps : AuthDeps
auth_deps = record { id_of = λ t. 0; none_id = 999 }

abbrev from_mara : Request
from_mara = record {
  path = "/v1/jobs/1/complete";
  verified = ok "mara";
  organization_header = HeaderValue.absent;
  provider_header = HeaderValue.absent;
  id = "r1";
}

abbrev mara_auth : AuthContext
mara_auth = record {
  principal = principal_of mara;
  roles = UserRole.provider_admin ∷ [];
  organization_id = none;
  provider_id = some 21;
  is_staff = false;
  actor = record { user_id = some 51; role = UserRole.provider_admin; correlation_id = some "r1" };
  scope = Scope.provider 21;
}

authenticate-MayRead_example :
    (subject : String) × (user : StoredUser) × (from_mara.verified ≡ ok subject)
    × (find_user_by_subject subject at_work ≡ some user)
    × MayRead at_work user.memberships (to_job started_job)
unfolding authenticate resolve_organization resolve_provider resolve distinct header_value
    build_auth_context is_staff_role is_provider_role find_user_by_subject find_job visible_job
    visible to_job
authenticate-MayRead_example =
    authenticate-MayRead auth_deps from_mara at_work mara_auth 1 (to_job started_job) refl refl
      (λ e. ground (arith, e))

post_complete-IsProven_example :
    IsProven (some mara_auth) 1 at_work (post_complete 700 (some mara_auth) 1 at_work).1
unfolding post_complete complete_with require_holder require_role check_holder list_evidence
    transition_job visible_job visible can_transition find_active_assignment to_job record_both
post_complete-IsProven_example =
    post_complete-IsProven 700 (some mara_auth) 1 at_work
      (post_complete 700 (some mara_auth) 1 at_work).1
      (to_job (record started_job { status = JobStatus.completed; updated_at = 700 })) refl

abbrev keyed : KeyedRequest
keyed = record {
  key_header = HeaderValue.single " abc ";
  method = "POST";
  path = "/v1/jobs";
  body_text = "{}";
}

abbrev runner : Runner
runner = record { sha256_hex = λ t. t; ttl_hours = 24; organization_id = 7 }

abbrev answers : Work
answers = pure (record { status_code = 201; body = "done" })

abbrev throws : Work
throws = raise (AppError.not_found "Job")

abbrev answered : MemoryStore
answered = (run_once runner keyed answers 100 110 two_offers).1

run_once_again_example : run_once runner keyed throws 200 210 answered ≡ (
  if str_eq (request_hash runner.sha256_hex keyed) (request_hash runner.sha256_hex keyed)
      then ok (record { replayed = true; response = record { status_code = 201; body = "done" } })
      else err AppError.idempotency_key_reused,
  answered,
)
unfolding run_once look_up proceed key_of run_work find_idempotency_record save_idempotency_record
run_once_again_example =
    run_once_again runner keyed keyed answers throws 100 110 200 210 two_offers answered answered
      (record { replayed = false; response = record { status_code = 201; body = "done" } }) "abc"
      refl refl refl refl refl (omega arith)

run_once_fails_example :
    (run_once runner keyed throws 100 110 two_offers ≡ (err (AppError.not_found "Job"), two_offers))
    × (run_once runner keyed answers 200 210 two_offers
        ≡ run_work runner keyed "abc" 210 answers two_offers)
unfolding key_of find_idempotency_record
run_once_fails_example =
    run_once_fails runner keyed keyed throws answers 100 110 200 210 two_offers two_offers "abc"
      (AppError.not_found "Job") refl refl refl refl refl

abbrev tess : AuthContext
tess = record {
  principal = record {
    user_id = 5;
    subject = "tess";
    email = "tess@example.org";
    name = "Tess";
    memberships = [];
  };
  roles = UserRole.dispatcher ∷ [];
  organization_id = some 7;
  provider_id = none;
  is_staff = true;
  actor = staff;
  scope = Scope.staff;
}

-- Another carrier than Mara's holds the job, and its photograph has not been uploaded.
abbrev elsewhere : MemoryStore
elsewhere = record at_work {
  assignments = (81, new_assignment 500 81 (open_offer 3 22)) ∷ [];
  evidence =
      (71, record proof_photo { status = EvidenceStatus.requested; uploaded_by_user_id = none })
      ∷ [];
}

post_uploaded_unscoped_example :
    (e : StoredEvidence) × (t : MemoryStore) × (post_uploaded 700 (some mara_auth) 71 elsewhere
      ≡ (ok e, t))
    × (get t.evidence 71 ≡ some e)
    × (e.status ≡ EvidenceStatus.uploaded)
    × (e.job_id ≡ 1)
post_uploaded_unscoped_example =
    post_uploaded_unscoped 700 mara_auth 71 elsewhere
      (record proof_photo { status = EvidenceStatus.requested; uploaded_by_user_id = none }) refl
      refl

abbrev triage : TriageService
triage = record { suggested = λ job. none; created_view = λ job. "{}" }

creation_overlaps_example :
    let u = (find_idempotency_record 100 7 "abc" two_offers).1 in
    let v = (run_work runner keyed "abc" 110 (creation triage 100 7 bulky_return staff) u).1 in
    (first : Reply) × (second : Reply) × (t : MemoryStore) × (overlapping runner keyed keyed
        (creation triage 100 7 bulky_return staff)
        (creation triage 105 7 bulky_return staff)
        100
        110
        105
        120
        two_offers
      ≡ (ok (first, second), t))
    × (first.replayed ≡ false)
    × (second.replayed ≡ false)
    × (get t.jobs (new_id u) ≡ some (draft 100 7 bulky_return (new_id u)))
    × (get t.jobs (new_id v) ≡ some (draft 105 7 bulky_return (new_id v)))
unfolding run_work creation create_job store_suggestion save_idempotency_record record_both
    record_event record_audit to_job outbox_for_event topic_by_event dedupe_key_for
    discriminator_for new_draft key_of find_idempotency_record
creation_overlaps_example =
    creation_overlaps triage runner keyed keyed "abc" 100 110 105 120 7 bulky_return staff
      two_offers refl refl refl refl

abbrev round : OffersInput
round = record { payout_net_cents = 9_000; expires_in_minutes = 20; max_providers = 3 }

abbrev offers_view : OffersView
offers_view = λ offers n. "[]"

abbrev first_reply : Reply
first_reply = record { replayed = false; response = record { status_code = 201; body = "[]" } }

post_offers-IsOffered_example :
    IsOffered none 2_000
      (some tess)
      1
      round
      uncovered
      (post_offers none offers_view runner 2_000 2_010 (some tess) keyed 1 round uncovered).1
      first_reply
unfolding post_offers offer_chosen chosen require_role require_job check_offerable offering run_once
    look_up proceed key_of run_work find_idempotency_record save_idempotency_record find_job
    visible_job visible to_job list_quotes_for_job rank_for_job load_eligibility_providers
    create_offers offer_each rank_providers list_providers evaluate_provider_eligibility
    estimate_distance_km document_problems list_documents select_vehicle list_vehicles
    demand_from_items
post_offers-IsOffered_example =
    post_offers-IsOffered none offers_view runner 2_000 2_010 (some tess) keyed 1 round uncovered
      (post_offers none offers_view runner 2_000 2_010 (some tess) keyed 1 round uncovered).1
      first_reply refl
