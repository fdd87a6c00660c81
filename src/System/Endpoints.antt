-- ===== src/System/Endpoints.antt =====
-- The endpoints of apps/api/src/routes act on the store by histories of method calls.
use rescue.Api.Auth.{require_organization, require_provider, require_role}
use rescue.Api.Idempotency.{Work}
use rescue.Api.Offers.{offer_chosen}
use rescue.Api.Storage.{assert_upload_allowed}
use rescue.Prelude.{map, ◌*◌, ◌+◌}
use rescue.Store.Evidence.{CreateEvidence, create_evidence, mark_evidence_uploaded}
use rescue.Store.Offers.{accept_offer, decline_offer, fallback_assignment}
use rescue.Api.Auth.{AuthContext}
use rescue.Api.Evidence.{EvidenceStorage, UploadInput, post_evidence, post_uploaded}
use rescue.Api.Idempotency.{KeyedRequest, Runner}
use rescue.Api.Jobs.{
  TriageService, complete_with, completion, creation, is_uploaded, post_cancel, post_complete,
  post_job, post_start, post_triage, working_roles,
}
use rescue.Api.Offers.{
  OfferDecision, OffersInput, OffersView, check_offerable, chosen, fallback_roles, offering,
  post_expire, post_fallback, post_offers, post_response,
}
use rescue.Api.Quotes.{
  QuoteInput, QuoteView, check_quotable, deciding, post_decision, post_quote, quoting, require_vat,
}
use rescue.Contracts.Commerce.{QuoteDecision}
use rescue.Contracts.Job.{CreateJobInput}
use rescue.Dispatch.{Maps, SweepConfig, rank_for_job}
use rescue.Prelude.{
  Bool-cases, List, Option, String, arith, inl, inr, length, refl, select, some, ℕ, ◌==◌,
}
use rescue.Store.Calls.{Call, perform}
use rescue.Store.Offers.{create_offers}
use rescue.Store.Quotes.{CreateQuote, create_quote, decide_quote, list_quotes_for_job}
use rescue.Store.Types.{Actor, Approval, Job, Scope, StoredEvidence}
use rescue.System.Effects.{
  Runs, Runs-bind, Runs-call, Runs-of_result, Runs-pure, Runs-silent, stays,
}
use rescue.System.Requests.{
  create_job-Runs, list_evidence-Runs, require_holder-Runs, require_job-Runs, run_once-Runs,
  store_suggestion-Runs, transition_job-Runs,
}
use rescue.System.Sweeps.{run_sweep-Runs}

pub post_job-Runs :
    (triage : TriageService) (runner : Runner) (now later : ℕ) (caller : Option AuthContext)
    (request : KeyedRequest) (input : CreateJobInput)
    → Runs (post_job triage runner now later caller request input)
unfolding post_job creation
post_job-Runs triage runner now later caller request input =
    Runs-bind (Runs-of_result {r = require_organization caller}) (λ owner.
      Runs-bind Runs-of_result (λ auth. run_once-Runs _ request _ now later (
        Runs-bind (create_job-Runs now owner.1 input owner.0.actor)
          (λ job. Runs-bind (store_suggestion-Runs triage now job) (λ u. Runs-pure)))))

pub post_triage-Runs :
    (now : ℕ) (caller : Option AuthContext) (id : ℕ) (input : Approval) (notes : Option String)
    → Runs (post_triage now caller id input notes)
unfolding post_triage
post_triage-Runs now caller id input notes =
    Runs-bind Runs-of_result (λ auth. transition_job-Runs now _)

pub post_start-Runs :
    (now : ℕ) (caller : Option AuthContext) (id : ℕ) → Runs (post_start now caller id)
unfolding post_start
post_start-Runs now caller id =
    Runs-bind (require_holder-Runs working_roles caller id) (λ auth. transition_job-Runs now _)

complete_with-Runs :
    (now : ℕ) (auth : AuthContext) (id : ℕ) (items : List StoredEvidence)
    → Runs (complete_with now auth id items)
unfolding complete_with
complete_with-Runs now auth id items = elim (Bool-cases (length items == 0)) [
  | inl e ↦ Runs-silent (λ s. rw (complete_with, e) refl)
  | inr e ↦ record {
    effect = λ s.
        rw (complete_with, e)
          ((transition_job-Runs now (completion auth id (length items))).effect s);
  }
]

pub post_complete-Runs :
    (now : ℕ) (caller : Option AuthContext) (id : ℕ) → Runs (post_complete now caller id)
unfolding post_complete
post_complete-Runs now caller id = Runs-bind (require_holder-Runs working_roles caller id) (λ auth.
    Runs-bind (list_evidence-Runs id auth.scope)
      (λ items. complete_with-Runs now auth id (select is_uploaded items)))

pub post_cancel-Runs :
    (now : ℕ) (caller : Option AuthContext) (id : ℕ) (reason : String)
    → Runs (post_cancel now caller id reason)
unfolding post_cancel
post_cancel-Runs now caller id reason = Runs-bind Runs-of_result (λ auth. transition_job-Runs now _)

create_quote-Runs : (now : ℕ) (q : CreateQuote) → Runs (create_quote now q)
unfolding perform
create_quote-Runs now q = Runs-call (Call.creates_quote now q) (λ s. refl)

check_quotable-Runs : (job : Job) (input : QuoteInput) → Runs (check_quotable job input)
unfolding check_quotable
check_quotable-Runs job input = Runs-silent (λ s. ground arith)

require_vat-Runs : (input : QuoteInput) → Runs (require_vat input)
unfolding require_vat
require_vat-Runs input = Runs-silent (λ s. ground arith)

pub post_quote-Runs :
    (view : QuoteView) (runner : Runner) (now later : ℕ) (caller : Option AuthContext)
    (request : KeyedRequest) (id : ℕ) (input : QuoteInput)
    → Runs (post_quote view runner now later caller request id input)
unfolding post_quote quoting
post_quote-Runs view runner now later caller request id input = Runs-bind Runs-of_result (λ auth.
    Runs-bind (require_job-Runs id auth.scope) (λ job.
      Runs-bind (check_quotable-Runs job input) (λ u. Runs-bind (require_vat-Runs input) (λ vat.
        run_once-Runs _ request _ now later (
          Runs-bind (create_quote-Runs now _)
            (λ quote. Runs-bind (transition_job-Runs now _) (λ updated. Runs-pure)))))))

decide_quote-Runs :
    (now id : ℕ) (scope : Scope) (decision : QuoteDecision) (reason : Option String) (actor : Actor)
    → Runs (decide_quote now id scope decision reason actor)
unfolding perform
decide_quote-Runs now id scope decision reason actor =
    Runs-call (Call.decides_quote now id scope decision reason actor) (λ s. refl)

pub post_decision-Runs :
    (view : QuoteView) (runner : Runner) (now later : ℕ) (caller : Option AuthContext)
    (request : KeyedRequest) (id : ℕ) (decision : QuoteDecision) (reason : Option String)
    → Runs (post_decision view runner now later caller request id decision reason)
unfolding post_decision deciding
post_decision-Runs view runner now later caller request id decision reason =
    Runs-bind (Runs-of_result {r = require_organization caller}) (λ owner.
      Runs-bind Runs-of_result (λ auth. run_once-Runs _ request _ now later (
        Runs-bind (decide_quote-Runs now id owner.0.scope decision reason owner.0.actor)
          (λ decided. Runs-pure))))

create_offers-Runs :
    (now job_id : ℕ) (providers : List ℕ) (payout expires_at : ℕ) (actor : Actor)
    → Runs (create_offers now job_id providers payout expires_at actor)
unfolding perform
create_offers-Runs now job_id providers payout expires_at actor =
    Runs-call (Call.creates_offers now job_id providers payout expires_at actor) (λ s. refl)

check_offerable-Runs : (auth : AuthContext) (job : Job) → Runs (check_offerable auth job)
unfolding check_offerable list_quotes_for_job
check_offerable-Runs auth job = Runs-silent (λ s. ground arith)

offer_chosen-Runs :
    (maps : Maps) (view : OffersView) (runner : Runner) (now later : ℕ) (auth : AuthContext)
    (request : KeyedRequest) (job : Job) (input : OffersInput)
    → Runs (offer_chosen maps view runner now later auth request job input)
unfolding offer_chosen offering
offer_chosen-Runs maps view runner now later auth request job input = record {
  effect = λ s.
      let eligible = chosen maps now job input.max_providers s in
      let work : Work =
        offering view (length (rank_for_job s job now maps)) now auth job eligible input in
      let runs : Runs work =
        Runs-bind
          (create_offers-Runs now job.id (map (λ c. c.provider_id) eligible) input.payout_net_cents
            (now + input.expires_in_minutes * 60_000) auth.actor)
          (λ made. Runs-pure) in
      elim (Bool-cases (length eligible == 0)) [
        | inl e ↦ rw (offer_chosen, e) (stays s)
        | inr e ↦
            rw (offer_chosen, e)
              ((run_once-Runs (record runner { organization_id = job.organization_id }) request work
                  now later runs).effect
                s)
      ];
}

pub post_offers-Runs :
    (maps : Maps) (view : OffersView) (runner : Runner) (now later : ℕ)
    (caller : Option AuthContext) (request : KeyedRequest) (id : ℕ) (input : OffersInput)
    → Runs (post_offers maps view runner now later caller request id input)
unfolding post_offers
post_offers-Runs maps view runner now later caller request id input =
    Runs-bind Runs-of_result (λ auth. Runs-bind (require_job-Runs id auth.scope) (λ job.
      Runs-bind (check_offerable-Runs auth job)
        (λ u. offer_chosen-Runs maps view runner now later auth request job input)))

decline_offer-Runs :
    (now id provider_id : ℕ) (reason : Option String) (actor : Actor)
    → Runs (decline_offer now id provider_id reason actor)
unfolding perform
decline_offer-Runs now id provider_id reason actor =
    Runs-call (Call.declines_offer now id provider_id reason actor) (λ s. refl)

accept_offer-Runs :
    (id provider_id now : ℕ) (actor : Actor) → Runs (accept_offer id provider_id now actor)
unfolding perform
accept_offer-Runs id provider_id now actor =
    Runs-call (Call.accepts_offer id provider_id now actor) (λ s. refl)

pub post_response-Runs :
    (now : ℕ) (caller : Option AuthContext) (id : ℕ) (decision : OfferDecision)
    (reason : Option String)
    → Runs (post_response now caller id decision reason)
unfolding post_response
post_response-Runs now caller id OfferDecision.decline reason =
    Runs-bind (Runs-of_result {r = require_provider caller}) (λ owner.
      Runs-bind (decline_offer-Runs now id owner.1 reason owner.0.actor) (λ offer. Runs-pure))
post_response-Runs now caller id OfferDecision.accept reason =
    Runs-bind (Runs-of_result {r = require_provider caller})
      (λ owner. Runs-bind (accept_offer-Runs id owner.1 now owner.0.actor) (λ result. Runs-pure))

fallback_assignment-Runs :
    (now job_id : ℕ) (reason : Option String) (actor : Actor)
    → Runs (fallback_assignment now job_id reason actor)
unfolding perform
fallback_assignment-Runs now job_id reason actor =
    Runs-call (Call.falls_back now job_id reason actor) (λ s. refl)

pub post_fallback-Runs :
    (now : ℕ) (caller : Option AuthContext) (id : ℕ) (reason : String)
    → Runs (post_fallback now caller id reason)
unfolding post_fallback
post_fallback-Runs now caller id reason =
    Runs-bind (require_holder-Runs fallback_roles caller id)
      (λ auth. fallback_assignment-Runs now id (some reason) auth.actor)

pub post_expire-Runs :
    (config : SweepConfig) (maps : Maps) (clock : ℕ → ℕ) (caller : Option AuthContext)
    → Runs (post_expire config maps clock caller)
unfolding post_expire
post_expire-Runs config maps clock caller =
    Runs-bind Runs-of_result (λ auth. run_sweep-Runs config maps clock auth.actor)

create_evidence-Runs : (now : ℕ) (e : CreateEvidence) → Runs (create_evidence now e)
unfolding perform
create_evidence-Runs now e = Runs-call (Call.creates_evidence now e) (λ s. refl)

pub post_evidence-Runs :
    (storage : EvidenceStorage) (now : ℕ) (caller : Option AuthContext) (id : ℕ)
    (input : UploadInput)
    → Runs (post_evidence storage now caller id input)
unfolding post_evidence
post_evidence-Runs storage now caller id input =
    Runs-bind (require_holder-Runs working_roles caller id) (λ auth.
      Runs-bind (require_job-Runs id auth.scope) (λ job.
        Runs-bind (Runs-of_result {r = assert_upload_allowed input.mime_type input.size_bytes})
          (λ u. create_evidence-Runs now _)))

mark_uploaded-Runs : (now id : ℕ) (actor : Actor) → Runs (mark_evidence_uploaded now id actor)
unfolding perform
mark_uploaded-Runs now id actor = Runs-call (Call.marks_evidence_uploaded now id actor) (λ s. refl)

pub post_uploaded-Runs :
    (now : ℕ) (caller : Option AuthContext) (id : ℕ) → Runs (post_uploaded now caller id)
unfolding post_uploaded
post_uploaded-Runs now caller id =
    Runs-bind (Runs-of_result {r = require_role working_roles caller})
      (λ auth. mark_uploaded-Runs now id auth.actor)
