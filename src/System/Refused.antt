-- ===== src/System/Refused.antt =====
-- Requests to apps/api/src/routes whose caller may not use the endpoint.
use rescue.System.Refusals.{
  Refuses, by_access, by_buyer, by_carrier, by_own, by_role, require_holder_refuses,
}
use rescue.Api.Auth.{
  AuthContext, Request, authenticate, require_auth, require_organization, require_provider,
  require_role,
}
use rescue.Api.Evidence.{post_evidence, post_uploaded}
use rescue.Api.Guards.{require_holder}
use rescue.Api.Jobs.{post_cancel, post_complete, post_job, post_start, post_triage, working_roles}
use rescue.Api.Offers.{
  OfferDecision, post_expire, post_fallback, post_offers, post_response, fallback_roles,
}
use rescue.Api.Providers.{
  assert_access, post_availability, post_document, post_document_review, post_erasure,
  post_provider, post_review, post_vehicle, require_own,
}
use rescue.Api.Quotes.{post_decision, post_quote}
use rescue.Prelude.{Bool, Option, false, inl, inr, none, refl, some, ℕ, ◌≡◌}
use rescue.Store.Action.{Result, Result-cases, err, ok}
use rescue.Store.Types.{MemoryStore}
use rescue.System.{Endpoint, Site, handle, serve}
use rescue.System.Permissions.{may_use}
use rescue.Api.Jobs.{working_roles}
use rescue.Api.Offers.{fallback_roles}

handle_refuses :
    (site : Site) (now later : ℕ) (auth : AuthContext) (endpoint : Endpoint) (s : MemoryStore)
    → may_use s auth endpoint ≡ false
    → handle site now later (some auth) endpoint s ≡ s
unfolding handle may_use post_job post_triage post_start post_complete post_cancel post_quote
    post_decision post_offers post_response post_fallback post_expire post_evidence post_uploaded
    post_provider post_review post_availability post_vehicle post_document post_document_review
    post_erasure
handle_refuses site now later auth (Endpoint.creates_job request input) s e =
    let r : Refuses (post_job site.triage site.runner now later (some auth) request input) s =
      by_buyer auth s _ _ e in
    r.refused
handle_refuses site now later auth (Endpoint.approves_triage id input notes) s e =
    let r : Refuses (post_triage now (some auth) id input notes) s = by_role auth s _ _ e in
    r.refused
handle_refuses site now later auth (Endpoint.starts id) s e =
    let (x, thrown, kept) = require_holder_refuses auth s working_roles id e in
    rw (handle, post_start, thrown, kept) refl
handle_refuses site now later auth (Endpoint.completes id) s e =
    let (x, thrown, kept) = require_holder_refuses auth s working_roles id e in
    rw (handle, post_complete, thrown, kept) refl
handle_refuses site now later auth (Endpoint.cancels id reason) s e =
    let r : Refuses (post_cancel now (some auth) id reason) s = by_role auth s _ _ e in r.refused
handle_refuses site now later auth (Endpoint.quotes request id input) s e =
    let r : Refuses (post_quote site.quote_view site.runner now later (some auth) request id input)
        s =
      by_role auth s _ _ e in
    r.refused
handle_refuses site now later auth (Endpoint.decides request id decision reason) s e =
    let r : Refuses
        (post_decision site.quote_view site.runner now later (some auth) request id decision reason)
        s =
      by_buyer auth s _ _ e in
    r.refused
handle_refuses site now later auth (Endpoint.offers request id input) s e =
    let r : Refuses
        (post_offers site.maps site.offers_view site.runner now later (some auth) request id input)
        s =
      by_role auth s _ _ e in
    r.refused
handle_refuses site now later auth (Endpoint.responds id OfferDecision.accept reason) s e =
    let r : Refuses (post_response now (some auth) id OfferDecision.accept reason) s =
      by_carrier auth s _ e in
    r.refused
handle_refuses site now later auth (Endpoint.responds id OfferDecision.decline reason) s e =
    let r : Refuses (post_response now (some auth) id OfferDecision.decline reason) s =
      by_carrier auth s _ e in
    r.refused
handle_refuses site now later auth (Endpoint.falls_through id reason) s e =
    let (x, thrown, kept) = require_holder_refuses auth s fallback_roles id e in
    rw (handle, post_fallback, thrown, kept) refl
handle_refuses site now later auth (Endpoint.expires clock) s e =
    let r : Refuses (post_expire site.sweep site.maps clock (some auth)) s = by_role auth s _ _ e in
    r.refused
handle_refuses site now later auth (Endpoint.asks_upload id input) s e =
    let (x, thrown, kept) = require_holder_refuses auth s working_roles id e in
    rw (handle, post_evidence, thrown, kept) refl
handle_refuses site now later auth (Endpoint.confirms_upload id) s e =
    let r : Refuses (post_uploaded now (some auth) id) s = by_role auth s _ _ e in r.refused
handle_refuses site now later auth (Endpoint.onboards input) s e =
    let r : Refuses (post_provider now (some auth) input) s = by_role auth s _ _ e in r.refused
handle_refuses site now later auth (Endpoint.reviews id status) s e =
    let r : Refuses (post_review now (some auth) id status) s = by_role auth s _ _ e in r.refused
handle_refuses site now later auth (Endpoint.pauses id accepting note) s e =
    let r : Refuses (post_availability now (some auth) id accepting note) s =
      by_access auth s _ _ _ e in
    r.refused
handle_refuses site now later auth (Endpoint.adds_vehicle id input registration) s e =
    let r : Refuses (post_vehicle site.registration_hash now (some auth) id input registration) s =
      by_own auth s _ _ _ e in
    r.refused
handle_refuses site now later auth (Endpoint.adds_document id input) s e =
    let r : Refuses (post_document now (some auth) id input) s = by_own auth s _ _ _ e in r.refused
handle_refuses site now later auth (Endpoint.reviews_document id status) s e =
    let r : Refuses (post_document_review now (some auth) id status) s = by_role auth s _ _ e in
    r.refused
handle_refuses site now later auth (Endpoint.erases user_id) s e =
    let r : Refuses (post_erasure site.id_text now (some auth) user_id) s = by_role auth s _ _ e in
    r.refused

handle_anonymous :
    (site : Site) (now later : ℕ) (endpoint : Endpoint) (s : MemoryStore)
    → handle site now later none endpoint s ≡ s
unfolding handle post_job post_triage post_start post_complete post_cancel post_quote post_decision
    post_offers post_response post_fallback post_expire post_evidence post_uploaded post_provider
    post_review post_availability post_vehicle post_document post_document_review post_erasure
    require_role require_holder require_organization require_provider assert_access require_own
    require_auth
handle_anonymous site now later (Endpoint.responds id OfferDecision.accept reason) s = refl
handle_anonymous site now later (Endpoint.responds id OfferDecision.decline reason) s = refl
handle_anonymous site now later endpoint s = refl

-- Whether the hook lets a caller through that may use the endpoint.
abbrev pub lets_in : Result (Option AuthContext) → MemoryStore → Endpoint → Bool
lets_in (err _) s endpoint = false
lets_in (ok none) s endpoint = false
lets_in (ok (some auth)) s endpoint = may_use s auth endpoint

-- A request changes nothing in the store unless its caller is authenticated and may use the
-- endpoint: each endpoint has its roles, those for customers want an organisation too, those on
-- work in progress want staff or the provider that holds the job now, and those on a fleet, on
-- documents and on availability want staff or the provider itself.
pub serve_refuses :
    (site : Site) (now later : ℕ) (request : Request) (endpoint : Endpoint) (s : MemoryStore)
    → lets_in (authenticate site.auth request s) s endpoint ≡ false
    → serve site now later request endpoint s ≡ s
unfolding serve
serve_refuses site now later request endpoint s e =
    elim (Result-cases (authenticate site.auth request s)) [
      | inl (x, f) ↦ rw (serve, f) refl
      | inr (none, f) ↦ rw (serve, f) (handle_anonymous site now later endpoint s)
      | inr (some auth, f) ↦
          rw (serve, f) (handle_refuses site now later auth endpoint s (rw f at e))
    ]
