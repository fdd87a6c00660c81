-- ===== src/System/Whole.antt =====
-- The program acts on the store by calls of its methods alone, so what they keep, it keeps.
use rescue.System.Carriers.{
  post_availability-Runs, post_document-Runs, post_document_review-Runs, post_erasure-Runs,
  post_provider-Runs, post_review-Runs, post_vehicle-Runs,
}
use rescue.Api.Auth.{AuthContext, Request, authenticate}
use rescue.Prelude.{List, Option, [], inl, inr, subst, sym, ℕ, ◌∷◌, ◌≡◌}
use rescue.Store.Action.{Result-cases}
use rescue.Store.Assignments.{OneActive, run-OneActive}
use rescue.Store.Calls.{Call, run}
use rescue.Store.Types.{MemoryStore}
use rescue.System.{Endpoint, Event, Site, handle, happen, live, serve, worker_options}
use rescue.System.Effects.{IsRun, and_then, stays}
use rescue.System.Endpoints.{
  post_cancel-Runs, post_complete-Runs, post_decision-Runs, post_evidence-Runs, post_expire-Runs,
  post_fallback-Runs, post_job-Runs, post_offers-Runs, post_quote-Runs, post_response-Runs,
  post_start-Runs, post_triage-Runs, post_uploaded-Runs,
}
use rescue.System.Passes.{app_handlers-RegistryRuns, drain-IsRun}
use rescue.System.Sweeps.{run_sweep-Runs}
use rescue.Worker.{World}

handle-IsRun :
    (site : Site) (now later : ℕ) (caller : Option AuthContext) (endpoint : Endpoint)
    (s : MemoryStore)
    → IsRun s (handle site now later caller endpoint s)
unfolding handle
handle-IsRun site now later caller (Endpoint.creates_job request input) s =
    (post_job-Runs site.triage site.runner now later caller request input).effect s
handle-IsRun site now later caller (Endpoint.approves_triage id input notes) s =
    (post_triage-Runs now caller id input notes).effect s
handle-IsRun site now later caller (Endpoint.starts id) s = (post_start-Runs now caller id).effect s
handle-IsRun site now later caller (Endpoint.completes id) s =
    (post_complete-Runs now caller id).effect s
handle-IsRun site now later caller (Endpoint.cancels id reason) s =
    (post_cancel-Runs now caller id reason).effect s
handle-IsRun site now later caller (Endpoint.quotes request id input) s =
    (post_quote-Runs site.quote_view site.runner now later caller request id input).effect s
handle-IsRun site now later caller (Endpoint.decides request id decision reason) s =
    (post_decision-Runs site.quote_view site.runner now later caller request id decision
        reason).effect
      s
handle-IsRun site now later caller (Endpoint.offers request id input) s =
    (post_offers-Runs site.maps site.offers_view site.runner now later caller request id
        input).effect
      s
handle-IsRun site now later caller (Endpoint.responds id decision reason) s =
    (post_response-Runs now caller id decision reason).effect s
handle-IsRun site now later caller (Endpoint.falls_through id reason) s =
    (post_fallback-Runs now caller id reason).effect s
handle-IsRun site now later caller (Endpoint.expires clock) s =
    (post_expire-Runs site.sweep site.maps clock caller).effect s
handle-IsRun site now later caller (Endpoint.asks_upload id input) s =
    (post_evidence-Runs site.storage now caller id input).effect s
handle-IsRun site now later caller (Endpoint.confirms_upload id) s =
    (post_uploaded-Runs now caller id).effect s
handle-IsRun site now later caller (Endpoint.onboards input) s =
    (post_provider-Runs now caller input).effect s
handle-IsRun site now later caller (Endpoint.reviews id status) s =
    (post_review-Runs now caller id status).effect s
handle-IsRun site now later caller (Endpoint.pauses id accepting note) s =
    (post_availability-Runs now caller id accepting note).effect s
handle-IsRun site now later caller (Endpoint.adds_vehicle id input registration) s =
    (post_vehicle-Runs site.registration_hash now caller id input registration).effect s
handle-IsRun site now later caller (Endpoint.adds_document id input) s =
    (post_document-Runs now caller id input).effect s
handle-IsRun site now later caller (Endpoint.reviews_document id status) s =
    (post_document_review-Runs now caller id status).effect s
handle-IsRun site now later caller (Endpoint.erases user_id) s =
    (post_erasure-Runs site.id_text now caller user_id).effect s

serve-IsRun :
    (site : Site) (now later : ℕ) (request : Request) (endpoint : Endpoint) (s : MemoryStore)
    → IsRun s (serve site now later request endpoint s)
unfolding serve
serve-IsRun site now later request endpoint s =
    elim (Result-cases (authenticate site.auth request s)) [
      | inl (x, e) ↦ rw (serve, e) (stays s)
      | inr (caller, e) ↦ rw (serve, e) (handle-IsRun site now later caller endpoint s)
    ]

happen-IsRun : (site : Site) (e : Event) (w : World) → IsRun w.store (happen site e w).store
unfolding happen worker_options
happen-IsRun site (Event.asks now later request endpoint) w =
    serve-IsRun site now later request endpoint w.store
happen-IsRun site (Event.sweeps clock actor) w =
    (run_sweep-Runs site.sweep site.maps clock actor).effect w.store
happen-IsRun site (Event.drains clock) w =
    drain-IsRun (worker_options site) (app_handlers-RegistryRuns site.sender site.payments) clock w

-- Whatever requests are answered, well or with an error, whatever sweeps run and whatever passes the
-- worker makes, in whatever order, the store is as a history of calls of its methods leaves it.
pub live-IsRun :
    (site : Site) (events : List Event) (w : World)
    → (calls : List Call) × ((live site events w).store ≡ run calls w.store)
unfolding live
live-IsRun site [] w = stays w.store
live-IsRun site (e ∷ rest) w =
    and_then w.store (happen site e w).store _ (happen-IsRun site e w)
      (live-IsRun site rest (happen site e w))

-- The program never gives a job to two carriers: from a store in which no job has two active
-- assignments, no sequence of requests, sweeps and passes leads to one in which a job has.
pub live-OneActive :
    (site : Site) (events : List Event) (w : World)
    → OneActive w.store
    → OneActive (live site events w).store
live-OneActive site events w h =
    let (calls, e) = live-IsRun site events w in
    subst OneActive (sym e) (run-OneActive calls w.store h)
