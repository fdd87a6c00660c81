-- ===== src/System/WholeTests.antt =====
-- The whole program for a day on one small store.
use rescue.System.Tests.{mara}
use rescue.Api.Auth.{Request}
use rescue.Api.Header.{HeaderValue}
use rescue.Api.Offers.{OfferDecision}
use rescue.Dispatch.{default_sweep_config}
use rescue.Prelude.{◌≡◌, List, String, [], arith, none, ℕ, ◌+◌, ◌∷◌}
use rescue.Store.Action.{ok}
use rescue.Store.Assignments.{OneActive}
use rescue.Store.Tests.{staff, two_offers}
use rescue.System.{Endpoint, Event, Site, live, serve}
use rescue.System.Permissions.{at_hand, may_use}
use rescue.System.Refused.{serve_refuses}
use rescue.Api.Auth.{
  authenticate, build_auth_context, resolve, resolve_organization, resolve_provider,
}
use rescue.Api.Header.{header_value}
use rescue.Contracts.Auth.{is_provider_role, is_staff_role}
use rescue.Store.Offers.{distinct, find_active_assignment}
use rescue.Store.People.{find_user_by_subject}
use rescue.Prelude.{refl}
use rescue.System.Whole.{live-OneActive}
use rescue.Worker.{World}
use rescue.Worker.Tests.{deps, sender}

abbrev site : Site
site = record {
  auth = record { id_of = λ t. 0; none_id = 999 };
  triage = record { suggested = λ job. none; created_view = λ job. "{}" };
  runner = record { sha256_hex = λ t. t; ttl_hours = 24; organization_id = 0 };
  quote_view = λ quote job. "{}";
  offers_view = λ offers n. "{}";
  maps = none;
  sweep = default_sweep_config;
  storage = record {
    key_texts = record { id_text = λ n. "id"; day_text = λ n. "day"; nonce = "00" };
    download_url = λ now key. key;
  };
  sender = sender;
  payments = deps;
  batch_size = 20;
  message_of = λ e. "failed";
  registration_hash = λ t. t;
  id_text = λ n. "id";
}

abbrev carrier : ℕ → String → Request
carrier provider_id path = record {
  path = path;
  verified = ok "mara";
  organization_header = HeaderValue.absent;
  provider_header = HeaderValue.absent;
  id = "r1";
}

abbrev day : List Event
day =
    Event.asks 500 501 (carrier 21 "/v1/offers/2/response")
      (Endpoint.responds 2 OfferDecision.accept none)
    ∷ Event.drains (λ n. 600 + n)
    ∷ Event.sweeps (λ n. 700 + n) staff
    ∷ Event.asks 800 801 (carrier 21 "/v1/jobs/1/start") (Endpoint.starts 1)
    ∷ []

abbrev start : World
start = record { store = record two_offers { users = ("mara", mara) ∷ [] }; calls = []; sent = [] }

live-OneActive_example : OneActive (live site day start).store
live-OneActive_example = live-OneActive site day start (λ job_id. omega arith)

-- Mara's carrier does not hold the job.
serve_refuses_example :
    serve site 800 801 (carrier 21 "/v1/jobs/1/start") (Endpoint.starts 1) start.store ≡ start.store
unfolding may_use at_hand authenticate resolve_organization resolve_provider resolve distinct
    header_value build_auth_context is_staff_role is_provider_role find_user_by_subject
    find_active_assignment
serve_refuses_example =
    serve_refuses site 800 801 (carrier 21 "/v1/jobs/1/start") (Endpoint.starts 1) start.store refl
