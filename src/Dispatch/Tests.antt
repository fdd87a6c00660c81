-- ===== src/Dispatch/Tests.antt =====
-- A quoted job whose one offer has expired, and a carrier that has not been asked: what the sweep of
-- apps/api/src/lib/dispatch.ts does with them.

use rescue.Contracts.Auth.{UserRole}
use rescue.Contracts.Job.{CreateJobInput, JobStatus, JobType, Urgency, VehicleClass}
use rescue.Contracts.Provider.{DocumentStatus, DocumentType, ProviderStatus}
use rescue.Dispatch.{
  Outcome, cover, cover_unassigned, default_sweep_config, load_eligibility_providers, next_round,
  rank_for_job, reoffer, run_sweep,
}
use rescue.Dispatch.Rounds.{IsRound, cover_reoffers}
use rescue.Dispatch.Sweep.{IsUncovered, run_sweep-SameWork}
use rescue.Eligibility.{
  demand_from_items, distance_for, document_problems, estimate_distance_km, evaluate_all,
  evaluate_provider_eligibility, number_from, problem_with, rank_providers, reasons_against,
  select_vehicle, shared, total,
}
use rescue.Prelude.{[], none, refl, some, true, ℕ, ◌+◌, ◌∷◌, ◌≡◌}
use rescue.Prelude.Sort.{insert, sort}
use rescue.Store.Action.{ok}
use rescue.Store.Frame.{SameWork}
use rescue.Store.Jobs.{find_job}
use rescue.Store.Offers.{create_offers, find_active_assignment, list_offers_for_job}
use rescue.Store.Providers.{list_documents, list_providers, list_vehicles}
use rescue.Store.Quotes.{list_quotes_for_job}
use rescue.Store.State.{to_job, visible_job}
use rescue.Store.Types.{
  Actor, JobRecord, MemoryStore, StoredDocument, StoredOffer, StoredProvider, StoredQuote,
  StoredVehicle,
}
use rescue.Contracts.Commerce.{OfferStatus, QuoteStatus}

abbrev system : Actor
system = record { user_id = none; role = UserRole.admin; correlation_id = none }

abbrev pickup : CreateJobInput
pickup = record {
  type = JobType.bulky_return;
  urgency = Urgency.same_day;
  pickup = record { line1 = "Lindenweg 4"; postal_code = "10115"; city = "Berlin" };
  destination = none;
  items =
      record { name = "chair"; quantity = 1; estimated_weight_g = some 6_000; dimensions_cm = none }
      ∷ [];
  stairs = 0;
  lift_available = true;
  customer_reference = none;
  notes = none;
}

abbrev pub waiting_job : JobRecord
waiting_job = record {
  id = 1;
  organization_id = 7;
  status = JobStatus.quoted;
  input = pickup;
  approved = none;
  created_at = 10;
  updated_at = 20;
}

abbrev agreed_quote : StoredQuote
agreed_quote = record {
  id = 4;
  job_id = 1;
  organization_id = 7;
  status = QuoteStatus.approved;
  net_cents = 12_000;
  vat_cents = 2_280;
  gross_cents = 14_280;
  vat_rate_basis_points = 1_900;
  valid_until = 9_000;
  approved_at = some 40;
  approved_by_user_id = some 5;
  created_at = 30;
}

abbrev expired_offer : StoredOffer
expired_offer = record {
  id = 2;
  job_id = 1;
  provider_id = 21;
  status = OfferStatus.expired;
  payout_net_cents = 9_000;
  expires_at = 1_000;
  responded_at = none;
  decline_reason = none;
  created_at = 50;
}

abbrev fresh_carrier : StoredProvider
fresh_carrier = record {
  id = 22;
  legal_name = "Kurier GmbH";
  status = ProviderStatus.active;
  accepting_work = true;
  availability_note = none;
  base_postal_code = "10117";
  service_radius_km = 50;
  service_types = JobType.bulky_return ∷ [];
  contact_email = "kurier@example.de";
  created_at = 5;
  updated_at = 5;
}

abbrev van : StoredVehicle
van = record {
  id = 31;
  provider_id = 22;
  registration_hash = "a1";
  vehicle_class = VehicleClass.small_van;
  payload_kg = 600;
  volume_cm3 = 4_000_000;
  active = true;
  created_at = 6;
}

abbrev paper : ℕ → DocumentType → StoredDocument
paper id t = record {
  id = id;
  provider_id = 22;
  type = t;
  status = DocumentStatus.verified;
  storage_key = "docs";
  expires_at = none;
  reviewed_at = some 8;
  created_at = 7;
}

abbrev pub uncovered : MemoryStore
uncovered = record {
  users = [];
  jobs = (1, waiting_job) ∷ [];
  providers = (22, fresh_carrier) ∷ [];
  vehicles = (31, van) ∷ [];
  documents =
      (41, paper 41 DocumentType.liability_insurance)
      ∷ (42, paper 42 DocumentType.trade_licence)
      ∷ [];
  quotes = (4, agreed_quote) ∷ [];
  offers = (2, expired_offer) ∷ [];
  assignments = [];
  evidence = [];
  idempotency = [];
  outbox = [];
  outbox_keys = [];
  ledger = [];
  suggestions = [];
  events = [];
  audit = [];
  new_ids = λ n. n + 100;
  drawn = 0;
}

abbrev asked_next : MemoryStore
asked_next = (create_offers 2_000 1 (22 ∷ []) 9_000 1_202_000 system uncovered).1

one_round :
    cover default_sweep_config none 2_000 1 system uncovered ≡ (ok Outcome.reoffered, asked_next)
unfolding cover cover_unassigned reoffer next_round rank_for_job load_eligibility_providers find_job
    visible_job to_job find_active_assignment list_offers_for_job list_quotes_for_job rank_providers
    demand_from_items list_providers list_vehicles list_documents evaluate_all
    evaluate_provider_eligibility reasons_against document_problems problem_with select_vehicle sort
    insert number_from estimate_distance_km shared distance_for total
one_round = refl

cover_reoffers_example :
    IsUncovered 1 uncovered × IsRound default_sweep_config none 2_000 1 system uncovered asked_next
cover_reoffers_example =
    cover_reoffers default_sweep_config none 2_000 1 system uncovered asked_next one_round

run_sweep-SameWork_example :
    SameWork uncovered (run_sweep default_sweep_config none (λ n. n + 2_000) system uncovered).1
run_sweep-SameWork_example =
    run_sweep-SameWork default_sweep_config none (λ n. n + 2_000) system uncovered
