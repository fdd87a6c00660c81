-- ===== src/Eligibility/Tests.antt =====
-- A carrier with a small and a large van, judged by apps/api/src/lib/eligibility.ts for a bulky return.
use rescue.Eligibility.{document_problems, problem_with, rank_providers, reasons_against}
use rescue.Eligibility.Ranking.{IsRanking, rank_providers-IsRanking}
use rescue.Prelude.{map}
use rescue.Contracts.Job.{VehicleClass}
use rescue.Contracts.Provider.{DocumentStatus, DocumentType, ProviderStatus}
use rescue.Eligibility.{
  EligibilityDemand, EligibilityDocument, EligibilityProvider, EligibilityVehicle,
  evaluate_provider_eligibility, select_vehicle,
}
use rescue.Eligibility.Gate.{IsAdmitted, eligible_iff}
use rescue.Eligibility.Vehicle.{Selects, select_vehicle-Selects}
use rescue.Prelude.{List, [], refl, some, true, ℕ, ◌↔◌, ◌∷◌, ◌≡◌}
use rescue.Contracts.Job.{JobType}
use rescue.Prelude.{arith}

abbrev van : ℕ → VehicleClass → ℕ → EligibilityVehicle
van id size payload_kg = record {
  id = id;
  vehicle_class = size;
  payload_kg = payload_kg;
  volume_cm3 = 9_000_000;
  active = true;
}

abbrev two_vans : List EligibilityVehicle
two_vans = van 31 VehicleClass.large_van 1_200 ∷ van 32 VehicleClass.small_van 600 ∷ []

abbrev paper : DocumentType → EligibilityDocument
paper t = record { type = t; status = DocumentStatus.verified; expires_at = some 5_000 }

abbrev carrier : EligibilityProvider
carrier = record {
  id = 21;
  status = ProviderStatus.active;
  accepting_work = true;
  road_distance_km = some 12;
  base_postal_code = "10115";
  service_radius_km = 50;
  service_types = JobType.bulky_return ∷ [];
  vehicles = two_vans;
  documents = paper DocumentType.liability_insurance ∷ paper DocumentType.trade_licence ∷ [];
}

abbrev sofa : EligibilityDemand
sofa = record {
  job_type = JobType.bulky_return;
  pickup_postal_code = "10117";
  required_vehicle_class = VehicleClass.small_van;
  total_weight_kg = 60;
  total_volume_cm3 = 2_000_000;
}

eligible_iff_example :
    ((evaluate_provider_eligibility carrier sofa 1_000).eligible ≡ true)
    ↔ IsAdmitted carrier sofa 1_000
eligible_iff_example = eligible_iff carrier sofa 1_000

sofa-IsAdmitted : IsAdmitted carrier sofa 1_000
sofa-IsAdmitted = record {
  active = refl;
  accepting = refl;
  permitted = refl;
  within = omega arith;
  documented = (refl, (refl, tt));
  equipped = refl;
}

select_vehicle-Selects_example : Selects sofa two_vans (select_vehicle two_vans sofa)
select_vehicle-Selects_example = select_vehicle-Selects two_vans sofa

-- Another carrier, farther away, and one that is suspended.
abbrev carriers : List EligibilityProvider
carriers =
    record carrier { id = 23; road_distance_km = some 40 }
    ∷ carrier
    ∷ record carrier { id = 22; status = ProviderStatus.suspended }
    ∷ []

rank_providers-IsRanking_example : IsRanking carriers (rank_providers carriers sofa 1_000)
rank_providers-IsRanking_example = rank_providers-IsRanking carriers sofa 1_000

ranking_at_work : map (λ r. r.provider_id) (rank_providers carriers sofa 1_000) ≡ 21 ∷ 23 ∷ 22 ∷ []
unfolding rank_providers evaluate_provider_eligibility reasons_against document_problems
    problem_with select_vehicle
ranking_at_work = refl
