-- ===== src/Eligibility/Gate.antt =====
-- What the reasons of apps/api/src/lib/eligibility.ts amount to: the conditions under which a
-- provider may do a job.
use rescue.Contracts.Job.{job_type_coded}
use rescue.Contracts.Provider.{
  document_status_coded, document_type_coded, provider_status_coded, DocumentStatus, DocumentType,
  IneligibilityReason, ProviderStatus, required_document_types,
}
use rescue.Eligibility.{
  ltb, reasons_against, evaluate_provider_eligibility, smaller_vehicle, problems_with,
  select_vehicle, document_problems, EligibilityDemand, EligibilityDocument, EligibilityProvider,
  EligibilityVehicle, distance_of, first, is_suitable, is_unexpired, problem_with, reason_if,
}
use rescue.Prelude.Sort.{any-sort}
use rescue.Prelude.{
  select-any, any-and_true, ===_eq, ◌↔◌, ap, ◌∙◌, All, Bool, List, [], any, false, is_some, length,
  not, refl, select, true, ℕ, ◌&&◌, ◌++◌, ◌===◌, ◌==◌, ◌∷◌, ◌≡◌, ◌≤◌,
}
use rescue.Prelude.{arith}

-- A verified, unexpired document of a type.
abbrev pub is_valid_for : DocumentType → ℕ → EligibilityDocument → Bool
is_valid_for required now d =
    (d.type === required) && ((d.status === DocumentStatus.verified) && is_unexpired now d)

pub record IsAdmitted (p : EligibilityProvider) (demand : EligibilityDemand) (now : ℕ)
    : Type 0 where
  pub active : p.status ≡ ProviderStatus.active
  pub accepting : p.accepting_work ≡ true
  pub permitted : any (λ t. t === demand.job_type) p.service_types ≡ true
  pub within : distance_of p demand ≤ p.service_radius_km
  pub documented : All (λ t. any (is_valid_for t now) p.documents ≡ true) required_document_types
  pub equipped : any (is_suitable demand) p.vehicles ≡ true

module _ {ℓ} {A : Type ℓ} where
  select_empty : (p : A → Bool) (xs : List A) → (length (select p xs) == 0) ≡ not (any p xs)
  select_empty p [] = refl
  select_empty p (x ∷ xs) = ground (arith, select_empty p xs)

  any_of_any :
      (p q : A → Bool)
      → ((x : A) → q x ≡ true → p x ≡ true)
      → (xs : List A) → any q xs ≡ true
      → any p xs ≡ true
  any_of_any p q f [] h = h
  any_of_any p q f (x ∷ xs) h = ground (arith, f x, any_of_any p q f xs)

not-not : (b : Bool) → not (not b) ≡ b
not-not true = refl
not-not false = refl

append_empty :
    {A : Type 0} (xs ys : List A)
    → (length (xs ++ ys) == 0) ≡ ((length xs == 0) && (length ys == 0))
append_empty [] ys = refl
append_empty (x ∷ xs) ys = ground arith

reason_if_empty : (b : Bool) (r : IneligibilityReason) → (length (reason_if b r) == 0) ≡ not b
reason_if_empty true r = refl
reason_if_empty false r = refl

first_some : (vs : List EligibilityVehicle) → is_some (first vs) ≡ any (λ _. true) vs
first_some [] = refl
first_some (v ∷ vs) = refl

problem_with_lem :
    (documents : List EligibilityDocument) (now : ℕ) (required : DocumentType)
    → (length (problem_with documents now required) == 0)
      ≡ any (is_valid_for required now) documents
unfolding problem_with
problem_with_lem documents now required =
    let held = (λ (d : EligibilityDocument). d.type === required) in
    let verified = (λ (d : EligibilityDocument). d.status === DocumentStatus.verified) in
    let none_held = select_empty held documents in
    let none_verified =
      select_empty verified (select held documents) ∙ ap not (select-any verified held documents) in
    let none_valid =
      select_empty (is_unexpired now) (select verified (select held documents))
      ∙ ap not (
          select-any (is_unexpired now) verified (select held documents)
          ∙ select-any (λ d. verified d && is_unexpired now d) held documents) in
    let up =
      any_of_any (λ d. held d && verified d) (is_valid_for required now) (λ d h. ground arith)
        documents in
    let upper = any_of_any held (λ d. held d && verified d) (λ d h. ground arith) documents in
    ground arith

problems_with_lem :
    (documents : List EligibilityDocument) (now : ℕ) (required : List DocumentType)
    → ((length (problems_with documents now required) == 0) ≡ true)
      ↔ All (λ t. any (is_valid_for t now) documents ≡ true) required
unfolding problems_with
problems_with_lem documents now [] = (λ h. tt, λ h. refl)
problems_with_lem documents now (t ∷ rest) =
    let whole = append_empty (problem_with documents now t) (problems_with documents now rest) in
    let here = problem_with_lem documents now t in
    let there = problems_with_lem documents now rest in
    (
      λ h. (ground arith, there.0 (ground arith)),
      λ h. let e = there.1 h.1 in let o = h.0 in ground arith,
    )

select_vehicle_some :
    (vehicles : List EligibilityVehicle) (demand : EligibilityDemand)
    → is_some (select_vehicle vehicles demand) ≡ any (is_suitable demand) vehicles
unfolding select_vehicle
select_vehicle_some vehicles demand =
    first_some _
    ∙ any-sort (λ _. true) smaller_vehicle _
    ∙ select-any (λ _. true) (is_suitable demand) vehicles
    ∙ any-and_true (is_suitable demand) vehicles

reasons_against_lem :
    (p : EligibilityProvider) (demand : EligibilityDemand) (now : ℕ)
    → (length (reasons_against p demand now) == 0) ≡ (
        (p.status === ProviderStatus.active)
        && (p.accepting_work
            && (any (λ t. t === demand.job_type) p.service_types
                && (not (ltb p.service_radius_km (distance_of p demand))
                    && ((length (document_problems p.documents now) == 0)
                        && any (is_suitable demand) p.vehicles)))))
unfolding reasons_against
reasons_against_lem p demand now =
    simp (append_empty, reason_if_empty, select_vehicle_some, not-not) refl

-- A provider is judged eligible exactly when it is active, accepts work, offers the job's type, has
-- the pickup within its service radius, holds for every required type a verified document that has
-- not expired, and has an active vehicle that is large enough for the job in class, payload and
-- volume.
pub eligible_iff :
    (p : EligibilityProvider) (demand : EligibilityDemand) (now : ℕ)
    → ((evaluate_provider_eligibility p demand now).eligible ≡ true) ↔ IsAdmitted p demand now
unfolding evaluate_provider_eligibility document_problems
eligible_iff p demand now =
    let gate = reasons_against_lem p demand now in
    let documents = problems_with_lem p.documents now required_document_types in
    (
      λ h. record {
        active = ===_eq p.status ProviderStatus.active (ground arith);
        accepting = ground arith;
        permitted = ground arith;
        within = ground arith;
        documented = documents.0 (ground arith);
        equipped = ground arith;
      },
      λ h.
          let e = documents.1 h.documented in
          let a = h.active in
          let b = h.accepting in
          let c = h.permitted in
          let d = h.within in let f = h.equipped in gate ∙ (rw (a, b, c, e, f) ground arith),
    )
