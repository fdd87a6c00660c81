-- ===== src/Eligibility/Vehicle.antt =====
-- What `selectVehicle` of apps/api/src/lib/eligibility.ts returns.
use mathlib.Core.List.{Mem, mem-cons_of_mem, mem-cons_self}
use rescue.Eligibility.{
  EligibilityDemand, EligibilityVehicle, first, is_suitable, select_vehicle, smaller_vehicle,
}
use rescue.Prelude.{
  ap, select-any, ◌∙◌, any-and_true, sym, inr, inl, All, All-of_select, Bool-cases, List, Option,
  [], any, arith, false, none, refl, select, some, true, ◌∷◌, ◌≡◌,
}
use rescue.Prelude.Sort.{All-of_sort, All-sort, IsSorted, Orders, any-sort, sort, sort-IsSorted}

NotSmaller : EligibilityVehicle → EligibilityVehicle → Type 0
NotSmaller v w = smaller_vehicle w v ≡ false

by_size : Orders NotSmaller smaller_vehicle
unfolding NotSmaller
by_size = record {
  first = λ a b h. ground arith;
  second = λ a b h. h;
  trans = λ a b c h k. ground arith;
}

pub record IsSelected (demand : EligibilityDemand) (vehicles : List EligibilityVehicle)
    (v : EligibilityVehicle) : Type 0 where
  pub listed : Mem v vehicles
  pub suitable : is_suitable demand v ≡ true
  pub least : All (λ w. is_suitable demand w ≡ true → smaller_vehicle w v ≡ false) vehicles

module _ {ℓ} {A : Type ℓ} where
  Mem_within : (ys xs : List A) → ((a : A) → Mem a xs → Mem a ys) → All (λ a. Mem a ys) xs
  Mem_within ys [] f = tt
  Mem_within ys (x ∷ xs) f =
      (f x mem-cons_self, Mem_within ys xs (λ a m. f a (mem-cons_of_mem x m)))

none_suitable :
    (demand : EligibilityDemand) (vehicles : List EligibilityVehicle)
    → any (is_suitable demand) vehicles ≡ false
    → All (λ v. is_suitable demand v ≡ false) vehicles
none_suitable demand [] h = tt
none_suitable demand (v ∷ vs) h = (ground arith, none_suitable demand vs (ground arith))

abbrev pub Selects :
    EligibilityDemand → List EligibilityVehicle → Option EligibilityVehicle → Type 0
Selects demand vehicles none = All (λ v. is_suitable demand v ≡ false) vehicles
Selects demand vehicles (some v) = IsSelected demand vehicles v

Selects-head :
    (demand : EligibilityDemand) (vehicles sorted : List EligibilityVehicle)
    → (sorted ≡ [] → any (is_suitable demand) vehicles ≡ false)
    → All (λ v. Mem v vehicles × (is_suitable demand v ≡ true)) sorted
    → IsSorted NotSmaller sorted
    → ((v : EligibilityVehicle)
        → All (NotSmaller v) sorted
        → All (NotSmaller v) (select (is_suitable demand) vehicles))
    → Selects demand vehicles (first sorted)
unfolding NotSmaller
Selects-head demand vehicles [] empty each sorted back = none_suitable demand vehicles (empty refl)
Selects-head demand vehicles (v ∷ vs) empty each sorted back = record {
  listed = each.0.0;
  suitable = each.0.1;
  least =
      All-of_select (NotSmaller v) (is_suitable demand) vehicles (back v (ground arith, sorted.0));
}

each_suitable :
    (demand : EligibilityDemand) (all vehicles : List EligibilityVehicle)
    → All (λ v. Mem v all) vehicles
    → All (λ v. Mem v all × (is_suitable demand v ≡ true)) (select (is_suitable demand) vehicles)
each_suitable demand all [] h = tt
each_suitable demand all (v ∷ vs) h = elim (Bool-cases (is_suitable demand v)) [
  | inl e ↦ rw e ((h.0, e), each_suitable demand all vs h.1)
  | inr e ↦ rw e (each_suitable demand all vs h.1)
]

sort_nonempty :
    (demand : EligibilityDemand) (vehicles sorted : List EligibilityVehicle)
    → sorted ≡ sort smaller_vehicle (select (is_suitable demand) vehicles)
    → sorted ≡ []
    → any (is_suitable demand) vehicles ≡ false
sort_nonempty demand vehicles sorted e h =
    sym (any-and_true (is_suitable demand) vehicles)
    ∙ sym (select-any (λ _. true) (is_suitable demand) vehicles)
    ∙ sym (any-sort (λ _. true) smaller_vehicle _)
    ∙ ap (any (λ _. true)) (sym e ∙ h)

-- When no vehicle is suitable, `select_vehicle` returns none. Otherwise it returns a vehicle of the
-- list that is suitable, and no suitable vehicle of the list comes before it by class, then
-- payload, then id.
pub select_vehicle-Selects :
    (vehicles : List EligibilityVehicle) (demand : EligibilityDemand)
    → Selects demand vehicles (select_vehicle vehicles demand)
unfolding select_vehicle
select_vehicle-Selects vehicles demand =
    let fit = select (is_suitable demand) vehicles in
    Selects-head demand vehicles (sort smaller_vehicle fit) (sort_nonempty demand vehicles _ refl)
      (All-sort (λ v. Mem v vehicles × (is_suitable demand v ≡ true)) smaller_vehicle fit
        (each_suitable demand vehicles vehicles (Mem_within vehicles vehicles (λ a m. m))))
      (sort-IsSorted NotSmaller smaller_vehicle by_size fit)
      (λ v. All-of_sort (NotSmaller v) smaller_vehicle fit)
