-- ===== src/Eligibility/Ranking.antt =====
-- The order in which `rankProviders` of apps/api/src/lib/eligibility.ts lists the carriers.
use rescue.Prelude.{All-both, map-append}
use rescue.Prelude.Sort.{partition-perm}
use rescue.Eligibility.{rank_providers}
use rescue.Prelude.{All-map, All-select, ltb, select_passes, subst, sym, ◌∙◌}
use rescue.Prelude.Sort.{All-sort, sort, sort-IsSorted, sort-perm}
use rescue.Contracts.Provider.{EligibilityResult}
use rescue.Eligibility.{
  EligibilityDemand, EligibilityProvider, Evaluated, evaluate_all, evaluate_provider_eligibility,
  number_from, ranked_before, results_of,
}
use rescue.Prelude.{
  All, Bool, List, Option, [], ap, false, map, none, not, refl, select, some, true, ◌++◌, ◌+◌, ◌∷◌,
  ◌≡◌, ◌≤◌,
}
use rescue.Prelude.Sort.{IsSorted, Orders}
use mathlib.Core.List.{Perm}
use mathlib.Core.List.Perm
use rescue.Prelude.{ℕ, arith}

abbrev pub IsNearer : EligibilityResult → EligibilityResult → Type 0
IsNearer a b = a.distance_km ≤ b.distance_km

-- The ranks count on from an index.
abbrev pub IsNumbered : ℕ → List EligibilityResult → Type 0
IsNumbered index [] = Unit
IsNumbered index (r ∷ rest) = (r.rank ≡ some (index + 1)) × IsNumbered (index + 1) rest

-- The first part of a ranking holds the eligible carriers, the nearest first, with ranks from 1 on;
-- the other part the rest, with no rank. Every carrier is listed, as often as it was given.
pub record IsRanking (providers : List EligibilityProvider) (results : List EligibilityResult)
    : Type 0 where
  pub ranked : List EligibilityResult
  pub excluded : List EligibilityResult
  pub split : results ≡ ranked ++ excluded
  pub eligible : All (λ r. r.eligible ≡ true) ranked
  pub ineligible : All (λ r. (r.eligible ≡ false) × (r.rank ≡ none)) excluded
  pub numbered : IsNumbered 0 ranked
  pub nearest : IsSorted IsNearer ranked
  pub complete : Perm (map (λ r. r.provider_id) results) (map (λ p. p.id) providers)

abbrev is_eligible : Evaluated → Bool
is_eligible e = e.result.eligible

id_of : Evaluated → ℕ
id_of e = e.result.provider_id

map-number_from :
    (index : ℕ) (es : List Evaluated)
    → map (λ r. r.provider_id) (number_from index es) ≡ map id_of es
unfolding number_from id_of
map-number_from index [] = refl
map-number_from index (e ∷ es) = ap (λ l. id_of e ∷ l) (map-number_from (index + 1) es)

map-results_of : (es : List Evaluated) → map (λ r. r.provider_id) (results_of es) ≡ map id_of es
unfolding id_of
map-results_of [] = refl
map-results_of (e ∷ es) = ap (λ l. id_of e ∷ l) (map-results_of es)

map-evaluate_all :
    (ps : List EligibilityProvider) (demand : EligibilityDemand) (now : ℕ)
    → map id_of (evaluate_all ps demand now) ≡ map (λ p. p.id) ps
unfolding id_of evaluate_all evaluate_provider_eligibility
map-evaluate_all [] demand now = refl
map-evaluate_all (p ∷ ps) demand now = ap (λ l. p.id ∷ l) (map-evaluate_all ps demand now)

IsNumbered-number_from : (index : ℕ) (es : List Evaluated) → IsNumbered index (number_from index es)
unfolding number_from
IsNumbered-number_from index [] = tt
IsNumbered-number_from index (e ∷ es) = (refl, IsNumbered-number_from (index + 1) es)

All-number_from :
    (P : EligibilityResult → Type 0)
    → (f : (r : EligibilityResult) (k : Option ℕ) → P r → P (record r { rank = k }))
    → (index : ℕ) (es : List Evaluated) → All (λ e. P e.result) es
    → All P (number_from index es)
unfolding number_from
All-number_from P f index [] h = tt
All-number_from P f index (e ∷ es) h = (f e.result _ h.0, All-number_from P f (index + 1) es h.1)

IsSorted-number_from :
    (index : ℕ) (es : List Evaluated)
    → IsSorted (λ a b. IsNearer a.result b.result) es
    → IsSorted IsNearer (number_from index es)
unfolding number_from
IsSorted-number_from index [] h = tt
IsSorted-number_from index (e ∷ es) h = (
  All-number_from (IsNearer e.result) (λ r k n. n) (index + 1) es h.0,
  IsSorted-number_from (index + 1) es h.1,
)

by_distance :
    (demand : EligibilityDemand) → Orders (λ a b. IsNearer a.result b.result) (ranked_before demand)
by_distance demand = record {
  first = λ a b h. ground arith;
  second = λ a b h. ground arith;
  trans = λ a b c h k. ground arith;
}

All-results_of :
    (P : EligibilityResult → Type 0)
    → (es : List Evaluated) → All (λ e. P e.result) es
    → All P (results_of es)
All-results_of P [] h = tt
All-results_of P (e ∷ es) h = (h.0, All-results_of P es h.1)

unranked :
    (ps : List EligibilityProvider) (demand : EligibilityDemand) (now : ℕ)
    → All (λ e. e.result.rank ≡ none) (evaluate_all ps demand now)
unfolding evaluate_all evaluate_provider_eligibility
unranked [] demand now = tt
unranked (p ∷ ps) demand now = (refl, unranked ps demand now)

module _ (providers : List EligibilityProvider) (demand : EligibilityDemand) (now : ℕ) where
  evaluated : List Evaluated
  evaluated = evaluate_all providers demand now

  listed :
      (in_order : List Evaluated) (out : List EligibilityResult)
      → Perm in_order (select is_eligible evaluated)
      → Perm out (results_of (select (λ e. not (is_eligible e)) evaluated))
      → Perm (map (λ r. r.provider_id) (number_from 0 in_order ++ out)) (map (λ p. p.id) providers)
  unfolding evaluated
  listed in_order out h k =
      subst (λ l. Perm l (map (λ p. p.id) providers))
        (sym (
          map-append (λ r. r.provider_id) (number_from 0 in_order) out
          ∙ ap (λ l. l ++ map (λ r. r.provider_id) out) (map-number_from 0 in_order)))
        (Perm.trans (Perm.append (Perm.map id_of h) (Perm.map (λ r. r.provider_id) k)) (
          subst
            (λ l. Perm (map id_of (select is_eligible evaluated) ++ l) (map (λ p. p.id) providers))
            (sym (map-results_of (select (λ e. not (is_eligible e)) evaluated)))
            (subst (λ l. Perm l (map (λ p. p.id) providers)) (map-append id_of _ _)
              (subst
                (λ l.
                  Perm
                    (map id_of
                      (select is_eligible evaluated ++ select (λ e. not (is_eligible e)) evaluated))
                    l)
                (map-evaluate_all providers demand now)
                (Perm.map id_of (partition-perm is_eligible evaluated))))))

  -- `rank_providers` lists the eligible carriers first, the nearest first, with the ranks 1, 2 and so
  -- on, then the others, with no rank. It lists every carrier, as often as it was given.
  pub rank_providers-IsRanking : IsRanking providers (rank_providers providers demand now)
  unfolding rank_providers evaluated
  rank_providers-IsRanking =
      let in_order = sort (ranked_before demand) (select is_eligible evaluated) in
      let before : EligibilityResult → EligibilityResult → Bool =
        (λ a b. ltb a.provider_id b.provider_id) in
      let out = results_of (select (λ e. not (is_eligible e)) evaluated) in
      record {
        ranked = number_from 0 in_order;
        excluded = sort before out;
        split = refl;
        eligible =
            All-number_from (λ r. r.eligible ≡ true) (λ r k h. h) 0 in_order
              (All-sort (λ e. e.result.eligible ≡ true) (ranked_before demand) _
                (select_passes is_eligible evaluated));
        ineligible =
            All-sort (λ r. (r.eligible ≡ false) × (r.rank ≡ none)) before out
              (All-results_of (λ r. (r.eligible ≡ false) × (r.rank ≡ none))
                (select (λ e. not (is_eligible e)) evaluated)
                (All-both (λ e. e.result.eligible ≡ false) (λ e. e.result.rank ≡ none) _
                  (All-map (λ e h. ground arith) _
                    (select_passes (λ e. not (is_eligible e)) evaluated))
                  (All-select (λ e. e.result.rank ≡ none) (λ e. not (is_eligible e)) evaluated
                    (unranked providers demand now))));
        numbered = IsNumbered-number_from 0 in_order;
        nearest = IsSorted-number_from 0 in_order (
            sort-IsSorted (λ a b. IsNearer a.result b.result) (ranked_before demand)
              (by_distance demand) (select is_eligible evaluated));
        complete =
            listed in_order (sort before out)
              (sort-perm (ranked_before demand) (select is_eligible evaluated))
              (sort-perm before out);
      }
