-- ===== src/Api/Memberships.antt =====
-- The ids that apps/api/src/plugins/auth.ts resolves are ids of the caller's memberships.

use rescue.Api.Auth.{resolve_organization, resolve_provider}
use rescue.Contracts.Auth.{Principal}
use rescue.Prelude.{sym, ◌∙◌}
use rescue.Prelude.{any-append, ◌++◌}
use rescue.Api.Auth.{held_ids, resolve, same_id}
use rescue.Contracts.Auth.{Membership}
use rescue.Contracts.Errors.{AppError}
use rescue.Prelude.{
  Bool, Bool-cases, List, Option, [], any, arith, inl, inr, map, none, refl, select, some, true, ℕ,
  ◌==◌, ◌||◌, ◌∷◌, ◌≡◌,
}
use rescue.Store.Action.{ok}
use rescue.Store.Offers.{distinct}

abbrev pub is_member_of : ℕ → Membership → Bool
is_member_of id m = same_id m.organization_id (some id)

abbrev pub is_with : ℕ → Membership → Bool
is_with id m = same_id m.provider_id (some id)

resolve_held :
    (no_member ambiguous : AppError) (ids : List ℕ) (requested : Option ℕ) (id : ℕ)
    → resolve no_member ambiguous ids requested ≡ ok (some id)
    → any (λ n. n == id) ids ≡ true
unfolding resolve
resolve_held no_member ambiguous ids (some n) id h = ground arith
resolve_held no_member ambiguous [] none id h = ground arith
resolve_held no_member ambiguous (n ∷ []) none id h = ground arith
resolve_held no_member ambiguous (n ∷ m ∷ rest) none id h = ground arith

any-distinct :
    (p : ℕ → Bool) (seen xs : List ℕ)
    → any p (distinct seen xs) ≡ true
    → (any p seen || any p xs) ≡ true
unfolding distinct
any-distinct p seen [] h = ground (arith, h)
any-distinct p seen (x ∷ xs) h = elim (Bool-cases (any (λ y. y == x) seen)) [
  | inl e ↦ ground (arith, e, any-distinct p seen xs)
  | inr e ↦ ground (arith, e, any-distinct p (seen ++ x ∷ []) xs, any-append p seen (x ∷ []))
]

any-held_ids :
    (f : Membership → Option ℕ) (id : ℕ) (ms : List Membership)
    → any (λ n. n == id) (held_ids f ms) ≡ any (λ m. same_id (f m) (some id)) ms
any-held_ids f id [] = refl
any-held_ids f id (m ∷ ms) = ground (arith, any-held_ids f id ms)

pub any-select {ℓ} :
    {A : Type ℓ} (p q : A → Bool) (xs : List A) → any p (select q xs) ≡ true → any p xs ≡ true
any-select p q [] h = h
any-select p q (x ∷ xs) h = ground (arith, h, any-select p q xs)

pub any-map {ℓ κ} :
    {A : Type ℓ} {B : Type κ} (p : B → Bool) (f : A → B) (xs : List A)
    → any p (map f xs) ≡ any (λ x. p (f x)) xs
any-map p f [] = refl
any-map p f (x ∷ xs) = rw (any-map p f xs)

pub resolve_organization-any :
    (principal : Principal) (requested : Option ℕ) (id : ℕ)
    → resolve_organization principal requested ≡ ok (some id)
    → any (is_member_of id) principal.memberships ≡ true
unfolding resolve_organization
resolve_organization-any principal requested id h =
    let ms = principal.memberships in
    let held =
      any-distinct _ [] (held_ids (λ m. m.organization_id) ms)
        (resolve_held _ _ _ requested id h) in
    sym (any-held_ids (λ m. m.organization_id) id ms) ∙ held

pub resolve_provider-any :
    (principal : Principal) (requested : Option ℕ) (id : ℕ)
    → resolve_provider principal requested ≡ ok (some id)
    → any (is_with id) principal.memberships ≡ true
unfolding resolve_provider
resolve_provider-any principal requested id h =
    let ms = principal.memberships in
    let held =
      any-distinct _ [] (held_ids (λ m. m.provider_id) ms) (resolve_held _ _ _ requested id h) in
    sym (any-held_ids (λ m. m.provider_id) id ms) ∙ held
