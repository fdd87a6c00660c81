-- ===== src/Prelude/Forall.antt =====
-- Predicates on every element of a list, by recursion; list prefixes for logs that only grow.
use Prim.Native.Nat.{ℕ, zero, suc}
use mathlib.Core.Path.{subst, ◌≡◌, refl, sym}
use mathlib.Core.Bool.{false, Bool, true}
use mathlib.Core.List.{List, [], ◌∷◌, ◌++◌, append-nil, append_assoc}
use mathlib.Core.Option.{some}
use native.Mathlib.Omega.{arith}
use mathlib.Core.Logic.{inl, inr}
use rescue.Prelude.Tests.{Bool-cases}
use rescue.Prelude.Lists.{select, find, take}

abbrev pub All {ℓ κ} : {A : Type ℓ} → (A → Type κ) → List A → Type κ
All P [] = Unit
All P (x ∷ xs) = P x × All P xs

module _ {ℓ} {A : Type ℓ} where
  select_yes :
      (p : A → Bool) (x : A) (xs : List A) → p x ≡ true → select p (x ∷ xs) ≡ x ∷ select p xs
  select_yes p x xs e = rw e refl

  select_no : (p : A → Bool) (x : A) (xs : List A) → p x ≡ false → select p (x ∷ xs) ≡ select p xs
  select_no p x xs e = rw e refl

module _ {ℓ κ} {A : Type ℓ} (P : A → Type κ) where
  pub All-append : (xs ys : List A) → All P xs → All P ys → All P (xs ++ ys)
  All-append [] ys hx hy = hy
  All-append (x ∷ xs) ys hx hy = (hx.0, All-append xs ys hx.1 hy)

  pub All-select : (p : A → Bool) (xs : List A) → All P xs → All P (select p xs)
  All-select p [] h = tt
  All-select p (x ∷ xs) h = ground (arith, All-select p xs h.1)

  pub All-of_select :
      (p : A → Bool) (xs : List A) → All P (select p xs) → All (λ x. p x ≡ true → P x) xs
  All-of_select p [] h = tt
  All-of_select p (x ∷ xs) h = elim (Bool-cases (p x)) [
    | inl e ↦
        let k = subst (λ l. All P l) (select_yes p x xs e) h in (λ _. k.0, All-of_select p xs k.1)
    | inr e ↦ (λ y. ground arith, All-of_select p xs (subst (λ l. All P l) (select_no p x xs e) h))
  ]

  pub All-take : (n : ℕ) (xs : List A) → All P xs → All P (take n xs)
  All-take zero xs h = tt
  All-take (suc n) [] h = tt
  All-take (suc n) (x ∷ xs) h = (h.0, All-take n xs h.1)

  pub find-All : (p : A → Bool) (xs : List A) (a : A) → All P xs → find p xs ≡ some a → P a
  find-All p [] a h e = absurd (cc)
  find-All p (x ∷ xs) a h e = ground (arith, find-All p xs a h.1)

-- What passes a filter passes its test.
pub select_passes {ℓ} :
    {A : Type ℓ} (p : A → Bool) (xs : List A) → All (λ x. p x ≡ true) (select p xs)
select_passes p [] = tt
select_passes p (x ∷ xs) = ground (arith, select_passes p xs)

-- `ys` is `xs` with entries added at its end.
abbrev pub Extends {ℓ} : {A : Type ℓ} → List A → List A → Type ℓ
Extends {A} xs ys = (more : List A) × (ys ≡ xs ++ more)

module _ {ℓ} {A : Type ℓ} where
  pub Extends-refl : (xs : List A) → Extends xs xs
  Extends-refl xs = ([], sym (append-nil xs))

  pub Extends-trans : (xs ys zs : List A) → Extends xs ys → Extends ys zs → Extends xs zs
  Extends-trans xs ys zs (a, p) (b, q) = (a ++ b, rw (q, p) (append_assoc xs a b))

  pub Extends-push : (xs : List A) (x : A) → Extends xs (xs ++ x ∷ [])
  Extends-push xs x = (x ∷ [], refl)

pub All-map {ℓ κ μ} :
    {A : Type ℓ} {P : A → Type κ} {Q : A → Type μ}
    → ((x : A) → P x → Q x)
    → (xs : List A) → All P xs
    → All Q xs
All-map f [] h = tt
All-map f (x ∷ xs) h = (f x h.0, All-map f xs h.1)

pub All-both {ℓ} :
    {A : Type ℓ} (P Q : A → Type 0) (xs : List A) → All P xs → All Q xs → All (λ x. P x × Q x) xs
All-both P Q [] h k = tt
All-both P Q (x ∷ xs) h k = ((h.0, k.0), All-both P Q xs h.1 k.1)
