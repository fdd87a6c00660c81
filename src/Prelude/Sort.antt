-- ===== src/Prelude/Sort.antt =====
-- `Array.prototype.sort`: stable insertion by the test that the comparator puts its first argument
-- before its second.
use mathlib.Core.List.{Perm, perm_middle}
use mathlib.Core.List.Perm
use rescue.Prelude.{
  select, not, ◌++◌, subst, All, Bool, Bool-cases, List, [], any, arith, false, if◌then◌else◌, inl,
  inr, refl, true, ◌||◌, ◌∷◌, ◌≡◌,
}

module _ {ℓ} {A : Type ℓ} where
  unfoldable pub insert : (A → A → Bool) → A → List A → List A
  insert before a [] = a ∷ []
  insert before a (x ∷ xs) = if before a x then a ∷ x ∷ xs else x ∷ insert before a xs

  unfoldable pub sort : (A → A → Bool) → List A → List A
  unfolding insert
  sort before [] = []
  sort before (x ∷ xs) = insert before x (sort before xs)

  any-insert :
      (p : A → Bool) (before : A → A → Bool) (a : A) (xs : List A)
      → any p (insert before a xs) ≡ (p a || any p xs)
  unfolding insert
  any-insert p before a [] = refl
  any-insert p before a (x ∷ xs) = ground (arith, any-insert p before a xs)

  pub any-sort :
      (p : A → Bool) (before : A → A → Bool) (xs : List A) → any p (sort before xs) ≡ any p xs
  unfolding sort
  any-sort p before [] = refl
  any-sort p before (x ∷ xs) =
      ground (arith, any-insert p before x (sort before xs), any-sort p before xs)

  insert-perm : (before : A → A → Bool) (a : A) (xs : List A) → Perm (insert before a xs) (a ∷ xs)
  unfolding insert
  insert-perm before a [] = Perm.refl _
  insert-perm before a (x ∷ xs) = elim (Bool-cases (before a x)) [
    | inl e ↦ rw e (Perm.refl _)
    | inr e ↦ rw e (Perm.trans (Perm.cons x (insert-perm before a xs)) (Perm.swap a x xs))
  ]

  -- Sorting neither loses nor adds an element.
  pub sort-perm : (before : A → A → Bool) (xs : List A) → Perm (sort before xs) xs
  unfolding sort
  sort-perm before [] = Perm.refl _
  sort-perm before (x ∷ xs) =
      Perm.trans (insert-perm before x (sort before xs)) (Perm.cons x (sort-perm before xs))

module _ {ℓ κ} {A : Type ℓ} (P : A → Type κ) (before : A → A → Bool) where
  insert-head : (a x : A) (xs : List A) → before a x ≡ true → insert before a (x ∷ xs) ≡ a ∷ x ∷ xs
  unfolding insert
  insert-head a x xs e = rw e refl

  insert-tail :
      (a x : A) (xs : List A)
      → before a x ≡ false
      → insert before a (x ∷ xs) ≡ x ∷ insert before a xs
  unfolding insert
  insert-tail a x xs e = rw e refl

  pub All-insert : (a : A) (xs : List A) → P a → All P xs → All P (insert before a xs)
  unfolding insert
  All-insert a [] p h = (p, tt)
  All-insert a (x ∷ xs) p h = elim (Bool-cases (before a x)) [
    | inl e ↦ rw e (p, h)
    | inr e ↦ rw e (h.0, All-insert a xs p h.1)
  ]

  pub All-sort : (xs : List A) → All P xs → All P (sort before xs)
  unfolding sort
  All-sort [] h = tt
  All-sort (x ∷ xs) h = All-insert x (sort before xs) h.0 (All-sort xs h.1)

  All-of_insert : (a : A) (xs : List A) → All P (insert before a xs) → All P (a ∷ xs)
  unfolding insert
  All-of_insert a [] h = h
  All-of_insert a (x ∷ xs) h = elim (Bool-cases (before a x)) [
    | inl e ↦ subst (λ l. All P l) (insert-head a x xs e) h
    | inr e ↦
        let k = subst (λ l. All P l) (insert-tail a x xs e) h in
        let r = All-of_insert a xs k.1 in (r.0, (k.0, r.1))
  ]

  pub All-of_sort : (xs : List A) → All P (sort before xs) → All P xs
  unfolding sort
  All-of_sort [] h = tt
  All-of_sort (x ∷ xs) h = let k = All-of_insert x (sort before xs) h in (k.0, All-of_sort xs k.1)

-- Each element is related to all that follow it.
abbrev pub IsSorted {ℓ κ} : {A : Type ℓ} → (A → A → Type κ) → List A → Type κ
IsSorted W [] = Unit
IsSorted W (x ∷ xs) = All (W x) xs × IsSorted W xs

-- A test that decides a transitive relation: it puts its first argument first only when they are
-- related, and second only when they are related the other way.
pub record Orders {ℓ κ} {A : Type ℓ} (W : A → A → Type κ) (before : A → A → Bool)
    : Type (ℓ ⊔ κ) where
  pub first : (a b : A) → before a b ≡ true → W a b
  pub second : (a b : A) → before a b ≡ false → W b a
  pub trans : (a b c : A) → W a b → W b c → W a c

module _ {ℓ κ} {A : Type ℓ} (W : A → A → Type κ) (before : A → A → Bool) (o : Orders W before) where
  weaken : (a x : A) (xs : List A) → W a x → All (W x) xs → All (W a) xs
  weaken a x [] h all = tt
  weaken a x (y ∷ ys) h all = (o.trans a x y h all.0, weaken a x ys h all.1)

  insert-IsSorted : (a : A) (xs : List A) → IsSorted W xs → IsSorted W (insert before a xs)
  unfolding insert
  insert-IsSorted a [] h = (tt, tt)
  insert-IsSorted a (x ∷ xs) h = elim (Bool-cases (before a x)) [
    | inl e ↦ rw e ((o.first a x e, weaken a x xs (o.first a x e) h.0), h)
    | inr e ↦ rw e (All-insert (W x) before a xs (o.second a x e) h.0, insert-IsSorted a xs h.1)
  ]

  pub sort-IsSorted : (xs : List A) → IsSorted W (sort before xs)
  unfolding sort
  sort-IsSorted [] = tt
  sort-IsSorted (x ∷ xs) = insert-IsSorted x (sort before xs) (sort-IsSorted xs)

module _ {ℓ} {A : Type ℓ} where
  pub partition-perm :
      (p : A → Bool) (xs : List A) → Perm (select p xs ++ select (λ x. not (p x)) xs) xs
  partition-perm p [] = Perm.refl _
  partition-perm p (x ∷ xs) = elim (Bool-cases (p x)) [
    | inl e ↦ rw e (Perm.cons x (partition-perm p xs))
    | inr e ↦ rw e (Perm.trans (perm_middle (select p xs) _) (Perm.cons x (partition-perm p xs)))
  ]
