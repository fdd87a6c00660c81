-- ===== src/Prelude/Apart.antt =====
-- Lists whose elements have different ids, such as the rows of a Map that stand under their ids.
use rescue.Prelude.{
  All, All-select, All-take, Bool, Bool-cases, List, [], false, inl, inr, map, none, select, some,
  suc, take, zero, ◌==◌, ◌∷◌, ◌≡◌,
}
use rescue.Prelude.Keyed.{Keyed}
use rescue.Prelude.Sort.{All-insert, All-sort, IsSorted, insert, sort}
use rescue.Prelude.Table.{Table, get, update, values}
use rescue.Prelude.{ℕ, arith}

module _ {ℓ} {A : Type ℓ} (id : A → ℕ) where
  abbrev pub IsOther : A → A → Type 0
  IsOther x y = (id x == id y) ≡ false

  abbrev pub IsApart : List A → Type 0
  IsApart xs = IsSorted IsOther xs

  pub select-IsApart : (p : A → Bool) (xs : List A) → IsApart xs → IsApart (select p xs)
  select-IsApart p [] h = tt
  select-IsApart p (x ∷ xs) h = elim (Bool-cases (p x)) [
    | inl e ↦ rw e (All-select (IsOther x) p xs h.0, select-IsApart p xs h.1)
    | inr e ↦ rw e (select-IsApart p xs h.1)
  ]

  pub take-IsApart : (n : ℕ) (xs : List A) → IsApart xs → IsApart (take n xs)
  take-IsApart zero xs h = tt
  take-IsApart (suc n) [] h = tt
  take-IsApart (suc n) (x ∷ xs) h = (All-take (IsOther x) n xs h.0, take-IsApart n xs h.1)

  insert-IsApart :
      (before : A → A → Bool) (a : A) (xs : List A)
      → All (IsOther a) xs
      → IsApart xs
      → IsApart (insert before a xs)
  unfolding insert
  insert-IsApart before a [] h k = (tt, tt)
  insert-IsApart before a (x ∷ xs) h k = elim (Bool-cases (before a x)) [
    | inl e ↦ rw e (h, k)
    | inr e ↦ rw e (
      All-insert (IsOther x) before a xs (ground (arith, h.0)) k.0,
      insert-IsApart before a xs h.1 k.1,
    )
  ]

  pub sort-IsApart : (before : A → A → Bool) (xs : List A) → IsApart xs → IsApart (sort before xs)
  unfolding sort
  sort-IsApart before [] h = tt
  sort-IsApart before (x ∷ xs) h =
      insert-IsApart before x (sort before xs) (All-sort (IsOther x) before xs h.0)
        (sort-IsApart before xs h.1)

  map-All :
      (f : A → A)
      → ((x : A) → id (f x) ≡ id x)
      → (a : A) (xs : List A) → All (IsOther a) xs
      → All (IsOther (f a)) (map f xs)
  map-All f same a [] h = tt
  map-All f same a (x ∷ xs) h = (ground (arith, same a, same x, h.0), map-All f same a xs h.1)

  pub map-IsApart :
      (f : A → A) → ((x : A) → id (f x) ≡ id x) → (xs : List A) → IsApart xs → IsApart (map f xs)
  map-IsApart f same [] h = tt
  map-IsApart f same (x ∷ xs) h = (map-All f same x xs h.0, map-IsApart f same xs h.1)

  -- No row elsewhere has an id that is in no place.
  Keyed-IsOther :
      (k : ℕ) (v : A) (t : Table A)
      → Keyed id t
      → id v ≡ k
      → get t k ≡ none
      → All (IsOther v) (values t)
  Keyed-IsOther k v [] h e n = tt
  Keyed-IsOther k v ((j, w) ∷ t) h e n = (ground arith, Keyed-IsOther k v t h.2 e (ground arith))

  pub Keyed-IsApart : (t : Table A) → Keyed id t → IsApart (values t)
  Keyed-IsApart [] h = tt
  Keyed-IsApart ((j, v) ∷ t) h = (Keyed-IsOther j v t h.2 h.0 h.1, Keyed-IsApart t h.2)

  every_row_from :
      (t : Table A) (xs : Table A)
      → Keyed id xs
      → ((k : ℕ) (v : A) → get xs k ≡ some v → get t k ≡ some v)
      → All (λ v. get t (id v) ≡ some v) (values xs)
  every_row_from t [] h f = tt
  every_row_from t ((j, v) ∷ xs) h f = (
    rw h.0 (f j v (ground arith)),
    every_row_from t xs h.2 (λ k w e. f k w (ground (arith, e, h.1))),
  )

  -- Every row stands under its id.
  pub every_row : (t : Table A) → Keyed id t → All (λ v. get t (id v) ≡ some v) (values t)
  every_row t h = every_row_from t t h (λ k v e. e)

  pub get-update :
      (f : A → A) (t : Table A) (k : ℕ) (v : A) → get t k ≡ some v → get (update f t) k ≡ some (f v)
  get-update f [] k v e = cc
  get-update f ((j, w) ∷ t) k v e = ground (arith, get-update f t k v)
