-- ===== src/Prelude/Keyed.antt =====
-- Tables whose rows stand under their own ids, each id once.
use rescue.Prelude.{Bool, [], arith, false, none, refl, some, ℕ, ◌∙◌, ◌∷◌, ◌≡◌}
use rescue.Prelude.Tests.{◌==◌}
use rescue.Prelude.Table.{Table, get, set, values, update, get-set}
use rescue.Prelude.Lists.{any}

module _ {ℓ} {V : Type ℓ} (id : V → ℕ) where
  abbrev pub Keyed : Table V → Type ℓ
  Keyed [] = Unit
  Keyed ((k, v) ∷ t) = (id v ≡ k) × (get t k ≡ none) × Keyed t

  pub set-Keyed : (t : Table V) (k : ℕ) (v : V) → Keyed t → id v ≡ k → Keyed (set t k v)
  set-Keyed [] k v h e = (e, refl, tt)
  set-Keyed ((j, w) ∷ t) k v h e = ground (arith, set-Keyed t k v h.2 e, get-set t k j v)

  get-update-none : (f : V → V) (t : Table V) (k : ℕ) → get t k ≡ none → get (update f t) k ≡ none
  get-update-none f [] k e = refl
  get-update-none f ((j, v) ∷ t) k e = ground (arith, get-update-none f t k)

  pub update-Keyed :
      (f : V → V) → ((v : V) → id (f v) ≡ id v) → (t : Table V) → Keyed t → Keyed (update f t)
  update-Keyed f same [] h = tt
  update-Keyed f same ((j, v) ∷ t) h =
      (same v ∙ h.0, get-update-none f t j h.1, update-Keyed f same t h.2)

  pub get-Keyed : (t : Table V) (k : ℕ) (v : V) → Keyed t → get t k ≡ some v → id v ≡ k
  get-Keyed [] k v h e = absurd (cc)
  get-Keyed ((j, w) ∷ t) k v h e = ground (arith, get-Keyed t k v h.2)

  -- A test that a write leaves only to the row that was written finds nothing, if that row fails it.
  none_elsewhere :
      (p : V → Bool) (f : V → V) (k : ℕ)
      → ((v : V) → (id v == k) ≡ false → p (f v) ≡ false)
      → (t : Table V) → Keyed t
      → get t k ≡ none
      → any p (values (update f t)) ≡ false
  none_elsewhere p f k other [] h e = refl
  none_elsewhere p f k other ((j, v) ∷ t) h e =
      ground (arith, other v, none_elsewhere p f k other t h.2)

  pub none_after_set :
      (p : V → Bool) (f : V → V) (k : ℕ) (new : V)
      → ((v : V) → (id v == k) ≡ false → p (f v) ≡ false)
      → p (f new) ≡ false
      → (t : Table V) → Keyed t
      → any p (values (update f (set t k new))) ≡ false
  none_after_set p f k new other own [] h = ground arith
  none_after_set p f k new other own ((j, v) ∷ t) h =
      ground
        (arith, other v, none_elsewhere p f k other t h.2, none_after_set p f k new other own t h.2)
