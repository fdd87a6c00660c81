-- ===== src/Prelude/Table.antt =====
-- A JavaScript Map keyed by ids, in insertion order: a write to a present key keeps its place.
use Prim.Native.Nat.{ℕ, ◌+◌, ◌≤◌}
use mathlib.Core.Path.{◌≡◌, refl, ap}
use mathlib.Core.Bool.{true, Bool}
use mathlib.Core.List.{List, [], ◌∷◌, map}
use mathlib.Core.Option.{Option, none, some}
use native.Mathlib.Omega.{arith}
use rescue.Prelude.Tests.{◌==◌, if◌then◌else◌}
use rescue.Prelude.Lists.{any, count, find}
use rescue.Prelude.Forall.{All}

abbrev pub Table {ℓ} : Type ℓ → Type ℓ
Table V = List (ℕ × V)

module _ {ℓ} {V : Type ℓ} where
  abbrev pub get : Table V → ℕ → Option V
  get [] k = none
  get ((j, v) ∷ t) k = if j == k then some v else get t k

  -- `map.set(k, v)`
  abbrev pub set : Table V → ℕ → V → Table V
  set [] k v = (k, v) ∷ []
  set ((j, w) ∷ t) k v = if j == k then (j, v) ∷ t else (j, w) ∷ set t k v

  -- `[...map.values()]`
  abbrev pub values : Table V → List V
  values [] = []
  values ((j, v) ∷ t) = v ∷ values t

  -- A loop over `map.values()` that may write to each.
  abbrev pub update : (V → V) → Table V → Table V
  update f [] = []
  update f ((j, v) ∷ t) = (j, f v) ∷ update f t

  -- A write through the reference that `[...map.values()].find(p)` returned.
  abbrev pub update_first : (V → Bool) → (V → V) → Table V → Table V
  update_first p f [] = []
  update_first p f ((j, v) ∷ t) = if p v then (j, f v) ∷ t else (j, v) ∷ update_first p f t

  -- `map.delete(k)` for every entry that passes the test.
  abbrev pub delete_if : (V → Bool) → Table V → Table V
  delete_if p [] = []
  delete_if p ((j, v) ∷ t) = if p v then delete_if p t else (j, v) ∷ delete_if p t

  pub get-set :
      (t : Table V) (k j : ℕ) (v : V) → get (set t k v) j ≡ (if k == j then some v else get t j)
  get-set [] k j v = refl
  get-set ((i, w) ∷ t) k j v = ground (arith, get-set t k j v)

  pub get-set_self : (t : Table V) (k : ℕ) (v : V) → get (set t k v) k ≡ some v
  get-set_self t k v = ground (arith, get-set t k k v)

  pub values-update : (f : V → V) (t : Table V) → values (update f t) ≡ map f (values t)
  values-update f [] = refl
  values-update f ((j, v) ∷ t) = ap (◌∷◌ (f v)) (values-update f t)

  -- A predicate of every value survives a write of a value that satisfies it.
  pub All-set {κ} :
      (P : V → Type κ) (t : Table V) (k : ℕ) (v : V)
      → All P (values t)
      → P v
      → All P (values (set t k v))
  All-set P [] k v h p = (p, tt)
  All-set P ((j, w) ∷ t) k v h p = ground (arith, All-set P t k v h.1 p)

  pub get-All {κ} :
      (P : V → Type κ) (t : Table V) (k : ℕ) (v : V) → All P (values t) → get t k ≡ some v → P v
  get-All P [] k v h e = absurd (cc)
  get-All P ((j, w) ∷ t) k v h e = ground (arith, get-All P t k v h.1)

  pub All-update {κ} :
      (P : V → Type κ) (f : V → V) (t : Table V)
      → ((v : V) → P v → P (f v))
      → All P (values t)
      → All P (values (update f t))
  All-update P f [] keep h = tt
  All-update P f ((j, v) ∷ t) keep h = (keep v h.0, All-update P f t keep h.1)

  -- A write adds at most the new value to a count.
  pub count-set_le :
      (p : V → Bool) (t : Table V) (k : ℕ) (v : V)
      → count p (values (set t k v)) ≤ count p (values t) + (if p v then 1 else 0)
  count-set_le p [] k v = ground arith
  count-set_le p ((j, w) ∷ t) k v = ground (arith, count-set_le p t k v)

  -- A write over a value exchanges that value's share of a count for the new one's.
  pub count-set :
      (p : V → Bool) (t : Table V) (k : ℕ) (v old : V)
      → get t k ≡ some old
      → count p (values (set t k v)) + (if p old then 1 else 0)
        ≡ count p (values t) + (if p v then 1 else 0)
  count-set p [] k v old e = absurd (cc)
  count-set p ((j, w) ∷ t) k v old e = ground (arith, count-set p t k v old)

  -- A write to the first value that passes changes its share of a count, and nothing else.
  pub count-update_first :
      (q p : V → Bool) (f : V → V) (t : Table V) (v : V)
      → find p (values t) ≡ some v
      → count q (values (update_first p f t)) + (if q v then 1 else 0)
        ≡ count q (values t) + (if q (f v) then 1 else 0)
  count-update_first q p f [] v e = absurd (cc)
  count-update_first q p f ((j, w) ∷ t) v e = ground (arith, count-update_first q p f t v)

  pub any-set :
      (p : V → Bool) (t : Table V) (k : ℕ) (v : V) → p v ≡ true → any p (values (set t k v)) ≡ true
  any-set p [] k v h = ground arith
  any-set p ((j, w) ∷ t) k v h = ground (arith, any-set p t k v h)
