-- ===== src/Store/Action.antt =====
-- A method of apps/api/src/store/memory.ts as a function of the state. The state comes back after a
-- throw too: what was written before it stays written.
use rescue.Prelude.{◌≡◌, ◌⊎◌, inl, inr, refl, ap, Bool}
use rescue.Contracts.Errors.{AppError}
use rescue.Store.Types.{MemoryStore}

pub data Result {ℓ} (A : Type ℓ) : Type ℓ where
  ok : A → Result A
  err : AppError → Result A

abbrev pub Action : Type 0 → Type 0
Action A = MemoryStore → Result A × MemoryStore

module _ {A : Type 0} where
  abbrev pub pure : A → Action A
  pure a s = (ok a, s)

  -- `throw e`
  abbrev pub raise : AppError → Action A
  raise e s = (err e, s)

  abbrev pub is_ok : Result A → Bool
  is_ok (ok _) = Bool.true
  is_ok (err _) = Bool.false

pub Result-cases {ℓ} :
    {A : Type ℓ} (r : Result A) → ((e : AppError) × (r ≡ err e)) ⊎ ((a : A) × (r ≡ ok a))
Result-cases (err e) = inl (e, refl)
Result-cases (ok a) = inr (a, refl)

infixl 5 ◌>>=◌ ◌>>◌
abbrev pub ◌>>=◌ : {A B : Type 0} → Action A → (A → Action B) → Action B
◌>>=◌ m f s = let (r, s') = m s in elim r [ ok a ↦ f a s' | err e ↦ raise e s' ]

abbrev pub ◌>>◌ : {A B : Type 0} → Action A → Action B → Action B
m >> k = m >>= λ _. k

pub ok_injective {ℓ} : {A : Type ℓ} {a b : A} → ok a ≡ ok b → a ≡ b
ok_injective e = cc

bind_from :
    {A B : Type 0} (r : Result A) (u t : MemoryStore) (f : A → Action B) (b : B)
    → elim r as (λ _. Result B × MemoryStore) [ ok a ↦ f a u | err e ↦ raise e u ] ≡ (ok b, t)
    → (a : A) × (r ≡ ok a) × (f a u ≡ (ok b, t))
bind_from (ok a) u t f b e = (a, refl, e)
bind_from (err x) u t f b e = absurd (cc)

-- What a chain that returned went through.
pub bind_ok :
    {A B : Type 0} (m : Action A) (f : A → Action B) (s t : MemoryStore) (b : B)
    → (m >>= f) s ≡ (ok b, t)
    → (a : A) × (u : MemoryStore) × (m s ≡ (ok a, u)) × (f a u ≡ (ok b, t))
bind_ok m f s t b e =
    let (a, g, h) = bind_from (m s).0 (m s).1 t f b e in (a, (m s).1, ap (λ r. (r, (m s).1)) g, h)

-- A chain goes on with what its first part returned.
pub bind_eq :
    {A B : Type 0} (m : Action A) (f : A → Action B) (s u : MemoryStore) (a : A)
    → m s ≡ (ok a, u)
    → (m >>= f) s ≡ f a u
bind_eq {B = B} m f s u a e =
    ap (λ r. elim r.0 as (λ _. Result B × MemoryStore) [ ok x ↦ f x r.1 | err x ↦ raise x r.1 ]) e

-- A chain ends with the error of its first part.
pub bind_err :
    {A B : Type 0} (m : Action A) (f : A → Action B) (s u : MemoryStore) (x : AppError)
    → m s ≡ (err x, u)
    → (m >>= f) s ≡ (err x, u)
bind_err {B = B} m f s u x e =
    ap (λ r. elim r.0 as (λ _. Result B × MemoryStore) [ ok x ↦ f x r.1 | err x ↦ raise x r.1 ]) e
