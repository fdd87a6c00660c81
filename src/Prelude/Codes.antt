-- ===== src/Prelude/Codes.antt =====
-- `===` on string unions and ids: each has a code, and two values are the same if their codes are.
use Prim.Native.Nat.{ℕ}
use mathlib.Core.Path.{◌≡◌}
use mathlib.Core.Bool.{Bool, true}
use rescue.Prelude.Tests.{◌==◌, ==_iff}

pub record Coded {ℓ} (A : Type ℓ) : Type ℓ where
  pub code : A → ℕ
  pub code-injective : (a b : A) → code a ≡ code b → a ≡ b

infix 50 ◌===◌
abbrev pub ◌===◌ {ℓ} : {A : Type ℓ} ⦃c : Coded A⦄ → A → A → Bool
◌===◌ ⦃c⦄ a b = c.code a == c.code b

pub ===_eq {ℓ} : {A : Type ℓ} ⦃c : Coded A⦄ (a b : A) → (a === b) ≡ true → a ≡ b
===_eq ⦃c⦄ a b h = c.code-injective a b ((==_iff _ _).0 h)

same : (a b : ℕ) → a ≡ b → a ≡ b
same a b h = h

instance abbrev pub nat_coded : Coded ℕ
unfolding same
nat_coded = record { code = λ n. n; code-injective = same }
