-- ===== src/Contracts/Money.antt =====
-- packages/contracts/src/money.ts: whole cents. Amounts are the non-negative ones that `centsSchema`
-- of packages/contracts/src/common.ts admits; a RangeError is `none`.
pub mod Rounding
use rescue.Prelude.{
  ℕ, ◌+◌, ◌-◌, ◌*◌, ◌/◌, ◌^◌, Bool, List, [], ◌∷◌, Option, none, some, leb, if◌then◌else◌,
}

-- `Number.MAX_SAFE_INTEGER`
abbrev pub max_safe_integer : ℕ
max_safe_integer = 2 ^ 53 - 1

-- The bound of `centsSchema`.
abbrev pub max_cents : ℕ
max_cents = 100_000_000

-- `assertWholeCents` on a whole number.
abbrev pub is_whole_cents : ℕ → Bool
is_whole_cents value = leb value max_safe_integer

pub record Money : Type 0 where
  pub net_cents : ℕ
  pub vat_cents : ℕ
  pub gross_cents : ℕ

unfoldable pub vat_cents : ℕ → ℕ → Option ℕ
vat_cents net rate = if is_whole_cents net then some ((net * rate + 5_000) / 10_000) else none

unfoldable pub money : ℕ → ℕ → Option Money
unfolding vat_cents
money net rate = elim (vat_cents net rate) [
  | none ↦ none
  | some vat ↦ some (record { net_cents = net; vat_cents = vat; gross_cents = net + vat })
]

-- The loop of `sumCents` with its running total.
sum_from : ℕ → List ℕ → Option ℕ
sum_from total [] = some total
sum_from total (amount ∷ rest) =
    let next = sum_from (total + amount) rest in if is_whole_cents amount then next else none

unfoldable pub sum_cents : List ℕ → Option ℕ
unfolding sum_from
sum_cents amounts = sum_from 0 amounts
