-- ===== src/Contracts/Money/Rounding.antt =====
-- The rounding of packages/contracts/src/money.ts, and how far its numbers grow.
use rescue.Prelude.{ℕ, ◌+◌, ◌*◌, ◌/◌, ◌≤◌, ◌<◌, ◌≡◌, refl, some, arith}
use rescue.Contracts.Money.{Money, max_safe_integer, max_cents, vat_cents, money}

-- For every price and rate that the API admits, VAT is computed, it is the exact amount rounded
-- half up to a cent, the gross price is net plus VAT, and every number on the way is a safe integer.
pub money_exact :
    (net rate : ℕ)
    → net ≤ max_cents
    → rate ≤ 10_000
    → (m : Money) × (money net rate ≡ some m)
      × (m.net_cents ≡ net)
      × (m.gross_cents ≡ net + m.vat_cents)
      × (10_000 * m.vat_cents ≤ net * rate + 5_000)
      × (net * rate + 5_000 < 10_000 * m.vat_cents + 10_000)
      × (net * rate + 5_000 ≤ max_safe_integer)
unfolding money vat_cents
money_exact net rate h k =
    let bound : net * rate ≤ 100_000_000 * 10_000 = grind arith in
    (
      record {
        net_cents = net;
        vat_cents = (net * rate + 5_000) / 10_000;
        gross_cents = net + (net * rate + 5_000) / 10_000;
      },
      ground arith,
      refl,
      refl,
      omega arith,
      omega arith,
      omega arith,
    )
