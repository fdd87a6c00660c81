-- ===== src/Contracts/Ops/Backoff.antt =====
-- The retry schedule of packages/contracts/src/ops.ts.
use rescue.Prelude.{ℕ, suc, ◌-◌, ◌*◌, ◌≡◌, refl, min, arith}
use native.Mathlib.Nat.{pow-suc}
use rescue.Contracts.Ops.{outbox_backoff_ms}

-- Each further attempt waits twice as long as the one before, up to thirty minutes; the first waits
-- thirty seconds.
pub outbox_backoff_ms-suc :
    (attempts : ℕ)
    → (outbox_backoff_ms 1 ≡ 30_000)
      × (outbox_backoff_ms (suc (suc attempts))
          ≡ min 1_800_000 (2 * outbox_backoff_ms (suc attempts)))
unfolding outbox_backoff_ms
outbox_backoff_ms-suc attempts = (
  refl,
  let half : suc (suc attempts) - 1 ≡ suc attempts = omega arith in
      let less : suc attempts - 1 ≡ attempts = omega arith in
      rw (half, less, pow-suc) (omega arith),
)
