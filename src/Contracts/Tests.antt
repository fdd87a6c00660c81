-- ===== src/Contracts/Tests.antt =====
-- The contracts of packages/contracts/src at work: a finished job's statuses, the VAT of two prices, and
-- the wait after three attempts.
use rescue.Contracts.Job.{can_transition}
use rescue.Contracts.Job.History.{
  created, moved, IsHistory, IsHistory-milestones, milestones, visited,
}
use rescue.Contracts.Money.{Money, max_safe_integer, money, vat_cents}
use rescue.Contracts.Money.Rounding.{money_exact}
use rescue.Contracts.Ops.{outbox_backoff_ms}
use rescue.Contracts.Ops.Backoff.{outbox_backoff_ms-suc}
use rescue.Prelude.{All, List, [], min, refl, some, true, ◌*◌, ◌+◌, ◌<◌, ◌∷◌, ◌≡◌, ◌≤◌}
use rescue.Contracts.Job.{JobStatus}
use rescue.Prelude.{arith}

abbrev past_of_completed : List JobStatus
past_of_completed =
    JobStatus.in_progress ∷ JobStatus.assigned ∷ JobStatus.quoted ∷ JobStatus.assigned
    ∷ JobStatus.quoted ∷ JobStatus.triaged ∷ JobStatus.draft ∷ []

completed-IsHistory : IsHistory (JobStatus.completed ∷ past_of_completed)
unfolding can_transition
completed-IsHistory = moved JobStatus.completed refl (
    moved JobStatus.in_progress refl (
      moved JobStatus.assigned refl (
        moved JobStatus.quoted refl (
          moved JobStatus.assigned refl
            (moved JobStatus.quoted refl (moved JobStatus.triaged refl created))))))

IsHistory-milestones_example :
    All (λ t. visited past_of_completed t ≡ true) (milestones JobStatus.completed)
IsHistory-milestones_example =
    IsHistory-milestones JobStatus.completed past_of_completed completed-IsHistory

money_exact_example :
    (m : Money) × (money 14_995 1_900 ≡ some m)
    × (m.net_cents ≡ 14_995)
    × (m.gross_cents ≡ 14_995 + m.vat_cents)
    × (10_000 * m.vat_cents ≤ 14_995 * 1_900 + 5_000)
    × (14_995 * 1_900 + 5_000 < 10_000 * m.vat_cents + 10_000)
    × (14_995 * 1_900 + 5_000 ≤ max_safe_integer)
money_exact_example = money_exact 14_995 1_900 (omega arith) (omega arith)

two_vats : (vat_cents 99 1_900 ≡ some 19) × (vat_cents 14_995 1_900 ≡ some 2_849)
unfolding vat_cents
two_vats = (refl, refl)

outbox_backoff_ms-suc_example :
    (outbox_backoff_ms 1 ≡ 30_000) × (outbox_backoff_ms 3 ≡ min 1_800_000 (2 * outbox_backoff_ms 2))
outbox_backoff_ms-suc_example = outbox_backoff_ms-suc 1
