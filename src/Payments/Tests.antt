-- ===== src/Payments/Tests.antt =====
-- The ledger of a job that was held, captured and paid for, read by apps/api/src/lib/payments.ts.
use rescue.Payments.{summarise_ledger, total_from}
use rescue.Payments.Balance.{summarise_ledger_balances}
use rescue.Prelude.{List, [], none, refl, ◌∷◌, ◌≡◌}
use rescue.Prelude.Int.{neg, negsuc, pos, ℤ, ◌+ℤ◌}
use rescue.Store.Types.{StoredLedgerEntry}
use rescue.Contracts.Ops.{LedgerEntryKind}
use rescue.Prelude.{ℕ}

abbrev entry : ℕ → LedgerEntryKind → ℤ → StoredLedgerEntry
entry id kind amount = record {
  id = id;
  job_id = 1;
  kind = kind;
  amount_cents = amount;
  external_reference = none;
  note = none;
  created_at = 100;
}

abbrev paid_job : List StoredLedgerEntry
paid_job =
    entry 51 LedgerEntryKind.authorisation (pos 14_280)
    ∷ entry 52 LedgerEntryKind.capture (pos 14_280)
    ∷ entry 53 LedgerEntryKind.payout (negsuc 8_999)
    ∷ []

summarise_ledger_balances_example :
    (summarise_ledger paid_job).net_cents
    ≡ ((summarise_ledger paid_job).captured_cents +ℤ neg (summarise_ledger paid_job).refunded_cents)
      +ℤ neg (summarise_ledger paid_job).paid_out_cents
summarise_ledger_balances_example = summarise_ledger_balances paid_job

paid_job_net : (summarise_ledger paid_job).net_cents ≡ pos 5_280
unfolding summarise_ledger total_from ◌+ℤ◌
paid_job_net = refl
