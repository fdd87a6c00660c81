-- ===== src/Payments.antt =====
-- apps/api/src/lib/payments.ts: what a job's ledger adds up to.
pub mod Balance
mod Tests
use rescue.Prelude.{List, [], any, if◌then◌else◌, ◌===◌, ◌∷◌}
use rescue.Prelude.Int.{neg, pos, ℤ, ◌+ℤ◌}
use rescue.Store.Types.{StoredLedgerEntry}
use rescue.Contracts.Ops.{LedgerEntryKind, ledger_entry_kind_coded}

-- `reduce((sum, entry) => sum + entry.amountCents, sum)` over the entries of some kinds.
unfoldable pub total_from : ℤ → List LedgerEntryKind → List StoredLedgerEntry → ℤ
total_from sum kinds [] = sum
total_from sum kinds (entry ∷ rest) =
    let counted = total_from (sum +ℤ entry.amount_cents) kinds rest in
    let passed = total_from sum kinds rest in
    if any (λ k. k === entry.kind) kinds then counted else passed

abbrev pub total : List LedgerEntryKind → List StoredLedgerEntry → ℤ
total kinds entries = total_from (pos 0) kinds entries

pub record LedgerSummary : Type 0 where
  pub authorised_cents : ℤ
  pub captured_cents : ℤ
  pub refunded_cents : ℤ
  pub paid_out_cents : ℤ
  pub net_cents : ℤ

abbrev pub of_authorisation : List LedgerEntryKind
of_authorisation = LedgerEntryKind.authorisation ∷ LedgerEntryKind.authorisation_void ∷ []

abbrev pub of_payout : List LedgerEntryKind
of_payout = LedgerEntryKind.payout ∷ LedgerEntryKind.payout_reversal ∷ []

unfoldable pub summarise_ledger : List StoredLedgerEntry → LedgerSummary
summarise_ledger entries = record {
  authorised_cents = total of_authorisation entries;
  captured_cents = total (LedgerEntryKind.capture ∷ []) entries;
  refunded_cents = neg (total (LedgerEntryKind.refund ∷ []) entries);
  paid_out_cents = neg (total of_payout entries);
  net_cents = total (LedgerEntryKind.capture ∷ LedgerEntryKind.refund ∷ of_payout) entries;
}
