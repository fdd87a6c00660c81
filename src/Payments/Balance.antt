-- ===== src/Payments/Balance.antt =====
-- The figures of `summariseLedger` of apps/api/src/lib/payments.ts agree.
use rescue.Payments.{total, of_payout, summarise_ledger, total_from}
use rescue.Prelude.{List, [], any, ap, if◌then◌else◌, inl, inr, refl, sym, ◌===◌, ◌∙◌, ◌∷◌}
use rescue.Prelude.Int.{pos}
use rescue.Store.Types.{StoredLedgerEntry}
use rescue.Contracts.Ops.{LedgerEntryKind, ledger_entry_kind_coded}
use rescue.Prelude.{◌≡◌, Bool-cases}
use rescue.Prelude.Int.{int_laws, neg, ℤ, ◌+ℤ◌}

-- A sum after an entry of some kind has been read.
abbrev after : List LedgerEntryKind → LedgerEntryKind → ℤ → ℤ → ℤ
after kinds kind amount sum = if any (λ k. k === kind) kinds then sum +ℤ amount else sum

total_from-cons :
    (sum : ℤ) (kinds : List LedgerEntryKind) (entry : StoredLedgerEntry)
    (rest : List StoredLedgerEntry)
    → total_from sum kinds (entry ∷ rest)
      ≡ total_from (after kinds entry.kind entry.amount_cents sum) kinds rest
unfolding total_from
total_from-cons sum kinds entry rest = elim (Bool-cases (any (λ k. k === entry.kind) kinds)) [
  | inl e ↦ rw e refl
  | inr e ↦ rw e refl
]

abbrev of_capture : List LedgerEntryKind
of_capture = LedgerEntryKind.capture ∷ []

abbrev of_refund : List LedgerEntryKind
of_refund = LedgerEntryKind.refund ∷ []

abbrev of_movement : List LedgerEntryKind
of_movement = LedgerEntryKind.capture ∷ LedgerEntryKind.refund ∷ of_payout

add_first : (a b c x : ℤ) → ((a +ℤ b) +ℤ c) +ℤ x ≡ ((a +ℤ x) +ℤ b) +ℤ c
add_first a b c x = grind int_laws

add_second : (a b c x : ℤ) → ((a +ℤ b) +ℤ c) +ℤ x ≡ (a +ℤ (b +ℤ x)) +ℤ c
add_second a b c x = grind int_laws

add_third : (a b c x : ℤ) → ((a +ℤ b) +ℤ c) +ℤ x ≡ (a +ℤ b) +ℤ (c +ℤ x)
add_third a b c x = grind int_laws

neg-neg : (a : ℤ) → neg (neg a) ≡ a
neg-neg a = grind int_laws

after-split :
    (kind : LedgerEntryKind) (x a b c : ℤ)
    → after of_movement kind x ((a +ℤ b) +ℤ c)
      ≡ (after of_capture kind x a +ℤ after of_refund kind x b) +ℤ after of_payout kind x c
after-split LedgerEntryKind.authorisation x a b c = refl
after-split LedgerEntryKind.authorisation_void x a b c = refl
after-split LedgerEntryKind.capture x a b c = add_first a b c x
after-split LedgerEntryKind.refund x a b c = add_second a b c x
after-split LedgerEntryKind.payout x a b c = add_third a b c x
after-split LedgerEntryKind.payout_reversal x a b c = add_third a b c x

total_from-split :
    (es : List StoredLedgerEntry) (a b c : ℤ)
    → total_from ((a +ℤ b) +ℤ c) of_movement es
      ≡ (total_from a of_capture es +ℤ total_from b of_refund es) +ℤ total_from c of_payout es
unfolding total_from
total_from-split [] a b c = refl
total_from-split (e ∷ es) a b c =
    total_from-cons ((a +ℤ b) +ℤ c) of_movement e es
    ∙ ap (λ sum. total_from sum of_movement es) (after-split e.kind e.amount_cents a b c)
    ∙ total_from-split es _ _ _
    ∙ sym (
        rw
          (
            total_from-cons a of_capture e es,
            total_from-cons b of_refund e es,
            total_from-cons c of_payout e es,
          )
          refl)

-- What Rescue holds is what it has captured, less what it has refunded and what it has paid out.
pub summarise_ledger_balances :
    (entries : List StoredLedgerEntry)
    → (summarise_ledger entries).net_cents
      ≡ ((summarise_ledger entries).captured_cents +ℤ neg (summarise_ledger entries).refunded_cents)
        +ℤ neg (summarise_ledger entries).paid_out_cents
unfolding summarise_ledger ◌+ℤ◌
summarise_ledger_balances entries =
    rw (neg-neg (total of_refund entries), neg-neg (total of_payout entries))
      (total_from-split entries (pos 0) (pos 0) (pos 0))
