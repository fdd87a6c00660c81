-- ===== src/Worker/Left.antt =====
-- What one pass of apps/api/src/worker/worker.ts leaves of a message: the deliveries that are left.

use rescue.Prelude.{Option, ap, none, subst, suc, sym, ◌∙◌}
use rescue.Prelude.Apart.{get-update}
use rescue.Prelude.Keyed.{Keyed}
use rescue.Prelude.Table.{get}
use rescue.Store.Queue.{due_messages, hold_claimed}
use rescue.Worker.Passes.{drain-IsSettled, drain_each-other, due-is_due, due_stand}
use rescue.Worker.Settled.{IsQuiet}
use rescue.Prelude.{All, Bool-cases, map, refl}
use rescue.Store.Queue.{hold, is_due}
use rescue.Store.Types.{MemoryStore}
use rescue.Worker.Passes.{Stands, OtherThan}
use rescue.Contracts.Ops.{OutboxStatus, outbox_max_attempts}
use rescue.Prelude.{
  Bool, List, [], any, false, if◌then◌else◌, inl, inr, some, true, ◌+◌, ◌-◌, ◌<◌, ◌==◌, ◌∷◌, ◌≡◌,
  ◌≤◌,
}
use rescue.Store.Queue.{claim_outbox}
use rescue.Store.Types.{StoredOutboxMessage}
use rescue.Worker.{World}
use rescue.Worker.Drain.{WorkerOptions, drain}
use rescue.Worker.Settled.{IsSettled}
use rescue.Contracts.Ops.{outbox_status_coded}
use rescue.Prelude.{ℕ, arith}
use mathlib.Core.Option.{some_inj}

abbrev pub is_final : OutboxStatus → Bool
is_final OutboxStatus.sent = true
is_final OutboxStatus.dead = true
is_final _ = false

-- The deliveries that are left to a message.
abbrev pub deliveries_left : StoredOutboxMessage → ℕ
deliveries_left m = if is_final m.status then 0 else outbox_max_attempts - m.attempts

-- A message that is not final has an attempt left.
abbrev pub IsLive : StoredOutboxMessage → Type 0
IsLive m = is_final m.status ≡ false → m.attempts < outbox_max_attempts

final_left :
    (r : StoredOutboxMessage) → is_final r.status ≡ true → IsLive r × (deliveries_left r ≡ 0)
final_left r h = (λ k. ground arith, rw h)

settled_left :
    (m r : StoredOutboxMessage)
    → m.attempts < outbox_max_attempts
    → is_final m.status ≡ false
    → IsSettled m (some r)
    → IsLive r × (deliveries_left r + 1 ≤ deliveries_left m)
settled_left m r live waits (inl sent) =
    let (a, b) = final_left r (rw sent refl) in (a, rw (b, waits) (omega arith))
settled_left m r live waits (inr (one_more, inl (failed, few))) =
    (λ h. few, rw (failed, waits, one_more) (omega arith))
settled_left m r live waits (inr (one_more, inr (dead, many))) =
    let (a, b) = final_left r (rw dead refl) in (a, rw (b, waits) (omega arith))

any-All {ℓ} :
    {A : Type ℓ} (P : A → Type 0) (p : A → Bool) (xs : List A)
    → any p xs ≡ true
    → All P xs
    → (x : A) × (p x ≡ true) × P x
any-All P p [] h k = cc
any-All P p (x ∷ xs) h k = elim (Bool-cases (p x)) [
  | inl e ↦ (x, e, k.0)
  | inr e ↦ any-All P p xs (ground (arith, e, h)) k.1
]

none_claimed :
    (id : ℕ) (xs : List StoredOutboxMessage)
    → any (λ m. m.id == id) xs ≡ false
    → All (OtherThan id) xs
none_claimed id [] h = tt
none_claimed id (x ∷ xs) h = (ground (arith, h), none_claimed id xs (ground (arith, h)))

-- Where a claimed message comes from.
abbrev Comes : ℕ → MemoryStore → StoredOutboxMessage → Type 0
Comes now s m = (d : StoredOutboxMessage) × (m ≡ hold now d) × Stands s d × (is_due now d ≡ true)

claimed-Comes :
    (now : ℕ) (s : MemoryStore) (ds : List StoredOutboxMessage)
    → All (Stands s) ds
    → All (λ d. is_due now d ≡ true) ds
    → All (Comes now s) (map (hold now) ds)
claimed-Comes now s [] h k = tt
claimed-Comes now s (d ∷ ds) h k = ((d, refl, h.0, k.0), claimed-Comes now s ds h.1 k.1)

due_waits : (now : ℕ) (d : StoredOutboxMessage) → is_due now d ≡ true → is_final d.status ≡ false
due_waits now d h = ground arith

All-both {ℓ} :
    {A : Type ℓ} (P Q : A → Type 0) (xs : List A) → All P xs → All Q xs → All (λ x. P x × Q x) xs
All-both P Q [] h k = tt
All-both P Q (x ∷ xs) h k = ((h.0, k.0), All-both P Q xs h.1 k.1)

-- A claim leaves a message as many deliveries as it had.
hold_claimed_left :
    (now : ℕ) (due : List StoredOutboxMessage) (r : StoredOutboxMessage)
    → IsLive r
    → IsLive (hold_claimed now due r)
      × (deliveries_left (hold_claimed now due r) ≡ deliveries_left r)
hold_claimed_left now due r live = elim (Bool-cases (any (λ d. d.id == r.id) due)) [
  | inl e ↦ rw e (live, refl)
  | inr e ↦ rw e (live, refl)
]

-- What is left of a message after a pass that may have handed it out.
abbrev pub Left : ℕ → ℕ → Option StoredOutboxMessage → Type 0
Left claimed before none = ⊥
Left claimed before (some r) = IsLive r × (claimed + deliveries_left r ≤ before)

claimed-Left :
    (now : ℕ) (s : MemoryStore) (m r : StoredOutboxMessage) (left : Option StoredOutboxMessage)
    → IsLive r
    → get s.outbox m.id ≡ some r
    → IsSettled m left
    → Comes now s m
    → Left 1 (deliveries_left r) left
claimed-Left now s m r none live e settled comes = settled
claimed-Left now s m r (some r') live e settled (d, same, stands, due) =
    let own : d ≡ r = some_inj.0 (sym stands ∙ ap (λ x. get s.outbox x.id) (sym same) ∙ e) in
    let waits : is_final r.status ≡ false = rw (sym own) (due_waits now d due) in
    let held : m ≡ hold now r = same ∙ ap (hold now) own in
    let (a, b) =
      settled_left (hold now r) r' (live waits) waits
        (subst (λ x. IsSettled x (some r')) held settled) in
    (a, omega (arith, b))

module _ (options : WorkerOptions) (quiet : (now : ℕ) → IsQuiet (options.handlers now)) where
  pub drain-Left :
      (clock : ℕ → ℕ) (w : World) (id : ℕ) (r : StoredOutboxMessage)
      → Keyed (λ m. m.id) w.store.outbox
      → get w.store.outbox id ≡ some r
      → IsLive r
      → Left
          (if any (λ m. m.id == id) (claim_outbox (clock 0) options.batch_size w.store).0
            then 1
            else 0)
          (deliveries_left r)
          (get (drain options clock w).1.store.outbox id)
  unfolding drain claim_outbox
  drain-Left clock w id r keyed e live =
      let now = clock 0 in
      let due = due_messages now options.batch_size w.store in
      elim (Bool-cases (any (λ m. m.id == id) (map (hold now) due))) [
        | inl f ↦
            let (m, same, (settled, comes)) = any-All _ _ _ f (
              All-both _ _ _ (drain-IsSettled options clock w quiet keyed) (
                claimed-Comes now w.store due (due_stand now options.batch_size w.store keyed)
                  (due-is_due now options.batch_size w.store))) in
            let own : m.id ≡ id = ground (arith, same) in
            rw (f, sym own) (claimed-Left now w.store m r _ live (rw own e) settled comes)
        | inr f ↦
            let (a, b) = hold_claimed_left now due r live in
            rw
              (
                f,
                drain_each-other options quiet (λ n. clock (suc n)) (map (hold now) due) _ _ id
                    (none_claimed id _ f),
                get-update (λ x. x.id) (hold_claimed now due) w.store.outbox id r e,
              )
              (a, omega (arith, b))
      ]
