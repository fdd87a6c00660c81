-- ===== src/Worker/Attempts.antt =====
-- However many passes apps/api/src/worker/worker.ts makes, it hands a message out a bounded number
-- of times.
use rescue.Worker.Left.{IsLive, Left, deliveries_left, drain-Left}
use rescue.Prelude.{Option-cases, String}
use rescue.Prelude.Keyed.{get-Keyed, set-Keyed, update-Keyed}
use rescue.Store.Queue.{delivered, mark_outbox_delivered, mark_outbox_failed, undelivered}
use rescue.Worker.Drain.{DrainResult, drain_each, process, retry_at}
use rescue.Worker.Settled.{process_cases}
use rescue.Prelude.{Option, none, suc, ◌∙◌}
use rescue.Prelude.Keyed.{Keyed}
use rescue.Prelude.Table.{get}
use rescue.Store.Queue.{due_messages, hold_claimed}
use rescue.Worker.Settled.{IsQuiet}
use rescue.Prelude.{refl}
use rescue.Store.Types.{MemoryStore}
use rescue.Contracts.Ops.{outbox_max_attempts}
use rescue.Prelude.{List, [], any, if◌then◌else◌, inl, inr, some, ◌+◌, ◌==◌, ◌∷◌, ◌≡◌, ◌≤◌}
use rescue.Store.Queue.{claim_outbox}
use rescue.Store.Types.{StoredOutboxMessage}
use rescue.Worker.{World}
use rescue.Worker.Drain.{WorkerOptions, drain}
use rescue.Contracts.Ops.{outbox_status_coded}
use rescue.Prelude.{ℕ, arith}

-- How many of the passes hand out the message with an id.
unfoldable pub times_claimed : WorkerOptions → ℕ → List (ℕ → ℕ) → World → ℕ
times_claimed options id [] w = 0
times_claimed options id (clock ∷ rest) w =
    (if any (λ m. m.id == id) (claim_outbox (clock 0) options.batch_size w.store).0 then 1 else 0)
    + times_claimed options id rest (drain options clock w).1

undelivered-id :
    (error : String) (at : Option ℕ) (m : StoredOutboxMessage) → (undelivered error at m).id ≡ m.id
undelivered-id error none m = refl
undelivered-id error (some t) m = refl

hold_claimed-id :
    (now : ℕ) (due : List StoredOutboxMessage) (m : StoredOutboxMessage)
    → (hold_claimed now due m).id ≡ m.id
hold_claimed-id now due m = ground arith

mark_delivered-Keyed :
    (now id : ℕ) (s : MemoryStore)
    → Keyed (λ x. x.id) s.outbox
    → Keyed (λ x. x.id) (mark_outbox_delivered id now s).outbox
unfolding mark_outbox_delivered
mark_delivered-Keyed now id s keyed = elim (Option-cases (get s.outbox id)) [
  | inl e ↦ rw (mark_outbox_delivered, e) keyed
  | inr (m, e) ↦
      rw (mark_outbox_delivered, e)
        (set-Keyed (λ x. x.id) s.outbox id (delivered now m) keyed
          (get-Keyed (λ x. x.id) s.outbox id m keyed e))
]

mark_failed-Keyed :
    (id : ℕ) (error : String) (at : Option ℕ) (s : MemoryStore)
    → Keyed (λ x. x.id) s.outbox
    → Keyed (λ x. x.id) (mark_outbox_failed id error at s).outbox
unfolding mark_outbox_failed
mark_failed-Keyed id error at s keyed = elim (Option-cases (get s.outbox id)) [
  | inl e ↦ rw (mark_outbox_failed, e) keyed
  | inr (m, e) ↦
      rw (mark_outbox_failed, e)
        (set-Keyed (λ x. x.id) s.outbox id (undelivered error at m) keyed
          (undelivered-id error at m ∙ get-Keyed (λ x. x.id) s.outbox id m keyed e))
]

module _ (options : WorkerOptions) (quiet : (now : ℕ) → IsQuiet (options.handlers now)) where
  process-Keyed :
      (now : ℕ) (m : StoredOutboxMessage) (w : World)
      → Keyed (λ x. x.id) w.store.outbox
      → Keyed (λ x. x.id) (process options now m w).1.store.outbox
  process-Keyed now m w keyed =
      process_cases options quiet (λ v. Keyed (λ x. x.id) v.store.outbox) now m w
        (λ v same. mark_delivered-Keyed now m.id v.store (rw same keyed))
        (λ v error same. mark_failed-Keyed m.id error (retry_at now m) v.store (rw same keyed))

  drain_each-Keyed :
      (clock : ℕ → ℕ) (batch : List StoredOutboxMessage) (result : DrainResult) (w : World)
      → Keyed (λ x. x.id) w.store.outbox
      → Keyed (λ x. x.id) (drain_each options clock batch result w).1.store.outbox
  unfolding drain_each
  drain_each-Keyed clock [] result w keyed = keyed
  drain_each-Keyed clock (m ∷ rest) result w keyed =
      drain_each-Keyed (λ n. clock (suc n)) rest _ _ (process-Keyed (clock 0) m w keyed)

  drain-Keyed :
      (clock : ℕ → ℕ) (w : World)
      → Keyed (λ x. x.id) w.store.outbox
      → Keyed (λ x. x.id) (drain options clock w).1.store.outbox
  unfolding drain claim_outbox
  drain-Keyed clock w keyed =
      drain_each-Keyed (λ n. clock (suc n)) _ _ _
        (update-Keyed (λ x. x.id) _
          (hold_claimed-id (clock 0) (due_messages (clock 0) options.batch_size w.store))
          w.store.outbox keyed)

  pass-Left :
      (claimed : ℕ) (left : Option StoredOutboxMessage) (before : ℕ) (times : ℕ)
      → Left claimed before left
      → ((n : ℕ) → Left 0 n left → times ≤ n)
      → claimed + times ≤ before
  pass-Left claimed none before times h f = absurd h
  pass-Left claimed (some r) before times h f =
      let few = f (deliveries_left r) (h.0, omega arith) in
      let kept = h.1 in omega (arith, few, kept)

  times-Left :
      (id : ℕ) (passes : List (ℕ → ℕ)) (w : World) (left : Option StoredOutboxMessage) (n : ℕ)
      → get w.store.outbox id ≡ left
      → Keyed (λ m. m.id) w.store.outbox
      → Left 0 n left
      → times_claimed options id passes w ≤ n
  unfolding times_claimed
  times-Left id [] w left n e keyed h = omega arith
  times-Left id (clock ∷ rest) w none n e keyed h = absurd h
  times-Left id (clock ∷ rest) w (some r) n e keyed h =
      let few = pass-Left _ _ _ _ (drain-Left options quiet clock w id r keyed e h.0) (λ k g.
        times-Left id rest (drain options clock w).1 _ k refl (drain-Keyed clock w keyed) g) in
      let kept = h.1 in omega (arith, few, kept)

-- However many passes are made, and whenever, a message is handed out at most as often as it has
-- deliveries left, which is five times for a new one. The rows stand under their ids, no handler
-- writes to the outbox, and a message that is not final has an attempt left.
pub times_claimed_bounded :
    (options : WorkerOptions) (id : ℕ) (passes : List (ℕ → ℕ)) (w : World) (r : StoredOutboxMessage)
    → ((now : ℕ) → IsQuiet (options.handlers now))
    → Keyed (λ m. m.id) w.store.outbox
    → get w.store.outbox id ≡ some r
    → IsLive r
    → (times_claimed options id passes w ≤ deliveries_left r)
      × (deliveries_left r ≤ outbox_max_attempts)
times_claimed_bounded options id passes w r quiet keyed e live =
    (times-Left options quiet id passes w (some r) _ e keyed (live, omega arith), ground arith)
