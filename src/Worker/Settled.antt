-- ===== src/Worker/Settled.antt =====
-- What one pass of apps/api/src/worker/worker.ts does to the outbox.
use rescue.Contracts.Ops.{OutboxStatus, OutboxTopic, outbox_backoff_ms, outbox_max_attempts}
use rescue.Prelude.{
  Bool-cases, Option, Option-cases, String, ap, false, inl, inr, none, refl, some, ◌+◌, ◌<◌, ◌==◌,
  ◌∙◌, ◌≡◌, ◌≤◌, ◌⊎◌,
}
use rescue.Prelude.Table.{get, get-set, get-set_self}
use rescue.Store.Action.{Result-cases}
use rescue.Store.Queue.{delivered, mark_outbox_delivered, mark_outbox_failed, undelivered}
use rescue.Store.Types.{MemoryStore, StoredOutboxMessage}
use rescue.Worker.{Handler, World}
use rescue.Worker.Drain.{Registry, WorkerOptions, give_up, mark_delivered, process, retry_at}
use rescue.Contracts.Ops.{outbox_status_coded}
use rescue.Prelude.{ℕ, arith}

-- The handlers of a registry do not write to the outbox.
abbrev pub IsQuiet : Registry → Type 0
IsQuiet registry =
    (topic : OutboxTopic) (handler : Handler)
    → registry topic ≡ some handler
    → (m : StoredOutboxMessage) (w : World) → (handler m w).1.store.outbox ≡ w.store.outbox

-- What a delivery of a message leaves in its place: it is sent, or has one attempt more and is to
-- be tried again, or is dead after the last attempt.
abbrev pub IsSettled : StoredOutboxMessage → Option StoredOutboxMessage → Type 0
IsSettled m none = ⊥
IsSettled m (some r) =
    (r.status ≡ OutboxStatus.sent)
    ⊎ ((r.attempts ≡ m.attempts + 1)
        × (((r.status ≡ OutboxStatus.failed) × (r.attempts < outbox_max_attempts))
            ⊎ ((r.status ≡ OutboxStatus.dead) × (outbox_max_attempts ≤ r.attempts))))

mark_delivered-IsSettled :
    (now : ℕ) (m : StoredOutboxMessage) (s : MemoryStore)
    → get s.outbox m.id ≡ some m
    → IsSettled m (get (mark_outbox_delivered m.id now s).outbox m.id)
unfolding mark_outbox_delivered
mark_delivered-IsSettled now m s e =
    rw (mark_outbox_delivered, e, get-set_self s.outbox m.id (delivered now m)) (inl refl)

mark_failed-IsSettled :
    (now : ℕ) (m : StoredOutboxMessage) (error : String) (s : MemoryStore)
    → get s.outbox m.id ≡ some m
    → IsSettled m (get (mark_outbox_failed m.id error (retry_at now m) s).outbox m.id)
unfolding mark_outbox_failed
mark_failed-IsSettled now m error s e = elim (Bool-cases (give_up m)) [
  | inl f ↦
      rw (mark_outbox_failed, e, f, get-set_self s.outbox m.id (undelivered error none m))
        (inr (refl, inr (refl, ground arith)))
  | inr f ↦
      rw
        (
          mark_outbox_failed,
          e,
          f,
          get-set_self s.outbox m.id
              (undelivered error (some (now + outbox_backoff_ms (m.attempts + 1))) m),
        )
        (inr (refl, inl (refl, ground arith)))
]

-- The rows of other messages stay as they are.
mark_delivered-other :
    (now id k : ℕ) (s : MemoryStore)
    → (id == k) ≡ false
    → get (mark_outbox_delivered id now s).outbox k ≡ get s.outbox k
unfolding mark_outbox_delivered
mark_delivered-other now id k s other = elim (Option-cases (get s.outbox id)) [
  | inl e ↦ rw (mark_outbox_delivered, e)
  | inr (m, e) ↦ rw (mark_outbox_delivered, e, get-set s.outbox id k (delivered now m), other)
]

mark_failed-other :
    (id k : ℕ) (error : String) (at : Option ℕ) (s : MemoryStore)
    → (id == k) ≡ false
    → get (mark_outbox_failed id error at s).outbox k ≡ get s.outbox k
unfolding mark_outbox_failed
mark_failed-other id k error at s other = elim (Option-cases (get s.outbox id)) [
  | inl e ↦ rw (mark_outbox_failed, e)
  | inr (m, e) ↦ rw (mark_outbox_failed, e, get-set s.outbox id k (undelivered error at m), other)
]

module _ (options : WorkerOptions) (quiet : (now : ℕ) → IsQuiet (options.handlers now)) where
  pub process_cases :
      (P : World → Type 0) (now : ℕ) (m : StoredOutboxMessage) (w : World)
      → ((v : World) → v.store.outbox ≡ w.store.outbox → P (mark_delivered now m v))
      → ((v : World) (error : String)
          → v.store.outbox ≡ w.store.outbox
          → P (record v { store = mark_outbox_failed m.id error (retry_at now m) v.store }))
      → P (process options now m w).1
  unfolding process
  process_cases P now m w sent refused = elim (Option-cases (options.handlers now m.topic)) [
    | inl e ↦ rw (process, e) (sent w refl)
    | inr (handler, e) ↦ elim (Result-cases (handler m w).0) [
      | inr (u, f) ↦ rw (process, e, f) (sent (handler m w).1 (quiet now m.topic handler e m w))
      | inl (x, f) ↦
          rw (process, e, f)
            (refused (handler m w).1 (options.message_of x) (quiet now m.topic handler e m w))
    ]
  ]

  pub process-IsSettled :
      (now : ℕ) (m : StoredOutboxMessage) (w : World)
      → get w.store.outbox m.id ≡ some m
      → IsSettled m (get (process options now m w).1.store.outbox m.id)
  process-IsSettled now m w e =
      process_cases (λ v. IsSettled m (get v.store.outbox m.id)) now m w
        (λ v same. mark_delivered-IsSettled now m v.store (rw same e))
        (λ v error same. mark_failed-IsSettled now m error v.store (rw same e))

  pub process-other :
      (now : ℕ) (m : StoredOutboxMessage) (w : World) (k : ℕ)
      → (m.id == k) ≡ false
      → get (process options now m w).1.store.outbox k ≡ get w.store.outbox k
  process-other now m w k other =
      process_cases (λ v. get v.store.outbox k ≡ get w.store.outbox k) now m w
        (λ v same. mark_delivered-other now m.id k v.store other ∙ ap (λ t. get t k) same)
        (λ v error same.
          mark_failed-other m.id k error (retry_at now m) v.store other ∙ ap (λ t. get t k) same)
