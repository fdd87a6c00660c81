-- ===== src/Worker/Passes.antt =====
-- A whole pass of apps/api/src/worker/worker.ts settles what it claims.
use rescue.Prelude.{All-select, All-take, select, select_passes}
use rescue.Prelude.Apart.{Keyed-IsApart, every_row, select-IsApart, sort-IsApart, take-IsApart}
use rescue.Prelude.Sort.{All-sort}
use rescue.Store.Queue.{is_due}
use rescue.Prelude.{
  ==_refl, All, All-map, List, [], any, ap, false, map, refl, some, suc, true, ◌==◌, ◌∙◌, ◌∷◌, ◌≡◌,
}
use rescue.Prelude.Apart.{IsApart, IsOther, get-update, map-IsApart}
use rescue.Prelude.Keyed.{Keyed}
use rescue.Prelude.Table.{get, update, values}
use rescue.Store.Queue.{claim_outbox, due_messages, hold, hold_claimed}
use rescue.Store.Types.{MemoryStore, StoredOutboxMessage}
use rescue.Worker.{World}
use rescue.Worker.Drain.{DrainResult, WorkerOptions, drain, drain_each, process}
use rescue.Worker.Settled.{IsQuiet, IsSettled, process-IsSettled, process-other}
use rescue.Prelude.{ℕ, arith}

abbrev pub Stands : MemoryStore → StoredOutboxMessage → Type 0
Stands s m = get s.outbox m.id ≡ some m

abbrev pub OtherThan : ℕ → StoredOutboxMessage → Type 0
OtherThan k m = (m.id == k) ≡ false

module _ (options : WorkerOptions) (quiet : (now : ℕ) → IsQuiet (options.handlers now)) where
  pub drain_each-other :
      (clock : ℕ → ℕ) (batch : List StoredOutboxMessage) (result : DrainResult) (w : World) (k : ℕ)
      → All (OtherThan k) batch
      → get (drain_each options clock batch result w).1.store.outbox k ≡ get w.store.outbox k
  unfolding drain_each
  drain_each-other clock [] result w k h = refl
  drain_each-other clock (m ∷ rest) result w k h =
      drain_each-other (λ n. clock (suc n)) rest _ (process options (clock 0) m w).1 k h.1
      ∙ process-other options quiet (clock 0) m w k h.0

  still-Stands :
      (now : ℕ) (m : StoredOutboxMessage) (w : World) (batch : List StoredOutboxMessage)
      → All (IsOther (λ x. x.id) m) batch
      → All (Stands w.store) batch
      → All (Stands (process options now m w).1.store) batch
  still-Stands now m w [] h k = tt
  still-Stands now m w (x ∷ xs) h k =
      (process-other options quiet now m w x.id h.0 ∙ k.0, still-Stands now m w xs h.1 k.1)

  drain_each-IsSettled :
      (clock : ℕ → ℕ) (batch : List StoredOutboxMessage) (result : DrainResult) (w : World)
      → IsApart (λ x. x.id) batch
      → All (Stands w.store) batch
      → All
          (λ m. IsSettled m (get (drain_each options clock batch result w).1.store.outbox m.id))
          batch
  unfolding drain_each
  drain_each-IsSettled clock [] result w h k = tt
  drain_each-IsSettled clock (m ∷ rest) result w h k =
      let w' = (process options (clock 0) m w).1 in
      (
        rw
            (drain_each-other (λ n. clock (suc n)) rest _ w' m.id
              (All-map (λ x o. ground (arith, o)) rest h.0))
            (process-IsSettled options quiet (clock 0) m w k.0),
        drain_each-IsSettled (λ n. clock (suc n)) rest _ w' h.1
            (still-Stands (clock 0) m w rest h.0 k.1),
      )

-- A claimed message stands in the table as it was handed out.
claimed-Stands :
    (now : ℕ) (due : List StoredOutboxMessage) (s : MemoryStore) (ds : List StoredOutboxMessage)
    → All (Stands s) ds
    → All (λ d. any (λ e. e.id == d.id) due ≡ true) ds
    → All (λ m. get (update (hold_claimed now due) s.outbox) m.id ≡ some m) (map (hold now) ds)
claimed-Stands now due s [] h k = tt
claimed-Stands now due s (d ∷ ds) h k =
    let held : hold_claimed now due d ≡ hold now d = rw k.0 in
    (
      get-update (λ x. x.id) (hold_claimed now due) s.outbox d.id d h.0 ∙ ap some held,
      claimed-Stands now due s ds h.1 k.1,
    )

each_found :
    (due ds : List StoredOutboxMessage)
    → ((d : StoredOutboxMessage)
        → any (λ e. e.id == d.id) ds ≡ true
        → any (λ e. e.id == d.id) due ≡ true)
    → All (λ d. any (λ e. e.id == d.id) due ≡ true) ds
each_found due [] f = tt
each_found due (d ∷ ds) f =
    (f d (ground (arith, ==_refl d.id)), each_found due ds (λ e h. f e (ground (arith, h))))

pub due-IsApart :
    (now limit : ℕ) (s : MemoryStore)
    → Keyed (λ m. m.id) s.outbox
    → IsApart (λ m. m.id) (due_messages now limit s)
unfolding due_messages
due-IsApart now limit s keyed =
    take-IsApart (λ m. m.id) limit _
      (sort-IsApart (λ m. m.id) _ _
        (select-IsApart (λ m. m.id) (is_due now) _ (Keyed-IsApart (λ m. m.id) s.outbox keyed)))

due_All :
    (P : StoredOutboxMessage → Type 0) (now limit : ℕ) (s : MemoryStore)
    → All P (select (is_due now) (values s.outbox))
    → All P (due_messages now limit s)
unfolding due_messages
due_All P now limit s h = All-take P limit _ (All-sort P _ _ h)

pub due_stand :
    (now limit : ℕ) (s : MemoryStore)
    → Keyed (λ m. m.id) s.outbox
    → All (Stands s) (due_messages now limit s)
due_stand now limit s keyed =
    due_All (Stands s) now limit s
      (All-select (Stands s) (is_due now) _ (every_row (λ m. m.id) s.outbox keyed))

pub due-is_due :
    (now limit : ℕ) (s : MemoryStore) → All (λ m. is_due now m ≡ true) (due_messages now limit s)
due-is_due now limit s =
    due_All (λ m. is_due now m ≡ true) now limit s (select_passes (is_due now) (values s.outbox))

-- Every message that a pass claims is settled by it: it is sent, or it has one attempt more and
-- waits for its next, or it is dead after its last attempt. The rows stand under their ids, and no
-- handler writes to the outbox.
pub drain-IsSettled :
    (options : WorkerOptions) (clock : ℕ → ℕ) (w : World)
    → ((now : ℕ) → IsQuiet (options.handlers now))
    → Keyed (λ m. m.id) w.store.outbox
    → All
        (λ m. IsSettled m (get (drain options clock w).1.store.outbox m.id))
        (claim_outbox (clock 0) options.batch_size w.store).0
unfolding drain claim_outbox
drain-IsSettled options clock w quiet keyed =
    let now = clock 0 in
    let rows = values w.store.outbox in
    let due = due_messages now options.batch_size w.store in
    drain_each-IsSettled options quiet (λ n. clock (suc n)) (map (hold now) due) _ _
      (map-IsApart (λ m. m.id) (hold now) (λ x. refl) due
        (due-IsApart now options.batch_size w.store keyed))
      (claimed-Stands now due w.store due (due_stand now options.batch_size w.store keyed)
        (each_found due due (λ d h. h)))
