-- ===== src/Api/Lookup.antt =====
-- What the lookup of apps/api/src/plugins/idempotency.ts leads to.
use rescue.Api.Idempotency.{
  Found, KeyedRequest, Runner, Work, Reply, request_hash, answer, key_of, look_up, proceed,
  run_once, run_work,
}
use rescue.Contracts.Errors.{AppError}
use rescue.Store.Action.{Result-cases}
use text.Mathlib.Text.{◌==◌ as str_eq}
use rescue.Prelude.{
  Bool-cases, inl, inr, arith, true, false, Option-cases, sym, ap, ◌∙◌, ◌⊎◌, String, none, refl,
  some, ℕ, ◌≡◌,
}
use rescue.Store.Action.{bind_eq, err, ok}
use rescue.Store.Idempotency.{save_idempotency_record, find_idempotency_record}
use rescue.Store.Types.{MemoryStore, StoredIdempotencyRecord}

module _ (runner : Runner) (request : KeyedRequest) (now : ℕ) (key : String) (s : MemoryStore)
    (named : key_of request.key_header ≡ some key) where
  pub look_up_misses :
      (find_idempotency_record now runner.organization_id key s).0 ≡ none
      → look_up runner request now s
        ≡ (ok (Found.begins key), (find_idempotency_record now runner.organization_id key s).1)
  unfolding look_up
  look_up_misses f = rw (look_up, named, f) refl

  pub look_up_finds :
      (r : StoredIdempotencyRecord)
      → (find_idempotency_record now runner.organization_id key s).0 ≡ some r
      → look_up runner request now s
        ≡ (ok (Found.repeats r), (find_idempotency_record now runner.organization_id key s).1)
  unfolding look_up
  look_up_finds r f = rw (look_up, named, f) refl

  pub run_once_misses :
      (work : Work) (later : ℕ)
      → (find_idempotency_record now runner.organization_id key s).0 ≡ none
      → run_once runner request work now later s
        ≡ run_work runner request key later work
            (find_idempotency_record now runner.organization_id key s).1
  unfolding run_once proceed
  run_once_misses work later f =
      bind_eq (look_up runner request now) (λ found. proceed runner request work later found) s _
        (Found.begins key) (look_up_misses f)

  pub run_once_finds :
      (work : Work) (later : ℕ) (r : StoredIdempotencyRecord)
      → (find_idempotency_record now runner.organization_id key s).0 ≡ some r
      → run_once runner request work now later s
        ≡ answer runner request r (find_idempotency_record now runner.organization_id key s).1
  unfolding run_once proceed
  run_once_finds work later r f =
      bind_eq (look_up runner request now) (λ found. proceed runner request work later found) s _
        (Found.repeats r) (look_up_finds r f)

pub run_once_absent :
    (runner : Runner) (request : KeyedRequest) (now : ℕ) (s : MemoryStore)
    → key_of request.key_header ≡ none
    → (work : Work) (later : ℕ)
    → run_once runner request work now later s ≡ (err AppError.idempotency_key_required, s)
unfolding run_once look_up
run_once_absent runner request now s f work later = rw (run_once, look_up, f) refl

answer_ok :
    (runner : Runner) (request : KeyedRequest) (r : StoredIdempotencyRecord) (s t : MemoryStore)
    (reply : Reply)
    → answer runner request r s ≡ (ok reply, t)
    → (reply.replayed ≡ true) × (t ≡ s)
unfolding answer
answer_ok runner request r s t reply e =
    elim (Bool-cases (str_eq r.request_hash (request_hash runner.sha256_hex request))) [
      | inl f ↦ (ground (arith, e, f), ground (arith, e, f))
      | inr f ↦ absurd (ground (arith, e, f))
    ]

run_work_ok :
    (runner : Runner) (request : KeyedRequest) (key : String) (later : ℕ) (work : Work)
    (s t : MemoryStore) (reply : Reply)
    → run_work runner request key later work s ≡ (ok reply, t)
    → (reply.replayed ≡ false)
      × (v : MemoryStore) × (work s ≡ (ok reply.response, v))
      × (t.offers ≡ v.offers)
unfolding run_work save_idempotency_record
run_work_ok runner request key later work s t reply e = elim (Result-cases (work s).0) [
  | inl (x, f) ↦ absurd (ground (arith, e, f))
  | inr (response, f) ↦
      (ground (arith, e, f), (work s).1, ground (arith, e, f), ground (arith, e, f))
]

-- An answer that is a repeated one leaves the offers, and any other is the work's.
abbrev pub Answers : Work → MemoryStore → MemoryStore → Reply → Type 0
Answers work s t reply =
    ((reply.replayed ≡ true) × (t.offers ≡ s.offers))
    ⊎ ((reply.replayed ≡ false)
        × (u : MemoryStore) × (v : MemoryStore) × (u.offers ≡ s.offers)
        × (work u ≡ (ok reply.response, v))
        × (t.offers ≡ v.offers))

find_keeps_offers :
    (now organization_id : ℕ) (key : String) (s : MemoryStore)
    → (find_idempotency_record now organization_id key s).1.offers ≡ s.offers
unfolding find_idempotency_record
find_keeps_offers now organization_id key s = ground arith

pub run_once_ok :
    (runner : Runner) (request : KeyedRequest) (work : Work) (now later : ℕ) (s t : MemoryStore)
    (reply : Reply)
    → run_once runner request work now later s ≡ (ok reply, t)
    → Answers work s t reply
run_once_ok runner request work now later s t reply e =
    elim (Option-cases (key_of request.key_header)) [
      | inl f ↦
          let refused = sym (run_once_absent runner request now s f work later) ∙ e in absurd (cc)
      | inr (key, f) ↦
          let u = (find_idempotency_record now runner.organization_id key s).1 in
          let same = find_keeps_offers now runner.organization_id key s in
          elim (Option-cases (find_idempotency_record now runner.organization_id key s).0) [
            | inr (r, g) ↦
                let (old, kept) =
                  answer_ok runner request r u t reply
                    (sym (run_once_finds runner request now key s f work later r g) ∙ e) in
                inl (old, ap (λ x. x.offers) kept ∙ same)
            | inl g ↦
                let (new, v, made, ended) =
                  run_work_ok runner request key later work u t reply
                    (sym (run_once_misses runner request now key s f work later g) ∙ e) in
                inr (new, u, v, same, made, ended)
          ]
    ]
