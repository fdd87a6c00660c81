-- ===== src/Api/Replay.antt =====
-- Retries in apps/api/src/plugins/idempotency.ts: one that was answered, and one that failed.
use rescue.Contracts.Errors.{AppError}
use rescue.Prelude.{sym, ap, if◌then◌else◌, none, subst, true, ◌*◌, ◌+◌, ◌∙◌}
use rescue.Store.Idempotency.{without_key}
use rescue.Api.Idempotency.{request_hash}
use rescue.Store.Action.{Result, err}
use text.Mathlib.Text.{◌==◌ as str_eq}
use text.Mathlib.TextPositions.{eq_refl}
use rescue.Api.Idempotency.{
  KeyedRequest, Reply, Runner, Work, answer, key_of, record_for, run_once, run_work,
}
use rescue.Prelude.{
  ==_refl, Bool-cases, List, Option-cases, String, [], arith, false, find, inl, inr, leb, refl,
  some, ℕ, ◌<◌, ◌∷◌, ◌≡◌,
}
use rescue.Store.Action.{Result-cases, ok}
use rescue.Api.Lookup.{run_once_absent, run_once_misses, run_once_finds}
use rescue.Store.Idempotency.{
  find_idempotency_record, has_idempotency_key, put_record, save_idempotency_record,
}
use rescue.Store.Types.{MemoryStore, StoredIdempotencyRecord}

find-put_record :
    (r : StoredIdempotencyRecord) (xs : List StoredIdempotencyRecord)
    → find (has_idempotency_key r.organization_id r.key) (put_record r xs) ≡ some r
find-put_record r [] = rw (==_refl r.organization_id, eq_refl r.key) refl
find-put_record r (x ∷ xs) = elim (Bool-cases (has_idempotency_key r.organization_id r.key x)) [
  | inl e ↦ rw (e, ==_refl r.organization_id, eq_refl r.key) refl
  | inr e ↦ rw (e, e, find-put_record r xs) refl
]

-- A record that was saved is found until it expires.
find-save :
    (now : ℕ) (r : StoredIdempotencyRecord) (s t : MemoryStore)
    → find (has_idempotency_key r.organization_id r.key) t.idempotency
      ≡ find (has_idempotency_key r.organization_id r.key) (save_idempotency_record r s).idempotency
    → now < r.expires_at
    → find_idempotency_record now r.organization_id r.key t ≡ (some r, t)
unfolding find_idempotency_record save_idempotency_record
find-save now r s t same live =
    let fresh : leb r.expires_at now ≡ false = ground (arith, live) in
    simp (find_idempotency_record, same, find-put_record r s.idempotency, fresh)

-- What a run leaves, when its answer is not a replay.
abbrev Ran : Runner → KeyedRequest → ℕ → Result Reply × MemoryStore → Type 0
Ran runner request later (err _, s) = Unit
Ran runner request later (ok reply, s) =
    reply.replayed ≡ false
    → (key : String) × (t : MemoryStore) × (key_of request.key_header ≡ some key)
      × (s ≡ save_idempotency_record (record_for runner request key later reply.response) t)

answer-Ran :
    (runner : Runner) (request : KeyedRequest) (later : ℕ) (r : StoredIdempotencyRecord)
    (s : MemoryStore)
    → Ran runner request later (answer runner request r s)
unfolding answer
answer-Ran runner request later r s =
    elim (Bool-cases (str_eq r.request_hash (request_hash runner.sha256_hex request))) [
      | inl e ↦ rw (answer, e) (λ bad. cc)
      | inr e ↦ rw (answer, e) tt
    ]

run_once-Ran :
    (runner : Runner) (request : KeyedRequest) (work : Work) (now later : ℕ) (s : MemoryStore)
    → Ran runner request later (run_once runner request work now later s)
unfolding run_work
run_once-Ran runner request work now later s = elim (Option-cases (key_of request.key_header)) [
  | inl f ↦ rw (run_once_absent runner request now s f work later) tt
  | inr (key, f) ↦
      let (existing, t) = find_idempotency_record now runner.organization_id key s in
      elim (Option-cases existing) [
        | inr (r, g) ↦
            rw (run_once_finds runner request now key s f work later r g)
              (answer-Ran runner request later r t)
        | inl g ↦ elim (Result-cases (work t).0) [
          | inl (x, h) ↦
              rw (run_once_misses runner request now key s f work later g, run_work, h) tt
          | inr (response, h) ↦
              rw (run_once_misses runner request now key s f work later g, run_work, h)
                (λ new. (key, (work t).1, f, refl))
        ]
      ]
]

-- Once a request has been answered, and as long as the record of its key stands as it was and has
-- not expired, a request with the same key runs nothing, whatever else has changed in the store: it
-- gets the same status and body again if its method, path and body have the same digest, and is
-- refused otherwise.
pub run_once_again :
    (runner : Runner) (request again : KeyedRequest) (work other : Work) (now later now' later' : ℕ)
    (s s' t : MemoryStore) (reply : Reply) (key : String)
    → run_once runner request work now later s ≡ (ok reply, s')
    → reply.replayed ≡ false
    → again.key_header ≡ request.key_header
    → key_of request.key_header ≡ some key
    → find (has_idempotency_key runner.organization_id key) t.idempotency
      ≡ find (has_idempotency_key runner.organization_id key) s'.idempotency
    → now' < later + runner.ttl_hours * 3_600_000
    → run_once runner again other now' later' t ≡ (
      if str_eq (request_hash runner.sha256_hex request) (request_hash runner.sha256_hex again)
          then ok (record { replayed = true; response = reply.response })
          else err AppError.idempotency_key_reused,
      t,
    )
unfolding answer
run_once_again runner request again work other now later now' later' s s' t reply key e new header
      named same live =
    let (k, u, own, saved) =
      subst (Ran runner request later) e (run_once-Ran runner request work now later s) new in
    let one : k ≡ key = cc in
    let found =
      find-save now' (record_for runner request k later reply.response) u t
        (ap (λ x. find (has_idempotency_key runner.organization_id x) t.idempotency) one
          ∙ same
          ∙ rw saved (
              ap
                (λ x.
                  find (has_idempotency_key runner.organization_id x)
                    (save_idempotency_record (record_for runner request k later reply.response)
                      u).idempotency)
                (sym one)))
        live in
    let repeats =
      run_once_finds runner again now' k t (ap key_of header ∙ own) other later'
        (record_for runner request k later reply.response) (ap (λ r. r.0) found) in
    elim (Bool-cases
      (str_eq (request_hash runner.sha256_hex request) (request_hash runner.sha256_hex again))) [
        | inl f ↦ simp (repeats, found, answer, f)
        | inr f ↦ simp (repeats, found, answer, f)
      ]

none-without_key :
    (organization_id : ℕ) (key : String) (xs : List StoredIdempotencyRecord)
    → find (has_idempotency_key organization_id key) (without_key organization_id key xs) ≡ none
none-without_key organization_id key [] = refl
none-without_key organization_id key (x ∷ xs) =
    elim (Bool-cases (has_idempotency_key organization_id key x)) [
      | inl e ↦ rw (e, none-without_key organization_id key xs) refl
      | inr e ↦ rw (e, e, none-without_key organization_id key xs) refl
    ]

-- After a lookup that finds nothing, another finds nothing.
pub still_none :
    (now now' organization_id : ℕ) (key : String) (s t : MemoryStore)
    → (find_idempotency_record now organization_id key s).0 ≡ none
    → t.idempotency ≡ (find_idempotency_record now organization_id key s).1.idempotency
    → find_idempotency_record now' organization_id key t ≡ (none, t)
unfolding find_idempotency_record
still_none now now' organization_id key s t e same =
    elim (Option-cases (find (has_idempotency_key organization_id key) s.idempotency)) [
      | inl f ↦ simp (find_idempotency_record, same, f)
      | inr (r, f) ↦ elim (Bool-cases (leb r.expires_at now)) [
        | inl g ↦ simp (
          find_idempotency_record,
          same,
          f,
          g,
          none-without_key organization_id key s.idempotency,
        )
        | inr g ↦ absurd (ground (arith, e, f, g))
      ]
    ]

run_work_fails :
    (runner : Runner) (request : KeyedRequest) (key : String) (later : ℕ) (work : Work)
    (s u : MemoryStore) (error : AppError)
    → work s ≡ (err error, u)
    → run_work runner request key later work s ≡ (err error, u)
unfolding run_work
run_work_fails runner request key later work s u error failed = simp (run_work, failed)

-- When the work of a request throws and has stored no record itself, the error goes to the caller,
-- the store is as the work left it, and the next request with the key runs its own work.
pub run_once_fails :
    (runner : Runner) (request again : KeyedRequest) (work other : Work) (now later now' later' : ℕ)
    (s u : MemoryStore) (key : String) (error : AppError)
    → key_of request.key_header ≡ some key
    → again.key_header ≡ request.key_header
    → (find_idempotency_record now runner.organization_id key s).0 ≡ none
    → work (find_idempotency_record now runner.organization_id key s).1 ≡ (err error, u)
    → u.idempotency ≡ (find_idempotency_record now runner.organization_id key s).1.idempotency
    → (run_once runner request work now later s ≡ (err error, u))
      × (run_once runner again other now' later' u ≡ run_work runner again key later' other u)
unfolding run_work
run_once_fails runner request again work other now later now' later' s u key error own key_same gone
      failed kept =
    (
      run_once_misses runner request now key s own work later gone
          ∙ run_work_fails runner request key later work _ u error failed,
      let empty = still_none now now' runner.organization_id key s u gone kept in
          run_once_misses runner again now' key u (ap key_of key_same ∙ own) other later'
            (ap (λ r. r.0) empty)
          ∙ ap (λ r. run_work runner again key later' other r.1) empty,
    )
