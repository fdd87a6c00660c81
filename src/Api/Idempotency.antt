-- ===== src/Api/Idempotency.antt =====
-- apps/api/src/plugins/idempotency.ts and `requestHash` of apps/api/src/lib/crypto.ts. A body is
-- its JSON text. The digest is a parameter, as is the canonical text of the request's body.
use text.Mathlib.Text.{◌==◌ as str_eq}
use Prim.Native.String.{◌++◌ as text_append}
use rescue.Api.Header.{HeaderValue, first_chars, head_of, trim}
use rescue.Contracts.Errors.{AppError}
use rescue.Prelude.{Bool, Option, String, false, if◌then◌else◌, none, some, true, ℕ, ◌*◌, ◌+◌}
use rescue.Store.Action.{Action, err, ok, pure, raise, ◌>>=◌}
use rescue.Store.Idempotency.{find_idempotency_record, save_idempotency_record}
use rescue.Store.Types.{StoredIdempotencyRecord}

pub record Response : Type 0 where
  pub status_code : ℕ
  pub body : String

-- What the client sees, with the header `idempotent-replay`.
pub record Reply : Type 0 where
  pub replayed : Bool
  pub response : Response

abbrev pub Work : Type 0
Work = Action Response

-- The method is in capitals, the path is the route's, the body is in its canonical text.
pub record KeyedRequest : Type 0 where
  pub key_header : HeaderValue
  pub method : String
  pub path : String
  pub body_text : String

-- The digest, the life of a record, and the tenant whose key it is.
pub record Runner : Type 0 where
  pub sha256_hex : String → String
  pub ttl_hours : ℕ
  pub organization_id : ℕ

unfoldable pub request_hash : (String → String) → KeyedRequest → String
request_hash sha256_hex r =
    sha256_hex
      (text_append r.method (text_append " " (text_append r.path (text_append " " r.body_text))))

-- The header's first value.
abbrev pub first_value : HeaderValue → Option String
first_value HeaderValue.absent = none
first_value (HeaderValue.single text) = some text
first_value (HeaderValue.many texts) = head_of texts

-- The key under which a request is stored, if it has one.
unfoldable pub key_of : HeaderValue → Option String
key_of h = elim (first_value h) [
  | none ↦ none
  | some text ↦ if str_eq (trim text) "" then none else some (first_chars 200 (trim text))
]

abbrev pub record_for : Runner → KeyedRequest → String → ℕ → Response → StoredIdempotencyRecord
record_for runner request key later response = record {
  key = key;
  organization_id = runner.organization_id;
  method = request.method;
  path = request.path;
  request_hash = request_hash runner.sha256_hex request;
  status_code = response.status_code;
  response_body = response.body;
  expires_at = later + runner.ttl_hours * 3_600_000;
}

-- What is left to do when no record is found: the work, and its record.
unfoldable pub run_work : Runner → KeyedRequest → String → ℕ → Work → Action Reply
run_work runner request key later work s =
    let (result, s') = work s in
    elim result [
      | err e ↦ raise e s'
      | ok response ↦
          pure (record { replayed = false; response = response })
            (save_idempotency_record (record_for runner request key later response) s')
    ]

abbrev pub replay_of : StoredIdempotencyRecord → Reply
replay_of r = record {
  replayed = true;
  response = record { status_code = r.status_code; body = r.response_body };
}

-- What a record of the key answers.
unfoldable pub answer : Runner → KeyedRequest → StoredIdempotencyRecord → Action Reply
answer runner request r s =
    if str_eq r.request_hash (request_hash runner.sha256_hex request)
    then pure (replay_of r) s
    else raise AppError.idempotency_key_reused s

-- What looking a key up comes to: its record, or the key alone.
pub data Found : Type 0 where
  repeats : StoredIdempotencyRecord → Found
  begins : String → Found

-- `run` up to its first wait.
unfoldable pub look_up : Runner → KeyedRequest → ℕ → Action Found
look_up runner request now s = elim (key_of request.key_header) [
  | none ↦ raise AppError.idempotency_key_required s
  | some key ↦
      let (existing, s') = find_idempotency_record now runner.organization_id key s in
      elim existing [ some r ↦ pure (Found.repeats r) s' | none ↦ pure (Found.begins key) s' ]
]

-- `run` from there on.
unfoldable pub proceed : Runner → KeyedRequest → Work → ℕ → Found → Action Reply
proceed runner request work later (Found.repeats r) = answer runner request r
proceed runner request work later (Found.begins key) = run_work runner request key later work

-- `run`. The clock is read for the lookup, and again for the record.
unfoldable pub run_once : Runner → KeyedRequest → Work → ℕ → ℕ → Action Reply
run_once runner request work now later =
    look_up runner request now >>= λ found. proceed runner request work later found
