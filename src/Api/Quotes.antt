-- ===== src/Api/Quotes.antt =====
-- apps/api/src/routes/quotes.ts: the endpoints that price a job, decide on the price, and show the
-- money. A request reads its clock once, and once more for its record.
use rescue.Contracts.Commerce.{quote_status_coded}
use rescue.Contracts.Job.{job_status_coded}
use rescue.Api.Auth.{AuthContext, require_auth, require_organization, require_role}
use rescue.Api.Guards.{of_result, require_job}
use rescue.Api.Idempotency.{KeyedRequest, Reply, Runner, Work, run_once}
use rescue.Api.Jobs.{dispatch_roles}
use rescue.Contracts.Auth.{UserRole}
use rescue.Contracts.Commerce.{QuoteDecision}
use rescue.Contracts.Errors.{AppError}
use rescue.Contracts.Job.{JobStatus}
use rescue.Contracts.Money.{vat_cents}
use rescue.Outbox.{EventType, Key, Value}
use rescue.Payments.{LedgerSummary, summarise_ledger}
use rescue.Prelude.{
  Bool, List, Option, String, [], if◌then◌else◌, none, not, some, true, ℕ, ◌*◌, ◌+◌, ◌===◌, ◌==◌,
  ◌∷◌,
}
use rescue.Store.Action.{Action, pure, raise, ◌>>=◌}
use rescue.Store.Jobs.{TransitionInput, transition_job}
use rescue.Store.Ledger.{list_ledger}
use rescue.Store.Quotes.{CreateQuote, create_quote, decide_quote, list_quotes_for_job}
use rescue.Store.Types.{Actor, Job, StoredLedgerEntry, StoredQuote}

pub record QuoteInput : Type 0 where
  pub net_cents : ℕ
  pub vat_rate_basis_points : ℕ
  pub valid_for_hours : ℕ
  -- the net amounts of the lines
  pub breakdown : Option (List ℕ)

abbrev pub total_of : List ℕ → ℕ
total_of [] = 0
total_of (n ∷ rest) = n + total_of rest

-- Whether the lines, if there are any, add up to the net amount.
unfoldable pub adds_up : QuoteInput → Bool
adds_up input = elim input.breakdown [
  | none ↦ true
  | some [] ↦ true
  | some (n ∷ rest) ↦ total_of (n ∷ rest) == input.net_cents
]

-- The JSON text of a quote and its job.
abbrev pub QuoteView : Type 0
QuoteView = StoredQuote → Job → String

abbrev pub new_quote : ℕ → Job → QuoteInput → ℕ → Actor → CreateQuote
new_quote now job input vat actor = record {
  job_id = job.id;
  organization_id = job.organization_id;
  net_cents = input.net_cents;
  vat_cents = vat;
  gross_cents = input.net_cents + vat;
  vat_rate_basis_points = input.vat_rate_basis_points;
  valid_until = now + input.valid_for_hours * 3_600_000;
  actor = actor;
}

abbrev pub to_quoted : AuthContext → Job → StoredQuote → TransitionInput
to_quoted auth job quote = record {
  job_id = job.id;
  scope = auth.scope;
  to = JobStatus.quoted;
  actor = auth.actor;
  event_type = EventType.job_quoted;
  payload =
      (Key.quote_id, Value.id quote.id) ∷ (Key.gross_cents, Value.number quote.gross_cents) ∷ [];
  approved = none;
}

-- The work of `POST /jobs/:id/quotes`.
unfoldable pub quoting : QuoteView → ℕ → AuthContext → Job → QuoteInput → ℕ → Work
quoting view now auth job input vat =
    create_quote now (new_quote now job input vat auth.actor) >>= λ quote.
    transition_job now (to_quoted auth job quote) >>= λ updated.
    pure (record { status_code = 201; body = view quote updated })

-- `vatCents` throws an error that is not an AppError.
unfoldable pub require_vat : QuoteInput → Action ℕ
require_vat input s = elim (vat_cents input.net_cents input.vat_rate_basis_points) [
  | none ↦ raise (AppError.fault "netCents must be a non-negative safe integer") s
  | some vat ↦ pure vat s
]

-- What a job and a price must be for a quote.
unfoldable pub check_quotable : Job → QuoteInput → Action (Unit {0})
check_quotable job input s =
    if not (job.status === JobStatus.triaged)
    then raise (AppError.invalid_state "A job must be triaged before it can be quoted") s
    else if not (adds_up input)
    then raise (AppError.validation_error "The breakdown lines do not total netCents") s
    else pure tt s

-- `POST /jobs/:id/quotes`
unfoldable pub post_quote :
    QuoteView → Runner → ℕ → ℕ → Option AuthContext → KeyedRequest → ℕ → QuoteInput → Action Reply
post_quote view runner now later caller request id input =
    of_result (require_role dispatch_roles caller) >>= λ auth. require_job id auth.scope >>= λ job.
    check_quotable job input >>= λ _. require_vat input >>= λ vat.
    run_once (record runner { organization_id = job.organization_id }) request
      (quoting view now auth job input vat) now later

-- `GET /jobs/:id/quotes`
unfoldable pub get_quotes : Option AuthContext → ℕ → Action (List StoredQuote)
get_quotes caller id = of_result (require_auth caller) >>= λ auth. list_quotes_for_job id auth.scope

abbrev pub deciding_roles : List UserRole
deciding_roles = UserRole.customer_admin ∷ UserRole.admin ∷ []

-- The work of `POST /quotes/:quoteId/decision`.
unfoldable pub deciding : QuoteView → ℕ → AuthContext → ℕ → QuoteDecision → Option String → Work
deciding view now auth quote_id decision reason =
    decide_quote now quote_id auth.scope decision reason auth.actor >>= λ decided.
    pure (record { status_code = 200; body = view decided.0 decided.1 })

-- `POST /quotes/:quoteId/decision`
unfoldable pub post_decision :
    QuoteView
    → Runner
    → ℕ
    → ℕ
    → Option AuthContext
    → KeyedRequest
    → ℕ
    → QuoteDecision
    → Option String
    → Action Reply
post_decision view runner now later caller request quote_id decision reason =
    of_result (require_organization caller) >>= λ owner.
    of_result (require_role deciding_roles caller) >>= λ _.
    run_once (record runner { organization_id = owner.1 }) request
      (deciding view now owner.0 quote_id decision reason) now later

abbrev pub money_roles : List UserRole
money_roles = UserRole.dispatcher ∷ UserRole.compliance ∷ UserRole.admin ∷ []

-- `GET /jobs/:id/ledger`
unfoldable pub get_ledger : Option AuthContext → ℕ → Action (List StoredLedgerEntry × LedgerSummary)
get_ledger caller id = of_result (require_role money_roles caller) >>= λ auth.
    list_ledger id auth.scope >>= λ entries. pure (entries, summarise_ledger entries)
