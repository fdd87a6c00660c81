-- ===== src/Store/Quotes.antt =====
-- The methods on quotes of apps/api/src/store/memory.ts.
use rescue.Prelude.{
  ℕ, suc, Bool, not, List, [], String, ◌∷◌, Option, none, some, ◌===◌, ◌==◌, if◌then◌else◌, select,
  leb,
}
use rescue.Prelude.Table.{get, set, values}
use rescue.Contracts.Errors.{AppError}
use rescue.Contracts.Commerce.{QuoteStatus, QuoteDecision, quote_status_coded}
use rescue.Outbox.{EventType, Key, Value, optional_words}
use rescue.Store.Types.{MemoryStore, Scope, Actor, Job, StoredQuote, EntityType}
use rescue.Store.Action.{Action, pure, raise}
use rescue.Store.State.{new_id, to_job, visible_job}
use rescue.Store.Jobs.{record_both}

pub record CreateQuote : Type 0 where
  pub job_id : ℕ
  pub organization_id : ℕ
  pub net_cents : ℕ
  pub vat_cents : ℕ
  pub gross_cents : ℕ
  pub vat_rate_basis_points : ℕ
  pub valid_until : ℕ
  pub actor : Actor

abbrev pub sent_quote : ℕ → CreateQuote → ℕ → StoredQuote
sent_quote now q id = record {
  id = id;
  job_id = q.job_id;
  organization_id = q.organization_id;
  status = QuoteStatus.sent;
  net_cents = q.net_cents;
  vat_cents = q.vat_cents;
  gross_cents = q.gross_cents;
  vat_rate_basis_points = q.vat_rate_basis_points;
  valid_until = q.valid_until;
  approved_at = none;
  approved_by_user_id = none;
  created_at = now;
}

unfoldable pub create_quote : ℕ → CreateQuote → Action StoredQuote
unfolding record_both
create_quote now q s = pure (sent_quote now q (new_id s)) (
    record_both now q.job_id q.actor EventType.quote_sent
      ((Key.quote_id, Value.id (new_id s)) ∷ (Key.gross_cents, Value.number q.gross_cents) ∷ [])
      EntityType.quote (new_id s)
      (record s {
        quotes = set s.quotes (new_id s) (sent_quote now q (new_id s));
        drawn = suc s.drawn;
      }))

-- Who may see a quote: never a provider.
abbrev pub quote_visible : StoredQuote → Scope → Bool
quote_visible q Scope.staff = Bool.true
quote_visible q (Scope.organization organization_id) = q.organization_id == organization_id
quote_visible q (Scope.provider _) = Bool.false

unfoldable pub find_quote : ℕ → Scope → MemoryStore → Option StoredQuote
find_quote id scope s = elim (get s.quotes id) [
  | none ↦ none
  | some q ↦ if quote_visible q scope then some q else none
]

abbrev pub quotes_in_scope : ℕ → Scope → MemoryStore → List StoredQuote
quotes_in_scope job_id (Scope.provider _) s = []
quotes_in_scope job_id _ s = select (λ q. q.job_id == job_id) (values s.quotes)

unfoldable pub list_quotes_for_job : ℕ → Scope → Action (List StoredQuote)
unfolding visible_job
list_quotes_for_job job_id scope s = elim (visible_job s job_id scope) [
  | none ↦ raise (AppError.not_found "Job") s
  | some r ↦ pure (quotes_in_scope job_id scope s) s
]

abbrev pub decided_quote : ℕ → QuoteDecision → Actor → StoredQuote → StoredQuote
decided_quote now QuoteDecision.approve actor q = record q {
  status = QuoteStatus.approved;
  approved_at = some now;
  approved_by_user_id = actor.user_id;
}
decided_quote now QuoteDecision.reject actor q = record q { status = QuoteStatus.rejected }

-- `QUOTE_${quote.status}` after a decision
abbrev pub decision_event : QuoteDecision → EventType
decision_event QuoteDecision.approve = EventType.quote_approved
decision_event QuoteDecision.reject = EventType.quote_rejected

-- The quote is written before the job is looked up, and stays written if that fails.
unfoldable pub decide_quote :
    ℕ → ℕ → Scope → QuoteDecision → Option String → Actor → Action (StoredQuote × Job)
unfolding find_quote visible_job to_job record_both
decide_quote now quote_id scope decision reason actor s = elim (find_quote quote_id scope s) [
  | none ↦ raise (AppError.not_found "Quote") s
  | some q ↦
      if not (q.status === QuoteStatus.sent)
      then raise (AppError.conflict "This quote can no longer be decided") s
      else if leb q.valid_until now
      then raise (AppError.conflict "This quote has expired")
          (record s { quotes = set s.quotes quote_id (record q { status = QuoteStatus.expired }) })
      else elim (visible_job s q.job_id scope) [
        | none ↦
            raise (AppError.not_found "Job")
              (record s { quotes = set s.quotes quote_id (decided_quote now decision actor q) })
        | some r ↦
            pure (decided_quote now decision actor q, to_job r)
              (record_both now q.job_id actor (decision_event decision)
                ((Key.quote_id, Value.id q.id) ∷ (Key.reason, optional_words reason) ∷ [])
                EntityType.quote q.id
                (record s { quotes = set s.quotes quote_id (decided_quote now decision actor q) }))
      ]
]
