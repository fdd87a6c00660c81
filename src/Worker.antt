-- ===== src/Worker.antt =====
-- apps/api/src/worker: what the handlers of outbox messages act on. Beside the store there is the
-- world outside, as the calls that have gone to the payment gateway and the notifications that
-- have been sent. A handler returns or throws; what it did before it threw stays done.
pub mod Payments
pub mod Once
pub mod Notices
pub mod Drain
pub mod Keeps
pub mod Settled
pub mod Passes
pub mod Left
pub mod Attempts
pub mod Unheard
pub mod Tests
use rescue.Prelude.{List, Option, String}
use rescue.Prelude.Int.{ℤ}
use rescue.Store.Action.{Result, err, ok}
use rescue.Store.Types.{MemoryStore, StoredOutboxMessage}
use rescue.Prelude.{ℕ}

-- The calls of `PaymentGateway` that the handlers make. The key under which the gateway takes two
-- authorisations or two payouts for one follows from the job and the provider.
pub data GatewayCall : Type 0 where
  authorise : ℕ → ℕ → GatewayCall
  capture : String → ℤ → GatewayCall
  payout : ℕ → ℕ → ℕ → GatewayCall

pub data NotificationKind : Type 0 where
  job_received quote_ready quote_decided offer_received offer_won offer_lost : NotificationKind
  job_started job_completed job_cancelled dispatch_escalation : NotificationKind

-- The name of an addressee: a fixed word, a carrier's name, or the organisation's id.
pub data Addressee : Type 0 where
  disposition partner customer : Addressee
  carrier : String → Addressee
  organization : ℕ → Addressee

-- Every notification is an e-mail. Its subject and body follow from its kind and the message.
pub record Notification : Type 0 where
  pub kind : NotificationKind
  pub email : Option String
  pub name : Addressee
  pub job_id : Option ℕ

pub record World : Type 0 where
  pub store : MemoryStore
  pub calls : List GatewayCall
  pub sent : List Notification

abbrev pub Handler : Type 0
Handler = StoredOutboxMessage → World → Result (Unit {0}) × World

-- How a handler ends with nothing to do.
abbrev pub done : World → Result (Unit {0}) × World
done w = (ok tt, w)

-- What a method of the store returned, without its value.
abbrev pub finished : {A : Type 0} → Result A → Result (Unit {0})
finished (ok _) = ok tt
finished (err e) = err e
