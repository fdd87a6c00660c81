-- ===== src/Outbox/Keys.antt =====
-- The keys of apps/api/src/lib/outbox.ts: a key is the same as itself.
use text.Mathlib.TextPositions.{eq_refl}
use rescue.Contracts.Ops.{outbox_topic_code}
use rescue.Outbox.{DedupeKey, Value, key_eq, value_eq, values_eq}
use rescue.Prelude.{==_refl, List, [], refl, true, ◌∷◌, ◌≡◌}

value_eq_refl : (v : Value) → value_eq v v ≡ true
unfolding value_eq
value_eq_refl (Value.id n) = ==_refl n
value_eq_refl (Value.number n) = ==_refl n
value_eq_refl (Value.words t) = eq_refl t
value_eq_refl (Value.job_type t) = ==_refl _
value_eq_refl (Value.status s) = ==_refl _
value_eq_refl (Value.escalation r) = ==_refl _
value_eq_refl (Value.event e) = ==_refl _
value_eq_refl (Value.vehicle c) = ==_refl _
value_eq_refl (Value.route r) = ==_refl _
value_eq_refl (Value.evidence k) = ==_refl _
value_eq_refl Value.undefined = refl

values_eq_refl : (vs : List Value) → values_eq vs vs ≡ true
unfolding values_eq
values_eq_refl [] = refl
values_eq_refl (v ∷ vs) = rw (value_eq_refl v, values_eq_refl vs)

pub key_eq_refl : (k : DedupeKey) → key_eq k k ≡ true
unfolding key_eq
key_eq_refl k =
    rw (==_refl k.job_id, values_eq_refl k.discriminator, ==_refl (outbox_topic_code k.topic))
