-- ===== src/Contracts/Commerce.antt =====
-- packages/contracts/src/commerce.ts: quotes, offers, assignments and evidence.
use rescue.Prelude.{ℕ, ◌≡◌, Coded, arith}

pub data QuoteStatus : Type 0 where
  draft sent approved rejected expired : QuoteStatus

abbrev pub quote_status_code : QuoteStatus → ℕ
quote_status_code QuoteStatus.draft = 0
quote_status_code QuoteStatus.sent = 1
quote_status_code QuoteStatus.approved = 2
quote_status_code QuoteStatus.rejected = 3
quote_status_code QuoteStatus.expired = 4

pub quote_status_code-injective :
    (a b : QuoteStatus) → quote_status_code a ≡ quote_status_code b → a ≡ b
quote_status_code-injective a b h = ground arith

instance abbrev pub quote_status_coded : Coded QuoteStatus
quote_status_coded = record {
  code = quote_status_code;
  code-injective = quote_status_code-injective;
}

pub data QuoteDecision : Type 0 where
  approve reject : QuoteDecision

pub data OfferStatus : Type 0 where
  pending accepted declined expired withdrawn : OfferStatus

abbrev pub offer_status_code : OfferStatus → ℕ
offer_status_code OfferStatus.pending = 0
offer_status_code OfferStatus.accepted = 1
offer_status_code OfferStatus.declined = 2
offer_status_code OfferStatus.expired = 3
offer_status_code OfferStatus.withdrawn = 4

pub offer_status_code-injective :
    (a b : OfferStatus) → offer_status_code a ≡ offer_status_code b → a ≡ b
offer_status_code-injective a b h = ground arith

instance abbrev pub offer_status_coded : Coded OfferStatus
offer_status_coded = record {
  code = offer_status_code;
  code-injective = offer_status_code-injective;
}

pub data AssignmentStatus : Type 0 where
  active fell_through completed : AssignmentStatus

abbrev pub assignment_status_code : AssignmentStatus → ℕ
assignment_status_code AssignmentStatus.active = 0
assignment_status_code AssignmentStatus.fell_through = 1
assignment_status_code AssignmentStatus.completed = 2

pub assignment_status_code-injective :
    (a b : AssignmentStatus) → assignment_status_code a ≡ assignment_status_code b → a ≡ b
assignment_status_code-injective a b h = ground arith

instance abbrev pub assignment_status_coded : Coded AssignmentStatus
assignment_status_coded = record {
  code = assignment_status_code;
  code-injective = assignment_status_code-injective;
}

pub data EvidenceKind : Type 0 where
  pickup_photo delivery_photo signature damage_report : EvidenceKind

abbrev pub evidence_kind_code : EvidenceKind → ℕ
evidence_kind_code EvidenceKind.pickup_photo = 0
evidence_kind_code EvidenceKind.delivery_photo = 1
evidence_kind_code EvidenceKind.signature = 2
evidence_kind_code EvidenceKind.damage_report = 3

pub evidence_kind_code-injective :
    (a b : EvidenceKind) → evidence_kind_code a ≡ evidence_kind_code b → a ≡ b
evidence_kind_code-injective a b h = ground arith

instance abbrev pub evidence_kind_coded : Coded EvidenceKind
evidence_kind_coded = record {
  code = evidence_kind_code;
  code-injective = evidence_kind_code-injective;
}

pub data EvidenceStatus : Type 0 where
  requested uploaded rejected : EvidenceStatus

abbrev pub evidence_status_code : EvidenceStatus → ℕ
evidence_status_code EvidenceStatus.requested = 0
evidence_status_code EvidenceStatus.uploaded = 1
evidence_status_code EvidenceStatus.rejected = 2

pub evidence_status_code-injective :
    (a b : EvidenceStatus) → evidence_status_code a ≡ evidence_status_code b → a ≡ b
evidence_status_code-injective a b h = ground arith

instance abbrev pub evidence_status_coded : Coded EvidenceStatus
evidence_status_coded = record {
  code = evidence_status_code;
  code-injective = evidence_status_code-injective;
}
