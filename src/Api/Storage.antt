-- ===== src/Api/Storage.antt =====
-- apps/api/src/lib/storage.ts: what may be uploaded, and under which key. Signing is not modelled.
use text.Mathlib.Text.{◌==◌ as str_eq}
use Prim.Native.String.{◌++◌ as text_append}
use rescue.Contracts.Commerce.{EvidenceKind}
use rescue.Contracts.Errors.{AppError}
use rescue.Prelude.{List, String, [], any, if◌then◌else◌, ltb, not, ℕ, ◌*◌, ◌==◌, ◌||◌, ◌∷◌}
use rescue.Store.Action.{Result, err, ok}

-- `ALLOWED_EVIDENCE_MIME_TYPES`
abbrev pub allowed_mime_types : List String
allowed_mime_types = "image/jpeg" ∷ "image/png" ∷ "image/webp" ∷ "application/pdf" ∷ []

-- `MAX_EVIDENCE_BYTES`
abbrev pub max_evidence_bytes : ℕ
max_evidence_bytes = 20 * 1_024 * 1_024

unfoldable pub assert_upload_allowed : String → ℕ → Result (Unit {0})
assert_upload_allowed mime_type size_bytes =
    if not (any (λ t. str_eq t mime_type) allowed_mime_types)
    then err (AppError.unsupported_media_type mime_type)
    else if (size_bytes == 0) || ltb max_evidence_bytes size_bytes
    then err AppError.payload_too_large
    else ok tt

-- `EXTENSION_BY_MIME`
abbrev pub extension_by_mime : String → String
extension_by_mime mime_type =
    if str_eq mime_type "image/jpeg"
    then "jpg"
    else if str_eq mime_type "image/png"
    then "png"
    else if str_eq mime_type "image/webp"
    then "webp"
    else "pdf"

abbrev pub kind_text : EvidenceKind → String
kind_text EvidenceKind.pickup_photo = "pickup_photo"
kind_text EvidenceKind.delivery_photo = "delivery_photo"
kind_text EvidenceKind.signature = "signature"
kind_text EvidenceKind.damage_report = "damage_report"

-- The texts of an id and of a day, and the random part of a key.
pub record KeyTexts : Type 0 where
  pub id_text : ℕ → String
  pub day_text : ℕ → String
  pub nonce : String

unfoldable pub build_storage_key : KeyTexts → ℕ → EvidenceKind → String → ℕ → String
build_storage_key texts job_id kind mime_type now = text_append "evidence/" (
    text_append (texts.day_text now) (
      text_append "/" (
        text_append (texts.id_text job_id) (
          text_append "/" (
            text_append (kind_text kind) (
              text_append "-"
                (text_append texts.nonce (text_append "." (extension_by_mime mime_type)))))))))
