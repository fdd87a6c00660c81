-- ===== src/Contracts/Errors.antt =====
-- The errors of apps/api/src/lib/errors.ts and the codes of packages/contracts/src/common.ts. A
-- thrown AppError is a value; where a message is put together from values, those are kept.
use rescue.Prelude.{String}
use rescue.Contracts.Job.{JobStatus}

pub data ErrorCode : Type 0 where
  validation_error_code unauthenticated_code forbidden_code organization_required_code : ErrorCode
  provider_context_required_code not_found_code conflict_code : ErrorCode
  idempotency_key_required_code idempotency_key_reused_code : ErrorCode
  invalid_state_transition_code offer_expired_code offer_already_taken_code : ErrorCode
  no_eligible_provider_code unsupported_media_type_code payload_too_large_code : ErrorCode
  rate_limited_code internal_error_code : ErrorCode

pub data AppError : Type 0 where
  validation_error unauthenticated forbidden not_found conflict : String → AppError
  organization_required provider_context_required : AppError
  idempotency_key_required idempotency_key_reused : AppError
  -- a change of status that is refused
  invalid_transition : JobStatus → JobStatus → AppError
  -- an action that the job's status does not allow
  invalid_state : String → AppError
  offer_expired : AppError
  offer_already_taken : String → AppError
  no_eligible_provider : AppError
  unsupported_media_type : String → AppError
  payload_too_large : AppError
  -- an Error that is not an AppError, by its text
  fault : String → AppError

unfoldable pub error_code : AppError → ErrorCode
error_code (AppError.validation_error _) = ErrorCode.validation_error_code
error_code (AppError.unauthenticated _) = ErrorCode.unauthenticated_code
error_code (AppError.forbidden _) = ErrorCode.forbidden_code
error_code (AppError.not_found _) = ErrorCode.not_found_code
error_code (AppError.conflict _) = ErrorCode.conflict_code
error_code AppError.organization_required = ErrorCode.organization_required_code
error_code AppError.provider_context_required = ErrorCode.provider_context_required_code
error_code AppError.idempotency_key_required = ErrorCode.idempotency_key_required_code
error_code AppError.idempotency_key_reused = ErrorCode.idempotency_key_reused_code
error_code (AppError.invalid_transition _ _) = ErrorCode.invalid_state_transition_code
error_code (AppError.invalid_state _) = ErrorCode.invalid_state_transition_code
error_code AppError.offer_expired = ErrorCode.offer_expired_code
error_code (AppError.offer_already_taken _) = ErrorCode.offer_already_taken_code
error_code AppError.no_eligible_provider = ErrorCode.no_eligible_provider_code
error_code (AppError.unsupported_media_type _) = ErrorCode.unsupported_media_type_code
error_code AppError.payload_too_large = ErrorCode.payload_too_large_code
error_code (AppError.fault _) = ErrorCode.internal_error_code
