-- ===== src/Failure.antt =====
-- The errors of the provisioning control plane (infra/provisioning/src/domain.ts).
use esig_suite.Prelude.{Bool, false}

pub data SafeErrorCode : Type 0 where
  invalid_event invalid_order invalid_state invalid_step_order : SafeErrorCode
  mode_mismatch store_conflict provider_unavailable provider_invalid_request : SafeErrorCode
  provider_auth_failed provider_rate_limited provider_conflict provider_not_found : SafeErrorCode
  provider_transient provider_timeout provider_response_invalid : SafeErrorCode
  provider_resource_failed credential_handoff_required credential_reissue_required : SafeErrorCode
  compensation_failed unexpected_failure : SafeErrorCode

-- What `SafeProvisioningError` carries; it is also the `SafeFailure` that a job records.
pub record SafeFailure : Type 0 where
  pub code : SafeErrorCode
  pub retryable : Bool

-- `new SafeProvisioningError(code)`
abbrev pub failure : SafeErrorCode → SafeFailure
failure c = record { code = c; retryable = false }
