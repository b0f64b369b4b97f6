-- ===== src/Orchestrator/Inputs.antt =====
-- What a run of a job is given: `RunProvisioningJobInput` of
-- infra/provisioning/src/orchestrator.ts, with the driver and the secret store of
-- infra/provisioning/src/domain.ts, which are code outside the control plane.
use esig_suite.Prelude.{ℕ, String, Bool, Option, List, Result}
use esig_suite.Billing.{DeploymentMode, OrderRecord}
use esig_suite.Job.{ProvisioningJob, ProvisioningOperation}
use esig_suite.Job.Step.{ProvisioningStep}
use esig_suite.Ledger.{ResourceRecord, CredentialHandoffPointer, CredentialSecretPublication}
use esig_suite.Orchestrator.{Error}
use esig_suite.Orchestrator.Effects.{StepExecutionResult, StepCompensationResult, OneTimeCredential}

-- `StepExecutionInput` and `StepCompensationInput`
pub record StepInput : Type 0 where
  pub step : ProvisioningStep
  pub order : OrderRecord
  pub job : ProvisioningJob
  pub resources : List ResourceRecord
  pub step_resources : List ResourceRecord
  pub credential_handoff_completed : Bool

pub record ProvisioningDriver : Type 0 where
  pub mode : DeploymentMode
  pub requires_credential_handoff : Bool
  pub execute_step : ℕ → StepInput → Result Error StepExecutionResult
  pub compensate_step : ℕ → StepInput → Result Error StepCompensationResult

pub record OneTimeCredentialHandoffInput : Type 0 where
  pub handoff_id : String
  pub job_id : String
  pub subscription_id : String
  pub activation_generation : ℕ
  pub publication_generation : ℕ
  pub fencing_token : ℕ
  pub credential : OneTimeCredential

pub record OneTimeCredentialHandoff : Type 0 where
  pub describe_publication : OneTimeCredentialHandoffInput → CredentialSecretPublication
  pub create_immutable :
      ℕ → OneTimeCredentialHandoffInput → Result Error CredentialSecretPublication
  pub verify_publication : ℕ → CredentialHandoffPointer → Result Error Bool

pub record RunInput : Type 0 where
  pub driver : ProvisioningDriver
  pub subscription_id : String
  pub now : ℕ
  pub execution_owner_id : String
  pub execution_lease_duration_ms : Option ℕ
  pub execution_lease_clock : ℕ → ℕ
  pub credential_handoff : Option OneTimeCredentialHandoff
  pub after_step : Option (ℕ → ProvisioningStep → ProvisioningOperation → Result Error (Unit {0}))
