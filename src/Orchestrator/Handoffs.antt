-- ===== src/Orchestrator/Handoffs.antt =====
-- The credential handoff of the `api_credential` step in infra/provisioning/src/orchestrator.ts:
-- `prepareCredentialHandoff` and `publishCredentialIfNeeded`.
use esig_suite.Prelude.{
  ℕ, ◌+◌, String, Bool, true, false, not, ◌&&◌, Option, none, some, ◌==◌, nat_eq, string_eq,
  if◌then◌else◌, Result, ok, err, get_or, is_some,
}
use esig_suite.Failure.{
  SafeFailure, provider_response_invalid, credential_handoff_required, credential_reissue_required,
}
use esig_suite.Job.{ProvisioningJob}
use esig_suite.Job.Step.{ProvisioningStep, step_eq, api_credential}
use esig_suite.Ledger.{
  JobExecutionLease, CredentialHandoffPointer, CredentialSecretPublication, pending,
}
use esig_suite.Ledger.Handoff.{
  begin_handoff, bind_handoff, publish_handoff, is_pending, is_revoked, pointer_has_publication,
}
use esig_suite.Ledger.Reads.{get_handoff}
use esig_suite.Orchestrator.{
  Action, Thrown, error, safe, Digests, if_some, pure, throw, throw_when, lift, reads, writes,
  calls, ◌>>=◌, ◌>>◌, deterministic_handoff_id,
}
use esig_suite.Orchestrator.Lease.{fence}
use esig_suite.Orchestrator.Effects.{
  StepExecutionResult, OneTimeCredential, thrown, persist_credential_handoff_receipt,
}
use esig_suite.Orchestrator.Inputs.{
  RunInput, OneTimeCredentialHandoff, OneTimeCredentialHandoffInput,
}

pub record PreparedCredentialHandoff : Type 0 where
  pub completed : Bool
  pub pointer : Option CredentialHandoffPointer

abbrev pub generation : ProvisioningJob → ℕ
generation j = get_or j.activation_generation 0

abbrev pub next_generation : Option CredentialHandoffPointer → ℕ
next_generation none = 0
next_generation (some p) = p.publication_generation + 1

abbrev pub publication_generation? : Option CredentialHandoffPointer → Option ℕ
publication_generation? none = none
publication_generation? (some p) = some p.publication_generation

unfoldable pub next_pointer :
    ProvisioningJob
    → String
    → Option CredentialHandoffPointer
    → JobExecutionLease
    → CredentialHandoffPointer
next_pointer j handoff_id pointer lease = record {
  handoff_id = handoff_id;
  subscription_id = j.subscription_id;
  job_id = j.job_id;
  activation_generation = generation j;
  publication_generation = next_generation pointer;
  fencing_token = lease.fencing_token;
  state = pending;
  secret_id = none;
  publication_id = none;
  credential_id = none;
}

unfoldable pub same_descriptor : CredentialSecretPublication → CredentialSecretPublication → Bool
same_descriptor a b =
    a.secret_id == b.secret_id
    && a.publication_id == b.publication_id
    && a.credential_id == b.credential_id

unfoldable pub publication_input :
    ProvisioningJob → CredentialHandoffPointer → OneTimeCredential → OneTimeCredentialHandoffInput
publication_input j p credential = record {
  handoff_id = p.handoff_id;
  job_id = j.job_id;
  subscription_id = j.subscription_id;
  activation_generation = generation j;
  publication_generation = p.publication_generation;
  fencing_token = p.fencing_token;
  credential = credential;
}

abbrev pub reissue_required : Thrown
reissue_required = error (safe (record { code = credential_reissue_required; retryable = true }))

-- `step === "api_credential" && driver.requiresCredentialHandoff`
unfoldable pub needs_handoff : RunInput → ProvisioningStep → Bool
needs_handoff i step = step == api_credential && i.driver.requires_credential_handoff

unfoldable pub has_id : Result SafeFailure String → String → Bool
has_id (ok id) s = s == id
has_id (err e) s = false

module _ (d : Digests) where
  -- The callers have computed the handoff's id before, so that it does not throw here.
  unfoldable pub pointer_matches_job : CredentialHandoffPointer → ProvisioningJob → Bool
  unfolding has_id deterministic_handoff_id
  pointer_matches_job p j =
      p.subscription_id == j.subscription_id
      && p.job_id == j.job_id
      && p.activation_generation == generation j
      && has_id (deterministic_handoff_id d j.subscription_id j.activation_generation) p.handoff_id

  unfoldable pub publish_pending : CredentialHandoffPointer → Action CredentialHandoffPointer
  unfolding fence
  publish_pending p =
      if is_pending p.state then (fence >>= λ f. writes (publish_handoff p f.0 f.1)) else pure p

  -- A new generation of the handoff, unless the stored one is revoked.
  unfoldable pub begin_generation :
      ProvisioningJob → String → Option CredentialHandoffPointer → Action PreparedCredentialHandoff
  unfolding fence next_pointer
  begin_generation j handoff_id pointer = do
    f ← fence
    begun ← writes (
        begin_handoff (next_pointer j handoff_id pointer f.0) f.0 f.1
          (publication_generation? pointer))
    pure (record { completed = false; pointer = some begun })

  unfoldable pub begin_again :
      ProvisioningJob → String → CredentialHandoffPointer → Action PreparedCredentialHandoff
  unfolding begin_generation
  begin_again j handoff_id p =
      if is_revoked p.state
      then throw (thrown credential_handoff_required)
      else begin_generation j handoff_id (some p)

  unfoldable pub settle_verified :
      ProvisioningJob → String → CredentialHandoffPointer → Action PreparedCredentialHandoff
  unfolding publish_pending persist_credential_handoff_receipt
  settle_verified j handoff_id p = do
    published ← publish_pending p
    persist_credential_handoff_receipt d j handoff_id
    pure (record { completed = true; pointer = some published })

  unfoldable pub prepare_stored :
      OneTimeCredentialHandoff
      → ProvisioningJob
      → String
      → CredentialHandoffPointer
      → Action PreparedCredentialHandoff
  unfolding pointer_matches_job begin_again settle_verified
  prepare_stored handoff j handoff_id p =
      if not (pointer_matches_job p j)
      then throw (thrown credential_handoff_required)
      else if not (is_revoked p.state) && pointer_has_publication p
      then (calls (λ n. handoff.verify_publication n p) >>= λ verified.
          if verified then settle_verified j handoff_id p else begin_again j handoff_id p)
      else begin_again j handoff_id p

  unfoldable pub prepare_with :
      OneTimeCredentialHandoff → ProvisioningJob → Action PreparedCredentialHandoff
  unfolding prepare_stored begin_generation
  prepare_with handoff j = do
    handoff_id ← lift (deterministic_handoff_id d j.subscription_id j.activation_generation)
    pointer ← reads (get_handoff j.subscription_id handoff_id)
    if_some pointer (λ p. prepare_stored handoff j handoff_id p)
        (begin_generation j handoff_id none)

  unfoldable pub prepare_credential_handoff :
      RunInput → ProvisioningJob → ProvisioningStep → Bool → Action PreparedCredentialHandoff
  unfolding needs_handoff prepare_with
  prepare_credential_handoff i j step handoff_completed =
      if not (needs_handoff i step)
      then pure (record { completed = handoff_completed; pointer = none })
      else if_some i.credential_handoff (λ handoff. prepare_with handoff j)
          (throw (thrown credential_handoff_required))

  unfoldable pub publish_credential :
      OneTimeCredentialHandoff
      → ProvisioningJob
      → CredentialHandoffPointer
      → OneTimeCredential
      → Action (Unit {0})
  unfolding fence publication_input same_descriptor persist_credential_handoff_receipt
  publish_credential handoff j p credential = do
    let given = publication_input j p credential
    let descriptor = handoff.describe_publication given
    f ← fence
    bound ← writes (bind_handoff p f.0 f.1 descriptor)
    created ← calls (λ n. handoff.create_immutable n given)
    throw_when (not (same_descriptor created descriptor)) (thrown credential_handoff_required)
    g ← fence
    published ← writes (publish_handoff bound g.0 g.1)
    persist_credential_handoff_receipt d j p.handoff_id

  -- An `api_credential` step that needs the handoff, after the driver.
  unfoldable pub publish_prepared :
      RunInput
      → ProvisioningJob
      → PreparedCredentialHandoff
      → StepExecutionResult
      → Action (Unit {0})
  unfolding publish_credential
  publish_prepared i j prepared result =
      if prepared.completed
      then throw_when (is_some result.one_time_credential) (thrown provider_response_invalid)
      else if_some i.credential_handoff
          (λ handoff.
            if_some prepared.pointer
              (λ p.
                if_some result.one_time_credential
                  (λ credential. publish_credential handoff j p credential)
                  (throw reissue_required))
              (throw (thrown credential_handoff_required)))
          (throw (thrown credential_handoff_required))

  unfoldable pub publish_credential_if_needed :
      RunInput
      → ProvisioningJob
      → ProvisioningStep
      → PreparedCredentialHandoff
      → StepExecutionResult
      → Action (Unit {0})
  unfolding needs_handoff publish_prepared
  publish_credential_if_needed i j step prepared result =
      if is_some result.one_time_credential && not (step == api_credential)
      then throw (thrown provider_response_invalid)
      else if not (needs_handoff i step)
      then pure tt
      else publish_prepared i j prepared result
