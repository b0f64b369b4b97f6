-- ===== src/Orchestrator/Steps.antt =====
-- One round of `runProvisioningSteps` and of `runCompensationSteps` in
-- infra/provisioning/src/orchestrator.ts: the effects of the next step, and its checkpoint.
use esig_suite.Prelude.{
  not, ◌&&◌, Option, none, some, List, [], ◌==◌, if◌then◌else◌, get_or, select, is_none,
}
use esig_suite.Failure.{credential_handoff_required}
use esig_suite.Billing.{OrderRecord}
use esig_suite.Job.{
  ProvisioningJob, ProvisioningOperation, provisioning, compensation, next_provisioning_step,
  next_compensation_step, complete_provisioning_step, complete_compensation_step,
}
use esig_suite.Job.Step.{ProvisioningStep, step_eq}
use esig_suite.Ledger.{ResourceRecord, CredentialHandoffPointer}
use esig_suite.Ledger.Handoff.{is_revoked, revoke_handoff}
use esig_suite.Ledger.Reads.{get_handoff, list_resources}
use esig_suite.Orchestrator.{
  Action, Digests, if_some, pure, throw, throw_when, lift, reads, writes, calls, ◌>>=◌, ◌>>◌,
  deterministic_handoff_id,
}
use esig_suite.Orchestrator.Events.{save_updated_job}
use esig_suite.Orchestrator.Lease.{assert_owned, fence}
use esig_suite.Orchestrator.Effects.{
  thrown, persist_step_resources, has_credential_handoff_receipt, apply_compensation_dispositions,
}
use esig_suite.Orchestrator.Inputs.{RunInput, StepInput}
use esig_suite.Orchestrator.Handoffs.{
  needs_handoff, prepare_credential_handoff, publish_credential_if_needed, pointer_matches_job,
}

unfoldable pub of_step : ProvisioningStep → List ResourceRecord → List ResourceRecord
of_step step = select (λ r. r.step == step)

unfoldable pub after_step : RunInput → ProvisioningStep → ProvisioningOperation → Action (Unit {0})
after_step i step operation =
    if_some i.after_step (λ hook. calls (λ n. hook n step operation)) (pure tt)

module _ (d : Digests) (i : RunInput) (order : OrderRecord) where
  unfoldable pub perform_step : ProvisioningJob → ProvisioningStep → Action (Unit {0})
  unfolding of_step after_step prepare_credential_handoff persist_step_resources
      publish_credential_if_needed has_credential_handoff_receipt needs_handoff assert_owned
  perform_step j step = do
    resources ← reads (list_resources d.locale_after j.subscription_id)
    completed ← lift (has_credential_handoff_receipt d (of_step step resources) j)
    throw_when (needs_handoff i step && not completed && is_none i.credential_handoff)
        (thrown credential_handoff_required)
    prepared ← prepare_credential_handoff d i j step completed
    let given : StepInput = record {
      step = step;
      order = order;
      job = j;
      resources = resources;
      step_resources = of_step step resources;
      credential_handoff_completed = prepared.completed;
    }
    result ← calls (λ n. i.driver.execute_step n given)
    assert_owned
    persist_step_resources d j step (get_or result.resources [])
    publish_credential_if_needed d i j step prepared result
    after_step i step provisioning
    assert_owned

  -- A round of the loop returns the stored job; `none` leaves the loop.
  unfoldable pub perform_and_save :
      ProvisioningJob → ProvisioningStep → Action (Option ProvisioningJob)
  unfolding perform_step save_updated_job
  perform_and_save j step = do
    perform_step j step
    next ← lift (complete_provisioning_step j step)
    stored ← save_updated_job d j next
    pure (some stored)

  unfoldable pub provisioning_round : ProvisioningJob → Action (Option ProvisioningJob)
  unfolding perform_and_save assert_owned
  provisioning_round j =
      assert_owned >> if_some (next_provisioning_step j) (perform_and_save j) (pure none)

  unfoldable pub revoke_pointer :
      ProvisioningJob → Option CredentialHandoffPointer → Action (Unit {0})
  unfolding pointer_matches_job fence
  revoke_pointer j none = pure tt
  revoke_pointer j (some p) =
      if is_revoked p.state
      then pure tt
      else if not (pointer_matches_job d p j)
      then throw (thrown credential_handoff_required)
      else (fence >>= λ f. writes (revoke_handoff p f.0 f.1) >>= λ _. pure tt)

  unfoldable pub undo_step : ProvisioningJob → ProvisioningStep → Action (Unit {0})
  unfolding of_step after_step persist_step_resources apply_compensation_dispositions revoke_pointer
      has_credential_handoff_receipt assert_owned
  undo_step j step = do
    resources ← reads (list_resources d.locale_after j.subscription_id)
    handoff_id ← lift (deterministic_handoff_id d j.subscription_id j.activation_generation)
    pointer ← reads (get_handoff j.subscription_id handoff_id)
    revoke_pointer j pointer
    completed ← lift (has_credential_handoff_receipt d (of_step step resources) j)
    let given : StepInput = record {
      step = step;
      order = order;
      job = j;
      resources = resources;
      step_resources = of_step step resources;
      credential_handoff_completed = completed;
    }
    result ← calls (λ n. i.driver.compensate_step n given)
    assert_owned
    persist_step_resources d j step (get_or result.resources [])
    apply_compensation_dispositions d (of_step step resources) result.dispositions
    after_step i step compensation
    assert_owned

  unfoldable pub undo_and_save :
      ProvisioningJob → ProvisioningStep → Action (Option ProvisioningJob)
  unfolding undo_step save_updated_job
  undo_and_save j step = do
    undo_step j step
    next ← lift (complete_compensation_step j step)
    stored ← save_updated_job d j next
    pure (some stored)

  unfoldable pub compensation_round : ProvisioningJob → Action (Option ProvisioningJob)
  unfolding undo_and_save assert_owned
  compensation_round j =
      assert_owned >> if_some (next_compensation_step j) (undo_and_save j) (pure none)
