-- ===== src/Orchestrator/Runs.antt =====
-- `runProvisioningJob` of infra/provisioning/src/orchestrator.ts. The loops over the steps have
-- fuel for eight rounds, one more than there are steps; the recoveries from a version conflict are
-- counted by the code itself.
use esig_suite.Prelude.{
  ℕ, suc, zero, Bool, true, false, not, ◌&&◌, ◌||◌, String, Option, none, some, ltb, nat_eq,
  if◌then◌else◌, ok, get_or,
}
use esig_suite.Failure.{SafeFailure, mode_mismatch, invalid_order, failure}
use esig_suite.Billing.{OrderRecord, DeploymentMode, shared, dedicated}
use esig_suite.Job.{
  ProvisioningJob, ProvisioningState, is_running, is_compensating, is_failed, is_provisioning,
  fail_provisioning_attempt, start_provisioning_attempt, has_provisioning_identity,
  is_provisionable_order,
}
use esig_suite.Ledger.{LeaseClaim, acquired, held, acquire_lease, JobExecutionLease}
use esig_suite.Ledger.Reads.{get_order, get_job}
use esig_suite.Orchestrator.{
  Action, Thrown, error, version_conflict, lease_lost, out_of_fuel, Digests, Guard,
  on_version_conflict, on_lease_lost, on_store_conflict, sanitize_provisioning_error, if_some, pure,
  throw, lift, reads, writes, calls, attempt, ◌>>=◌, ◌>>◌,
}
use esig_suite.Orchestrator.Events.{
  save_updated_job, transition_to_compensation, is_stopped, stopping_operation,
}
use esig_suite.Orchestrator.Lease.{assert_owned, start, close}
use esig_suite.Orchestrator.Inputs.{RunInput}
use esig_suite.Orchestrator.Steps.{provisioning_round, compensation_round}

pub data ProvisioningRunStatus : Type 0 where
  ready disabled failed deferred exhausted not_found : ProvisioningRunStatus

pub record ProvisioningRunResult : Type 0 where
  pub status : ProvisioningRunStatus
  pub job : Option ProvisioningJob

abbrev pub run_result : ProvisioningRunStatus → ProvisioningJob → ProvisioningRunResult
run_result status j = record { status = status; job = some j }

abbrev pub is_ready : ProvisioningState → Bool
is_ready ProvisioningState.ready = true
is_ready _ = false

abbrev pub is_disabled : ProvisioningState → Bool
is_disabled ProvisioningState.disabled = true
is_disabled _ = false

unfoldable pub standing_status : ProvisioningJob → ProvisioningRunStatus
standing_status j =
    if is_ready j.state
    then ready
    else if is_disabled j.state
    then disabled
    else if is_failed j.state && j.retry_exhausted
    then exhausted
    else deferred

-- What a run reports of a job that it leaves to others, or to a later run.
unfoldable pub standing : Option ProvisioningJob → ProvisioningRunResult
unfolding standing_status
standing none = record { status = not_found; job = none }
standing (some j) = run_result (standing_status j) j

unfoldable pub current_run_result : String → Action ProvisioningRunResult
unfolding standing
current_run_result subscription_id = reads (λ s. standing (get_job subscription_id s))

unfoldable pub finished_provisioning : ProvisioningJob → ProvisioningRunResult
finished_provisioning j = run_result (if is_ready j.state then ready else failed) j

unfoldable pub finished_compensation : ProvisioningJob → ProvisioningRunResult
finished_compensation j = run_result (if is_disabled j.state then disabled else failed) j

-- `job.nextRetryAt === undefined || now < job.nextRetryAt`
unfoldable pub is_not_due : Option ℕ → ℕ → Bool
is_not_due none now = true
is_not_due (some at) now = ltb now at

-- `startProvisioningAttempt(job, now) === job`: the branches that return the job itself.
unfoldable pub is_started : ProvisioningJob → Bool
is_started j = is_running j.state || (is_compensating j.state && ltb 0 j.attempt)

abbrev pub has_mode : Option DeploymentMode → DeploymentMode → Bool
has_mode (some shared) shared = true
has_mode (some dedicated) dedicated = true
has_mode _ _ = false

unfoldable pub default_execution_lease_duration_ms : ℕ
default_execution_lease_duration_ms = 600000

module _ (d : Digests) (i : RunInput) where
  -- `recover` is what follows a version conflict.
  module _ (recover : Action ProvisioningRunResult) where
    unfoldable pub save_failed : ProvisioningJob → SafeFailure → Action ProvisioningRunResult
    unfolding save_updated_job
    save_failed j f = do
      next ← lift (fail_provisioning_attempt j f i.now)
      attempt (save_updated_job d j next) (λ stored. pure (run_result failed stored))
          (on_version_conflict recover)

    -- The `catch` of the two loops.
    unfoldable pub handle : ProvisioningJob → Thrown → Action ProvisioningRunResult
    unfolding save_failed
    handle j lease_lost = throw lease_lost
    handle j version_conflict = recover
    handle j (error e) = save_failed j (sanitize_provisioning_error (error e))
    handle j out_of_fuel = throw out_of_fuel

    -- A loop over rounds, with its `try` statement.
    unfoldable pub loop :
        (ProvisioningJob → Bool)
        → (ProvisioningJob → Action (Option ProvisioningJob))
        → (ProvisioningJob → ProvisioningRunResult)
        → ℕ
        → ProvisioningJob
        → Action ProvisioningRunResult
    unfolding handle
    loop goes_on round finish zero j = throw out_of_fuel
    loop goes_on round finish (suc fuel) j =
        if not (goes_on j)
        then pure (finish j)
        else attempt (round j)
            (λ next. if_some next (loop goes_on round finish fuel) (pure (finish j))) (handle j)

    unfoldable pub run_provisioning_steps :
        OrderRecord → ProvisioningJob → Action ProvisioningRunResult
    unfolding loop provisioning_round finished_provisioning
    run_provisioning_steps order =
        loop (λ j. is_running j.state) (provisioning_round d i order) finished_provisioning 8

    unfoldable pub run_compensation_steps :
        OrderRecord → ProvisioningJob → Action ProvisioningRunResult
    unfolding loop compensation_round finished_compensation
    run_compensation_steps order =
        loop (λ j. is_compensating j.state) (compensation_round d i order) finished_compensation 8

    unfoldable pub run_started : OrderRecord → ProvisioningJob → Action ProvisioningRunResult
    unfolding save_failed run_provisioning_steps run_compensation_steps
    run_started order j =
        if not (has_mode order.mode i.driver.mode)
        then save_failed j (failure mode_mismatch)
        else if not (is_provisioning j.operation)
        then (if not (has_provisioning_identity order)
            then save_failed j (failure invalid_order)
            else run_compensation_steps order j)
        else if not (is_provisionable_order order)
        then save_failed j (failure invalid_order)
        else run_provisioning_steps order j

    unfoldable pub start_attempt : OrderRecord → ProvisioningJob → Action ProvisioningRunResult
    unfolding is_started run_started save_updated_job
    start_attempt order j = do
      started ← lift (start_provisioning_attempt j i.now)
      if is_started j
          then run_started order j
          else attempt (save_updated_job d j started) (run_started order)
              (on_version_conflict recover)

    unfoldable pub run_open : OrderRecord → ProvisioningJob → Action ProvisioningRunResult
    unfolding is_not_due start_attempt
    run_open order j =
        if is_ready j.state
        then pure (run_result ready j)
        else if is_disabled j.state
        then pure (run_result disabled j)
        else if is_failed j.state && j.retry_exhausted
        then pure (run_result exhausted j)
        else if is_failed j.state && is_not_due j.next_retry_at i.now
        then pure (run_result deferred j)
        else start_attempt order j

    unfoldable pub run_found : OrderRecord → ProvisioningJob → Action ProvisioningRunResult
    unfolding run_open transition_to_compensation is_stopped stopping_operation
    run_found order j =
        if not (is_stopped order)
        then run_open order j
        else attempt (transition_to_compensation d j (stopping_operation order)) (run_open order)
            (on_store_conflict recover)

    unfoldable pub run_once : Action ProvisioningRunResult
    unfolding assert_owned run_found
    run_once = do
      assert_owned
      order ← reads (get_order i.subscription_id)
      job ← reads (get_job i.subscription_id)
      if_some order (λ o. if_some job (run_found o) (pure (standing none))) (pure (standing none))

  -- `runProvisioningJobInternal` and `recoverJobConflict`, which call each other.
  unfoldable pub run_internal : ℕ → Action ProvisioningRunResult
  unfolding run_once current_run_result
  run_internal zero = run_once (current_run_result i.subscription_id)
  run_internal (suc conflicts_remaining) = run_once (run_internal conflicts_remaining)

  abbrev pub duration : ℕ
  duration = get_or i.execution_lease_duration_ms default_execution_lease_duration_ms

  unfoldable pub guard_of : JobExecutionLease → Guard
  unfolding default_execution_lease_duration_ms
  guard_of l = record {
    duration_ms = duration;
    clock = i.execution_lease_clock;
    lease = l;
    lost = false;
    closed = false;
  }

  -- The inner `try` statement.
  unfoldable pub run_leased : Action ProvisioningRunResult
  unfolding run_internal current_run_result
  run_leased = attempt (run_internal 2) pure (on_lease_lost (current_run_result i.subscription_id))

  unfoldable pub run_guarded : JobExecutionLease → Action ProvisioningRunResult
  unfolding run_leased guard_of start close
  run_guarded l =
      start (guard_of l)
      >> attempt run_leased (λ result. close >> pure result) (λ e. close >> throw e)

  unfoldable pub run_claimed : LeaseClaim → Action ProvisioningRunResult
  unfolding run_guarded current_run_result
  run_claimed held = current_run_result i.subscription_id
  run_claimed (acquired l) = run_guarded l

  unfoldable pub run_provisioning_job : Action ProvisioningRunResult
  unfolding run_claimed default_execution_lease_duration_ms
  run_provisioning_job = do
    now ← calls (λ n. ok (i.execution_lease_clock n))
    claim ← writes (acquire_lease i.subscription_id i.execution_owner_id now duration)
    run_claimed claim
