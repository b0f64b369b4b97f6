-- ===== src/Job/Tests.antt =====
-- Runs of the job state machine, and its theorems at concrete jobs.
use esig_suite.Prelude.{◌+◌, ◌≤◌, ◌≡◌, refl, String, true, false, none, some, [], ◌∷◌, arith, ok}
use esig_suite.Failure.{SafeFailure, provider_timeout}
use esig_suite.Billing.{OrderRecord, DeploymentMode, shared, team, active}
use esig_suite.Job.{
  ProvisioningJob, ProvisioningState, default_retry_policy, provisioning, queued, running,
  create_provisioning_job, start_provisioning_attempt, complete_provisioning_step,
  fail_provisioning_attempt, with_completed, retry_delay_ms, next_provisioning_step,
}
use esig_suite.Job.Step.{resolve_tenant}
use esig_suite.Job.Valid.{IsValid, create-IsValid}
use esig_suite.Job.Runs.{
  start, complete, Reach, here, next, SameIdentity, created-IsValid, Reach-SameIdentity,
}
use esig_suite.Job.Retries.{Failures, none_yet, again, Failures-le-max_attempts, retry_delay_bounds}

abbrev order : OrderRecord
order = record {
  version = 0;
  subscription_id = "sub_1";
  customer_id = some "cus_1";
  owner_subject = some "owner";
  mode = some shared;
  plan = some team;
  billing_state = active;
  latest_event_created_at = 100;
  latest_event_id = "evt_1";
  state_cursor = record { created_at = 100; precedence = 2; event_id = "evt_1" };
}

abbrev job_digest : String → String
job_digest s = s

abbrev tenant_digest : String → DeploymentMode → String
tenant_digest s m = s

abbrev created : ProvisioningJob
created = record {
  version = 0;
  job_id = "sub_1";
  subscription_id = "sub_1";
  tenant_id = "sub_1";
  activation_generation = some 0;
  state = queued;
  operation = provisioning;
  completed_steps = [];
  compensated_steps = [];
  attempt = 0;
  retry_policy = default_retry_policy;
  retry_exhausted = false;
  next_retry_at = none;
  last_error_code = none;
}

created_lem :
    create_provisioning_job job_digest tenant_digest order default_retry_policy ≡ ok created
unfolding create_provisioning_job
created_lem = refl

abbrev started : ProvisioningJob
started = record created { state = running; attempt = 1 }

abbrev after_step : ProvisioningJob
after_step = record started { completed_steps = resolve_tenant ∷ [] }

run : Reach created after_step
unfolding start_provisioning_attempt complete_provisioning_step with_completed
    next_provisioning_step
run = next (next here (start 5 refl)) (complete resolve_tenant refl)

created-IsValid_example : IsValid after_step
created-IsValid_example =
    created-IsValid job_digest tenant_digest order default_retry_policy created after_step
      created_lem run

Reach-SameIdentity_example : SameIdentity created after_step
Reach-SameIdentity_example = Reach-SameIdentity created after_step run

abbrev timeout : SafeFailure
timeout = record { code = provider_timeout; retryable = true }

abbrev failed_once : ProvisioningJob
failed_once = record created {
  state = ProvisioningState.failed;
  attempt = 1;
  last_error_code = some provider_timeout;
  next_retry_at = some 1010;
}

one_failure : Failures created 1 failed_once
unfolding start_provisioning_attempt fail_provisioning_attempt retry_delay_ms
one_failure = again {l = started} (none_yet (λ e. cc) (λ e. cc)) 5 refl timeout 10 refl

Failures-le-max_attempts_example : 0 + 1 ≤ 5
Failures-le-max_attempts_example =
    Failures-le-max_attempts created failed_once 1
      (create-IsValid job_digest tenant_digest order default_retry_policy created_lem) one_failure

retry_delay_bounds_example :
    (1000 ≤ retry_delay_ms started)
    × (retry_delay_ms started ≤ retry_delay_ms (record started { attempt = 4 }))
    × (retry_delay_ms (record started { attempt = 4 }) ≤ 60000)
retry_delay_bounds_example = retry_delay_bounds started 4 (omega arith) (omega arith)
