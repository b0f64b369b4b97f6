-- ===== src/Job.antt =====
-- Provisioning jobs: the types of infra/provisioning/src/domain.ts and the state machine of
-- infra/provisioning/src/state-machine.ts. Times, counters and delays are natural numbers; the
-- guards of the code refuse the negative, fractional and infinite ones. The digests that name jobs
-- and tenants are the host's and are parameters.
pub mod Step
pub mod Valid
pub mod Compensation
pub mod Runs
pub mod Retries
mod Tests
use esig_suite.Prelude.{
  ℕ, suc, zero, ◌+◌, ◌-◌, ◌*◌, ◌^◌, ◌≤◌, ◌<◌, min, max, String, Bool, true, false, not, ◌&&◌, ◌||◌,
  Option, none, some, List, [], ◌∷◌, ◌++◌, ltb, leb, ◌==◌, nat_eq, string_eq, if◌then◌else◌, get_or,
  is_some, Result, ok, err, ◌>>◌, ◌>>=◌, throw_if, length, get_elem?, take, every, any, find,
}
use mathlib.Core.List.{reverse}
use esig_suite.Failure.{
  SafeErrorCode, SafeFailure, invalid_order, invalid_state, invalid_step_order, failure,
}
use esig_suite.Billing.{
  OrderRecord, DeploymentMode, shared, PlanId, scale, BillingState, active, max_safe_integer,
}
use Step.{ProvisioningStep, provisioning_steps, step_eq, step_index, includes}

pub record RetryPolicy : Type 0 where
  pub max_attempts : ℕ
  pub base_delay_ms : ℕ
  pub max_delay_ms : ℕ

abbrev pub default_retry_policy : RetryPolicy
default_retry_policy = record { max_attempts = 5; base_delay_ms = 1000; max_delay_ms = 60000 }

pub data ProvisioningState : Type 0 where
  queued running ready failed compensating disabled : ProvisioningState

pub data ProvisioningOperation : Type 0 where
  provisioning suspension compensation : ProvisioningOperation

pub record ProvisioningJob : Type 0 where
  pub version : ℕ
  pub job_id : String
  pub subscription_id : String
  pub tenant_id : String
  pub activation_generation : Option ℕ
  pub state : ProvisioningState
  pub operation : ProvisioningOperation
  pub completed_steps : List ProvisioningStep
  pub compensated_steps : List ProvisioningStep
  pub attempt : ℕ
  pub retry_policy : RetryPolicy
  pub retry_exhausted : Bool
  pub next_retry_at : Option ℕ
  pub last_error_code : Option SafeErrorCode

abbrev Outcome : Type 0
Outcome = Result SafeFailure ProvisioningJob

abbrev pub is_running : ProvisioningState → Bool
is_running running = true
is_running _ = false

abbrev pub is_compensating : ProvisioningState → Bool
is_compensating compensating = true
is_compensating _ = false

abbrev pub is_failed : ProvisioningState → Bool
is_failed failed = true
is_failed _ = false

-- `state === "ready" || state === "disabled"`
abbrev pub is_settled : ProvisioningState → Bool
is_settled ready = true
is_settled disabled = true
is_settled _ = false

abbrev pub is_provisioning : ProvisioningOperation → Bool
is_provisioning provisioning = true
is_provisioning _ = false

abbrev pub is_suspension : ProvisioningOperation → Bool
is_suspension suspension = true
is_suspension _ = false

abbrev pub same_operation : ProvisioningOperation → ProvisioningOperation → Bool
same_operation provisioning provisioning = true
same_operation suspension suspension = true
same_operation compensation compensation = true
same_operation _ _ = false

unfoldable pub is_valid_policy : RetryPolicy → Bool
is_valid_policy p =
    leb p.max_attempts max_safe_integer
    && leb 1 p.max_attempts
    && leb p.base_delay_ms max_safe_integer
    && leb p.max_delay_ms max_safe_integer
    && leb p.base_delay_ms p.max_delay_ms

unfoldable pub assert_retry_policy : RetryPolicy → Result SafeFailure (Unit {0})
unfolding is_valid_policy
assert_retry_policy p = throw_if (not (is_valid_policy p)) (failure invalid_state)

-- A text that is present and not empty.
abbrev is_filled : Option String → Bool
is_filled none = false
is_filled (some s) = not (s == "")

unfoldable pub has_provisioning_identity : OrderRecord → Bool
has_provisioning_identity o =
    is_filled o.customer_id && is_filled o.owner_subject && is_some o.mode && is_some o.plan

abbrev is_active : BillingState → Bool
is_active active = true
is_active _ = false

abbrev is_shared : Option DeploymentMode → Bool
is_shared (some shared) = true
is_shared _ = false

abbrev is_scale : Option PlanId → Bool
is_scale (some scale) = true
is_scale _ = false

unfoldable pub is_provisionable_order : OrderRecord → Bool
unfolding has_provisioning_identity
is_provisionable_order o =
    is_active o.billing_state
    && has_provisioning_identity o
    && (is_shared o.mode || is_scale o.plan)

-- `digestIdentifier` throws on an empty subscription id.
unfoldable pub deterministic_job_id : (String → String) → String → Result SafeFailure String
deterministic_job_id job_digest subscription_id =
    if subscription_id == "" then err (failure invalid_order) else ok (job_digest subscription_id)

unfoldable pub deterministic_tenant_id :
    (String → DeploymentMode → String) → String → DeploymentMode → Result SafeFailure String
deterministic_tenant_id tenant_digest subscription_id mode =
    if subscription_id == ""
    then err (failure invalid_order)
    else ok (tenant_digest subscription_id mode)

module _ (job_digest : String → String) (tenant_digest : String → DeploymentMode → String) where
  unfoldable pub create_provisioning_job : OrderRecord → RetryPolicy → Outcome
  unfolding assert_retry_policy is_provisionable_order deterministic_job_id deterministic_tenant_id
  create_provisioning_job o policy = do
    assert_retry_policy policy
    throw_if (not (is_provisionable_order o)) (failure invalid_order)
    job_id ← deterministic_job_id job_digest o.subscription_id
    tenant_id ← deterministic_tenant_id tenant_digest o.subscription_id (get_or o.mode shared)
    ok (record {
      version = 0;
      job_id = job_id;
      subscription_id = o.subscription_id;
      tenant_id = tenant_id;
      activation_generation = some 0;
      state = queued;
      operation = provisioning;
      completed_steps = [];
      compensated_steps = [];
      attempt = 0;
      retry_policy = policy;
      retry_exhausted = false;
      next_retry_at = none;
      last_error_code = none;
    })

-- `job.retryExhausted || job.nextRetryAt === undefined || now < job.nextRetryAt`
may_not_retry : ProvisioningJob → ℕ → Bool
may_not_retry j now =
    j.retry_exhausted || elim j.next_retry_at [ none ↦ true | some at ↦ ltb now at ]

unfoldable pub start_provisioning_attempt : ProvisioningJob → ℕ → Outcome
unfolding may_not_retry
start_provisioning_attempt j now =
    if is_running j.state
    then ok j
    else if is_compensating j.state && ltb 0 j.attempt
    then ok j
    else if is_settled j.state
    then err (failure invalid_state)
    else if is_failed j.state && may_not_retry j now
    then err (failure invalid_state)
    else ok (record j {
      state = if is_provisioning j.operation then running else compensating;
      attempt = j.attempt + 1;
      retry_exhausted = false;
      next_retry_at = none;
      last_error_code = none;
    })

unfoldable pub next_provisioning_step : ProvisioningJob → Option ProvisioningStep
next_provisioning_step j = get_elem? provisioning_steps (length j.completed_steps)

-- `next === step`
abbrev pub is_step : Option ProvisioningStep → ProvisioningStep → Bool
is_step none s = false
is_step (some t) s = t == s

unfoldable pub with_completed : ProvisioningJob → ProvisioningStep → ProvisioningJob
with_completed j s = record j {
  completed_steps = j.completed_steps ++ s ∷ [];
  state =
      if length (j.completed_steps ++ s ∷ []) == length provisioning_steps then ready else running;
}

unfoldable pub complete_provisioning_step : ProvisioningJob → ProvisioningStep → Outcome
complete_provisioning_step j s =
    if includes j.completed_steps s
    then ok j
    else if not (is_running j.state)
        || not (is_provisioning j.operation)
        || not (is_step (next_provisioning_step j) s)
    then err (failure invalid_step_order)
    else ok (with_completed j s)

unfoldable pub retry_delay_ms : ProvisioningJob → ℕ
retry_delay_ms j =
    min j.retry_policy.max_delay_ms (j.retry_policy.base_delay_ms * 2 ^ min (j.attempt - 1) 30)

unfoldable pub fail_provisioning_attempt : ProvisioningJob → SafeFailure → ℕ → Outcome
fail_provisioning_attempt j f now =
    let can_retry = f.retryable && ltb j.attempt j.retry_policy.max_attempts in
    if (not (is_running j.state) && not (is_compensating j.state)) || ltb j.attempt 1
    then err (failure invalid_state)
    else ok (record j {
      state = failed;
      last_error_code = some f.code;
      retry_exhausted = not can_retry;
      next_retry_at = if can_retry then some (now + retry_delay_ms j) else none;
    })

-- One more than the furthest index among the steps, 0 when there are none.
unfoldable pub furthest : List ProvisioningStep → ℕ
furthest [] = 0
furthest (s ∷ ss) = max (step_index s + 1) (furthest ss)

restarted : ProvisioningJob → ProvisioningJob
restarted j = record j {
  attempt = 0;
  retry_exhausted = false;
  next_retry_at = none;
  last_error_code = none;
}

-- `completedSteps`: the steps up to the furthest one that is completed or observed.
unfoldable pub covered : ProvisioningJob → List ProvisioningStep → List ProvisioningStep
covered j observed = take (furthest (j.completed_steps ++ observed)) provisioning_steps

-- The three records that `beginCompensation` returns beside `job` itself.
unfoldable pub with_effects : ProvisioningJob → List ProvisioningStep → ProvisioningJob
unfolding restarted
with_effects j completed = record (restarted j) {
  completed_steps = completed;
  state = if every (includes j.compensated_steps) completed then disabled else compensating;
}

unfoldable pub with_nothing : ProvisioningJob → ProvisioningOperation → ProvisioningJob
unfolding restarted
with_nothing j operation = record (restarted j) { state = disabled; operation = operation }

unfoldable pub with_operation :
    ProvisioningJob → ProvisioningOperation → List ProvisioningStep → ProvisioningJob
unfolding restarted
with_operation j operation completed = record (restarted j) {
  state = compensating;
  operation = operation;
  completed_steps = completed;
  compensated_steps = [];
}

unfoldable pub begin_compensation :
    ProvisioningJob → List ProvisioningStep → ProvisioningOperation → ProvisioningJob
begin_compensation j observed operation =
    let completed = covered j observed in
    if same_operation j.operation operation
    then (if any (λ s. not (includes j.completed_steps s)) completed
        then with_effects j completed
        else j)
    else if length completed == 0
    then with_nothing j operation
    else with_operation j operation completed

unfoldable pub next_compensation_step : ProvisioningJob → Option ProvisioningStep
next_compensation_step j =
    find (λ s. not (includes j.compensated_steps s)) (reverse j.completed_steps)

unfoldable pub with_compensated : ProvisioningJob → ProvisioningStep → ProvisioningJob
with_compensated j s =
    let compensated = j.compensated_steps ++ s ∷ [] in
    record j {
      compensated_steps = compensated;
      state =
          if every (λ c. includes compensated c) j.completed_steps then disabled else compensating;
    }

unfoldable pub complete_compensation_step : ProvisioningJob → ProvisioningStep → Outcome
complete_compensation_step j s =
    if includes j.compensated_steps s
    then ok j
    else if not (is_compensating j.state)
        || is_provisioning j.operation
        || not (is_step (next_compensation_step j) s)
    then err (failure invalid_step_order)
    else ok (with_compensated j s)

unfoldable pub resume_provisioning_job : ProvisioningJob → Outcome
unfolding restarted
resume_provisioning_job j =
    if not (is_suspension j.operation)
    then err (failure invalid_state)
    else ok (record (restarted j) {
      activation_generation = some (get_or j.activation_generation 0 + 1);
      state = queued;
      operation = provisioning;
      completed_steps = [];
      compensated_steps = [];
    })
