-- ===== src/Orchestrator/Tests.antt =====
-- A run of a job beside another worker, a heartbeat, and billing events, at concrete records.
use esig_suite.Prelude.{
  ◌≡◌, refl, sym, subst, false, none, some, [], ◌∷◌, arith, ok, err, ◌==◌, string_eq, inl, inr,
  Bool-cases, if◌then◌else◌,
}
use mathlib.Core.Option.{some-injective, some-ne-none}
use text.Mathlib.TextEquality.{eq_iff}
use esig_suite.Billing.{OrderRecord, shared, team, active}
use esig_suite.Job.{
  ProvisioningJob, ProvisioningState, running, provisioning, default_retry_policy,
  deterministic_job_id, next_provisioning_step, complete_provisioning_step, with_completed,
  start_provisioning_attempt, is_provisionable_order, has_provisioning_identity,
}
use esig_suite.Job.Step.{
  resolve_tenant, owner_membership, plan_entitlement, api_credential, storage_namespace,
  activation_metadata, mark_ready, provisioning_steps,
}
use esig_suite.Job.Valid.{IsValid}
use esig_suite.Dict
use esig_suite.Ledger.{
  MemoryStore, EventClaim, claim_event, acquire_lease, renew_lease, release_lease,
  assert_lease_input, put_job, job_conflict, stored_job,
}
use esig_suite.Orchestrator.{
  Digests, World, out_of_fuel, others, heartbeat, renew_guard, happen, pause, pure, throw, lift,
  reads, writes, calls, ◌>>=◌, attempt, if_some, throw_when, deterministic_handoff_id,
}
use esig_suite.Orchestrator.Moves.{Moves, Seen, HasValidJobs, IsKeyed}
use esig_suite.Orchestrator.Writes.{claim_event-Moves}
use esig_suite.Orchestrator.Rules.{IsFine}
use esig_suite.Orchestrator.Inputs.{ProvisioningDriver, RunInput}
use esig_suite.Orchestrator.Runs.{
  run_claimed, run_guarded, run_leased, run_internal, run_once, run_found, run_open, start_attempt,
  run_started, run_provisioning_steps, loop, handle, save_failed, guard_of, finished_provisioning,
  is_started, current_run_result, default_execution_lease_duration_ms, run_provisioning_job,
  ProvisioningRunStatus, run_result,
}
use esig_suite.Orchestrator.Steps.{
  provisioning_round, perform_and_save, perform_step, of_step, after_step,
}
use esig_suite.Orchestrator.Handoffs.{
  needs_handoff, prepare_credential_handoff, publish_credential_if_needed,
}
use esig_suite.Orchestrator.Effects.{persist_step_resources, has_credential_handoff_receipt}
use esig_suite.Orchestrator.Events.{save_updated_job, put_job_action, is_stopped}
use esig_suite.Orchestrator.Lease.{
  guarded, check_owned, renew, assert_owned, start, close_guard, close,
}
use esig_suite.Ledger.Reads.{get_order, get_job, list_resources}
use esig_suite.Orchestrator.Outcomes.{
  run_provisioning_job-Moves, run_provisioning_job-ends, run_provisioning_job-ready,
}

abbrev pub digests : Digests
digests = record {
  job = λ s. "job_1";
  tenant = λ s m. "tenant_1";
  resource = λ s step kind id. id;
  handoff = λ s g. "handoff_1";
  locale_after = λ a b. false;
}

abbrev pub paid : OrderRecord
paid = record {
  version = 1;
  subscription_id = "sub_1";
  customer_id = some "cus_1";
  owner_subject = some "user_1";
  mode = some shared;
  plan = some team;
  billing_state = active;
  latest_event_created_at = 5;
  latest_event_id = "evt_1";
  state_cursor = record { created_at = 5; precedence = 2; event_id = "evt_1" };
}

-- A job whose last step is left.
abbrev pub nearly_done : ProvisioningJob
nearly_done = record {
  version = 7;
  job_id = "job_1";
  subscription_id = "sub_1";
  tenant_id = "tenant_1";
  activation_generation = some 0;
  state = running;
  operation = provisioning;
  completed_steps =
      resolve_tenant ∷ owner_membership ∷ plan_entitlement ∷ api_credential ∷ storage_namespace
      ∷ activation_metadata ∷ [];
  compensated_steps = [];
  attempt = 1;
  retry_policy = default_retry_policy;
  retry_exhausted = false;
  next_retry_at = none;
  last_error_code = none;
}

abbrev pub stored : MemoryStore
stored = record {
  events = Dict.empty;
  orders = ("sub_1", paid) ∷ [];
  jobs = ("sub_1", nearly_done) ∷ [];
  leases = Dict.empty;
  handoffs = Dict.empty;
  resources = Dict.empty;
}

abbrev pub other_claim : EventClaim
other_claim = record {
  event_id = "evt_9";
  event_type = "invoice.paid";
  created_at = 9;
  payload_digest = "9";
  subscription_id = none;
}

-- Another worker claims an event after the first read, and the heartbeat fires twice.
abbrev busy : World
busy = record {
  store = stored;
  guard = none;
  meanwhile = heartbeat ∷ others (λ s. (claim_event other_claim s).1) ∷ heartbeat ∷ [];
  calls = 0;
}

abbrev pub driver : ProvisioningDriver
driver = record {
  mode = shared;
  requires_credential_handoff = false;
  execute_step = λ n i. ok (record { resources = none; one_time_credential = none });
  compensate_step = λ n i. ok (record { resources = none; dispositions = none });
}

abbrev pub input : RunInput
input = record {
  driver = driver;
  subscription_id = "sub_1";
  now = 100;
  execution_owner_id = "worker_a";
  execution_lease_duration_ms = none;
  execution_lease_clock = λ n. 100;
  credential_handoff = none;
  after_step = none;
}

nearly_done-IsValid : IsValid nearly_done
nearly_done-IsValid = ground arith

one_job-HasValidJobs : HasValidJobs stored
unfolding Dict.get
one_job-HasValidJobs k j h = elim (Bool-cases ("sub_1" == k)) [
  | inl e ↦
      subst (IsKeyed k)
        (some-injective _ _ (subst (λ b. (if b then some nearly_done else none) ≡ some j) e h))
        (nearly_done-IsValid, (eq_iff "sub_1" k).0 e)
  | inr e ↦
      absurd
        (some-ne-none _ (sym (subst (λ b. (if b then some nearly_done else none) ≡ some j) e h)))
]

busy-IsFine : IsFine digests busy
busy-IsFine = record {
  meanwhile = (tt, ((λ s v. claim_event-Moves digests s other_claim), (tt, tt)));
  jobs = one_job-HasValidJobs;
}

abbrev finished : ProvisioningJob
finished = record nearly_done {
  version = 8;
  state = ProvisioningState.ready;
  completed_steps =
      resolve_tenant ∷ owner_membership ∷ plan_entitlement ∷ api_credential ∷ storage_namespace
      ∷ activation_metadata ∷ mark_ready ∷ [];
}

busy_run :
    (run_provisioning_job digests input busy).0
    ≡ ok (run_result ProvisioningRunStatus.ready finished)
unfolding run_provisioning_job run_claimed run_guarded run_leased run_internal run_once run_found
    run_open start_attempt run_started run_provisioning_steps loop handle save_failed guard_of
    finished_provisioning is_started current_run_result default_execution_lease_duration_ms
    provisioning_round perform_and_save perform_step of_step after_step needs_handoff
    prepare_credential_handoff publish_credential_if_needed persist_step_resources
    has_credential_handoff_receipt deterministic_handoff_id save_updated_job put_job_action
    is_stopped guarded check_owned renew assert_owned start close_guard close renew_guard happen
    pause pure throw lift reads writes calls ◌>>=◌ attempt if_some throw_when acquire_lease
    renew_lease release_lease assert_lease_input claim_event put_job job_conflict stored_job
    get_order get_job list_resources Dict.get Dict.put deterministic_job_id next_provisioning_step
    complete_provisioning_step with_completed start_provisioning_attempt is_provisionable_order
    has_provisioning_identity
busy_run = refl

run_provisioning_job-Moves_example :
    Moves digests stored (run_provisioning_job digests input busy).1.store
run_provisioning_job-Moves_example = run_provisioning_job-Moves digests input busy busy-IsFine

run_provisioning_job-ends_example :
    ¬ ((run_provisioning_job digests input busy).0 ≡ err out_of_fuel)
run_provisioning_job-ends_example = run_provisioning_job-ends digests input busy busy-IsFine

run_provisioning_job-ready_example :
    (j : ProvisioningJob) × ((run_result ProvisioningRunStatus.ready finished).job ≡ some j)
    × (j.completed_steps ≡ provisioning_steps)
    × Seen j (run_provisioning_job digests input busy).1.store
run_provisioning_job-ready_example =
    run_provisioning_job-ready digests input busy (run_result ProvisioningRunStatus.ready finished)
      busy-IsFine busy_run refl
