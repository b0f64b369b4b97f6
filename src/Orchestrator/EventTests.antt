-- ===== src/Orchestrator/EventTests.antt =====
-- Billing events and refused steps of the orchestrator, at concrete records.
use esig_suite.Prelude.{◌≡◌, refl, sym, true, false, none, some, [], ◌∷◌, ok, err}
use mathlib.Core.Option.{some-ne-none}
use esig_suite.Failure.{credential_handoff_required}
use esig_suite.Billing.{
  OrderRecord, accepted, invoice_paid, EventBase, OrderMetadata, shared, team, reduce_billing_event,
  validate_event, desired_billing_state, event_cursor, state_precedence, next_order, merge_metadata,
  choose_state, cursor_after, is_latest_accepted_event, reduce_accepted,
}
use esig_suite.Job.{
  ProvisioningJob, queued, default_retry_policy, create_provisioning_job, is_provisionable_order,
  has_provisioning_identity, deterministic_job_id, deterministic_tenant_id, assert_retry_policy,
  is_valid_policy,
}
use esig_suite.Job.Step.{api_credential}
use esig_suite.Dict
use esig_suite.Ledger.{
  MemoryStore, claim_event, assert_lease_input, put_job, job_conflict, stored_job, put_order,
  order_conflict, leaves_terminal, stored_order,
}
use esig_suite.Ledger.Reads.{get_order, get_job, list_resources}
use esig_suite.Orchestrator.{
  World, Guard, others, lease_lost, happen, pause, pure, throw, lift, reads, writes, ◌>>=◌, attempt,
  if_some, deterministic_handoff_id,
}
use esig_suite.Orchestrator.Moves.{Moves, Seen, HasValidJobs}
use esig_suite.Orchestrator.Writes.{claim_event-Moves}
use esig_suite.Orchestrator.Rules.{IsFine}
use esig_suite.Orchestrator.Inputs.{RunInput}
use esig_suite.Orchestrator.Effects.{thrown, has_credential_handoff_receipt}
use esig_suite.Orchestrator.Handoffs.{needs_handoff}
use esig_suite.Orchestrator.Steps.{perform_step, provisioning_round, compensation_round, of_step}
use esig_suite.Orchestrator.Events.{
  EventProcessingStatus, queue_message, claimed_result, not_claimed, process_stripe_event,
  process_event, process_claimed_event, process_order, process_new, put_job_action,
  put_order_action, reduce_and_store, reduce_and_store_order, event_claim, type_name, is_stopped,
}
use esig_suite.Orchestrator.Runs.{
  run_provisioning_job, standing, default_execution_lease_duration_ms,
}
use esig_suite.Orchestrator.Outcomes.{process_stripe_event-Moves, process_stripe_event-wakes}
use esig_suite.Orchestrator.Refusals.{released-stops, perform_step-refuses}
use esig_suite.Orchestrator.Repeats.{
  process_stripe_event-again, process_order-starts, run_provisioning_job-held,
}
use esig_suite.Orchestrator.Tests.{digests, paid, nearly_done, stored, other_claim, driver, input}

abbrev base : EventBase
base = record {
  event_id = "evt_2";
  created_at = 7;
  payload_digest = "0123456789abcdef0123456789abcdef0123456789abcdef0123456789abcdef";
}

abbrev metadata : OrderMetadata
metadata = record {
  subscription_id = "sub_1";
  customer_id = some "cus_1";
  owner_subject = some "user_1";
  mode = some shared;
  plan = some team;
}

abbrev no_jobs : MemoryStore
no_jobs = record stored { jobs = Dict.empty }

-- Another worker claims an event before the first call of the store.
abbrev arriving : World
arriving = record {
  store = no_jobs;
  guard = none;
  meanwhile = others (λ s. (claim_event other_claim s).1) ∷ [];
  calls = 0;
}

no_jobs-HasValidJobs : HasValidJobs no_jobs
unfolding Dict.get
no_jobs-HasValidJobs k j h = absurd (some-ne-none _ (sym h))

arriving-IsFine : IsFine digests arriving
arriving-IsFine = record {
  meanwhile = ((λ s v. claim_event-Moves digests s other_claim), tt);
  jobs = no_jobs-HasValidJobs;
}

abbrev first_job : ProvisioningJob
first_job = record nearly_done { version = 0; state = queued; completed_steps = []; attempt = 0 }

process_stripe_event-Moves_example :
    Moves digests no_jobs
      (process_stripe_event digests default_retry_policy
        (accepted base invoice_paid metadata)
        arriving).1.store
process_stripe_event-Moves_example =
    process_stripe_event-Moves digests default_retry_policy (accepted base invoice_paid metadata)
      arriving arriving-IsFine

abbrev paid_again : OrderRecord
paid_again = record paid {
  version = 2;
  latest_event_created_at = 7;
  latest_event_id = "evt_2";
  state_cursor = record { created_at = 7; precedence = 2; event_id = "evt_2" };
}

arriving_result :
    (process_stripe_event digests default_retry_policy
      (accepted base invoice_paid metadata)
      arriving).0
    ≡ ok (claimed_result paid_again (some first_job) (some (queue_message first_job)))
unfolding process_stripe_event process_event process_claimed_event process_order process_new
    put_job_action put_order_action reduce_and_store reduce_and_store_order event_claim type_name
    is_stopped happen pause pure throw lift reads writes ◌>>=◌ attempt if_some claim_event put_job
    job_conflict stored_job put_order order_conflict leaves_terminal stored_order get_order get_job
    Dict.get Dict.put create_provisioning_job is_provisionable_order has_provisioning_identity
    deterministic_job_id deterministic_tenant_id assert_retry_policy is_valid_policy
    reduce_billing_event validate_event desired_billing_state event_cursor state_precedence
    next_order merge_metadata choose_state cursor_after is_latest_accepted_event reduce_accepted
arriving_result = refl

process_stripe_event-wakes_example :
    (j : ProvisioningJob) × (some first_job ≡ some j)
    × (queue_message first_job ≡ queue_message j)
    × Seen j
        (process_stripe_event digests default_retry_policy
          (accepted base invoice_paid metadata)
          arriving).1.store
process_stripe_event-wakes_example =
    process_stripe_event-wakes digests default_retry_policy (accepted base invoice_paid metadata)
      arriving _ (queue_message first_job) arriving-IsFine arriving_result refl

abbrev claimed_before : World
claimed_before = record {
  store = record stored { events = ("evt_2", other_claim) ∷ [] };
  guard = none;
  meanwhile = [];
  calls = 0;
}

process_stripe_event-again_example :
    process_stripe_event digests default_retry_policy
      (accepted base invoice_paid metadata)
      claimed_before
    ≡ (
      ok (not_claimed EventProcessingStatus.conflict (some paid) (some nearly_done)),
      claimed_before,
    )
unfolding Dict.get get_order get_job
process_stripe_event-again_example =
    process_stripe_event-again digests default_retry_policy claimed_before refl
      (accepted base invoice_paid metadata) other_claim refl

abbrev waiting : World
waiting = record { store = no_jobs; guard = none; meanwhile = []; calls = 0 }

process_order-starts_example :
    (process_order digests default_retry_policy paid none waiting ≡ (
      ok (claimed_result paid (some first_job) (some (queue_message first_job))),
      record waiting { store = record no_jobs { jobs = Dict.put "sub_1" first_job Dict.empty } },
    ))
    × (queued ≡ queued)
unfolding Dict.get create_provisioning_job is_provisionable_order has_provisioning_identity
    deterministic_job_id deterministic_tenant_id assert_retry_policy is_valid_policy is_stopped
process_order-starts_example =
    process_order-starts digests default_retry_policy waiting refl paid first_job refl refl refl
      refl

abbrev leased_away : World
leased_away = record {
  store = record stored {
    leases =
        (
          "sub_1",
          record {
            subscription_id = "sub_1";
            owner_id = "worker_b";
            fencing_token = 3;
            expires_at = 500;
          },
        )
        ∷ [];
  };
  guard = none;
  meanwhile = [];
  calls = 0;
}

run_provisioning_job-held_example :
    run_provisioning_job digests input leased_away
    ≡ (ok (standing (some nearly_done)), record leased_away { calls = 1 })
unfolding Dict.get get_job assert_lease_input default_execution_lease_duration_ms
run_provisioning_job-held_example =
    run_provisioning_job-held digests input leased_away refl refl refl

abbrev lost_guard : Guard
lost_guard = record {
  duration_ms = 50;
  clock = λ n. 100;
  lease = record {
    subscription_id = "sub_1";
    owner_id = "worker_a";
    fencing_token = 2;
    expires_at = 90;
  };
  lost = true;
  closed = false;
}

abbrev fenced_out : World
fenced_out = record leased_away { guard = some lost_guard }

released-stops_example :
    (provisioning_round digests input paid nearly_done fenced_out ≡ (err lease_lost, fenced_out))
    × (compensation_round digests input paid nearly_done fenced_out ≡ (err lease_lost, fenced_out))
released-stops_example =
    released-stops digests input paid nearly_done fenced_out lost_guard refl refl

abbrev careful : RunInput
careful = record input { driver = record driver { requires_credential_handoff = true } }

perform_step-refuses_example :
    perform_step digests careful paid nearly_done api_credential waiting
    ≡ (err (thrown credential_handoff_required), waiting)
unfolding needs_handoff has_credential_handoff_receipt deterministic_handoff_id of_step
    list_resources
perform_step-refuses_example =
    perform_step-refuses digests careful paid nearly_done waiting api_credential refl refl refl refl
