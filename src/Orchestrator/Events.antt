-- ===== src/Orchestrator/Events.antt =====
-- Billing events in infra/provisioning/src/orchestrator.ts: `processStripeEvent` and what it calls.
use esig_suite.Prelude.{
  ℕ, suc, zero, String, Bool, true, false, not, ◌&&◌, ◌||◌, Option, none, some, List, [], ◌∷◌, ◌++◌,
  map, any, if◌then◌else◌, ok, ◌==◌, nat_eq,
}
use esig_suite.Failure.{store_conflict}
use esig_suite.Billing.{
  NormalizedStripeEvent, EventType, accepted, OrderRecord, BillingState, past_due, is_terminal,
  reduce_billing_event, checkout_session_completed, invoice_paid, invoice_payment_failed,
  customer_subscription_created, customer_subscription_updated, customer_subscription_deleted,
  charge_refunded,
}
use esig_suite.Job.{
  ProvisioningJob, ProvisioningOperation, suspension, compensation, RetryPolicy, is_provisioning,
  is_running, is_failed, is_compensating, is_suspension, next_provisioning_step, begin_compensation,
  is_provisionable_order, create_provisioning_job, resume_provisioning_job, same_operation, covered,
}
use esig_suite.Job.Step.{ProvisioningStep, includes}
use esig_suite.Ledger.{
  EventClaim, EventClaimResult, claim_event, put_order, put_job, ResourceRecord,
}
use esig_suite.Ledger.Reads.{get_order, get_job, list_resources}
use esig_suite.Orchestrator.{
  Action, Thrown, error, safe, version_conflict, on_version_conflict, on_store_conflict, Digests,
  if_some, pure, throw, lift, reads, writes, attempt, ◌>>=◌,
}

pub data EventProcessingStatus : Type 0 where
  claimed duplicate conflict ignored : EventProcessingStatus

pub record QueueMessage : Type 0 where
  pub subscription_id : String
  pub job_id : String

pub record EventProcessingResult : Type 0 where
  pub status : EventProcessingStatus
  pub order : Option OrderRecord
  pub job : Option ProvisioningJob
  pub queue_message : Option QueueMessage

-- The `type` of an accepted event.
unfoldable pub type_name : EventType → String
type_name checkout_session_completed = "checkout.session.completed"
type_name invoice_paid = "invoice.paid"
type_name invoice_payment_failed = "invoice.payment_failed"
type_name (customer_subscription_created s) = "customer.subscription.created"
type_name (customer_subscription_updated s) = "customer.subscription.updated"
type_name customer_subscription_deleted = "customer.subscription.deleted"
type_name charge_refunded = "charge.refunded"

unfoldable pub event_claim : NormalizedStripeEvent → EventClaim
unfolding type_name
event_claim (NormalizedStripeEvent.ignored e original_type subscription_id) = record {
  event_id = e.event_id;
  event_type = original_type;
  created_at = e.created_at;
  payload_digest = e.payload_digest;
  subscription_id = subscription_id;
}
event_claim (accepted e type m) = record {
  event_id = e.event_id;
  event_type = type_name type;
  created_at = e.created_at;
  payload_digest = e.payload_digest;
  subscription_id = some m.subscription_id;
}

unfoldable pub queue_message : ProvisioningJob → QueueMessage
queue_message j = record { subscription_id = j.subscription_id; job_id = j.job_id }

abbrev pub is_past_due : BillingState → Bool
is_past_due past_due = true
is_past_due _ = false

-- `order.billingState === "past_due" || isTerminalBilling(order)`
unfoldable pub is_stopped : OrderRecord → Bool
is_stopped o = is_past_due o.billing_state || is_terminal o.billing_state

unfoldable pub stopping_operation : OrderRecord → ProvisioningOperation
stopping_operation o = if is_past_due o.billing_state then suspension else compensation

abbrev pub conflict_thrown : Bool → Thrown
conflict_thrown retryable = error (safe (record { code = store_conflict; retryable = retryable }))

-- The step that a running or failed attempt may have begun.
unfoldable pub in_flight : ProvisioningJob → List ProvisioningStep
in_flight j =
    if is_provisioning j.operation && (is_running j.state || is_failed j.state)
    then elim (next_provisioning_step j) [ none ↦ [] | some s ↦ s ∷ [] ]
    else []

abbrev pub not_claimed :
    EventProcessingStatus → Option OrderRecord → Option ProvisioningJob → EventProcessingResult
not_claimed status order job = record {
  status = status;
  order = order;
  job = job;
  queue_message = none;
}

abbrev pub ignored_result : EventProcessingResult
ignored_result = not_claimed EventProcessingStatus.ignored none none

abbrev pub claimed_result :
    OrderRecord → Option ProvisioningJob → Option QueueMessage → EventProcessingResult
claimed_result order job message = record {
  status = EventProcessingStatus.claimed;
  order = some order;
  job = job;
  queue_message = message;
}

abbrev pub version_of : Option OrderRecord → Option ℕ
version_of none = none
version_of (some o) = some o.version

module _ (d : Digests) where
  -- `putJob`, with a conflict thrown as it is, and with one thrown as a `JobVersionConflict`.
  unfoldable pub put_job_action : ProvisioningJob → Option ℕ → Action ProvisioningJob
  put_job_action j expected = writes (put_job d.job j expected)

  unfoldable pub save_updated_job : ProvisioningJob → ProvisioningJob → Action ProvisioningJob
  unfolding put_job_action
  save_updated_job current next =
      attempt (put_job_action next (some current.version)) pure
        (on_store_conflict (throw version_conflict))

  -- The change of `transitionToCompensation`, and whether `next === current`.
  unfoldable pub observed_steps : List ResourceRecord → ProvisioningJob → List ProvisioningStep
  unfolding in_flight
  observed_steps resources j = map (λ r. r.step) resources ++ in_flight j

  -- `beginCompensation(…) === current`: the branch that returns the job itself.
  unfoldable pub begins_nothing :
      ProvisioningJob → List ProvisioningStep → ProvisioningOperation → Bool
  begins_nothing j observed operation =
      same_operation j.operation operation
      && not (any (λ s. not (includes j.completed_steps s)) (covered j observed))

  unfoldable pub transition : ℕ → ProvisioningJob → ProvisioningOperation → Action ProvisioningJob
  unfolding observed_steps begins_nothing save_updated_job
  transition zero current operation = throw (conflict_thrown true)
  transition (suc conflicts) current operation = do
    resources ← reads (list_resources d.locale_after current.subscription_id)
    let observed = observed_steps resources current
    let next = begin_compensation current observed operation
    if begins_nothing current observed operation
        then pure current
        else attempt (save_updated_job current next) pure (
            on_version_conflict (
              reads (get_job current.subscription_id) >>= λ latest.
              if_some latest (λ j. transition conflicts j operation)
                (throw (conflict_thrown false))))

  unfoldable pub transition_to_compensation :
      ProvisioningJob → ProvisioningOperation → Action ProvisioningJob
  unfolding transition
  transition_to_compensation = transition 3

  unfoldable pub put_order_action : OrderRecord → Option ℕ → Action OrderRecord
  put_order_action o expected = writes (put_order o expected)

  -- The loop of `reduceAndStoreOrder`, from the order that was read last.
  unfoldable pub reduce_and_store :
      ℕ → NormalizedStripeEvent → Option OrderRecord → Action (Option OrderRecord)
  unfolding put_order_action
  reduce_and_store zero event current = throw (conflict_thrown true)
  reduce_and_store (suc attempts) event current = do
    reduction ← lift (reduce_billing_event d.locale_after current event)
    if_some reduction.order
        (λ o.
          attempt (put_order_action o (version_of current)) (λ stored. pure (some stored))
            (on_store_conflict (
              if attempts == 0
              then throw (conflict_thrown true)
              else (reads (get_order o.subscription_id) >>= reduce_and_store attempts event))))
        (pure none)

  unfoldable pub reduce_and_store_order : NormalizedStripeEvent → Action (Option OrderRecord)
  unfolding reduce_and_store
  reduce_and_store_order (NormalizedStripeEvent.ignored e t s) =
      reduce_and_store 4 (NormalizedStripeEvent.ignored e t s) none
  reduce_and_store_order (accepted e t m) = do
    current ← reads (get_order m.subscription_id)
    reduce_and_store 4 (accepted e t m) current

  -- An order that is past due, canceled or refunded.
  unfoldable pub process_stopped :
      OrderRecord → Option ProvisioningJob → Action EventProcessingResult
  unfolding transition_to_compensation stopping_operation queue_message
  process_stopped order none = pure (claimed_result order none none)
  process_stopped order (some existing) = do
    job ← transition_to_compensation existing (stopping_operation order)
    let should_queue = is_compensating job.state && not (is_compensating existing.state)
    pure (claimed_result order (some job) (if should_queue then some (queue_message job) else none))

  unfoldable pub process_suspended : OrderRecord → ProvisioningJob → Action EventProcessingResult
  unfolding save_updated_job queue_message
  process_suspended order existing = do
    resumed ← lift (resume_provisioning_job existing)
    stored ← save_updated_job existing resumed
    pure (claimed_result order (some stored) (some (queue_message stored)))

  -- An order that may be provisioned, with a job or without one.
  unfoldable pub process_existing : OrderRecord → ProvisioningJob → Action EventProcessingResult
  unfolding process_suspended
  process_existing order existing =
      if is_suspension existing.operation
      then process_suspended order existing
      else pure (claimed_result order (some existing) none)

  unfoldable pub process_new : RetryPolicy → OrderRecord → Action EventProcessingResult
  unfolding put_job_action queue_message
  process_new policy order = do
    job ← lift (create_provisioning_job d.job d.tenant order policy)
    attempt (put_job_action job none)
        (λ stored. pure (claimed_result order (some stored) (some (queue_message stored))))
        (λ e.
          on_store_conflict
            (reads (get_job order.subscription_id) >>= λ concurrent.
              if_some concurrent (λ j. pure (claimed_result order (some j) none)) (throw e))
            e)

  unfoldable pub process_order :
      RetryPolicy → OrderRecord → Option ProvisioningJob → Action EventProcessingResult
  unfolding is_stopped process_stopped process_existing process_new
  process_order policy order existing =
      if is_stopped order
      then process_stopped order existing
      else if not (is_provisionable_order order)
      then pure (claimed_result order existing none)
      else if_some existing (process_existing order) (process_new policy order)

  unfoldable pub process_claimed_event :
      RetryPolicy → NormalizedStripeEvent → Action EventProcessingResult
  unfolding reduce_and_store_order process_order
  process_claimed_event policy (NormalizedStripeEvent.ignored e t s) = pure ignored_result
  process_claimed_event policy (accepted e t m) = do
    stored ← reduce_and_store_order (accepted e t m)
    if_some stored (λ order. reads (get_job m.subscription_id) >>= process_order policy order)
        (pure ignored_result)

  -- An event that was claimed before.
  unfoldable pub report_unclaimed :
      EventProcessingStatus → NormalizedStripeEvent → Action EventProcessingResult
  report_unclaimed status (NormalizedStripeEvent.ignored e t s) =
      pure (not_claimed status none none)
  report_unclaimed status (accepted e t m) = do
    order ← reads (get_order m.subscription_id)
    job ← reads (get_job m.subscription_id)
    pure (not_claimed status order job)

  unfoldable pub process_event :
      RetryPolicy → NormalizedStripeEvent → EventClaimResult → Action EventProcessingResult
  unfolding process_claimed_event report_unclaimed
  process_event policy event (EventClaimResult.claimed c) = process_claimed_event policy event
  process_event policy event (EventClaimResult.duplicate c) =
      report_unclaimed EventProcessingStatus.duplicate event
  process_event policy event (EventClaimResult.conflict c) =
      report_unclaimed EventProcessingStatus.conflict event

  unfoldable pub process_stripe_event :
      RetryPolicy → NormalizedStripeEvent → Action EventProcessingResult
  unfolding process_event event_claim
  process_stripe_event policy event = do
    claim ← writes (λ s. ok (claim_event (event_claim event) s))
    process_event policy event claim
