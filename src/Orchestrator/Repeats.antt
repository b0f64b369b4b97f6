-- ===== src/Orchestrator/Repeats.antt =====
-- What processing an event, or running a job, does when no other worker writes meanwhile
-- (infra/provisioning/src/orchestrator.ts).
use esig_suite.Prelude.{
  ℕ, suc, ◌≡◌, refl, ap, subst, ◌∙◌, String, Bool-cases, inl, inr, true, false, none, some, [],
  arith, ok, if◌then◌else◌, ◌==◌, string_eq,
}
use esig_suite.Billing.{
  NormalizedStripeEvent, OrderRecord, accepted, EventBase, EventType, OrderMetadata,
}
use esig_suite.Job.{
  ProvisioningJob, RetryPolicy, create_provisioning_job, is_provisionable_order, queued,
  deterministic_job_id,
}
use esig_suite.Dict
use esig_suite.Ledger.{
  MemoryStore, EventClaim, EventClaimResult, claim_event, acquire_lease, assert_lease_input, held,
  put_job, job_conflict, stored_job, is_held,
}
use esig_suite.Ledger.Reads.{get_job, get_order}
use esig_suite.Orchestrator.{Digests, World, pure, lift, reads, writes, calls, if_some}
use esig_suite.Orchestrator.Inputs.{RunInput}
use esig_suite.Orchestrator.Runs.{
  run_provisioning_job, run_claimed, current_run_result, standing, duration,
}
use esig_suite.Orchestrator.Events.{
  EventProcessingStatus, process_stripe_event, process_event, report_unclaimed, event_claim,
  EventProcessingResult, not_claimed, claimed_result, queue_message, is_stopped, process_order,
  process_new, put_job_action,
}
use esig_suite.Orchestrator.Quiet.{attempt-ok, bind-ok, quiet-reads, quiet-writes, lift-ok}

claim_event-claimed :
    (c e : EventClaim) (s : MemoryStore)
    → Dict.get c.event_id s.events ≡ some e
    → claim_event c s ≡ (
      if e.payload_digest == c.payload_digest
          then EventClaimResult.duplicate e
          else EventClaimResult.conflict e,
      s,
    )
unfolding claim_event
claim_event-claimed c e s h = rw (claim_event, h) refl

acquire_lease-held :
    (sub owner : String) (now length : ℕ) (s : MemoryStore)
    → assert_lease_input sub owner now length ≡ ok tt
    → is_held (Dict.get sub s.leases) now ≡ true
    → acquire_lease sub owner now length s ≡ ok (held, s)
unfolding acquire_lease
acquire_lease-held sub owner now length s valid taken = rw (valid, taken) refl

created_job :
    (d : Digests) (o : OrderRecord) (p : RetryPolicy) (j : ProvisioningJob)
    → create_provisioning_job d.job d.tenant o p ≡ ok j
    → (j.subscription_id ≡ o.subscription_id)
      × ((j.subscription_id == "") ≡ false)
      × (j.version ≡ 0)
      × (j.job_id ≡ d.job j.subscription_id)
      × (j.state ≡ queued)
unfolding create_provisioning_job deterministic_job_id
created_job d o p j made = ground arith

put_new :
    (digest : String → String) (j : ProvisioningJob) (s : MemoryStore)
    → (j.subscription_id == "") ≡ false
    → j.version ≡ 0
    → (j.job_id == digest j.subscription_id) ≡ true
    → Dict.get j.subscription_id s.jobs ≡ none
    → put_job digest j none s ≡ ok (j, record s { jobs = Dict.put j.subscription_id j s.jobs })
unfolding put_job job_conflict stored_job deterministic_job_id
put_new digest j s named fresh same free = rw (put_job, free, named, same, fresh) refl

first_put :
    (d : Digests) (o : OrderRecord) (p : RetryPolicy) (j : ProvisioningJob) (s : MemoryStore)
    → create_provisioning_job d.job d.tenant o p ≡ ok j
    → Dict.get o.subscription_id s.jobs ≡ none
    → (j.state ≡ queued)
      × (put_job d.job j none s ≡ ok (j, record s { jobs = Dict.put o.subscription_id j s.jobs }))
first_put d o p j s made free =
    let (sub, named, fresh, id, waits) = created_job d o p j made in
    (
      waits,
      subst (λ k. put_job d.job j none s ≡ ok (j, record s { jobs = Dict.put k j s.jobs })) sub
          (put_new d.job j s named fresh ((string_eq.equals_iff _ _).1 id)
            (ap (λ k. Dict.get k s.jobs) sub ∙ free)),
    )

-- The status of an event whose id was claimed before.
abbrev pub repeated_status : EventClaim → EventBase → EventProcessingStatus
repeated_status c b =
    if c.payload_digest == b.payload_digest
    then EventProcessingStatus.duplicate
    else EventProcessingStatus.conflict

abbrev pub event_base : NormalizedStripeEvent → EventBase
event_base (NormalizedStripeEvent.ignored b t i) = b
event_base (accepted b t m) = b

-- What is reported of an event whose id was claimed before.
abbrev pub repeated_report :
    NormalizedStripeEvent → EventClaim → MemoryStore → EventProcessingResult
repeated_report (NormalizedStripeEvent.ignored b t i) c s =
    not_claimed (repeated_status c b) none none
repeated_report (accepted b t m) c s =
    not_claimed (repeated_status c b) (get_order m.subscription_id s) (get_job m.subscription_id s)

module _ (d : Digests) (p : RetryPolicy) (w : World) (quiet : w.meanwhile ≡ []) where
  report-current :
      (status : EventProcessingStatus) (b : EventBase) (t : EventType) (m : OrderMetadata)
      → report_unclaimed d status (accepted b t m) w ≡ (
        ok (
            not_claimed status
              (get_order m.subscription_id w.store)
              (get_job m.subscription_id w.store)),
        w,
      )
  unfolding report_unclaimed pure
  report-current status b t m =
      bind-ok (reads (get_order m.subscription_id)) _ w w _ (quiet-reads w quiet _)
      ∙ bind-ok (reads (get_job m.subscription_id)) _ w w _ (quiet-reads w quiet _)

  event_claim-event_id :
      (e : NormalizedStripeEvent) → (event_claim e).event_id ≡ (event_base e).event_id
  unfolding event_claim
  event_claim-event_id (NormalizedStripeEvent.ignored b t i) = refl
  event_claim-event_id (accepted b t m) = refl

  -- The claim of an event that was claimed before goes on with the answer of the store.
  claimed-again :
      (e : NormalizedStripeEvent) (c : EventClaim)
      → Dict.get (event_base e).event_id w.store.events ≡ some c
      → process_stripe_event d p e w
        ≡ process_event d p e
            (if c.payload_digest == (event_claim e).payload_digest
              then EventClaimResult.duplicate c
              else EventClaimResult.conflict c)
            w
  unfolding process_stripe_event
  claimed-again e c h =
      let known = ap (λ k. Dict.get k w.store.events) (event_claim-event_id e) ∙ h in
      bind-ok (writes (λ s. ok (claim_event (event_claim e) s))) _ w w _ (
        quiet-writes w quiet _ _ w.store
          (ap ok (claim_event-claimed (event_claim e) c w.store known)))

  -- An event whose id was claimed before changes nothing, whatever its type. It is reported as a
  -- duplicate when it has the digest that was claimed, as a conflict otherwise; with an accepted event
  -- the order and the job are reported as they are stored, with an ignored one neither.
  pub process_stripe_event-again :
      (e : NormalizedStripeEvent) (c : EventClaim)
      → Dict.get (event_base e).event_id w.store.events ≡ some c
      → process_stripe_event d p e w ≡ (ok (repeated_report e c w.store), w)
  unfolding process_stripe_event event_claim process_event report_unclaimed pure
  process_stripe_event-again (NormalizedStripeEvent.ignored b t i) c h =
      claimed-again (NormalizedStripeEvent.ignored b t i) c h
      ∙ elim (Bool-cases (c.payload_digest == b.payload_digest)) [
        | inl e ↦ rw e refl
        | inr e ↦ rw e refl
      ]
  process_stripe_event-again (accepted b t m) c h =
      claimed-again (accepted b t m) c h
      ∙ elim (Bool-cases (c.payload_digest == b.payload_digest)) [
        | inl e ↦ rw e (report-current EventProcessingStatus.duplicate b t m)
        | inr e ↦ rw e (report-current EventProcessingStatus.conflict b t m)
      ]

  -- A paid order without a job gets one, queued and stored, and a message that wakes a worker for it.
  pub process_order-starts :
      (o : OrderRecord) (j : ProvisioningJob)
      → is_stopped o ≡ false
      → is_provisionable_order o ≡ true
      → create_provisioning_job d.job d.tenant o p ≡ ok j
      → Dict.get o.subscription_id w.store.jobs ≡ none
      → (process_order d p o none w ≡ (
        ok (claimed_result o (some j) (some (queue_message j))),
        record w { store = record w.store { jobs = Dict.put o.subscription_id j w.store.jobs } },
      ))
        × (j.state ≡ queued)
  unfolding process_order process_new put_job_action if_some pure
  process_order-starts o j running paid made none_yet =
      let (queued_job, accepted_job) = first_put d o p j w.store made none_yet in
      (
        rw (running, paid)
            (bind-ok (lift (create_provisioning_job d.job d.tenant o p)) _ w w j
                (lift-ok _ j w made)
              ∙ attempt-ok (put_job_action d j none) _ _ w _ j
                  (quiet-writes w quiet (put_job d.job j none) j _ accepted_job)),
        queued_job,
      )

module _ (d : Digests) (i : RunInput) (w : World) (quiet : w.meanwhile ≡ []) where
  -- While another worker holds the lease of the subscription, a run writes nothing and calls nothing
  -- but the clock: it reports the job as it is stored.
  pub run_provisioning_job-held :
      assert_lease_input i.subscription_id i.execution_owner_id
          (i.execution_lease_clock w.calls)
          (duration d i)
        ≡ ok tt
      → is_held (Dict.get i.subscription_id w.store.leases) (i.execution_lease_clock w.calls) ≡ true
      → run_provisioning_job d i w
        ≡ (ok (standing (get_job i.subscription_id w.store)), record w { calls = suc w.calls })
  unfolding run_provisioning_job run_claimed current_run_result calls
  run_provisioning_job-held valid taken =
      let v : World = record w { calls = suc w.calls } in
      bind-ok (calls (λ n. ok (i.execution_lease_clock n))) _ w v (i.execution_lease_clock w.calls)
        refl
      ∙ bind-ok (writes (acquire_lease i.subscription_id i.execution_owner_id _ (duration d i))) _ v
          v held
          (quiet-writes v quiet _ held w.store (
            acquire_lease-held i.subscription_id i.execution_owner_id _ (duration d i) w.store valid
              taken))
      ∙ quiet-reads v quiet (λ s. standing (get_job i.subscription_id s))
