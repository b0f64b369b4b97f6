-- ===== src/Orchestrator/EventSafety.antt =====
-- Billing events keep to `Moves`: `processStripeEvent` and what it calls
-- (infra/provisioning/src/orchestrator.ts).
use esig_suite.Prelude.{
  ℕ, suc, zero, ◌≡◌, refl, sym, subst, String, Bool, true, false, not, Option, none, some, arith,
  ok, if◌then◌else◌,
}
use mathlib.Core.Option.{some-injective, some-ne-none}
use esig_suite.Billing.{NormalizedStripeEvent, accepted, OrderRecord}
use esig_suite.Job.{
  ProvisioningJob, ProvisioningOperation, is_provisioning, is_suspension, is_provisionable_order,
  RetryPolicy, create_provisioning_job, resume_provisioning_job,
}
use esig_suite.Job.Runs.{begin, resume}
use esig_suite.Ledger.{MemoryStore, EventClaimResult}
use esig_suite.Ledger.Reads.{get_job}
use esig_suite.Orchestrator.{Digests, World, pure}
use esig_suite.Orchestrator.Moves.{HasValidJobs}
use esig_suite.Orchestrator.Writes.{put_order-Moves, claim_event-Moves}
use esig_suite.Orchestrator.Rules.{
  Good, IsFine, Safe, Anything, pure-Good, throw-Good, lift-Good, reads-Good, bind-Good,
  attempt-Good, if-Good, if_some-Good, writes-Good, on_version_conflict-Good,
  on_store_conflict-Good,
}
use esig_suite.Orchestrator.Safety.{safe_rules, throw-Safe}
use esig_suite.Orchestrator.Saves.{
  Known, Known-later, read-Known, SavedFrom, save_updated_job-Good, first_put-Good,
}
use esig_suite.Orchestrator.Events.{
  is_stopped, conflict_thrown, observed_steps, QueueMessage, queue_message, not_claimed,
  claimed_result, put_order_action, reduce_and_store, reduce_and_store_order, process_stopped,
  process_suspended, process_existing, process_new, process_order, process_claimed_event,
  process_event, process_stripe_event, report_unclaimed, event_claim, transition,
  transition_to_compensation, stopping_operation, EventProcessingResult, EventProcessingStatus,
}

-- A job that a reader found, if any.
abbrev pub Found : Option ProvisioningJob → MemoryStore → Type 0
Found o s = (j : ProvisioningJob) → o ≡ some j → Known j s

-- What an event's result tells: its job is a known one, and the message wakes a worker for it.
abbrev pub Tells : EventProcessingResult → MemoryStore → Type 0
Tells r s =
    Found r.job s
    × ((m : QueueMessage)
        → r.queue_message ≡ some m
        → (j : ProvisioningJob) × (r.job ≡ some j) × (m ≡ queue_message j))

module _ (d : Digests) where
  pub get_job-Found : (k : String) (s : MemoryStore) → HasValidJobs s → Found (get_job k s) s
  unfolding get_job
  get_job-Found k s v j h = read-Known k j s v h

  transition-Good :
      (n : ℕ) (j : ProvisioningJob) (op : ProvisioningOperation) (w : World)
      → IsFine d w
      → Known j w.store
      → is_provisioning op ≡ false
      → Good d Known w (transition d n j op)
  unfolding transition
  transition-Good zero j op w f k back = throw-Good d _ (conflict_thrown true) w tt f
  transition-Good (suc n) j op w f k back =
      bind-Good d Anything Known _ _ w (reads-Good d _ _ w f (λ s v. tt)) λ resources v g m _.
        let known = Known-later d w.store v.store j m k in
        if-Good d Known _ _ _ v (λ same. pure-Good d Known j v g known)
          (λ differs.
            attempt-Good d (SavedFrom j _) Known _ _ _ v
              (save_updated_job-Good d j _ v g known
                (begin (observed_steps d resources j) op back refl))
              (λ p u h r q. pure-Good d Known p u h q.1)
              (λ e u h r fuel. on_version_conflict-Good d Known _ e u h fuel (
                bind-Good d Found Known _ _ u
                  (reads-Good d Found _ u h (get_job-Found j.subscription_id))
                  λ latest x y o found.
                    if_some-Good d Known Known latest _ _ x
                      (λ i e. transition-Good n i op x y (found i e) back)
                      (λ e. throw-Good d _ (conflict_thrown false) x tt y))))

  stopping_operation-back : (o : OrderRecord) → is_provisioning (stopping_operation o) ≡ false
  unfolding stopping_operation
  stopping_operation-back o = ground arith

  pub stop-Good :
      (o : OrderRecord) (j : ProvisioningJob) (w : World)
      → IsFine d w
      → Known j w.store
      → Good d Known w (transition_to_compensation d j (stopping_operation o))
  unfolding transition_to_compensation
  stop-Good o j w f k = transition-Good 3 j (stopping_operation o) w f k (stopping_operation-back o)

  pure-Tells :
      (status : _) (o : Option OrderRecord) (j : Option ProvisioningJob) (w : World)
      → IsFine d w
      → Found j w.store
      → Good d Tells w (pure (not_claimed status o j))
  pure-Tells status o j w f k = pure-Good d Tells _ w f (k, λ m e. absurd (some-ne-none _ (sym e)))

  pure-Queues :
      (o : OrderRecord) (j : ProvisioningJob) (b : Bool) (w : World)
      → IsFine d w
      → Known j w.store
      → Good d Tells w
          (pure (claimed_result o (some j) (if b then some (queue_message j) else none)))
  pure-Queues o j b w f k = pure-Good d Tells _ w f (
    (λ i e. subst (λ q. Known q w.store) (some-injective _ _ e) k),
    (λ m e. (j, refl, ground (arith, e))),
  )

  process_stopped-Good :
      (o : OrderRecord) (e : Option ProvisioningJob) (w : World)
      → IsFine d w
      → Found e w.store
      → Good d Tells w (process_stopped d o e)
  unfolding process_stopped
  process_stopped-Good o none w f k = pure-Tells _ (some o) none w f k
  process_stopped-Good o (some j) w f k =
      bind-Good d Known Tells _ _ w (stop-Good o j w f (k j refl))
        λ p v g m q. pure-Queues o p _ v g q

  process_suspended-Good :
      (o : OrderRecord) (j : ProvisioningJob) (w : World)
      → IsFine d w
      → Known j w.store
      → Good d Tells w (process_suspended d o j)
  unfolding process_suspended
  process_suspended-Good o j w f k =
      bind-Good d (λ r s. resume_provisioning_job j ≡ ok r) Tells _ _ w
        (lift-Good d _ _ w f (λ r e. e))
        λ r v g m e.
          bind-Good d (SavedFrom j r) Tells _ _ v
            (save_updated_job-Good d j r v g (Known-later d w.store v.store j m k) (resume e))
            λ p u h n q. pure-Queues o p true u h q.1

  process_existing-Good :
      (o : OrderRecord) (j : ProvisioningJob) (w : World)
      → IsFine d w
      → Known j w.store
      → Good d Tells w (process_existing d o j)
  unfolding process_existing
  process_existing-Good o j w f k =
      if-Good d Tells (is_suspension j.operation) _ _ w (λ e. process_suspended-Good o j w f k)
        (λ e.
          pure-Tells EventProcessingStatus.claimed (some o) (some j) w f
            (λ i h. subst (λ q. Known q w.store) (some-injective _ _ h) k))

  process_new-Good :
      (p : RetryPolicy) (o : OrderRecord) (w : World)
      → IsFine d w
      → Good d Tells w (process_new d p o)
  unfolding process_new
  process_new-Good p o w f =
      bind-Good d (λ j s. create_provisioning_job d.job d.tenant o p ≡ ok j) Tells _ _ w
        (lift-Good d _ _ w f (λ j e. e))
        λ j v g m made.
          attempt-Good d Known Tells _ _ _ v (first_put-Good d o p j v g made)
            (λ q u h n k. pure-Queues o q true u h k)
            (λ e u h n fuel. on_store_conflict-Good d Tells _ e u h fuel (
              bind-Good d Found Tells _ _ u
                (reads-Good d Found _ u h (get_job-Found o.subscription_id))
                λ found x y r k.
                  if_some-Good d Known Tells found _ _ x
                    (λ i same.
                      pure-Tells _ (some o) (some i) x y
                        (λ a z. subst (λ q. Known q x.store) (some-injective _ _ z) (k i same)))
                    (λ same. throw-Good d Tells e x fuel y)))

  process_order-Good :
      (p : RetryPolicy) (o : OrderRecord) (e : Option ProvisioningJob) (w : World)
      → IsFine d w
      → Found e w.store
      → Good d Tells w (process_order d p o e)
  unfolding process_order
  process_order-Good p o e w f k =
      if-Good d Tells (is_stopped o) _ _ w (λ _. process_stopped-Good o e w f k)
        λ _.
          if-Good d Tells (not (is_provisionable_order o)) _ _ w
            (λ _. pure-Tells EventProcessingStatus.claimed (some o) e w f k)
            λ _.
              if_some-Good d Known Tells e _ _ w
                (λ j same. process_existing-Good o j w f (k j same)) (λ _. process_new-Good p o w f)

  put_order_action-Safe : (o : OrderRecord) (v : Option ℕ) → Safe d (put_order_action d o v)
  unfolding put_order_action
  put_order_action-Safe o v = search (safe_rules, put_order-Moves)

  reduce_and_store-Safe :
      (n : ℕ) (e : NormalizedStripeEvent) (o : Option OrderRecord)
      → Safe d (reduce_and_store d n e o)
  unfolding reduce_and_store
  reduce_and_store-Safe zero e o = throw-Safe d (conflict_thrown true) tt
  reduce_and_store-Safe (suc n) e o =
      search (safe_rules, put_order_action-Safe, reduce_and_store-Safe n e) depth 10

  reduce_and_store_order-Safe : (e : NormalizedStripeEvent) → Safe d (reduce_and_store_order d e)
  unfolding reduce_and_store_order
  reduce_and_store_order-Safe (NormalizedStripeEvent.ignored e t s) =
      reduce_and_store-Safe 4 (NormalizedStripeEvent.ignored e t s) none
  reduce_and_store_order-Safe (accepted e t m) = search (safe_rules, reduce_and_store-Safe)

  process_claimed_event-Good :
      (p : RetryPolicy) (e : NormalizedStripeEvent) (w : World)
      → IsFine d w
      → Good d Tells w (process_claimed_event d p e)
  unfolding process_claimed_event
  process_claimed_event-Good p (NormalizedStripeEvent.ignored e t s) w f =
      pure-Tells _ none none w f (λ j h. absurd (some-ne-none _ (sym h)))
  process_claimed_event-Good p (accepted e t m) w f =
      bind-Good d Anything Tells _ _ w ((reduce_and_store_order-Safe (accepted e t m)).holds w f)
        λ stored v g moves _.
          if_some-Good d Anything Tells stored _ _ v
            (λ o _.
              bind-Good d Found Tells _ _ v
                (reads-Good d Found _ v g (get_job-Found m.subscription_id))
                λ j u h n k. process_order-Good p o j u h k)
            (λ _. pure-Tells _ none none v g (λ j h. absurd (some-ne-none _ (sym h))))

  report_unclaimed-Good :
      (status : EventProcessingStatus) (e : NormalizedStripeEvent) (w : World)
      → IsFine d w
      → Good d Tells w (report_unclaimed d status e)
  unfolding report_unclaimed
  report_unclaimed-Good status (NormalizedStripeEvent.ignored e t s) w f =
      pure-Tells status none none w f (λ j h. absurd (some-ne-none _ (sym h)))
  report_unclaimed-Good status (accepted e t m) w f =
      bind-Good d Anything Tells _ _ w (reads-Good d _ _ w f (λ s v. tt)) λ o v g moves _.
        bind-Good d Found Tells _ _ v (reads-Good d Found _ v g (get_job-Found m.subscription_id))
          λ j u h n k. pure-Tells status o j u h k

  process_event-Good :
      (p : RetryPolicy) (e : NormalizedStripeEvent) (c : EventClaimResult) (w : World)
      → IsFine d w
      → Good d Tells w (process_event d p e c)
  unfolding process_event
  process_event-Good p e (EventClaimResult.claimed c) w f = process_claimed_event-Good p e w f
  process_event-Good p e (EventClaimResult.duplicate c) w f = report_unclaimed-Good _ e w f
  process_event-Good p e (EventClaimResult.conflict c) w f = report_unclaimed-Good _ e w f

  pub process_stripe_event-Good :
      (p : RetryPolicy) (e : NormalizedStripeEvent) (w : World)
      → IsFine d w
      → Good d Tells w (process_stripe_event d p e)
  unfolding process_stripe_event
  process_stripe_event-Good p e w f =
      bind-Good d Anything Tells _ _ w
        (writes-Good d Anything _ w f
          (λ s v m. (claim_event-Moves d s (event_claim e), λ a t h. tt)))
        λ c v g m _. process_event-Good p e c v g
