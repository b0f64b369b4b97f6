-- ===== src/Orchestrator/Outcomes.antt =====
-- What workers may rely on: the results of `runProvisioningJob` and `processStripeEvent`
-- (infra/provisioning/src/orchestrator.ts) while other workers write to the same store.
use esig_suite.Prelude.{inl, inr, Option-cases, ◌∙◌, ◌≡◌, sym, subst, some, ok, err, arith}
use esig_suite.Billing.{NormalizedStripeEvent}
use esig_suite.Job.{ProvisioningJob, RetryPolicy}
use esig_suite.Job.Step.{provisioning_steps}
use esig_suite.Orchestrator.{out_of_fuel, Digests, World}
use esig_suite.Orchestrator.Moves.{Moves, Seen}
use esig_suite.Orchestrator.Rules.{IsFine, Returns}
use esig_suite.Orchestrator.Events.{
  EventProcessingResult, QueueMessage, queue_message, process_stripe_event,
}
use esig_suite.Orchestrator.EventSafety.{Tells, process_stripe_event-Good}
use esig_suite.Orchestrator.Inputs.{RunInput}
use esig_suite.Orchestrator.Runs.{
  ProvisioningRunResult, ready, not_found, run_provisioning_job, ProvisioningRunStatus,
}
use esig_suite.Orchestrator.RunSafety.{Reports}
use esig_suite.Orchestrator.RunResults.{run_provisioning_job-Good}

not_ready : ¬ (ProvisioningRunStatus.ready ≡ not_found)
not_ready h = ground arith

module _ (d : Digests) (i : RunInput) (w : World) where
  -- Whatever the driver, the secret store, the clock and the hooks do: if the other workers only
  -- create jobs, move them by the state machine one version at a time, and take nothing back, then
  -- with this worker's writes among theirs that is still all that has happened to the store.
  pub run_provisioning_job-Moves : IsFine d w → Moves d w.store (run_provisioning_job d i w).1.store
  run_provisioning_job-Moves f = (run_provisioning_job-Good d i w f).leaves.moves

  -- A run ends within eight rounds of each loop, however often the store conflicts: it returns, or
  -- it throws what the code throws, but it never runs out of fuel.
  pub run_provisioning_job-ends : IsFine d w → ¬ ((run_provisioning_job d i w).0 ≡ err out_of_fuel)
  run_provisioning_job-ends f h =
      let good = (run_provisioning_job-Good d i w f).leaves in
      subst (λ r. Returns Reports r (run_provisioning_job d i w).1.store) h good.returns

  -- A run that reports `ready` returns a job that was stored, whose seven steps are all completed,
  -- in their order; it is still stored or a younger version is.
  pub run_provisioning_job-ready :
      (r : ProvisioningRunResult)
      → IsFine d w
      → (run_provisioning_job d i w).0 ≡ ok r
      → r.status ≡ ready
      → (j : ProvisioningJob) × (r.job ≡ some j)
        × (j.completed_steps ≡ provisioning_steps)
        × Seen j (run_provisioning_job d i w).1.store
  run_provisioning_job-ready r f h e =
      let good = (run_provisioning_job-Good d i w f).leaves in
      let told =
        subst (λ o. Returns Reports o (run_provisioning_job d i w).1.store) h good.returns in
      elim (Option-cases r.job) [
        | inl n ↦ absurd (not_ready (sym e ∙ told.0 n))
        | inr (j, n) ↦
            let (known, fits) = told.1 j n in
            (j, n, known.valid.complete (fits.ready e), known.seen)
      ]

module _ (d : Digests) (p : RetryPolicy) (e : NormalizedStripeEvent) (w : World) where
  -- The same of a billing event: while the others keep to it, the event's claim, the order and the
  -- job that it writes take nothing back, and the job is created or moved by the state machine.
  pub process_stripe_event-Moves :
      IsFine d w → Moves d w.store (process_stripe_event d p e w).1.store
  process_stripe_event-Moves f = (process_stripe_event-Good d p e w f).leaves.moves

  -- An event that asks for a worker asks for the stored job that it returns, or for one of which
  -- another worker has stored a younger version since.
  pub process_stripe_event-wakes :
      (r : EventProcessingResult) (m : QueueMessage)
      → IsFine d w
      → (process_stripe_event d p e w).0 ≡ ok r
      → r.queue_message ≡ some m
      → (j : ProvisioningJob) × (r.job ≡ some j)
        × (m ≡ queue_message j)
        × Seen j (process_stripe_event d p e w).1.store
  process_stripe_event-wakes r m f h q =
      let good = (process_stripe_event-Good d p e w f).leaves in
      let told =
        subst (λ o. Returns Tells o (process_stripe_event d p e w).1.store) h good.returns in
      let (j, found, same) = told.1 m q in (j, found, same, (told.0 j found).seen)
