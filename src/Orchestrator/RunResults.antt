-- ===== src/Orchestrator/RunResults.antt =====
-- A whole run of a job: `runProvisioningJob` of infra/provisioning/src/orchestrator.ts ends, keeps
-- to `Moves`, and reports what is stored.
use esig_suite.Prelude.{ℕ, suc, zero, ◌≡◌, sym, true, not, ◌&&◌, none, arith}
use mathlib.Core.Option.{some-ne-none}
use esig_suite.Billing.{OrderRecord}
use esig_suite.Job.{ProvisioningJob, is_failed}
use esig_suite.Ledger.{MemoryStore, LeaseClaim, acquired, held, JobExecutionLease}
use esig_suite.Orchestrator.{Action, Digests, World, pure}
use esig_suite.Orchestrator.Moves.{Moves}
use esig_suite.Orchestrator.Writes.{acquire_lease-Moves}
use esig_suite.Orchestrator.Rules.{
  Good, IsFine, Does, Anything, pure-Good, throw-Good, reads-Good, writes-Good, calls-Good,
  bind-Good, attempt-Good, if-Good, if_some-Good, on_lease_lost-Good, on_store_conflict-Good,
}
use esig_suite.Orchestrator.Safety.{assert_owned-Safe, start-Safe, close-Safe}
use esig_suite.Orchestrator.Saves.{Known, Known-later}
use esig_suite.Orchestrator.Events.{is_stopped}
use esig_suite.Orchestrator.EventSafety.{Found, get_job-Found, stop-Good}
use esig_suite.Orchestrator.Inputs.{RunInput}
use esig_suite.Orchestrator.Runs.{
  ProvisioningRunStatus, ProvisioningRunResult, ready, disabled, deferred, exhausted, run_result,
  is_ready, is_disabled, is_not_due, run_open, run_found, run_once, run_internal, run_leased,
  run_guarded, run_claimed, run_provisioning_job, guard_of,
}
use esig_suite.Orchestrator.RunSafety.{
  Fits, Reports, reports, standing-Reports, current-Good, start_attempt-Good,
}

ready-Fits : (j : ProvisioningJob) → is_ready j.state ≡ true → Fits ready j
ready-Fits j h = ground arith

disabled-Fits : (j : ProvisioningJob) → is_disabled j.state ≡ true → Fits disabled j
disabled-Fits j h = ground arith

exhausted-Fits :
    (j : ProvisioningJob) → (is_failed j.state && j.retry_exhausted) ≡ true → Fits exhausted j
exhausted-Fits j h = ground arith

deferred-Fits : (j : ProvisioningJob) → Fits deferred j
deferred-Fits j = ground arith

Reports-later :
    (d : Digests) (r : ProvisioningRunResult) (s t : MemoryStore)
    → Moves d s t
    → Reports r s
    → Reports r t
Reports-later d r s t m (missing, found) =
    (missing, λ j e. let (known, fits) = found j e in (Known-later d s t j m known, fits))

module _ (d : Digests) (i : RunInput) where
  module _ (recover : Action ProvisioningRunResult) (recovers : Does d Reports recover) where
    open-Good :
        (o : OrderRecord) (j : ProvisioningJob) (w : World)
        → IsFine d w
        → Known j w.store
        → Good d Reports w (run_open d i recover o j)
    unfolding run_open
    open-Good o j w f k =
        let leave : (x : ProvisioningRunStatus)
            → Fits x j
            → Good d Reports w (pure (run_result x j)) =
          λ x fits. pure-Good d Reports _ w f (reports x j w.store k fits) in
        if-Good d Reports (is_ready j.state) _ _ w (λ e. leave ready (ready-Fits j e))
          λ _.
            if-Good d Reports (is_disabled j.state) _ _ w (λ e. leave disabled (disabled-Fits j e))
              λ _.
                if-Good d Reports (is_failed j.state && j.retry_exhausted) _ _ w
                  (λ e. leave exhausted (exhausted-Fits j e))
                  λ _.
                    if-Good d Reports (is_failed j.state && is_not_due j.next_retry_at i.now) _ _ w
                      (λ _. leave deferred (deferred-Fits j))
                      (λ _. start_attempt-Good d i recover recovers o j w f k)

    found-Good :
        (o : OrderRecord) (j : ProvisioningJob) (w : World)
        → IsFine d w
        → Known j w.store
        → Good d Reports w (run_found d i recover o j)
    unfolding run_found
    found-Good o j w f k =
        if-Good d Reports (not (is_stopped o)) _ _ w (λ _. open-Good o j w f k)
          λ _.
            attempt-Good d Known Reports _ _ _ w (stop-Good d o j w f k)
              (λ p v g m q. open-Good o p v g q)
              (λ e v g m fuel. on_store_conflict-Good d Reports _ e v g fuel (recovers v g))

    once-Good : Does d Reports (run_once d i recover)
    unfolding run_once
    once-Good w f =
        let missing = standing-Reports none in
        bind-Good d Anything Reports _ _ w ((assert_owned-Safe d).holds w f) λ _ v g m _.
          bind-Good d Anything Reports _ _ v (reads-Good d _ _ v g (λ s x. tt)) λ o u h n _.
            bind-Good d Found Reports _ _ u
              (reads-Good d Found _ u h (get_job-Found d i.subscription_id))
              λ j x y r found.
                if_some-Good d Anything Reports o _ _ x
                  (λ order _.
                    if_some-Good d Known Reports j _ _ x (λ p e. found-Good order p x y (found p e))
                      (λ _.
                        pure-Good d Reports _ x y
                          (missing x.store (λ p e. absurd (some-ne-none _ (sym e))))))
                  (λ _.
                    pure-Good d Reports _ x y
                      (missing x.store (λ p e. absurd (some-ne-none _ (sym e)))))

  internal-Good : (n : ℕ) → Does d Reports (run_internal d i n)
  unfolding run_internal
  internal-Good zero w f = once-Good _ (current-Good d i i.subscription_id) w f
  internal-Good (suc n) w f = once-Good _ (internal-Good n) w f

  leased-Good : Does d Reports (run_leased d i)
  unfolding run_leased
  leased-Good w f =
      attempt-Good d Reports Reports _ _ _ w (internal-Good 2 w f)
        (λ r v g m q. pure-Good d Reports r v g q)
        (λ e v g m fuel.
          on_lease_lost-Good d Reports _ e v g fuel (current-Good d i i.subscription_id v g))

  guarded-Good : (l : JobExecutionLease) → Does d Reports (run_guarded d i l)
  unfolding run_guarded
  guarded-Good l w f =
      bind-Good d Anything Reports _ _ w ((start-Safe d (guard_of d i l)).holds w f) λ _ v g m _.
        attempt-Good d Reports Reports _ _ _ v (leased-Good v g)
          (λ r u h n q.
            bind-Good d Anything Reports _ _ u ((close-Safe d).holds u h)
              λ _ x y k _. pure-Good d Reports r x y (Reports-later d r u.store x.store k q))
          (λ e u h n fuel.
            bind-Good d Anything Reports _ _ u ((close-Safe d).holds u h)
              λ _ x y k _. throw-Good d Reports e x fuel y)

  claimed-Good : (c : LeaseClaim) → Does d Reports (run_claimed d i c)
  unfolding run_claimed
  claimed-Good held w f = current-Good d i i.subscription_id w f
  claimed-Good (acquired l) w f = guarded-Good l w f

  pub run_provisioning_job-Good : Does d Reports (run_provisioning_job d i)
  unfolding run_provisioning_job
  run_provisioning_job-Good w f =
      bind-Good d Anything Reports _ _ w (calls-Good d Anything _ w f (λ n. tt)) λ now v g m _.
        bind-Good d Anything Reports _ _ v
          (writes-Good d Anything _ v g (λ s x n.
            (acquire_lease-Moves d s i.subscription_id i.execution_owner_id now _, λ c t e. tt)))
          λ c u h n _. claimed-Good c u h
