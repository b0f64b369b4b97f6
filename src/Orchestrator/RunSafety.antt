-- ===== src/Orchestrator/RunSafety.antt =====
-- What a run of a job does, whatever the driver and the other workers do meanwhile:
-- `runProvisioningJob` of infra/provisioning/src/orchestrator.ts.
use esig_suite.Prelude.{
  ℕ, suc, zero, ◌<◌, ◌≡◌, refl, sym, subst, String, Bool, true, not, Option, none, some, arith, ok,
  if◌then◌else◌, nat_eq,
}
use mathlib.Core.Option.{some-injective, some-ne-none}
use esig_suite.Failure.{SafeFailure, mode_mismatch, invalid_order, failure}
use esig_suite.Billing.{OrderRecord}
use esig_suite.Job.{
  ProvisioningJob, ProvisioningState, is_running, is_compensating, is_provisioning,
  fail_provisioning_attempt, start_provisioning_attempt, has_provisioning_identity,
  is_provisionable_order,
}
use esig_suite.Job.Runs.{start, fail}
use esig_suite.Ledger.{MemoryStore}
use esig_suite.Orchestrator.{
  Action, Thrown, error, version_conflict, lease_lost, out_of_fuel, Digests, World,
}
use esig_suite.Orchestrator.Rules.{
  Good, IsFine, Does, Anything, HasFuel, pure-Good, throw-Good, lift-Good, reads-Good, bind-Good,
  attempt-Good, if-Good, if_some-Good, on_version_conflict-Good,
}
use esig_suite.Orchestrator.Saves.{Known, Known-later, SavedFrom, save_updated_job-Good}
use esig_suite.Orchestrator.EventSafety.{Found, get_job-Found}
use esig_suite.Orchestrator.Rounds.{
  Advances, to_complete, to_undo, to_complete-le, to_undo-le, provisioning_round-Good,
  compensation_round-Good,
}
use esig_suite.Orchestrator.Inputs.{RunInput}
use esig_suite.Orchestrator.Runs.{
  ProvisioningRunStatus, ProvisioningRunResult, ready, disabled, failed, exhausted, not_found,
  run_result, is_ready, is_disabled, standing, standing_status, current_run_result, is_started,
  has_mode, finished_provisioning, finished_compensation, save_failed, handle, loop,
  run_provisioning_steps, run_compensation_steps, run_started, start_attempt,
}

-- What a run's status says of the job that it returns.
pub record Fits (status : ProvisioningRunStatus) (j : ProvisioningJob) : Type 0 where
  pub ready : status ≡ ready → j.state ≡ ProvisioningState.ready
  pub disabled : status ≡ disabled → j.state ≡ ProvisioningState.disabled
  pub exhausted :
      status ≡ exhausted → (j.state ≡ ProvisioningState.failed) × (j.retry_exhausted ≡ true)

abbrev pub Reports : ProvisioningRunResult → MemoryStore → Type 0
Reports r s =
    (r.job ≡ none → r.status ≡ not_found)
    × ((j : ProvisioningJob) → r.job ≡ some j → Known j s × Fits r.status j)

pub reports :
    (status : ProvisioningRunStatus) (j : ProvisioningJob) (s : MemoryStore)
    → Known j s
    → Fits status j
    → Reports (run_result status j) s
reports status j s k f = (
  λ e. absurd (some-ne-none _ e),
  λ i e. subst (λ q. Known q s × Fits status q) (some-injective _ _ e) (k, f),
)

standing_status-Fits : (j : ProvisioningJob) → Fits (standing_status j) j
unfolding standing_status
standing_status-Fits j = ground arith

pub standing-Reports :
    (o : Option ProvisioningJob) (s : MemoryStore) → Found o s → Reports (standing o) s
unfolding standing
standing-Reports none s f = (λ e. refl, λ j e. absurd (some-ne-none _ (sym e)))
standing-Reports (some j) s f = reports _ j s (f j refl) (standing_status-Fits j)

failed-Fits : (j : ProvisioningJob) → Fits failed j
failed-Fits j = ground arith

finished_provisioning-Fits :
    (j : ProvisioningJob) → Fits (if is_ready j.state then ready else failed) j
finished_provisioning-Fits j = ground arith

finished_compensation-Fits :
    (j : ProvisioningJob) → Fits (if is_disabled j.state then disabled else failed) j
finished_compensation-Fits j = ground arith

module _ (d : Digests) (i : RunInput) where
  pub current-Good : (k : String) → Does d Reports (current_run_result k)
  unfolding current_run_result
  current-Good k w f =
      reads-Good d Reports _ w f (λ s v. standing-Reports _ s (get_job-Found d k s v))

  module _ (recover : Action ProvisioningRunResult) (recovers : Does d Reports recover) where
    save_failed-Good :
        (j : ProvisioningJob) (x : SafeFailure) (w : World)
        → IsFine d w
        → Known j w.store
        → Good d Reports w (save_failed d i recover j x)
    unfolding save_failed
    save_failed-Good j x w f k =
        bind-Good d (λ n s. fail_provisioning_attempt j x i.now ≡ ok n) Reports _ _ w
          (lift-Good d _ _ w f (λ n e. e))
          λ n v g m e.
            attempt-Good d (SavedFrom j n) Reports _ _ _ v
              (save_updated_job-Good d j n v g (Known-later d w.store v.store j m k)
                (fail x i.now e))
              (λ p u h r q.
                pure-Good d Reports _ u h (reports failed p u.store q.1 (failed-Fits p)))
              (λ t u h r fuel. on_version_conflict-Good d Reports _ t u h fuel (recovers u h))

    handle-Good :
        (j : ProvisioningJob) (e : Thrown) (w : World)
        → IsFine d w
        → Known j w.store
        → HasFuel e
        → Good d Reports w (handle d i recover j e)
    unfolding handle
    handle-Good j lease_lost w f k h = throw-Good d Reports lease_lost w tt f
    handle-Good j version_conflict w f k h = recovers w f
    handle-Good j (error e) w f k h = save_failed-Good j _ w f k
    handle-Good j out_of_fuel w f k h = absurd h

    -- A loop whose rounds make progress ends before its fuel does.
    loop-Good :
        (goes_on : ProvisioningJob → Bool)
        (round : ProvisioningJob → Action (Option ProvisioningJob))
        (finish : ProvisioningJob → ProvisioningRunResult) (measure : ProvisioningJob → ℕ)
        → ((j : ProvisioningJob) (w : World)
            → IsFine d w
            → Known j w.store
            → Good d (Advances measure j) w (round j))
        → ((j : ProvisioningJob) (s : MemoryStore) → Known j s → Reports (finish j) s)
        → (fuel : ℕ) (j : ProvisioningJob) (w : World) → IsFine d w
        → Known j w.store
        → measure j < fuel
        → Good d Reports w (loop d i recover goes_on round finish fuel j)
    unfolding loop
    loop-Good goes_on round finish measure each done zero j w f k less = absurd (omega arith)
    loop-Good goes_on round finish measure each done (suc fuel) j w f k less =
        if-Good d Reports (not (goes_on j)) _ _ w
          (λ _. pure-Good d Reports (finish j) w f (done j w.store k))
          λ _.
            attempt-Good d (Advances measure j) Reports _ _ _ w (each j w f k)
              (λ o v g m q.
                let later = Known-later d w.store v.store j m k in
                if_some-Good d Anything Reports o _ _ v
                  (λ n e.
                    let (known, fewer) = subst (λ r. Advances measure j r v.store) e q in
                    loop-Good goes_on round finish measure each done fuel n v g known
                      (omega (arith, fewer, less)))
                  (λ e. pure-Good d Reports (finish j) v g (done j v.store later)))
              (λ e v g m fueled. handle-Good j e v g (Known-later d w.store v.store j m k) fueled)

    provisioning-Good :
        (o : OrderRecord) (j : ProvisioningJob) (w : World)
        → IsFine d w
        → Known j w.store
        → Good d Reports w (run_provisioning_steps d i recover o j)
    unfolding run_provisioning_steps finished_provisioning
    provisioning-Good o j w f k =
        loop-Good (λ p. is_running p.state) _ _ to_complete (provisioning_round-Good d i o)
          (λ p s q. reports _ p s q (finished_provisioning-Fits p)) 8 j w f k
          (omega (arith, to_complete-le j))

    compensation-Good :
        (o : OrderRecord) (j : ProvisioningJob) (w : World)
        → IsFine d w
        → Known j w.store
        → Good d Reports w (run_compensation_steps d i recover o j)
    unfolding run_compensation_steps finished_compensation
    compensation-Good o j w f k =
        loop-Good (λ p. is_compensating p.state) _ _ to_undo (compensation_round-Good d i o)
          (λ p s q. reports _ p s q (finished_compensation-Fits p)) 8 j w f k
          (omega (arith, to_undo-le j k.valid))

    started-Good :
        (o : OrderRecord) (j : ProvisioningJob) (w : World)
        → IsFine d w
        → Known j w.store
        → Good d Reports w (run_started d i recover o j)
    unfolding run_started
    started-Good o j w f k =
        if-Good d Reports (not (has_mode o.mode i.driver.mode)) _ _ w
          (λ _. save_failed-Good j (failure mode_mismatch) w f k)
          λ _.
            if-Good d Reports (not (is_provisioning j.operation)) _ _ w
              (λ _.
                if-Good d Reports (not (has_provisioning_identity o)) _ _ w
                  (λ _. save_failed-Good j (failure invalid_order) w f k)
                  (λ _. compensation-Good o j w f k))
              λ _.
                if-Good d Reports (not (is_provisionable_order o)) _ _ w
                  (λ _. save_failed-Good j (failure invalid_order) w f k)
                  (λ _. provisioning-Good o j w f k)

    pub start_attempt-Good :
        (o : OrderRecord) (j : ProvisioningJob) (w : World)
        → IsFine d w
        → Known j w.store
        → Good d Reports w (start_attempt d i recover o j)
    unfolding start_attempt
    start_attempt-Good o j w f k =
        bind-Good d (λ n s. start_provisioning_attempt j i.now ≡ ok n) Reports _ _ w
          (lift-Good d _ _ w f (λ n e. e))
          λ n v g m e.
            let known = Known-later d w.store v.store j m k in
            if-Good d Reports (is_started j) _ _ v (λ _. started-Good o j v g known)
              λ _.
                attempt-Good d (SavedFrom j n) Reports _ _ _ v
                  (save_updated_job-Good d j n v g known (start i.now e))
                  (λ p u h r q. started-Good o p u h q.1)
                  (λ t u h r fuel. on_version_conflict-Good d Reports _ t u h fuel (recovers u h))
