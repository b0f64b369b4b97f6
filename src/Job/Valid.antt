-- ===== src/Job/Valid.antt =====
-- What holds of every job that the state machine can reach.
use mathlib.Core.List.{reverse}
use esig_suite.Prelude.{
  ℕ, suc, ◌≤◌, ◌<◌, ◌≡◌, sym, ap, ◌∙◌, Bool, true, false, not, Option, none, some, List, [], ◌∷◌,
  ◌++◌, arith, ◌==◌, nat_eq, ok, length, take, get_elem?, every, ◌⊎◌, every-append, any-reverse,
  find-any, ==_refl, take-suc, length-append, String,
}
use esig_suite.Failure.{SafeFailure}
use esig_suite.Billing.{OrderRecord, DeploymentMode}
use esig_suite.Job.{
  ProvisioningJob, ProvisioningState, ProvisioningOperation, RetryPolicy, provisioning, queued,
  running, ready, failed, compensating, disabled, is_provisioning, create_provisioning_job,
  start_provisioning_attempt, with_completed, with_compensated, complete_provisioning_step,
  fail_provisioning_attempt, complete_compensation_step, resume_provisioning_job,
  next_provisioning_step, is_step, next_compensation_step, is_valid_policy,
}
use esig_suite.Job.Step.{ProvisioningStep, provisioning_steps, step_eq, includes}

-- A provisioning job is not compensating or disabled; any other job is failed or one of these.
abbrev pub fits : ProvisioningState → ProvisioningOperation → Bool
fits failed _ = true
fits compensating op = not (is_provisioning op)
fits disabled op = not (is_provisioning op)
fits _ op = is_provisioning op

pub record IsValid (j : ProvisioningJob) : Type 0 where
  -- The completed steps are the first ones, in their order.
  pub in_order : j.completed_steps ≡ take (length j.completed_steps) provisioning_steps
  -- A ready job has completed all of them; a disabled one has undone what it completed.
  pub complete : j.state ≡ ready → j.completed_steps ≡ provisioning_steps
  pub undone : j.state ≡ disabled → every (includes j.compensated_steps) j.completed_steps ≡ true
  -- Only what was completed is undone, and nothing while provisioning.
  pub undoes : every (includes j.completed_steps) j.compensated_steps ≡ true
  pub clean : j.operation ≡ provisioning → j.compensated_steps ≡ []
  -- The state fits the operation.
  pub fitting : fits j.state j.operation ≡ true
  -- Attempts stay within the policy.
  pub attempts : j.attempt ≤ j.retry_policy.max_attempts
  pub some_attempt : 1 ≤ j.retry_policy.max_attempts
  pub fresh : j.state ≡ queued → j.attempt ≡ 0
  pub may_retry :
      j.state ≡ failed → j.retry_exhausted ≡ false → j.attempt < j.retry_policy.max_attempts

pub start-IsValid :
    (j : ProvisioningJob) (now : ℕ) {k : ProvisioningJob}
    → IsValid j
    → start_provisioning_attempt j now ≡ ok k
    → IsValid k
unfolding start_provisioning_attempt
start-IsValid j now v h = ground arith

pub fail-IsValid :
    (j : ProvisioningJob) (f : SafeFailure) (now : ℕ) {k : ProvisioningJob}
    → IsValid j
    → fail_provisioning_attempt j f now ≡ ok k
    → IsValid k
unfolding fail_provisioning_attempt
fail-IsValid j f now v h = ground arith

pub resume-IsValid :
    (j : ProvisioningJob) {k : ProvisioningJob}
    → IsValid j
    → resume_provisioning_job j ≡ ok k
    → IsValid k
unfolding resume_provisioning_job
resume-IsValid j v h = ground arith

module _ (job_digest : String → String) (tenant_digest : String → DeploymentMode → String) where
  pub create-IsValid :
      (o : OrderRecord) (p : RetryPolicy) {k : ProvisioningJob}
      → create_provisioning_job job_digest tenant_digest o p ≡ ok k
      → IsValid k
  unfolding create_provisioning_job is_valid_policy
  create-IsValid o p h = ground arith

-- `completed` grows by the step that is next.
in_order-append :
    (xs : List ProvisioningStep) (s : ProvisioningStep)
    → xs ≡ take (length xs) provisioning_steps
    → get_elem? provisioning_steps (length xs) ≡ some s
    → xs ++ s ∷ [] ≡ take (suc (length xs)) provisioning_steps
in_order-append xs s h e = ap (λ ys. ys ++ s ∷ []) h ∙ take-suc (length xs) provisioning_steps e

is_step-some :
    (o : Option ProvisioningStep) (s : ProvisioningStep) → is_step o s ≡ true → o ≡ some s
is_step-some none s h = cc
is_step-some (some t) s h = ap some ((step_eq.equals_iff t s).0 h)

-- A step is completed only if it is the next one of a running job.
pub complete_cases :
    (j : ProvisioningJob) (s : ProvisioningStep) {k : ProvisioningJob}
    → complete_provisioning_step j s ≡ ok k
    → (k ≡ j)
      ⊎ ((j.state ≡ running) × (next_provisioning_step j ≡ some s) × (k ≡ with_completed j s))
unfolding complete_provisioning_step
complete_cases j s h = ground (arith, is_step-some (next_provisioning_step j) s)

take_at :
    {xs : List ProvisioningStep} (m n : ℕ)
    → xs ≡ take m provisioning_steps
    → m ≡ n
    → xs ≡ take n provisioning_steps
take_at m n h e = h ∙ ap (λ k. take k provisioning_steps) e

pub with_completed-IsValid :
    (j : ProvisioningJob) (s : ProvisioningStep)
    → IsValid j
    → j.state ≡ running
    → next_provisioning_step j ≡ some s
    → IsValid (with_completed j s)
unfolding with_completed next_provisioning_step
with_completed-IsValid j s v r h =
    let e = length-append j.completed_steps (s ∷ []) in
    let grown = in_order-append j.completed_steps s v.in_order h in
    record {
      in_order = take_at (suc (length j.completed_steps)) _ grown (omega (arith, e));
      complete = λ r. take_at (suc (length j.completed_steps)) 7 grown (ground (arith, e));
      undone = ground arith;
      undoes = ground (arith, v.clean);
      clean = v.clean;
      fitting = ground arith;
      attempts = v.attempts;
      some_attempt = v.some_attempt;
      fresh = ground arith;
      may_retry = ground arith;
    }

pub next_compensation_step-completed :
    (j : ProvisioningJob) (s : ProvisioningStep)
    → next_compensation_step j ≡ some s
    → includes j.completed_steps s ≡ true
unfolding next_compensation_step
next_compensation_step-completed j s h =
    sym (any-reverse (λ t. t == s) j.completed_steps)
    ∙ find-any (λ t. not (includes j.compensated_steps t)) (λ t. t == s) (reverse j.completed_steps)
        s h (==_refl s)

pub compensate_cases :
    (j : ProvisioningJob) (s : ProvisioningStep) {k : ProvisioningJob}
    → complete_compensation_step j s ≡ ok k
    → (k ≡ j)
      ⊎ ((j.state ≡ compensating)
          × (is_provisioning j.operation ≡ false)
          × (next_compensation_step j ≡ some s)
          × (k ≡ with_compensated j s))
unfolding complete_compensation_step
compensate_cases j s h = ground (arith, is_step-some (next_compensation_step j) s)

pub with_compensated-IsValid :
    (j : ProvisioningJob) (s : ProvisioningStep)
    → IsValid j
    → is_provisioning j.operation ≡ false
    → next_compensation_step j ≡ some s
    → IsValid (with_compensated j s)
unfolding with_compensated
with_compensated-IsValid j s v back h = record {
  in_order = v.in_order;
  complete = λ r. ground arith;
  undone = ground arith;
  undoes = ground (
    arith,
    v.undoes,
    next_compensation_step-completed j s h,
    every-append (includes j.completed_steps) j.compensated_steps (s ∷ []),
  );
  clean = ground arith;
  fitting = ground arith;
  attempts = v.attempts;
  some_attempt = v.some_attempt;
  fresh = ground arith;
  may_retry = ground arith;
}
