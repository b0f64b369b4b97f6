-- ===== src/Job/Runs.antt =====
-- Runs of the job state machine: what every reachable job has, and how often an operation is tried.
use esig_suite.Prelude.{ℕ, ◌≡◌, sym, subst, String, false, List, arith, ok, inl, inr}
use esig_suite.Failure.{SafeFailure}
use esig_suite.Billing.{OrderRecord, DeploymentMode}
use esig_suite.Job.{
  ProvisioningJob, ProvisioningOperation, RetryPolicy, is_provisioning, create_provisioning_job,
  start_provisioning_attempt, complete_provisioning_step, fail_provisioning_attempt,
  begin_compensation, complete_compensation_step, resume_provisioning_job, with_completed,
  with_compensated, with_effects, with_nothing, with_operation,
}
use esig_suite.Job.Step.{ProvisioningStep}
use esig_suite.Job.Valid.{
  IsValid, start-IsValid, fail-IsValid, resume-IsValid, create-IsValid, complete_cases,
  with_completed-IsValid, compensate_cases, with_compensated-IsValid,
}
use esig_suite.Job.Compensation.{begin-IsValid}

-- One operation on a job that does not throw.
pub data JobStep (j k : ProvisioningJob) : Type 0 where
  start : (now : ℕ) → start_provisioning_attempt j now ≡ ok k → JobStep j k
  complete : (s : ProvisioningStep) → complete_provisioning_step j s ≡ ok k → JobStep j k
  fail : (f : SafeFailure) (now : ℕ) → fail_provisioning_attempt j f now ≡ ok k → JobStep j k
  begin :
      (observed : List ProvisioningStep) (op : ProvisioningOperation)
      → is_provisioning op ≡ false
      → begin_compensation j observed op ≡ k
      → JobStep j k
  compensate : (s : ProvisioningStep) → complete_compensation_step j s ≡ ok k → JobStep j k
  resume : resume_provisioning_job j ≡ ok k → JobStep j k

pub data Reach (j : ProvisioningJob) : ProvisioningJob → Type 0 where
  here : Reach j j
  next : {k l : ProvisioningJob} → Reach j k → JobStep k l → Reach j l

pub JobStep-IsValid : (j k : ProvisioningJob) → JobStep j k → IsValid j → IsValid k
JobStep-IsValid j k (start now h) v = start-IsValid j now v h
JobStep-IsValid j k (complete s h) v = elim (complete_cases j s h) [
  | inl e ↦ subst IsValid (sym e) v
  | inr (r, n, e) ↦ subst IsValid (sym e) (with_completed-IsValid j s v r n)
]
JobStep-IsValid j k (fail f now h) v = fail-IsValid j f now v h
JobStep-IsValid j k (begin observed op back h) v =
    subst IsValid h (begin-IsValid j observed op back v)
JobStep-IsValid j k (compensate s h) v = elim (compensate_cases j s h) [
  | inl e ↦ subst IsValid (sym e) v
  | inr (_, back, n, e) ↦ subst IsValid (sym e) (with_compensated-IsValid j s v back n)
]
JobStep-IsValid j k (resume h) v = resume-IsValid j v h

Reach-IsValid : {j k : ProvisioningJob} → Reach j k → IsValid j → IsValid k
Reach-IsValid here v = v
Reach-IsValid (next {k = k} {l = l} r s) v = JobStep-IsValid k l s (Reach-IsValid r v)

-- Every job that the operations lead to from a created one is well formed: its completed steps are
-- the first of the fixed order, all of them when it is ready; a disabled job has undone each; the
-- state fits the operation; the attempts stay within the policy.
pub created-IsValid :
    (job_digest : String → String) (tenant_digest : String → DeploymentMode → String)
    (o : OrderRecord) (p : RetryPolicy) (j k : ProvisioningJob)
    → create_provisioning_job job_digest tenant_digest o p ≡ ok j
    → Reach j k
    → IsValid k
created-IsValid job_digest tenant_digest o p j k made r =
    Reach-IsValid r (create-IsValid job_digest tenant_digest o p made)

-- The identity of a job.
pub record SameIdentity (j k : ProvisioningJob) : Type 0 where
  pub job : k.job_id ≡ j.job_id
  pub subscription : k.subscription_id ≡ j.subscription_id
  pub tenant : k.tenant_id ≡ j.tenant_id
  pub version : k.version ≡ j.version
  pub policy : k.retry_policy ≡ j.retry_policy

pub JobStep-SameIdentity : (j k : ProvisioningJob) → JobStep j k → SameIdentity j k
unfolding start_provisioning_attempt fail_provisioning_attempt resume_provisioning_job
JobStep-SameIdentity j k (start now h) = ground arith
JobStep-SameIdentity j k (complete s h) =
    unfold with_completed in ground (arith, complete_cases j s h)
JobStep-SameIdentity j k (fail f now h) = ground arith
JobStep-SameIdentity j k (begin observed op back h) =
    unfold begin_compensation with_effects with_nothing with_operation in ground arith
JobStep-SameIdentity j k (compensate s h) =
    unfold with_compensated in ground (arith, compensate_cases j s h)
JobStep-SameIdentity j k (resume h) = ground arith

-- No operation changes the identity of a job: a resumed activation keeps its tenant.
pub Reach-SameIdentity : (j k : ProvisioningJob) → Reach j k → SameIdentity j k
Reach-SameIdentity j k here = ground arith
Reach-SameIdentity j k (next {k = i} r s) =
    ground (arith, Reach-SameIdentity j i r, JobStep-SameIdentity i k s)
