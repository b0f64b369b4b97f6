-- ===== src/Job/Retries.antt =====
-- How often an operation is tried, and how long the waits between the attempts are.
use esig_suite.Prelude.{ℕ, suc, zero, ◌+◌, ◌-◌, ◌^◌, ◌≤◌, min, ◌≡◌, ◌≢◌, refl, arith, ok}
use native.Mathlib.Nat.{one-le-pow, pow-le-pow_right}
use esig_suite.Failure.{SafeFailure}
use esig_suite.Job.{
  ProvisioningJob, running, compensating, failed, start_provisioning_attempt,
  fail_provisioning_attempt, retry_delay_ms,
}
use esig_suite.Job.Valid.{IsValid, start-IsValid, fail-IsValid}

-- `n` attempts in a row that all fail, from a job that is not under way.
pub data Failures (j : ProvisioningJob) : ℕ → ProvisioningJob → Type 0 where
  none_yet : j.state ≢ running → j.state ≢ compensating → Failures j zero j
  again :
      {n : ℕ} {k l m : ProvisioningJob}
      → Failures j n k
      → (now : ℕ) → start_provisioning_attempt k now ≡ ok l
      → (f : SafeFailure) (later : ℕ) → fail_provisioning_attempt l f later ≡ ok m
      → Failures j (suc n) m

-- After a failed attempt the job is failed, and one attempt is used up.
attempt_used :
    (k l m : ProvisioningJob) (now later : ℕ) (f : SafeFailure)
    → k.state ≢ running
    → k.state ≢ compensating
    → start_provisioning_attempt k now ≡ ok l
    → fail_provisioning_attempt l f later ≡ ok m
    → (m.attempt ≡ k.attempt + 1) × (m.state ≡ failed) × (m.retry_policy ≡ k.retry_policy)
unfolding start_provisioning_attempt fail_provisioning_attempt
attempt_used k l m now later f r c s e = ground arith

pub record Spent (j m : ProvisioningJob) (n : ℕ) : Type 0 where
  pub used : m.attempt ≡ j.attempt + n
  pub policy : m.retry_policy ≡ j.retry_policy
  pub idle : (m.state ≢ running) × (m.state ≢ compensating)
  pub valid : IsValid m

Failures-Spent : (j m : ProvisioningJob) (n : ℕ) → IsValid j → Failures j n m → Spent j m n
Failures-Spent j m zero v (none_yet r c) = record {
  used = omega arith;
  policy = refl;
  idle = (r, c);
  valid = v;
}
Failures-Spent j m (suc n) v (again {k = k} {l = l} fs now s f later e) =
    let h = Failures-Spent j k n v fs in
    let u = attempt_used k l m now later f h.idle.0 h.idle.1 s e in
    record {
      used = omega (arith, u.0, h.used);
      policy = ground (arith, u.2, h.policy);
      idle = ground (arith, u.1);
      valid = fail-IsValid l f later (start-IsValid k now h.valid s) e;
    }

-- No more attempts can fail in a row than the policy allows.
pub Failures-le-max_attempts :
    (j m : ProvisioningJob) (n : ℕ)
    → IsValid j
    → Failures j n m
    → j.attempt + n ≤ j.retry_policy.max_attempts
Failures-le-max_attempts j m n v fs =
    let h = Failures-Spent j m n v fs in
    let bound = h.valid.attempts in ground (arith, h.used, h.policy, bound)

-- Every delay lies between the base delay and the greatest one, and a later attempt under the same
-- policy never waits less.
pub retry_delay_bounds :
    (j : ProvisioningJob) (later : ℕ)
    → j.retry_policy.base_delay_ms ≤ j.retry_policy.max_delay_ms
    → j.attempt ≤ later
    → (j.retry_policy.base_delay_ms ≤ retry_delay_ms j)
      × (retry_delay_ms j ≤ retry_delay_ms (record j { attempt = later }))
      × (retry_delay_ms (record j { attempt = later }) ≤ j.retry_policy.max_delay_ms)
unfolding retry_delay_ms
retry_delay_bounds j later h k =
    let base = j.retry_policy.base_delay_ms in
    let some_wait : 1 ≤ 2 ^ min (j.attempt - 1) 30 =
      one-le-pow (min (j.attempt - 1) 30) 2 (omega arith) in
    let grown : 2 ^ min (j.attempt - 1) 30 ≤ 2 ^ min (later - 1) 30 =
      pow-le-pow_right (omega arith) (omega arith) in
    (grind (arith, some_wait), grind (arith, grown), omega arith)
