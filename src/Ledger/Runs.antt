-- ===== src/Ledger/Runs.antt =====
-- Histories of the store: calls of its methods in any order, by any workers.
use esig_suite.Prelude.{ℕ, String, Option, none, some, List, [], ◌∷◌, arith}
use esig_suite.Billing.{OrderRecord}
use esig_suite.Job.{ProvisioningJob}
use esig_suite.Job.Step.{ProvisioningStep}
use esig_suite.Dict.{Kept-trans}
use esig_suite.Ledger.{
  MemoryStore, EventClaim, JobExecutionLease, CredentialHandoffPointer, CredentialSecretPublication,
  ResourceRecord, claim_event, put_order, put_job, acquire_lease, renew_lease, release_lease,
}
use esig_suite.Ledger.Handoff.{
  begin_handoff, bind_handoff, publish_handoff, revoke_handoff, put_resource,
}
use esig_suite.Ledger.History.{after, OrderKept, JobKept, HandoffKept, Grows, Grows-refl}
use esig_suite.Ledger.Growth.{
  claim_event-Grows, put_order-Grows, put_job-Grows, acquire_lease-Grows, renew_lease-Grows,
  release_lease-Grows,
}
use esig_suite.Ledger.Change.{
  begin_handoff-Grows, bind_handoff-Grows, publish_handoff-Grows, revoke_handoff-Grows, stored_in,
  put_resource-Grows,
}

-- A call of a method that writes, with its arguments.
pub data Call : Type 0 where
  claims : EventClaim → Call
  puts_order : OrderRecord → Option ℕ → Call
  puts_job : ProvisioningJob → Option ℕ → Call
  acquires : String → String → ℕ → ℕ → Call
  renews : JobExecutionLease → ℕ → ℕ → Call
  releases : JobExecutionLease → Call
  begins : CredentialHandoffPointer → JobExecutionLease → ℕ → Option ℕ → Call
  binds : CredentialHandoffPointer → JobExecutionLease → ℕ → CredentialSecretPublication → Call
  publishes revokes : CredentialHandoffPointer → JobExecutionLease → ℕ → Call
  puts_resource : ResourceRecord → Call

OrderKept-trans :
    (a b : OrderRecord) (c : Option OrderRecord)
    → OrderKept a (some b)
    → OrderKept b c
    → OrderKept a c
OrderKept-trans a b none h k = k
OrderKept-trans a b (some c) h k = (omega arith, λ r. k.1 (h.1 r), λ r. k.2 (h.2 r))

JobKept-trans :
    (a b : ProvisioningJob) (c : Option ProvisioningJob)
    → JobKept a (some b)
    → JobKept b c
    → JobKept a c
JobKept-trans a b none h k = k
JobKept-trans a b (some c) h k = ground arith

HandoffKept-trans :
    (a b : CredentialHandoffPointer) (c : Option CredentialHandoffPointer)
    → HandoffKept a (some b)
    → HandoffKept b c
    → HandoffKept a c
HandoffKept-trans a b none h k = k
HandoffKept-trans a b (some c) h k = (omega arith, λ r. k.1 (h.1 r))

pub Grows-trans : (s t u : MemoryStore) → Grows s t → Grows t u → Grows s u
Grows-trans s t u g h = record {
  events = λ k c e. h.events k c (g.events k c e);
  orders =
      Kept-trans OrderKept (λ w n. n) OrderKept-trans s.orders t.orders u.orders g.orders h.orders;
  jobs = Kept-trans JobKept (λ w n. n) JobKept-trans s.jobs t.jobs u.jobs g.jobs h.jobs;
  fences = λ k. omega (arith, g.fences k, h.fences k);
  handoffs =
      Kept-trans HandoffKept (λ w n. n) HandoffKept-trans s.handoffs t.handoffs u.handoffs
        g.handoffs h.handoffs;
  evidence = λ k r e v. h.evidence k r (g.evidence k r e v) v;
}

module _ (job_digest : String → String)
    (resource_digest : String → ProvisioningStep → String → String → String) where
  pub step : MemoryStore → Call → MemoryStore
  step s (claims c) = (claim_event c s).1
  step s (puts_order o v) = after s (put_order o v s)
  step s (puts_job j v) = after s (put_job job_digest j v s)
  step s (acquires sub owner now duration) = after s (acquire_lease sub owner now duration s)
  step s (renews l now duration) = after s (renew_lease l now duration s)
  step s (releases l) = release_lease l s
  step s (begins p l now v) = after s (begin_handoff p l now v s)
  step s (binds p l now c) = after s (bind_handoff p l now c s)
  step s (publishes p l now) = after s (publish_handoff p l now s)
  step s (revokes p l now) = after s (revoke_handoff p l now s)
  step s (puts_resource r) = stored_in s (put_resource resource_digest r s)

  pub run : MemoryStore → List Call → MemoryStore
  run s [] = s
  run s (c ∷ cs) = run (step s c) cs

  step-Grows : (s : MemoryStore) (c : Call) → Grows s (step s c)
  unfolding step
  step-Grows s (claims c) = claim_event-Grows c s
  step-Grows s (puts_order o v) = put_order-Grows o v s
  step-Grows s (puts_job j v) = put_job-Grows job_digest j v s
  step-Grows s (acquires sub owner now duration) = acquire_lease-Grows sub owner now duration s
  step-Grows s (renews l now duration) = renew_lease-Grows l now duration s
  step-Grows s (releases l) = release_lease-Grows l s
  step-Grows s (begins p l now v) = begin_handoff-Grows p l now v s
  step-Grows s (binds p l now c) = bind_handoff-Grows p l now c s
  step-Grows s (publishes p l now) = publish_handoff-Grows p l now s
  step-Grows s (revokes p l now) = revoke_handoff-Grows p l now s
  step-Grows s (puts_resource r) = put_resource-Grows resource_digest r s

  -- Whatever methods are called, in whatever order: a claimed event keeps its first claim; an order
  -- keeps its terminal state, and its version never falls; a job keeps its id, and its version never
  -- falls; fencing tokens never fall; a handoff's generation never falls, and a revoked handoff
  -- stays revoked; immutable evidence stays as it was stored.
  pub run-Grows : (s : MemoryStore) (cs : List Call) → Grows s (run s cs)
  unfolding run
  run-Grows s [] = Grows-refl s
  run-Grows s (c ∷ cs) =
      Grows-trans s (step s c) (run (step s c) cs) (step-Grows s c) (run-Grows (step s c) cs)
