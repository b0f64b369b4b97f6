-- ===== src/Orchestrator/Moves.antt =====
-- What a worker, or the workers beside it, may do to the store: jobs are created as
-- `createProvisioningJob` makes them and move by the state machine, one version at a time, and
-- nothing that the store keeps is taken back (infra/provisioning/src/orchestrator.ts).
use esig_suite.Prelude.{
  ◌+◌, ◌<◌, ◌≡◌, refl, sym, subst, ◌∙◌, ◌⊎◌, String, Option, none, some, arith, ok,
}
use mathlib.Core.Option.{some-injective}
use esig_suite.Billing.{OrderRecord}
use esig_suite.Job.{ProvisioningJob, RetryPolicy, create_provisioning_job}
use esig_suite.Job.Valid.{IsValid, create-IsValid}
use esig_suite.Job.Runs.{JobStep, JobStep-IsValid, JobStep-SameIdentity}
use esig_suite.Dict
use esig_suite.Ledger.{MemoryStore}
use esig_suite.Ledger.History.{Grows, Grows-refl}
use esig_suite.Ledger.Runs.{Grows-trans}
use esig_suite.Orchestrator.{Digests}

-- The record that `putJob` stores for an updated job.
unfoldable pub next_version : ProvisioningJob → ProvisioningJob → ProvisioningJob
next_version i j = record j { version = i.version + 1 }

-- From the job stored under a subscription, if any, to the one stored later.
pub data Leads (d : Digests) (k : String) (o : Option ProvisioningJob)
    : Option ProvisioningJob → Type 0 where
  stays : Leads d k o o
  creates :
      (order : OrderRecord) (policy : RetryPolicy) {j : ProvisioningJob}
      → Leads d k o none
      → create_provisioning_job d.job d.tenant order policy ≡ ok j
      → order.subscription_id ≡ k
      → Leads d k o (some j)
  steps :
      {i j : ProvisioningJob}
      → Leads d k o (some i)
      → JobStep i j
      → Leads d k o (some (next_version i j))

pub record Moves (d : Digests) (s t : MemoryStore) : Type 0 where
  pub grows : Grows s t
  pub jobs : (k : String) → Leads d k (Dict.get k s.jobs) (Dict.get k t.jobs)

-- Every stored job is well formed and stands under its subscription.
abbrev pub IsKeyed : String → ProvisioningJob → Type 0
IsKeyed k j = IsValid j × (j.subscription_id ≡ k)

abbrev pub HasValidJobs : MemoryStore → Type 0
HasValidJobs s = (k : String) (j : ProvisioningJob) → Dict.get k s.jobs ≡ some j → IsKeyed k j

-- A job that was read: it is still the stored one, or a younger version is.
abbrev pub SeenIn : ProvisioningJob → Option ProvisioningJob → Type 0
SeenIn j none = ⊥
SeenIn j (some k) = (k ≡ j) ⊎ (j.version < k.version)

abbrev pub Seen : ProvisioningJob → MemoryStore → Type 0
Seen j s = SeenIn j (Dict.get j.subscription_id s.jobs)

pub created_subscription :
    (d : Digests) (o : OrderRecord) (p : RetryPolicy) (j : ProvisioningJob)
    → create_provisioning_job d.job d.tenant o p ≡ ok j
    → j.subscription_id ≡ o.subscription_id
unfolding create_provisioning_job
created_subscription d o p j h = ground arith

pub next_version-IsValid : (i j : ProvisioningJob) → IsValid j → IsValid (next_version i j)
unfolding next_version
next_version-IsValid i j v = record {
  in_order = v.in_order;
  complete = v.complete;
  undone = v.undone;
  undoes = v.undoes;
  clean = v.clean;
  fitting = v.fitting;
  attempts = v.attempts;
  some_attempt = v.some_attempt;
  fresh = v.fresh;
  may_retry = v.may_retry;
}

next_version-IsKeyed :
    (k : String) (i j : ProvisioningJob) → JobStep i j → IsKeyed k i → IsKeyed k (next_version i j)
unfolding next_version
next_version-IsKeyed k i j s (v, e) = (
  next_version-IsValid i j (JobStep-IsValid i j s v),
  (JobStep-SameIdentity i j s).subscription ∙ e,
)

module _ (d : Digests) where
  Leads-IsKeyed :
      (k : String) (o p : Option ProvisioningJob)
      → Leads d k o p
      → ((j : ProvisioningJob) → o ≡ some j → IsKeyed k j)
      → (j : ProvisioningJob) → p ≡ some j
      → IsKeyed k j
  Leads-IsKeyed k o _ stays f j h = f j h
  Leads-IsKeyed k o _ (creates order policy {j = c} l made e) f j h =
      subst (IsKeyed k) (some-injective _ _ h) (
        create-IsValid d.job d.tenant order policy made,
        created_subscription d order policy c made ∙ e,
      )
  Leads-IsKeyed k o _ (steps {i = i} {j = c} l s) f j h =
      subst (IsKeyed k) (some-injective _ _ h)
        (next_version-IsKeyed k i c s (Leads-IsKeyed k o (some i) l f i refl))

  pub Moves-HasValidJobs : (s t : MemoryStore) → Moves d s t → HasValidJobs s → HasValidJobs t
  Moves-HasValidJobs s t m v k j h =
      Leads-IsKeyed k (Dict.get k s.jobs) (Dict.get k t.jobs) (m.jobs k) (v k) j h

  Leads-SeenIn :
      (k : String) (j : ProvisioningJob) (o p : Option ProvisioningJob)
      → Leads d k o p
      → SeenIn j o
      → SeenIn j p
  unfolding next_version
  Leads-SeenIn k j o _ stays h = h
  Leads-SeenIn k j o _ (creates order policy l made e) h = absurd (Leads-SeenIn k j o none l h)
  Leads-SeenIn k j o _ (steps {i = i} l s) h = ground (arith, Leads-SeenIn k j o (some i) l h)

  pub Moves-Seen : (s t : MemoryStore) (j : ProvisioningJob) → Moves d s t → Seen j s → Seen j t
  Moves-Seen s t j m h = Leads-SeenIn j.subscription_id j _ _ (m.jobs j.subscription_id) h

  Leads-trans :
      (k : String) (o p q : Option ProvisioningJob) → Leads d k o p → Leads d k p q → Leads d k o q
  Leads-trans k o p _ l stays = l
  Leads-trans k o p _ l (creates order policy m made e) =
      creates order policy (Leads-trans k o p none l m) made e
  Leads-trans k o p _ l (steps {i = i} m s) = steps (Leads-trans k o p (some i) l m) s

  pub Moves-refl : (s : MemoryStore) → Moves d s s
  Moves-refl s = record { grows = Grows-refl s; jobs = λ k. stays }

  pub Moves-trans : (s t u : MemoryStore) → Moves d s t → Moves d t u → Moves d s u
  Moves-trans s t u m n = record {
    grows = Grows-trans s t u m.grows n.grows;
    jobs = λ k. Leads-trans k _ _ _ (m.jobs k) (n.jobs k);
  }

  -- A write that leaves the jobs alone.
  pub Moves-same_jobs : (s t : MemoryStore) → Grows s t → t.jobs ≡ s.jobs → Moves d s t
  Moves-same_jobs s t g e = record {
    grows = g;
    jobs = λ k. subst (λ m. Leads d k (Dict.get k s.jobs) (Dict.get k m)) (sym e) stays;
  }
