-- ===== src/Ledger/Growth.antt =====
-- Claims, orders, jobs and leases: no method takes back what `Grows` names.
use text.Mathlib.TextEquality.{eq_iff}
use esig_suite.Prelude.{
  Bool-cases, Option-cases, ℕ, ◌+◌, ◌≤◌, ◌≡◌, String, true, false, not, Option, none, some, arith,
  ◌==◌, nat_eq, string_eq, inl, inr,
}
use esig_suite.Billing.{OrderRecord, state_precedence}
use esig_suite.Job.{ProvisioningJob, deterministic_job_id}
use esig_suite.Dict
use esig_suite.Dict.{Dict, get-put, Kept, Kept-refl, Kept-put}
use esig_suite.Ledger.{
  MemoryStore, EventClaim, JobExecutionLease, fence, claim_event, put_order, put_job,
  order_conflict, leaves_terminal, stored_order, job_conflict, stored_job, acquire_lease,
  renew_lease, release_lease,
}
use esig_suite.Ledger.{assert_lease_input, invalid_lease_input, is_owner, is_held, with_expiry}
use esig_suite.Ledger.History.{
  after, OrderKept, JobKept, Grows, Grows-refl, event_write, order_write, job_write, lease_write,
}

pub claim_event-Grows : (c : EventClaim) (s : MemoryStore) → Grows s (claim_event c s).1
unfolding claim_event
claim_event-Grows c s = elim (Option-cases (Dict.get c.event_id s.events)) [
  | inl e ↦ rw (e, claim_event) (event_write s c e)
  | inr (_, e) ↦ rw (e, claim_event) (Grows-refl s)
]

order_kept :
    (e : Option OrderRecord) (o : OrderRecord) (v : Option ℕ)
    → order_conflict e o v ≡ false
    → leaves_terminal e o ≡ false
    → (w : OrderRecord) → e ≡ some w
    → OrderKept w (some (stored_order e o))
unfolding stored_order leaves_terminal state_precedence
order_kept none o v h t w p = cc
order_kept (some x) o v h t w p = (ground arith, λ r. ground arith, λ r. ground arith)

pub put_order-Grows :
    (o : OrderRecord) (v : Option ℕ) (s : MemoryStore) → Grows s (after s (put_order o v s))
unfolding put_order
put_order-Grows o v s =
    let e = Dict.get o.subscription_id s.orders in
    elim (Bool-cases (order_conflict e o v)) [
      | inl c ↦ rw c (Grows-refl s)
      | inr c ↦ elim (Bool-cases (leaves_terminal e o)) [
        | inl t ↦ rw (c, t) (Grows-refl s)
        | inr t ↦ rw (c, t) (order_write s _ _ (order_kept e o v c t))
      ]
    ]

job_kept :
    (e : Option ProvisioningJob) (j : ProvisioningJob) (v : Option ℕ)
    → job_conflict e j v ≡ false
    → (w : ProvisioningJob) → e ≡ some w
    → JobKept w (some (stored_job e j))
unfolding stored_job job_conflict
job_kept none j v h w p = cc
job_kept (some x) j v h w p = ground (arith, eq_iff x.job_id j.job_id)

module _ (job_digest : String → String) where
  pub put_job-Grows :
      (j : ProvisioningJob) (v : Option ℕ) (s : MemoryStore)
      → Grows s (after s (put_job job_digest j v s))
  unfolding put_job deterministic_job_id
  put_job-Grows j v s =
      let e = Dict.get j.subscription_id s.jobs in
      elim (Bool-cases (j.subscription_id == "")) [
        | inl n ↦ rw n (Grows-refl s)
        | inr n ↦ elim (Bool-cases (not (j.job_id == job_digest j.subscription_id))) [
          | inl d ↦ rw (n, d) (Grows-refl s)
          | inr d ↦ elim (Bool-cases (job_conflict e j v)) [
            | inl c ↦ rw (n, d, c) (Grows-refl s)
            | inr c ↦ rw (n, d, c) (job_write s _ _ (job_kept e j v c))
          ]
        ]
      ]

pub acquire_lease-Grows :
    (sub owner : String) (now duration : ℕ) (s : MemoryStore)
    → Grows s (after s (acquire_lease sub owner now duration s))
unfolding acquire_lease assert_lease_input
acquire_lease-Grows sub owner now duration s =
    elim (Bool-cases (invalid_lease_input sub owner now duration)) [
      | inl i ↦ rw i (Grows-refl s)
      | inr i ↦ elim (Bool-cases (is_held (Dict.get sub s.leases) now)) [
        | inl h ↦ rw (i, h) (Grows-refl s)
        | inr h ↦ rw (i, h) (lease_write s _ _ (omega arith))
      ]
    ]

-- The stored lease keeps its token when only its expiry changes.
lease_kept :
    (e : Option JobExecutionLease) (l : JobExecutionLease) (at : ℕ)
    → is_owner e l ≡ true
    → fence e ≤ (with_expiry e l at).fencing_token
lease_kept none l at h = omega arith
lease_kept (some x) l at h = omega arith

pub renew_lease-Grows :
    (l : JobExecutionLease) (now duration : ℕ) (s : MemoryStore)
    → Grows s (after s (renew_lease l now duration s))
unfolding renew_lease assert_lease_input
renew_lease-Grows l now duration s =
    let e = Dict.get l.subscription_id s.leases in
    elim (Bool-cases (invalid_lease_input l.subscription_id l.owner_id now duration)) [
      | inl i ↦ rw i (Grows-refl s)
      | inr i ↦ elim (Bool-cases (is_owner e l)) [
        | inl o ↦ elim (Bool-cases (is_held e now)) [
          | inl h ↦ rw (i, o, h) (lease_write s _ _ (lease_kept e l (now + duration) o))
          | inr h ↦ rw (i, o, h) (Grows-refl s)
        ]
        | inr o ↦ rw (i, o) (Grows-refl s)
      ]
    ]

pub release_lease-Grows : (l : JobExecutionLease) (s : MemoryStore) → Grows s (release_lease l s)
unfolding release_lease
release_lease-Grows l s =
    let e = Dict.get l.subscription_id s.leases in
    elim (Bool-cases (is_owner e l)) [
      | inl o ↦ rw o (lease_write s _ _ (lease_kept e l 0 o))
      | inr o ↦ rw o (Grows-refl s)
    ]
