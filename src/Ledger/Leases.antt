-- ===== src/Ledger/Leases.antt =====
-- Execution leases exclude one another, a lease that was taken over is fenced out for good, and
-- concurrent writers of one order do not lose an update.
use esig_suite.Prelude.{
  ℕ, ◌+◌, ◌<◌, ◌≡◌, refl, subst, sym, String, Bool, true, false, Option, none, some, List, arith,
  nat_eq, string_eq, Result, ok, err, Bool-cases, inl, inr,
}
use esig_suite.Failure.{SafeFailure}
use esig_suite.Billing.{OrderRecord}
use esig_suite.Job.Step.{ProvisioningStep}
use esig_suite.Dict
use esig_suite.Dict.{get-put-same}
use esig_suite.Ledger.{
  MemoryStore, acquired, held, JobExecutionLease, CredentialHandoffPointer,
  CredentialSecretPublication, assert_lease_input, invalid_lease_input, acquire_lease, renew_lease,
  release_lease, is_owner, is_held, fence, conflict_error, put_order, order_conflict, stored_order,
}
use esig_suite.Ledger.Handoff.{
  assert_active_lease, begin_handoff, bind_handoff, publish_handoff, revoke_handoff, change_handoff,
}
use esig_suite.Ledger.Runs.{Call, run, run-Grows}

-- What a lease that was granted on `s`, leaving `t`, gives its owner.
pub record IsGranted (now : ℕ) (l : JobExecutionLease) (s t : MemoryStore) : Type 0 where
  -- No lease was active, and the new one has a token of its own.
  pub free : is_held (Dict.get l.subscription_id s.leases) now ≡ false
  pub fresh : fence (Dict.get l.subscription_id s.leases) < l.fencing_token
  pub stored : Dict.get l.subscription_id t.leases ≡ some l
  -- Until it expires, nobody else is granted one for the subscription.
  pub exclusive :
      (owner : String) (later duration : ℕ)
      → later < l.expires_at
      → assert_lease_input l.subscription_id owner later duration ≡ ok tt
      → acquire_lease l.subscription_id owner later duration t ≡ ok (held, t)

granted_cases :
    (sub owner : String) (now duration : ℕ) (s t : MemoryStore) (l : JobExecutionLease)
    → acquire_lease sub owner now duration s ≡ ok (acquired l, t)
    → (is_held (Dict.get sub s.leases) now ≡ false)
      × (l.subscription_id ≡ sub)
      × (l.fencing_token ≡ fence (Dict.get sub s.leases) + 1)
      × (t ≡ record s { leases = Dict.put sub l s.leases })
unfolding acquire_lease assert_lease_input
granted_cases sub owner now duration s t l h = ground arith

-- A granted lease is the only one until it expires, and its token is greater than any before.
pub acquire_lease-IsGranted :
    (sub owner : String) (now duration : ℕ) (s t : MemoryStore) (l : JobExecutionLease)
    → acquire_lease sub owner now duration s ≡ ok (acquired l, t)
    → (l.subscription_id ≡ sub) × IsGranted now l s t
acquire_lease-IsGranted sub owner now duration s t l h =
    let (free, same, token, e) = granted_cases sub owner now duration s t l h in
    let stored : Dict.get l.subscription_id t.leases ≡ some l =
      subst (λ k. Dict.get k t.leases ≡ some l) (sym same) (rw e (get-put-same sub l s.leases)) in
    (
      same,
      record {
        free = rw same free;
        fresh = rw same (omega (arith, token));
        stored = stored;
        exclusive = λ other later d before valid.
            unfold acquire_lease in rw (valid, stored) (ground (arith, before));
      },
    )

abbrev pub is_ok : {A : Type 0} → Result SafeFailure A → Bool
is_ok (ok a) = true
is_ok (err e) = false

-- What a lease can no longer do to a store.
pub record IsFencedOut (l : JobExecutionLease) (t : MemoryStore) : Type 0 where
  pub no_renewal : (now duration : ℕ) → is_ok (renew_lease l now duration t) ≡ false
  pub no_release : release_lease l t ≡ t
  pub no_begin :
      (p : CredentialHandoffPointer) (now : ℕ) (v : Option ℕ)
      → begin_handoff p l now v t ≡ err (conflict_error true)
  pub no_bind :
      (p : CredentialHandoffPointer) (now : ℕ) (c : CredentialSecretPublication)
      → bind_handoff p l now c t ≡ err (conflict_error true)
  pub no_publish :
      (p : CredentialHandoffPointer) (now : ℕ)
      → publish_handoff p l now t ≡ err (conflict_error true)
  pub no_revoke :
      (p : CredentialHandoffPointer) (now : ℕ)
      → revoke_handoff p l now t ≡ err (conflict_error true)

stale_owner :
    (e : Option JobExecutionLease) (l : JobExecutionLease)
    → l.fencing_token < fence e
    → is_owner e l ≡ false
stale_owner none l h = refl
stale_owner (some x) l h = ground arith

no_renew :
    (l : JobExecutionLease) (now duration : ℕ) (t : MemoryStore)
    → is_owner (Dict.get l.subscription_id t.leases) l ≡ false
    → is_ok (renew_lease l now duration t) ≡ false
unfolding renew_lease assert_lease_input
no_renew l now duration t e =
    elim (Bool-cases (invalid_lease_input l.subscription_id l.owner_id now duration)) [
      | inl bad ↦ rw bad refl
      | inr good ↦ rw (good, e) refl
    ]

stale-IsFencedOut :
    (l : JobExecutionLease) (t : MemoryStore)
    → l.fencing_token < fence (Dict.get l.subscription_id t.leases)
    → IsFencedOut l t
unfolding renew_lease release_lease begin_handoff bind_handoff publish_handoff revoke_handoff
    change_handoff assert_active_lease assert_lease_input
stale-IsFencedOut l t h =
    let e = stale_owner (Dict.get l.subscription_id t.leases) l h in
    record {
      no_renewal = λ now duration. no_renew l now duration t e;
      no_release = rw e;
      no_begin = λ p now v. rw e;
      no_bind = λ p now c. rw e;
      no_publish = λ p now. rw e;
      no_revoke = λ p now. rw e;
    }

-- Once a younger token was granted, a lease is fenced out, whatever is called afterwards: it is not
-- renewed, its release changes nothing, and it cannot touch a credential handoff.
pub taken_over-IsFencedOut :
    (job_digest : String → String)
    (resource_digest : String → ProvisioningStep → String → String → String) (l : JobExecutionLease)
    (s : MemoryStore) (cs : List Call)
    → l.fencing_token < fence (Dict.get l.subscription_id s.leases)
    → IsFencedOut l (run job_digest resource_digest s cs)
taken_over-IsFencedOut job_digest resource_digest l s cs h =
    stale-IsFencedOut l (run job_digest resource_digest s cs)
      (omega (arith, (run-Grows job_digest resource_digest s cs).fences l.subscription_id))

raced :
    (e : Option OrderRecord) (a b : OrderRecord) (v : Option ℕ)
    → order_conflict e a v ≡ false
    → order_conflict (some (stored_order e a)) b v ≡ true
unfolding order_conflict stored_order
raced none a b v h = ground arith
raced (some x) a b v h = ground arith

put_order_cases :
    (a o : OrderRecord) (v : Option ℕ) (s t : MemoryStore)
    → put_order a v s ≡ ok (o, t)
    → (order_conflict (Dict.get a.subscription_id s.orders) a v ≡ false)
      × (t ≡ record s {
        orders =
            Dict.put a.subscription_id
              (stored_order (Dict.get a.subscription_id s.orders) a)
              s.orders;
      })
unfolding put_order
put_order_cases a o v s t h = ground arith

-- Of two writers that read the same version of an order, only the first one writes.
pub put_order-put_order :
    (a b o : OrderRecord) (v : Option ℕ) (s t : MemoryStore)
    → b.subscription_id ≡ a.subscription_id
    → put_order a v s ≡ ok (o, t)
    → put_order b v t ≡ err (conflict_error true)
unfolding put_order order_conflict
put_order-put_order a b o v s t same h =
    let (fits, e) = put_order_cases a o v s t h in
    rw
      (
        same,
        e,
        get-put-same a.subscription_id (stored_order (Dict.get a.subscription_id s.orders) a)
            s.orders,
        raced (Dict.get a.subscription_id s.orders) a b v fits,
      )
      refl
