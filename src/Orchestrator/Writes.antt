-- ===== src/Orchestrator/Writes.antt =====
-- The store's methods that do not write a job keep to `Moves`
-- (infra/provisioning/src/memory-store.ts as infra/provisioning/src/orchestrator.ts calls it).
use esig_suite.Prelude.{ℕ, ◌≡◌, String, Option, arith, Bool}
use esig_suite.Billing.{OrderRecord}
use esig_suite.Ledger.{
  MemoryStore, EventClaim, JobExecutionLease, CredentialHandoffPointer, CredentialSecretPublication,
  ResourceRecord, claim_event, put_order, acquire_lease, renew_lease, release_lease,
}
use esig_suite.Ledger.Handoff.{
  begin_handoff, bind_handoff, publish_handoff, revoke_handoff, change_handoff, put_resource,
}
use esig_suite.Ledger.History.{after}
use esig_suite.Ledger.Growth.{
  claim_event-Grows, put_order-Grows, acquire_lease-Grows, renew_lease-Grows, release_lease-Grows,
}
use esig_suite.Ledger.Change.{
  begin_handoff-Grows, bind_handoff-Grows, publish_handoff-Grows, revoke_handoff-Grows, stored_in,
  put_resource-Grows,
}
use esig_suite.Orchestrator.{Digests}
use esig_suite.Orchestrator.Moves.{Moves, Moves-same_jobs}

module _ (s : MemoryStore) where
  put_order-jobs : (o : OrderRecord) (v : Option ℕ) → (after s (put_order o v s)).jobs ≡ s.jobs
  unfolding put_order
  put_order-jobs o v = ground arith

  acquire_lease-jobs :
      (sub owner : String) (now duration : ℕ)
      → (after s (acquire_lease sub owner now duration s)).jobs ≡ s.jobs
  unfolding acquire_lease
  acquire_lease-jobs sub owner now duration = ground arith

  renew_lease-jobs :
      (l : JobExecutionLease) (now duration : ℕ)
      → (after s (renew_lease l now duration s)).jobs ≡ s.jobs
  unfolding renew_lease
  renew_lease-jobs l now duration = ground arith

  release_lease-jobs : (l : JobExecutionLease) → (release_lease l s).jobs ≡ s.jobs
  unfolding release_lease
  release_lease-jobs l = ground arith

  begin_handoff-jobs :
      (p : CredentialHandoffPointer) (l : JobExecutionLease) (now : ℕ) (v : Option ℕ)
      → (after s (begin_handoff p l now v s)).jobs ≡ s.jobs
  unfolding begin_handoff
  begin_handoff-jobs p l now v = ground arith

  change_handoff-jobs :
      (allowed : CredentialHandoffPointer → Bool)
      (change : CredentialHandoffPointer → CredentialHandoffPointer) (p : CredentialHandoffPointer)
      (l : JobExecutionLease) (now : ℕ)
      → (after s (change_handoff allowed change p l now s)).jobs ≡ s.jobs
  unfolding change_handoff
  change_handoff-jobs allowed change p l now = ground arith

module _ (d : Digests) (s : MemoryStore) where
  pub put_order-Moves : (o : OrderRecord) (v : Option ℕ) → Moves d s (after s (put_order o v s))
  put_order-Moves o v = Moves-same_jobs d s _ (put_order-Grows o v s) (put_order-jobs s o v)

  pub claim_event-Moves : (c : EventClaim) → Moves d s (claim_event c s).1
  claim_event-Moves c =
      Moves-same_jobs d s _ (claim_event-Grows c s) (unfold claim_event in ground arith)

  pub acquire_lease-Moves :
      (sub owner : String) (now duration : ℕ)
      → Moves d s (after s (acquire_lease sub owner now duration s))
  acquire_lease-Moves sub owner now duration =
      Moves-same_jobs d s _ (acquire_lease-Grows sub owner now duration s)
        (acquire_lease-jobs s sub owner now duration)

  pub renew_lease-Moves :
      (l : JobExecutionLease) (now duration : ℕ)
      → Moves d s (after s (renew_lease l now duration s))
  renew_lease-Moves l now duration =
      Moves-same_jobs d s _ (renew_lease-Grows l now duration s) (renew_lease-jobs s l now duration)

  pub release_lease-Moves : (l : JobExecutionLease) → Moves d s (release_lease l s)
  release_lease-Moves l = Moves-same_jobs d s _ (release_lease-Grows l s) (release_lease-jobs s l)

  pub begin_handoff-Moves :
      (p : CredentialHandoffPointer) (l : JobExecutionLease) (now : ℕ) (v : Option ℕ)
      → Moves d s (after s (begin_handoff p l now v s))
  begin_handoff-Moves p l now v =
      Moves-same_jobs d s _ (begin_handoff-Grows p l now v s) (begin_handoff-jobs s p l now v)

  pub bind_handoff-Moves :
      (p : CredentialHandoffPointer) (l : JobExecutionLease) (now : ℕ)
      (c : CredentialSecretPublication)
      → Moves d s (after s (bind_handoff p l now c s))
  bind_handoff-Moves p l now c =
      Moves-same_jobs d s _ (bind_handoff-Grows p l now c s)
        (unfold bind_handoff in change_handoff-jobs s _ _ p l now)

  pub publish_handoff-Moves :
      (p : CredentialHandoffPointer) (l : JobExecutionLease) (now : ℕ)
      → Moves d s (after s (publish_handoff p l now s))
  publish_handoff-Moves p l now =
      Moves-same_jobs d s _ (publish_handoff-Grows p l now s)
        (unfold publish_handoff in change_handoff-jobs s _ _ p l now)

  pub revoke_handoff-Moves :
      (p : CredentialHandoffPointer) (l : JobExecutionLease) (now : ℕ)
      → Moves d s (after s (revoke_handoff p l now s))
  revoke_handoff-Moves p l now =
      Moves-same_jobs d s _ (revoke_handoff-Grows p l now s)
        (unfold revoke_handoff in change_handoff-jobs s _ _ p l now)

  pub put_resource-Moves :
      (r : ResourceRecord) → Moves d s (stored_in s (put_resource d.resource r s))
  put_resource-Moves r =
      Moves-same_jobs d s _ (put_resource-Grows d.resource r s)
        (unfold put_resource in ground arith)
