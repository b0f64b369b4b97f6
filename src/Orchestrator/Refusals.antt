-- ===== src/Orchestrator/Refusals.antt =====
-- What workers refuse and leave alone, in infra/provisioning/src/orchestrator.ts: without the lease,
-- or without a place for a credential.
use esig_suite.Prelude.{
  ◌≡◌, ap, ◌∙◌, Bool, true, false, ◌||◌, none, some, [], arith, ok, err, string_eq,
}
use esig_suite.Failure.{credential_handoff_required}
use esig_suite.Billing.{OrderRecord}
use esig_suite.Job.{ProvisioningJob}
use esig_suite.Job.Step.{ProvisioningStep}
use esig_suite.Ledger.Reads.{list_resources}
use esig_suite.Orchestrator.{lease_lost, Digests, World, Guard, lift, reads, throw_when, ◌>>◌}
use esig_suite.Orchestrator.Lease.{assert_owned, check_owned, renew, guarded, under}
use esig_suite.Orchestrator.Effects.{thrown, has_credential_handoff_receipt}
use esig_suite.Orchestrator.Inputs.{RunInput}
use esig_suite.Orchestrator.Handoffs.{needs_handoff}
use esig_suite.Orchestrator.Steps.{perform_step, provisioning_round, compensation_round, of_step}
use esig_suite.Orchestrator.Quiet.{bind-ok, bind-err, quiet-reads, lift-ok, throw_when-true}

-- A guard that has lost its lease, or is closed.
abbrev pub is_released : Guard → Bool
is_released g = g.lost || g.closed

released-assert_owned :
    (g : Guard) (w : World)
    → w.guard ≡ some g
    → is_released g ≡ true
    → assert_owned w ≡ (err lease_lost, w)
unfolding assert_owned check_owned guarded
released-assert_owned g w e h =
    bind-err (check_owned >> renew) (λ _. check_owned) w w lease_lost
      (bind-err check_owned (λ _. renew) w w lease_lost
        (ap (λ o. under o (λ k. throw_when (is_released k) lease_lost) w) e
          ∙ throw_when-true (is_released g) lease_lost w h))

module _ (d : Digests) (i : RunInput) (o : OrderRecord) (j : ProvisioningJob) (w : World) where
  -- A worker that has lost its lease, or has closed it, performs no further step in either
  -- direction: it calls no driver, writes nothing, and throws.
  pub released-stops :
      (g : Guard)
      → w.guard ≡ some g
      → is_released g ≡ true
      → (provisioning_round d i o j w ≡ (err lease_lost, w))
        × (compensation_round d i o j w ≡ (err lease_lost, w))
  unfolding provisioning_round compensation_round
  released-stops g e h =
      let stopped = released-assert_owned g w e h in
      (
        bind-err assert_owned _ w w lease_lost stopped,
        bind-err assert_owned _ w w lease_lost stopped,
      )

  -- A step that needs the credential handoff, with no receipt stored and no secret store given,
  -- fails before the driver is called, and writes nothing.
  pub perform_step-refuses :
      (s : ProvisioningStep)
      → w.meanwhile ≡ []
      → needs_handoff i s ≡ true
      → i.credential_handoff ≡ none
      → has_credential_handoff_receipt d
          (of_step s (list_resources d.locale_after j.subscription_id w.store))
          j
        ≡ ok false
      → perform_step d i o j s w ≡ (err (thrown credential_handoff_required), w)
  unfolding perform_step
  perform_step-refuses s quiet needs without missing =
      let found = list_resources d.locale_after j.subscription_id w.store in
      bind-ok (reads (list_resources d.locale_after j.subscription_id)) _ w w _
        (quiet-reads w quiet _)
      ∙ bind-ok (lift (has_credential_handoff_receipt d (of_step s found) j)) _ w w false
          (lift-ok _ false w missing)
      ∙ bind-err (throw_when _ (thrown credential_handoff_required)) _ w w _
          (throw_when-true _ _ w (ground (arith, needs, without)))
