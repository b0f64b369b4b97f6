-- ===== src/Orchestrator/EffectSafety.antt =====
-- The effects of a step, with its credential handoff, keep to `Moves`
-- (infra/provisioning/src/orchestrator.ts).
use esig_suite.Prelude.{
  Bool, String, Option, none, some, List, [], ◌∷◌, ok, err, Result-cases, inl, inr, subst,
}
use esig_suite.Billing.{OrderRecord}
use esig_suite.Job.{ProvisioningJob, ProvisioningOperation}
use esig_suite.Job.Step.{ProvisioningStep}
use esig_suite.Dict.{Dict}
use esig_suite.Ledger.{MemoryStore, ResourceRecord, CredentialHandoffPointer}
use esig_suite.Ledger.Handoff.{put_resource}
use esig_suite.Ledger.History.{after}
use esig_suite.Ledger.Change.{stored_in}
use esig_suite.Orchestrator.{Digests}
use esig_suite.Orchestrator.Moves.{Moves}
use esig_suite.Orchestrator.Writes.{
  put_resource-Moves, begin_handoff-Moves, bind_handoff-Moves, publish_handoff-Moves,
  revoke_handoff-Moves,
}
use esig_suite.Orchestrator.Rules.{Safe}
use esig_suite.Orchestrator.Safety.{
  safe_rules, pure-Safe, throw-Safe, writes-Safe, if-Safe, bind-Safe, assert_owned-Safe, fence-Safe,
}
use esig_suite.Orchestrator.Effects.{
  ResourceDisposition, StepExecutionResult, StepResourceInput, OneTimeCredential,
  put_resource_action, persist_step_resources, persist_credential_handoff_receipt,
  apply_disposition, apply_to_each, apply_compensation_dispositions,
}
use esig_suite.Orchestrator.Inputs.{RunInput, OneTimeCredentialHandoff}
use esig_suite.Orchestrator.Handoffs.{
  PreparedCredentialHandoff, publish_pending, begin_generation, begin_again, settle_verified,
  prepare_stored, prepare_with, prepare_credential_handoff, publish_credential, publish_prepared,
  publish_credential_if_needed,
}
use esig_suite.Orchestrator.Steps.{after_step, perform_step, undo_step, revoke_pointer}

module _ (d : Digests) where
  put_resource_action-Safe : (r : ResourceRecord) → Safe d (put_resource_action d r)
  unfolding put_resource_action
  put_resource_action-Safe r = writes-Safe d _ moves
    where
      moves :
          (s : MemoryStore)
          → Moves d s
              (after s (elim (put_resource d.resource r s) [ ok t ↦ ok (tt, t) | err e ↦ err e ]))
      moves s = elim (Result-cases (put_resource d.resource r s)) [
        | inl (t, e) ↦ rw e (subst (λ o. Moves d s (stored_in s o)) e (put_resource-Moves d s r))
        | inr (x, e) ↦ rw e (subst (λ o. Moves d s (stored_in s o)) e (put_resource-Moves d s r))
      ]

  persist_step_resources-Safe :
      (j : ProvisioningJob) (step : ProvisioningStep) (rs : List StepResourceInput)
      → Safe d (persist_step_resources d j step rs)
  unfolding persist_step_resources
  persist_step_resources-Safe j step [] = pure-Safe d tt
  persist_step_resources-Safe j step (r ∷ rs) =
      if-Safe d _ _ _ (throw-Safe d _ tt)
        (bind-Safe d _ _ (put_resource_action-Safe _) (λ _. persist_step_resources-Safe j step rs))

  persist_receipt-Safe :
      (j : ProvisioningJob) (id : String) → Safe d (persist_credential_handoff_receipt d j id)
  unfolding persist_credential_handoff_receipt
  persist_receipt-Safe j id = search put_resource_action-Safe

  apply_disposition-Safe :
      (m : Dict ResourceDisposition) (r : ResourceRecord) → Safe d (apply_disposition d m r)
  unfolding apply_disposition
  apply_disposition-Safe m r = search (safe_rules, put_resource_action-Safe)

  apply_to_each-Safe :
      (m : Dict ResourceDisposition) (rs : List ResourceRecord) → Safe d (apply_to_each d m rs)
  unfolding apply_to_each
  apply_to_each-Safe m [] = pure-Safe d tt
  apply_to_each-Safe m (r ∷ rs) =
      if-Safe d _ _ _ (apply_to_each-Safe m rs)
        (bind-Safe d _ _ (apply_disposition-Safe m r) (λ _. apply_to_each-Safe m rs))

  apply_dispositions-Safe :
      (rs : List ResourceRecord) (ds : Option (List ResourceDisposition))
      → Safe d (apply_compensation_dispositions d rs ds)
  unfolding apply_compensation_dispositions
  apply_dispositions-Safe rs ds = search (safe_rules, apply_to_each-Safe)

  publish_pending-Safe : (p : CredentialHandoffPointer) → Safe d (publish_pending d p)
  unfolding publish_pending
  publish_pending-Safe p = search (safe_rules, fence-Safe, publish_handoff-Moves)

  begin_generation-Safe :
      (j : ProvisioningJob) (id : String) (p : Option CredentialHandoffPointer)
      → Safe d (begin_generation d j id p)
  unfolding begin_generation
  begin_generation-Safe j id p = search (safe_rules, fence-Safe, begin_handoff-Moves)

  begin_again-Safe :
      (j : ProvisioningJob) (id : String) (p : CredentialHandoffPointer)
      → Safe d (begin_again d j id p)
  unfolding begin_again
  begin_again-Safe j id p = search (safe_rules, begin_generation-Safe)

  settle_verified-Safe :
      (j : ProvisioningJob) (id : String) (p : CredentialHandoffPointer)
      → Safe d (settle_verified d j id p)
  unfolding settle_verified
  settle_verified-Safe j id p = search (safe_rules, publish_pending-Safe, persist_receipt-Safe)

  prepare_stored-Safe :
      (h : OneTimeCredentialHandoff) (j : ProvisioningJob) (id : String)
      (p : CredentialHandoffPointer)
      → Safe d (prepare_stored d h j id p)
  unfolding prepare_stored
  prepare_stored-Safe h j id p = search (safe_rules, settle_verified-Safe, begin_again-Safe)

  prepare_with-Safe :
      (h : OneTimeCredentialHandoff) (j : ProvisioningJob) → Safe d (prepare_with d h j)
  unfolding prepare_with
  prepare_with-Safe h j = search (safe_rules, begin_generation-Safe, prepare_stored-Safe) depth 8

  prepare-Safe :
      (i : RunInput) (j : ProvisioningJob) (step : ProvisioningStep) (done : Bool)
      → Safe d (prepare_credential_handoff d i j step done)
  unfolding prepare_credential_handoff
  prepare-Safe i j step done = search (safe_rules, prepare_with-Safe)

  publish_credential-Safe :
      (h : OneTimeCredentialHandoff) (j : ProvisioningJob) (p : CredentialHandoffPointer)
      (c : OneTimeCredential)
      → Safe d (publish_credential d h j p c)
  unfolding publish_credential
  publish_credential-Safe h j p c =
      search
        (safe_rules, fence-Safe, bind_handoff-Moves, publish_handoff-Moves, persist_receipt-Safe)
        depth 12

  publish_prepared-Safe :
      (i : RunInput) (j : ProvisioningJob) (p : PreparedCredentialHandoff) (r : StepExecutionResult)
      → Safe d (publish_prepared d i j p r)
  unfolding publish_prepared
  publish_prepared-Safe i j p r = search (safe_rules, publish_credential-Safe) depth 8

  publish_if_needed-Safe :
      (i : RunInput) (j : ProvisioningJob) (step : ProvisioningStep) (p : PreparedCredentialHandoff)
      (r : StepExecutionResult)
      → Safe d (publish_credential_if_needed d i j step p r)
  unfolding publish_credential_if_needed
  publish_if_needed-Safe i j step p r = search (safe_rules, publish_prepared-Safe)

  after_step-Safe :
      (i : RunInput) (step : ProvisioningStep) (op : ProvisioningOperation)
      → Safe d (after_step i step op)
  unfolding after_step
  after_step-Safe i step op = search safe_rules

  pub perform_step-Safe :
      (i : RunInput) (o : OrderRecord) (j : ProvisioningJob) (step : ProvisioningStep)
      → Safe d (perform_step d i o j step)
  unfolding perform_step
  perform_step-Safe i o j step =
      search
        (
          safe_rules, prepare-Safe, assert_owned-Safe, persist_step_resources-Safe,
          publish_if_needed-Safe, after_step-Safe,
        )
        depth 20

  revoke_pointer-Safe :
      (i : RunInput) (o : OrderRecord) (j : ProvisioningJob) (p : Option CredentialHandoffPointer)
      → Safe d (revoke_pointer d i o j p)
  unfolding revoke_pointer
  revoke_pointer-Safe i o j none = pure-Safe d tt
  revoke_pointer-Safe i o j (some p) = search (safe_rules, fence-Safe, revoke_handoff-Moves) depth 8

  pub undo_step-Safe :
      (i : RunInput) (o : OrderRecord) (j : ProvisioningJob) (step : ProvisioningStep)
      → Safe d (undo_step d i o j step)
  unfolding undo_step
  undo_step-Safe i o j step =
      search
        (
          safe_rules, revoke_pointer-Safe, assert_owned-Safe, persist_step_resources-Safe,
          apply_dispositions-Safe, after_step-Safe,
        )
        depth 20
