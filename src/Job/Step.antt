-- ===== src/Job/Step.antt =====
-- The steps of a provisioning job and their order (infra/provisioning/src/domain.ts).
use esig_suite.Prelude.{
  ℕ, ◌≡◌, ◌↔◌, Bool, List, [], ◌∷◌, arith, Comparable, ◌==◌, nat_eq, any, true,
}

pub data ProvisioningStep : Type 0 where
  resolve_tenant owner_membership plan_entitlement api_credential : ProvisioningStep
  storage_namespace activation_metadata mark_ready : ProvisioningStep

abbrev pub provisioning_steps : List ProvisioningStep
provisioning_steps =
    resolve_tenant ∷ owner_membership ∷ plan_entitlement ∷ api_credential ∷ storage_namespace
    ∷ activation_metadata ∷ mark_ready ∷ []

-- `PROVISIONING_STEPS.indexOf(step)`
abbrev pub step_index : ProvisioningStep → ℕ
step_index resolve_tenant = 0
step_index owner_membership = 1
step_index plan_entitlement = 2
step_index api_credential = 3
step_index storage_namespace = 4
step_index activation_metadata = 5
step_index mark_ready = 6

abbrev pub step_equals : ProvisioningStep → ProvisioningStep → Bool
step_equals s t = step_index s == step_index t

pub step_equals_iff : (s t : ProvisioningStep) → (step_equals s t ≡ true) ↔ (s ≡ t)
step_equals_iff s t = ground arith

instance abbrev pub step_eq : Comparable ProvisioningStep
step_eq = record { equals = step_equals; equals_iff = step_equals_iff }

abbrev pub includes : List ProvisioningStep → ProvisioningStep → Bool
includes ss s = any (λ t. t == s) ss
