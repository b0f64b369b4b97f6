-- ===== src/Ledger/Change.antt =====
-- Handoffs and resources: no method takes back what `Grows` names.
use text.Mathlib.TextEquality.{eq_iff}
use esig_suite.Prelude.{
  Bool-cases, Option-cases, sym, ap, ◌∙◌, subst, ℕ, ◌≡◌, refl, String, Bool, true, false, Option,
  none, some, arith, ◌==◌, nat_eq, string_eq, Result, ok, err, inl, inr,
}
use mathlib.Core.Option.{some-injective}
use esig_suite.Failure.{SafeFailure}
use esig_suite.Job.Step.{ProvisioningStep}
use esig_suite.Dict
use esig_suite.Dict.{Dict, get-put, Kept, Kept-refl, Kept-put}
use esig_suite.Ledger.{
  MemoryStore, JobExecutionLease, CredentialHandoffPointer, CredentialSecretPublication,
  ResourceRecord, HandoffState, published,
}
use esig_suite.Ledger.Handoff.{
  begin_handoff, bind_handoff, publish_handoff, revoke_handoff, put_resource, is_evidence,
  is_next_generation, is_blank_for, same_pointer_generation, change_handoff, may_bind, may_publish,
  bound, same_resource, assert_active_lease, is_revoked,
}
use esig_suite.Ledger.{is_active_lease}
use esig_suite.Ledger.History.{after, HandoffKept, Grows, Grows-refl, handoff_write, resource_write}

begun_kept :
    (e : Option CredentialHandoffPointer) (p : CredentialHandoffPointer) (v : Option ℕ)
    → is_next_generation e p v ≡ true
    → (w : CredentialHandoffPointer) → e ≡ some w
    → HandoffKept w (some p)
unfolding is_next_generation
begun_kept none p v h w q = cc
begun_kept (some x) p v h w q = (ground arith, λ r. ground arith)

pub begin_handoff-Grows :
    (p : CredentialHandoffPointer) (l : JobExecutionLease) (now : ℕ) (v : Option ℕ)
    (s : MemoryStore)
    → Grows s (after s (begin_handoff p l now v s))
unfolding begin_handoff assert_active_lease
begin_handoff-Grows p l now v s =
    let e = Dict.get p.handoff_id s.handoffs in
    elim (Bool-cases (is_active_lease (Dict.get l.subscription_id s.leases) l now)) [
      | inr a ↦ rw a (Grows-refl s)
      | inl a ↦ elim (Bool-cases (is_next_generation e p v)) [
        | inr n ↦ rw (a, n) (Grows-refl s)
        | inl n ↦ elim (Bool-cases (is_blank_for p l)) [
          | inr b ↦ rw (a, n, b) (Grows-refl s)
          | inl b ↦ rw (a, n, b) (handoff_write s _ _ (begun_kept e p v n))
        ]
      ]
    ]

generation_id :
    (e p : CredentialHandoffPointer)
    → same_pointer_generation e p ≡ true
    → e.handoff_id ≡ p.handoff_id
unfolding same_pointer_generation
generation_id e p h = ground (arith, eq_iff e.handoff_id p.handoff_id)

changed_kept :
    (m : Dict CredentialHandoffPointer) (e p c : CredentialHandoffPointer)
    → e.handoff_id ≡ p.handoff_id
    → Dict.get p.handoff_id m ≡ some e
    → HandoffKept e (some c)
    → (w : CredentialHandoffPointer) → Dict.get e.handoff_id m ≡ some w
    → HandoffKept w (some c)
changed_kept m e p c same stored kept w h =
    subst (λ x. HandoffKept x (some c))
      (some-injective e w (sym stored ∙ ap (λ i. Dict.get i m) (sym same) ∙ h)) kept

-- A change of a stored pointer is kept, if the change is one that keeps it wherever it is allowed.
pub change_handoff-Grows :
    (allowed : CredentialHandoffPointer → Bool)
    (change : CredentialHandoffPointer → CredentialHandoffPointer)
    → ((e : CredentialHandoffPointer) → allowed e ≡ true → HandoffKept e (some (change e)))
    → (p : CredentialHandoffPointer) (l : JobExecutionLease) (now : ℕ) (s : MemoryStore)
    → Grows s (after s (change_handoff allowed change p l now s))
unfolding change_handoff assert_active_lease
change_handoff-Grows allowed change keeps p l now s =
    elim (Bool-cases (is_active_lease (Dict.get l.subscription_id s.leases) l now)) [
      | inr a ↦ rw a (Grows-refl s)
      | inl a ↦ elim (Option-cases (Dict.get p.handoff_id s.handoffs)) [
        | inl n ↦ rw (a, n, change_handoff) (Grows-refl s)
        | inr (e, n) ↦ elim (Bool-cases (same_pointer_generation e p)) [
          | inr g ↦ rw (a, n, change_handoff, g) (Grows-refl s)
          | inl g ↦ elim (Bool-cases (allowed e)) [
            | inr b ↦ rw (a, n, change_handoff, g, b) (Grows-refl s)
            | inl b ↦
                rw (a, n, change_handoff, g, b)
                  (handoff_write s _ _
                    (changed_kept s.handoffs e p (change e) (generation_id e p g) n (keeps e b)))
          ]
        ]
      ]
    ]

pub bind_handoff-Grows :
    (p : CredentialHandoffPointer) (l : JobExecutionLease) (now : ℕ)
    (c : CredentialSecretPublication) (s : MemoryStore)
    → Grows s (after s (bind_handoff p l now c s))
unfolding bind_handoff bound
bind_handoff-Grows p l now c s =
    change_handoff-Grows (λ e. may_bind e c) (λ e. bound e c) (λ e h. (omega arith, λ r. r)) p l now
      s

may_publish_live :
    (e p : CredentialHandoffPointer) → may_publish e p ≡ true → is_revoked e.state ≡ false
unfolding may_publish
may_publish_live e p h = ground arith

pub publish_handoff-Grows :
    (p : CredentialHandoffPointer) (l : JobExecutionLease) (now : ℕ) (s : MemoryStore)
    → Grows s (after s (publish_handoff p l now s))
unfolding publish_handoff
publish_handoff-Grows p l now s =
    change_handoff-Grows (λ e. may_publish e p) (λ e. record e { state = published })
      (λ e h. (omega arith, λ r. cc (may_publish_live e p h))) p l now s

pub revoke_handoff-Grows :
    (p : CredentialHandoffPointer) (l : JobExecutionLease) (now : ℕ) (s : MemoryStore)
    → Grows s (after s (revoke_handoff p l now s))
unfolding revoke_handoff
revoke_handoff-Grows p l now s =
    change_handoff-Grows (λ e. true) (λ e. record e { state = HandoffState.revoked })
      (λ e h. (omega arith, λ r. refl)) p l now s

-- The store after `putResource`.
abbrev pub stored_in : MemoryStore → Result SafeFailure MemoryStore → MemoryStore
stored_in s (ok t) = t
stored_in s (err e) = s

module _ (resource_digest : String → ProvisioningStep → String → String → String) where
  pub put_resource-Grows :
      (r : ResourceRecord) (s : MemoryStore)
      → Grows s (stored_in s (put_resource resource_digest r s))
  unfolding put_resource
  put_resource-Grows r s =
      elim (Bool-cases
        (r.resource_key == resource_digest r.subscription_id r.step r.kind r.opaque_id)) [
          | inr d ↦ rw d (Grows-refl s)
          | inl d ↦ elim (Option-cases (Dict.get r.resource_key s.resources)) [
            | inl n ↦ rw (d, n, put_resource) (resource_write s _ _ (λ w q. cc))
            | inr (e, n) ↦ elim (Bool-cases (same_resource e r)) [
              | inr f ↦ rw (d, n, put_resource, f) (Grows-refl s)
              | inl f ↦ elim (Bool-cases (is_evidence e.retention)) [
                | inl v ↦ rw (d, n, put_resource, f, v) (Grows-refl s)
                | inr v ↦
                    rw (d, n, put_resource, f, v)
                      (resource_write s _ _ (λ w q k. cc (v, k, some-injective e w (sym n ∙ q))))
              ]
            ]
          ]
        ]
