-- ===== src/Ledger/Handoff.antt =====
-- Credential handoffs and resources of `InMemoryProvisioningStore`
-- (infra/provisioning/src/memory-store.ts).
use esig_suite.Prelude.{
  ℕ, ◌+◌, String, Bool, true, false, not, ◌&&◌, ◌||◌, Option, none, some, ◌==◌, nat_eq, string_eq,
  option_eq, if◌then◌else◌, is_some, is_none, Result, ok, err, ◌>>◌, throw_if,
}
use esig_suite.Failure.{SafeFailure}
use esig_suite.Job.Step.{ProvisioningStep, step_eq}
use esig_suite.Dict
use esig_suite.Ledger.{
  MemoryStore, Outcome, JobExecutionLease, CredentialHandoffPointer, CredentialSecretPublication,
  HandoffState, pending, published, ResourceRecord, Retention, mutable, immutable_evidence,
  conflict_error, is_active_lease,
}

unfoldable pub assert_active_lease :
    JobExecutionLease → ℕ → MemoryStore → Result SafeFailure (Unit {0})
assert_active_lease lease now s =
    throw_if (not (is_active_lease (Dict.get lease.subscription_id s.leases) lease now))
      (conflict_error true)

abbrev pub is_pending : HandoffState → Bool
is_pending pending = true
is_pending _ = false

abbrev pub is_published : HandoffState → Bool
is_published published = true
is_published _ = false

abbrev pub is_revoked : HandoffState → Bool
is_revoked HandoffState.revoked = true
is_revoked _ = false

abbrev has_generation : Option ℕ → ℕ → Bool
has_generation none g = false
has_generation (some e) g = e == g

-- `validNew || validReplacement`
unfoldable pub is_next_generation :
    Option CredentialHandoffPointer → CredentialHandoffPointer → Option ℕ → Bool
is_next_generation none pointer expected = is_none expected && pointer.publication_generation == 0
is_next_generation (some existing) pointer expected =
    has_generation expected existing.publication_generation
    && pointer.publication_generation == existing.publication_generation + 1
    && not (is_revoked existing.state)

unfoldable pub is_blank_for : CredentialHandoffPointer → JobExecutionLease → Bool
is_blank_for pointer lease =
    is_pending pointer.state
    && pointer.subscription_id == lease.subscription_id
    && pointer.fencing_token == lease.fencing_token
    && is_none pointer.secret_id
    && is_none pointer.publication_id
    && is_none pointer.credential_id

unfoldable pub begin_handoff :
    CredentialHandoffPointer
    → JobExecutionLease
    → ℕ
    → Option ℕ
    → MemoryStore
    → Outcome CredentialHandoffPointer
begin_handoff pointer lease now expected s = do
  assert_active_lease lease now s
  let existing = Dict.get pointer.handoff_id s.handoffs
  throw_if (not (is_next_generation existing pointer expected) || not (is_blank_for pointer lease))
      (conflict_error true)
  ok (pointer, record s { handoffs = Dict.put pointer.handoff_id pointer s.handoffs })

unfoldable pub same_pointer_generation : CredentialHandoffPointer → CredentialHandoffPointer → Bool
same_pointer_generation left right =
    left.handoff_id == right.handoff_id
    && left.subscription_id == right.subscription_id
    && left.job_id == right.job_id
    && left.activation_generation == right.activation_generation
    && left.publication_generation == right.publication_generation
    && left.fencing_token == right.fencing_token

unfoldable pub pointer_has_publication : CredentialHandoffPointer → Bool
pointer_has_publication p =
    is_some p.secret_id && is_some p.publication_id && is_some p.credential_id

unfoldable pub same_publication : CredentialHandoffPointer → CredentialHandoffPointer → Bool
same_publication left right =
    left.secret_id == right.secret_id
    && left.publication_id == right.publication_id
    && left.credential_id == right.credential_id

-- The three changes of a pointer, and the condition under which each is made.
unfoldable pub bound :
    CredentialHandoffPointer → CredentialSecretPublication → CredentialHandoffPointer
bound existing publication = record existing {
  secret_id = some publication.secret_id;
  publication_id = some publication.publication_id;
  credential_id = some publication.credential_id;
}

unfoldable pub may_bind : CredentialHandoffPointer → CredentialSecretPublication → Bool
unfolding bound pointer_has_publication same_publication
may_bind existing publication =
    is_pending existing.state
    && (not (pointer_has_publication existing)
        || same_publication existing (bound existing publication))

unfoldable pub may_publish : CredentialHandoffPointer → CredentialHandoffPointer → Bool
unfolding pointer_has_publication same_publication
may_publish existing pointer =
    pointer_has_publication existing
    && same_publication existing pointer
    && (is_pending existing.state || is_published existing.state)

-- Replaces the stored pointer of the same generation, if the change is allowed.
unfoldable pub change_handoff :
    (CredentialHandoffPointer → Bool)
    → (CredentialHandoffPointer → CredentialHandoffPointer)
    → CredentialHandoffPointer
    → JobExecutionLease
    → ℕ
    → MemoryStore
    → Outcome CredentialHandoffPointer
change_handoff allowed change pointer lease now s = do
  assert_active_lease lease now s
  elim (Dict.get pointer.handoff_id s.handoffs) [
    | none ↦ err (conflict_error true)
    | some e ↦ do
      throw_if (not (same_pointer_generation e pointer) || not (allowed e)) (conflict_error true)
      ok (change e, record s { handoffs = Dict.put e.handoff_id (change e) s.handoffs })
  ]

unfoldable pub bind_handoff :
    CredentialHandoffPointer
    → JobExecutionLease
    → ℕ
    → CredentialSecretPublication
    → MemoryStore
    → Outcome CredentialHandoffPointer
bind_handoff pointer lease now publication =
    change_handoff (λ e. may_bind e publication) (λ e. bound e publication) pointer lease now

unfoldable pub publish_handoff :
    CredentialHandoffPointer
    → JobExecutionLease
    → ℕ
    → MemoryStore
    → Outcome CredentialHandoffPointer
publish_handoff pointer lease now =
    change_handoff (λ e. may_publish e pointer) (λ e. record e { state = published }) pointer lease
      now

unfoldable pub revoke_handoff :
    CredentialHandoffPointer
    → JobExecutionLease
    → ℕ
    → MemoryStore
    → Outcome CredentialHandoffPointer
revoke_handoff pointer lease now =
    change_handoff (λ e. true) (λ e. record e { state = HandoffState.revoked }) pointer lease now

abbrev pub is_evidence : Retention → Bool
is_evidence immutable_evidence = true
is_evidence mutable = false

abbrev same_retention : Retention → Retention → Bool
same_retention mutable mutable = true
same_retention immutable_evidence immutable_evidence = true
same_retention _ _ = false

unfoldable pub same_resource : ResourceRecord → ResourceRecord → Bool
same_resource a b =
    a.subscription_id == b.subscription_id
    && a.step == b.step
    && a.kind == b.kind
    && a.opaque_id == b.opaque_id
    && same_retention a.retention b.retention

-- `resource_digest` stands for the digest in `deterministicResourceKey`.
unfoldable pub put_resource :
    (String → ProvisioningStep → String → String → String)
    → ResourceRecord
    → MemoryStore
    → Result SafeFailure MemoryStore
put_resource resource_digest r s = do
  throw_if (not (r.resource_key == resource_digest r.subscription_id r.step r.kind r.opaque_id))
      (conflict_error false)
  let stored = ok (record s { resources = Dict.put r.resource_key r s.resources })
  elim (Dict.get r.resource_key s.resources) [
    | none ↦ stored
    | some existing ↦ do
      throw_if (not (same_resource existing r)) (conflict_error false)
      if is_evidence existing.retention then ok s else stored
  ]
