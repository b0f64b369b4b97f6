-- ===== src/Ledger.antt =====
-- The control plane's store: `InMemoryProvisioningStore` of infra/provisioning/src/memory-store.ts,
-- with the records of infra/provisioning/src/domain.ts that it keeps. A method that throws writes
-- nothing. The digests that name jobs and resources are the host's and are parameters.
pub mod Handoff
pub mod History
pub mod Growth
pub mod Change
pub mod Runs
pub mod Leases
pub mod Reads
mod Tests
use esig_suite.Prelude.{
  ℕ, ◌+◌, ◌-◌, ◌≡◌, String, Bool, true, false, not, ◌&&◌, ◌||◌, Option, none, some, List, [], ltb,
  leb, ◌==◌, nat_eq, string_eq, option_eq, if◌then◌else◌, is_some, is_none, Result, ok, err, ◌>>◌,
  ◌>>=◌, throw_if,
}
use esig_suite.Failure.{SafeFailure, SafeErrorCode, store_conflict, invalid_state, failure}
use esig_suite.Billing.{
  OrderRecord, BillingState, canceled, refunded, is_terminal, is_canceled, is_refunded,
  state_precedence, max_safe_integer,
}
use esig_suite.Job.{ProvisioningJob, deterministic_job_id}
use esig_suite.Job.Step.{ProvisioningStep, step_eq}
use esig_suite.Dict
use esig_suite.Dict.{Dict}

pub record JobExecutionLease : Type 0 where
  pub subscription_id : String
  pub owner_id : String
  pub fencing_token : ℕ
  pub expires_at : ℕ

pub data LeaseClaim : Type 0 where
  acquired : JobExecutionLease → LeaseClaim
  held : LeaseClaim

pub record EventClaim : Type 0 where
  pub event_id : String
  pub event_type : String
  pub created_at : ℕ
  pub payload_digest : String
  pub subscription_id : Option String

pub data EventClaimResult : Type 0 where
  claimed duplicate conflict : EventClaim → EventClaimResult

pub data Retention : Type 0 where
  mutable immutable_evidence : Retention

pub data ResourceStatus : Type 0 where
  active revoked disabled quarantined retained : ResourceStatus

pub record ResourceRecord : Type 0 where
  pub resource_key : String
  pub subscription_id : String
  pub step : ProvisioningStep
  pub kind : String
  pub opaque_id : String
  pub retention : Retention
  pub status : ResourceStatus

pub data HandoffState : Type 0 where
  pending published revoked : HandoffState

pub record CredentialHandoffPointer : Type 0 where
  pub handoff_id : String
  pub subscription_id : String
  pub job_id : String
  pub activation_generation : ℕ
  pub publication_generation : ℕ
  pub fencing_token : ℕ
  pub state : HandoffState
  pub secret_id : Option String
  pub publication_id : Option String
  pub credential_id : Option String

pub record CredentialSecretPublication : Type 0 where
  pub secret_id : String
  pub publication_id : String
  pub credential_id : String

pub record MemoryStore : Type 0 where
  pub events : Dict EventClaim
  pub orders : Dict OrderRecord
  pub jobs : Dict ProvisioningJob
  pub leases : Dict JobExecutionLease
  pub handoffs : Dict CredentialHandoffPointer
  pub resources : Dict ResourceRecord

-- A method's value and the store that it leaves, or what it throws.
abbrev pub Outcome : Type 0 → Type 0
Outcome A = Result SafeFailure (A × MemoryStore)

abbrev pub conflict_error : Bool → SafeFailure
conflict_error retryable = record { code = store_conflict; retryable = retryable }

unfoldable pub claim_event : EventClaim → MemoryStore → EventClaimResult × MemoryStore
claim_event claim s = elim (Dict.get claim.event_id s.events) [
  | some existing ↦ (
    if existing.payload_digest == claim.payload_digest
        then duplicate existing
        else conflict existing,
    s,
  )
  | none ↦ (claimed claim, record s { events = Dict.put claim.event_id claim s.events })
]

abbrev pub has_version : Option ℕ → ℕ → Bool
has_version none v = false
has_version (some e) v = e == v

abbrev pub same_billing_state : BillingState → BillingState → Bool
same_billing_state a b = state_precedence a == state_precedence b

-- The two tests of `putOrder`: the version, and that a terminal state is kept.
unfoldable pub order_conflict : Option OrderRecord → OrderRecord → Option ℕ → Bool
order_conflict none order expected = is_some expected || not (order.version == 0)
order_conflict (some existing) order expected =
    not (has_version expected existing.version) || not (has_version expected order.version)

unfoldable pub leaves_terminal : Option OrderRecord → OrderRecord → Bool
unfolding state_precedence
leaves_terminal none order = false
leaves_terminal (some existing) order =
    is_terminal existing.billing_state
    && not (same_billing_state order.billing_state existing.billing_state)
    && not (is_canceled existing.billing_state && is_refunded order.billing_state)

unfoldable pub stored_order : Option OrderRecord → OrderRecord → OrderRecord
stored_order none order = order
stored_order (some existing) order = record order { version = existing.version + 1 }

unfoldable pub put_order : OrderRecord → Option ℕ → MemoryStore → Outcome OrderRecord
put_order order expected s = do
  let existing = Dict.get order.subscription_id s.orders
  throw_if (order_conflict existing order expected) (conflict_error true)
  throw_if (leaves_terminal existing order) (conflict_error false)
  let stored = stored_order existing order
  ok (stored, record s { orders = Dict.put order.subscription_id stored s.orders })

unfoldable pub job_conflict : Option ProvisioningJob → ProvisioningJob → Option ℕ → Bool
job_conflict none job expected = is_some expected || not (job.version == 0)
job_conflict (some existing) job expected =
    not (existing.job_id == job.job_id)
    || not (has_version expected existing.version)
    || not (has_version expected job.version)

unfoldable pub stored_job : Option ProvisioningJob → ProvisioningJob → ProvisioningJob
stored_job none job = job
stored_job (some existing) job = record job { version = existing.version + 1 }

unfoldable pub put_job :
    (String → String) → ProvisioningJob → Option ℕ → MemoryStore → Outcome ProvisioningJob
put_job job_digest job expected s = do
  let existing = Dict.get job.subscription_id s.jobs
  expected_id ← deterministic_job_id job_digest job.subscription_id
  throw_if (not (job.job_id == expected_id)) (conflict_error false)
  throw_if (job_conflict existing job expected) (conflict_error false)
  let stored = stored_job existing job
  ok (stored, record s { jobs = Dict.put job.subscription_id stored s.jobs })

invalid_lease_input : String → String → ℕ → ℕ → Bool
invalid_lease_input subscription_id owner_id now duration =
    subscription_id == ""
    || owner_id == ""
    || ltb max_safe_integer now
    || ltb max_safe_integer duration
    || ltb duration 1
    || ltb (max_safe_integer - duration) now

unfoldable pub assert_lease_input : String → String → ℕ → ℕ → Result SafeFailure (Unit {0})
unfolding invalid_lease_input
assert_lease_input subscription_id owner_id now duration =
    throw_if (invalid_lease_input subscription_id owner_id now duration) (failure invalid_state)

abbrev pub is_held : Option JobExecutionLease → ℕ → Bool
is_held none now = false
is_held (some l) now = ltb now l.expires_at

abbrev pub fence : Option JobExecutionLease → ℕ
fence none = 0
fence (some l) = l.fencing_token

unfoldable pub acquire_lease : String → String → ℕ → ℕ → MemoryStore → Outcome LeaseClaim
acquire_lease subscription_id owner_id now duration s = do
  assert_lease_input subscription_id owner_id now duration
  let existing = Dict.get subscription_id s.leases
  let lease : JobExecutionLease = record {
    subscription_id = subscription_id;
    owner_id = owner_id;
    fencing_token = fence existing + 1;
    expires_at = now + duration;
  }
  if is_held existing now
      then ok (held, s)
      else ok (acquired lease, record s { leases = Dict.put subscription_id lease s.leases })

-- The stored lease is this one: same owner and same fencing token.
abbrev pub is_owner : Option JobExecutionLease → JobExecutionLease → Bool
is_owner none lease = false
is_owner (some l) lease = l.owner_id == lease.owner_id && l.fencing_token == lease.fencing_token

-- `#assertActiveLease`, also the test of `renewJobExecutionLease`.
abbrev pub is_active_lease : Option JobExecutionLease → JobExecutionLease → ℕ → Bool
is_active_lease existing lease now = is_owner existing lease && is_held existing now

abbrev pub with_expiry : Option JobExecutionLease → JobExecutionLease → ℕ → JobExecutionLease
with_expiry none lease at = lease
with_expiry (some l) lease at = record l { expires_at = at }

unfoldable pub renew_lease : JobExecutionLease → ℕ → ℕ → MemoryStore → Outcome JobExecutionLease
renew_lease lease now duration s = do
  assert_lease_input lease.subscription_id lease.owner_id now duration
  let existing = Dict.get lease.subscription_id s.leases
  throw_if (not (is_active_lease existing lease now)) (conflict_error true)
  let renewed = with_expiry existing lease (now + duration)
  ok (renewed, record s { leases = Dict.put lease.subscription_id renewed s.leases })

unfoldable pub release_lease : JobExecutionLease → MemoryStore → MemoryStore
release_lease lease s =
    let existing = Dict.get lease.subscription_id s.leases in
    if is_owner existing lease
    then record s {
      leases = Dict.put lease.subscription_id (with_expiry existing lease 0) s.leases;
    }
    else s
