-- ===== src/Ledger/History.antt =====
-- What no history of the store's methods takes back.
use text.Mathlib.TextEquality.{eq_iff}
use esig_suite.Prelude.{
  ◌≤◌, ◌≡◌, refl, String, true, Option, none, some, arith, nat_eq, string_eq, ok, err,
}
use esig_suite.Billing.{OrderRecord, is_refunded, is_terminal}
use esig_suite.Job.{ProvisioningJob}
use esig_suite.Dict
use esig_suite.Dict.{Dict, get-put, Kept, Kept-refl, Kept-put}
use esig_suite.Ledger.{
  MemoryStore, Outcome, EventClaim, JobExecutionLease, CredentialHandoffPointer, ResourceRecord,
  fence,
}
use esig_suite.Ledger.Handoff.{is_evidence, is_revoked}

-- The store after a method that may throw.
abbrev pub after : {A : Type 0} → MemoryStore → Outcome A → MemoryStore
after s (ok (a, t)) = t
after s (err e) = s

abbrev pub EventKept : EventClaim → Option EventClaim → Type 0
EventKept c d = d ≡ some c

abbrev pub OrderKept : OrderRecord → Option OrderRecord → Type 0
OrderKept o none = ⊥
OrderKept o (some p) =
    (o.version ≤ p.version)
    × (is_refunded o.billing_state ≡ true → is_refunded p.billing_state ≡ true)
    × (is_terminal o.billing_state ≡ true → is_terminal p.billing_state ≡ true)

abbrev pub JobKept : ProvisioningJob → Option ProvisioningJob → Type 0
JobKept j none = ⊥
JobKept j (some k) = (j.version ≤ k.version) × (k.job_id ≡ j.job_id)

abbrev pub HandoffKept : CredentialHandoffPointer → Option CredentialHandoffPointer → Type 0
HandoffKept p none = ⊥
HandoffKept p (some q) =
    (p.publication_generation ≤ q.publication_generation)
    × (is_revoked p.state ≡ true → is_revoked q.state ≡ true)

abbrev pub EvidenceKept : ResourceRecord → Option ResourceRecord → Type 0
EvidenceKept r q = is_evidence r.retention ≡ true → q ≡ some r

-- A claimed event keeps its first claim; an order keeps its terminal state and its version never
-- falls; a job keeps its identity; fencing tokens never fall; a handoff's generation never falls,
-- and a revoked one stays so; immutable evidence stays as it was stored.
pub record Grows (s t : MemoryStore) : Type 0 where
  pub events : Kept EventKept s.events t.events
  pub orders : Kept OrderKept s.orders t.orders
  pub jobs : Kept JobKept s.jobs t.jobs
  pub fences : (k : String) → fence (Dict.get k s.leases) ≤ fence (Dict.get k t.leases)
  pub handoffs : Kept HandoffKept s.handoffs t.handoffs
  pub evidence : Kept EvidenceKept s.resources t.resources

OrderKept-refl : (o : OrderRecord) → OrderKept o (some o)
OrderKept-refl o = (omega arith, λ h. h, λ h. h)

JobKept-refl : (j : ProvisioningJob) → JobKept j (some j)
JobKept-refl j = (omega arith, refl)

HandoffKept-refl : (p : CredentialHandoffPointer) → HandoffKept p (some p)
HandoffKept-refl p = (omega arith, λ h. h)

pub Grows-refl : (s : MemoryStore) → Grows s s
Grows-refl s = record {
  events = Kept-refl EventKept (λ c. refl) s.events;
  orders = Kept-refl OrderKept OrderKept-refl s.orders;
  jobs = Kept-refl JobKept JobKept-refl s.jobs;
  fences = λ k. omega arith;
  handoffs = Kept-refl HandoffKept HandoffKept-refl s.handoffs;
  evidence = Kept-refl EvidenceKept (λ r e. refl) s.resources;
}

-- The writes to each of the dictionaries.
module _ (s : MemoryStore) where
  pub event_write :
      (c : EventClaim)
      → Dict.get c.event_id s.events ≡ none
      → Grows s (record s { events = Dict.put c.event_id c s.events })
  event_write c h =
      let g = Grows-refl s in
      record {
        events = Kept-put EventKept (λ _. refl) c.event_id c s.events (λ w e. cc);
        orders = g.orders;
        jobs = g.jobs;
        fences = g.fences;
        handoffs = g.handoffs;
        evidence = g.evidence;
      }

  pub order_write :
      (k : String) (o : OrderRecord)
      → ((w : OrderRecord) → Dict.get k s.orders ≡ some w → OrderKept w (some o))
      → Grows s (record s { orders = Dict.put k o s.orders })
  order_write k o h =
      let g = Grows-refl s in
      record {
        events = g.events;
        orders = Kept-put OrderKept OrderKept-refl k o s.orders h;
        jobs = g.jobs;
        fences = g.fences;
        handoffs = g.handoffs;
        evidence = g.evidence;
      }

  pub job_write :
      (k : String) (j : ProvisioningJob)
      → ((w : ProvisioningJob) → Dict.get k s.jobs ≡ some w → JobKept w (some j))
      → Grows s (record s { jobs = Dict.put k j s.jobs })
  job_write k j h =
      let g = Grows-refl s in
      record {
        events = g.events;
        orders = g.orders;
        jobs = Kept-put JobKept JobKept-refl k j s.jobs h;
        fences = g.fences;
        handoffs = g.handoffs;
        evidence = g.evidence;
      }

  pub lease_write :
      (k : String) (l : JobExecutionLease)
      → fence (Dict.get k s.leases) ≤ l.fencing_token
      → Grows s (record s { leases = Dict.put k l s.leases })
  lease_write k l h =
      let g = Grows-refl s in
      record {
        events = g.events;
        orders = g.orders;
        jobs = g.jobs;
        fences = λ j. ground (arith, get-put k j l s.leases, eq_iff k j);
        handoffs = g.handoffs;
        evidence = g.evidence;
      }

  pub handoff_write :
      (k : String) (p : CredentialHandoffPointer)
      → ((w : CredentialHandoffPointer) → Dict.get k s.handoffs ≡ some w → HandoffKept w (some p))
      → Grows s (record s { handoffs = Dict.put k p s.handoffs })
  handoff_write k p h =
      let g = Grows-refl s in
      record {
        events = g.events;
        orders = g.orders;
        jobs = g.jobs;
        fences = g.fences;
        handoffs = Kept-put HandoffKept HandoffKept-refl k p s.handoffs h;
        evidence = g.evidence;
      }

  pub resource_write :
      (k : String) (r : ResourceRecord)
      → ((w : ResourceRecord) → Dict.get k s.resources ≡ some w → EvidenceKept w (some r))
      → Grows s (record s { resources = Dict.put k r s.resources })
  resource_write k r h =
      let g = Grows-refl s in
      record {
        events = g.events;
        orders = g.orders;
        jobs = g.jobs;
        fences = g.fences;
        handoffs = g.handoffs;
        evidence = Kept-put EvidenceKept (λ _ _. refl) k r s.resources h;
      }
