-- ===== src/Ledger/Reads.antt =====
-- The methods of `InMemoryProvisioningStore` that only read
-- (infra/provisioning/src/memory-store.ts), and that they return what was written.
use esig_suite.Prelude.{
  ℕ, ◌≡◌, String, Bool, Option, none, some, List, [], ◌∷◌, select, ◌==◌, string_eq, nat_eq,
  if◌then◌else◌, arith, ok,
}
use esig_suite.Billing.{OrderRecord}
use esig_suite.Job.{ProvisioningJob}
use esig_suite.Dict
use esig_suite.Dict.{get-put-same}
use esig_suite.Ledger.{
  MemoryStore, EventClaim, ResourceRecord, CredentialHandoffPointer, JobExecutionLease, put_order,
  stored_order,
}
use esig_suite.Ledger.Handoff.{begin_handoff}

unfoldable pub get_order : String → MemoryStore → Option OrderRecord
get_order subscription_id s = Dict.get subscription_id s.orders

unfoldable pub get_job : String → MemoryStore → Option ProvisioningJob
get_job subscription_id s = Dict.get subscription_id s.jobs

unfoldable pub get_handoff : String → String → MemoryStore → Option CredentialHandoffPointer
get_handoff subscription_id handoff_id s = elim (Dict.get handoff_id s.handoffs) [
  | none ↦ none
  | some p ↦ if p.subscription_id == subscription_id then some p else none
]

module _ {A : Type 0} where
  abbrev pub values : Dict.Dict A → List A
  values [] = []
  values ((k, v) ∷ m) = v ∷ values m

  -- A stable sort, by whether one value comes after another.
  abbrev pub insert_sorted : (A → A → Bool) → A → List A → List A
  insert_sorted after x [] = x ∷ []
  insert_sorted after x (y ∷ ys) = if after x y then y ∷ insert_sorted after x ys else x ∷ y ∷ ys

  abbrev pub sort : (A → A → Bool) → List A → List A
  sort after [] = []
  sort after (x ∷ xs) = insert_sorted after x (sort after xs)

unfoldable pub list_event_claims : (String → String → Bool) → MemoryStore → List EventClaim
list_event_claims locale_after s =
    sort (λ a b. locale_after a.event_id b.event_id) (values s.events)

unfoldable pub list_resources :
    (String → String → Bool) → String → MemoryStore → List ResourceRecord
list_resources locale_after subscription_id s =
    sort (λ a b. locale_after a.resource_key b.resource_key)
      (select (λ r. r.subscription_id == subscription_id) (values s.resources))

-- The order that `putOrder` returns is the one that `getOrder` returns afterwards.
pub get_order-put_order :
    (a o : OrderRecord) (v : Option ℕ) (s t : MemoryStore)
    → put_order a v s ≡ ok (o, t)
    → get_order a.subscription_id t ≡ some o
unfolding get_order put_order
get_order-put_order a o v s t h =
    let stored = stored_order (Dict.get a.subscription_id s.orders) a in
    ground (arith, h, get-put-same a.subscription_id stored s.orders)

-- A handoff that was begun is read back under its own subscription, and under no other one.
pub get_handoff-begin_handoff :
    (p q : CredentialHandoffPointer) (l : JobExecutionLease) (now : ℕ) (v : Option ℕ)
    (other : String) (s t : MemoryStore)
    → begin_handoff p l now v s ≡ ok (q, t)
    → get_handoff other p.handoff_id t ≡ (if p.subscription_id == other then some p else none)
unfolding get_handoff begin_handoff
get_handoff-begin_handoff p q l now v other s t h =
    ground (arith, h, get-put-same p.handoff_id p s.handoffs)
