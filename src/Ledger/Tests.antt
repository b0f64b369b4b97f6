-- ===== src/Ledger/Tests.antt =====
-- Runs of the control plane's store, and its theorems at concrete records.
use esig_suite.Prelude.{
  ◌<◌, ◌≡◌, refl, String, true, none, some, [], ◌∷◌, arith, ok, err, string_eq,
}
use esig_suite.Billing.{OrderRecord, shared, team, active}
use esig_suite.Job.Step.{ProvisioningStep}
use esig_suite.Dict
use esig_suite.Ledger.Handoff.{begin_handoff, assert_active_lease, is_next_generation, is_blank_for}
use esig_suite.Ledger.Reads.{get_order, get_order-put_order, get_handoff, get_handoff-begin_handoff}
use esig_suite.Ledger.{
  CredentialHandoffPointer, HandoffState, MemoryStore, JobExecutionLease, acquired, acquire_lease,
  put_order, conflict_error, stored_order, order_conflict, leaves_terminal, assert_lease_input,
  fence,
}
use esig_suite.Ledger.History.{Grows}
use esig_suite.Ledger.Runs.{acquires, releases, puts_order, run, run-Grows}
use esig_suite.Ledger.Leases.{
  IsGranted, acquire_lease-IsGranted, IsFencedOut, taken_over-IsFencedOut, put_order-put_order,
}

abbrev blank : MemoryStore
blank = record {
  events = Dict.empty;
  orders = Dict.empty;
  jobs = Dict.empty;
  leases = Dict.empty;
  handoffs = Dict.empty;
  resources = Dict.empty;
}

abbrev first_lease : JobExecutionLease
first_lease = record {
  subscription_id = "sub_1";
  owner_id = "worker_a";
  fencing_token = 1;
  expires_at = 150;
}

abbrev second_lease : JobExecutionLease
second_lease = record {
  subscription_id = "sub_1";
  owner_id = "worker_b";
  fencing_token = 2;
  expires_at = 250;
}

abbrev leased : JobExecutionLease → MemoryStore
leased l = record blank { leases = ("sub_1", l) ∷ [] }

first_acquired :
    acquire_lease "sub_1" "worker_a" 100 50 blank ≡ ok (acquired first_lease, leased first_lease)
unfolding acquire_lease assert_lease_input Dict.get Dict.put
first_acquired = refl

second_acquired :
    acquire_lease "sub_1" "worker_b" 200 50 (leased first_lease)
    ≡ ok (acquired second_lease, leased second_lease)
unfolding acquire_lease assert_lease_input Dict.get Dict.put
second_acquired = refl

acquire_lease-IsGranted_example :
    (second_lease.subscription_id ≡ "sub_1")
    × IsGranted 200 second_lease (leased first_lease) (leased second_lease)
acquire_lease-IsGranted_example =
    acquire_lease-IsGranted "sub_1" "worker_b" 200 50 (leased first_lease) (leased second_lease)
      second_lease second_acquired

abbrev job_digest : String → String
job_digest s = s

abbrev resource_digest : String → ProvisioningStep → String → String → String
resource_digest s step kind id = id

older : first_lease.fencing_token < fence (Dict.get "sub_1" (leased second_lease).leases)
unfolding Dict.get
older = omega arith

taken_over-IsFencedOut_example :
    IsFencedOut first_lease
      (run job_digest resource_digest (leased second_lease) (releases second_lease ∷ []))
taken_over-IsFencedOut_example =
    taken_over-IsFencedOut job_digest resource_digest first_lease (leased second_lease)
      (releases second_lease ∷ []) older

abbrev order : OrderRecord
order = record {
  version = 0;
  subscription_id = "sub_1";
  customer_id = some "cus_1";
  owner_subject = some "owner";
  mode = some shared;
  plan = some team;
  billing_state = active;
  latest_event_created_at = 100;
  latest_event_id = "evt_1";
  state_cursor = record { created_at = 100; precedence = 2; event_id = "evt_1" };
}

run-Grows_example : Grows blank (
    run job_digest resource_digest blank
      (acquires "sub_1" "worker_a" 100 50 ∷ puts_order order none ∷ releases first_lease ∷ []))
run-Grows_example =
    run-Grows job_digest resource_digest blank
      (acquires "sub_1" "worker_a" 100 50 ∷ puts_order order none ∷ releases first_lease ∷ [])

abbrev one_order : MemoryStore
one_order = record blank { orders = ("sub_1", order) ∷ [] }

first_write : put_order order none blank ≡ ok (order, one_order)
unfolding put_order order_conflict leaves_terminal stored_order Dict.get Dict.put
first_write = refl

put_order-put_order_example : put_order order none one_order ≡ err (conflict_error true)
put_order-put_order_example =
    put_order-put_order order order order none blank one_order refl first_write

get_order-put_order_example : get_order "sub_1" one_order ≡ some order
get_order-put_order_example = get_order-put_order order order none blank one_order first_write

abbrev pointer : CredentialHandoffPointer
pointer = record {
  handoff_id = "handoff_1";
  subscription_id = "sub_1";
  job_id = "job_1";
  activation_generation = 0;
  publication_generation = 0;
  fencing_token = 1;
  state = HandoffState.pending;
  secret_id = none;
  publication_id = none;
  credential_id = none;
}

abbrev begun : MemoryStore
begun = record (leased first_lease) { handoffs = ("handoff_1", pointer) ∷ [] }

handoff_begun :
    begin_handoff pointer first_lease 120 none (leased first_lease) ≡ ok (pointer, begun)
unfolding begin_handoff assert_active_lease is_next_generation is_blank_for Dict.get Dict.put
handoff_begun = refl

get_handoff-begin_handoff_example : get_handoff "sub_2" "handoff_1" begun ≡ none
get_handoff-begin_handoff_example =
    get_handoff-begin_handoff pointer pointer first_lease 120 none "sub_2" (leased first_lease)
      begun handoff_begun
