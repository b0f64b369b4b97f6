-- ===== src/Billing/Tests.antt =====
-- Runs of the billing reducer, and its theorems at concrete events.
use mathlib.Core.List.Perm
use mathlib.Core.Option.{some-ne-none}
use esig_suite.Prelude.{ℕ, suc, ◌≡◌, refl, String, Bool, some, [], ◌∷◌, arith, ltb, ok}
use esig_suite.Billing.{
  OrderRecord, OrderMetadata, EventBase, NormalizedStripeEvent, accepted, invoice_paid,
  charge_refunded, customer_subscription_updated, past_due, active, refunded, shared, team, scale,
  stale, reduce_billing_event, apply_event, apply_events, validate_event, BillingReduction,
  created_order, event_cursor, reduce_accepted, desired_billing_state, next_order,
}
use esig_suite.Billing.Terminal.{Keeps, apply_events-Keeps, apply_events-plan, late_refund}
use esig_suite.Billing.Claims.{IsComparator}
use esig_suite.Billing.Convergence.{stored_state, stored_state-perm}

abbrev count : String → ℕ
count String.[] = 0
count (String.◌∷◌ c s) = suc (count s)

-- A comparison of texts that meets what is asked of `localeCompare`.
abbrev by_length : String → String → Bool
by_length a b = ltb (count b) (count a)

by_length-IsComparator : IsComparator by_length
by_length-IsComparator = record {
  asymm = λ a b h. ground arith;
  neg_trans = λ a b c h k. ground arith;
}

abbrev digest : String
digest = "0123456789abcdef0123456789abcdef0123456789abcdef0123456789abcdef"

abbrev base : String → ℕ → EventBase
base id at = record { event_id = id; created_at = at; payload_digest = digest }

abbrev metadata : OrderMetadata
metadata = record {
  subscription_id = "sub_1";
  customer_id = some "cus_1";
  owner_subject = some "owner";
  mode = some shared;
  plan = some team;
}

abbrev paid : NormalizedStripeEvent
paid = accepted (base "evt_1" 100) invoice_paid metadata

abbrev refund : NormalizedStripeEvent
refund = accepted (base "evt_22" 50) charge_refunded metadata

abbrev updated : NormalizedStripeEvent
updated = accepted (base "evt_333" 200) (customer_subscription_updated past_due) metadata

abbrev order : OrderRecord
order = created_order (base "evt_1" 100) active (event_cursor (base "evt_1" 100) active) metadata

paid_then_updated : stored_state by_length (paid ∷ updated ∷ []) ≡ some past_due
unfolding stored_state apply_events reduce_accepted validate_event created_order
    desired_billing_state event_cursor next_order apply_event
paid_then_updated = refl

stored_state-perm_example :
    stored_state by_length (paid ∷ refund ∷ updated ∷ [])
    ≡ stored_state by_length (refund ∷ paid ∷ updated ∷ [])
stored_state-perm_example =
    stored_state-perm by_length "sub_1" (paid ∷ refund ∷ updated ∷ [])
      (refund ∷ paid ∷ updated ∷ []) by_length-IsComparator (refl, (refl, (refl, tt)))
      (Perm.swap refund paid (updated ∷ []))

apply_events-Keeps_example :
    (o' : OrderRecord) × (apply_events by_length (some order) (refund ∷ updated ∷ []) ≡ some o')
    × Keeps by_length order o'
apply_events-Keeps_example = apply_events-Keeps by_length order (refund ∷ updated ∷ [])

-- Another plan that is delivered late.
abbrev solo_before : NormalizedStripeEvent
solo_before = accepted (base "evt_0" 90) invoice_paid (record metadata { plan = some scale })

apply_events-plan_example : order.plan ≡ some team
unfolding apply_events reduce_accepted validate_event created_order desired_billing_state
    event_cursor next_order apply_event
apply_events-plan_example =
    apply_events-plan by_length order order (solo_before ∷ []) refl (omega arith, tt)
      (some-ne-none _)

late_refund_example :
    (r : BillingReduction) × (o' : OrderRecord) × (reduce_billing_event by_length
        (some order)
        refund
      ≡ ok r)
    × (r.order ≡ some o')
    × (o'.billing_state ≡ refunded)
    × (r.disposition ≡ stale)
unfolding created_order validate_event event_cursor
late_refund_example =
    late_refund by_length order (base "evt_22" 50) metadata refl refl refl (omega arith)
      (omega arith) refl
