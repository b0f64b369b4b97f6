-- ===== src/Billing.antt =====
-- Billing orders of the provisioning control plane: the types of infra/provisioning/src/domain.ts
-- and the reducer `reduceBillingEvent` of infra/provisioning/src/state-machine.ts.
-- Times and versions are natural numbers; a number that is negative, fractional or not finite is
-- refused by the code's guards and is not represented. `localeCompare` is the host's: the parameter
-- `locale_after left right` stands for `left.localeCompare(right) > 0`.
pub mod Terminal
pub mod Claims
pub mod Convergence
mod Tests
use Prim.Native.Char.{code}
use esig_suite.Prelude.{
  ℕ, suc, ◌-◌, ◌^◌, String, Bool, true, false, not, ◌&&◌, ◌||◌, Option, none, some, List, [], ◌∷◌,
  ltb, leb, ◌==◌, nat_eq, string_eq, if◌then◌else◌, or_else, is_some, is_none, Result, ok, err,
  ◌>>◌, throw_if,
}
use esig_suite.Failure.{SafeFailure, invalid_event, failure}

pub data DeploymentMode : Type 0 where
  shared dedicated : DeploymentMode

pub data PlanId : Type 0 where
  starter team scale : PlanId

pub data BillingState : Type 0 where
  pending active past_due canceled refunded : BillingState

pub record OrderMetadata : Type 0 where
  pub subscription_id : String
  pub customer_id : Option String
  pub owner_subject : Option String
  pub mode : Option DeploymentMode
  pub plan : Option PlanId

-- The accepted types of events; the two subscription events carry a billing state.
pub data EventType : Type 0 where
  checkout_session_completed invoice_paid invoice_payment_failed : EventType
  customer_subscription_created customer_subscription_updated : BillingState → EventType
  customer_subscription_deleted charge_refunded : EventType

pub record EventBase : Type 0 where
  pub event_id : String
  pub created_at : ℕ
  pub payload_digest : String

pub data NormalizedStripeEvent : Type 0 where
  ignored : EventBase → String → Option String → NormalizedStripeEvent
  accepted : EventBase → EventType → OrderMetadata → NormalizedStripeEvent

pub record EventCursor : Type 0 where
  pub created_at : ℕ
  pub precedence : ℕ
  pub event_id : String

pub record OrderRecord : Type 0 where
  pub version : ℕ
  pub subscription_id : String
  pub customer_id : Option String
  pub owner_subject : Option String
  pub mode : Option DeploymentMode
  pub plan : Option PlanId
  pub billing_state : BillingState
  pub latest_event_created_at : ℕ
  pub latest_event_id : String
  pub state_cursor : EventCursor

pub data Disposition : Type 0 where
  ignored created applied stale stale_metadata_filled terminal_preserved : Disposition

pub record BillingReduction : Type 0 where
  pub disposition : Disposition
  pub order : Option OrderRecord

unfoldable pub state_precedence : BillingState → ℕ
state_precedence pending = 1
state_precedence active = 2
state_precedence past_due = 3
state_precedence canceled = 4
state_precedence refunded = 5

unfoldable pub desired_billing_state : EventType → BillingState
desired_billing_state checkout_session_completed = pending
desired_billing_state invoice_paid = active
desired_billing_state invoice_payment_failed = past_due
desired_billing_state (customer_subscription_created s) = s
desired_billing_state (customer_subscription_updated s) = s
desired_billing_state customer_subscription_deleted = canceled
desired_billing_state charge_refunded = refunded

abbrev pub max_safe_integer : ℕ
max_safe_integer = 2 ^ 53 - 1

is_hex_digit : ℕ → Bool
is_hex_digit c = (leb b'a' c && leb c b'f') || (leb b'0' c && leb c b'9')

-- `/^[a-f0-9]{n}$/`
is_hex : ℕ → String → Bool
unfolding is_hex_digit
is_hex n String.[] = n == 0
is_hex ℕ.zero (String.◌∷◌ c s) = false
is_hex (suc n) (String.◌∷◌ c s) = is_hex_digit (code c) && is_hex n s

is_invalid_base : EventBase → Bool
unfolding is_hex
is_invalid_base e =
    e.event_id == "" || ltb max_safe_integer e.created_at || not (is_hex 64 e.payload_digest)

unfoldable pub validate_event : NormalizedStripeEvent → Result SafeFailure (Unit {0})
unfolding is_invalid_base
validate_event (ignored base type id) = throw_if (is_invalid_base base) (failure invalid_event)
validate_event (accepted base type m) =
    throw_if (is_invalid_base base || m.subscription_id == "") (failure invalid_event)

unfoldable pub event_cursor : EventBase → BillingState → EventCursor
unfolding state_precedence
event_cursor e s = record {
  created_at = e.created_at;
  precedence = state_precedence s;
  event_id = e.event_id;
}

abbrev pub is_refunded : BillingState → Bool
is_refunded refunded = true
is_refunded _ = false

abbrev pub is_canceled : BillingState → Bool
is_canceled canceled = true
is_canceled _ = false

abbrev pub is_terminal : BillingState → Bool
is_terminal s = is_canceled s || is_refunded s

pub record MergedMetadata : Type 0 where
  pub customer_id : Option String
  pub owner_subject : Option String
  pub mode : Option DeploymentMode
  pub plan : Option PlanId

unfoldable pub merge_metadata : OrderRecord → OrderMetadata → Bool → MergedMetadata
merge_metadata current m may_replace_plan = record {
  customer_id = or_else current.customer_id m.customer_id;
  owner_subject = or_else current.owner_subject m.owner_subject;
  mode = or_else current.mode m.mode;
  plan = if may_replace_plan && is_some m.plan then m.plan else or_else current.plan m.plan;
}

abbrev pub was_filled {ℓ} : {A : Type ℓ} → Option A → Option A → Bool
was_filled a b = is_none a && is_some b

metadata_was_filled : OrderRecord → OrderRecord → Bool
metadata_was_filled current next =
    was_filled current.customer_id next.customer_id
    || was_filled current.owner_subject next.owner_subject
    || was_filled current.mode next.mode
    || was_filled current.plan next.plan

unfoldable pub created_order : EventBase → BillingState → EventCursor → OrderMetadata → OrderRecord
created_order e desired cursor m = record {
  version = 0;
  subscription_id = m.subscription_id;
  customer_id = m.customer_id;
  owner_subject = m.owner_subject;
  mode = m.mode;
  plan = m.plan;
  billing_state = desired;
  latest_event_created_at = e.created_at;
  latest_event_id = e.event_id;
  state_cursor = cursor;
}

-- The outcome of the branches that choose the state: the state, its cursor, and whether a terminal
-- state was preserved.
pub record StateChoice : Type 0 where
  pub billing_state : BillingState
  pub state_cursor : EventCursor
  pub terminal_preserved : Bool

module _ (locale_after : String → String → Bool) where
  -- `compareCursor(left, right) > 0`
  unfoldable pub cursor_after : EventCursor → EventCursor → Bool
  cursor_after left right =
      if not (left.created_at == right.created_at)
      then ltb right.created_at left.created_at
      else if not (left.precedence == right.precedence)
      then ltb right.precedence left.precedence
      else locale_after left.event_id right.event_id

  unfoldable pub is_latest_accepted_event : OrderRecord → EventBase → Bool
  is_latest_accepted_event current e =
      ltb current.latest_event_created_at e.created_at
      || (e.created_at == current.latest_event_created_at
          && locale_after e.event_id current.latest_event_id)

  unfoldable pub choose_state :
      BillingState → EventCursor → BillingState → EventCursor → StateChoice
  unfolding cursor_after
  choose_state current state_cursor desired cursor =
      if is_refunded current
      then keep (not (is_refunded desired))
      else if is_refunded desired
      then move
      else if is_canceled current
      then keep (not (is_canceled desired))
      else if is_canceled desired
      then move
      else if cursor_after cursor state_cursor
      then move
      else keep false
    where
      keep : Bool → StateChoice
      keep preserved = record {
        billing_state = current;
        state_cursor = state_cursor;
        terminal_preserved = preserved;
      }

      move : StateChoice
      move = record { billing_state = desired; state_cursor = cursor; terminal_preserved = false }

  -- The record `next` of the reducer.
  unfoldable pub next_order :
      OrderRecord → EventBase → BillingState → EventCursor → OrderMetadata → OrderRecord
  unfolding is_latest_accepted_event merge_metadata choose_state
  next_order current e desired cursor m =
      let latest = is_latest_accepted_event current e in
      let merged =
        merge_metadata current m
          (latest && not (is_terminal current.billing_state) && not (is_terminal desired)) in
      let choice = choose_state current.billing_state current.state_cursor desired cursor in
      record current {
        customer_id = merged.customer_id;
        owner_subject = merged.owner_subject;
        mode = merged.mode;
        plan = merged.plan;
        billing_state = choice.billing_state;
        state_cursor = choice.state_cursor;
        latest_event_created_at = if latest then e.created_at else current.latest_event_created_at;
        latest_event_id = if latest then e.event_id else current.latest_event_id;
      }

  unfoldable pub next_disposition :
      OrderRecord → EventBase → BillingState → EventCursor → OrderRecord → Disposition
  unfolding is_latest_accepted_event choose_state cursor_after metadata_was_filled
  next_disposition current e desired cursor next =
      let latest = is_latest_accepted_event current e in
      let choice = choose_state current.billing_state current.state_cursor desired cursor in
      if choice.terminal_preserved
      then terminal_preserved
      else if not latest && metadata_was_filled current next
      then stale_metadata_filled
      else if not latest && not (cursor_after cursor current.state_cursor)
      then stale
      else applied

  unfoldable pub reduce_accepted :
      Option OrderRecord
      → EventBase
      → EventType
      → OrderMetadata
      → Result SafeFailure BillingReduction
  reduce_accepted none e type m =
      let desired = desired_billing_state type in
      ok (record {
        disposition = created;
        order = some (created_order e desired (event_cursor e desired) m);
      })
  reduce_accepted (some current) e type m =
      let desired = desired_billing_state type in
      let cursor = event_cursor e desired in
      let next = next_order current e desired cursor m in
      if not (current.subscription_id == m.subscription_id)
      then err (failure invalid_event)
      else ok (record {
        disposition = next_disposition current e desired cursor next;
        order = some next;
      })

  unfoldable pub reduce_kind :
      Option OrderRecord → NormalizedStripeEvent → Result SafeFailure BillingReduction
  reduce_kind current (ignored base type id) =
      ok (record { disposition = Disposition.ignored; order = current })
  reduce_kind current (accepted base type m) = reduce_accepted current base type m

  unfoldable pub reduce_billing_event :
      Option OrderRecord → NormalizedStripeEvent → Result SafeFailure BillingReduction
  unfolding reduce_kind
  reduce_billing_event current event = do validate_event event; reduce_kind current event

  -- One delivery: a refused event leaves the stored order as it was.
  unfoldable pub apply_event : Option OrderRecord → NormalizedStripeEvent → Option OrderRecord
  unfolding reduce_billing_event
  apply_event current event = elim (reduce_billing_event current event) [
    | ok r ↦ r.order
    | err _ ↦ current
  ]

  unfoldable pub apply_events : Option OrderRecord → List NormalizedStripeEvent → Option OrderRecord
  apply_events current [] = current
  apply_events current (e ∷ es) = apply_events (apply_event current e) es
