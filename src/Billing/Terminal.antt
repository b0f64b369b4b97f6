-- ===== src/Billing/Terminal.antt =====
-- What `reduceBillingEvent` keeps: terminal states, the identity of a subscription, stale events.
use esig_suite.Prelude.{
  ℕ, is_some, get_or, ap, All, subst, ◌&&◌, ◌<◌, String, ◌≡◌, ◌≢◌, refl, sym, ◌∙◌, ◌⊎◌, inl, inr,
  Bool, true, false, none, some, List, [], ◌∷◌, arith, string_eq, ok, err,
}
use esig_suite.Billing.{
  BillingState, canceled, refunded, OrderRecord, OrderMetadata, EventBase, EventType,
  NormalizedStripeEvent, EventCursor, ignored, accepted, BillingReduction, validate_event,
  is_terminal, next_order, reduce_accepted, reduce_billing_event, apply_event, apply_events,
  desired_billing_state, event_cursor, charge_refunded, stale, next_disposition,
}
use esig_suite.Failure.{invalid_event, failure}
use text.Mathlib.TextEquality.{eq_iff}

pub validate_cases :
    (e : NormalizedStripeEvent)
    → (validate_event e ≡ err (failure invalid_event)) ⊎ (validate_event e ≡ ok tt)
unfolding validate_event
validate_cases (ignored b t i) = ground arith
validate_cases (accepted b t m) = ground arith

module _ (locale_after : String → String → Bool) where
  -- What a later record of the same order keeps.
  pub record Keeps (before after : OrderRecord) : Type 0 where
    pub version : after.version ≡ before.version
    pub subscription : after.subscription_id ≡ before.subscription_id
    pub refund : before.billing_state ≡ refunded → after.billing_state ≡ refunded
    pub cancel : before.billing_state ≡ canceled → is_terminal after.billing_state ≡ true
    pub customer : before.customer_id ≢ none → after.customer_id ≡ before.customer_id
    pub owner : before.owner_subject ≢ none → after.owner_subject ≡ before.owner_subject
    pub mode : before.mode ≢ none → after.mode ≡ before.mode
    pub plan : before.plan ≢ none → after.plan ≢ none
    pub final_plan :
        is_terminal before.billing_state ≡ true → before.plan ≢ none → after.plan ≡ before.plan

  next_order-Keeps :
      (o : OrderRecord) (b : EventBase) (s : BillingState) (c : EventCursor) (m : OrderMetadata)
      → Keeps o (next_order locale_after o b s c m)
  unfolding next_order
  next_order-Keeps o b s c m = record {
    version = refl;
    subscription = refl;
    refund = λ h. ground arith;
    cancel = λ h. ground arith;
    customer = λ h. ground arith;
    owner = λ h. ground arith;
    mode = λ h. ground arith;
    plan = λ h. ground arith;
    final_plan = λ t h. ground arith;
  }

  -- An event from before the latest one that was accepted.
  abbrev pub IsOlder : ℕ → NormalizedStripeEvent → Type 0
  IsOlder latest (ignored b t i) = b.created_at < latest
  IsOlder latest (accepted b t m) = b.created_at < latest

  -- What an older event leaves.
  Stays : OrderRecord → OrderRecord → Type 0
  Stays o o' =
      (o'.latest_event_created_at ≡ o.latest_event_created_at) × (o.plan ≢ none → o'.plan ≡ o.plan)

  next_order-Stays :
      (o : OrderRecord) (b : EventBase) (s : BillingState) (c : EventCursor) (m : OrderMetadata)
      → b.created_at < o.latest_event_created_at
      → Stays o (next_order locale_after o b s c m)
  unfolding next_order Stays
  next_order-Stays o b s c m older = (ground (arith, older), λ h. ground (arith, older))

  Keeps-refl : (o : OrderRecord) → Keeps o o
  Keeps-refl o = record {
    version = refl;
    subscription = refl;
    refund = λ h. h;
    cancel = λ h. ground arith;
    customer = λ h. refl;
    owner = λ h. refl;
    mode = λ h. refl;
    plan = λ h. h;
    final_plan = λ t h. refl;
  }

  -- A terminal state is canceled or refunded.
  terminal_step :
      (s t : BillingState)
      → is_terminal s ≡ true
      → (s ≡ refunded → t ≡ refunded)
      → (s ≡ canceled → is_terminal t ≡ true)
      → is_terminal t ≡ true
  terminal_step canceled t h r c = c refl
  terminal_step refunded t h r c = ground (arith, r refl)
  terminal_step _ t h r c = cc

  Keeps-trans : {a b c : OrderRecord} → Keeps a b → Keeps b c → Keeps a c
  Keeps-trans {a} {b} {c} k l = record {
    version = l.version ∙ k.version;
    subscription = l.subscription ∙ k.subscription;
    refund = λ h. l.refund (k.refund h);
    cancel = λ h. terminal_step b.billing_state c.billing_state (k.cancel h) l.refund l.cancel;
    customer = λ h. cc (k.customer h, l.customer (λ e. h (sym (k.customer h) ∙ e)));
    owner = λ h. cc (k.owner h, l.owner (λ e. h (sym (k.owner h) ∙ e)));
    mode = λ h. cc (k.mode h, l.mode (λ e. h (sym (k.mode h) ∙ e)));
    plan = λ h. l.plan (k.plan h);
    final_plan = λ t h.
        l.final_plan (terminal_step a.billing_state b.billing_state t k.refund k.cancel) (k.plan h)
        ∙ k.final_plan t h;
  }

  abbrev pub next : OrderRecord → EventBase → EventType → OrderMetadata → OrderRecord
  next o b t m =
      let s = desired_billing_state t in next_order locale_after o b s (event_cursor b s) m

  -- An accepted event is refused and changes nothing, or it replaces the order by the next one.
  pub apply_accepted_cases :
      (o : OrderRecord) (b : EventBase) (t : EventType) (m : OrderMetadata)
      → (((validate_event (accepted b t m) ≡ err (failure invalid_event))
            ⊎ (o.subscription_id ≢ m.subscription_id))
          × (apply_event locale_after (some o) (accepted b t m) ≡ some o))
        ⊎ ((validate_event (accepted b t m) ≡ ok tt)
            × (o.subscription_id ≡ m.subscription_id)
            × (apply_event locale_after (some o) (accepted b t m) ≡ some (next o b t m)))
  unfolding apply_event reduce_accepted
  apply_accepted_cases o b t m =
      ground (arith, validate_cases (accepted b t m), eq_iff o.subscription_id m.subscription_id)

  apply_event-Keeps :
      (o : OrderRecord) (e : NormalizedStripeEvent)
      → (o' : OrderRecord) × (apply_event locale_after (some o) e ≡ some o')
        × Keeps o o'
        × (IsOlder o.latest_event_created_at e → Stays o o')
  unfolding Stays
  apply_event-Keeps o (ignored b t i) =
      (o, unfold apply_event in ground arith, Keeps-refl o, λ older. (refl, λ h. refl))
  apply_event-Keeps o (accepted b t m) = elim (apply_accepted_cases o b t m) [
    | inl (_, e) ↦ (o, e, Keeps-refl o, λ older. (refl, λ h. refl))
    | inr (_, _, e) ↦ (next o b t m, e, next_order-Keeps o b _ _ m, next_order-Stays o b _ _ m)
  ]

  delivered :
      (o : OrderRecord) (es : List NormalizedStripeEvent)
      → (o' : OrderRecord) × (apply_events locale_after (some o) es ≡ some o')
        × Keeps o o'
        × (All (IsOlder o.latest_event_created_at) es → o.plan ≢ none → o'.plan ≡ o.plan)
  unfolding apply_events Stays
  delivered o [] = (o, refl, Keeps-refl o, λ older h. refl)
  delivered o (e ∷ es) =
      let (o1, p, k, stays) = apply_event-Keeps o e in
      let (o2, q, l, rest) = delivered o1 es in
      (
        o2,
        rw p q,
        Keeps-trans k l,
        λ older h.
            let (latest, plan) = stays older.0 in
            rest (subst (λ t. All (IsOlder t) es) (sym latest) older.1) (k.plan h) ∙ plan h,
      )

  -- Whatever events are delivered, the order stays, and keeps its identity and its terminal state: a
  -- refunded order stays refunded, a canceled one is canceled or refunded. It keeps the customer, the
  -- owner and the mode that are known. A known plan stays known, and once the order is canceled or
  -- refunded, it stays the same.
  pub apply_events-Keeps :
      (o : OrderRecord) (es : List NormalizedStripeEvent)
      → (o' : OrderRecord) × (apply_events locale_after (some o) es ≡ some o') × Keeps o o'
  apply_events-Keeps o es = let (o', p, k, older) = delivered o es in (o', p, k)

  -- Events that are older than the latest one that was accepted, however many are delivered, do not
  -- replace a known plan.
  pub apply_events-plan :
      (o o' : OrderRecord) (es : List NormalizedStripeEvent)
      → apply_events locale_after (some o) es ≡ some o'
      → All (IsOlder o.latest_event_created_at) es
      → o.plan ≢ none
      → o'.plan ≡ o.plan
  apply_events-plan o o' es e older known =
      let (o1, p, k, rest) = delivered o es in
      ap (λ x. (get_or x o).plan) (sym e ∙ p) ∙ rest older known

  next_order-refund :
      (o : OrderRecord) (b : EventBase) (c : EventCursor) (m : OrderMetadata)
      → is_terminal o.billing_state ≡ false
      → (next_order locale_after o b refunded c m).billing_state ≡ refunded
  unfolding next_order
  next_order-refund o b c m live = ground arith

  late_disposition :
      (o : OrderRecord) (b : EventBase) (m : OrderMetadata)
      → is_terminal o.billing_state ≡ false
      → b.created_at < o.latest_event_created_at
      → b.created_at < o.state_cursor.created_at
      → (is_some o.customer_id && is_some o.owner_subject && is_some o.mode && is_some o.plan)
        ≡ true
      → next_disposition locale_after o b refunded
          (event_cursor b refunded)
          (next o b charge_refunded m)
        ≡ stale
  unfolding next_disposition next_order event_cursor desired_billing_state
  late_disposition o b m live older behind known = ground arith

  -- A refund that is delivered after younger events is applied: the order becomes refunded. Yet the
  -- reduction calls it stale, once the order's metadata is known.
  pub late_refund :
      (o : OrderRecord) (b : EventBase) (m : OrderMetadata)
      → validate_event (accepted b charge_refunded m) ≡ ok tt
      → o.subscription_id ≡ m.subscription_id
      → is_terminal o.billing_state ≡ false
      → b.created_at < o.latest_event_created_at
      → b.created_at < o.state_cursor.created_at
      → (is_some o.customer_id && is_some o.owner_subject && is_some o.mode && is_some o.plan)
        ≡ true
      → (r : BillingReduction) × (o' : OrderRecord) × (reduce_billing_event locale_after
            (some o)
            (accepted b charge_refunded m)
          ≡ ok r)
        × (r.order ≡ some o')
        × (o'.billing_state ≡ refunded)
        × (r.disposition ≡ stale)
  unfolding reduce_billing_event reduce_accepted desired_billing_state
  late_refund o b m valid same live older behind known = (
    record {
      disposition = next_disposition locale_after o b refunded (event_cursor b refunded) o';
      order = some o';
    },
    o',
    ground (arith, (eq_iff o.subscription_id m.subscription_id).1 same),
    refl,
    next_order-refund o b (event_cursor b refunded) m live,
    late_disposition o b m live older behind known,
  )
    where
      o' : OrderRecord
      o' = next o b charge_refunded m
