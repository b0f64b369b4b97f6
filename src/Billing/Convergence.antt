-- ===== src/Billing/Convergence.antt =====
-- Deliveries of one subscription's events in any order lead to one billing state.
use mathlib.Core.List.{Mem, Perm, not-mem-nil, mem-cons_self, mem-cons_of_mem}
use mathlib.Core.List.Perm
use mathlib.Core.Option
use mathlib.Core.Option.{Option-elim}
use esig_suite.Prelude.{
  All, All-mem, eq_set, string_eq, ◌≡◌, refl, sym, ap, ◌∙◌, String, Bool, Option, none, some, List,
  [], ◌∷◌, arith, nat_eq, ◌⊎◌, inl, inr,
}
use esig_suite.Billing.{
  BillingState, OrderRecord, NormalizedStripeEvent, ignored, accepted, desired_billing_state,
  event_cursor, next_order, apply_event, apply_events, reduce_accepted, created_order,
}
use esig_suite.Billing.Terminal.{next, apply_accepted_cases, validate_cases}
use esig_suite.Billing.Claims.{
  IsComparator, Claim, claim, IsCoherent, claim_of, claims, claims-IsCoherent, view, IsFor, better,
  pick, pick-perm, choose_state-pick,
}

-- The reducer is the pick, on the claims of valid events.
module _ (locale_after : String → String → Bool) where
  apply_event-pick :
      (o : OrderRecord) (e : NormalizedStripeEvent)
      → IsFor o.subscription_id e
      → (o' : OrderRecord) × (apply_event locale_after (some o) e ≡ some o')
        × (o'.subscription_id ≡ o.subscription_id)
        × (view o'
            ≡ (elim (claim_of e) [ none ↦ view o | some c ↦ better locale_after (view o) c ]))
  unfolding claim_of view
  apply_event-pick o (ignored b t i) h = (o, unfold apply_event in ground arith, refl, refl)
  apply_event-pick o (accepted b t m) h = elim (apply_accepted_cases locale_after o b t m) [
    | inl (inl refused, e) ↦ (o, e, refl, rw refused)
    | inl (inr foreign, e) ↦ absurd (foreign (sym h))
    | inr (valid, _, e) ↦ (
      next locale_after o b t m,
      e,
      unfold next_order in refl,
      rw valid (unfold next_order better in choose_state-pick locale_after _ _ _ _),
    )
  ]

  pick_step :
      (w w1 : Claim) (k : Option Claim) (cs : List Claim)
      → w1 ≡ elim k [ none ↦ w | some c ↦ better locale_after w c ]
      → pick locale_after w1 cs ≡ pick locale_after w (Option-elim k cs (λ b. b ∷ cs))
  unfolding pick Option-elim
  pick_step w w1 none cs h = rw h
  pick_step w w1 (some c) cs h = rw h

  pick_all : List Claim → Option BillingState
  pick_all [] = none
  pick_all (c ∷ cs) = some (pick locale_after c cs).state

  pick_all-perm :
      (cmp : IsComparator locale_after) (cs ds : List Claim)
      → ((x : Claim) → Mem x cs → IsCoherent x)
      → Perm cs ds
      → pick_all cs ≡ pick_all ds
  unfolding pick_all
  pick_all-perm cmp [] [] h p = refl
  pick_all-perm cmp [] (d ∷ ds) h p = absurd (not-mem-nil ((Perm.mem_iff p).1 mem-cons_self))
  pick_all-perm cmp (c ∷ cs) [] h p = absurd (not-mem-nil ((Perm.mem_iff p).0 mem-cons_self))
  pick_all-perm cmp (c ∷ cs) (d ∷ ds) h p = ap some (pick-perm locale_after cmp c d cs ds h p)

  apply_events-pick :
      (o : OrderRecord) (es : List NormalizedStripeEvent)
      → ((e : NormalizedStripeEvent) → Mem e es → IsFor o.subscription_id e)
      → (o' : OrderRecord) × (apply_events locale_after (some o) es ≡ some o')
        × (view o' ≡ pick locale_after (view o) (claims es))
  unfolding apply_events claims pick
  apply_events-pick o [] mine = (o, refl, refl)
  apply_events-pick o (e ∷ es) mine =
      let (o1, p, same, v) = apply_event-pick o e (mine e mem-cons_self) in
      let (o2, q, u) = apply_events-pick o1 es (λ x m. rw same (mine x (mem-cons_of_mem e m))) in
      (o2, rw p q, u ∙ pick_step (view o) (view o1) (claim_of e) (claims es) v)

  -- The state that is stored after deliveries to a subscription that had no order.
  unfoldable pub stored_state : List NormalizedStripeEvent → Option BillingState
  stored_state es = Option.map (λ o. o.billing_state) (apply_events locale_after none es)

  apply_first :
      (e : NormalizedStripeEvent)
      → ((claim_of e ≡ none) × (apply_event locale_after none e ≡ none))
        ⊎ ((c : Claim) × (o : OrderRecord) × (claim_of e ≡ some c)
            × (apply_event locale_after none e ≡ some o)
            × (view o ≡ c)
            × ((s : String) → IsFor s e → o.subscription_id ≡ s))
  unfolding claim_of apply_event reduce_accepted created_order view
  apply_first (ignored b t i) = inl (refl, ground arith)
  apply_first (accepted b t m) = elim (validate_cases (accepted b t m)) [
    | inl e ↦ inl (rw (e, claim_of), ground arith)
    | inr e ↦
        (let s = desired_billing_state t in
          inr (
            claim s (event_cursor b s),
            created_order b s (event_cursor b s) m,
            rw (e, claim_of),
            ground arith,
            refl,
            λ s h. h,
          ))
  ]

  stored_state-pick_all :
      (sub : String) (es : List NormalizedStripeEvent)
      → ((e : NormalizedStripeEvent) → Mem e es → IsFor sub e)
      → stored_state es ≡ pick_all (claims es)
  unfolding stored_state apply_events claims pick_all view Option-elim
  stored_state-pick_all sub [] mine = refl
  stored_state-pick_all sub (e ∷ es) mine = elim (apply_first e) [
    | inl (no_claim, p) ↦
        rw (p, no_claim) (stored_state-pick_all sub es (λ x m. mine x (mem-cons_of_mem e m)))
    | inr (c, o, made, p, v, same) ↦
        (let its_sub = same sub (mine e mem-cons_self) in
          let (o', q, u) =
            apply_events-pick o es (λ x m. rw its_sub (mine x (mem-cons_of_mem e m))) in
          rw (p, made, q)
            (ap (λ w. some w.state) (u ∙ ap (λ w. pick locale_after w (claims es)) v)))
  ]

  IsFor-prop : (sub : String) (e : NormalizedStripeEvent) → IsProp (IsFor sub e)
  IsFor-prop sub (ignored b t i) = hlevel
  IsFor-prop sub (accepted b t m) = eq_set _ _

  -- Every delivery order of the same events of one subscription leads to the same billing state, if
  -- the order of localeCompare is asymmetric and not coming after is transitive. The state cursor is
  -- not compared.
  pub stored_state-perm :
      (sub : String) (es fs : List NormalizedStripeEvent)
      → IsComparator locale_after
      → All (IsFor sub) es
      → Perm es fs
      → stored_state es ≡ stored_state fs
  stored_state-perm sub es fs cmp all perm =
      let mine = All-mem (IsFor-prop sub) es all in
      stored_state-pick_all sub es mine
      ∙ pick_all-perm cmp (claims es) (claims fs) (claims-IsCoherent es)
          (unfold claims in Perm.filter_map claim_of perm)
      ∙ sym (stored_state-pick_all sub fs (λ e m. mine e ((Perm.mem_iff perm).1 m)))
