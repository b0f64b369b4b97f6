-- ===== src/Billing/Claims.antt =====
-- What an event claims of its subscription, which claim is the better one (`compareCursor` and the
-- branches of `reduceBillingEvent` that choose the state), and the best of a list of claims.
use mathlib.Core.List.{
  filter_map, Mem, Mem-prop, Perm, mem-cons, not-mem-nil, mem-cons_self, mem-cons_of_mem,
}
use mathlib.Core.List.Perm
use mathlib.Core.Logic.Or
use mathlib.Core.Option.{Option-elim}
use native.Mathlib.Nat.{ℕ_set}
use esig_suite.Prelude.{
  ℕ, ◌≡◌, refl, String, Bool, true, false, ◌&&◌, ◌||◌, Option, none, some, List, [], ◌∷◌, arith,
  ltb, ◌==◌, nat_eq, if◌then◌else◌, ok, err, inl, inr, Bool-cases,
}
use esig_suite.Billing.{
  BillingState, canceled, refunded, EventCursor, OrderRecord, NormalizedStripeEvent, ignored,
  accepted, validate_event, desired_billing_state, event_cursor, state_precedence, cursor_after,
  choose_state,
}
use esig_suite.Billing.Terminal.{validate_cases}

-- What the code relies on in the host's `localeCompare`: it is a consistent comparison.
pub record IsComparator (locale_after : String → String → Bool) : Type 0 where
  pub asymm : (a b : String) → locale_after a b ≡ true → locale_after b a ≡ false
  pub neg_trans :
      (a b c : String)
      → locale_after a b ≡ false
      → locale_after b c ≡ false
      → locale_after a c ≡ false

-- A claim: the state that an event asks for, at the event's cursor.
pub record Claim : Type 0 where
  pub state : BillingState
  pub cursor : EventCursor

abbrev pub claim : BillingState → EventCursor → Claim
claim s c = record { state = s; cursor = c }

-- Refunds come before cancellations, and those before the other states.
abbrev tier : BillingState → ℕ
tier refunded = 2
tier canceled = 1
tier _ = 0

abbrev pub IsCoherent : Claim → Type 0
IsCoherent c = c.cursor.precedence ≡ state_precedence c.state

unfoldable pub claim_of : NormalizedStripeEvent → Option Claim
claim_of (ignored b t i) = none
claim_of (accepted b t m) = elim (validate_event (accepted b t m)) [
  | ok _ ↦ some (record {
    state = desired_billing_state t;
    cursor = event_cursor b (desired_billing_state t);
  })
  | err _ ↦ none
]

-- The claims of the valid accepted events.
unfoldable pub claims : List NormalizedStripeEvent → List Claim
unfolding filter_map
claims = filter_map claim_of

claim_of-IsCoherent : (e : NormalizedStripeEvent) (c : Claim) → claim_of e ≡ some c → IsCoherent c
unfolding claim_of event_cursor
claim_of-IsCoherent (ignored b t i) c h = cc
claim_of-IsCoherent (accepted b t m) c h = ground (arith, validate_cases (accepted b t m))

claims_step :
    (k : Option Claim) (cs : List Claim) (x : Claim)
    → ((c : Claim) → k ≡ some c → IsCoherent c)
    → ((y : Claim) → Mem y cs → IsCoherent y)
    → Mem x (Option-elim k cs (λ b. b ∷ cs))
    → IsCoherent x
unfolding Option-elim
claims_step none cs x h t m = t x m
claims_step (some c) cs x h t m = Or.elim (ℕ_set _ _) (mem-cons.0 m) (λ e. rw e (h c refl)) (t x)

pub claims-IsCoherent :
    (es : List NormalizedStripeEvent) (x : Claim) → Mem x (claims es) → IsCoherent x
unfolding claims
claims-IsCoherent [] x m = absurd (not-mem-nil m)
claims-IsCoherent (e ∷ es) x m =
    claims_step (claim_of e) (claims es) x (claim_of-IsCoherent e) (claims-IsCoherent es) m

unfoldable pub view : OrderRecord → Claim
view o = record { state = o.billing_state; cursor = o.state_cursor }

-- The event belongs to the subscription, or is one that the reducer ignores.
abbrev pub IsFor : String → NormalizedStripeEvent → Type 0
IsFor sub (ignored b t i) = Unit
IsFor sub (accepted b t m) = m.subscription_id ≡ sub

module _ (locale_after : String → String → Bool) where
  pub beats : Claim → Claim → Bool
  beats c d =
      ltb (tier d.state) (tier c.state)
      || (tier c.state == 0 && tier d.state == 0 && cursor_after locale_after c.cursor d.cursor)

  unfoldable pub better : Claim → Claim → Claim
  better w c = if beats c w then c else w

  unfoldable pub pick : Claim → List Claim → Claim
  pick w [] = w
  pick w (c ∷ cs) = pick (better w c) cs

  -- The reducer's choice of a state is the choice of the better claim.
  pub choose_state-pick :
      (s d : BillingState) (c k : EventCursor)
      → claim
          (choose_state locale_after s c d k).billing_state
          (choose_state locale_after s c d k).state_cursor
        ≡ (if beats (claim d k) (claim s c) then claim d k else claim s c)
  unfolding choose_state beats
  choose_state-pick s d c k = ground arith

  module _ (cmp : IsComparator locale_after) where
    cursor_after-asymm :
        (a b : EventCursor)
        → cursor_after locale_after a b ≡ true
        → cursor_after locale_after b a ≡ false
    unfolding cursor_after
    cursor_after-asymm a b h = ground (arith, cmp.asymm a.event_id b.event_id)

    cursor_after-neg_trans :
        (a b c : EventCursor)
        → cursor_after locale_after a b ≡ false
        → cursor_after locale_after b c ≡ false
        → cursor_after locale_after a c ≡ false
    unfolding cursor_after
    cursor_after-neg_trans a b c h k =
        ground (arith, cmp.neg_trans a.event_id b.event_id c.event_id)

    beats-asymm : (a b : Claim) → beats a b ≡ true → beats b a ≡ false
    unfolding beats
    beats-asymm a b h = ground (arith, cursor_after-asymm a.cursor b.cursor)

    beats_irrefl : (a : Claim) → beats a a ≡ false
    beats_irrefl a = elim (Bool-cases (beats a a)) [ inl e ↦ beats-asymm a a e | inr e ↦ e ]

    beats-neg_trans : (a b c : Claim) → beats a b ≡ false → beats b c ≡ false → beats a c ≡ false
    unfolding beats
    beats-neg_trans a b c h k = ground (arith, cursor_after-neg_trans a.cursor b.cursor c.cursor)

    -- The pick is one of the claims, and none of them beats it.
    pub record IsWinner (w : Claim) (cs : List Claim) : Type 0 where
      pub listed : Mem w cs
      pub unbeaten : (x : Claim) → Mem x cs → beats x w ≡ false

    not_beats : (a b : Claim) → IsProp (beats a b ≡ false)
    not_beats a b = hlevel

    better_unbeaten :
        (w c : Claim) → (beats w (better w c) ≡ false) × (beats c (better w c) ≡ false)
    unfolding better
    better_unbeaten w c = elim (Bool-cases (beats c w)) [
      | inl e ↦ rw e (beats-asymm c w e, beats_irrefl c)
      | inr e ↦ rw e (beats_irrefl w, e)
    ]

    mem-better : (w c : Claim) (cs : List Claim) → Mem (better w c) (w ∷ c ∷ cs)
    unfolding better
    mem-better w c cs = elim (Bool-cases (beats c w)) [
      | inl e ↦ rw e (mem-cons_of_mem w mem-cons_self)
      | inr e ↦ rw e mem-cons_self
    ]

    pick-IsWinner : (w : Claim) (cs : List Claim) → IsWinner (pick w cs) (w ∷ cs)
    unfolding pick
    pick-IsWinner w [] = record {
      listed = mem-cons_self;
      unbeaten = λ x m.
          Or.elim (not_beats x w) (mem-cons.0 m) (λ e. rw e (beats_irrefl w))
            (λ n. absurd (not-mem-nil n));
    }
    pick-IsWinner w (c ∷ cs) =
        let ih = pick-IsWinner (better w c) cs in
        let best = pick (better w c) cs in
        let top = ih.unbeaten (better w c) mem-cons_self in
        record {
          listed =
              Or.elim Mem-prop (mem-cons.0 ih.listed) (λ e. rw e (mem-better w c cs))
                (λ n. mem-cons_of_mem w (mem-cons_of_mem c n));
          unbeaten = λ x m.
              Or.elim (not_beats x best) (mem-cons.0 m)
                (λ e. rw e (beats-neg_trans w (better w c) best (better_unbeaten w c).0 top))
                (λ n.
                  Or.elim (not_beats x best) (mem-cons.0 n)
                    (λ e. rw e (beats-neg_trans c (better w c) best (better_unbeaten w c).1 top))
                    (λ k. ih.unbeaten x (mem-cons_of_mem _ k)));
        }

    state_precedence-injective :
        (s t : BillingState) → state_precedence s ≡ state_precedence t → s ≡ t
    unfolding state_precedence
    state_precedence-injective s t h = ground arith

    unbeaten_cursor :
        (a b : EventCursor)
        → cursor_after locale_after a b ≡ false
        → cursor_after locale_after b a ≡ false
        → a.precedence ≡ b.precedence
    unfolding cursor_after
    unbeaten_cursor a b h k = ground arith

    -- Two coherent claims that do not beat one another ask for the same state.
    unbeaten_state :
        (a b : Claim)
        → IsCoherent a
        → IsCoherent b
        → beats a b ≡ false
        → beats b a ≡ false
        → a.state ≡ b.state
    unfolding beats
    unbeaten_state a b p q h k =
        ground
          (arith, unbeaten_cursor a.cursor b.cursor, state_precedence-injective a.state b.state)

    pub pick-perm :
        (w v : Claim) (cs ds : List Claim)
        → ((x : Claim) → Mem x (w ∷ cs) → IsCoherent x)
        → Perm (w ∷ cs) (v ∷ ds)
        → (pick w cs).state ≡ (pick v ds).state
    pick-perm w v cs ds coherent perm =
        let a = pick-IsWinner w cs in
        let b = pick-IsWinner v ds in
        let b_listed = (Perm.mem_iff perm).1 b.listed in
        unbeaten_state _ _ (coherent _ a.listed) (coherent _ b_listed)
          (b.unbeaten _ ((Perm.mem_iff perm).0 a.listed)) (a.unbeaten _ b_listed)
