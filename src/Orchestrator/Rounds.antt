-- ===== src/Orchestrator/Rounds.antt =====
-- The loops over the steps make progress: each round of `runProvisioningSteps` and of
-- `runCompensationSteps` (infra/provisioning/src/orchestrator.ts) leaves one step less.
use mathlib.Core.List.{reverse}
use esig_suite.Prelude.{
  ℕ, suc, zero, ◌-◌, ◌≤◌, ◌<◌, ◌≡◌, sym, ap, subst, ◌∙◌, Bool, true, false, not, Option, none, some,
  List, [], ◌∷◌, ◌++◌, arith, ok, ◌==◌, nat_eq, length, take, get_elem?, find, select, any-append,
  length-append, length-take-le,
}
use esig_suite.Billing.{OrderRecord}
use esig_suite.Job.{
  ProvisioningJob, next_provisioning_step, next_compensation_step, complete_provisioning_step,
  complete_compensation_step, with_completed, with_compensated,
}
use esig_suite.Job.Step.{ProvisioningStep, provisioning_steps, step_eq, includes}
use esig_suite.Job.Valid.{IsValid, next_compensation_step-completed}
use esig_suite.Job.Runs.{JobStep, complete, compensate}
use esig_suite.Ledger.{MemoryStore}
use esig_suite.Orchestrator.Events.{save_updated_job}
use esig_suite.Orchestrator.{Digests, World, pure, ◌>>=◌}
use esig_suite.Orchestrator.Moves.{next_version}
use esig_suite.Orchestrator.Rules.{
  Good, IsFine, Anything, pure-Good, lift-Good, bind-Good, if_some-Good,
}
use esig_suite.Orchestrator.Safety.{assert_owned-Safe}
use esig_suite.Orchestrator.EffectSafety.{perform_step-Safe, undo_step-Safe}
use esig_suite.Orchestrator.Saves.{Known, Known-later, SavedFrom, save_updated_job-Good}
use esig_suite.Orchestrator.Inputs.{RunInput}
use esig_suite.Orchestrator.Steps.{
  perform_and_save, provisioning_round, undo_and_save, compensation_round,
}

unfoldable pub to_complete : ProvisioningJob → ℕ
to_complete j = 7 - length j.completed_steps

unfoldable pub to_undo : ProvisioningJob → ℕ
to_undo j = length (select (λ s. not (includes j.compensated_steps s)) j.completed_steps)

-- The step at a place of the order does not stand before it.
fresh_at :
    (n : ℕ) (s : ProvisioningStep)
    → get_elem? provisioning_steps n ≡ some s
    → (includes (take n provisioning_steps) s ≡ false) × (n < 7)
fresh_at zero s h = ground arith
fresh_at (suc zero) s h = ground arith
fresh_at (suc (suc zero)) s h = ground arith
fresh_at (suc (suc (suc zero))) s h = ground arith
fresh_at (suc (suc (suc (suc zero)))) s h = ground arith
fresh_at (suc (suc (suc (suc (suc zero))))) s h = ground arith
fresh_at (suc (suc (suc (suc (suc (suc zero)))))) s h = ground arith
fresh_at (suc (suc (suc (suc (suc (suc (suc n))))))) s h = ground arith

next_step-fresh :
    (j : ProvisioningJob) (s : ProvisioningStep)
    → IsValid j
    → next_provisioning_step j ≡ some s
    → (includes j.completed_steps s ≡ false) × (length j.completed_steps < 7)
unfolding next_provisioning_step
next_step-fresh j s v h =
    let (fresh, few) = fresh_at (length j.completed_steps) s h in
    (ap (λ ss. includes ss s) v.in_order ∙ fresh, few)

completes :
    (j k : ProvisioningJob) (s : ProvisioningStep)
    → IsValid j
    → next_provisioning_step j ≡ some s
    → complete_provisioning_step j s ≡ ok k
    → to_complete (next_version j k) < to_complete j
unfolding complete_provisioning_step with_completed to_complete next_version
completes j k s v n h =
    ground (arith, next_step-fresh j s v n, length-append j.completed_steps (s ∷ []))

find-holds :
    (p : ProvisioningStep → Bool) (xs : List ProvisioningStep) (x : ProvisioningStep)
    → find p xs ≡ some x
    → p x ≡ true
find-holds p [] x h = ground arith
find-holds p (y ∷ xs) x h = ground (arith, find-holds p xs x)

-- One more compensated step leaves fewer.
undone_le :
    (c : List ProvisioningStep) (s : ProvisioningStep) (xs : List ProvisioningStep)
    → length (select (λ t. not (includes (c ++ s ∷ []) t)) xs)
      ≤ length (select (λ t. not (includes c t)) xs)
undone_le c s [] = omega arith
undone_le c s (x ∷ xs) = ground (arith, undone_le c s xs, any-append (λ t. t == x) c (s ∷ []))

undone_lt :
    (c : List ProvisioningStep) (s : ProvisioningStep) (xs : List ProvisioningStep)
    → includes xs s ≡ true
    → includes c s ≡ false
    → length (select (λ t. not (includes (c ++ s ∷ []) t)) xs)
      < length (select (λ t. not (includes c t)) xs)
undone_lt c s [] h e = ground arith
undone_lt c s (x ∷ xs) h e = ground (
  arith,
  undone_le c s xs,
  undone_lt c s xs,
  any-append (λ t. t == x) c (s ∷ []),
  step_eq.equals_iff x s,
)

undoes_one :
    (j k : ProvisioningJob) (s : ProvisioningStep)
    → next_compensation_step j ≡ some s
    → complete_compensation_step j s ≡ ok k
    → to_undo (next_version j k) < to_undo j
unfolding complete_compensation_step with_compensated to_undo next_version next_compensation_step
undoes_one j k s n h = ground (
  arith,
  undone_lt j.compensated_steps s j.completed_steps,
  next_compensation_step-completed j s n,
  find-holds (λ t. not (includes j.compensated_steps t)) (reverse j.completed_steps) s n,
)

pub to_complete-le : (j : ProvisioningJob) → to_complete j ≤ 7
unfolding to_complete
to_complete-le j = omega arith

length-select-le :
    (p : ProvisioningStep → Bool) (xs : List ProvisioningStep) → length (select p xs) ≤ length xs
length-select-le p [] = omega arith
length-select-le p (x ∷ xs) = ground (arith, length-select-le p xs)

pub to_undo-le : (j : ProvisioningJob) → IsValid j → to_undo j ≤ 7
unfolding to_undo
to_undo-le j v =
    let few = length-take-le (length j.completed_steps) provisioning_steps in
    let same = ap length v.in_order in
    let fewer = length-select-le (λ s. not (includes j.compensated_steps s)) j.completed_steps in
    omega (arith, few, same, fewer)

-- What a round leaves: nothing more to do, or a known job with less to do.
abbrev pub Advances :
    (ProvisioningJob → ℕ) → ProvisioningJob → Option ProvisioningJob → MemoryStore → Type 0
Advances measure j none s = Unit
Advances measure j (some k) s = Known k s × (measure k < measure j)

module _ (d : Digests) (i : RunInput) (o : OrderRecord) where
  saved-Advances :
      (measure : ProvisioningJob → ℕ) (j k : ProvisioningJob) (w : World)
      → IsFine d w
      → Known j w.store
      → JobStep j k
      → measure (next_version j k) < measure j
      → Good d (Advances measure j) w (save_updated_job d j k >>= λ p. pure (some p))
  saved-Advances measure j k w f known step less =
      bind-Good d (SavedFrom j k) (Advances measure j) _ _ w
        (save_updated_job-Good d j k w f known step)
        λ p v g m q.
          pure-Good d (Advances measure j) (some p) v g
            (q.1, subst (λ r. measure r < measure j) (sym q.0) less)

  perform_and_save-Good :
      (j : ProvisioningJob) (s : ProvisioningStep) (w : World)
      → IsFine d w
      → Known j w.store
      → next_provisioning_step j ≡ some s
      → Good d (Advances to_complete j) w (perform_and_save d i o j s)
  unfolding perform_and_save
  perform_and_save-Good j s w f known n =
      bind-Good d Anything _ _ _ w ((perform_step-Safe d i o j s).holds w f) λ _ v g m _.
        bind-Good d (λ k t. complete_provisioning_step j s ≡ ok k) _ _ _ v
          (lift-Good d _ _ v g (λ k e. e))
          λ k u h r e.
            saved-Advances to_complete j k u h
              (Known-later d v.store u.store j r (Known-later d w.store v.store j m known))
              (complete s e) (completes j k s known.valid n e)

  pub provisioning_round-Good :
      (j : ProvisioningJob) (w : World)
      → IsFine d w
      → Known j w.store
      → Good d (Advances to_complete j) w (provisioning_round d i o j)
  unfolding provisioning_round
  provisioning_round-Good j w f known =
      bind-Good d Anything _ _ _ w ((assert_owned-Safe d).holds w f) λ _ v g m _.
        if_some-Good d Anything _ _ _ _ v
          (λ s n. perform_and_save-Good j s v g (Known-later d w.store v.store j m known) n)
          (λ n. pure-Good d (Advances to_complete j) none v g tt)

  undo_and_save-Good :
      (j : ProvisioningJob) (s : ProvisioningStep) (w : World)
      → IsFine d w
      → Known j w.store
      → next_compensation_step j ≡ some s
      → Good d (Advances to_undo j) w (undo_and_save d i o j s)
  unfolding undo_and_save
  undo_and_save-Good j s w f known n =
      bind-Good d Anything _ _ _ w ((undo_step-Safe d i o j s).holds w f) λ _ v g m _.
        bind-Good d (λ k t. complete_compensation_step j s ≡ ok k) _ _ _ v
          (lift-Good d _ _ v g (λ k e. e))
          λ k u h r e.
            saved-Advances to_undo j k u h
              (Known-later d v.store u.store j r (Known-later d w.store v.store j m known))
              (compensate s e) (undoes_one j k s n e)

  pub compensation_round-Good :
      (j : ProvisioningJob) (w : World)
      → IsFine d w
      → Known j w.store
      → Good d (Advances to_undo j) w (compensation_round d i o j)
  unfolding compensation_round
  compensation_round-Good j w f known =
      bind-Good d Anything _ _ _ w ((assert_owned-Safe d).holds w f) λ _ v g m _.
        if_some-Good d Anything _ _ _ _ v
          (λ s n. undo_and_save-Good j s v g (Known-later d w.store v.store j m known) n)
          (λ n. pure-Good d (Advances to_undo j) none v g tt)
