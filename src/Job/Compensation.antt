-- ===== src/Job/Compensation.antt =====
-- `beginCompensation` keeps a job well formed.
use esig_suite.Prelude.{
  ℕ, suc, zero, ◌<◌, ◌≡◌, refl, sym, ap, ◌∙◌, Bool, true, false, not, List, [], ◌∷◌, ◌++◌, arith,
  ◌==◌, nat_eq, length, take, every, any, Bool-cases, any-append, ◌||◌, ==_refl, inl, inr,
  take-length-take,
}
use esig_suite.Job.{
  ProvisioningJob, ProvisioningOperation, is_provisioning, begin_compensation, furthest, covered,
  with_effects, with_nothing, with_operation, same_operation,
}
use esig_suite.Job.Step.{ProvisioningStep, provisioning_steps, step_eq, step_index, includes}
use esig_suite.Job.Valid.{IsValid}

-- What the steps of a list reach.
index-lt-furthest :
    (ss : List ProvisioningStep) (s : ProvisioningStep)
    → includes ss s ≡ true
    → step_index s < furthest ss
unfolding furthest
index-lt-furthest [] s h = cc
index-lt-furthest (t ∷ ss) s h = ground (arith, index-lt-furthest ss s)

includes-take :
    (n : ℕ) (s : ProvisioningStep)
    → step_index s < n
    → includes (take n provisioning_steps) s ≡ true
includes-take zero s h = absurd (omega arith)
includes-take (suc zero) s h = ground arith
includes-take (suc (suc zero)) s h = ground arith
includes-take (suc (suc (suc zero))) s h = ground arith
includes-take (suc (suc (suc (suc zero)))) s h = ground arith
includes-take (suc (suc (suc (suc (suc zero))))) s h = ground arith
includes-take (suc (suc (suc (suc (suc (suc zero)))))) s h = ground arith
includes-take (suc (suc (suc (suc (suc (suc (suc n))))))) s h = ground arith

covers :
    (j : ProvisioningJob) (observed : List ProvisioningStep) (s : ProvisioningStep)
    → includes j.completed_steps s ≡ true
    → includes (covered j observed) s ≡ true
unfolding covered
covers j observed s h = includes-take (furthest (j.completed_steps ++ observed)) s (
    index-lt-furthest (j.completed_steps ++ observed) s
      (any-append (λ t. t == s) j.completed_steps observed ∙ ap (λ b. b || includes observed s) h))

every_mono :
    (p q : ProvisioningStep → Bool) (xs : List ProvisioningStep)
    → ((s : ProvisioningStep) → p s ≡ true → q s ≡ true)
    → every p xs ≡ true
    → every q xs ≡ true
every_mono p q [] f h = refl
every_mono p q (x ∷ xs) f h = ground (arith, f x, every_mono p q xs f)

covered-in_order :
    (j : ProvisioningJob) (observed : List ProvisioningStep)
    → covered j observed ≡ take (length (covered j observed)) provisioning_steps
unfolding covered
covered-in_order j observed =
    sym (take-length-take (furthest (j.completed_steps ++ observed)) provisioning_steps)

with_effects-IsValid :
    (j : ProvisioningJob) (observed : List ProvisioningStep)
    → is_provisioning j.operation ≡ false
    → IsValid j
    → IsValid (with_effects j (covered j observed))
unfolding with_effects
with_effects-IsValid j observed back v = record {
  in_order = covered-in_order j observed;
  complete = λ r. ground arith;
  undone = ground arith;
  undoes =
      every_mono (includes j.completed_steps) (includes (covered j observed)) j.compensated_steps
        (covers j observed) v.undoes;
  clean = v.clean;
  fitting = ground arith;
  attempts = ground arith;
  some_attempt = v.some_attempt;
  fresh = ground arith;
  may_retry = ground arith;
}

included_in_nil :
    (xs ys : List ProvisioningStep)
    → ((s : ProvisioningStep) → includes xs s ≡ true → includes ys s ≡ true)
    → length ys ≡ 0
    → xs ≡ []
included_in_nil [] ys f h = refl
included_in_nil (x ∷ xs) [] f h = ground (arith, f x, ==_refl x)
included_in_nil (x ∷ xs) (y ∷ ys) f h = absurd (omega arith)

-- Nothing is covered only if nothing was completed.
covered-nil :
    (j : ProvisioningJob) (observed : List ProvisioningStep)
    → length (covered j observed) ≡ 0
    → j.completed_steps ≡ []
covered-nil j observed h =
    included_in_nil j.completed_steps (covered j observed) (covers j observed) h

with_nothing-IsValid :
    (j : ProvisioningJob) (op : ProvisioningOperation)
    → is_provisioning op ≡ false
    → j.completed_steps ≡ []
    → IsValid j
    → IsValid (with_nothing j op)
unfolding with_nothing
with_nothing-IsValid j op back none_done v = ground arith

with_operation-IsValid :
    (j : ProvisioningJob) (op : ProvisioningOperation) (observed : List ProvisioningStep)
    → is_provisioning op ≡ false
    → IsValid j
    → IsValid (with_operation j op (covered j observed))
unfolding with_operation
with_operation-IsValid j op observed back v = ground (arith, covered-in_order j observed)

same_operation-eq : (p q : ProvisioningOperation) → same_operation p q ≡ true → p ≡ q
same_operation-eq p q h = ground arith

pub begin-IsValid :
    (j : ProvisioningJob) (observed : List ProvisioningStep) (op : ProvisioningOperation)
    → is_provisioning op ≡ false
    → IsValid j
    → IsValid (begin_compensation j observed op)
unfolding begin_compensation
begin-IsValid j observed op back v = elim (Bool-cases (same_operation j.operation op)) [
  | inl same ↦
      rw same
        (elim (Bool-cases (any (λ s. not (includes j.completed_steps s)) (covered j observed))) [
          | inl e ↦ rw e (with_effects-IsValid j observed (rw (same_operation-eq _ _ same) back) v)
          | inr e ↦ rw e v
        ])
  | inr other ↦ rw other (elim (Bool-cases (length (covered j observed) == 0)) [
    | inl e ↦ rw e (with_nothing-IsValid j op back (covered-nil j observed (ground arith)) v)
    | inr e ↦ rw e (with_operation-IsValid j op observed back v)
  ])
]
