-- ===== src/Orchestrator/Safety.antt =====
-- The orchestrator's actions that do not write a job keep to `Moves`
-- (infra/provisioning/src/orchestrator.ts).
use esig_suite.Prelude.{ℕ, refl, Bool, true, false, Option, none, some, if◌then◌else◌, Result}
use esig_suite.Failure.{SafeFailure}
use esig_suite.Ledger.{MemoryStore}
use esig_suite.Ledger.History.{after}
use esig_suite.Orchestrator.{
  Action, Thrown, lease_lost, Digests, Guard, Error, pure, throw, lift, reads, writes, calls,
  attempt, ◌>>=◌, throw_when, on_store_conflict, if_some, pause, renew_guard,
}
use esig_suite.Orchestrator.Moves.{Moves}
use esig_suite.Orchestrator.Writes.{release_lease-Moves}
use esig_suite.Orchestrator.Rules.{
  HasFuel, Anything, Safe, pure-Good, throw-Good, lift-Good, reads-Good, writes-Good, calls-Good,
  bind-Good, attempt-Good, renew_guard-Leaves, pause-IsFine, follows, same_store,
  on_store_conflict-Good,
}
use esig_suite.Orchestrator.Lease.{
  guarded, under, check_owned, renew, assert_owned, fence, fencing, start, close_guard, close,
}

module _ (d : Digests) {A : Type 0} where
  pub pure-Safe : (a : A) → Safe d (pure a)
  pure-Safe a = record { holds = λ w f. pure-Good d Anything a w f tt }

  pub throw-Safe : (e : Thrown) → HasFuel e → Safe d (throw {A = A} e)
  throw-Safe e h = record { holds = λ w f. throw-Good d Anything e w h f }

  pub lift-Safe : (r : Result SafeFailure A) → Safe d (lift r)
  lift-Safe r = record { holds = λ w f. lift-Good d Anything r w f (λ a e. tt) }

  pub reads-Safe : (g : MemoryStore → A) → Safe d (reads g)
  reads-Safe g = record { holds = λ w f. reads-Good d Anything g w f (λ s v. tt) }

  pub writes-Safe :
      (g : MemoryStore → Result SafeFailure (A × MemoryStore))
      → ((s : MemoryStore) → Moves d s (after s (g s)))
      → Safe d (writes g)
  writes-Safe g h = record {
    holds = λ w f. writes-Good d Anything g w f (λ s v m. (h s, λ a t e. tt));
  }

  pub calls-Safe : (g : ℕ → Result Error A) → Safe d (calls g)
  calls-Safe g = record { holds = λ w f. calls-Good d Anything g w f (λ a. tt) }

  pub if-Safe : (b : Bool) (m n : Action A) → Safe d m → Safe d n → Safe d (if b then m else n)
  if-Safe true m n k l = k
  if-Safe false m n k l = l

  pub guarded-Safe : (f : Guard → Action A) → ((g : Guard) → Safe d (f g)) → Safe d (guarded f)
  unfolding guarded
  guarded-Safe f h = record {
    holds = λ w i. record { leaves = ((by_cases w.guard).holds w i).leaves };
  }
    where
      by_cases : (o : Option Guard) → Safe d (under o f)
      by_cases none = throw-Safe lease_lost tt
      by_cases (some g) = h g

module _ (d : Digests) {A B : Type 0} where
  pub bind-Safe :
      (m : Action A) (f : A → Action B) → Safe d m → ((a : A) → Safe d (f a)) → Safe d (m >>= f)
  bind-Safe m f k l = record {
    holds = λ w i.
        bind-Good d Anything Anything m f w (k.holds w i) (λ a v j moves told. (l a).holds v j);
  }

  pub if_some-Safe :
      (o : Option A) (f : A → Action B) (m : Action B)
      → ((a : A) → Safe d (f a))
      → Safe d m
      → Safe d (if_some o f m)
  unfolding if_some
  if_some-Safe none f m k l = l
  if_some-Safe (some a) f m k l = k a

  pub attempt-Safe :
      (m : Action A) (f : A → Action B) (k : Thrown → Action B)
      → Safe d m
      → ((a : A) → Safe d (f a))
      → ((e : Thrown) → HasFuel e → Safe d (k e))
      → Safe d (attempt m f k)
  attempt-Safe m f k g h i = record {
    holds = λ w j.
        attempt-Good d Anything Anything m f k w (g.holds w j) (λ a v x moves told. (h a).holds v x)
          (λ e v x moves fuel. (i e fuel).holds v x);
  }

module _ (d : Digests) {A : Type 0} where
  pub on_store_conflict-Safe :
      (m : Action A) (e : Thrown) → HasFuel e → Safe d m → Safe d (on_store_conflict m e)
  on_store_conflict-Safe m e h g = record {
    holds = λ w f. on_store_conflict-Good d Anything m e w f h (g.holds w f);
  }

module _ (d : Digests) where
  pub throw_when-Safe : (b : Bool) (e : Thrown) → HasFuel e → Safe d (throw_when b e)
  unfolding throw_when
  throw_when-Safe b e h = if-Safe d b (throw e) (pure tt) (throw-Safe d e h) (pure-Safe d tt)

pub ruleset safe_rules = (
  bind-Safe, pure-Safe, throw-Safe, lift-Safe, reads-Safe, writes-Safe, calls-Safe, if-Safe,
  if_some-Safe, attempt-Safe, on_store_conflict-Safe, guarded-Safe, throw_when-Safe,
)

module _ (d : Digests) where
  renew_guard-Safe : (g : Guard) → Safe d (renew_guard g)
  renew_guard-Safe g = record { holds = λ w f. record { leaves = renew_guard-Leaves d g w f } }

  renew-Safe : Safe d renew
  unfolding renew
  renew-Safe = record {
    holds = λ w f.
        let (fine, moves) = pause-IsFine d w f in
        let r = (guarded-Safe d renew_guard renew_guard-Safe).holds (pause w) fine in
        record { leaves = follows d w (pause w) (renew w) moves r.leaves };
  }

  check_owned-Safe : Safe d check_owned
  unfolding check_owned
  check_owned-Safe = search (safe_rules)

  pub assert_owned-Safe : Safe d assert_owned
  unfolding assert_owned
  assert_owned-Safe = search (safe_rules, check_owned-Safe, renew-Safe)

  fencing-Safe : (g : Guard) → Safe d (fencing g)
  unfolding fencing
  fencing-Safe g = record { holds = λ w f. record { leaves = same_store d w _ _ f refl refl tt } }

  pub fence-Safe : Safe d fence
  unfolding fence
  fence-Safe = search (safe_rules, assert_owned-Safe, fencing-Safe)

  pub start-Safe : (g : Guard) → Safe d (start g)
  unfolding start
  start-Safe g = record { holds = λ w f. record { leaves = same_store d w _ _ f refl refl tt } }

  close_guard-Safe : (g : Guard) → Safe d (close_guard g)
  unfolding close_guard
  close_guard-Safe g = search (safe_rules, start-Safe, release_lease-Moves)

  pub close-Safe : Safe d close
  unfolding close
  close-Safe = search (safe_rules, close_guard-Safe)
