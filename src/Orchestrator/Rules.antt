-- ===== src/Orchestrator/Rules.antt =====
-- How actions are reasoned about: while the others only do what `Moves` allows, so does the action,
-- and it never runs out of fuel. The rules follow the parts of an action.
use esig_suite.Prelude.{
  ℕ, ◌≡◌, refl, Bool, true, false, Option, none, some, if◌then◌else◌, Result, ok, err, All,
  Option-cases, Result-cases, List-cases, Bool-cases, inl, inr, subst, sym, ◌||◌,
}
use esig_suite.Failure.{SafeFailure}
use esig_suite.Ledger.{MemoryStore, renew_lease}
use esig_suite.Ledger.History.{after}
use esig_suite.Orchestrator.{
  Action, Thrown, error, version_conflict, lease_lost, out_of_fuel, Digests, World, Guard,
  Meanwhile, others, heartbeat, Error, pure, throw, lift, reads, writes, calls, attempt, ◌>>=◌,
  if_some, on_version_conflict, on_lease_lost, on_store_conflict, is_conflict, pause, happen,
  renew_guard,
}
use esig_suite.Orchestrator.Writes.{renew_lease-Moves}
use esig_suite.Orchestrator.Moves.{Moves, Moves-refl, Moves-trans, Moves-HasValidJobs, HasValidJobs}

abbrev pub HasFuel : Thrown → Type 0
HasFuel out_of_fuel = ⊥
HasFuel _ = Unit

-- What a result tells of the store.
abbrev pub Returns :
    {A : Type 0} → (A → MemoryStore → Type 0) → Result Thrown A → MemoryStore → Type 0
Returns Q (ok a) s = Q a s
Returns Q (err e) s = HasFuel e

abbrev pub Anything : {A : Type 0} → A → MemoryStore → Type 0
Anything a s = Unit

module _ (d : Digests) where
  -- What happens meanwhile keeps to `Moves`, on stores whose jobs are well formed.
  abbrev pub KeepsTo : Meanwhile → Type 0
  KeepsTo (others f) = (s : MemoryStore) → HasValidJobs s → Moves d s (f s)
  KeepsTo heartbeat = Unit

  pub record IsFine (w : World) : Type 0 where
    pub meanwhile : All KeepsTo w.meanwhile
    pub jobs : HasValidJobs w.store

  pub record Leaves {A : Type 0} (Q : A → MemoryStore → Type 0) (w : World)
      (o : Result Thrown A × World) : Type 0 where
    pub fine : IsFine o.1
    pub moves : Moves d w.store o.1.store
    pub returns : Returns Q o.0 o.1.store

  -- What an action does from a world.
  pub record Good {A : Type 0} (Q : A → MemoryStore → Type 0) (w : World) (m : Action A)
      : Type 0 where
    pub leaves : Leaves Q w (m w)

  abbrev pub Does : {A : Type 0} → (A → MemoryStore → Type 0) → Action A → Type 0
  Does Q m = (w : World) → IsFine w → Good Q w m

  pub record Safe {A : Type 0} (m : Action A) : Type 0 where
    pub holds : Does Anything m

  -- Worlds.
  with_store-IsFine :
      (w v : World) (t : MemoryStore)
      → IsFine w
      → v.meanwhile ≡ w.meanwhile
      → v.store ≡ t
      → Moves d w.store t
      → IsFine v
  with_store-IsFine w v t f e same m = record {
    meanwhile = subst (All KeepsTo) (sym e) f.meanwhile;
    jobs = subst HasValidJobs (sym same) (Moves-HasValidJobs d w.store t m f.jobs);
  }

  pub renew_guard-Leaves : (g : Guard) (w : World) → IsFine w → Leaves Anything w (renew_guard g w)
  unfolding renew_guard
  renew_guard-Leaves g w f = elim (Bool-cases (g.lost || g.closed)) [
    | inl e ↦ rw (e, renew_guard) (record { fine = f; moves = Moves-refl d w.store; returns = tt })
    | inr e ↦ elim (Result-cases (renew_lease g.lease (g.clock w.calls) g.duration_ms w.store)) [
      | inl ((l, t), r) ↦
          let m =
            subst (λ o. Moves d w.store (after w.store o)) r
              (renew_lease-Moves d w.store g.lease (g.clock w.calls) g.duration_ms) in
          rw (e, renew_guard, r)
            (record { fine = with_store-IsFine w _ t f refl refl m; moves = m; returns = tt })
      | inr (x, r) ↦
          rw (e, renew_guard, r)
            (record {
              fine = record { meanwhile = f.meanwhile; jobs = f.jobs };
              moves = Moves-refl d w.store;
              returns = tt;
            })
    ]
  ]

  happen-IsFine :
      (m : Meanwhile) (w : World)
      → KeepsTo m
      → IsFine w
      → IsFine (happen m w) × Moves d w.store (happen m w).store
  unfolding happen
  happen-IsFine (others g) w k f =
      let m = k w.store f.jobs in (with_store-IsFine w _ (g w.store) f refl refl m, m)
  happen-IsFine heartbeat w k f = elim (Option-cases w.guard) [
    | inl e ↦ rw (e, happen) (f, Moves-refl d w.store)
    | inr (g, e) ↦ let r = renew_guard-Leaves g w f in rw (e, happen) (r.fine, r.moves)
  ]

  pub pause-IsFine : (w : World) → IsFine w → IsFine (pause w) × Moves d w.store (pause w).store
  unfolding pause
  pause-IsFine w f = elim (List-cases w.meanwhile) [
    | inl e ↦ rw (e, pause) (f, Moves-refl d w.store)
    | inr (m, ms, e) ↦
        let all = subst (All KeepsTo) e f.meanwhile in
        rw (e, pause)
          (happen-IsFine m (record w { meanwhile = ms }) all.0
            (record { meanwhile = all.1; jobs = f.jobs }))
  ]

  pub follows :
      {A : Type 0} {Q : A → MemoryStore → Type 0} (w v : World) (o : Result Thrown A × World)
      → Moves d w.store v.store
      → Leaves Q v o
      → Leaves Q w o
  follows w v o m k = record {
    fine = k.fine;
    moves = Moves-trans d w.store v.store o.1.store m k.moves;
    returns = k.returns;
  }

  -- A part that leaves the store as it is.
  pub same_store :
      {A : Type 0} {Q : A → MemoryStore → Type 0} (w v : World) (r : Result Thrown A)
      → IsFine w
      → v.store ≡ w.store
      → v.meanwhile ≡ w.meanwhile
      → Returns Q r w.store
      → Leaves Q w (r, v)
  same_store {Q = Q} w v r f e m q = record {
    fine = with_store-IsFine w v w.store f m e (Moves-refl d w.store);
    moves = subst (Moves d w.store) (sym e) (Moves-refl d w.store);
    returns = subst (Returns Q r) (sym e) q;
  }

  -- The parts of an action.
  module _ {A : Type 0} (Q : A → MemoryStore → Type 0) where
    pub pure-Good : (a : A) (w : World) → IsFine w → Q a w.store → Good Q w (pure a)
    unfolding pure
    pure-Good a w f q = record {
      leaves = record { fine = f; moves = Moves-refl d w.store; returns = q };
    }

    pub throw-Good : (e : Thrown) (w : World) → HasFuel e → IsFine w → Good Q w (throw e)
    unfolding throw
    throw-Good e w h f = record {
      leaves = record { fine = f; moves = Moves-refl d w.store; returns = h };
    }

    pub lift-Good :
        (r : Result SafeFailure A) (w : World)
        → IsFine w
        → ((a : A) → r ≡ ok a → Q a w.store)
        → Good Q w (lift r)
    unfolding lift
    lift-Good (ok a) w f q = record {
      leaves = record { fine = f; moves = Moves-refl d w.store; returns = q a refl };
    }
    lift-Good (err e) w f q = record {
      leaves = record { fine = f; moves = Moves-refl d w.store; returns = tt };
    }

    pub reads-Good :
        (g : MemoryStore → A) (w : World)
        → IsFine w
        → ((s : MemoryStore) → HasValidJobs s → Q (g s) s)
        → Good Q w (reads g)
    unfolding reads
    reads-Good g w f q =
        let (fine, moves) = pause-IsFine w f in
        record {
          leaves = record { fine = fine; moves = moves; returns = q (pause w).store fine.jobs };
        }

    -- A write is judged on the store that it finds.
    pub writes-Good :
        (g : MemoryStore → Result SafeFailure (A × MemoryStore)) (w : World)
        → IsFine w
        → ((s : MemoryStore)
            → HasValidJobs s
            → Moves d w.store s
            → Moves d s (after s (g s)) × ((a : A) (t : MemoryStore) → g s ≡ ok (a, t) → Q a t))
        → Good Q w (writes g)
    unfolding writes
    writes-Good g w f q =
        let v = pause w in
        let (fine, moves) = pause-IsFine w f in
        let (made, told) = q v.store fine.jobs moves in
        record {
          leaves = elim (Result-cases (g v.store)) [
            | inl ((a, t), e) ↦
                let m = subst (λ r. Moves d v.store (after v.store r)) e made in
                rw (writes, e)
                  (record {
                    fine = with_store-IsFine v _ t fine refl refl m;
                    moves = Moves-trans d w.store v.store t moves m;
                    returns = told a t e;
                  })
            | inr (x, e) ↦ rw (writes, e) (record { fine = fine; moves = moves; returns = tt })
          ];
        }

    pub calls-Good :
        (g : ℕ → Result Error A) (w : World)
        → IsFine w
        → ((a : A) → Q a w.store)
        → Good Q w (calls g)
    unfolding calls
    calls-Good g w f q = record {
      leaves = elim (Result-cases (g w.calls)) [
        | inl (a, e) ↦ rw e (same_store w _ (ok a) f refl refl (q a))
        | inr (x, e) ↦ rw e (same_store w _ (err (error x)) f refl refl tt)
      ];
    }

    pub if-Good :
        (b : Bool) (m n : Action A) (w : World)
        → (b ≡ true → Good Q w m)
        → (b ≡ false → Good Q w n)
        → Good Q w (if b then m else n)
    if-Good true m n w k l = k refl
    if-Good false m n w k l = l refl

    pub on_version_conflict-Good :
        (m : Action A) (e : Thrown) (w : World)
        → IsFine w
        → HasFuel e
        → Good Q w m
        → Good Q w (on_version_conflict m e)
    unfolding on_version_conflict
    on_version_conflict-Good m version_conflict w f h g = g
    on_version_conflict-Good m lease_lost w f h g = throw-Good lease_lost w h f
    on_version_conflict-Good m (error e) w f h g = throw-Good (error e) w h f
    on_version_conflict-Good m out_of_fuel w f h g = absurd h

    pub on_lease_lost-Good :
        (m : Action A) (e : Thrown) (w : World)
        → IsFine w
        → HasFuel e
        → Good Q w m
        → Good Q w (on_lease_lost m e)
    unfolding on_lease_lost
    on_lease_lost-Good m lease_lost w f h g = g
    on_lease_lost-Good m version_conflict w f h g = throw-Good version_conflict w h f
    on_lease_lost-Good m (error e) w f h g = throw-Good (error e) w h f
    on_lease_lost-Good m out_of_fuel w f h g = absurd h

    pub on_store_conflict-Good :
        (m : Action A) (e : Thrown) (w : World)
        → IsFine w
        → HasFuel e
        → Good Q w m
        → Good Q w (on_store_conflict m e)
    unfolding on_store_conflict
    on_store_conflict-Good m e w f h g = elim (Bool-cases (is_conflict e)) [
      | inl c ↦ rw c g
      | inr c ↦ rw c (throw-Good e w h f)
    ]

  module _ {A B : Type 0} (P : A → MemoryStore → Type 0) (Q : B → MemoryStore → Type 0) where
    pub if_some-Good :
        (o : Option A) (f : A → Action B) (m : Action B) (w : World)
        → ((a : A) → o ≡ some a → Good Q w (f a))
        → (o ≡ none → Good Q w m)
        → Good Q w (if_some o f m)
    unfolding if_some
    if_some-Good none f m w k l = l refl
    if_some-Good (some a) f m w k l = k a refl

    -- What follows is judged where it starts, and knows how the store has moved there.
    pub attempt-Good :
        (m : Action A) (f : A → Action B) (k : Thrown → Action B) (w : World)
        → Good P w m
        → ((a : A) (v : World) → IsFine v → Moves d w.store v.store → P a v.store → Good Q v (f a))
        → ((e : Thrown) (v : World)
            → IsFine v
            → Moves d w.store v.store
            → HasFuel e
            → Good Q v (k e))
        → Good Q w (attempt m f k)
    unfolding attempt
    attempt-Good m f k w g h i = record {
      leaves = elim (Result-cases (m w).0) [
        | inl (a, e) ↦
            rw (e, attempt)
              (follows w (m w).1 _ g.leaves.moves
                (h a (m w).1 g.leaves.fine g.leaves.moves
                  (subst (λ r. Returns P r (m w).1.store) e g.leaves.returns)).leaves)
        | inr (x, e) ↦
            rw (e, attempt)
              (follows w (m w).1 _ g.leaves.moves
                (i x (m w).1 g.leaves.fine g.leaves.moves
                  (subst (λ r. Returns P r (m w).1.store) e g.leaves.returns)).leaves)
      ];
    }

    pub bind-Good :
        (m : Action A) (f : A → Action B) (w : World)
        → Good P w m
        → ((a : A) (v : World) → IsFine v → Moves d w.store v.store → P a v.store → Good Q v (f a))
        → Good Q w (m >>= f)
    unfolding ◌>>=◌
    bind-Good m f w g h = record {
      leaves = elim (Result-cases (m w).0) [
        | inl (a, e) ↦
            rw (e, ◌>>=◌)
              (follows w (m w).1 _ g.leaves.moves
                (h a (m w).1 g.leaves.fine g.leaves.moves
                  (subst (λ r. Returns P r (m w).1.store) e g.leaves.returns)).leaves)
        | inr (x, e) ↦
            rw (e, ◌>>=◌)
              (record {
                fine = g.leaves.fine;
                moves = g.leaves.moves;
                returns = subst (λ r. Returns P r (m w).1.store) e g.leaves.returns;
              })
      ];
    }
