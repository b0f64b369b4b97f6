-- ===== src/Orchestrator/Quiet.antt =====
-- How the parts of an action of infra/provisioning/src/orchestrator.ts compute when no other worker
-- writes meanwhile.
use esig_suite.Prelude.{◌≡◌, refl, ap, ◌∙◌, Bool, true, [], ◌∷◌, Result, ok, err, string_eq}
use esig_suite.Failure.{SafeFailure}
use esig_suite.Ledger.{MemoryStore}
use esig_suite.Orchestrator.{
  Action, Thrown, error, safe, World, pause, happen, throw, lift, reads, writes, ◌>>=◌, attempt,
  throw_when,
}

-- How the parts of an action compute.
module _ {A B : Type 0} (m : Action A) (f : A → Action B) (w v : World) where
  follow : Result Thrown A × World → Result Thrown B × World
  follow o = elim o.0 [ ok a ↦ f a o.1 | err e ↦ (err e, o.1) ]

  pub bind-ok : (a : A) → m w ≡ (ok a, v) → (m >>= f) w ≡ f a v
  unfolding ◌>>=◌ follow
  bind-ok a h = ap follow h

  pub bind-err : (e : Thrown) → m w ≡ (err e, v) → (m >>= f) w ≡ (err e, v)
  unfolding ◌>>=◌ follow
  bind-err e h = ap follow h

module _ {A B : Type 0} (m : Action A) (f : A → Action B) (k : Thrown → Action B)
    (w v : World) where
  turn : Result Thrown A × World → Result Thrown B × World
  turn o = elim o.0 [ ok a ↦ f a o.1 | err e ↦ k e o.1 ]

  pub attempt-ok : (a : A) → m w ≡ (ok a, v) → attempt m f k w ≡ f a v
  unfolding attempt turn
  attempt-ok a h = ap turn h

module _ (w : World) (quiet : w.meanwhile ≡ []) where
  pub quiet-pause : pause w ≡ w
  unfolding pause
  quiet-pause =
      ap (λ ms. elim ms [ [] ↦ w | m ∷ rest ↦ happen m (record w { meanwhile = rest }) ]) quiet

  pub quiet-reads : {A : Type 0} (g : MemoryStore → A) → reads g w ≡ (ok (g w.store), w)
  unfolding reads
  quiet-reads g = ap (λ v. (ok (g v.store), v)) quiet-pause

module _ {A : Type 0} (w : World) (quiet : w.meanwhile ≡ []) where
  write_from : World → Result SafeFailure (A × MemoryStore) → Result Thrown A × World
  write_from v o = elim o [
    | ok (b, s) ↦ (ok b, record v { store = s })
    | err e ↦ (err (error (safe e)), v)
  ]

  pub quiet-writes :
      (g : MemoryStore → Result SafeFailure (A × MemoryStore)) (a : A) (t : MemoryStore)
      → g w.store ≡ ok (a, t)
      → writes g w ≡ (ok a, record w { store = t })
  unfolding writes write_from
  quiet-writes g a t h =
      ap (λ v. write_from v (g v.store)) (quiet-pause w quiet) ∙ ap (write_from w) h

pub lift-ok :
    {A : Type 0} (r : Result SafeFailure A) (a : A) (w : World) → r ≡ ok a → lift r w ≡ (ok a, w)
unfolding lift
lift-ok r a w h = rw h refl

pub throw_when-true : (b : Bool) (e : Thrown) (w : World) → b ≡ true → throw_when b e w ≡ (err e, w)
unfolding throw_when throw
throw_when-true b e w h = rw h refl
