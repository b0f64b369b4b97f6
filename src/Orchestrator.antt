-- ===== src/Orchestrator.antt =====
-- The provisioning orchestrator, infra/provisioning/src/orchestrator.ts: what its functions work on.
-- An asynchronous function is an action on a world: it returns or throws, and what it wrote stays
-- written. Other workers write to the store, and the lease's heartbeat fires, while the function
-- awaits: a world says what happens before each of the function's calls of the store. A call of
-- code outside the control plane (a driver, the secret store, a clock, a hook) gets the number of
-- the calls before it, so that it may answer differently each time.
pub mod Events
pub mod Lease
pub mod Effects
pub mod Inputs
pub mod Handoffs
pub mod Steps
pub mod Runs
pub mod Moves
pub mod Writes
pub mod Rules
pub mod Safety
pub mod Saves
pub mod EventSafety
pub mod Rounds
pub mod RunSafety
pub mod RunResults
pub mod Outcomes
pub mod Quiet
pub mod Refusals
pub mod Repeats
mod Tests
mod EventTests
pub mod EffectSafety
use esig_suite.Prelude.{
  ℕ, suc, ◌||◌, String, Bool, true, false, Option, none, some, List, [], ◌∷◌, or_else, get_or,
  if◌then◌else◌, Result, ok, err, ◌==◌, string_eq, nat_eq, ◌&&◌,
}
use esig_suite.Failure.{SafeErrorCode, SafeFailure, store_conflict, unexpected_failure, failure}
use esig_suite.Failure.{invalid_order}
use esig_suite.Billing.{DeploymentMode}
use esig_suite.Job.Step.{ProvisioningStep}
use esig_suite.Ledger.{MemoryStore, JobExecutionLease, renew_lease}

-- What is thrown: a `SafeProvisioningError`, or another error with the safe codes in its `safeCode`
-- and `code` and whether its `retryable` is `true`.
pub data Error : Type 0 where
  safe : SafeFailure → Error
  foreign : Option SafeErrorCode → Option SafeErrorCode → Bool → Error

-- The orchestrator throws `JobVersionConflict` and `JobExecutionLeaseLost` besides. A loop that
-- uses up its fuel throws `out_of_fuel`, which no handler catches.
pub data Thrown : Type 0 where
  error : Error → Thrown
  version_conflict lease_lost out_of_fuel : Thrown

unfoldable pub sanitize_error : Error → SafeFailure
sanitize_error (safe f) = f
sanitize_error (foreign safe_code code retryable) = elim (or_else safe_code code) [
  | some c ↦ record { code = c; retryable = retryable }
  | none ↦ failure unexpected_failure
]

-- The two classes of the orchestrator carry no code.
unfoldable pub sanitize_provisioning_error : Thrown → SafeFailure
unfolding sanitize_error
sanitize_provisioning_error (error e) = sanitize_error e
sanitize_provisioning_error _ = failure unexpected_failure

abbrev is_store_conflict : SafeErrorCode → Bool
is_store_conflict store_conflict = true
is_store_conflict _ = false

-- `sanitizeProvisioningError(error).code === "STORE_CONFLICT"`
unfoldable pub is_conflict : Thrown → Bool
unfolding sanitize_provisioning_error
is_conflict e = is_store_conflict (sanitize_provisioning_error e).code

pub record Guard : Type 0 where
  pub duration_ms : ℕ
  pub clock : ℕ → ℕ
  pub lease : JobExecutionLease
  pub lost : Bool
  pub closed : Bool

pub data Meanwhile : Type 0 where
  others : (MemoryStore → MemoryStore) → Meanwhile
  heartbeat : Meanwhile

pub record World : Type 0 where
  pub store : MemoryStore
  pub guard : Option Guard
  pub meanwhile : List Meanwhile
  pub calls : ℕ

abbrev pub Action : Type 0 → Type 0
Action A = World → Result Thrown A × World

abbrev with_store : MemoryStore → World → World
with_store s w = record w { store = s }

abbrev with_guard : Guard → World → World
with_guard g w = record w { guard = some g; calls = suc w.calls }

-- The body of `#renew`. The store answers at once, so no renewal is ever in flight.
unfoldable pub renew_guard : Guard → World → Result Thrown (Unit {0}) × World
renew_guard g w =
    if g.lost || g.closed
    then (err lease_lost, w)
    else elim (renew_lease g.lease (g.clock w.calls) g.duration_ms w.store) [
      | ok (l, s) ↦ (ok tt, with_store s (with_guard (record g { lease = l }) w))
      | err e ↦ (err lease_lost, with_guard (record g { lost = true }) w)
    ]

unfoldable pub happen : Meanwhile → World → World
unfolding renew_guard
happen (others f) w = with_store (f w.store) w
happen heartbeat w = elim w.guard [ none ↦ w | some g ↦ (renew_guard g w).1 ]

-- An `await` of the store: what happens meanwhile.
unfoldable pub pause : World → World
unfolding happen
pause w = elim w.meanwhile [ [] ↦ w | m ∷ ms ↦ happen m (record w { meanwhile = ms }) ]

module _ {A : Type 0} where
  unfoldable pub pure : A → Action A
  pure a w = (ok a, w)

  unfoldable pub throw : Thrown → Action A
  throw e w = (err e, w)

  -- A synchronous part that returns or throws.
  unfoldable pub lift : Result SafeFailure A → Action A
  lift r w = (elim r [ ok a ↦ ok a | err f ↦ err (error (safe f)) ], w)

  -- Methods of the store.
  unfoldable pub reads : (MemoryStore → A) → Action A
  unfolding pause
  reads f w = let v = pause w in (ok (f v.store), v)

  unfoldable pub writes : (MemoryStore → Result SafeFailure (A × MemoryStore)) → Action A
  unfolding pause
  writes f w =
      let v = pause w in
      elim (f v.store) [ ok (a, s) ↦ (ok a, with_store s v) | err e ↦ (err (error (safe e)), v) ]

  -- A call of code outside the control plane.
  unfoldable pub calls : (ℕ → Result Error A) → Action A
  calls f w =
      (elim (f w.calls) [ ok a ↦ ok a | err e ↦ err (error e) ], record w { calls = suc w.calls })

module _ {A B : Type 0} where
  infixl 5 ◌>>=◌ ◌>>◌
  unfoldable pub ◌>>=◌ : Action A → (A → Action B) → Action B
  ◌>>=◌ m f w = let (r, v) = m w in elim r [ ok a ↦ f a v | err e ↦ (err e, v) ]

  abbrev pub ◌>>◌ : Action A → Action B → Action B
  m >> k = m >>= λ _. k

  -- A `try` statement: what follows it, and its `catch`.
  unfoldable pub attempt : Action A → (A → Action B) → (Thrown → Action B) → Action B
  attempt m f h w = let (r, v) = m w in elim r [ ok a ↦ f a v | err e ↦ h e v ]

  -- `if (o !== undefined) f(o) else m`
  unfoldable pub if_some : Option A → (A → Action B) → Action B → Action B
  if_some none f m = m
  if_some (some a) f m = f a

module _ {A : Type 0} where
  -- `catch` clauses that test for a class and rethrow the others.
  unfoldable pub on_version_conflict : Action A → Thrown → Action A
  unfolding throw
  on_version_conflict m version_conflict = m
  on_version_conflict m e = throw e

  unfoldable pub on_lease_lost : Action A → Thrown → Action A
  unfolding throw
  on_lease_lost m lease_lost = m
  on_lease_lost m e = throw e

  -- `if (sanitizeProvisioningError(error).code === "STORE_CONFLICT") … else throw error`
  unfoldable pub on_store_conflict : Action A → Thrown → Action A
  unfolding is_conflict throw
  on_store_conflict m e = if is_conflict e then m else throw e

unfoldable pub throw_when : Bool → Thrown → Action (Unit {0})
unfolding pure throw
throw_when bad e = if bad then throw e else pure tt

-- What names the records: digests of the host, and the order of its `localeCompare`.
pub record Digests : Type 0 where
  pub job : String → String
  pub tenant : String → DeploymentMode → String
  pub resource : String → ProvisioningStep → String → String → String
  pub handoff : String → ℕ → String
  pub locale_after : String → String → Bool

-- `digestIdentifier` throws on an empty identity; that of a later activation is never empty.
unfoldable pub deterministic_handoff_id : Digests → String → Option ℕ → Result SafeFailure String
deterministic_handoff_id d subscription_id generation =
    if subscription_id == "" && get_or generation 0 == 0
    then err (failure invalid_order)
    else ok (d.handoff subscription_id (get_or generation 0))
