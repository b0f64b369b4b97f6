-- ===== src/Orchestrator/Lease.antt =====
-- `JobExecutionLeaseGuard` of infra/provisioning/src/orchestrator.ts: the lease under which a job
-- runs. Without a guard in the world there is nothing to own.
use esig_suite.Prelude.{ℕ, suc, true, Option, none, some, ok, ◌||◌, if◌then◌else◌}
use esig_suite.Ledger.{JobExecutionLease, release_lease}
use esig_suite.Orchestrator.{
  Action, Guard, lease_lost, renew_guard, pause, pure, throw, throw_when, ◌>>◌, writes,
}

abbrev pub under : {A : Type 0} → Option Guard → (Guard → Action A) → Action A
under none f = throw lease_lost
under (some g) f = f g

unfoldable pub guarded : {A : Type 0} → (Guard → Action A) → Action A
guarded f w = under w.guard f w

unfoldable pub check_owned : Action (Unit {0})
unfolding guarded
check_owned = guarded λ g. throw_when (g.lost || g.closed) lease_lost

unfoldable pub renew : Action (Unit {0})
unfolding guarded
renew w = guarded renew_guard (pause w)

unfoldable pub assert_owned : Action (Unit {0})
unfolding check_owned renew
assert_owned = check_owned >> renew >> check_owned

-- A reading of the guard's clock.
unfoldable pub fencing : Guard → Action (JobExecutionLease × ℕ)
fencing g w = (ok (g.lease, g.clock w.calls), record w { calls = suc w.calls })

unfoldable pub fence : Action (JobExecutionLease × ℕ)
unfolding assert_owned guarded fencing
fence = assert_owned >> guarded fencing

unfoldable pub start : Guard → Action (Unit {0})
start g w = (ok tt, record w { guard = some g })

-- A closed guard's heartbeat has stopped.
unfoldable pub close_guard : Guard → Action (Unit {0})
unfolding start
close_guard g =
    if g.closed
    then pure tt
    else start (record g { closed = true }) >> writes (λ s. ok (tt, release_lease g.lease s))

unfoldable pub close : Action (Unit {0})
unfolding guarded close_guard
close = guarded close_guard
