-- ===== src/Dns/Lookups.antt =====
-- dns_refresh.go: which resolvers are open, and how often one is built.
use sink_go.Base.{ℕ, ◌+◌, ◌≤◌, ◌≡◌, true, false, some, arith}
use sink_go.Dns.{Pc, Closer, Refresher, generation}
use sink_go.Dns.Steps.{Reachable}
use sink_go.Dns.Invariant.{bit, Reachable-Inv}

-- Each resolver that was built is open or was closed once, and nothing was asked of a closed one.
pub record Accounted (r : Refresher) : Type 0 where
  pub proper : r.misuses ≡ 0
  pub balance : r.attempts ≡ r.closes + bit r.live + r.failed
  pub ended : r.closer ≡ Closer.returned → (r.done ≡ true) × (r.live ≡ false)

-- In every reachable state of the refresher no method was called on a resolver that is closed,
-- every build is closed, open or failed, so at most one is open, and once `Close` has returned the
-- goroutine is at its end and no resolver is open.
pub Reachable-Accounted : {r : Refresher} → Reachable r → Accounted r
Reachable-Accounted {r} h =
    let v = Reachable-Inv h in
    record { proper = v.proper; balance = v.balance; ended = λ c. ground arith }

-- In every reachable state of the refresher there was at most one build more than intervals of the
-- timer that elapsed, and at most as many intervals elapsed as updates that the buffer took and
-- builds that failed.
pub attempts-le-elapsed :
    {r : Refresher}
    → Reachable r
    → (r.attempts ≤ 1 + r.elapsed) × (r.elapsed ≤ r.accepted + r.failed)
attempts-le-elapsed h = let v = Reachable-Inv h in (omega (arith, v.timed), omega (arith, v.earned))

-- In a reachable state in which the goroutine waits, an update in the buffer was sent by the
-- resolver of the last build: none of an earlier one is left.
pub updates-current :
    {r : Refresher} (g : ℕ) → Reachable r → r.pc ≡ Pc.waiting → r.updates ≡ some g → g ≡ r.attempts
unfolding generation
updates-current g h e u = let v = Reachable-Inv h in ground arith
