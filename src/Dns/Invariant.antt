-- ===== src/Dns/Invariant.antt =====
-- dns_refresh.go: what holds in every state that the goroutines reach.
use sink_go.Base.{
  ℕ, ◌+◌, ◌≤◌, ◌≡◌, Bool, true, false, not, ◌&&◌, ◌||◌, Option, none, some, arith, ◌==◌,
}
use sink_go.Dns.{
  Pc, Timer, Closer, Refresher, start, generation, update_state, resolve_now, expire, take_stop,
  take_update, take_hint, take_timer, close_old, drain, build_ok, build_fail, stop_timer,
  close_last, signal_done, begin_close, end_close,
}
use sink_go.Dns.Steps.{Work, Outside, Step, Reachable}

-- Between the closing of a resolver and the next build, and behind the last closing, `underlying`
-- names a resolver that is closed.
abbrev pub after_close : Pc → Bool
after_close Pc.draining = true
after_close Pc.building = true
after_close Pc.signalling = true
after_close Pc.finished = true
after_close _ = false

abbrev pub bit : Bool → ℕ
bit true = 1
bit false = 0

abbrev pub is_from : Option ℕ → ℕ → Bool
is_from none g = true
is_from (some k) g = k == g

abbrev pub is_armed : Timer → Bool
is_armed Timer.armed = true
is_armed _ = false

abbrev pub is_expired : Timer → Bool
is_expired Timer.expired = true
is_expired _ = false

abbrev pub is_some : Option ℕ → Bool
is_some none = false
is_some (some k) = true

-- In the case of the timer.
abbrev pub is_replacing : Pc → Bool
is_replacing Pc.replacing = true
is_replacing Pc.draining = true
is_replacing Pc.building = true
is_replacing _ = false

abbrev pub is_ending : Pc → Bool
is_ending Pc.stopping = true
is_ending Pc.leaving = true
is_ending Pc.signalling = true
is_ending Pc.finished = true
is_ending _ = false

abbrev pub is_finished : Pc → Bool
is_finished Pc.finished = true
is_finished _ = false

abbrev pub is_begun : Closer → Bool
is_begun Closer.idle = false
is_begun _ = true

abbrev pub has_returned : Closer → Bool
has_returned Closer.returned = true
has_returned _ = false

pub record Inv (r : Refresher) : Type 0 where
  pub proper : r.misuses ≡ 0
  pub owned : r.live ≡ (r.held && not (after_close r.pc))
  pub balance : r.attempts ≡ r.closes + bit r.live + r.failed
  pub current : is_from r.updates (generation r.pc r.attempts) ≡ true
  pub timed : r.attempts + bit (is_expired r.timer) + bit (is_replacing r.pc) ≤ 1 + r.elapsed
  pub earned : r.elapsed + bit (is_armed r.timer) + bit (is_some r.updates) ≤ r.accepted + r.failed
  pub told : (not (is_ending r.pc) || r.stop) ≡ true
  pub ended : r.done ≡ is_finished r.pc
  pub begun : r.stop ≡ is_begun r.closer
  pub waited : (not (has_returned r.closer) || r.done) ≡ true

Inv-start : Inv start
unfolding generation
Inv-start = ground arith

Work-Inv : {r s : Refresher} → Inv r → Work r s → Inv s
unfolding generation take_stop take_update take_hint take_timer close_old drain build_ok build_fail
    stop_timer close_last signal_done end_close
Work-Inv v (Work.stops e h) = ground arith
Work-Inv v (Work.arms g e h) = ground arith
Work-Inv v (Work.hints e h) = ground arith
Work-Inv v (Work.fires e h) = ground arith
Work-Inv v (Work.closes e) = ground arith
Work-Inv v (Work.drains e) = ground arith
Work-Inv v (Work.builds e) = ground arith
Work-Inv v (Work.fails e) = ground arith
Work-Inv v (Work.disarms e) = ground arith
Work-Inv v (Work.leaves e) = ground arith
Work-Inv v (Work.signals e) = ground arith
Work-Inv v (Work.returns e h) = ground arith

Outside-Inv : {r s : Refresher} → Inv r → Outside r s → Inv s
unfolding generation update_state resolve_now expire begin_close
Outside-Inv v (Outside.updates h) = ground arith
Outside-Inv v Outside.asks = ground arith
Outside-Inv v (Outside.elapses h) = ground arith
Outside-Inv v (Outside.closed h) = ground arith

pub Step-Inv : {r s : Refresher} → Inv r → Step r s → Inv s
Step-Inv v (Step.work w) = Work-Inv v w
Step-Inv v (Step.outside o) = Outside-Inv v o

pub Reachable-Inv : {r : Refresher} → Reachable r → Inv r
Reachable-Inv Reachable.initial = Inv-start
Reachable-Inv (Reachable.next h s) = Step-Inv (Reachable-Inv h) s
