-- ===== src/Dns/Closing.antt =====
-- dns_refresh.go: the end of `refresh` and of `Close`.
use sink_go.Base.{ℕ, zero, suc, ◌+◌, ◌<◌, ◌≡◌, refl, true, arith}
use sink_go.Dns.{
  Pc, Timer, Closer, Refresher, take_stop, take_update, take_hint, take_timer, close_old, drain,
  build_ok, build_fail, stop_timer, close_last, signal_done, end_close,
}
use sink_go.Dns.Steps.{Work, Step, Reachable}
use sink_go.Dns.Invariant.{bit, is_some, is_begun, Inv, Step-Inv, Reachable-Inv}

-- However the goroutine of `refresh` chooses, it goes on, and `Close` returns.
pub data Ends : Refresher → Type 0 where
  now : (r : Refresher) → r.closer ≡ Closer.returned → Ends r
  later : (r s : Refresher) → Work r s → ((t : Refresher) → Work r t → Ends t) → Ends r

abbrev rank : Pc → ℕ
rank Pc.finished = 0
rank Pc.signalling = 1
rank Pc.leaving = 2
rank Pc.stopping = 3
rank Pc.waiting = 4
rank Pc.building = 5
rank Pc.draining = 6
rank Pc.replacing = 7

abbrev timer_weight : Timer → ℕ
timer_weight Timer.expired = 4
timer_weight _ = 0

abbrev closer_weight : Closer → ℕ
closer_weight Closer.returned = 0
closer_weight _ = 1

abbrev measure : Refresher → ℕ
measure r =
    rank r.pc
    + timer_weight r.timer
    + bit (is_some r.updates)
    + bit r.hints
    + closer_weight r.closer

Work-lt : {r s : Refresher} → Work r s → measure s < measure r
unfolding take_stop take_update take_hint take_timer close_old drain build_ok build_fail stop_timer
    close_last signal_done end_close
Work-lt (Work.stops e h) = ground arith
Work-lt (Work.arms g e h) = ground arith
Work-lt (Work.hints e h) = ground arith
Work-lt (Work.fires e h) = ground arith
Work-lt (Work.closes e) = ground arith
Work-lt (Work.drains e) = ground arith
Work-lt (Work.builds e) = ground arith
Work-lt (Work.fails e) = ground arith
Work-lt (Work.disarms e) = ground arith
Work-lt (Work.leaves e) = ground arith
Work-lt (Work.signals e) = ground arith
Work-lt (Work.returns e h) = ground arith

Work-begun : {r s : Refresher} → Work r s → is_begun r.closer ≡ true → is_begun s.closer ≡ true
unfolding take_stop take_update take_hint take_timer close_old drain build_ok build_fail stop_timer
    close_last signal_done end_close
Work-begun (Work.stops e h) b = ground arith
Work-begun (Work.arms g e h) b = ground arith
Work-begun (Work.hints e h) b = ground arith
Work-begun (Work.fires e h) b = ground arith
Work-begun (Work.closes e) b = ground arith
Work-begun (Work.drains e) b = ground arith
Work-begun (Work.builds e) b = ground arith
Work-begun (Work.fails e) b = ground arith
Work-begun (Work.disarms e) b = ground arith
Work-begun (Work.leaves e) b = ground arith
Work-begun (Work.signals e) b = ground arith
Work-begun (Work.returns e h) b = ground arith

-- While `Close` waits, some step can be made.
go_on :
    (r : Refresher) (p : Pc)
    → Inv r
    → r.closer ≡ Closer.pending
    → r.pc ≡ p
    → (s : Refresher) × Work r s
go_on r Pc.waiting v c e = (take_stop r, Work.stops e (ground arith))
go_on r Pc.replacing v c e = (close_old r, Work.closes e)
go_on r Pc.draining v c e = (drain r, Work.drains e)
go_on r Pc.building v c e = (build_ok r, Work.builds e)
go_on r Pc.stopping v c e = (stop_timer r, Work.disarms e)
go_on r Pc.leaving v c e = (close_last r, Work.leaves e)
go_on r Pc.signalling v c e = (signal_done r, Work.signals e)
go_on r Pc.finished v c e = (end_close r, Work.returns c (ground arith))

Ends-below :
    (n : ℕ) (r : Refresher) (c : Closer)
    → measure r < n
    → Inv r
    → r.closer ≡ c
    → is_begun c ≡ true
    → Ends r
Ends-below zero r c lt v e b = absurd (omega arith)
Ends-below (suc n) r Closer.idle lt v e b = cc
Ends-below (suc n) r Closer.returned lt v e b = Ends.now r e
Ends-below (suc n) r Closer.pending lt v e b =
    let (s, w) = go_on r r.pc v e refl in
    Ends.later r s w (λ t w'.
      Ends-below n t t.closer (omega (arith, Work-lt w')) (Step-Inv v (Step.work w')) refl
        (Work-begun w' (ground arith)))

-- From every reachable state in which `stop` is closed, every order of the steps of the goroutine
-- and of `Close` comes to the return of `Close` in finitely many steps, and none of them gets
-- stuck before, while the resolver, the client and the clock take no further steps.
pub Reachable-Ends : (r : Refresher) → Reachable r → r.stop ≡ true → Ends r
Reachable-Ends r h stopped =
    let v = Reachable-Inv h in
    Ends-below (suc (measure r)) r r.closer (omega arith) v refl (ground arith)
