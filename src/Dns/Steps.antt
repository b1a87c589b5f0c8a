-- ===== src/Dns/Steps.antt =====
-- dns_refresh.go: the steps of the goroutines, in any order that the scheduler may choose.
use sink_go.Base.{ℕ, ◌≡◌, true, ◌⊎◌, some}
use sink_go.Dns.{
  Pc, Timer, Closer, Refresher, start, update_state, resolve_now, expire, take_stop, take_update,
  take_hint, take_timer, close_old, drain, build_ok, build_fail, stop_timer, close_last,
  signal_done, begin_close, end_close,
}

-- A resolver sends updates while it is open, and while it is built. Closing it waits for them.
abbrev pub Sends : Refresher → Type 0
Sends r = (r.live ≡ true) ⊎ (r.pc ≡ Pc.building)

-- A step of the goroutine of `refresh`, or the return of `Close`. Where the `select` has several
-- cases that are ready, each may be chosen.
pub data Work (r : Refresher) : Refresher → Type 0 where
  stops : r.pc ≡ Pc.waiting → r.stop ≡ true → Work r (take_stop r)
  arms : (g : ℕ) → r.pc ≡ Pc.waiting → r.updates ≡ some g → Work r (take_update r)
  hints : r.pc ≡ Pc.waiting → r.hints ≡ true → Work r (take_hint r)
  fires : r.pc ≡ Pc.waiting → r.timer ≡ Timer.expired → Work r (take_timer r)
  closes : r.pc ≡ Pc.replacing → Work r (close_old r)
  drains : r.pc ≡ Pc.draining → Work r (drain r)
  builds : r.pc ≡ Pc.building → Work r (build_ok r)
  fails : r.pc ≡ Pc.building → Work r (build_fail r)
  disarms : r.pc ≡ Pc.stopping → Work r (stop_timer r)
  leaves : r.pc ≡ Pc.leaving → Work r (close_last r)
  signals : r.pc ≡ Pc.signalling → Work r (signal_done r)
  returns : r.closer ≡ Closer.pending → r.done ≡ true → Work r (end_close r)

-- What the resolver of the builder, the connection, the clock and the client do.
pub data Outside (r : Refresher) : Refresher → Type 0 where
  updates : Sends r → Outside r (update_state r)
  asks : Outside r (resolve_now r)
  elapses : r.timer ≡ Timer.armed → Outside r (expire r)
  closed : r.closer ≡ Closer.idle → Outside r (begin_close r)

pub data Step (r s : Refresher) : Type 0 where
  work : Work r s → Step r s
  outside : Outside r s → Step r s

pub data Reachable : Refresher → Type 0 where
  initial : Reachable start
  next : {r s : Refresher} → Reachable r → Step r s → Reachable s
