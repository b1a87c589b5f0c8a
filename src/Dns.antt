-- ===== src/Dns.antt =====
-- dns_refresh.go: the resolver that looks its target up again and again.
pub mod Steps
pub mod Invariant
pub mod Lookups
pub mod Closing
use sink_go.Base.{
  ℕ, suc, ◌+◌, Bool, true, false, not, ◌&&◌, ◌||◌, Option, none, some, [], ◌∷◌, ◌==◌, if◌then◌else◌,
  Bytes, Result, ok, err,
}
use sink_go.Errors.{Error}

-- Where the goroutine of `refresh` stands: at its `select`; in the case of the timer, in front of
-- closing the old resolver, of discarding an update, and of the next build; behind its `return`, in
-- front of each of its three deferred calls; and at its end.
pub data Pc : Type 0 where
  waiting replacing draining building : Pc
  stopping leaving signalling finished : Pc

-- `expired` is an armed timer whose interval is over, and whose value is not received.
pub data Timer : Type 0 where
  stopped armed expired : Timer

-- The `once` of `Close`: no call yet, the first call in front of `<-r.done`, and behind it.
pub data Closer : Type 0 where
  idle pending returned : Closer

-- `refreshingDNSResolver`, with the goroutine of `refresh`. The buffers of the channels `updates` and
-- `hints` hold one value, the channels `stop` and `done` are closed or not. An update in the buffer is
-- tagged by the build whose resolver sent it. The fields from `attempts` on count what happened.
pub record Refresher : Type 0 where
  pub pc : Pc
  -- `underlying != nil`
  pub held : Bool
  -- Is a resolver of the builder open, that is, built and not closed?
  pub live : Bool
  pub timer : Timer
  pub updates : Option ℕ
  pub hints : Bool
  pub stop : Bool
  pub done : Bool
  pub closer : Closer
  pub attempts : ℕ
  pub failed : ℕ
  pub accepted : ℕ
  pub elapsed : ℕ
  pub closes : ℕ
  -- Calls of a method on a resolver that is closed.
  pub misuses : ℕ

-- `Build` behind a first build that succeeds, at the start of the goroutine.
abbrev pub start : Refresher
start = record {
  pc = Pc.waiting;
  held = true;
  live = true;
  timer = Timer.stopped;
  updates = none;
  hints = false;
  stop = false;
  done = false;
  closer = Closer.idle;
  attempts = 1;
  failed = 0;
  accepted = 0;
  elapsed = 0;
  closes = 0;
  misuses = 0;
}

-- The build whose resolver may send updates: the one that goes on, or the last one.
unfoldable pub generation : Pc → ℕ → ℕ
generation Pc.building attempts = attempts + 1
generation _ attempts = attempts

-- A send into a full buffer is dropped.
unfoldable pub buffered : Option ℕ → ℕ → Option ℕ
buffered none g = some g
buffered (some k) g = some k

unfoldable pub count_if_empty : Option ℕ → ℕ → ℕ
count_if_empty none n = n + 1
count_if_empty (some k) n = n

-- `UpdateState`, where the connection returns no error; with an error it does nothing more.
unfoldable pub update_state : Refresher → Refresher
unfolding generation buffered count_if_empty
update_state r = record r {
  updates = buffered r.updates (generation r.pc r.attempts);
  accepted = count_if_empty r.updates r.accepted;
}

-- `ResolveNow`
unfoldable pub resolve_now : Refresher → Refresher
resolve_now r = record r { hints = true }

-- `underlying.Close()`
unfoldable pub close_underlying : Refresher → Refresher
close_underlying r =
    if not r.held
    then r
    else if r.live
    then record r { live = false; closes = r.closes + 1 }
    else record r { misuses = r.misuses + 1 }

-- `underlying.ResolveNow(options)`
unfoldable pub hint_underlying : Refresher → Refresher
hint_underlying r = if not r.held || r.live then r else record r { misuses = r.misuses + 1 }

-- The interval of the timer is over.
unfoldable pub expire : Refresher → Refresher
expire r = record r { timer = Timer.expired; elapsed = r.elapsed + 1 }

-- `case <-r.stop`
unfoldable pub take_stop : Refresher → Refresher
take_stop r = record r { pc = Pc.stopping }

-- `case <-r.updates`
unfoldable pub take_update : Refresher → Refresher
take_update r = record r { updates = none; timer = Timer.armed }

-- `case <-r.hints`
unfoldable pub take_hint : Refresher → Refresher
unfolding hint_underlying
take_hint r = hint_underlying (record r { hints = false })

-- `case <-timer.C`
unfoldable pub take_timer : Refresher → Refresher
take_timer r = record r { timer = Timer.stopped; pc = Pc.replacing }

unfoldable pub close_old : Refresher → Refresher
unfolding close_underlying
close_old r = close_underlying (record r { pc = Pc.draining })

unfoldable pub drain : Refresher → Refresher
drain r = record r { updates = none; pc = Pc.building }

-- The next build, with a resolver, or with an error, which leaves `underlying` nil.
unfoldable pub build_ok : Refresher → Refresher
build_ok r = record r { held = true; live = true; attempts = r.attempts + 1; pc = Pc.waiting }

unfoldable pub build_fail : Refresher → Refresher
build_fail r = record r {
  held = false;
  attempts = r.attempts + 1;
  failed = r.failed + 1;
  timer = Timer.armed;
  pc = Pc.waiting;
}

-- The deferred calls, the last one first.
unfoldable pub stop_timer : Refresher → Refresher
stop_timer r = record r { timer = Timer.stopped; pc = Pc.leaving }

unfoldable pub close_last : Refresher → Refresher
unfolding close_underlying
close_last r = close_underlying (record r { pc = Pc.signalling })

unfoldable pub signal_done : Refresher → Refresher
signal_done r = record r { done = true; pc = Pc.finished }

-- `Close`: the first call closes `stop`, and returns when `done` is closed. The other calls wait for
-- the first one.
unfoldable pub begin_close : Refresher → Refresher
begin_close r = record r { stop = true; closer = Closer.pending }

unfoldable pub end_close : Refresher → Refresher
end_close r = record r { closer = Closer.returned }

-- What `Build` returns: the builder's own resolver, or one that is refreshed.
pub data Resolver : Type 0 where
  plain : Resolver
  refreshing : Refresher → Resolver

-- Packages net and net/netip: the host of `net.SplitHostPort`, if it succeeds, and whether
-- `netip.ParseAddr` does.
pub record Names : Type 0 where
  pub split_host_port : Bytes → Option Bytes
  pub is_address : Bytes → Bool

abbrev is_bracket : ℕ → Bool
is_bracket c = c == b'[' || c == b']'

unfoldable pub trim_left : Bytes → Bytes
trim_left [] = []
trim_left (c ∷ s) = let rest = trim_left s in if is_bracket c then rest else c ∷ s

unfoldable pub trim_right : Bytes → Bytes
trim_right [] = []
trim_right (c ∷ s) = elim (trim_right s) [
  | [] ↦ if is_bracket c then [] else c ∷ []
  | d ∷ t ↦ c ∷ d ∷ t
]

unfoldable pub host_of : Names → Bytes → Bytes
host_of names endpoint = elim (names.split_host_port endpoint) [
  | none ↦ endpoint
  | some host ↦ host
]

-- `Build`, with what the builder's first build returns.
unfoldable pub build : Names → Bytes → Result Error (Unit {0}) → Result Error Resolver
build names endpoint (err e) = err e
build names endpoint (ok _) = ok (
    if names.is_address (trim_left (trim_right (host_of names endpoint)))
    then plain
    else refreshing start)
