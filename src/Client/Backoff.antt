-- ===== src/Client/Backoff.antt =====
-- client.go: retry policies, backoff and jitter. A duration is in nanoseconds.
pub mod Quiet
use sink_go.Base.{
  Bool, ◌||◌, ◌&&◌, ℤ, pos, ltb_ℤ, leb_ℤ, Result, ok, err, ◌>>◌, fail_if, if◌then◌else◌,
}
use sink_go.Errors.{Error, new}
use sink_go.Errors
use sink_go.Floats.{Floats}
use sink_go.Network.{Network}

abbrev pub is_zero : ℤ → Bool
is_zero z = leb_ℤ z (pos 0) && leb_ℤ (pos 0) z

abbrev pub is_negative : ℤ → Bool
is_negative z = ltb_ℤ z (pos 0)

-- `if x == 0 { x = fallback }`
abbrev pub default : ℤ → ℤ → ℤ
default x fallback = if is_zero x then fallback else x

abbrev pub default_read_attempts : ℤ
default_read_attempts = pos 3

abbrev pub default_read_backoff : ℤ
default_read_backoff = pos 100000000

abbrev pub default_max_backoff : ℤ
default_max_backoff = pos 1000000000

pub record RetryPolicy (fl : Floats) : Type 0 where
  pub max_attempts : ℤ
  pub initial_backoff : ℤ
  pub max_backoff : ℤ
  pub multiplier : Floats.Float fl
  pub jitter : Floats.Float fl

module _ (fl : Floats) where
  open fl use {Float, zero, one, two, one_fifth, lt, le, eq, add, sub, mul, div, from_int, to_int}

  abbrev float_default : Float → Float → Float
  float_default x fallback = if eq x zero then fallback else x

  -- The defaults for the fields that are zero.
  abbrev pub fill_defaults : RetryPolicy fl → RetryPolicy fl
  fill_defaults policy = record {
    max_attempts = default policy.max_attempts default_read_attempts;
    initial_backoff = default policy.initial_backoff default_read_backoff;
    max_backoff = default policy.max_backoff default_max_backoff;
    multiplier = float_default policy.multiplier two;
    jitter = float_default policy.jitter one_fifth;
  }

  unfoldable pub normalize_retry_policy : RetryPolicy fl → Result Error (RetryPolicy fl)
  normalize_retry_policy policy = do
    fail_if (is_negative policy.max_attempts) (new "max attempts cannot be negative")
    fail_if (is_negative policy.initial_backoff || is_negative policy.max_backoff)
        (new "backoff cannot be negative")
    fail_if (lt policy.multiplier zero) (new "multiplier cannot be negative")
    fail_if (lt policy.jitter zero || lt one policy.jitter) (new "jitter must be between 0 and 1")
    let filled = fill_defaults policy
    fail_if (ltb_ℤ filled.max_backoff filled.initial_backoff)
        (new "max backoff is less than initial backoff")
    fail_if (lt filled.multiplier one) (new "multiplier must be at least 1")
    ok filled

  unfoldable pub next_backoff : ℤ → RetryPolicy fl → ℤ
  next_backoff current policy =
      if leb_ℤ policy.max_backoff current
      then policy.max_backoff
      else if le (div (from_int policy.max_backoff) (from_int current)) policy.multiplier
      then policy.max_backoff
      else to_int (mul (from_int current) policy.multiplier)

module _ (fl : Floats) (net : Network fl) where
  open fl use {Float, zero, one, two, le, add, sub, mul, from_int, to_int}
  open net use {World, sleep, random}

  unfoldable pub jittered_backoff : ℤ → Float → World → ℤ × World
  jittered_backoff backoff jitter w =
      if le jitter zero || leb_ℤ backoff (pos 1)
      then (backoff, w)
      else (let (r, w') = random w in
          let minimum = mul (from_int backoff) (sub one jitter) in
          let spread = mul (mul (from_int backoff) jitter) two in
          (to_int (add minimum (mul r spread)), w'))

  -- `waitForBackoff(ctx, jitteredBackoff(backoff, jitter))`
  unfoldable pub wait_for_backoff : ℤ → Float → World → Result Error (Unit {0}) × World
  unfolding jittered_backoff
  wait_for_backoff backoff jitter w =
      let (delay, w') = jittered_backoff backoff jitter w in
      let (ended, w'') = sleep delay w' in (if ended then err Errors.context else ok tt, w'')
