-- ===== src/Floats.antt =====
-- Go's float64 as client.go uses it, for the multiplier and the jitter of a retry policy.
use sink_go.Base.{Bool, ℤ}

pub record Floats : Type 1 where
  pub Float : Type 0
  pub zero : Float
  pub one : Float
  pub two : Float
  pub one_fifth : Float
  -- `<`, `<=` and `==`: all are false if one side is not a number.
  pub lt : Float → Float → Bool
  pub le : Float → Float → Bool
  pub eq : Float → Float → Bool
  pub add : Float → Float → Float
  pub sub : Float → Float → Float
  pub mul : Float → Float → Float
  pub div : Float → Float → Float
  -- `float64(d)` and `time.Duration(f)`.
  pub from_int : ℤ → Float
  pub to_int : Float → ℤ
