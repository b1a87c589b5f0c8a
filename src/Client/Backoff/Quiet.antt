-- ===== src/Client/Backoff/Quiet.antt =====
-- client.go: waiting for a backoff leaves alone what sleeping and random numbers leave alone.
use sink_go.Base.{ℕ, ◌≡◌, false, ◌||◌, ◌∙◌, ℤ, pos, leb_ℤ, ok, Bool-cases, inl, inr}
use sink_go.Client.Backoff.{jittered_backoff, wait_for_backoff}
use sink_go.Floats.{Floats}
use sink_go.Network.{Network}

module _ (fl : Floats) (net : Network fl) where
  open net use {World, sleep, random}

  module _ (measure : World → ℕ)
      (quiet_sleep : (d : ℤ) (w : World) → measure (sleep d w).1 ≡ measure w)
      (quiet_random : (w : World) → measure (random w).1 ≡ measure w) where
    jittered_backoff-quiet :
        (backoff : ℤ) (jitter : Floats.Float fl) (w : World)
        → measure (jittered_backoff fl net backoff jitter w).1 ≡ measure w
    unfolding jittered_backoff
    jittered_backoff-quiet backoff jitter w =
        elim (Bool-cases (Floats.le fl jitter (Floats.zero fl) || leb_ℤ backoff (pos 1))) [
          | inl plain ↦ rw plain
          | inr spread ↦ rw spread (quiet_random w)
        ]

    pub wait_for_backoff-quiet :
        (backoff : ℤ) (jitter : Floats.Float fl) (w : World)
        → measure (wait_for_backoff fl net backoff jitter w).1 ≡ measure w
    unfolding wait_for_backoff
    wait_for_backoff-quiet backoff jitter w =
        quiet_sleep _ _ ∙ jittered_backoff-quiet backoff jitter w

  pub wait_for_backoff-ok :
      ((d : ℤ) (w : World) → (sleep d w).0 ≡ false)
      → (backoff : ℤ) (jitter : Floats.Float fl) (w : World)
      → (wait_for_backoff fl net backoff jitter w).0 ≡ ok tt
  unfolding wait_for_backoff
  wait_for_backoff-ok patient backoff jitter w = rw (
      patient (jittered_backoff fl net backoff jitter w).0
        (jittered_backoff fl net backoff jitter w).1)
