-- ===== src/Client/Config/Usable.antt =====
-- client.go: the limits of a configuration.
use sink_go.Base.{
  ℕ, ◌<◌, ◌≡◌, subst, Bool, false, ◌||◌, some, arith, ℤ, pos, negsuc, ◌≤ℤ◌, ltb_ℤ, ok, >>=-eq-ok,
  fail_if, fail_if-eq-ok, ok_eq, wrap_err, wrap_err-eq-ok, String,
}
use sink_go.Client.Backoff.{
  RetryPolicy, normalize_retry_policy, fill_defaults, default, is_negative,
}
use sink_go.Client.Config.{
  ClientOptions, ClientConfig, Client, new_client_config, validate_collection, to_count,
}
use sink_go.Floats.{Floats}

-- What a normalised policy satisfies: at least one attempt, and a positive first delay within the
-- largest one; a multiplier that is less than 1 is not accepted.
pub record IsNormal {fl : Floats} (p : RetryPolicy fl) : Type 0 where
  pub attempts : 0 < to_count p.max_attempts
  pub first_delay : 0 < to_count p.initial_backoff
  pub ordered : p.initial_backoff ≤ℤ p.max_backoff
  pub growing : Floats.lt fl p.multiplier (Floats.one fl) ≡ false

default-pos : (x : ℤ) (n : ℕ) → is_negative x ≡ false → 0 < n → 0 < to_count (default x (pos n))
default-pos (pos m) n h lt = ground arith
default-pos (negsuc m) n h lt = ground arith

module _ {fl : Floats} where
  -- Every policy that is accepted is normal.
  pub normalize_retry_policy-IsNormal :
      (policy : RetryPolicy fl) {out : RetryPolicy fl}
      → normalize_retry_policy fl policy ≡ ok out
      → IsNormal out
  unfolding normalize_retry_policy
  normalize_retry_policy-IsNormal policy {out} h =
      let filled = fill_defaults fl policy in
      let (u1, h1, k1) = >>=-eq-ok (fail_if (is_negative policy.max_attempts) _) _ h in
      let (u2, h2, k2) =
        >>=-eq-ok (fail_if (is_negative policy.initial_backoff || is_negative policy.max_backoff) _)
          _ k1 in
      let (u3, h3, k3) =
        >>=-eq-ok (fail_if (Floats.lt fl policy.multiplier (Floats.zero fl)) _) _ k2 in
      let (u4, h4, k4) =
        >>=-eq-ok
          (fail_if
            (Floats.lt fl policy.jitter (Floats.zero fl)
              || Floats.lt fl (Floats.one fl) policy.jitter)
            _)
          _ k3 in
      let (u5, h5, k5) =
        >>=-eq-ok (fail_if (ltb_ℤ filled.max_backoff filled.initial_backoff) _) _ k4 in
      let (u6, h6, e) =
        >>=-eq-ok (fail_if (Floats.lt fl filled.multiplier (Floats.one fl)) _) _ k5 in
      let attempts = fail_if-eq-ok (is_negative policy.max_attempts) _ h1 in
      let delays =
        fail_if-eq-ok (is_negative policy.initial_backoff || is_negative policy.max_backoff) _ h2 in
      let order = fail_if-eq-ok (ltb_ℤ filled.max_backoff filled.initial_backoff) _ h5 in
      subst IsNormal (ok_eq e) (record {
        attempts = default-pos policy.max_attempts 3 attempts (omega arith);
        first_delay =
            default-pos policy.initial_backoff 100000000 (first_false _ _ delays) (omega arith);
        ordered = not_lt-le filled.max_backoff filled.initial_backoff order;
        growing = fail_if-eq-ok _ _ h6;
      })
    where
      first_false : (a b : Bool) → (a || b) ≡ false → a ≡ false
      first_false a b e = ground arith

      not_lt-le : (a b : ℤ) → ltb_ℤ a b ≡ false → b ≤ℤ a
      not_lt-le a b e = ground arith

  -- The limits that the batch loops and the retry loops rest on.
  pub record IsUsable (config : ClientConfig fl) : Type 0 where
    pub batches : 0 < to_count config.max_operations
    pub reads : IsNormal config.read_retry
    pub scans : IsNormal config.scan_retry

  -- Every configuration that `newClientConfig` accepts has a positive batch size, and for both
  -- retry policies at least one attempt, a positive first delay that is at most the largest one,
  -- and a multiplier that does not compare less than 1.
  pub new_client_config-IsUsable :
      (opts : ClientOptions fl) {config : ClientConfig fl}
      → new_client_config opts ≡ ok config
      → IsUsable config
  unfolding new_client_config
  new_client_config-IsUsable opts {config} h =
      let (u, hl, k) =
        >>=-eq-ok
          (fail_if
            (is_negative opts.max_operations
              || is_negative opts.max_receive_message_bytes
              || is_negative opts.max_send_message_bytes
              || is_negative opts.scan_timeout)
            _)
          _ h in
      let (r, hr, k') = >>=-eq-ok (wrap_err _ (normalize_retry_policy fl opts.read_retry)) _ k in
      let (s, hs, e) = >>=-eq-ok (wrap_err _ (normalize_retry_policy fl opts.scan_retry)) _ k' in
      let limits = fail_if-eq-ok _ _ hl in
      subst IsUsable (ok_eq e) (record {
        batches = default-pos opts.max_operations 1000 (ground arith) (omega arith);
        reads = normalize_retry_policy-IsNormal opts.read_retry (wrap_err-eq-ok _ _ hr);
        scans = normalize_retry_policy-IsNormal opts.scan_retry (wrap_err-eq-ok _ _ hs);
      })

  pub validated :
      (c : Client fl) (method : String) (n : ℕ) (d : Client fl)
      → validate_collection (some c) method n ≡ ok d
      → c ≡ d
  unfolding validate_collection
  validated c method n d h = ground arith
