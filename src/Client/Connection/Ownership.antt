-- ===== src/Client/Connection/Ownership.antt =====
-- client.go: the connections of `Dial`, and the answer of `CheckHealth`.
use sink_go.Base.{
  ℕ, ◌+◌, ◌≡◌, refl, true, List, arith, Bytes, is_empty, Result, ok, err, Bool-cases, inl, inr,
  >>=-eq-ok, ok_eq, subst,
}
use sink_go.Client.Backoff.{is_negative}
use sink_go.Client.Config.{Client, ClientOptions, new_client, new_client_config}
use sink_go.Client.Config.Usable.{IsUsable, new_client_config-IsUsable}
use sink_go.Client.Connection.{
  GrpcOption, DialOptions, Grpc, connect_options, owned, connected, dial,
}
use sink_go.Errors.{Error}
use sink_go.Floats.{Floats}
use sink_go.Uri.Text.{trim_space}

-- The connections that a result stands for.
abbrev pub opened {ℓ} : {A : Type ℓ} → Result Error A → ℕ
opened (ok c) = 1
opened (err e) = 0

module _ (fl : Floats) (grpc : Grpc) where
  open grpc use {World, Connection, connect, close}

  -- The connections that gRPC has opened and closed, as it counts them.
  pub record Opens : Type 0 where
    pub opens : World → ℕ
    pub closes : World → ℕ
    pub connected :
        (target : Bytes) (options : List GrpcOption) (w : World)
        → opens (connect target options w).1 ≡ opens w + opened (connect target options w).0
    pub connect_closes :
        (target : Bytes) (options : List GrpcOption) (w : World)
        → closes (connect target options w).1 ≡ closes w
    pub closed : (c : Connection) (w : World) → closes (close c w).1 ≡ closes w + 1
    pub close_opens : (c : Connection) (w : World) → opens (close c w).1 ≡ opens w

  -- What is opened between `w` and `v` is closed, or one of the `left`.
  abbrev pub Leaves : Opens → World → World → ℕ → Type 0
  Leaves o w v left = o.opens v + o.closes w ≡ o.opens w + o.closes v + left

  -- A client that is returned is usable.
  abbrev pub Serves : Result Error (Client fl × Connection) → Type 0
  Serves (err e) = Unit
  Serves (ok (c, connection)) = IsUsable c.config × (c.owns_connection ≡ true)

  new_client-IsUsable :
      (opts : ClientOptions fl) (c : Client fl) → new_client true opts ≡ ok c → IsUsable c.config
  unfolding new_client
  new_client-IsUsable opts c h =
      let (config, hc, e) = >>=-eq-ok (new_client_config opts) _ h in
      subst (λ (d : Client fl). IsUsable d.config) (ok_eq e) (new_client_config-IsUsable opts hc)

  owned-Serves :
      (o : Opens) (opts : ClientOptions fl) (connection : Connection) (r : Result Error (Client fl))
      (w v : World)
      → new_client true opts ≡ r
      → Leaves o w v 1
      → Leaves o w (owned fl grpc connection r v).1 (opened (owned fl grpc connection r v).0)
        × Serves (owned fl grpc connection r v).0
  unfolding owned
  owned-Serves o opts connection (err e) w v made h =
      (omega (arith, o.closed connection v, o.close_opens connection v), tt)
  owned-Serves o opts connection (ok c) w v made h = (h, (new_client-IsUsable opts c made, refl))

  connected-Serves :
      (o : Opens) (opts : ClientOptions fl) (r : Result Error Connection) (w v : World)
      → Leaves o w v (opened r)
      → Leaves o w (connected fl grpc opts (r, v)).1 (opened (connected fl grpc opts (r, v)).0)
        × Serves (connected fl grpc opts (r, v)).0
  unfolding connected
  connected-Serves o opts (err e) w v h = (h, tt)
  connected-Serves o opts (ok connection) w v h =
      owned-Serves o opts connection (new_client true opts) w v refl h

  -- Where gRPC counts the connections that it opens and closes, `Dial` leaves one open connection
  -- if it returns a client and none with an error, and the client has a usable configuration and
  -- owns the connection.
  pub dial-Serves :
      (o : Opens) (target : Bytes) (opts : DialOptions fl) (w : World)
      → Leaves o w (dial fl grpc target opts w).1 (opened (dial fl grpc target opts w).0)
        × Serves (dial fl grpc target opts w).0
  unfolding dial
  dial-Serves o target opts w = elim (Bool-cases (is_empty (trim_space target))) [
    | inl blank ↦ rw blank (omega arith, tt)
    | inr named ↦ rw named (elim (Bool-cases (is_negative opts.dns_refresh_interval)) [
      | inl negative ↦ rw negative (omega arith, tt)
      | inr positive ↦
          let options = connect_options opts in
          rw positive (
            connected-Serves o opts.client (connect target options w).0 w
              (connect target options w).1
              (omega (arith, o.connected target options w, o.connect_closes target options w)))
    ])
  ]
