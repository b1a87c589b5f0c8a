-- ===== src/Client/Connection.antt =====
-- client.go: `Dial`, `Close` and `CheckHealth`.
pub mod Ownership
use sink_go.Base.{
  ℕ, ◌+◌, ◌≡◌, ◌↔◌, refl, Bool, true, false, ◌&&◌, Option, none, some, List, [], ◌∷◌, ◌++◌, arith,
  Bytes, is_empty, ℤ, pos, String, Result, ok, err, if◌then◌else◌,
}
use sink_go.Client.Backoff.{is_negative, default}
use sink_go.Client.Config.{Client, ClientOptions, new_client}
use sink_go.Client.Config.Usable.{IsUsable, new_client_config-IsUsable}
use sink_go.Errors.{Error, new, wrap, Status}
use sink_go.Errors
use sink_go.Floats.{Floats}
use sink_go.Network.{Network}
use sink_go.Uri.Text.{trim_space}

-- Credentials of the caller, by a number, or TLS from version 1.2 on.
pub data Credentials : Type 0 where
  tls12 : Credentials
  own : ℕ → Credentials

-- The options that `Dial` hands to gRPC; those of the caller by a number.
pub data GrpcOption : Type 0 where
  service_config : String → GrpcOption
  caller : ℕ → GrpcOption
  dns_resolver : (interval : ℤ) → GrpcOption
  transport : Credentials → GrpcOption

pub record DialOptions (fl : Floats) : Type 0 where
  pub client : ClientOptions fl
  pub transport_credentials : Option Credentials
  pub grpc_options : List GrpcOption
  pub dns_refresh_interval : ℤ

-- Package grpc: `grpc.NewClient`, and `Close` of a connection.
pub record Grpc : Type 1 where
  pub World : Type 0
  pub Connection : Type 0
  pub connect : Bytes → List GrpcOption → World → Result Error Connection × World
  pub close : Connection → World → Option Error × World

-- 30 seconds in nanoseconds.
abbrev pub default_dns_refresh_interval : ℤ
default_dns_refresh_interval = pos 30000000000

abbrev pub credentials_of : Option Credentials → Credentials
credentials_of none = tls12
credentials_of (some c) = c

unfoldable pub connect_options : {fl : Floats} → DialOptions fl → List GrpcOption
connect_options opts =
    service_config "{\"loadBalancingConfig\":[{\"round_robin\":{}}]}"
    ∷ (opts.grpc_options
        ++ dns_resolver (default opts.dns_refresh_interval default_dns_refresh_interval)
          ∷ transport (credentials_of opts.transport_credentials)
          ∷ [])

module _ (fl : Floats) (grpc : Grpc) where
  open grpc use {World, Connection, connect, close}

  -- What `Dial` makes of the client on a new connection; an error closes the connection.
  unfoldable pub owned :
      Connection → Result Error (Client fl) → World → Result Error (Client fl × Connection) × World
  owned connection (err e) w = (err e, (close connection w).1)
  owned connection (ok c) w = (ok (record c { owns_connection = true }, connection), w)

  unfoldable pub connected :
      ClientOptions fl
      → Result Error Connection × World
      → Result Error (Client fl × Connection) × World
  connected opts (err e, w) = (err (wrap "create Sink connection: %w" e), w)
  connected opts (ok connection, w) = owned connection (new_client true opts) w

  -- `Dial`: the client with the connection that it owns.
  unfoldable pub dial :
      Bytes → DialOptions fl → World → Result Error (Client fl × Connection) × World
  dial target opts w =
      if is_empty (trim_space target)
      then (err (new "create Sink client: target is required"), w)
      else if is_negative opts.dns_refresh_interval
      then (err (new "create Sink client: DNS refresh interval cannot be negative"), w)
      else connected opts.client (connect target (connect_options opts) w)

  -- `Client.Close`; a client that `New` made has no connection of its own.
  unfoldable pub close_client : Option (Option Connection) → World → Option Error × World
  close_client none w = (none, w)
  close_client (some none) w = (none, w)
  close_client (some (some connection)) w = close connection w

unfoldable pub health_error : Result Status (Option Bool) → Option Error
health_error (err st) = some (wrap "check Sink health: %w" (Errors.status st))
health_error (ok none) = some (new "check Sink health: server returned an empty response")
health_error (ok (some true)) = none
health_error (ok (some false)) = some (new "check Sink health: server status is %s")

module _ (fl : Floats) (net : Network fl) where
  open net use {World, check}

  -- `Client.CheckHealth`
  unfoldable pub check_health : Option (Client fl) → World → Option Error × World
  check_health none w = (some (new "check Sink health: client is nil"), w)
  check_health (some c) w = let (reply, w') = check w in (health_error reply, w')
