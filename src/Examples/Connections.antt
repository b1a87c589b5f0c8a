-- ===== src/Examples/Connections.antt =====
-- client.go: `Dial` on a gRPC that counts its connections.
use sink_go.Base.{ℕ, ◌+◌, refl, none, [], Bytes, codes, pos, ok}
use sink_go.Client.Connection.{DialOptions, Grpc, dial}
use sink_go.Client.Connection.Ownership.{Opens, Leaves, Serves, opened, dial-Serves}
use sink_go.Examples.Stub.{tenths, options}

abbrev counting : Grpc
counting = record {
  World = ℕ × ℕ;
  Connection = Bytes;
  connect = λ target options w. (ok target, (w.0 + 1, w.1));
  close = λ c w. (none, (w.0, w.1 + 1));
}

counting-Opens : Opens tenths counting
counting-Opens = record {
  opens = λ (w : ℕ × ℕ). w.0;
  closes = λ (w : ℕ × ℕ). w.1;
  connected = λ target options w. refl;
  connect_closes = λ target options w. refl;
  closed = λ c w. refl;
  close_opens = λ c w. refl;
}

abbrev dial_options : DialOptions tenths
dial_options = record {
  client = options;
  transport_credentials = none;
  grpc_options = [];
  dns_refresh_interval = pos 0;
}

dial-Serves_example :
    Leaves tenths counting counting-Opens
      (0, 0)
      (dial tenths counting (codes "dns:///sink") dial_options (0, 0)).1
      (opened (dial tenths counting (codes "dns:///sink") dial_options (0, 0)).0)
    × Serves tenths counting (dial tenths counting (codes "dns:///sink") dial_options (0, 0)).0
dial-Serves_example =
    dial-Serves tenths counting counting-Opens (codes "dns:///sink") dial_options (0, 0)
