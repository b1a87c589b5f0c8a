-- ===== src/Network.antt =====
-- What a client talks to: the stub of api/sink/v1/sink_grpc.pb.go with the servers behind it, the
-- context of the call, the clock and the source of random numbers. A call may change the world.
use sink_go.Base.{Bool, Option, Result, ℤ}
use sink_go.Errors.{Status}
use sink_go.Floats.{Floats}
use sink_go.Proto as Proto
use sink_go.Proto.Native as Native

pub record Network (fl : Floats) : Type 1 where
  pub World : Type 0
  pub read : Proto.ReadRequest → World → Result Status (Option Proto.ReadResponse) × World
  pub write : Proto.WriteRequest → World → Result Status (Option Proto.WriteResponse) × World
  pub delete : Proto.DeleteRequest → World → Result Status (Option Proto.DeleteResponse) × World
  pub execute :
      Native.ExecuteRequest → World → Result Status (Option Native.ExecuteResponse) × World
  pub query : Native.QueryRequest → World → Result Status (Option Proto.QueryResponse) × World
  pub count : Native.CountRequest → World → Result Status (Option Native.CountResponse) × World
  pub scan : Native.ScanRequest → World → Result Status (Option Proto.ScanResponse) × World
  -- The health service's status, `true` for SERVING.
  pub check : World → Result Status (Option Bool) × World
  -- Waits for a delay; `true` if the context ended first.
  pub sleep : ℤ → World → Bool × World
  -- `ctx.Err() != nil`
  pub is_done : World → Bool
  -- `context.WithTimeout` for the calls that follow, and its `cancel`.
  pub with_timeout : ℤ → World → World
  pub cancel : World → World
  -- `rand.Float64`
  pub random : World → Floats.Float fl × World
