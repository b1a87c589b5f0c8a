-- ===== src/Codec.antt =====
-- grpc_codec.go: messages to bytes and back, with buffers from gRPC's pool.
pub mod Buffers
use sink_go.Base.{
  ℕ, Bool, not, Option, none, some, List, [], ◌∷◌, ◌++◌, take, drop, replicate, ◌==◌, if◌then◌else◌,
  Bytes, String, Result, ok, err,
}
use sink_go.Errors.{Error, new_name, new_counts}

-- `vtProtoCodecMessage`: the generated helpers of a message. `marshal_to` writes into a buffer: what
-- the buffer is then, and the number of bytes written or an error; `unmarshal` tells an error.
pub record VtMessage : Type 0 where
  pub size : ℕ
  pub marshal_to : Bytes → Bytes × Result Error ℕ
  pub unmarshal : Bytes → Option Error

-- Package mem of gRPC: its buffer pool, and the buffer that holds the data of a slice of buffers.
pub record Memory : Type 1 where
  pub Pool : Type 0
  pub below_threshold : ℕ → Bool
  pub get : ℕ → Pool → Bytes × Pool
  pub put : Bytes → Pool → Pool
  pub materialize : List Bytes → Pool → Bytes × Pool
  pub free : Bytes → Pool → Pool

-- The one buffer of the result: a plain slice, or one that goes back to the pool when it is freed.
pub data Encoded : Type 0 where
  slice pooled : Bytes → Encoded

abbrev pub bytes_of : Encoded → Bytes
bytes_of (slice s) = s
bytes_of (pooled s) = s

abbrev pub codec_name : String
codec_name = "proto"

module _ (mem : Memory) where
  open mem use {Pool, below_threshold, get, put, materialize, free}

  -- The buffer on the heap; an error leaves it to the collector.
  unfoldable pub marshaled_slice : ℕ → Bytes × Result Error ℕ → Result Error Encoded
  marshaled_slice size (buffer, err e) = err e
  marshaled_slice size (buffer, ok written) =
      if not (written == size)
      then err (new_counts "vtproto: marshaled %d bytes, expected %d" written size)
      else ok (slice buffer)

  -- The buffer of the pool, with what it has behind the message; an error gives it back.
  unfoldable pub marshaled_pooled :
      ℕ → Bytes → Bytes × Result Error ℕ → Pool → Result Error Encoded × Pool
  marshaled_pooled size behind (buffer, err e) p = (err e, put (buffer ++ behind) p)
  marshaled_pooled size behind (buffer, ok written) p =
      if not (written == size)
      then (
        err (new_counts "vtproto: marshaled %d bytes, expected %d" written size),
        put (buffer ++ behind) p,
      )
      else (ok (pooled (buffer ++ behind)), p)

  unfoldable pub marshal_message : VtMessage → Pool → Result Error Encoded × Pool
  marshal_message m p =
      if below_threshold m.size
      then (marshaled_slice m.size (m.marshal_to (replicate m.size 0)), p)
      else (let (kept, p') = get m.size p in
          marshaled_pooled m.size (drop m.size kept) (m.marshal_to (take m.size kept)) p')

  -- `Marshal`; `none` is a value without the helpers.
  unfoldable pub marshal : Option VtMessage → Pool → Result Error Encoded × Pool
  marshal none p =
      (err (new_name "vtproto: message %s does not provide VT marshal helpers" "value"), p)
  marshal (some m) p = marshal_message m p

  -- `Unmarshal`, with the error that it returns.
  unfoldable pub unmarshal : List Bytes → Option VtMessage → Pool → Option Error × Pool
  unmarshal chunks none p =
      (some (new_name "vtproto: message %s does not provide VT unmarshal helpers" "value"), p)
  unmarshal chunks (some m) p =
      let (buffer, p') = materialize chunks p in (m.unmarshal buffer, free buffer p')
