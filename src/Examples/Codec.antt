-- ===== src/Examples/Codec.antt =====
-- grpc_codec.go: a message of five bytes, and a pool whose buffers hold other bytes.
use sink_go.Base.{
  ℕ, ◌+◌, ◌-◌, ◌≤◌, ◌≡◌, refl, none, some, [], ◌∷◌, ◌++◌, arith, ltb, length, length-replicate,
  replicate, take, Bytes, Result, ok, err, ok_eq, subst,
}
use sink_go.Codec.{
  VtMessage, Memory, pooled, bytes_of, marshal, unmarshal, marshal_message, marshaled_pooled,
}
use sink_go.Codec.Buffers.{
  Writes, Supplies, Counts, Balanced, sized, join, map_ok, held_by, marshal-sized, marshal-Balanced,
  unmarshal-marshal,
}
use sink_go.Errors.{Error}

abbrev content : Bytes
content = 1 ∷ 2 ∷ 3 ∷ 4 ∷ 5 ∷ []

abbrev message : VtMessage
message = record { size = 5; marshal_to = λ buffer. (content, ok 5); unmarshal = λ s. none }

apart :
    (buffer : Bytes) (e : Error)
    → ◌≡◌ {A = Result Error Bytes} (ok content) (err e)
    → (message.marshal_to buffer).1 ≡ err e
apart buffer e h = cc

abbrev message-Writes : Writes message
message-Writes = record {
  encoding = ok content;
  fits = λ out e. subst (λ (s : Bytes). length s ≤ 5) (ok_eq e) (omega arith);
  fails = λ buffer e l h. apart buffer e h;
  fills = λ buffer out l h.
      subst
        (λ (s : Bytes).
          ◌≡◌ {A = Bytes × Result Error ℕ} (content, ok 5)
            (take (5 - length s) buffer ++ s, ok (length s)))
        (ok_eq h) refl;
}

-- It counts the calls of `Get` and of `Put`.
abbrev memory : Memory
memory = record {
  Pool = ℕ × ℕ;
  below_threshold = λ n. ltb n 4;
  get = λ n p. (replicate n 7, (p.0 + 1, p.1));
  put = λ s p. (p.0, p.1 + 1);
  materialize = λ chunks p. (join chunks, p);
  free = λ s p. p;
}

memory-Supplies : Supplies memory
memory-Supplies n p = length-replicate n 7

memory-Counts : Counts memory
memory-Counts = record {
  gets = λ (p : ℕ × ℕ). p.0;
  puts = λ (p : ℕ × ℕ). p.1;
  got = λ n p. refl;
  got_puts = λ n p. refl;
  put_puts = λ s p. refl;
  put_gets = λ s p. refl;
}

marshal-content : (marshal memory (some message) (0, 0)).0 ≡ ok (pooled content)
unfolding marshal marshal_message marshaled_pooled
marshal-content = refl

marshal-sized_example :
    map_ok bytes_of (marshal memory (some message) (0, 0)).0 ≡ sized 5 (ok content)
marshal-sized_example = marshal-sized memory message message-Writes (0, 0) memory-Supplies

marshal-Balanced_example :
    Balanced memory memory-Counts
      (0, 0)
      (marshal memory (some message) (0, 0)).1
      (held_by memory (marshal memory (some message) (0, 0)).0)
marshal-Balanced_example = marshal-Balanced memory memory-Counts (some message) (0, 0)

unmarshal-marshal_example :
    (out : Bytes) × (◌≡◌ {A = Result Error Bytes} (ok content) (ok out))
    × ((unmarshal memory ((1 ∷ 2 ∷ []) ∷ (3 ∷ 4 ∷ 5 ∷ []) ∷ []) (some message) (1, 0)).0
        ≡ message.unmarshal out)
unmarshal-marshal_example =
    unmarshal-marshal memory message message message-Writes (0, 0) (1, 0) (pooled content)
      ((1 ∷ 2 ∷ []) ∷ (3 ∷ 4 ∷ 5 ∷ []) ∷ []) memory-Supplies (λ parts o. refl) marshal-content refl
