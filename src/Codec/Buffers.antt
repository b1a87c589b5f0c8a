-- ===== src/Codec/Buffers.antt =====
-- grpc_codec.go: the bytes that the two paths of `Marshal` give, and the buffers of the pool.
use sink_go.Base.{
  ℕ, zero, suc, append-nil, drop, ◌+◌, ◌-◌, ◌≤◌, ◌≡◌, refl, sym, ap, ◌∙◌, not, Option, none, some,
  List, [], ◌∷◌, ◌++◌, arith, take, length, length-take, length-replicate, replicate, ◌==◌, Bytes,
  Result, ok, err, ◌>>=◌, ◌>>◌, fail_if, ok_eq, >>=-eq-ok, Bool-cases, inl, inr,
}
use sink_go.Codec.{
  VtMessage, Memory, Encoded, pooled, bytes_of, marshaled_slice, marshaled_pooled, marshal_message,
  marshal, unmarshal,
}
use sink_go.Errors.{Error, new_counts}

-- What a generated message does with a buffer of its size: it writes its encoding, or fails,
-- whatever the buffer holds. The encoding stands at the end of the buffer.
pub record Writes (m : VtMessage) : Type 0 where
  pub encoding : Result Error Bytes
  pub fits : (out : Bytes) → encoding ≡ ok out → length out ≤ m.size
  pub fails :
      (buffer : Bytes) (e : Error)
      → length buffer ≡ m.size
      → encoding ≡ err e
      → (m.marshal_to buffer).1 ≡ err e
  pub fills :
      (buffer out : Bytes)
      → length buffer ≡ m.size
      → encoding ≡ ok out
      → m.marshal_to buffer ≡ (take (m.size - length out) buffer ++ out, ok (length out))

abbrev pub map_ok {ℓ κ} : {A : Type ℓ} {B : Type κ} → (A → B) → Result Error A → Result Error B
map_ok f (ok a) = ok (f a)
map_ok f (err e) = err e

-- The encoding, if it has the size that the message tells.
unfoldable pub sized : ℕ → Result Error Bytes → Result Error Bytes
sized size encoding = do
  out ← encoding
  fail_if (not (length out == size))
      (new_counts "vtproto: marshaled %d bytes, expected %d" (length out) size)
  ok out

sized-eq-ok :
    (size : ℕ) (encoding : Result Error Bytes) {s : Bytes}
    → sized size encoding ≡ ok s
    → (out : Bytes) × (encoding ≡ ok out) × (s ≡ out)
unfolding sized
sized-eq-ok size encoding h =
    let (out, e, h') = >>=-eq-ok encoding _ h in
    let (u, k, same) = >>=-eq-ok (fail_if (not (length out == size)) _) _ h' in
    (out, e, sym (ok_eq same))

take_zero-append : (n : ℕ) (buffer out : Bytes) → n ≡ 0 → take n buffer ++ out ≡ out
take_zero-append n buffer out e = rw e refl

drop_all : (n : ℕ) (s : Bytes) → length s ≡ n → drop n s ≡ []
drop_all n [] h = ground arith
drop_all zero (c ∷ s) h = absurd (omega arith)
drop_all (suc n) (c ∷ s) h = drop_all n s (omega arith)

module _ (mem : Memory) where
  open mem use {Pool, get, put, below_threshold}

  -- A buffer of the pool is as long as was asked for.
  abbrev pub Supplies : Type 0
  Supplies = (n : ℕ) (p : Pool) → length (get n p).0 ≡ n

  marshaled_slice-err :
      (size : ℕ) (r : Bytes × Result Error ℕ) (e : Error)
      → r.1 ≡ err e
      → marshaled_slice mem size r ≡ err e
  unfolding marshaled_slice
  marshaled_slice-err size (buffer, r) e h = rw (h, marshaled_slice) refl

  marshaled_pooled-err :
      (size : ℕ) (behind : Bytes) (r : Bytes × Result Error ℕ) (p : Pool) (e : Error)
      → r.1 ≡ err e
      → (marshaled_pooled mem size behind r p).0 ≡ err e
  unfolding marshaled_pooled
  marshaled_pooled-err size behind (buffer, r) p e h = rw (h, marshaled_pooled) refl

  marshaled_slice-sized :
      (m : VtMessage) (w : Writes m) (buffer : Bytes) (encoding : Result Error Bytes)
      → w.encoding ≡ encoding
      → length buffer ≡ m.size
      → map_ok bytes_of (marshaled_slice mem m.size (m.marshal_to buffer)) ≡ sized m.size encoding
  unfolding marshaled_slice sized
  marshaled_slice-sized m w buffer (err e) h l =
      ap (map_ok bytes_of)
        (marshaled_slice-err m.size (m.marshal_to buffer) e (w.fails buffer e l h))
  marshaled_slice-sized m w buffer (ok out) h l =
      rw (w.fills buffer out l h) (elim (Bool-cases (length out == m.size)) [
        | inl same ↦ rw same (
            ap (λ (s : Bytes). ◌>>=◌ {E = Error} (ok s) ok)
              (take_zero-append (m.size - length out) buffer out (ground arith)))
        | inr other ↦ rw other
      ])

  marshaled_pooled-sized :
      (m : VtMessage) (w : Writes m) (buffer : Bytes) (p : Pool) (encoding : Result Error Bytes)
      → w.encoding ≡ encoding
      → length buffer ≡ m.size
      → map_ok bytes_of (marshaled_pooled mem m.size [] (m.marshal_to buffer) p).0
        ≡ sized m.size encoding
  unfolding marshaled_pooled sized
  marshaled_pooled-sized m w buffer p (err e) h l =
      ap (map_ok bytes_of)
        (marshaled_pooled-err m.size [] (m.marshal_to buffer) p e (w.fails buffer e l h))
  marshaled_pooled-sized m w buffer p (ok out) h l =
      rw (w.fills buffer out l h) (elim (Bool-cases (length out == m.size)) [
        | inl same ↦ rw same (
            ap (λ (s : Bytes). ◌>>=◌ {E = Error} (ok s) ok)
              (append-nil (take (m.size - length out) buffer ++ out)
                ∙ take_zero-append (m.size - length out) buffer out (ground arith)))
        | inr other ↦ rw other
      ])

  -- For a message that writes its encoding at the end of a buffer, whatever the buffer holds, and
  -- a pool whose buffers are as long as was asked for, `Marshal` gives the encoding or its error,
  -- and an error if the encoding has another size than the message tells. The kind of the buffer
  -- and what it held before do not show.
  pub marshal-sized :
      (m : VtMessage) (w : Writes m) (p : Pool)
      → Supplies
      → map_ok bytes_of (marshal mem (some m) p).0 ≡ sized m.size w.encoding
  unfolding marshal marshal_message
  marshal-sized m w p supplies = elim (Bool-cases (below_threshold m.size)) [
    | inl small ↦
        rw small (
          marshaled_slice-sized m w (replicate m.size 0) w.encoding refl
            (length-replicate m.size 0))
    | inr large ↦ rw large (
        rw (drop_all m.size (get m.size p).0 (supplies m.size p)) (
          marshaled_pooled-sized m w (take m.size (get m.size p).0) (get m.size p).1 w.encoding refl
            (omega (arith, length-take m.size (get m.size p).0, supplies m.size p))))
  ]

  -- The calls of `Get` and of `Put`, as a pool counts them.
  pub record Counts : Type 0 where
    pub gets : Pool → ℕ
    pub puts : Pool → ℕ
    pub got : (n : ℕ) (p : Pool) → gets (get n p).1 ≡ gets p + 1
    pub got_puts : (n : ℕ) (p : Pool) → puts (get n p).1 ≡ puts p
    pub put_puts : (s : Bytes) (p : Pool) → puts (put s p) ≡ puts p + 1
    pub put_gets : (s : Bytes) (p : Pool) → gets (put s p) ≡ gets p

  -- The buffers that a result holds.
  abbrev pub held_by : Result Error Encoded → ℕ
  held_by (ok (pooled s)) = 1
  held_by _ = 0

  -- What is taken from the pool between `p` and `q` is given back, or held by the result.
  abbrev pub Balanced : Counts → Pool → Pool → ℕ → Type 0
  Balanced c p q held = c.gets q + c.puts p ≡ c.gets p + c.puts q + held

  marshaled_pooled-Balanced :
      (c : Counts) (size : ℕ) (behind : Bytes) (r : Bytes × Result Error ℕ) (p q : Pool)
      → Balanced c p q 1
      → Balanced c p
          (marshaled_pooled mem size behind r q).1
          (held_by (marshaled_pooled mem size behind r q).0)
  unfolding marshaled_pooled
  marshaled_pooled-Balanced c size behind (buffer, err e) p q h =
      omega (arith, c.put_puts (buffer ++ behind) q, c.put_gets (buffer ++ behind) q)
  marshaled_pooled-Balanced c size behind (buffer, ok written) p q h =
      elim (Bool-cases (written == size)) [
        | inl same ↦ rw same h
        | inr other ↦
            rw other
              (omega (arith, c.put_puts (buffer ++ behind) q, c.put_gets (buffer ++ behind) q))
      ]

  marshaled_slice-held :
      (size : ℕ) (r : Bytes × Result Error ℕ) → held_by (marshaled_slice mem size r) ≡ 0
  unfolding marshaled_slice
  marshaled_slice-held size (buffer, err e) = refl
  marshaled_slice-held size (buffer, ok written) = elim (Bool-cases (written == size)) [
    | inl same ↦ rw same refl
    | inr other ↦ rw other refl
  ]

  -- A buffer that `Marshal` takes from a pool that counts its calls is either given back once, or
  -- held by the result that is returned; an error holds none.
  pub marshal-Balanced :
      (c : Counts) (value : Option VtMessage) (p : Pool)
      → Balanced c p (marshal mem value p).1 (held_by (marshal mem value p).0)
  unfolding marshal marshal_message
  marshal-Balanced c none p = omega arith
  marshal-Balanced c (some m) p = elim (Bool-cases (below_threshold m.size)) [
    | inl small ↦
        rw small (omega (arith, marshaled_slice-held m.size (m.marshal_to (replicate m.size 0))))
    | inr large ↦ rw large (
        marshaled_pooled-Balanced c m.size (drop m.size (get m.size p).0)
          (m.marshal_to (take m.size (get m.size p).0)) p (get m.size p).1
          (omega (arith, c.got m.size p, c.got_puts m.size p)))
  ]

abbrev pub join : List Bytes → Bytes
join [] = []
join (s ∷ chunks) = s ++ join chunks

module _ (mem : Memory) where
  open mem use {Pool, materialize}

  -- For a message as in the equivalence with its encoding, and such a pool, if `Marshal` succeeds
  -- and its bytes arrive in chunks, then `Unmarshal` hands the encoding of the message to the
  -- receiver and returns what the receiver returns for it.
  pub unmarshal-marshal :
      (m r : VtMessage) (w : Writes m) (p q : Pool) (e : Encoded) (chunks : List Bytes)
      → Supplies mem
      → ((parts : List Bytes) (o : Pool) → (materialize parts o).0 ≡ join parts)
      → (marshal mem (some m) p).0 ≡ ok e
      → join chunks ≡ bytes_of e
      → (out : Bytes) × (w.encoding ≡ ok out)
        × ((unmarshal mem chunks (some r) q).0 ≡ r.unmarshal out)
  unfolding unmarshal
  unmarshal-marshal m r w p q e chunks supplies joins done same =
      let encoded : ok (bytes_of e) ≡ sized m.size w.encoding =
        ap (map_ok bytes_of) (sym done) ∙ marshal-sized mem m w p supplies in
      let (out, here, k) = sized-eq-ok m.size w.encoding (sym encoded) in
      (out, here, ap r.unmarshal (joins chunks q ∙ same ∙ k))
