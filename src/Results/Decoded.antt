-- ===== src/Results/Decoded.antt =====
-- What a successful decoding gives, for each kind of response.
use sink_go.Base.{
  ℕ, ◌<◌, map, All, length-map, replicate, ◌≡◌, refl, subst, true, false, not, Option, some, List,
  arith, length, get_elem?, ok, fail_if, >>=-eq-ok, ok_eq, fail_if-eq-ok, ◌==◌,
}
use sink_go.Libraries.{Libraries}
use sink_go.Proto as Proto
use sink_go.Proto.Enums.{is_applied}
use sink_go.Types.Documents.{zero_document}
use sink_go.Results.{
  read_result, write_document, write_failure, write_result, delete_failure, delete_result,
  decode_items, decode_read_response, decode_write_response, decode_delete_response,
}
use sink_go.Results.Fits.{
  FailureFits, read_failed, write_failed, delete_failed, read_result-fits, write_failure-fits,
  delete_failure-fits, write_document-fits,
}
use sink_go.Results.Loop.Accepts.{Distinct, Converts, decode_fresh_accepts}
use sink_go.Results.Loop.Sound.{decode_loop-covers}
use sink_go.Types.Outcomes.{
  ReadResult, WriteResult, DeleteResult, zero_read_result, zero_write_result, zero_delete_result,
}

-- The result of operation `i` is read from the one result of the response that names `i`.
pub record ReadAnswer (items : List (Option Proto.ReadResult)) (i : ℕ) (s : ReadResult)
    : Type 0 where
  pub place : ℕ
  pub reply : Proto.ReadResult
  pub found_at : get_elem? items place ≡ some (some reply)
  pub names : reply.operation_index ≡ i
  pub index : s.operation_index ≡ i
  pub status : s.status ≡ reply.status
  pub failure : FailureFits (read_failed reply.status) i s.failure

pub record WriteAnswer (items : List (Option Proto.WriteResult)) (i : ℕ) (s : WriteResult)
    : Type 0 where
  pub place : ℕ
  pub reply : Proto.WriteResult
  pub found_at : get_elem? items place ≡ some (some reply)
  pub names : reply.operation_index ≡ i
  pub index : s.operation_index ≡ i
  pub status : s.status ≡ reply.status
  pub failure : FailureFits (write_failed reply.status) i s.failure
  pub document : is_applied reply.status ≡ false → s.document ≡ zero_document

pub record DeleteAnswer (items : List (Option Proto.DeleteResult)) (i : ℕ) (s : DeleteResult)
    : Type 0 where
  pub place : ℕ
  pub reply : Proto.DeleteResult
  pub found_at : get_elem? items place ≡ some (some reply)
  pub names : reply.operation_index ≡ i
  pub index : s.operation_index ≡ i
  pub status : s.status ≡ reply.status
  pub failure : FailureFits (delete_failed reply.status) i s.failure

-- One answer for each operation, in the order of the operations.
abbrev pub Answers : {S : Type 0} → (ℕ → S → Type 0) → ℕ → List S → Type 0
Answers {S} Answer n out =
    (length out ≡ n) × ((i : ℕ) → i < n → (s : S) × (get_elem? out i ≡ some s) × Answer i s)

pub Answers-map :
    {S : Type 0} {P Q : ℕ → S → Type 0} (n : ℕ) (out : List S)
    → ((i : ℕ) (s : S) → P i s → Q i s)
    → Answers P n out
    → Answers Q n out
Answers-map n out f (e, h) = (e, λ i lt. let (s, at, p) = h i lt in (s, at, f i s p))

module _ (lib : Libraries) where
  write_answer :
      (items : List (Option Proto.WriteResult)) (i j : ℕ) (r : Proto.WriteResult) (s : WriteResult)
      → get_elem? items j ≡ some (some r)
      → r.operation_index ≡ i
      → write_result lib i r ≡ ok s
      → WriteAnswer items i s
  unfolding write_result
  write_answer items i j r s at names converted =
      let (d, hd, h) =
        >>=-eq-ok (write_document lib (is_applied r.status) r.document) _ converted in
      let (f, hf, e) = >>=-eq-ok (write_failure lib r.status i r.failure) _ h in
      subst (WriteAnswer items i) (ok_eq e) (record {
        place = j;
        reply = r;
        found_at = at;
        names = names;
        index = refl;
        status = refl;
        failure = write_failure-fits lib i r.status r.failure hf;
        document = λ uncommitted. (write_document-fits lib i r.status r.document hd uncommitted).1;
      })

  delete_answer :
      (items : List (Option Proto.DeleteResult)) (i j : ℕ) (r : Proto.DeleteResult)
      (s : DeleteResult)
      → get_elem? items j ≡ some (some r)
      → r.operation_index ≡ i
      → delete_result lib i r ≡ ok s
      → DeleteAnswer items i s
  unfolding delete_result
  delete_answer items i j r s at names converted =
      let (f, hf, e) = >>=-eq-ok (delete_failure lib r.status i r.failure) _ converted in
      subst (DeleteAnswer items i) (ok_eq e) (record {
        place = j;
        reply = r;
        found_at = at;
        names = names;
        index = refl;
        status = refl;
        failure = delete_failure-fits lib i r.status r.failure hf;
      })

  -- A read response that decodes for `n` operations gives `n` results. The result at place `i`
  -- comes from an item of the response, at any place, that names operation `i`; it has its status,
  -- the index `i`, and a failure about `i` with a code and a message exactly if the status is
  -- failed.
  pub decode_read_response_sound :
      (items : List (Option Proto.ReadResult)) (n : ℕ) {out : List ReadResult}
      → decode_read_response lib (some (record { results = items })) n ≡ ok out
      → Answers (ReadAnswer items) n out
  unfolding decode_read_response decode_items read_result
  decode_read_response_sound items n {out} h =
      let (u, hc, h') = >>=-eq-ok (fail_if (not (length items == n)) _) _ h in
      let e = fail_if-eq-ok (not (length items == n)) _ hc in
      Answers-map n out
        (λ i s (j, r, at, names, converted).
          let (index, status, failure) = read_result-fits lib i r.status r converted in
          record {
            place = j;
            reply = r;
            found_at = at;
            names = names;
            index = index;
            status = status;
            failure = failure;
          })
        (decode_loop-covers _ _ _ items n zero_read_result (ground arith) h')

  -- A write response that decodes for `n` operations gives `n` results. The result at place `i`
  -- comes from an item that names operation `i`; it has its status, the index `i`, a failure about
  -- `i` with a code and a message exactly if the status says so, and no document unless the write
  -- was applied.
  pub decode_write_response_sound :
      (items : List (Option Proto.WriteResult)) (n : ℕ) {out : List WriteResult}
      → decode_write_response lib (some (record { results = items })) n ≡ ok out
      → Answers (WriteAnswer items) n out
  unfolding decode_write_response decode_items
  decode_write_response_sound items n {out} h =
      let (u, hc, h') = >>=-eq-ok (fail_if (not (length items == n)) _) _ h in
      let e = fail_if-eq-ok (not (length items == n)) _ hc in
      Answers-map n out
        (λ i s (j, r, at, names, converted). write_answer items i j r s at names converted)
        (decode_loop-covers _ _ _ items n zero_write_result (ground arith) h')

  -- A delete response that decodes for `n` operations gives `n` results. The result at place `i`
  -- comes from an item that names operation `i`; it has its status, the index `i`, and a failure
  -- about `i` with a code and a message exactly if the status is failed.
  pub decode_delete_response_sound :
      (items : List (Option Proto.DeleteResult)) (n : ℕ) {out : List DeleteResult}
      → decode_delete_response lib (some (record { results = items })) n ≡ ok out
      → Answers (DeleteAnswer items) n out
  unfolding decode_delete_response decode_items
  decode_delete_response_sound items n {out} h =
      let (u, hc, h') = >>=-eq-ok (fail_if (not (length items == n)) _) _ h in
      let e = fail_if-eq-ok (not (length items == n)) _ hc in
      Answers-map n out
        (λ i s (j, r, at, names, converted). delete_answer items i j r s at names converted)
        (decode_loop-covers _ _ _ items n zero_delete_result (ground arith) h')

  -- A read response that names each of its operations once, in any order, and whose items convert,
  -- decodes without an error.
  pub decode_read_response_accepts :
      (rs : List Proto.ReadResult)
      → Distinct (map (λ (r : Proto.ReadResult). r.operation_index) rs)
      → All
          (Converts "Read"
            (λ (r : Proto.ReadResult). r.operation_index)
            (read_result lib)
            (length rs))
          rs
      → (out : List ReadResult) × (decode_read_response lib
            (some (record { results = map some rs }))
            (length rs)
          ≡ ok out)
  unfolding decode_read_response decode_items
  decode_read_response_accepts rs d c =
      let counted : (length (map some rs) == length rs) ≡ true =
        ground (arith, length-map rs (λ (r : Proto.ReadResult). some r)) in
      let (out, h) =
        decode_fresh_accepts "Read" (λ (r : Proto.ReadResult). r.operation_index) (read_result lib)
          rs (length rs) (replicate (length rs) zero_read_result) d c in
      (out, rw counted h)
