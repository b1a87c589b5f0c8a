-- ===== src/Client/Writes/Delivery.antt =====
-- client.go: the results of `Write`, and what it submits.
use sink_go.Base.{
  ℕ, ◌+◌, ◌<◌, ◌≤◌, ◌≡◌, refl, sym, ap, ◌∙◌, subst, false, not, Option, none, some, List, [], ◌++◌,
  map, append-nil, arith, length, Result, ok, err, fail_if, >>=-eq-ok, ok_eq,
}
use sink_go.Client.BatchLoop.Ordered.{run_batches-Answers}
use sink_go.Client.BatchLoop.Sent.{run_batches-Submitted}
use sink_go.Client.Config.{Client, to_count, valid_completion_mode, validate_collection}
use sink_go.Client.Config.Usable.{IsUsable, validated}
use sink_go.Client.Writes.{
  write_request, check_documents, shift_write, write_reply, write_batch, write_batches,
  validate_writes, write_checked, write_submitted, write_records,
}
use sink_go.Errors.{Error, Status}
use sink_go.Floats.{Floats}
use sink_go.Libraries.{Libraries}
use sink_go.Network.{Network}
use sink_go.Proto as Proto
use sink_go.Proto.Enums.{CompletionMode, is_applied, WriteStatus}
use sink_go.Results.{decode_write_response}
use sink_go.Results.Decoded.{Answers, Answers-map, WriteAnswer, decode_write_response_sound}
use sink_go.Results.Fits.{FailureFits, shift_failure-FailureFits, write_failed}
use sink_go.Types.Documents.{zero_document}
use sink_go.Types.Operations.{WriteOperation, operation_to_proto}
use sink_go.Types.Outcomes.{WriteResult}

-- The result is that of operation `i`: by its index, by its failure, which is there exactly if the
-- status says so, and with a document only if the write was applied.
pub record Placed (i : ℕ) (s : WriteResult) : Type 0 where
  pub index : s.operation_index ≡ i
  pub failure : FailureFits (write_failed s.status) i s.failure
  pub document : is_applied s.status ≡ false → s.document ≡ zero_document

shift_write-Placed :
    (offset i : ℕ) (r : WriteResult) → Placed i r → Placed (i + offset) (shift_write offset r)
shift_write-Placed offset i r p = record {
  index = ap (λ k. k + offset) p.index;
  failure = shift_failure-FailureFits offset (write_failed r.status) i r.failure p.failure;
  document = p.document;
}

WriteAnswer-Placed :
    (items : List (Option Proto.WriteResult)) (i : ℕ) (s : WriteResult)
    → WriteAnswer items i s
    → Placed i s
WriteAnswer-Placed items i s a = record {
  index = a.index;
  failure =
      subst (λ (t : WriteStatus). FailureFits (write_failed t) i s.failure) (sym a.status)
        a.failure;
  document = λ e. a.document (ap is_applied (sym a.status) ∙ e);
}

-- The results are those of the first operations, in order; without an error, of all `n`.
abbrev pub Finished {ι} : {W : Type ι} → ℕ → List WriteResult × Option Error × W → Type 0
Finished n (out, e, w) =
    Answers Placed (length out) out × (length out ≤ n) × (e ≡ none → length out ≡ n)

module _ (lib : Libraries) (fl : Floats) (net : Network fl) where
  open net use {World, write}

  decoded-Answers :
      (response : Option Proto.WriteResponse) (n : ℕ) (out : List WriteResult)
      → decode_write_response lib response n ≡ ok out
      → Answers Placed n out
  decoded-Answers none n out h = absurd (unfold decode_write_response in cc)
  decoded-Answers (some response) n out h =
      Answers-map n out (WriteAnswer-Placed response.results)
        (decode_write_response_sound lib response.results n h)

  write_reply-Answers :
      (ops : List WriteOperation) (reply : Result Status (Option Proto.WriteResponse))
      (out : List WriteResult)
      → write_reply lib fl net ops reply ≡ ok out
      → Answers Placed (length ops) out
  unfolding write_reply
  write_reply-Answers ops (err st) out h = absurd (cc)
  write_reply-Answers ops (ok response) out h =
      let (results, hd, h') = >>=-eq-ok (decode_write_response lib response (length ops)) _ h in
      let (u, hc, e) = >>=-eq-ok (check_documents ops results) _ h' in
      subst (Answers Placed (length ops)) (ok_eq e)
        (decoded-Answers response (length ops) results hd)

  write_submitted-Finished :
      (mode : CompletionMode) (ops : List WriteOperation) (w : World)
      (checked : Result Error (Client fl))
      → ((c : Client fl) → checked ≡ ok c → 0 < to_count c.config.max_operations)
      → Finished (length ops) (write_submitted lib fl net mode ops w checked)
  unfolding write_submitted write_batches write_batch
  write_submitted-Finished mode ops w (err e) positive =
      ((refl, λ i lt. absurd (omega arith)), omega arith, λ h. absurd (cc))
  write_submitted-Finished mode ops w (ok c) positive =
      run_batches-Answers Placed shift_write shift_write-Placed (write_batch lib fl net mode)
        (to_count c.config.max_operations) (positive c refl)
        (λ batch w' out h. write_reply-Answers batch _ out h) ops w

  pub write_checked-same :
      (c : Client fl) (mode : CompletionMode) (ops : List WriteOperation) (d : Client fl)
      → write_checked lib fl net (some c) mode ops ≡ ok d
      → c ≡ d
  unfolding write_checked
  write_checked-same c mode ops d h =
      let (e, hv, k) = >>=-eq-ok (validate_collection (some c) "write" (length ops)) _ h in
      let (u, hm, k') = >>=-eq-ok (fail_if (not (valid_completion_mode mode)) _) _ k in
      let (u', ho, same) = >>=-eq-ok (validate_writes lib fl net mode 0 ops) _ k' in
      validated c "write" (length ops) e hv ∙ ok_eq same

  -- With a usable configuration, `Write` returns results for the operations from the first on, in
  -- order, also next to an error; without an error there is one for every operation. Each result
  -- has the index of its operation, a failure exactly if its status says so, and a document only
  -- if the write was applied.
  pub write_records-Finished :
      (c : Client fl) (mode : CompletionMode) (ops : List WriteOperation) (w : World)
      → IsUsable c.config
      → Finished (length ops) (write_records lib fl net (some c) mode ops w)
  unfolding write_records
  write_records-Finished c mode ops w usable =
      write_submitted-Finished mode ops w (write_checked lib fl net (some c) mode ops) (λ d e.
        subst (λ (x : Client fl). 0 < to_count x.config.max_operations)
          (write_checked-same c mode ops d e) usable.batches)

  module _ (sent : World → List Proto.WriteOperation)
      (logged : (request : Proto.WriteRequest) (w : World)
        → sent (write request w).1 ≡ sent w ++ request.operations) where
    -- Of the operations, `done` were submitted, in order and each once, and `rest` never.
    pub record Delivered (ops : List WriteOperation) (w : World)
        (r : List WriteResult × Option Error × World) : Type 0 where
      pub done : List WriteOperation
      pub rest : List WriteOperation
      pub parts : ops ≡ done ++ rest
      pub log : sent r.2 ≡ sent w ++ map operation_to_proto done
      pub complete : r.1 ≡ none → rest ≡ []

    write_submitted-Delivered :
        (mode : CompletionMode) (ops : List WriteOperation) (w : World)
        (checked : Result Error (Client fl))
        → ((c : Client fl) → checked ≡ ok c → 0 < to_count c.config.max_operations)
        → Delivered ops w (write_submitted lib fl net mode ops w checked)
    unfolding write_submitted write_batches write_batch
    write_submitted-Delivered mode ops w (err e) positive = record {
      done = [];
      rest = ops;
      parts = refl;
      log = sym (append-nil (sent w));
      complete = λ h. absurd (cc);
    }
    write_submitted-Delivered mode ops w (ok c) positive =
        let s =
          run_batches-Submitted (write_batch lib fl net mode) shift_write
            (to_count c.config.max_operations) (positive c refl) sent operation_to_proto
            (λ batch w'. unfold write_request in logged (write_request mode batch) w') (length ops)
            0 ops [] w (omega arith) in
        record { done = s.done; rest = s.rest; parts = s.parts; log = s.log; complete = s.complete }

    -- With a usable configuration and a server whose log grows by the operations of each write
    -- request, `Write` submits a first part of the operations, in order and each once, and the
    -- rest never; without an error it submits all of them. This holds whatever the server replies.
    pub write_records-Delivered :
        (c : Client fl) (mode : CompletionMode) (ops : List WriteOperation) (w : World)
        → IsUsable c.config
        → Delivered ops w (write_records lib fl net (some c) mode ops w)
    unfolding write_records
    write_records-Delivered c mode ops w usable =
        write_submitted-Delivered mode ops w (write_checked lib fl net (some c) mode ops) (λ d e.
          subst (λ (x : Client fl). 0 < to_count x.config.max_operations)
            (write_checked-same c mode ops d e) usable.batches)
