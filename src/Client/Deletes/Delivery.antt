-- ===== src/Client/Deletes/Delivery.antt =====
-- client.go: the results of `Delete`, and what it submits.
use sink_go.Base.{
  ℕ, suc, ◌+◌, ◌<◌, ◌≤◌, ◌≡◌, refl, sym, ap, ◌∙◌, subst, not, Option, none, some, List, [], ◌∷◌,
  ◌++◌, map, append-nil, arith, length, length-map, Result, ok, err, fail_if, wrap_err, >>=-eq-ok,
  ok_eq,
}
use sink_go.Client.BatchLoop.Ordered.{run_batches-Answers}
use sink_go.Client.BatchLoop.Sent.{run_batches-Submitted}
use sink_go.Client.Config.{Client, to_count, valid_completion_mode, validate_collection}
use sink_go.Client.Config.Usable.{IsUsable, validated}
use sink_go.Client.Deletes.{
  shift_delete, delete_requests, delete_reply, delete_batch, delete_batches, delete_checked,
  delete_submitted, delete_records,
}
use sink_go.Errors.{Error, Status}
use sink_go.Floats.{Floats}
use sink_go.Libraries.{Libraries}
use sink_go.Network.{Network}
use sink_go.Proto as Proto
use sink_go.Proto.Enums.{CompletionMode, DeleteStatus}
use sink_go.Results.{decode_delete_response}
use sink_go.Results.Decoded.{Answers, Answers-map, DeleteAnswer, decode_delete_response_sound}
use sink_go.Results.Fits.{FailureFits, shift_failure-FailureFits, delete_failed}
use sink_go.Types.Keys.{Address, validate_address}
use sink_go.Types.Operations.{address_to_proto}
use sink_go.Types.Outcomes.{DeleteResult}

-- The result is that of operation `i`: by its index, and by its failure, which is there exactly if
-- the status says so.
pub record Placed (i : ℕ) (s : DeleteResult) : Type 0 where
  pub index : s.operation_index ≡ i
  pub failure : FailureFits (delete_failed s.status) i s.failure

shift_delete-Placed :
    (offset i : ℕ) (r : DeleteResult) → Placed i r → Placed (i + offset) (shift_delete offset r)
shift_delete-Placed offset i r p = record {
  index = ap (λ k. k + offset) p.index;
  failure = shift_failure-FailureFits offset (delete_failed r.status) i r.failure p.failure;
}

DeleteAnswer-Placed :
    (items : List (Option Proto.DeleteResult)) (i : ℕ) (s : DeleteResult)
    → DeleteAnswer items i s
    → Placed i s
DeleteAnswer-Placed items i s a = record {
  index = a.index;
  failure =
      subst (λ (t : DeleteStatus). FailureFits (delete_failed t) i s.failure) (sym a.status)
        a.failure;
}

map_id {ℓ} : {A : Type ℓ} (xs : List A) → map (λ (x : A). x) xs ≡ xs
map_id [] = refl
map_id (x ∷ xs) = ap (λ l. x ∷ l) (map_id xs)

abbrev pub request_of : Address → Proto.DeleteOperation
request_of a = record { address = address_to_proto a }

delete_requests-map :
    (i : ℕ) (addresses : List Address) (ops : List Proto.DeleteOperation)
    → delete_requests i addresses ≡ ok ops
    → map request_of addresses ≡ ops
unfolding delete_requests
delete_requests-map i [] ops h = ok_eq h
delete_requests-map i (a ∷ addresses) ops h =
    let (u, hv, h') = >>=-eq-ok (wrap_err _ (validate_address a)) _ h in
    let (rest, hr, same) = >>=-eq-ok (delete_requests (suc i) addresses) _ h' in
    ap (λ l. request_of a ∷ l) (delete_requests-map (suc i) addresses rest hr) ∙ ok_eq same

-- The results are those of the first operations, in order; without an error, of all `n`.
abbrev pub Finished {ι} : {W : Type ι} → ℕ → List DeleteResult × Option Error × W → Type 0
Finished n (out, e, w) =
    Answers Placed (length out) out × (length out ≤ n) × (e ≡ none → length out ≡ n)

module _ (lib : Libraries) (fl : Floats) (net : Network fl) where
  open net use {World, delete}

  decoded-Answers :
      (response : Option Proto.DeleteResponse) (n : ℕ) (out : List DeleteResult)
      → decode_delete_response lib response n ≡ ok out
      → Answers Placed n out
  decoded-Answers none n out h = absurd (unfold decode_delete_response in cc)
  decoded-Answers (some response) n out h =
      Answers-map n out (DeleteAnswer-Placed response.results)
        (decode_delete_response_sound lib response.results n h)

  delete_reply-Answers :
      (n : ℕ) (reply : Result Status (Option Proto.DeleteResponse)) (out : List DeleteResult)
      → delete_reply lib fl net n reply ≡ ok out
      → Answers Placed n out
  unfolding delete_reply
  delete_reply-Answers n (err st) out h = absurd (cc)
  delete_reply-Answers n (ok response) out h = decoded-Answers response n out h

  -- A request that passes the validation has one operation for every address, in order.
  delete_checked-lem :
      (c : Client fl) (mode : CompletionMode) (addresses : List Address) (d : Client fl)
      → (ops : List Proto.DeleteOperation)
      → delete_checked lib fl net (some c) mode addresses ≡ ok (d, ops)
      → (c ≡ d) × (map request_of addresses ≡ ops)
  unfolding delete_checked
  delete_checked-lem c mode addresses d ops h =
      let (e, hv, k) = >>=-eq-ok (validate_collection (some c) "delete" (length addresses)) _ h in
      let (u, hm, k') = >>=-eq-ok (fail_if (not (valid_completion_mode mode)) _) _ k in
      let (requests, hr, same) = >>=-eq-ok (delete_requests 0 addresses) _ k' in
      (
        validated c "delete" (length addresses) e hv
            ∙ ap (λ (p : Client fl × List Proto.DeleteOperation). p.0) (ok_eq same),
        delete_requests-map 0 addresses requests hr
            ∙ ap (λ (p : Client fl × List Proto.DeleteOperation). p.1) (ok_eq same),
      )

  delete_submitted-Finished :
      (mode : CompletionMode) (n : ℕ) (w : World)
      → (checked : Result Error (Client fl × List Proto.DeleteOperation))
      → ((c : Client fl) (ops : List Proto.DeleteOperation)
          → checked ≡ ok (c, ops)
          → (0 < to_count c.config.max_operations) × (length ops ≡ n))
      → Finished n (delete_submitted lib fl net mode w checked)
  unfolding delete_submitted delete_batches delete_batch
  delete_submitted-Finished mode n w (err e) good =
      ((refl, λ i lt. absurd (omega arith)), omega arith, λ h. absurd (cc))
  delete_submitted-Finished mode n w (ok (c, ops)) good =
      subst (λ k. Finished k (delete_submitted lib fl net mode w (ok (c, ops)))) (good c ops refl).1
        (run_batches-Answers Placed shift_delete shift_delete-Placed (delete_batch lib fl net mode)
          (to_count c.config.max_operations) (good c ops refl).0
          (λ batch w' out h. delete_reply-Answers (length batch) _ out h) ops w)

  -- With a usable configuration, `Delete` returns results for the addresses from the first on, in
  -- order, also next to an error; without an error there is one for every address. Each result has
  -- the index of its address, and a failure exactly if its status is failed.
  pub delete_records-Finished :
      (c : Client fl) (mode : CompletionMode) (addresses : List Address) (w : World)
      → IsUsable c.config
      → Finished (length addresses) (delete_records lib fl net (some c) mode addresses w)
  unfolding delete_records
  delete_records-Finished c mode addresses w usable =
      delete_submitted-Finished mode (length addresses) w
        (delete_checked lib fl net (some c) mode addresses)
        λ d ops e.
          let (same, requests) = delete_checked-lem c mode addresses d ops e in
          (
            subst (λ (x : Client fl). 0 < to_count x.config.max_operations) same usable.batches,
            ap length (sym requests) ∙ length-map addresses request_of,
          )

  module _ (sent : World → List Proto.DeleteOperation)
      (logged : (request : Proto.DeleteRequest) (w : World)
        → sent (delete request w).1 ≡ sent w ++ request.operations) where
    -- Of the operations, `done` were submitted, in order and each once, and `rest` never.
    pub record Delivered (ops : List Proto.DeleteOperation) (w : World)
        (r : List DeleteResult × Option Error × World) : Type 0 where
      pub done : List Proto.DeleteOperation
      pub rest : List Proto.DeleteOperation
      pub parts : ops ≡ done ++ rest
      pub log : sent r.2 ≡ sent w ++ done
      pub complete : r.1 ≡ none → rest ≡ []

    delete_submitted-Delivered :
        (mode : CompletionMode) (all : List Proto.DeleteOperation) (w : World)
        → (checked : Result Error (Client fl × List Proto.DeleteOperation))
        → ((c : Client fl) (ops : List Proto.DeleteOperation)
            → checked ≡ ok (c, ops)
            → (0 < to_count c.config.max_operations) × (all ≡ ops))
        → Delivered all w (delete_submitted lib fl net mode w checked)
    unfolding delete_submitted delete_batches delete_batch
    delete_submitted-Delivered mode all w (err e) good = record {
      done = [];
      rest = all;
      parts = refl;
      log = sym (append-nil (sent w));
      complete = λ h. absurd (cc);
    }
    delete_submitted-Delivered mode all w (ok (c, ops)) good =
        let (positive, same) = good c ops refl in
        let s =
          run_batches-Submitted (delete_batch lib fl net mode) shift_delete
            (to_count c.config.max_operations) positive sent (λ (o : Proto.DeleteOperation). o)
            (λ batch w'.
              logged (record { completion_mode = mode; operations = batch }) w'
              ∙ ap (λ l. sent w' ++ l) (sym (map_id batch)))
            (length ops) 0 ops [] w (omega arith) in
        record {
          done = s.done;
          rest = s.rest;
          parts = same ∙ s.parts;
          log = s.log ∙ ap (λ l. sent w ++ l) (map_id s.done);
          complete = s.complete;
        }

    -- With a usable configuration and a server whose log grows by the operations of each delete
    -- request, `Delete` submits the operations of a first part of the addresses, in order and each
    -- once, and the rest never; without an error it submits all of them. This holds whatever the
    -- server replies.
    pub delete_records-Delivered :
        (c : Client fl) (mode : CompletionMode) (addresses : List Address) (w : World)
        → IsUsable c.config
        → Delivered
            (map request_of addresses)
            w
            (delete_records lib fl net (some c) mode addresses w)
    unfolding delete_records
    delete_records-Delivered c mode addresses w usable =
        delete_submitted-Delivered mode (map request_of addresses) w
          (delete_checked lib fl net (some c) mode addresses)
          λ d ops e.
            let (same, requests) = delete_checked-lem c mode addresses d ops e in
            (
              subst (λ (x : Client fl). 0 < to_count x.config.max_operations) same usable.batches,
              requests,
            )
