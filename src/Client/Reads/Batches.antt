-- ===== src/Client/Reads/Batches.antt =====
-- client.go: the results of `Read` over its batches.
use sink_go.Base.{
  ℕ, suc, ◌+◌, ◌≤◌, ◌≡◌, refl, sym, ap, ◌∙◌, subst, Option, none, some, List, [], ◌∷◌, arith,
  length, Result, ok, err, >>=-eq-ok, ok_eq, wrap_err, wrap_err-eq-ok,
}
use sink_go.Client.Config.{Client, ClientConfig, validate_collection, to_count}
use sink_go.Client.Config.Usable.{IsUsable, validated}
use sink_go.Client.BatchLoop.Ordered.{run_batches-Answers}
use sink_go.Client.Reads.{
  shift_read, read_requests, read_batch, read_batches, read_submitted, read_checked, read_records,
}
use sink_go.Client.Reads.Rounds.{Placed, read_operations_with_retry-Gives}
use sink_go.Errors.{Error, wrap_index}
use sink_go.Floats.{Floats}
use sink_go.Libraries.{Libraries}
use sink_go.Network.{Network}
use sink_go.Proto as Proto
use sink_go.Results.Decoded.{Answers}
use sink_go.Results.Fits.{shift_failure-FailureFits, read_failed}
use sink_go.Types.Keys.{Address, validate_address}
use sink_go.Types.Outcomes.{ReadResult}

shift_read-Placed :
    (offset i : ℕ) (r : ReadResult) → Placed i r → Placed (i + offset) (shift_read offset r)
shift_read-Placed offset i r p = record {
  index = ap (λ k. k + offset) p.index;
  failure = shift_failure-FailureFits offset (read_failed r.status) i r.failure p.failure;
}

length-read_requests :
    (index : ℕ) (addresses : List Address) {ops : List Proto.ReadOperation}
    → read_requests index addresses ≡ ok ops
    → length ops ≡ length addresses
unfolding read_requests
length-read_requests index [] h = ap length (sym (ok_eq h))
length-read_requests index (a ∷ addresses) h =
    let (u, hv, h') =
      >>=-eq-ok (wrap_err (wrap_index "read operation %d: %w" index) (validate_address a)) _ h in
    let (rest, hr, e) = >>=-eq-ok (read_requests (suc index) addresses) _ h' in
    ap length (sym (ok_eq e)) ∙ ap suc (length-read_requests (suc index) addresses hr)

-- The results are those of the first operations, in order; without an error, of all `n`.
abbrev pub Finished {ι} : {W : Type ι} → ℕ → List ReadResult × Option Error × W → Type 0
Finished n (out, e, w) =
    Answers Placed (length out) out × (length out ≤ n) × (e ≡ none → length out ≡ n)

module _ (lib : Libraries) (fl : Floats) (net : Network fl) where
  open net use {World}

  read_batches-Answers :
      (config : ClientConfig fl) (ops : List Proto.ReadOperation) (w : World)
      → IsUsable config
      → Finished (length ops) (read_batches lib fl net config ops w)
  unfolding read_batches read_batch
  read_batches-Answers config ops w usable =
      run_batches-Answers Placed shift_read shift_read-Placed (read_batch lib fl net config)
        (to_count config.max_operations) usable.batches
        (λ batch w' out h.
          read_operations_with_retry-Gives lib fl net config.read_retry batch w'
            usable.reads.attempts out (wrap_err-eq-ok _ _ h))
        ops w

  refused-Finished : (n : ℕ) (e : Error) (w : World) → Finished n ([], some e, w)
  refused-Finished n e w = ((refl, λ i lt. absurd (omega arith)), omega arith, λ h. absurd (cc))

  read_submitted-Finished :
      (c : Client fl) (n : ℕ) (w : World) (ops : Result Error (List Proto.ReadOperation))
      → IsUsable c.config
      → ((sent : List Proto.ReadOperation) → ops ≡ ok sent → length sent ≡ n)
      → Finished n (read_submitted lib fl net c w ops)
  unfolding read_submitted
  read_submitted-Finished c n w (err e) usable sized = refused-Finished n e w
  read_submitted-Finished c n w (ok ops) usable sized =
      subst (λ m. Finished m (read_batches lib fl net c.config ops w)) (sized ops refl)
        (read_batches-Answers c.config ops w usable)

  read_checked-Finished :
      (addresses : List Address) (w : World) (checked : Result Error (Client fl))
      → ((c : Client fl) → checked ≡ ok c → IsUsable c.config)
      → Finished (length addresses) (read_checked lib fl net addresses w checked)
  unfolding read_checked
  read_checked-Finished addresses w (err e) usable = refused-Finished (length addresses) e w
  read_checked-Finished addresses w (ok c) usable =
      read_submitted-Finished c (length addresses) w (read_requests 0 addresses) (usable c refl)
        (λ ops h. length-read_requests 0 addresses h)

  -- With a usable configuration, `Read` returns results for the addresses from the first on, in
  -- order, also next to an error; without an error there is one for every address. Each result has
  -- the index of its address, and a failure exactly if its status is failed. This holds whatever
  -- the servers reply and however often a batch is retried.
  pub read_records-Finished :
      (c : Client fl) (addresses : List Address) (w : World)
      → IsUsable c.config
      → Finished (length addresses) (read_records lib fl net (some c) addresses w)
  unfolding read_records
  read_records-Finished c addresses w usable =
      read_checked-Finished addresses w (validate_collection (some c) "read" (length addresses))
        (λ d e.
          subst (λ (x : Client fl). IsUsable x.config) (validated c "read" (length addresses) d e)
            usable)
