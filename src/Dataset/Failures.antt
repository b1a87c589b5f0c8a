-- ===== src/Dataset/Failures.antt =====
-- dataset.go: the errors of a call and the failures of its results.
use sink_go.Base.{
  ℕ, suc, length, Bytes, >>=-eq-ok, ok_eq, wrap_err, ◌≡◌, refl, ap, sym, ◌∙◌, Option, none, some,
  List, [], ◌∷◌, String, All, Result, ok, err,
}
use sink_go.Dataset.{
  Dataset, joined, joined_error, read_addresses, dataset_read, dataset_write, key_addresses,
}
use sink_go.Client.Config.Usable.{IsUsable}
use sink_go.Client.Writes.Delivery.{write_records-Finished}
use sink_go.Client.Reads.Batches.{read_records-Finished}
use sink_go.Errors.{wrap_index, Error, OperationError}
use sink_go.Floats.{Floats}
use sink_go.Libraries.{Libraries}
use sink_go.Network.{Network}
use sink_go.Proto.Enums.{CompletionMode}
use sink_go.Types.Keys.{Key, Address, new_record_address}
use sink_go.Types.Operations.{WriteOperation}
use sink_go.Types.Outcomes.{
  add_failure, ReadResult, WriteResult, new_batch_error, read_failures, write_failures,
  read_results_error, write_results_error,
}

new_batch_error-none : (fs : List OperationError) → new_batch_error fs ≡ none → fs ≡ []
unfolding new_batch_error
new_batch_error-none [] h = refl
new_batch_error-none (f ∷ fs) h = absurd (cc)

add_failure-none :
    (f : Option OperationError) (fs : List OperationError)
    → add_failure f fs ≡ []
    → (f ≡ none) × (fs ≡ [])
add_failure-none none fs h = (refl, h)
add_failure-none (some g) fs h = absurd (cc)

read_failures-none :
    (rs : List ReadResult) → read_failures rs ≡ [] → All (λ (r : ReadResult). r.failure ≡ none) rs
unfolding read_failures
read_failures-none [] h = tt
read_failures-none (r ∷ rs) h =
    let (e, k) = add_failure-none r.failure (read_failures rs) h in (e, read_failures-none rs k)

write_failures-none :
    (rs : List WriteResult)
    → write_failures rs ≡ []
    → All (λ (r : WriteResult). r.failure ≡ none) rs
unfolding write_failures
write_failures-none [] h = tt
write_failures-none (r ∷ rs) h =
    let (e, k) = add_failure-none r.failure (write_failures rs) h in (e, write_failures-none rs k)

joined_error-none :
    (describe : Error → Error) (e f : Option Error)
    → joined_error describe e f ≡ none
    → (e ≡ none) × (f ≡ none)
unfolding joined_error
joined_error-none describe (some e) (some f) h = absurd (cc)
joined_error-none describe (some e) none h = absurd (cc)
joined_error-none describe none (some f) h = absurd (cc)
joined_error-none describe none none h = (refl, refl)

module _ (lib : Libraries) (fl : Floats) (net : Network fl) where
  open net use {World}

  length-key_addresses :
      (uri : Bytes) (index : ℕ) (keys : List Key) {out : List Address}
      → key_addresses lib fl uri index keys ≡ ok out
      → length out ≡ length keys
  unfolding key_addresses
  length-key_addresses uri index [] h = ap length (sym (ok_eq h))
  length-key_addresses uri index (k ∷ keys) h =
      let (a, ha, h') =
        >>=-eq-ok (wrap_err (wrap_index "dataset read key %d: %w" index) (new_record_address uri k))
          _ h in
      let (rest, hr, e) = >>=-eq-ok (key_addresses lib fl uri (suc index) keys) _ h' in
      ap length (sym (ok_eq e)) ∙ ap suc (length-key_addresses uri (suc index) keys hr)

  read_addresses-none :
      (d : Dataset fl) (w : World) (n : ℕ) (addresses : Result Error (List Address))
      → IsUsable d.client.config
      → ((out : List Address) → addresses ≡ ok out → length out ≡ n)
      → (read_addresses lib fl net d w addresses).1 ≡ none
      → (length (read_addresses lib fl net d w addresses).0 ≡ n)
        × All (λ (r : ReadResult). r.failure ≡ none) (read_addresses lib fl net d w addresses).0
  unfolding read_addresses joined read_results_error
  read_addresses-none d w n (err e) usable sized h = absurd (cc)
  read_addresses-none d w n (ok addresses) usable sized h =
      let (e, f) = joined_error-none _ _ _ h in
      let (answers, most, all) = read_records-Finished lib fl net d.client addresses w usable in
      (all e ∙ sized addresses refl, read_failures-none _ (new_batch_error-none _ f))

  -- If the client of a dataset has a usable configuration and `Dataset.Read` returns no error,
  -- then it returns one result for every key, and none of them has a failure.
  pub dataset_read-none :
      (d : Dataset fl) (keys : List Key) (w : World)
      → IsUsable d.client.config
      → (dataset_read lib fl net (some d) keys w).1 ≡ none
      → (length (dataset_read lib fl net (some d) keys w).0 ≡ length keys)
        × All (λ (r : ReadResult). r.failure ≡ none) (dataset_read lib fl net (some d) keys w).0
  unfolding dataset_read
  dataset_read-none d keys w usable h =
      read_addresses-none d w (length keys) (key_addresses lib fl d.uri 0 keys) usable
        (λ out e. length-key_addresses d.uri 0 keys e) h

  -- If the client of a dataset has a usable configuration and the operations that a dataset writes
  -- come back without an error, then there is one result for every operation, and none of them has
  -- a failure.
  pub dataset_write-none :
      (operation : String) (mode : CompletionMode) (w : World) (d : Dataset fl)
      (operations : List WriteOperation)
      → IsUsable d.client.config
      → (dataset_write lib fl net operation mode w (ok (d, operations))).1 ≡ none
      → (length (dataset_write lib fl net operation mode w (ok (d, operations))).0
          ≡ length operations)
        × All
            (λ (r : WriteResult). r.failure ≡ none)
            (dataset_write lib fl net operation mode w (ok (d, operations))).0
  unfolding dataset_write joined write_results_error
  dataset_write-none operation mode w d operations usable h =
      let (e, f) = joined_error-none _ _ _ h in
      let (answers, most, all) =
        write_records-Finished lib fl net d.client mode operations w usable in
      (all e, write_failures-none _ (new_batch_error-none _ f))
