-- ===== src/Dataset/Accepted.antt =====
-- dataset.go: the client accepts what a dataset builds for it.
use sink_go.Base.{
  ℕ, suc, ◌<◌, ◌≡◌, refl, sym, ap, subst, ◌∙◌, Bool, true, false, ◌&&◌, Option, some, List, [], ◌∷◌,
  map, arith, length, Bytes, IsBytes, All, String, Result, ok, wrap_err, >>=-eq-ok, wrap_err-eq-ok,
  ok_eq, ◌==◌,
}
use sink_go.Client.Config.{Client, validate_collection, valid_completion_mode}
use sink_go.Client.Reads.{read_requests, read_batches, read_records}
use sink_go.Client.Writes.{validate_writes, write_batches, write_records}
use sink_go.Dataset.{
  Dataset, DatasetRecord, validate_dataset, key_addresses, encode_record, put_record, merge_record,
  record_operations, put_operations, merge_operations, required_program,
}
use sink_go.Errors.{Error, wrap_index, wrap_name_index}
use sink_go.Floats.{Floats}
use sink_go.Libraries.{Libraries}
use sink_go.Network.{Network}
use sink_go.Proto as Proto
use sink_go.Proto.Enums.{CompletionMode, WriteMode, is_return_after_accepted}
use sink_go.Types.Keys.{Key, Address, new_record_address, uri_key, validate_address}
use sink_go.Types.Operations.{WriteOperation, new_put, new_merge, address_to_proto}
use sink_go.Types.Programs.{LuaProgram}
use sink_go.Types.Valid.{IsValid, new_put-IsValid, new_merge-IsValid, new_record_address-validates}

-- `length (x ∷ xs) == 0` is false.
not_empty {ℓ} : {A : Type ℓ} (xs : List A) → 0 < length xs → (length xs == 0) ≡ false
not_empty xs h = ground arith

abbrev pub read_of : Address → Proto.ReadOperation
read_of a = record { address = address_to_proto a }

module _ (lib : Libraries) (fl : Floats) where
  put_record-IsValid :
      (d : Dataset fl) (mode : WriteMode) (r : DatasetRecord lib) {o : WriteOperation}
      → put_record lib fl d mode r ≡ ok o
      → IsValid lib o
  unfolding put_record
  put_record-IsValid d mode r h =
      let ((address, document), he, h') = >>=-eq-ok (encode_record lib fl d r) _ h in
      let (o, ho, e) = >>=-eq-ok (new_put lib address document mode) _ h' in
      subst (IsValid lib) (ok_eq e) (new_put-IsValid lib address document mode r.return_document ho)

  merge_record-IsValid :
      (d : Dataset fl) (p : LuaProgram) (r : DatasetRecord lib) {o : WriteOperation}
      → merge_record lib fl d p r ≡ ok o
      → IsValid lib o
  unfolding merge_record
  merge_record-IsValid d p r h =
      let ((address, document), he, h') = >>=-eq-ok (encode_record lib fl d r) _ h in
      let (o, ho, e) =
        >>=-eq-ok (new_merge lib address (record { incoming = document; program = p })) _ h' in
      subst (IsValid lib) (ok_eq e) (new_merge-IsValid lib address document p r.return_document ho)

  record_operations-IsValid :
      (name : String) (one : DatasetRecord lib → Result Error WriteOperation)
      → ((r : DatasetRecord lib) (o : WriteOperation) → one r ≡ ok o → IsValid lib o)
      → (index : ℕ) (records : List (DatasetRecord lib)) {ops : List WriteOperation}
      → record_operations lib fl name one index records ≡ ok ops
      → All (IsValid lib) ops × (length ops ≡ length records)
  unfolding record_operations
  record_operations-IsValid name one valid index [] h =
      subst (λ ops. All (IsValid lib) ops × (length ops ≡ 0)) (ok_eq h) (tt, refl)
  record_operations-IsValid name one valid index (r ∷ records) h =
      let (o, ho, h') =
        >>=-eq-ok (wrap_err (wrap_name_index "dataset %s record %d: %w" name index) (one r)) _ h in
      let (rest, hr, e) = >>=-eq-ok (record_operations lib fl name one (suc index) records) _ h' in
      let (all, counted) = record_operations-IsValid name one valid (suc index) records hr in
      subst (λ ops. All (IsValid lib) ops × (length ops ≡ length (r ∷ records))) (ok_eq e)
        ((valid r o (wrap_err-eq-ok _ (one r) ho), all), ap suc counted)

module _ (lib : Libraries) (fl : Floats) (net : Network fl) where
  open net use {World}

  validate_writes-IsValid :
      (mode : CompletionMode) (index : ℕ) (ops : List WriteOperation)
      → is_return_after_accepted mode ≡ false
      → All (IsValid lib) ops
      → validate_writes lib fl net mode index ops ≡ ok tt
  unfolding validate_writes
  validate_writes-IsValid mode index [] sync valid = refl
  validate_writes-IsValid mode index (o ∷ ops) sync (h, valid) = rw sync (
      rw (and_false o.return_document)
        (rw h (validate_writes-IsValid mode (suc index) ops sync valid)))
    where
      and_false : (b : Bool) → (b && false) ≡ false
      and_false b = ground arith

  accepted :
      (c : Client fl) (mode : CompletionMode) (ops : List WriteOperation) (w : World)
      → 0 < length ops
      → valid_completion_mode mode ≡ true
      → is_return_after_accepted mode ≡ false
      → All (IsValid lib) ops
      → write_records lib fl net (some c) mode ops w ≡ write_batches lib fl net c.config mode ops w
  unfolding write_records validate_collection
  accepted c mode ops w some_ops known sync valid =
      rw (not_empty ops some_ops)
        (rw known (rw (validate_writes-IsValid mode 0 ops sync valid) refl))

  -- If a dataset builds operations for a create, a replace or an upsert of at least one record,
  -- then there is one for every record, and `Write` with a completion mode that is known and not
  -- `ReturnAfterAccepted` passes them on to its batches: none of its own checks fails.
  pub put_operations-accepted :
      (dataset : Option (Dataset fl)) (write : WriteMode) (name : String)
      (records : List (DatasetRecord lib)) (mode : CompletionMode) (w : World) (d : Dataset fl)
      (ops : List WriteOperation)
      → put_operations lib fl dataset write name records ≡ ok (d, ops)
      → 0 < length records
      → valid_completion_mode mode ≡ true
      → is_return_after_accepted mode ≡ false
      → (write_records lib fl net (some d.client) mode ops w
          ≡ write_batches lib fl net d.client.config mode ops w)
        × (length ops ≡ length records)
  unfolding put_operations
  put_operations-accepted dataset write name records mode w d ops h some_records known sync =
      let (d', hd, h') = >>=-eq-ok (validate_dataset lib fl dataset name) _ h in
      let (ops', ho, e) =
        >>=-eq-ok (record_operations lib fl name (put_record lib fl d' write) 0 records) _ h' in
      let (valid', counted') =
        record_operations-IsValid lib fl name (put_record lib fl d' write)
          (λ r o k. put_record-IsValid lib fl d' write r k) 0 records ho in
      let same : ops' ≡ ops = ap (λ (p : Dataset fl × List WriteOperation). p.1) (ok_eq e) in
      let counted : length ops ≡ length records = ap length (sym same) ∙ counted' in
      (
        accepted d.client mode ops w (omega arith) known sync
            (subst (All (IsValid lib)) same valid'),
        counted,
      )

  -- If a dataset builds operations for a merge of at least one record, then there is one for every
  -- record, and `Write` with a completion mode that is known and not `ReturnAfterAccepted` passes
  -- them on to its batches: none of its own checks fails.
  merge_operations-accepted :
      (dataset : Option (Dataset fl)) (records : List (DatasetRecord lib)) (mode : CompletionMode)
      (w : World) (d : Dataset fl) (ops : List WriteOperation)
      → merge_operations lib fl dataset records ≡ ok (d, ops)
      → 0 < length records
      → valid_completion_mode mode ≡ true
      → is_return_after_accepted mode ≡ false
      → (write_records lib fl net (some d.client) mode ops w
          ≡ write_batches lib fl net d.client.config mode ops w)
        × (length ops ≡ length records)
  unfolding merge_operations
  merge_operations-accepted dataset records mode w d ops h some_records known sync =
      let (d', hd, h') = >>=-eq-ok (validate_dataset lib fl dataset "merge") _ h in
      let (program, hp, h'') = >>=-eq-ok (required_program lib fl d'.merge_program) _ h' in
      let (ops', ho, e) =
        >>=-eq-ok (record_operations lib fl "merge" (merge_record lib fl d' program) 0 records) _
          h'' in
      let (valid', counted') =
        record_operations-IsValid lib fl "merge" (merge_record lib fl d' program)
          (λ r o k. merge_record-IsValid lib fl d' program r k) 0 records ho in
      let same : ops' ≡ ops = ap (λ (p : Dataset fl × List WriteOperation). p.1) (ok_eq e) in
      let counted : length ops ≡ length records = ap length (sym same) ∙ counted' in
      (
        accepted d.client mode ops w (omega arith) known sync
            (subst (All (IsValid lib)) same valid'),
        counted,
      )

  read_requests-valid :
      (index : ℕ) (addresses : List Address)
      → All (λ a. validate_address a ≡ ok tt) addresses
      → read_requests index addresses ≡ ok (map read_of addresses)
  unfolding read_requests
  read_requests-valid index [] valid = refl
  read_requests-valid index (a ∷ addresses) (h, valid) =
      rw h (rw (read_requests-valid (suc index) addresses valid))

  key_addresses-validate :
      (uri : Bytes) (index : ℕ) (keys : List Key) {out : List Address}
      → IsBytes uri
      → All (λ k. IsBytes (uri_key k).content) keys
      → key_addresses lib fl uri index keys ≡ ok out
      → All (λ a. validate_address a ≡ ok tt) out × (length out ≡ length keys)
  unfolding key_addresses
  key_addresses-validate uri index [] bu bk h =
      subst (λ out. All (λ a. validate_address a ≡ ok tt) out × (length out ≡ 0)) (ok_eq h)
        (tt, refl)
  key_addresses-validate uri index (k ∷ keys) bu (b, bk) h =
      let (a, ha, h') =
        >>=-eq-ok (wrap_err (wrap_index "dataset read key %d: %w" index) (new_record_address uri k))
          _ h in
      let (rest, hr, e) = >>=-eq-ok (key_addresses lib fl uri (suc index) keys) _ h' in
      let (valid, counted) = key_addresses-validate uri (suc index) keys bu bk hr in
      subst (λ out. All (λ a. validate_address a ≡ ok tt) out × (length out ≡ length (k ∷ keys)))
        (ok_eq e)
        (
          (
            new_record_address-validates uri k bu b
                (wrap_err-eq-ok _ (new_record_address uri k) ha),
            valid,
          ),
          ap suc counted,
        )

  -- If a dataset with a URI of bytes builds addresses for at least one key, all of them bytes,
  -- then `Read` passes one read of each address on to its batches: none of its own checks fails.
  pub key_addresses-accepted :
      (c : Client fl) (uri : Bytes) (keys : List Key) (w : World) (addresses : List Address)
      → IsBytes uri
      → All (λ k. IsBytes (uri_key k).content) keys
      → key_addresses lib fl uri 0 keys ≡ ok addresses
      → 0 < length keys
      → read_records lib fl net (some c) addresses w
        ≡ read_batches lib fl net c.config (map read_of addresses) w
  unfolding read_records validate_collection
  key_addresses-accepted c uri keys w addresses bu bk h some_keys =
      let (valid, counted) = key_addresses-validate uri 0 keys bu bk h in
      rw (not_empty addresses (omega arith)) (rw (read_requests-valid 0 addresses valid) refl)
