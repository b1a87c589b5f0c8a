-- ===== src/Client/BatchLoop.antt =====
-- client.go: the loop over batches that `Read`, `Write` and `Delete` share.
pub mod Ordered
pub mod Sent
pub mod Refines
use sink_go.Base.{
  ℕ, zero, suc, ◌+◌, Option, none, some, List, [], ◌∷◌, ◌++◌, map, take, drop, Result, ok, err,
}
use sink_go.Errors.{Error}

-- What a round does with the outcome of its call: an error ends the loop.
unfoldable pub on_batch {κ ι} :
    {R : Type κ} {W : Type ι}
    → List R
    → W
    → (List R → List R × Option Error × W)
    → Result Error (List R)
    → List R × Option Error × W
on_batch results w next_round (err e) = (results, some e, w)
on_batch results w next_round (ok batch) = next_round batch

-- `call` submits a batch of at most `size` operations, and `shift` moves the indexes of its results
-- by the batch's start. `fuel` bounds the rounds. Returned are the results so far, the error that
-- ended the loop, and the world.
module _ {ℓ κ ι} {Op : Type ℓ} {R : Type κ} {W : Type ι}
    (call : List Op → W → Result Error (List R) × W) (shift : ℕ → R → R) (size : ℕ) where
  unfoldable pub run_batches : ℕ → ℕ → List Op → List R → W → List R × Option Error × W
  run_batches zero start operations results w = (results, none, w)
  run_batches (suc fuel) start [] results w = (results, none, w)
  run_batches (suc fuel) start (op ∷ operations) results w =
      let (r, w') = call (take size (op ∷ operations)) w in
      on_batch results w'
        (λ batch.
          run_batches fuel (start + size) (drop size (op ∷ operations))
            (results ++ map (shift start) batch) w')
        r
