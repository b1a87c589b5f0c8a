-- ===== src/Client/BatchLoop/Sent.antt =====
-- client.go: what the loop over the batches submits.
use sink_go.Base.{
  ℕ, zero, suc, ◌<◌, ◌≤◌, ◌≡◌, refl, sym, ap, ◌∙◌, Option, none, List, [], ◌∷◌, ◌++◌, map,
  append_assoc, append-nil, map-append, arith, take, drop, length, length-take, length-drop,
  take-append-drop, Result, ok, err,
}
use sink_go.Client.BatchLoop.{run_batches, on_batch}
use sink_go.Errors.{Error}

module _ {ℓ κ ι} {Op : Type ℓ} {R : Type κ} {W : Type ι}
    (call : List Op → W → Result Error (List R) × W) (shift : ℕ → R → R) (size : ℕ)
    (positive : 0 < size) where
  on_batch-keeps {μ} :
      (I : W → Type μ) (results : List R) (w : W) (k : List R → List R × Option Error × W)
      (r : Result Error (List R))
      → I w
      → ((batch : List R) → I (k batch).2)
      → I (on_batch results w k r).2
  unfolding on_batch
  on_batch-keeps I results w k (err e) h go_on = h
  on_batch-keeps I results w k (ok batch) h go_on = go_on batch

  -- A property of the world that every call within the bounds keeps.
  pub run_batches-keeps {μ} :
      (I : W → Type μ)
      → ((ops : List Op) (w : W) → 0 < length ops → length ops ≤ size → I w → I (call ops w).1)
      → (fuel start : ℕ) (ops : List Op) (results : List R) (w : W) → I w
      → I (run_batches call shift size fuel start ops results w).2
  unfolding run_batches
  run_batches-keeps I keep zero start ops results w h = h
  run_batches-keeps I keep (suc fuel) start [] results w h = h
  run_batches-keeps I keep (suc fuel) start (op ∷ ops) results w h =
      let all = op ∷ ops in
      let batch = take size all in
      on_batch-keeps I results (call batch w).1 _ (call batch w).0
        (keep batch w (omega (arith, length-take size all)) (omega (arith, length-take size all)) h)
        (λ answers. run_batches-keeps I keep fuel _ (drop size all) _ _ (
          keep batch w (omega (arith, length-take size all)) (omega (arith, length-take size all))
            h))

  module _ {μ} {L : Type μ} (sent : W → List L) (entry : Op → L)
      (logged : (ops : List Op) (w : W) → sent (call ops w).1 ≡ sent w ++ map entry ops) where
    -- Of the operations a first part was submitted, each once; without an error, all of them were.
    pub record Submitted (ops : List Op) (w : W) (r : List R × Option Error × W)
        : Type (ℓ ⊔ μ) where
      pub done : List Op
      pub rest : List Op
      pub parts : ops ≡ done ++ rest
      pub log : sent r.2 ≡ sent w ++ map entry done
      pub complete : r.1 ≡ none → rest ≡ []

    Submitted-batch :
        (ops : List Op) (results : List R) (w : W) (k : List R → List R × Option Error × W)
        (r : Result Error (List R))
        → ((batch : List R) → Submitted (drop size ops) (call (take size ops) w).1 (k batch))
        → Submitted ops w (on_batch results (call (take size ops) w).1 k r)
    unfolding on_batch
    Submitted-batch ops results w k (err e) go_on = record {
      done = take size ops;
      rest = drop size ops;
      parts = sym (take-append-drop size ops);
      log = logged (take size ops) w;
      complete = λ none_left. absurd (cc);
    }
    Submitted-batch ops results w k (ok batch) go_on =
        let s = go_on batch in
        record {
          done = take size ops ++ s.done;
          rest = s.rest;
          parts =
              sym (take-append-drop size ops)
              ∙ ap (λ l. take size ops ++ l) s.parts
              ∙ sym (append_assoc (take size ops) s.done s.rest);
          log =
              s.log
              ∙ ap (λ l. l ++ map entry s.done) (logged (take size ops) w)
              ∙ append_assoc (sent w) (map entry (take size ops)) (map entry s.done)
              ∙ ap (λ l. sent w ++ l) (sym (map-append entry (take size ops) s.done));
          complete = s.complete;
        }

    pub run_batches-Submitted :
        (fuel start : ℕ) (ops : List Op) (results : List R) (w : W)
        → length ops ≤ fuel
        → Submitted ops w (run_batches call shift size fuel start ops results w)
    unfolding run_batches
    run_batches-Submitted zero start [] results w le = record {
      done = [];
      rest = [];
      parts = refl;
      log = sym (append-nil (sent w));
      complete = λ h. refl;
    }
    run_batches-Submitted zero start (op ∷ ops) results w le = absurd (omega arith)
    run_batches-Submitted (suc fuel) start [] results w le = record {
      done = [];
      rest = [];
      parts = refl;
      log = sym (append-nil (sent w));
      complete = λ h. refl;
    }
    run_batches-Submitted (suc fuel) start (op ∷ ops) results w le =
        Submitted-batch (op ∷ ops) results w _ (call (take size (op ∷ ops)) w).0 (λ batch.
          run_batches-Submitted fuel _ (drop size (op ∷ ops)) _ _
            (omega (arith, length-drop size (op ∷ ops))))
