-- ===== src/Client/BatchLoop/Refines.antt =====
-- client.go: the loop over the batches against a server that takes operations one after the other.
use sink_go.Base.{
  All, All-append_left, All-append_right, Option, subst, ℕ, zero, suc, ◌+◌, ◌-◌, ◌<◌, ◌≤◌, ◌≡◌,
  refl, sym, ap, ◌∙◌, none, List, [], ◌∷◌, ◌++◌, map, append_assoc, append-nil, arith, take, drop,
  length, length-take, length-drop, take-append-drop, Result, ok,
}
use sink_go.Client.BatchLoop.{run_batches, on_batch}
use sink_go.Errors.{Error}

module _ {ℓ ι} {Op : Type ℓ} {W : Type ι} (effect : Op → W → W) where
  -- What the operations do, one after the other.
  abbrev pub effects : List Op → W → W
  effects [] w = w
  effects (op ∷ ops) w = effects ops (effect op w)

  effects-append : (xs ys : List Op) (w : W) → effects (xs ++ ys) w ≡ effects ys (effects xs w)
  effects-append [] ys w = refl
  effects-append (x ∷ xs) ys w = effects-append xs ys (effect x w)

module _ {ℓ κ ι} {Op : Type ℓ} {R : Type κ} {W : Type ι} (answer : ℕ → Op → W → R)
    (effect : Op → W → W) where
  -- What the operations are answered, the first of them with the index `i`.
  abbrev pub answers : ℕ → List Op → W → List R
  answers i [] w = []
  answers i (op ∷ ops) w = answer i op w ∷ answers (suc i) ops (effect op w)

  answers-append :
      (i : ℕ) (xs ys : List Op) (w : W)
      → answers i (xs ++ ys) w ≡ answers i xs w ++ answers (i + length xs) ys (effects effect xs w)
  answers-append i [] ys w = ap (λ j. answers j ys w) (omega arith)
  answers-append i (x ∷ xs) ys w =
      ap (λ l. answer i x w ∷ l)
        (answers-append (suc i) xs ys (effect x w)
          ∙ ap
              (λ j.
                answers (suc i) xs (effect x w) ++ answers j ys (effects effect xs (effect x w)))
              (omega arith))

  module _ (shift : ℕ → R → R) (size : ℕ)
      (shifted : (offset i : ℕ) (op : Op) (v : W)
        → shift offset (answer i op v) ≡ answer (i + offset) op v) where
    shift-answers :
        (offset i : ℕ) (ops : List Op) (w : W)
        → map (shift offset) (answers i ops w) ≡ answers (i + offset) ops w
    shift-answers offset i [] w = refl
    shift-answers offset i (op ∷ ops) w =
        ap (λ r. r ∷ map (shift offset) (answers (suc i) ops (effect op w))) (shifted offset i op w)
        ∙ ap (λ l. answer (i + offset) op w ∷ l)
            (shift-answers offset (suc i) ops (effect op w)
              ∙ ap (λ j. answers j ops (effect op w)) (omega arith))

    -- Behind a batch that is not full there is nothing.
    behind :
        (start : ℕ) (ops : List Op) (w : W)
        → answers (start + length (take size ops)) (drop size ops) w
          ≡ answers (start + size) (drop size ops) w
    behind start ops w = at (drop size ops) (length-drop size ops)
      where
        at :
            (rest : List Op)
            → length rest ≡ length ops - size
            → answers (start + length (take size ops)) rest w ≡ answers (start + size) rest w
        at [] e = refl
        at (op ∷ rest) e = ap (λ j. answers j (op ∷ rest) w) (omega (arith, length-take size ops))

    joined_results :
        (start : ℕ) (all : List Op) (results : List R) (w : W)
        → (results ++ map (shift start) (answers 0 (take size all) w))
            ++ answers (start + size) (drop size all) (effects effect (take size all) w)
          ≡ results ++ answers start all w
    joined_results start all results w =
        let batch = take size all in
        let w' = effects effect batch w in
        append_assoc results (map (shift start) (answers 0 batch w))
          (answers (start + size) (drop size all) w')
        ∙ ap (λ l. results ++ l)
            (ap (λ l. l ++ answers (start + size) (drop size all) w')
                (shift-answers start 0 batch w ∙ ap (λ j. answers j batch w) (omega arith))
              ∙ ap (λ l. answers start batch w ++ l) (sym (behind start all w'))
              ∙ sym (answers-append start batch (drop size all) w)
              ∙ ap (λ l. answers start l w) (take-append-drop size all))

    -- `Fits` is what is known of the operations. `Sim` relates the world of the calls to the state that `answer` and `effect` speak of.
    module _ {τ υ} {World : Type τ} (call : List Op → World → Result Error (List R) × World)
        (Sim : World → W → Type υ) (positive : 0 < size) (Fits : Op → Type 0)
        (served : (ops : List Op) (w : World) (v : W)
          → 0 < length ops
          → length ops ≤ size
          → All Fits ops
          → Sim w v
          → ((call ops w).0 ≡ ok (answers 0 ops v))
            × Sim (call ops w).1 (effects effect ops v)) where
      -- All operations are answered in order, and the worlds stay related.
      abbrev pub Refined : List R × Option Error × World → List R → W → Type (κ ⊔ υ)
      Refined r rs v = (r.0 ≡ rs) × (r.1 ≡ none) × Sim r.2 v

      run_batches-rounds :
          (fuel start : ℕ) (ops : List Op) (results : List R) (w : World) (v : W)
          → length ops ≤ fuel
          → All Fits ops
          → Sim w v
          → Refined
              (run_batches call shift size fuel start ops results w)
              (results ++ answers start ops v)
              (effects effect ops v)
      unfolding run_batches on_batch
      run_batches-rounds zero start [] results w v le fit sim =
          (sym (append-nil results), refl, sim)
      run_batches-rounds zero start (op ∷ ops) results w v le fit sim = absurd (omega arith)
      run_batches-rounds (suc fuel) start [] results w v le fit sim =
          (sym (append-nil results), refl, sim)
      run_batches-rounds (suc fuel) start (op ∷ ops) results w v le fit sim =
          let all = op ∷ ops in
          let batch = take size all in
          let v' = effects effect batch v in
          let parts = subst (All Fits) (sym (take-append-drop size all)) fit in
          let (answered, sim') =
            served batch w v (omega (arith, length-take size all))
              (omega (arith, length-take size all))
              (All-append_left Fits batch (drop size all) parts) sim in
          let after : effects effect (drop size all) v' ≡ effects effect all v =
            sym (effects-append effect batch (drop size all) v)
            ∙ ap (λ l. effects effect l v) (take-append-drop size all) in
          let (rs, ended, related) =
            run_batches-rounds fuel (start + size) (drop size all)
              (results ++ map (shift start) (answers 0 batch v)) (call batch w).1 v'
              (omega (arith, length-drop size all))
              (All-append_right Fits batch (drop size all) parts) sim' in
          rw answered (rs ∙ joined_results start all results v, ended, subst (Sim _) after related)

      pub run_batches-Refined :
          (ops : List Op) (w : World) (v : W)
          → All Fits ops
          → Sim w v
          → Refined
              (run_batches call shift size (length ops) 0 ops [] w)
              (answers 0 ops v)
              (effects effect ops v)
      run_batches-Refined ops w v fit sim =
          run_batches-rounds (length ops) 0 ops [] w v (omega arith) fit sim

    -- The case of equal worlds.
    module _ (call : List Op → W → Result Error (List R) × W) (positive : 0 < size)
        (Fits : Op → Type 0)
        (served : (ops : List Op) (w : W)
          → 0 < length ops
          → length ops ≤ size
          → All Fits ops
          → call ops w ≡ (ok (answers 0 ops w), effects effect ops w)) where
      served_same :
          (ops : List Op) (w v : W)
          → 0 < length ops
          → length ops ≤ size
          → All Fits ops
          → w ≡ v
          → ((call ops w).0 ≡ ok (answers 0 ops v)) × ((call ops w).1 ≡ effects effect ops v)
      served_same ops w v some_left bounded fit same =
          subst
            (λ u. ((call ops w).0 ≡ ok (answers 0 ops u)) × ((call ops w).1 ≡ effects effect ops u))
            same
            (
              ap (λ (r : Result Error (List R) × W). r.0) (served ops w some_left bounded fit),
              ap (λ (r : Result Error (List R) × W). r.1) (served ops w some_left bounded fit),
            )

      pub run_batches-answers :
          (ops : List Op) (w : W)
          → All Fits ops
          → run_batches call shift size (length ops) 0 ops [] w
            ≡ (answers 0 ops w, none, effects effect ops w)
      run_batches-answers ops w fit =
          let (rs, ended, world) =
            run_batches-Refined call (λ v u. v ≡ u) positive Fits served_same ops w w fit refl in
          ap
            (λ l. (
              l,
              (run_batches call shift size (length ops) 0 ops [] w).1,
              (run_batches call shift size (length ops) 0 ops [] w).2,
            ))
            rs
          ∙ ap (λ e. (answers 0 ops w, e, (run_batches call shift size (length ops) 0 ops [] w).2))
              ended
          ∙ ap (λ v. (answers 0 ops w, none, v)) world

module _ {ℓ κ ι τ} {Op : Type ℓ} {Sent : Type τ} {R : Type κ} {W : Type ι} (f : Op → Sent)
    (answer : ℕ → Sent → W → R) (effect : Sent → W → W) where
  pub answers-map :
      (i : ℕ) (ops : List Op) (w : W)
      → answers answer effect i (map f ops) w
        ≡ answers (λ j o. answer j (f o)) (λ o. effect (f o)) i ops w
  answers-map i [] w = refl
  answers-map i (op ∷ ops) w =
      ap (λ l. answer i (f op) w ∷ l) (answers-map (suc i) ops (effect (f op) w))

module _ {ℓ ι τ} {Op : Type ℓ} {Sent : Type τ} {W : Type ι} (f : Op → Sent)
    (effect : Sent → W → W) where
  pub effects-map :
      (ops : List Op) (w : W) → effects effect (map f ops) w ≡ effects (λ o. effect (f o)) ops w
  effects-map [] w = refl
  effects-map (op ∷ ops) w = effects-map ops (effect (f op) w)
