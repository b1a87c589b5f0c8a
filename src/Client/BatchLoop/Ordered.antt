-- ===== src/Client/BatchLoop/Ordered.antt =====
-- client.go: the results of the loop over the batches.
use sink_go.Base.{
  ℕ, zero, suc, ◌+◌, ◌-◌, ◌<◌, ◌≤◌, ◌≡◌, refl, sym, ap, ◌∙◌, subst, Option, none, some, List, [],
  ◌∷◌, ◌++◌, map, arith, take, drop, length, get_elem?, length-append, length-take, length-drop,
  length-map, Result, ok, err, inl, inr, Bool-cases, ltb, ltb→lt, not_ltb→le,
}
use sink_go.Client.BatchLoop.{run_batches, on_batch}
use sink_go.Errors.{Error}
use sink_go.Results.Decoded.{Answers}

get_elem?-append_left {ℓ} :
    {A : Type ℓ} (xs ys : List A) (i : ℕ) → i < length xs → get_elem? (xs ++ ys) i ≡ get_elem? xs i
get_elem?-append_left [] ys i h = elim h [ ]
get_elem?-append_left (x ∷ xs) ys zero h = refl
get_elem?-append_left (x ∷ xs) ys (suc i) h = get_elem?-append_left xs ys i (omega arith)

get_elem?-append_right {ℓ} :
    {A : Type ℓ} (xs ys : List A) (i : ℕ)
    → length xs ≤ i
    → get_elem? (xs ++ ys) i ≡ get_elem? ys (i - length xs)
get_elem?-append_right [] ys i h = ap (get_elem? ys) (omega arith)
get_elem?-append_right (x ∷ xs) ys zero h = absurd (omega arith)
get_elem?-append_right (x ∷ xs) ys (suc i) h =
    get_elem?-append_right xs ys i (omega arith) ∙ ap (get_elem? ys) (omega arith)

get_elem?-map {ℓ κ} :
    {A : Type ℓ} {B : Type κ} (f : A → B) (xs : List A) (i : ℕ) {x : A}
    → get_elem? xs i ≡ some x
    → get_elem? (map f xs) i ≡ some (f x)
get_elem?-map f [] i h = absurd (cc)
get_elem?-map f (y ∷ xs) zero h = cc
get_elem?-map f (y ∷ xs) (suc i) h = get_elem?-map f xs i h

module _ {R : Type 0} (P : ℕ → R → Type 0) (shift : ℕ → R → R)
    (shifted : (offset i : ℕ) (r : R) → P i r → P (i + offset) (shift offset r)) where
  -- Answers for a batch, moved behind the answers so far.
  Answers-append :
      (n m : ℕ) (xs ys : List R)
      → Answers P n xs
      → Answers P m ys
      → Answers P (n + m) (xs ++ map (shift n) ys)
  Answers-append n m xs ys (ex, hx) (ey, hy) = (
    omega (arith, length-append xs (map (shift n) ys), length-map ys (shift n)),
    λ i lt. elim (Bool-cases (ltb i n)) [
      | inl before ↦
          let (s, at, p) = hx i (ltb→lt i n before) in
          (s, get_elem?-append_left xs _ i (omega (arith, ltb→lt i n before)) ∙ at, p)
      | inr behind ↦
          let le = not_ltb→le i n behind in
          let (s, at, p) = hy (i - n) (omega arith) in
          let e : i - length xs ≡ i - n = ap (λ k. i - k) ex in
          (
            shift n s,
            get_elem?-append_right xs _ i (omega arith)
                ∙ ap (get_elem? (map (shift n) ys)) e
                ∙ get_elem?-map (shift n) ys (i - n) at,
            subst (λ k. P k (shift n s)) (omega arith) (shifted n (i - n) s p),
          )
    ],
  )

  module _ {ℓ ι} {Op : Type ℓ} {W : Type ι} (call : List Op → W → Result Error (List R) × W)
      (size : ℕ) (positive : 0 < size)
      (answered : (ops : List Op) (w : W) (batch : List R)
        → (call ops w).0 ≡ ok batch
        → Answers P (length ops) batch) where
    -- The results that come back, with or without an error, answer the operations from the first on;
    -- without an error they answer all of them. As many rounds as operations are enough.
    abbrev pub Outcome : ℕ → List R × Option Error × W → Type 0
    Outcome n r = Answers P (length r.0) r.0 × (length r.0 ≤ n) × (r.1 ≡ none → length r.0 ≡ n)

    on_batch-Outcome :
        (n : ℕ) (results : List R) (w : W) (k : List R → List R × Option Error × W)
        (r : Result Error (List R))
        → Answers P (length results) results
        → length results ≤ n
        → ((batch : List R) → r ≡ ok batch → Outcome n (k batch))
        → Outcome n (on_batch results w k r)
    unfolding on_batch
    on_batch-Outcome n results w k (err e) h le go_on = (h, le, λ done. absurd (cc))
    on_batch-Outcome n results w k (ok batch) h le go_on = go_on batch refl

    run_batches-Outcome :
        (fuel start : ℕ) (ops : List Op) (results : List R) (w : W)
        → length ops ≤ fuel
        → (0 < length ops → start ≡ length results)
        → Answers P (length results) results
        → Outcome
            (length results + length ops)
            (run_batches call shift size fuel start ops results w)
    unfolding run_batches
    run_batches-Outcome zero start [] results w le aligned h = (h, omega arith, λ done. omega arith)
    run_batches-Outcome zero start (op ∷ ops) results w le aligned h = absurd (omega arith)
    run_batches-Outcome (suc fuel) start [] results w le aligned h =
        (h, omega arith, λ done. omega arith)
    run_batches-Outcome (suc fuel) start (op ∷ ops) results w le aligned h =
        let all = op ∷ ops in
        on_batch-Outcome (length results + length all) results _ _ (call (take size all) w).0 h
          (omega arith)
          λ batch e.
            let answers = answered (take size all) w batch e in
            let e_start : start ≡ length results = aligned (omega arith) in
            let results' = results ++ map (shift start) batch in
            let grown : Answers P (length results + length (take size all)) results' =
              subst
                (λ s.
                  Answers P (length results + length (take size all))
                    (results ++ map (shift s) batch))
                (sym e_start)
                (Answers-append (length results) (length (take size all)) results batch h
                  answers) in
            let total : length results' + length (drop size all) ≡ length results + length all =
              omega (arith, grown.0, length-take size all, length-drop size all) in
            subst
              (λ n. Outcome n (
                run_batches call shift size fuel (start + size) (drop size all) results'
                  (call (take size all) w).1))
              total
              (run_batches-Outcome fuel (start + size) (drop size all) results' _
                (omega (arith, length-drop size all))
                (λ more. omega (arith, grown.0, length-take size all, length-drop size all))
                (subst (λ n. Answers P n results') (sym grown.0) grown))

    pub run_batches-Answers :
        (ops : List Op) (w : W)
        → Outcome (length ops) (run_batches call shift size (length ops) 0 ops [] w)
    run_batches-Answers ops w =
        subst (λ n. Outcome n (run_batches call shift size (length ops) 0 ops [] w)) (omega arith)
          (run_batches-Outcome (length ops) 0 ops [] w (omega arith) (λ more. refl)
            (refl, λ i lt. absurd (omega arith)))
