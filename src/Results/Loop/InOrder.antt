-- ===== src/Results/Loop/InOrder.antt =====
-- results.go: the decoders' loop on results that stand in the order of the operations.
use sink_go.Base.{
  ℕ, suc, ◌≡◌, refl, sym, ap, ◌∙◌, Bool, true, false, some, List, [], ◌∷◌, ◌++◌, map, append_assoc,
  arith, leb, length, set, get_elem?, replicate, length-append, length-map, Result, ok, String,
  ◌==◌,
}
use sink_go.Errors.{Error}
use sink_go.Results.{decode_items}
use sink_go.Results.Loop.{is_seen, validate_result_index, decode_loop}

module _ {ℓ} {A : Type ℓ} where
  set-append : (xs ys : List A) (y v : A) → set (xs ++ y ∷ ys) (length xs) v ≡ xs ++ v ∷ ys
  set-append [] ys y v = refl
  set-append (x ∷ xs) ys y v = ap (λ l. x ∷ l) (set-append xs ys y v)

  get_elem?-append : (xs ys : List A) (y : A) → get_elem? (xs ++ y ∷ ys) (length xs) ≡ some y
  get_elem?-append [] ys y = refl
  get_elem?-append (x ∷ xs) ys y = get_elem?-append xs ys y

  snoc_append : (xs ys : List A) (x : A) → xs ++ x ∷ ys ≡ (xs ++ x ∷ []) ++ ys
  snoc_append xs ys x = sym (append_assoc xs (x ∷ []) ys)

-- Behind what is `made`, the next place is filled.
pub set_next {ℓ} :
    {A : Type ℓ} (made rest : List A) (z v : A) (i : ℕ)
    → i ≡ length made
    → set (made ++ z ∷ rest) i v ≡ (made ++ v ∷ []) ++ rest
set_next made rest z v i e =
    ap (λ j. set (made ++ z ∷ rest) j v) e ∙ set-append made rest z v ∙ snoc_append made rest v

is_seen-append :
    (before rest : List Bool) (j : ℕ)
    → j ≡ length before
    → is_seen (before ++ false ∷ rest) j ≡ false
unfolding is_seen
is_seen-append before rest j e =
    rw (ap (get_elem? (before ++ false ∷ rest)) e ∙ get_elem?-append before rest false, is_seen)
      refl

module _ {R S : Type 0} (method : String) (index_of : R → ℕ)
    (convert : ℕ → R → Result Error S) where
  -- The results number the operations from `i` on, and convert to the values.
  abbrev pub Numbered : ℕ → List R → List S → Type 0
  Numbered i [] [] = Unit
  Numbered i (r ∷ rs) (s ∷ ss) = (index_of r ≡ i) × (convert i r ≡ ok s) × Numbered (suc i) rs ss
  Numbered i [] (s ∷ ss) = ⊥
  Numbered i (r ∷ rs) [] = ⊥

  in_order :
      (rs : List R) (ss : List S) (before : List Bool) (made : List S) (z : S) (i : ℕ)
      → Numbered i rs ss
      → length before ≡ i
      → length made ≡ i
      → decode_loop method index_of convert
          (map some rs)
          (before ++ replicate (length rs) false)
          (made ++ replicate (length rs) z)
        ≡ ok (made ++ ss)
  unfolding decode_loop validate_result_index
  in_order [] [] before made z i h e f = refl
  in_order [] (s ∷ ss) before made z i h e f = elim h [ ]
  in_order (r ∷ rs) [] before made z i h e f = elim h [ ]
  in_order (r ∷ rs) (s ∷ ss) before made z i (names, converts, h) e f =
      let rest = replicate (length rs) false in
      let at : is_seen (before ++ false ∷ rest) (index_of r) ≡ false =
        is_seen-append before rest (index_of r) (names ∙ sym e) in
      let marked = set_next before rest false true (index_of r) (names ∙ sym e) in
      let zs = replicate (length rs) z in
      let placed = set_next made zs z s (index_of r) (names ∙ sym f) in
      let within : leb (length (before ++ false ∷ rest)) (index_of r) ≡ false =
        ground (arith, length-append before (false ∷ rest)) in
      let converts' : convert (index_of r) r ≡ ok s = ap (λ j. convert j r) names ∙ converts in
      rw within (
        rw at (
          rw converts' (
            rw marked (
              rw placed (
                in_order rs ss (before ++ true ∷ []) (made ++ s ∷ []) z (suc i) h
                  (omega (arith, length-append before (true ∷ [])))
                  (omega (arith, length-append made (s ∷ [])))
                ∙ ap ok (sym (snoc_append made ss s)))))))

  -- Numbered results decode to their values, in order.
  pub decode_items-Numbered :
      (rs : List R) (ss : List S) (z : S)
      → Numbered 0 rs ss
      → decode_items method index_of convert z (map some rs) (length rs) ≡ ok ss
  unfolding decode_items
  decode_items-Numbered rs ss z h =
      let counted : (length (map some rs) == length rs) ≡ true =
        ground (arith, length-map rs (λ (r : R). some r)) in
      rw counted (in_order rs ss [] [] z 0 h refl refl)
