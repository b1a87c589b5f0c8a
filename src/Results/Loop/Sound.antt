-- ===== src/Results/Loop/Sound.antt =====
-- results.go: the slots that the decoders' loop fills.
use sink_go.Base.{
  ℕ, zero, suc, ◌<◌, ◌≡◌, ◌≢◌, refl, sym, ap, ◌∙◌, subst, Bool, true, false, Option, none, some,
  List, [], ◌∷◌, ◌++◌, append_assoc, arith, leb, length, get_elem?, set, length-set,
  get_elem?-set_self, get_elem?-set_ne, Result, ok, fail_if, String, >>=-eq-ok, fail_if-eq-ok,
  ok_eq, Bool-cases, inl, inr, ◌==◌, replicate, length-replicate,
}
use sink_go.Errors.{Error}
use sink_go.Results.Loop.{is_seen, validate_result_index, decode_loop}

-- What a successful check of an index says.
record Fresh (raw : ℕ) (seen : List Bool) (checked : ℕ × List Bool) : Type 0 where
  pair : checked ≡ (raw, set seen raw true)
  in_range : raw < length seen
  unseen_before : is_seen seen raw ≡ false

validate_result_index-Fresh :
    (method : String) (raw : ℕ) (seen : List Bool) {checked : ℕ × List Bool}
    → validate_result_index method raw seen ≡ ok checked
    → Fresh raw seen checked
unfolding validate_result_index
validate_result_index-Fresh method raw seen {checked} h =
    let (u, hr, h') = >>=-eq-ok (fail_if (leb (length seen) raw) _) _ h in
    let (u', hs, e) = >>=-eq-ok (fail_if (is_seen seen raw) _) _ h' in
    let out = fail_if-eq-ok (leb (length seen) raw) _ hr in
    record {
      pair = sym (ok_eq e);
      in_range = ground arith;
      unseen_before = fail_if-eq-ok (is_seen seen raw) _ hs;
    }

-- How many slots are still open.
abbrev unseen : List Bool → ℕ
unseen [] = 0
unseen (true ∷ seen) = unseen seen
unseen (false ∷ seen) = suc (unseen seen)

unseen-set :
    (seen : List Bool) (i : ℕ)
    → i < length seen
    → is_seen seen i ≡ false
    → unseen seen ≡ suc (unseen (set seen i true))
unfolding is_seen
unseen-set [] i h e = elim h [ ]
unseen-set (true ∷ seen) zero h e = absurd (cc)
unseen-set (false ∷ seen) zero h e = refl
unseen-set (true ∷ seen) (suc i) h e = unseen-set seen i (omega arith) e
unseen-set (false ∷ seen) (suc i) h e = ap suc (unseen-set seen i (omega arith) e)

unseen_zero :
    (seen : List Bool) (i : ℕ) → unseen seen ≡ 0 → i < length seen → get_elem? seen i ≡ some true
unseen_zero [] i e h = elim h [ ]
unseen_zero (true ∷ seen) zero e h = refl
unseen_zero (true ∷ seen) (suc i) e h = unseen_zero seen i e (omega arith)
unseen_zero (false ∷ seen) i e h = absurd (omega arith)

unseen-replicate : (n : ℕ) → unseen (replicate n false) ≡ n
unseen-replicate zero = refl
unseen-replicate (suc n) = ap suc (unseen-replicate n)

not_seen-replicate : (n i : ℕ) → get_elem? (replicate n false) i ≢ some true
not_seen-replicate zero i h = cc
not_seen-replicate (suc n) zero h = cc
not_seen-replicate (suc n) (suc i) h = not_seen-replicate n i h

get_elem?-middle {ℓ} :
    {A : Type ℓ} (xs ys : List A) (x : A) → get_elem? (xs ++ x ∷ ys) (length xs) ≡ some x
get_elem?-middle [] ys x = refl
get_elem?-middle (y ∷ xs) ys x = get_elem?-middle xs ys x

module _ {ℓ κ} {R : Type ℓ} {S : Type κ} (method : String) (index_of : R → ℕ)
    (convert : ℕ → R → Result Error S) where
  -- Slot `i` holds what a result of the response, at place `j`, converts to.
  abbrev pub Holds : List (Option R) → ℕ → S → Type (ℓ ⊔ κ)
  Holds all i s =
      (j : ℕ) × (r : R) × (get_elem? all j ≡ some (some r))
      × (index_of r ≡ i)
      × (convert i r ≡ ok s)

  abbrev Filled : List (Option R) → List Bool → List S → Type (ℓ ⊔ κ)
  Filled all seen results =
      (i : ℕ)
      → get_elem? seen i ≡ some true
      → (s : S) × (get_elem? results i ≡ some s) × Holds all i s

  -- Every slot up to `n` is filled.
  abbrev pub Complete : List (Option R) → ℕ → List S → Type (ℓ ⊔ κ)
  Complete all n out = (i : ℕ) → i < n → (s : S) × (get_elem? out i ≡ some s) × Holds all i s

  Filled-set :
      (all : List (Option R)) (seen : List Bool) (results : List S) (i : ℕ) (s : S)
      → i < length results
      → Holds all i s
      → Filled all seen results
      → Filled all (set seen i true) (set results i s)
  Filled-set all seen results i s h holds filled k e = elim (Bool-cases (i == k)) [
    | inl same ↦
        let eq : i ≡ k = ground arith in
        subst (λ n. (t : S) × (get_elem? (set results i s) n ≡ some t) × Holds all n t) eq
          (s, get_elem?-set_self results i s h, holds)
    | inr differs ↦
        let ne : i ≢ k = ground arith in
        let (t, et, ht) = filled k (sym (get_elem?-set_ne seen true ne) ∙ e) in
        (t, get_elem?-set_ne results s ne ∙ et, ht)
  ]

  decode_loop_sound :
      (done items all : List (Option R)) (seen : List Bool) (results : List S) {out : List S}
      → all ≡ done ++ items
      → length seen ≡ length results
      → unseen seen ≡ length items
      → Filled all seen results
      → decode_loop method index_of convert items seen results ≡ ok out
      → (length out ≡ length results) × Complete all (length results) out
  unfolding decode_loop
  decode_loop_sound done [] all seen results {out} split lengths count filled h =
      let e : results ≡ out = ok_eq h in
      subst (λ l. (length l ≡ length results) × Complete all (length results) l) e
        (refl, λ i lt. filled i (unseen_zero seen i count (omega arith)))
  decode_loop_sound done (none ∷ items) all seen results split lengths count filled h = absurd (cc)
  decode_loop_sound done (some r ∷ items) all seen results {out} split lengths count filled h =
      let n = index_of r in
      let (checked, hv, h') = >>=-eq-ok (validate_result_index method (index_of r) seen) _ h in
      let (s, hc, h'') = >>=-eq-ok (convert checked.0 r) _ h' in
      let fresh = validate_result_index-Fresh method (index_of r) seen hv in
      let converted = subst (λ (c : ℕ × List Bool). convert c.0 r ≡ ok s) fresh.pair hc in
      let rest =
        subst
          (λ (c : ℕ × List Bool).
            decode_loop method index_of convert items c.1 (set results c.0 s) ≡ ok out)
          fresh.pair h'' in
      let place =
        subst (λ l. get_elem? l (length done) ≡ some (some r)) (sym split)
          (get_elem?-middle done items (some r)) in
      let fits : n < length results = omega (arith, fresh.in_range) in
      subst (λ m. (length out ≡ m) × Complete all m out) (length-set results n s)
        (decode_loop_sound (done ++ some r ∷ []) items all (set seen n true) (set results n s)
          (split ∙ sym (append_assoc done (some r ∷ []) items))
          (omega (arith, length-set seen n true, length-set results n s))
          (omega (arith, unseen-set seen n fresh.in_range fresh.unseen_before))
          (Filled-set all seen results n s fits (length done, r, place, refl, converted) filled)
          rest)

  -- From fresh slots: the output has as many results as asked for, and every slot is filled.
  pub decode_loop-covers :
      (items : List (Option R)) (n : ℕ) (zero_result : S) {out : List S}
      → length items ≡ n
      → decode_loop method index_of convert items (replicate n false) (replicate n zero_result)
        ≡ ok out
      → (length out ≡ n) × Complete items n out
  decode_loop-covers items n zero_result {out} e h =
      subst (λ m. (length out ≡ m) × Complete items m out) (length-replicate n zero_result)
        (decode_loop_sound [] items items (replicate n false) (replicate n zero_result) refl
          (length-replicate n false ∙ sym (length-replicate n zero_result))
          (unseen-replicate n ∙ sym e) (λ i seen. absurd (not_seen-replicate n i seen)) h)
