-- ===== src/Results/Loop/Accepts.antt =====
-- results.go: the responses that the decoders' loop accepts.
use sink_go.Base.{
  ℕ, zero, suc, ◌<◌, ◌≡◌, ◌≢◌, refl, ◌∙◌, Bool, true, false, some, List, [], ◌∷◌, map, arith, leb,
  length, set, length-set, get_elem?-set_ne, Result, ok, String, All, replicate, length-replicate,
}
use sink_go.Errors.{Error}
use sink_go.Results.Loop.{is_seen, validate_result_index, decode_loop}

-- No number stands twice in the list.
abbrev pub Absent : ℕ → List ℕ → Type 0
Absent n = All (λ m. n ≢ m)

abbrev pub Distinct : List ℕ → Type 0
Distinct [] = Unit
Distinct (n ∷ ns) = Absent n ns × Distinct ns

validate_result_index_fresh :
    (method : String) (raw : ℕ) (seen : List Bool)
    → raw < length seen
    → is_seen seen raw ≡ false
    → validate_result_index method raw seen ≡ ok (raw, set seen raw true)
unfolding validate_result_index
validate_result_index_fresh method raw seen h e =
    let within : leb (length seen) raw ≡ false = ground arith in rw within (rw e)

is_seen-replicate : (n i : ℕ) → is_seen (replicate n false) i ≡ false
unfolding is_seen
is_seen-replicate zero i = refl
is_seen-replicate (suc n) zero = refl
is_seen-replicate (suc n) (suc i) = is_seen-replicate n i

is_seen-set :
    (seen : List Bool) (i j : ℕ)
    → i ≢ j
    → is_seen seen j ≡ false
    → is_seen (set seen i true) j ≡ false
unfolding is_seen
is_seen-set seen i j ne h = rw (get_elem?-set_ne seen true ne, is_seen) h

module _ {ℓ κ} {R : Type ℓ} {S : Type κ} (method : String) (index_of : R → ℕ)
    (convert : ℕ → R → Result Error S) where
  -- The result names one of `n` operations, and converts.
  abbrev pub Converts : ℕ → R → Type κ
  Converts n r = (index_of r < n) × ((s : S) × (convert (index_of r) r ≡ ok s))

  abbrev Unmarked : List Bool → List R → Type 0
  Unmarked seen [] = Unit
  Unmarked seen (r ∷ rs) = (is_seen seen (index_of r) ≡ false) × Unmarked seen rs

  Unmarked-set :
      (seen : List Bool) (i : ℕ) (rs : List R)
      → Absent i (map index_of rs)
      → Unmarked seen rs
      → Unmarked (set seen i true) rs
  Unmarked-set seen i [] a u = tt
  Unmarked-set seen i (r ∷ rs) (ne, a) (e, u) =
      (is_seen-set seen i (index_of r) ne e, Unmarked-set seen i rs a u)

  Unmarked-replicate : (n : ℕ) (rs : List R) → Unmarked (replicate n false) rs
  Unmarked-replicate n [] = tt
  Unmarked-replicate n (r ∷ rs) = (is_seen-replicate n (index_of r), Unmarked-replicate n rs)

  decode_loop_accepts :
      (rs : List R) (n : ℕ) (seen : List Bool) (results : List S)
      → length seen ≡ n
      → Unmarked seen rs
      → Distinct (map index_of rs)
      → All (Converts n) rs
      → (out : List S) × (decode_loop method index_of convert (map some rs) seen results ≡ ok out)
  unfolding decode_loop
  decode_loop_accepts [] n seen results e u d c = (results, refl)
  decode_loop_accepts (r ∷ rs) n seen results e (fresh, u) (a, d) ((within, (s, hs)), c) =
      let i = index_of r in
      let (out, h) =
        decode_loop_accepts rs n (set seen i true) (set results i s) (length-set seen i true ∙ e)
          (Unmarked-set seen i rs a u) d c in
      (out, rw (validate_result_index_fresh method i seen (omega arith) fresh) (rw hs h))

  pub decode_fresh_accepts :
      (rs : List R) (n : ℕ) (results : List S)
      → Distinct (map index_of rs)
      → All (Converts n) rs
      → (out : List S) × (decode_loop method index_of convert
            (map some rs)
            (replicate n false)
            results
          ≡ ok out)
  decode_fresh_accepts rs n results d c =
      decode_loop_accepts rs n (replicate n false) results (length-replicate n false)
        (Unmarked-replicate n rs) d c
