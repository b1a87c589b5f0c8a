-- ===== src/Results/Loop.antt =====
-- The loop that the three decoders of results.go share: every result goes to the slot that its
-- operation index names, and `seen` marks the slots that are filled.
pub mod Sound
pub mod Accepts
pub mod InOrder
use sink_go.Base.{
  ℕ, zero, suc, ◌+◌, ◌-◌, ◌<◌, ◌≤◌, ◌≡◌, ◌≢◌, refl, sym, ap, ◌∙◌, subst, Bool, true, false, not,
  Option, none, some, List, [], ◌∷◌, arith, ltb, leb, if◌then◌else◌, length, get_elem?, set,
  length-set, get_elem?-set_self, get_elem?-set_ne, Result, ok, err, ◌>>=◌, ◌>>◌, fail_if, String,
  >>=-eq-ok, fail_if-eq-ok, ok_eq, some_eq, ltb→lt, not_ltb→le, Bool-cases, inl, inr,
}
use sink_go.Errors.{Error, new, new_index, protocol}

-- `seen[index]`, for an index in range.
is_seen : List Bool → ℕ → Bool
is_seen seen index = elim (get_elem? seen index) [ none ↦ false | some b ↦ b ]

-- Returns the index and the marks after the call.
unfoldable pub validate_result_index : String → ℕ → List Bool → Result Error (ℕ × List Bool)
unfolding is_seen
validate_result_index method raw seen = do
  fail_if (leb (length seen) raw)
      (protocol method (new_index "result operation index %d is out of range" raw))
  fail_if (is_seen seen raw)
      (protocol method (new_index "result operation index %d is duplicated" raw))
  ok (raw, set seen raw true)

module _ {ℓ κ} {R : Type ℓ} {S : Type κ} (method : String) (index_of : R → ℕ)
    (convert : ℕ → R → Result Error S) where
  unfoldable pub decode_loop : List (Option R) → List Bool → List S → Result Error (List S)
  decode_loop [] seen results = ok results
  decode_loop (none ∷ items) seen results = err (protocol method (new "result is empty"))
  decode_loop (some r ∷ items) seen results = do
    (index, seen') ← validate_result_index method (index_of r) seen
    result ← convert index r
    decode_loop items seen' (set results index result)
