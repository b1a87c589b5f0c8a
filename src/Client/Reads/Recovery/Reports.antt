-- ===== src/Client/Reads/Recovery/Reports.antt =====
-- results.go: a read result that is read for another operation differs from it by its index alone.
use sink_go.Base.{
  ℕ, ◌+◌, ◌≡◌, refl, sym, ap, subst, some, ok, >>=-eq-ok, ok_eq, wrap_err, wrap_err-eq-ok,
}
use sink_go.Client.Reads.{place_result, shift_read}
use sink_go.Errors.{wrap_index, protocol}
use sink_go.Libraries.{Libraries}
use sink_go.Proto as Proto
use sink_go.Proto.Enums.{ReadStatus}
use sink_go.Results.{read_status_result, operation_failure}
use sink_go.Results.Shifts.{operation_failure-shift, operation_failure-index}
use sink_go.Types.Documents.{document_from_proto}
use sink_go.Types.Outcomes.{ReadResult, zero_read_result}

pub read_status_result-shift :
    (lib : Libraries) (st : ReadStatus) (k i : ℕ) (r : Proto.ReadResult) (x : ReadResult)
    → read_status_result lib st i r ≡ ok x
    → read_status_result lib st (i + k) r ≡ ok (shift_read k x)
unfolding read_status_result
read_status_result-shift lib ReadStatus.found k i r x h =
    let (d, a, h1) =
      >>=-eq-ok
        (wrap_err (λ e. protocol "Read" (wrap_index "result %d: %v" i e))
          (document_from_proto lib r.document))
        _ h in
    rw (wrap_err-eq-ok _ (document_from_proto lib r.document) a)
      (ap (λ y. ok (shift_read k y)) (ok_eq h1))
read_status_result-shift lib ReadStatus.not_found k i r x h =
    ap (λ y. ok (shift_read k y)) (ok_eq h)
read_status_result-shift lib ReadStatus.failed k i r x h =
    let (f, a, h1) = >>=-eq-ok (wrap_err (protocol "Read") (operation_failure i r.failure)) _ h in
    rw
      (operation_failure-shift k i r.failure f (wrap_err-eq-ok _ (operation_failure i r.failure) a))
      (ap (λ y. ok (shift_read k y)) (ok_eq h1))
read_status_result-shift lib ReadStatus.unspecified k i r x h = cc
read_status_result-shift lib (ReadStatus.other n) k i r x h = cc

-- A decoded result has the index of its operation already.
pub read_status_result-placed :
    (lib : Libraries) (st : ReadStatus) (i : ℕ) (r : Proto.ReadResult) (x : ReadResult)
    → read_status_result lib st i r ≡ ok x
    → place_result i x ≡ x
unfolding read_status_result
read_status_result-placed lib ReadStatus.found i r x h =
    let (d, a, h1) =
      >>=-eq-ok
        (wrap_err (λ e. protocol "Read" (wrap_index "result %d: %v" i e))
          (document_from_proto lib r.document))
        _ h in
    subst (λ y. place_result i y ≡ y) (ok_eq h1) refl
read_status_result-placed lib ReadStatus.not_found i r x h =
    subst (λ y. place_result i y ≡ y) (ok_eq h) refl
read_status_result-placed lib ReadStatus.failed i r x h =
    let (f, a, h1) = >>=-eq-ok (wrap_err (protocol "Read") (operation_failure i r.failure)) _ h in
    let about =
      operation_failure-index i r.failure f (wrap_err-eq-ok _ (operation_failure i r.failure) a) in
    subst (λ y. place_result i y ≡ y) (ok_eq h1)
      (ap
        (λ j. record zero_read_result {
          operation_index = i;
          status = ReadStatus.failed;
          failure = some (record f { operation_index = j });
        })
        (sym about))
read_status_result-placed lib ReadStatus.unspecified i r x h = cc
read_status_result-placed lib (ReadStatus.other n) i r x h = cc

-- The index that the report has is not read again.
pub read_status_result-index :
    (lib : Libraries) (st : ReadStatus) (i j : ℕ) (r : Proto.ReadResult)
    → read_status_result lib st i (record r { operation_index = j }) ≡ read_status_result lib st i r
unfolding read_status_result
read_status_result-index lib ReadStatus.found i j r = refl
read_status_result-index lib ReadStatus.not_found i j r = refl
read_status_result-index lib ReadStatus.failed i j r = refl
read_status_result-index lib ReadStatus.unspecified i j r = refl
read_status_result-index lib (ReadStatus.other n) i j r = refl
