-- ===== src/Results/Shifts.antt =====
-- results.go: a result that is read for another operation differs from it by its index alone.
use sink_go.Base.{
  ℕ, ◌+◌, ◌≡◌, ap, subst, Option, none, some, is_empty, ok, ◌>>=◌, fail_if, fail_if-eq-ok, wrap_err,
  wrap_err-eq-ok, >>=-eq-ok, ok_eq, refl,
}
use sink_go.Errors.{Error, OperationError}
use sink_go.Libraries.{Libraries}
use sink_go.Proto as Proto
use sink_go.Proto.Enums.{WriteStatus, is_unspecified}
use sink_go.Results.{operation_failure, write_failure}
use sink_go.Types.Outcomes.{shift_failure}

pub operation_failure-shift :
    (k i : ℕ) (f : Option Proto.Failure) (e : OperationError)
    → operation_failure i f ≡ ok e
    → operation_failure (i + k) f ≡ ok (record e { operation_index = e.operation_index + k })
unfolding operation_failure
operation_failure-shift k i none e h = cc
operation_failure-shift k i (some f) e h =
    let (_, a, h1) = >>=-eq-ok (fail_if (is_unspecified f.code) _) _ h in
    let (_, b, h2) = >>=-eq-ok (fail_if (is_empty f.message) _) _ h1 in
    rw (fail_if-eq-ok _ _ a) (
      rw (fail_if-eq-ok _ _ b) (
        ap (λ (x : OperationError). ok (record x { operation_index = x.operation_index + k }))
          (ok_eq h2)))

failed-shift :
    (k i : ℕ) (f : Option Proto.Failure) (wrong : Error → Error) (e : Option OperationError)
    → (wrap_err wrong (operation_failure i f) >>= λ failure. ok (some failure)) ≡ ok e
    → (wrap_err wrong (operation_failure (i + k) f) >>= λ failure. ok (some failure))
      ≡ ok (shift_failure k e)
failed-shift k i f wrong e h =
    let (x, a, h1) = >>=-eq-ok (wrap_err wrong (operation_failure i f)) _ h in
    rw (operation_failure-shift k i f x (wrap_err-eq-ok wrong (operation_failure i f) a))
      (ap (λ y. ok (shift_failure k y)) (ok_eq h1))

pub write_failure-shift :
    (lib : Libraries) (st : WriteStatus) (k i : ℕ) (f : Option Proto.Failure)
    (e : Option OperationError)
    → write_failure lib st i f ≡ ok e
    → write_failure lib st (i + k) f ≡ ok (shift_failure k e)
unfolding write_failure
write_failure-shift lib WriteStatus.accepted k i f e h = ap (λ y. ok (shift_failure k y)) (ok_eq h)
write_failure-shift lib WriteStatus.applied k i f e h = ap (λ y. ok (shift_failure k y)) (ok_eq h)
write_failure-shift lib WriteStatus.precondition_failed k i f e h = failed-shift k i f _ e h
write_failure-shift lib WriteStatus.failed k i f e h = failed-shift k i f _ e h
write_failure-shift lib WriteStatus.unspecified k i f e h = cc
write_failure-shift lib (WriteStatus.other n) k i f e h = cc

-- The failure of operation `i` has the index `i`.
pub operation_failure-index :
    (i : ℕ) (f : Option Proto.Failure) (e : OperationError)
    → operation_failure i f ≡ ok e
    → e.operation_index ≡ i
unfolding operation_failure
operation_failure-index i none e h = cc
operation_failure-index i (some f) e h =
    let (_, a, h1) = >>=-eq-ok (fail_if (is_unspecified f.code) _) _ h in
    let (_, b, h2) = >>=-eq-ok (fail_if (is_empty f.message) _) _ h1 in
    subst (λ (x : OperationError). x.operation_index ≡ i) (ok_eq h2) refl
