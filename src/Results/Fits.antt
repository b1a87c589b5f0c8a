-- ===== src/Results/Fits.antt =====
-- What one converted result satisfies, for each kind of response.
use sink_go.Base.{
  ℕ, ◌+◌, ◌≡◌, refl, sym, ap, subst, Bool, true, false, Option, none, some, arith, is_empty, ok,
  fail_if, >>=-eq-ok, ok_eq, fail_if-eq-ok, Result-cases, inl, inr,
}
use sink_go.Errors.{OperationError}
use sink_go.Libraries.{Libraries}
use sink_go.Proto as Proto
use sink_go.Proto.Enums.{ReadStatus, WriteStatus, DeleteStatus, is_unspecified, is_applied}
use sink_go.Types.Documents.{Document, zero_document}
use sink_go.Results.{
  operation_failure, read_status_result, write_document, write_failure, delete_failure,
}
use sink_go.Types.Outcomes.{shift_failure, ReadResult}

-- A failure of operation `i` that says something: a code and a message.
pub record IsReported (i : ℕ) (f : OperationError) : Type 0 where
  pub about : f.operation_index ≡ i
  pub code_set : is_unspecified f.code ≡ false
  pub message_set : is_empty f.message ≡ false

operation_failure-IsReported :
    (i : ℕ) (f : Option Proto.Failure) {e : OperationError}
    → operation_failure i f ≡ ok e
    → IsReported i e
unfolding operation_failure
operation_failure-IsReported i none h = absurd (cc)
operation_failure-IsReported i (some f) h =
    let (u, hc, h') = >>=-eq-ok (fail_if (is_unspecified f.code) _) _ h in
    let (u', hm, e) = >>=-eq-ok (fail_if (is_empty f.message) _) _ h' in
    subst (IsReported i) (ok_eq e)
      (record { about = refl; code_set = fail_if-eq-ok _ _ hc; message_set = fail_if-eq-ok _ _ hm })

-- A failure is there exactly when it has to be, and is reported.
abbrev pub FailureFits : Bool → ℕ → Option OperationError → Type 0
FailureFits expected i none = expected ≡ false
FailureFits expected i (some f) = (expected ≡ true) × IsReported i f

abbrev pub read_failed : ReadStatus → Bool
read_failed ReadStatus.failed = true
read_failed _ = false

abbrev pub write_failed : WriteStatus → Bool
write_failed WriteStatus.precondition_failed = true
write_failed WriteStatus.failed = true
write_failed _ = false

abbrev pub delete_failed : DeleteStatus → Bool
delete_failed DeleteStatus.failed = true
delete_failed _ = false

module _ (lib : Libraries) (i : ℕ) where
  pub read_result-fits :
      (status : ReadStatus) (r : Proto.ReadResult) {s : ReadResult}
      → read_status_result lib status i r ≡ ok s
      → (s.operation_index ≡ i) × (s.status ≡ status) × FailureFits (read_failed status) i s.failure
  unfolding read_status_result
  read_result-fits ReadStatus.found r {s} h = ground arith
  read_result-fits ReadStatus.not_found r {s} h = ground arith
  read_result-fits ReadStatus.failed r {s} h = elim (Result-cases (operation_failure i r.failure)) [
    | inl (e, bad) ↦ absurd (let h' = rw bad at h in cc)
    | inr (f, good) ↦
        let h' = rw good at h in
        let reported = operation_failure-IsReported i r.failure good in ground arith
  ]
  read_result-fits ReadStatus.unspecified r h = absurd (cc)
  read_result-fits (ReadStatus.other z) r h = absurd (cc)

  pub write_failure-fits :
      (status : WriteStatus) (f : Option Proto.Failure) {e : Option OperationError}
      → write_failure lib status i f ≡ ok e
      → FailureFits (write_failed status) i e
  unfolding write_failure
  write_failure-fits WriteStatus.accepted f h = ground arith
  write_failure-fits WriteStatus.applied f h = ground arith
  write_failure-fits WriteStatus.precondition_failed f h =
      elim (Result-cases (operation_failure i f)) [
        | inl (e, bad) ↦ absurd (let h' = rw bad at h in cc)
        | inr (g, good) ↦
            let h' = rw good at h in
            let reported = operation_failure-IsReported i f good in ground arith
      ]
  write_failure-fits WriteStatus.failed f h = elim (Result-cases (operation_failure i f)) [
    | inl (e, bad) ↦ absurd (let h' = rw bad at h in cc)
    | inr (g, good) ↦
        let h' = rw good at h in
        let reported = operation_failure-IsReported i f good in ground arith
  ]
  write_failure-fits WriteStatus.unspecified f h = absurd (cc)
  write_failure-fits (WriteStatus.other z) f h = absurd (cc)

  pub delete_failure-fits :
      (status : DeleteStatus) (f : Option Proto.Failure) {e : Option OperationError}
      → delete_failure lib status i f ≡ ok e
      → FailureFits (delete_failed status) i e
  unfolding delete_failure
  delete_failure-fits DeleteStatus.accepted f h = ground arith
  delete_failure-fits DeleteStatus.applied f h = ground arith
  delete_failure-fits DeleteStatus.failed f h = elim (Result-cases (operation_failure i f)) [
    | inl (e, bad) ↦ absurd (let h' = rw bad at h in cc)
    | inr (g, good) ↦
        let h' = rw good at h in
        let reported = operation_failure-IsReported i f good in ground arith
  ]
  delete_failure-fits DeleteStatus.unspecified f h = absurd (cc)
  delete_failure-fits (DeleteStatus.other z) f h = absurd (cc)

  -- A document comes only with a write that was applied.
  pub write_document-fits :
      (status : WriteStatus) (d : Option Proto.Document) {e : Document}
      → write_document lib (is_applied status) d ≡ ok e
      → is_applied status ≡ false
      → (d ≡ none) × (e ≡ zero_document)
  unfolding write_document
  write_document-fits status none h uncommitted = (refl, sym (ok_eq h))
  write_document-fits status (some d) h uncommitted = absurd (let h' = rw uncommitted at h in cc)

-- Shifting a result keeps what its failure says.
pub shift_failure-FailureFits :
    (offset : ℕ) (b : Bool) (i : ℕ) (f : Option OperationError)
    → FailureFits b i f
    → FailureFits b (i + offset) (shift_failure offset f)
shift_failure-FailureFits offset b i none h = h
shift_failure-FailureFits offset b i (some f) (e, r) = (
  e,
  record {
    about = ap (λ k. k + offset) r.about;
    code_set = r.code_set;
    message_set = r.message_set;
  },
)
