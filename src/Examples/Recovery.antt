-- ===== src/Examples/Recovery.antt =====
-- client.go: `Read` from a server that is unavailable twice.
use sink_go.Base.{
  ℕ, zero, suc, ◌≡◌, refl, sym, subst, true, false, none, some, List, [], ◌∷◌, map, arith, Option,
  Result, ok, err, ◌==◌, codes,
}
use sink_go.Client.BatchLoop.Refines.{answers}
use sink_go.Client.Reads.{read_batches}
use sink_go.Client.Reads.Recovery.{read_batches-outcomes}
use sink_go.Client.Reads.Recovery.Server.{Recovers, outcomes}
use sink_go.Errors.{Status, unavailable}
use sink_go.Examples.Stub.{libraries, tenths, config, usable, unavailable_status}
use sink_go.Network.{Network}
use sink_go.Proto as Proto
use sink_go.Proto.Enums.{ReadStatus}
use sink_go.Results.{read_result, read_status_result}
use sink_go.Types.Outcomes.{ReadResult, zero_read_result}

abbrev report_of : Proto.ReadOperation → Proto.ReadResult
report_of o = record {
  operation_index = 0;
  status = ReadStatus.not_found;
  document = none;
  revision = none;
  failure = none;
}

abbrev outcome_at : ℕ → Proto.ReadOperation → ReadResult
outcome_at i o = record zero_read_result { operation_index = i; status = ReadStatus.not_found }

-- The world is the number of calls that are still to fail.
abbrev read_from : Proto.ReadRequest → ℕ → Result Status (Option Proto.ReadResponse) × ℕ
read_from request zero = (
  ok (
      some (record {
        results = map some (
            answers (λ i o (u : Unit {0}). record (report_of o) { operation_index = i }) (λ o u. u)
              0 request.operations tt);
      })),
  zero,
)
read_from request (suc n) = (err unavailable_status, n)

abbrev failing : Network tenths
failing = record {
  World = ℕ;
  read = read_from;
  write = λ request w. (err unavailable_status, w);
  delete = λ request w. (err unavailable_status, w);
  execute = λ request w. (err unavailable_status, w);
  query = λ request w. (err unavailable_status, w);
  count = λ request w. (err unavailable_status, w);
  scan = λ request w. (err unavailable_status, w);
  check = λ w. (ok (some true), w);
  sleep = λ d w. (false, w);
  is_done = λ w. false;
  with_timeout = λ d w. w;
  cancel = λ w. w;
  random = λ w. (5, w);
}

report_of-outcome :
    (i : ℕ) (o : Proto.ReadOperation) → read_result libraries i (report_of o) ≡ ok (outcome_at i o)
unfolding read_result read_status_result
report_of-outcome i o = refl

abbrev failing-Recovers : Recovers libraries tenths failing
failing-Recovers = record {
  outage = λ (w : ℕ). w;
  report = report_of;
  outcome = outcome_at;
  well_formed = report_of-outcome;
  settled = λ i o. refl;
  down = λ request w n e.
      subst
        (λ (v : ℕ).
          (st : Status) × ((read_from request v).0 ≡ err st)
          × ((st.code == unavailable) ≡ true)
          × ((read_from request v).1 ≡ n))
        (sym e) (unavailable_status, refl, refl, refl);
  up = λ request w e.
      subst
        (λ (v : ℕ).
          ((read_from request v).0 ≡ (read_from request 0).0) × ((read_from request v).1 ≡ 0))
        (sym e) (refl, refl);
  patient = λ d w. refl;
  quiet_sleep = λ d w. refl;
  quiet_random = λ w. refl;
}

-- Three reads, in batches of two.
abbrev operations : List Proto.ReadOperation
operations =
    map (λ s. record { address = record { uri = codes s } })
      ("sink://m/a" ∷ "sink://m/b" ∷ "sink://m/c" ∷ [])

read_batches-outcomes_example :
    ((read_batches libraries tenths failing config operations 2).0
      ≡ outcomes libraries tenths failing failing-Recovers 0 operations)
    × ((read_batches libraries tenths failing config operations 2).1 ≡ none)
read_batches-outcomes_example =
    read_batches-outcomes libraries tenths failing failing-Recovers config usable operations 2
      (omega arith)
