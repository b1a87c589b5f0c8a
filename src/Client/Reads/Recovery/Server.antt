-- ===== src/Client/Reads/Recovery/Server.antt =====
-- client.go: a server that is unavailable for some calls, and what a read of a batch makes of its answer.
use sink_go.Base.{
  length-append, append_assoc, ℕ, suc, ◌+◌, ◌≡◌, refl, sym, ap, subst, ◌∙◌, Bool, true, false, not,
  ◌&&◌, ◌==◌, some, List, [], ◌∷◌, ◌++◌, map, arith, length, replicate, ℤ, ok, err, ok_eq,
}
use sink_go.Client.BatchLoop.Refines.{answers}
use sink_go.Client.Reads.{PendingRead, place_result, is_retryable, shift_read, absorb, all_pending}
use sink_go.Errors.{Status, unavailable}
use sink_go.Floats.{Floats}
use sink_go.Libraries.{Libraries}
use sink_go.Network.{Network}
use sink_go.Proto as Proto
use sink_go.Results.{decode_items, decode_read_response, read_result}
use sink_go.Results.Loop.InOrder.{Numbered, decode_items-Numbered, set_next}
use sink_go.Types.Outcomes.{ReadResult, zero_read_result}
use sink_go.Client.Reads.Recovery.Reports.{
  read_status_result-shift, read_status_result-placed, read_status_result-index,
}

-- A server that is unavailable for the next `outage` calls, and answers every read from then on, with
-- no failure that is to be retried. Waiting is not cut short, and no wait brings a new outage.
-- `outcome` is what the client makes of the report on an operation.
pub record Recovers (lib : Libraries) (fl : Floats) (net : Network fl) : Type 0 where
  pub outage : Network.World net → ℕ
  pub report : Proto.ReadOperation → Proto.ReadResult
  pub outcome : ℕ → Proto.ReadOperation → ReadResult
  pub well_formed :
      (i : ℕ) (o : Proto.ReadOperation) → read_result lib i (report o) ≡ ok (outcome i o)
  pub settled : (i : ℕ) (o : Proto.ReadOperation) → is_retryable (outcome i o).failure ≡ false
  pub down :
      (request : Proto.ReadRequest) (w : Network.World net) (n : ℕ)
      → outage w ≡ suc n
      → (st : Status) × ((Network.read net request w).0 ≡ err st)
        × ((st.code == unavailable) ≡ true)
        × (outage (Network.read net request w).1 ≡ n)
  pub up :
      (request : Proto.ReadRequest) (w : Network.World net)
      → outage w ≡ 0
      → ((Network.read net request w).0
          ≡ ok (
              some (record {
                results = map some (
                    answers
                      (λ i o (u : Unit {0}). record (report o) { operation_index = i })
                      (λ o u. u)
                      0
                      request.operations
                      tt);
              })))
        × (outage (Network.read net request w).1 ≡ 0)
  pub patient : (d : ℤ) (w : Network.World net) → (Network.sleep net d w).0 ≡ false
  pub quiet_sleep : (d : ℤ) (w : Network.World net) → outage (Network.sleep net d w).1 ≡ outage w
  pub quiet_random : (w : Network.World net) → outage (Network.random net w).1 ≡ outage w

module _ (lib : Libraries) (fl : Floats) (net : Network fl) (server : Recovers lib fl net) where
  open net use {World, read}
  open server use {outage}

  abbrev pub outcome_of : ℕ → Proto.ReadOperation → Unit {0} → ReadResult
  outcome_of i o u = server.outcome i o

  abbrev pub stay : Proto.ReadOperation → Unit {0} → Unit {0}
  stay o u = u

  -- What the reads give, the first of them with the index `i`.
  abbrev pub outcomes : ℕ → List Proto.ReadOperation → List ReadResult
  outcomes i ops = answers outcome_of stay i ops tt

  abbrev reports : ℕ → List Proto.ReadOperation → List Proto.ReadResult
  reports i ops =
      answers (λ j o (u : Unit {0}). record (server.report o) { operation_index = j }) stay i ops tt

  pub outcome-shift :
      (offset i : ℕ) (o : Proto.ReadOperation) (u : Unit {0})
      → shift_read offset (outcome_of i o u) ≡ outcome_of (i + offset) o u
  unfolding read_result
  outcome-shift offset i o u =
      let r = server.report o in
      ok_eq (
        sym (
          read_status_result-shift lib r.status offset i r (server.outcome i o)
            (server.well_formed i o))
        ∙ server.well_formed (i + offset) o)

  outcome-placed :
      (i : ℕ) (o : Proto.ReadOperation) → place_result i (server.outcome i o) ≡ server.outcome i o
  unfolding read_result
  outcome-placed i o =
      let r = server.report o in
      read_status_result-placed lib r.status i r (server.outcome i o) (server.well_formed i o)

  numbered :
      (i : ℕ) (ops : List Proto.ReadOperation)
      → Numbered "Read"
          (λ (r : Proto.ReadResult). r.operation_index)
          (read_result lib)
          i
          (reports i ops)
          (outcomes i ops)
  unfolding read_result
  numbered i [] = tt
  numbered i (o ∷ ops) =
      let r = server.report o in
      (
        refl,
        read_status_result-index lib r.status i i r ∙ server.well_formed i o,
        numbered (suc i) ops,
      )

  all_pending-operations :
      (i : ℕ) (ops : List Proto.ReadOperation)
      → map (λ (p : PendingRead). p.operation) (all_pending i ops) ≡ ops
  unfolding all_pending
  all_pending-operations i [] = refl
  all_pending-operations i (o ∷ ops) = ap (λ l. o ∷ l) (all_pending-operations (suc i) ops)

  length-reports :
      (i j : ℕ) (ops : List Proto.ReadOperation)
      → length (reports i ops) ≡ length (all_pending j ops)
  unfolding all_pending
  length-reports i j [] = refl
  length-reports i j (o ∷ ops) = ap suc (length-reports (suc i) (suc j) ops)

  pub decoded :
      (ops : List Proto.ReadOperation)
      → decode_read_response lib
          (some (record {
            results =
                map some (reports 0 (map (λ (p : PendingRead). p.operation) (all_pending 0 ops)));
          }))
          (length (all_pending 0 ops))
        ≡ ok (outcomes 0 ops)
  unfolding decode_read_response
  decoded ops = rw (all_pending-operations 0 ops) (
      subst
        (λ n.
          decode_items "Read" (λ (r : Proto.ReadResult). r.operation_index) (read_result lib)
            zero_read_result (map some (reports 0 ops)) n
          ≡ ok (outcomes 0 ops))
        (length-reports 0 0 ops)
        (decode_items-Numbered "Read" (λ (r : Proto.ReadResult). r.operation_index)
          (read_result lib) (reports 0 ops) (outcomes 0 ops) zero_read_result (numbered 0 ops)))

  never : (last : Bool) → (not last && false) ≡ false
  never last = ground arith

  pub absorb-outcomes :
      (last : Bool) (i : ℕ) (ops : List Proto.ReadOperation) (made : List ReadResult)
      (z : ReadResult)
      → i ≡ length made
      → absorb last (all_pending i ops) (outcomes i ops) (made ++ replicate (length ops) z)
        ≡ (made ++ outcomes i ops, [])
  unfolding absorb all_pending
  absorb-outcomes last i [] made z e = refl
  absorb-outcomes last i (o ∷ ops) made z e =
      let x = outcome_of i o tt in
      rw (server.settled i o) (
        rw (never last) (
          rw (outcome-placed i o) (
            rw (set_next made (replicate (length ops) z) z x i e) (
              rw
                (absorb-outcomes last (suc i) ops (made ++ x ∷ []) z
                  (omega (arith, length-append made (x ∷ []))))
                (ap (λ l. (l, [])) (append_assoc made (x ∷ []) (outcomes (suc i) ops)))))))
