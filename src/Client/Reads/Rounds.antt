-- ===== src/Client/Reads/Rounds.antt =====
-- client.go: the results of `readOperationsWithRetry`.
use sink_go.Base.{
  ℕ, zero, suc, ◌+◌, ◌<◌, ◌≤◌, ◌≡◌, ◌≢◌, refl, sym, ◌∙◌, subst, Bool, true, false, not, ◌||◌, ◌⊎◌,
  inl, inr, Option, none, some, List, [], ◌∷◌, arith, All, length, is_empty, get_elem?, set,
  length-set, get_elem?-set_self, get_elem?-set_ne, length-replicate, get_elem?-lt,
  All-of_get_elem?, ℤ, Result, ok, err, Bool-cases, ◌==◌, ok_eq,
}
use sink_go.Client.Backoff.{RetryPolicy}
use sink_go.Client.Config.{to_count}
use sink_go.Client.Reads.{
  PendingRead, place_result, move_failure, absorb, all_pending, resume, on_decoded, on_reply,
  read_rounds, read_operations_with_retry,
}
use sink_go.Errors.{Error, Status, OperationError, unavailable}
use sink_go.Floats.{Floats}
use sink_go.Libraries.{Libraries}
use sink_go.Network.{Network}
use sink_go.Proto as Proto
use sink_go.Proto.Enums.{ReadStatus}
use sink_go.Results.{decode_read_response}
use sink_go.Results.Decoded.{Answers, decode_read_response_sound}
use sink_go.Results.Fits.{FailureFits, read_failed}
use sink_go.Types.Outcomes.{ReadResult, zero_read_result}

-- The result is that of operation `i`: by its index, and by its failure, which is there exactly if
-- the status says so.
pub record Placed (i : ℕ) (s : ReadResult) : Type 0 where
  pub index : s.operation_index ≡ i
  pub failure : FailureFits (read_failed s.status) i s.failure

abbrev Fit : ReadResult → Type 0
Fit r = (k : ℕ) × FailureFits (read_failed r.status) k r.failure

move_failure-FailureFits :
    (b : Bool) (k i : ℕ) (f : Option OperationError)
    → FailureFits b k f
    → FailureFits b i (move_failure i f)
move_failure-FailureFits b k i none h = h
move_failure-FailureFits b k i (some f) (e, r) =
    (e, record { about = refl; code_set = r.code_set; message_set = r.message_set })

place_result-Placed : (i : ℕ) (r : ReadResult) → Fit r → Placed i (place_result i r)
place_result-Placed i r (k, h) = record {
  index = refl;
  failure = move_failure-FailureFits (read_failed r.status) k i r.failure h;
}

abbrev PlacedAt : List ReadResult → ℕ → Type 0
PlacedAt results i = (s : ReadResult) × (get_elem? results i ≡ some s) × Placed i s

PlacedAt-set :
    (results : List ReadResult) (j : ℕ) (r : ReadResult) (i : ℕ)
    → Fit r
    → PlacedAt results i
    → PlacedAt (set results j (place_result j r)) i
PlacedAt-set results j r i fit (s, at, p) = elim (Bool-cases (j == i)) [
  | inl same ↦
      let e : j ≡ i = ground arith in
      subst (PlacedAt (set results j (place_result j r))) e (
        place_result j r,
        get_elem?-set_self results j _
            (subst (λ k. k < length results) (sym e) (get_elem?-lt results i at)),
        place_result-Placed j r fit,
      )
  | inr differs ↦ let ne : j ≢ i = ground arith in (s, get_elem?-set_ne results _ ne ∙ at, p)
]

absorb_keeps :
    (last : Bool) (pending : List PendingRead) (decoded results : List ReadResult) (i : ℕ)
    → All Fit decoded
    → PlacedAt results i
    → PlacedAt (absorb last pending decoded results).0 i
unfolding absorb
absorb_keeps last [] decoded results i fits h = h
absorb_keeps last (work ∷ pending) [] results i fits h = h
absorb_keeps last (work ∷ pending) (r ∷ decoded) results i (fit, fits) h =
    absorb_keeps last pending decoded (set results work.index (place_result work.index r)) i fits
      (PlacedAt-set results work.index r i fit h)

length-absorb :
    (last : Bool) (pending : List PendingRead) (decoded results : List ReadResult)
    → length (absorb last pending decoded results).0 ≡ length results
unfolding absorb
length-absorb last [] decoded results = refl
length-absorb last (work ∷ pending) [] results = refl
length-absorb last (work ∷ pending) (r ∷ decoded) results =
    length-absorb last pending decoded _ ∙ length-set results work.index _

-- Some pending read is that of operation `i`.
abbrev HasIndex : ℕ → List PendingRead → Type 0
HasIndex i [] = ⊥
HasIndex i (work ∷ pending) = (work.index ≡ i) ⊎ HasIndex i pending

absorb_places :
    (last : Bool) (pending : List PendingRead) (decoded results : List ReadResult) (i : ℕ)
    → length decoded ≡ length pending
    → All Fit decoded
    → i < length results
    → HasIndex i pending
    → PlacedAt (absorb last pending decoded results).0 i
unfolding absorb
absorb_places last [] decoded results i e fits lt h = absurd h
absorb_places last (work ∷ pending) [] results i e fits lt h = absurd (omega arith)
absorb_places last (work ∷ pending) (r ∷ decoded) results i e (fit, fits) lt (inl same) =
    absorb_keeps last pending decoded (set results work.index (place_result work.index r)) i fits (
      subst (PlacedAt (set results work.index (place_result work.index r))) same (
        place_result work.index r,
        get_elem?-set_self results work.index _ (subst (λ k. k < length results) (sym same) lt),
        place_result-Placed work.index r fit,
      ))
absorb_places last (work ∷ pending) (r ∷ decoded) results i e (fit, fits) lt (inr later) =
    absorb_places last pending decoded _ i (omega arith) fits
      (omega (arith, length-set results work.index (place_result work.index r))) later

-- After the last round nothing is read again.
absorb_last :
    (pending : List PendingRead) (decoded results : List ReadResult)
    → (absorb true pending decoded results).1 ≡ []
unfolding absorb
absorb_last [] decoded results = refl
absorb_last (work ∷ pending) [] results = refl
absorb_last (work ∷ pending) (r ∷ decoded) results = absorb_last pending decoded _

-- Each of the first `n` operations has its result, or is pending.
abbrev Covers : ℕ → List PendingRead → List ReadResult → Type 0
Covers n pending results = (i : ℕ) → i < n → HasIndex i pending ⊎ PlacedAt results i

abbrev AllPlaced : ℕ → List ReadResult → Type 0
AllPlaced n results = (i : ℕ) → i < n → PlacedAt results i

-- A call that succeeds has answered `n` operations.
abbrev pub Gives {κ} : {W : Type κ} → ℕ → Result Error (List ReadResult) × W → Type 0
Gives n r = (out : List ReadResult) → r.0 ≡ ok out → Answers Placed n out

all_pending-HasIndex :
    (start : ℕ) (ops : List Proto.ReadOperation) (i : ℕ)
    → start ≤ i
    → i < start + length ops
    → HasIndex i (all_pending start ops)
unfolding all_pending
all_pending-HasIndex start [] i h lt = absurd (omega arith)
all_pending-HasIndex start (op ∷ ops) i h lt = elim (Bool-cases (start == i)) [
  | inl e ↦ inl (ground arith)
  | inr e ↦ inr (all_pending-HasIndex (suc start) ops i (ground arith) (omega arith))
]

decoded_fits :
    (lib : Libraries) (response : Option Proto.ReadResponse) (n : ℕ) (decoded : List ReadResult)
    → decode_read_response lib response n ≡ ok decoded
    → (length decoded ≡ n) × All Fit decoded
decoded_fits lib none n decoded h = absurd (unfold decode_read_response in cc)
decoded_fits lib (some response) n decoded h =
    let (e, answers) = decode_read_response_sound lib response.results n h in
    (
      e,
      All-of_get_elem? decoded λ i lt.
          let (s, at, a) = answers i (omega arith) in
          (
            s,
            at,
            (
              i,
              subst (λ (t : ReadStatus). FailureFits (read_failed t) i s.failure) (sym a.status)
                  a.failure,
            ),
          ),
    )

module _ (lib : Libraries) (fl : Floats) (net : Network fl) where
  open net use {World}

  resume-Gives :
      (n : ℕ) (waited : Result Error (Unit {0})) (w : World)
      (r : Result Error (List ReadResult) × World)
      → Gives n r
      → Gives n (resume lib fl net waited w r)
  unfolding resume
  resume-Gives n (err e) w r h out eq = absurd (cc)
  resume-Gives n (ok _) w r h out eq = h out eq

  module _ (n : ℕ) (last : Bool) (pending : List PendingRead) (results : List ReadResult)
      (w1 : World) (waited : Result Error (Unit {0}) × World)
      (next_round : List PendingRead → List ReadResult → Result Error (List ReadResult) × World)
      (sized : length results ≡ n) (covered : Covers n pending results) where
    on_decoded-Gives :
        (d : Result Error (List ReadResult))
        → ((decoded : List ReadResult)
            → d ≡ ok decoded
            → (length decoded ≡ length pending) × All Fit decoded)
        → ((next : List PendingRead) (results' : List ReadResult)
            → length results' ≡ n
            → AllPlaced n results'
            → Gives n (next_round next results'))
        → Gives n (on_decoded lib fl net last pending results w1 waited next_round d)
    unfolding on_decoded
    on_decoded-Gives (err e) fits later out eq = absurd (cc)
    on_decoded-Gives (ok decoded) fits later out eq =
        let (e, fit) = fits decoded refl in
        let results' = (absorb last pending decoded results).0 in
        let next = (absorb last pending decoded results).1 in
        let sized' : length results' ≡ n = length-absorb last pending decoded results ∙ sized in
        let placed : AllPlaced n results' = λ i lt. elim (covered i lt) [
          | inl waiting ↦ absorb_places last pending decoded results i e fit (omega arith) waiting
          | inr already ↦ absorb_keeps last pending decoded results i fit already
        ] in
        elim (Bool-cases (is_empty next)) [
          | inl done ↦
              let same : results' ≡ out = ok_eq (rw done at eq) in
              subst (Answers Placed n) same (sized', placed)
          | inr more ↦
              resume-Gives n waited.0 waited.1 _ (later next results' sized' placed) out
                (rw more at eq)
        ]

    on_reply-Gives :
        (reply : Result Status (Option Proto.ReadResponse))
        → ((next : List PendingRead) (results' : List ReadResult)
            → length results' ≡ n
            → Covers n next results'
            → last ≡ false ⊎ AllPlaced n results'
            → Gives n (next_round next results'))
        → Gives n (on_reply lib fl net last pending results w1 waited next_round reply)
    unfolding on_reply
    on_reply-Gives (err st) later = elim (Bool-cases (last || not (st.code == unavailable))) [
      | inl stop ↦ rw stop (λ out eq. absurd (cc))
      | inr retry ↦ rw retry (
          resume-Gives n waited.0 waited.1 _
            (later pending results sized covered (inl (ground arith))))
    ]
    on_reply-Gives (ok response) later =
        on_decoded-Gives (decode_read_response lib response (length pending))
          (decoded_fits lib response (length pending))
          (λ next results' sized' placed.
            later next results' sized' (λ i lt. inr (placed i lt)) (inr placed))

  module _ (policy : RetryPolicy fl) where
    read_rounds-Gives :
        (n left : ℕ) (pending : List PendingRead) (backoff : ℤ) (results : List ReadResult)
        (w : World)
        → length results ≡ n
        → Covers n pending results
        → (0 < left) ⊎ AllPlaced n results
        → Gives n (read_rounds lib fl net policy left pending backoff results w)
    unfolding read_rounds
    read_rounds-Gives n zero pending backoff results w sized covered (inl h) out eq =
        absurd (omega arith)
    read_rounds-Gives n zero pending backoff results w sized covered (inr placed) out eq =
        subst (Answers Placed n) (ok_eq eq) (sized, placed)
    read_rounds-Gives n (suc left) pending backoff results w sized covered more out eq =
        on_reply-Gives n (left == 0) pending results _ _ _ sized covered _
          (λ next results' sized' covered' rest.
            read_rounds-Gives n left next _ results' _ sized' covered'
              (elim rest [ inl again ↦ inl (ground arith) | inr placed ↦ inr placed ]))
          out eq

    -- A batch that is read has one result for each operation, at its place and under its index. At
    -- least one attempt is needed, which every normalised policy allows.
    pub read_operations_with_retry-Gives :
        (operations : List Proto.ReadOperation) (w : World)
        → 0 < to_count policy.max_attempts
        → Gives (length operations) (read_operations_with_retry lib fl net policy operations w)
    unfolding read_operations_with_retry
    read_operations_with_retry-Gives operations w h =
        read_rounds-Gives (length operations) _ (all_pending 0 operations) _ _ w
          (length-replicate (length operations) zero_read_result)
          (λ i lt. inl (all_pending-HasIndex 0 operations i (omega arith) (omega arith))) (inl h)
