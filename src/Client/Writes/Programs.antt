-- ===== src/Client/Writes/Programs.antt =====
-- client.go: the programs that `writeBatch` sends with its operations.
use sink_go.Base.{
  ◌≡◌, refl, sym, subst, bytes_eq→eq, Bool, true, false, not, ◌&&◌, ◌||◌, List, [], ◌∷◌, map, arith,
  All, All-weaken, Bytes, bytes_eq, bytes_eq_refl, Bool-cases, inl, inr,
}
use sink_go.Client.Writes.{merges, contains, lua_programs}
use sink_go.Proto as Proto
use sink_go.Types.Operations.{WriteOperation}

abbrev pub digests : List Proto.LuaProgram → List Bytes
digests programs = map (λ (p : Proto.LuaProgram). p.sha256) programs

-- The digest of the operation's program is among those given, if it merges.
abbrev pub Carried : List Bytes → WriteOperation → Type 0
Carried carried o = merges o.action ≡ true → contains carried o.merge.program.sha256 ≡ true

-- No digest stands twice.
abbrev pub Once : List Bytes → Type 0
Once [] = Unit
Once (d ∷ ds) = (contains ds d ≡ false) × Once ds

abbrev Covered : List Bytes → List Bytes → WriteOperation → Type 0
Covered seen sent o =
    merges o.action ≡ true
    → (contains seen o.merge.program.sha256 || contains sent o.merge.program.sha256) ≡ true

shift_seen :
    (d : Bytes) (seen sent : List Bytes) (o : WriteOperation)
    → Covered (d ∷ seen) sent o
    → Covered seen (d ∷ sent) o
unfolding contains
shift_seen d seen sent o h m =
    let k = h m in
    rotate (bytes_eq d o.merge.program.sha256) (contains seen o.merge.program.sha256)
      (contains sent o.merge.program.sha256) k
  where
    rotate : (a b c : Bool) → ((a || b) || c) ≡ true → (b || (a || c)) ≡ true
    rotate a b c h = ground arith

first_sent :
    (d : Bytes) (seen sent : List Bytes) → (contains seen d || contains (d ∷ sent) d) ≡ true
unfolding contains
first_sent d seen sent = rw (bytes_eq_refl d) (any_true (contains seen d))
  where
    any_true : (a : Bool) → (a || true) ≡ true
    any_true a = ground arith

abbrev program_of : WriteOperation → Proto.LuaProgram
program_of o = record { source = o.merge.program.source; sha256 = o.merge.program.sha256 }

lua_programs_fresh :
    (seen : List Bytes) (o : WriteOperation) (ops : List WriteOperation)
    → (merges o.action && not (contains seen o.merge.program.sha256)) ≡ true
    → program_of o ∷ lua_programs (o.merge.program.sha256 ∷ seen) ops ≡ lua_programs seen (o ∷ ops)
unfolding lua_programs
lua_programs_fresh seen o ops h = rw h refl

lua_programs_known :
    (seen : List Bytes) (o : WriteOperation) (ops : List WriteOperation)
    → (merges o.action && not (contains seen o.merge.program.sha256)) ≡ false
    → lua_programs seen ops ≡ lua_programs seen (o ∷ ops)
unfolding lua_programs
lua_programs_known seen o ops h = rw h refl

lua_programs-Covered :
    (seen : List Bytes) (ops : List WriteOperation)
    → All (Covered seen (digests (lua_programs seen ops))) ops
lua_programs-Covered seen [] = tt
lua_programs-Covered seen (o ∷ ops) =
    let d = o.merge.program.sha256 in
    elim (Bool-cases (merges o.action && not (contains seen d))) [
      | inl fresh ↦
          subst (λ ps. All (Covered seen (digests ps)) (o ∷ ops))
            (lua_programs_fresh seen o ops fresh)
            (
              λ m. first_sent d seen (digests (lua_programs (d ∷ seen) ops)),
              All-weaken (shift_seen d seen (digests (lua_programs (d ∷ seen) ops))) ops
                  (lua_programs-Covered (d ∷ seen) ops),
            )
      | inr known ↦
          subst (λ ps. All (Covered seen (digests ps)) (o ∷ ops))
            (lua_programs_known seen o ops known)
            (
              λ m.
                  already (merges o.action) (contains seen d)
                    (contains (digests (lua_programs seen ops)) d) m known,
              lua_programs-Covered seen ops,
            )
    ]
  where
    already : (a b c : Bool) → a ≡ true → (a && not b) ≡ false → (b || c) ≡ true
    already a b c h k = ground arith

absent_here :
    (d e : Bytes) (seen : List Bytes) → contains (d ∷ seen) e ≡ false → contains seen e ≡ false
unfolding contains
absent_here d e seen h = or_false (bytes_eq d e) (contains seen e) h
  where
    or_false : (a b : Bool) → (a || b) ≡ false → b ≡ false
    or_false a b h = ground arith

absent_later :
    (d : Bytes) (seen ds : List Bytes)
    → All (λ e. contains (d ∷ seen) e ≡ false) ds
    → contains ds d ≡ false
unfolding contains
absent_later d seen [] h = refl
absent_later d seen (e ∷ ds) (he, h) =
    let differs : bytes_eq e d ≡ false = bytes_eq_sym_false d e (contains seen e) he in
    rw differs (absent_later d seen ds h)
  where
    bytes_eq_sym_false :
        (d e : Bytes) (b : Bool) → (bytes_eq d e || b) ≡ false → bytes_eq e d ≡ false
    bytes_eq_sym_false d e b h = elim (Bool-cases (bytes_eq e d)) [
      | inr differ ↦ differ
      | inl same ↦
          let back : bytes_eq d e ≡ true =
            subst (λ t. bytes_eq d t ≡ true) (sym (bytes_eq→eq e d same)) (bytes_eq_refl d) in
          absurd (ground arith)
    ]

lua_programs-Once :
    (seen : List Bytes) (ops : List WriteOperation)
    → All (λ d. contains seen d ≡ false) (digests (lua_programs seen ops))
      × Once (digests (lua_programs seen ops))
lua_programs-Once seen [] = unfold lua_programs in (tt, tt)
lua_programs-Once seen (o ∷ ops) =
    let d = o.merge.program.sha256 in
    elim (Bool-cases (merges o.action && not (contains seen d))) [
      | inl fresh ↦
          let (unseen, once) = lua_programs-Once (d ∷ seen) ops in
          let ds = digests (lua_programs (d ∷ seen) ops) in
          subst (λ ps. All (λ e. contains seen e ≡ false) (digests ps) × Once (digests ps))
            (lua_programs_fresh seen o ops fresh)
            (
              (
                new_here (merges o.action) (contains seen d) fresh,
                All-weaken (λ e h. absent_here d e seen h) ds unseen,
              ),
              (absent_later d seen ds unseen, once),
            )
      | inr known ↦
          subst (λ ps. All (λ e. contains seen e ≡ false) (digests ps) × Once (digests ps))
            (lua_programs_known seen o ops known) (lua_programs-Once seen ops)
    ]
  where
    new_here : (a b : Bool) → (a && not b) ≡ true → b ≡ false
    new_here a b h = ground arith

-- The digest of a merge names the source of its program.
abbrev pub Named : (Bytes → Bytes) → WriteOperation → Type 0
Named sources o = merges o.action ≡ true → sources o.merge.program.sha256 ≡ o.merge.program.source

abbrev pub Sourced : (Bytes → Bytes) → Proto.LuaProgram → Type 0
Sourced sources p = sources p.sha256 ≡ p.source

-- Every program that is sent has the source that its digest names.
pub lua_programs-Sourced :
    (sources : Bytes → Bytes) (seen : List Bytes) (ops : List WriteOperation)
    → All (Named sources) ops
    → All (Sourced sources) (lua_programs seen ops)
lua_programs-Sourced sources seen [] h = unfold lua_programs in tt
lua_programs-Sourced sources seen (o ∷ ops) (named, h) =
    let d = o.merge.program.sha256 in
    elim (Bool-cases (merges o.action && not (contains seen d))) [
      | inl fresh ↦ subst (All (Sourced sources)) (lua_programs_fresh seen o ops fresh) (
        named (first (merges o.action) (contains seen d) fresh),
        lua_programs-Sourced sources (d ∷ seen) ops h,
      )
      | inr known ↦
          subst (All (Sourced sources)) (lua_programs_known seen o ops known)
            (lua_programs-Sourced sources seen ops h)
    ]
  where
    first : (a b : Bool) → (a && not b) ≡ true → a ≡ true
    first a b h = ground arith

-- The programs have the digest of the program of every merge, and no digest twice.
pub lua_programs-Carried :
    (ops : List WriteOperation)
    → All (Carried (digests (lua_programs [] ops))) ops × Once (digests (lua_programs [] ops))
lua_programs-Carried ops = (
  All-weaken (λ o h m. unfold contains in h m) ops (lua_programs-Covered [] ops),
  (lua_programs-Once [] ops).1,
)
