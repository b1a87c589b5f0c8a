-- ===== src/Native/Commands/Order.antt =====
-- native.go: the message of a command, whatever the order in which the loop over the map of headers
-- comes upon them.
use mathlib.Core.List.{Permᴰ}
use sink_go.Base.{
  ◌≡◌, refl, sym, ap, subst, ◌∙◌, Bool, true, false, not, ◌&&◌, ◌||◌, List, [], ◌∷◌, map, All,
  arith, Bytes, codes, bytes_eq, bytes_eq→eq, bytes_eq_refl, is_empty, Result, ok, fail_if,
  fail_if-eq-ok, >>=-eq-ok, ok_eq, wrap_err, Bool-cases, inl, inr, if◌then◌else◌,
}
use sink_go.Errors.{Error, wrap}
use sink_go.Types.Keys.{from_uri}
use sink_go.Uri.Address.{parse}
use sink_go.Libraries.{Libraries}
use sink_go.Native.Commands.{
  Command, Headers, equal_fold, bytes_le, insert_name, sort_names, values_of, header_names,
  header_of, sorted_headers, validate_content, command_to_proto,
}
use sink_go.Proto.Native as Native

bytes_le_total : (s t : Bytes) → bytes_le s t ≡ false → bytes_le t s ≡ true
unfolding bytes_le
bytes_le_total [] t h = ground arith
bytes_le_total (a ∷ s) [] h = refl
bytes_le_total (a ∷ s) (b ∷ t) h = ground (arith, bytes_le_total s t)

bytes_le_antisym : (s t : Bytes) → bytes_le s t ≡ true → bytes_le t s ≡ true → s ≡ t
unfolding bytes_le
bytes_le_antisym [] [] h k = refl
bytes_le_antisym [] (b ∷ t) h k = ground arith
bytes_le_antisym (a ∷ s) [] h k = ground arith
bytes_le_antisym (a ∷ s) (b ∷ t) h k = ground (arith, bytes_le_antisym s t)

bytes_le_trans : (s t u : Bytes) → bytes_le s t ≡ true → bytes_le t u ≡ true → bytes_le s u ≡ true
unfolding bytes_le
bytes_le_trans [] t u h k = refl
bytes_le_trans (a ∷ s) [] u h k = ground arith
bytes_le_trans (a ∷ s) (b ∷ t) [] h k = ground arith
bytes_le_trans (a ∷ s) (b ∷ t) (c ∷ u) h k = ground (arith, bytes_le_trans s t u)

insert_name_lt :
    (a b : Bytes) (l : List Bytes)
    → bytes_le a b ≡ true
    → bytes_le b a ≡ false
    → insert_name a (insert_name b l) ≡ insert_name b (insert_name a l)
unfolding insert_name
insert_name_lt a b [] ab ba = rw ab (rw ba refl)
insert_name_lt a b (n ∷ l) ab ba = elim (Bool-cases (bytes_le b n)) [
  | inl bn ↦ rw bn (rw (bytes_le_trans a b n ab bn) (rw ab (rw ba (rw bn refl))))
  | inr bn ↦ elim (Bool-cases (bytes_le a n)) [
    | inl an ↦ rw bn (rw an (rw ba (rw bn refl)))
    | inr an ↦ rw bn (rw an (rw bn (ap (λ names. n ∷ names) (insert_name_lt a b l ab ba))))
  ]
]

-- Two names go into a list in any order.
insert_name_comm :
    (a b : Bytes) (l : List Bytes)
    → insert_name a (insert_name b l) ≡ insert_name b (insert_name a l)
insert_name_comm a b l = elim (Bool-cases (bytes_le a b)) [
  | inl ab ↦ elim (Bool-cases (bytes_le b a)) [
    | inl ba ↦
        subst (λ c. insert_name a (insert_name c l) ≡ insert_name c (insert_name a l))
          (bytes_le_antisym a b ab ba) refl
    | inr ba ↦ insert_name_lt a b l ab ba
  ]
  | inr ab ↦ elim (Bool-cases (bytes_le b a)) [
    | inl ba ↦ sym (insert_name_lt b a l ba ab)
    | inr ba ↦ absurd (apart (bytes_le_total a b ab) ba)
  ]
]
  where
    apart : {c : Bool} → c ≡ true → c ≡ false → ⊥
    apart h k = cc

module _ {ℓ} {A : Type ℓ} (P : A → Type 0) where
  All-Permᴰ : {l m : List A} → Permᴰ l m → All P l → All P m
  All-Permᴰ Permᴰ.nil h = tt
  All-Permᴰ (Permᴰ.cons e d) (p, h) = (subst P e p, All-Permᴰ d h)
  All-Permᴰ (Permᴰ.swap e f) (p, (q, h)) = (subst P f q, (subst P e p, h))
  All-Permᴰ (Permᴰ.trans d e) h = All-Permᴰ e (All-Permᴰ d h)

-- A map has a name once.
abbrev pub Distinct : Headers → Type 0
Distinct [] = Unit
Distinct (x ∷ headers) = All (λ y. bytes_eq x.0 y.0 ≡ false) headers × Distinct headers

names_of : Headers → List Bytes
names_of headers = map (λ (x : Bytes × List Bytes). x.0) headers

sort_names-Permᴰ : {h k : Headers} → Permᴰ h k → sort_names (names_of h) ≡ sort_names (names_of k)
unfolding sort_names names_of
sort_names-Permᴰ Permᴰ.nil = refl
sort_names-Permᴰ (Permᴰ.cons {b = b} {l₁ = l} e d) =
    ap (λ x. insert_name x.0 (sort_names (names_of l))) e
    ∙ ap (insert_name b.0) (sort_names-Permᴰ d)
sort_names-Permᴰ (Permᴰ.swap {a = a} {b = b} {a' = a'} {l = l} e f) =
    insert_name_comm a.0 b.0 (sort_names (names_of l))
    ∙ ap (λ x. insert_name x.0 (insert_name a.0 (sort_names (names_of l)))) f
    ∙ ap (λ x. insert_name a'.0 (insert_name x.0 (sort_names (names_of l)))) e
sort_names-Permᴰ (Permᴰ.trans d e) = sort_names-Permᴰ d ∙ sort_names-Permᴰ e

bytes_eq_comm : (s t : Bytes) → bytes_eq s t ≡ bytes_eq t s
bytes_eq_comm [] [] = refl
bytes_eq_comm [] (b ∷ t) = refl
bytes_eq_comm (a ∷ s) [] = refl
bytes_eq_comm (a ∷ s) (b ∷ t) = ground (arith, bytes_eq_comm s t)

Distinct-swap :
    (a b : Bytes × List Bytes) (l : Headers) → Distinct (a ∷ b ∷ l) → Distinct (b ∷ a ∷ l)
Distinct-swap a b l ((ab, al), (bl, h)) = ((bytes_eq_comm b.0 a.0 ∙ ab, bl), (al, h))

Distinct-Permᴰ : {h k : Headers} → Permᴰ h k → Distinct h → Distinct k
Distinct-Permᴰ Permᴰ.nil h = tt
Distinct-Permᴰ (Permᴰ.cons {l₂ = m} e d) (p, h) = (
  subst (λ (x : Bytes × List Bytes). All (λ (y : Bytes × List Bytes). bytes_eq x.0 y.0 ≡ false) m) e
      (All-Permᴰ _ d p),
  Distinct-Permᴰ d h,
)
Distinct-Permᴰ (Permᴰ.swap {a = a} {b = b} {a' = a'} {l = l} e f) h =
    subst (λ x. Distinct (a' ∷ x ∷ l)) e
      (subst (λ x. Distinct (x ∷ a ∷ l)) f (Distinct-swap a b l h))
Distinct-Permᴰ (Permᴰ.trans d e) h = Distinct-Permᴰ e (Distinct-Permᴰ d h)

values_of-swap :
    (a b : Bytes × List Bytes) (l : Headers) (name : Bytes)
    → bytes_eq a.0 b.0 ≡ false
    → values_of (a ∷ b ∷ l) name ≡ values_of (b ∷ a ∷ l) name
unfolding values_of
values_of-swap a b l name apart = elim (Bool-cases (bytes_eq a.0 name)) [
  | inl at_a ↦ elim (Bool-cases (bytes_eq b.0 name)) [
    | inl at_b ↦ absurd (clash (bytes_eq→eq a.0 name at_a) (bytes_eq→eq b.0 name at_b))
    | inr off_b ↦ rw at_a (rw off_b refl)
  ]
  | inr off_a ↦ rw off_a refl
]
  where
    clash : a.0 ≡ name → b.0 ≡ name → ⊥
    clash e f =
        let same : bytes_eq a.0 b.0 ≡ true = ap (bytes_eq a.0) (f ∙ sym e) ∙ bytes_eq_refl a.0 in cc

values_of-Permᴰ :
    {h k : Headers} → Permᴰ h k → Distinct h → (name : Bytes) → values_of h name ≡ values_of k name
unfolding values_of
values_of-Permᴰ Permᴰ.nil distinct name = refl
values_of-Permᴰ (Permᴰ.cons {b = b} {l₁ = l} e d) (p, distinct) name =
    ap (λ x. values_of (x ∷ l) name) e
    ∙ ap (λ values. if bytes_eq b.0 name then b.1 else values) (values_of-Permᴰ d distinct name)
values_of-Permᴰ (Permᴰ.swap {a = a} {b = b} {a' = a'} {l = l} e f) ((ab, al), more) name =
    values_of-swap a b l name ab
    ∙ ap (λ x. values_of (x ∷ a ∷ l) name) f
    ∙ ap (λ x. values_of (a' ∷ x ∷ l) name) e
values_of-Permᴰ (Permᴰ.trans d e) distinct name =
    values_of-Permᴰ d distinct name ∙ values_of-Permᴰ e (Distinct-Permᴰ d distinct) name

-- What the loop over the map wants of a header.
Fine : Bytes × List Bytes → Type 0
Fine x = ((is_empty x.0 || is_empty x.1) ≡ false) × (equal_fold x.0 (codes "Content-Type") ≡ false)

header_names-eq-ok :
    (headers : Headers) {names : List Bytes}
    → header_names headers ≡ ok names
    → All Fine headers × (names ≡ names_of headers)
unfolding header_names names_of Fine
header_names-eq-ok [] h = (tt, sym (ok_eq h))
header_names-eq-ok (x ∷ headers) h =
    let (u, a, h1) = >>=-eq-ok (fail_if (is_empty x.0 || is_empty x.1) _) _ h in
    let (u', b, h2) = >>=-eq-ok (fail_if (equal_fold x.0 (codes "Content-Type")) _) _ h1 in
    let (names, c, e) = >>=-eq-ok (header_names headers) _ h2 in
    let (fine, same) = header_names-eq-ok headers c in
    (((fail_if-eq-ok _ _ a, fail_if-eq-ok _ _ b), fine), sym (ok_eq e) ∙ ap (λ l. x.0 ∷ l) same)

header_names-Fine :
    (headers : Headers) → All Fine headers → header_names headers ≡ ok (names_of headers)
unfolding header_names names_of Fine
header_names-Fine [] h = refl
header_names-Fine (x ∷ headers) ((a, b), h) = rw a (rw b (rw (header_names-Fine headers h) refl))

sorted_headers-Permᴰ :
    {h k : Headers}
    → Distinct h
    → Permᴰ h k
    → sorted_headers h (names_of h) ≡ sorted_headers k (names_of k)
unfolding sorted_headers
sorted_headers-Permᴰ {h} {k} distinct d =
    by_name (sort_names (names_of h)) ∙ ap (map (header_of k)) (sort_names-Permᴰ d)
  where
    by_name : (names : List Bytes) → map (header_of h) names ≡ map (header_of k) names
    by_name [] = refl
    by_name (n ∷ names) =
        ap (λ values. record { name = n; values = values } ∷ map (header_of h) names)
          (values_of-Permᴰ d distinct n)
        ∙ ap (λ l. header_of k n ∷ l) (by_name names)

module _ (lib : Libraries) where
  -- If a command whose header names are distinct, as those of a map are, has a message, then with
  -- its headers in any other order it has the same message: the order in which the loop comes upon
  -- the entries of the map does not show.
  pub command_to_proto-Permᴰ :
      (c : Command) (headers : Headers) (m : Native.Command)
      → Distinct c.headers
      → Permᴰ c.headers headers
      → command_to_proto lib c ≡ ok m
      → command_to_proto lib (record c { headers = headers }) ≡ ok m
  unfolding command_to_proto
  command_to_proto-Permᴰ c headers m distinct d h =
      let (parsed, a, h1) =
        >>=-eq-ok (wrap_err (wrap "native command URI: %w") (from_uri (parse c.uri))) _ h in
      let (u, b, h2) =
        >>=-eq-ok (fail_if (not (is_empty c.payload) && is_empty c.content_type) _) _ h1 in
      let (v, e, h3) = >>=-eq-ok (validate_content lib c.content_type c.payload) _ h2 in
      let (names, f, h4) = >>=-eq-ok (header_names c.headers) _ h3 in
      let (fine, same) = header_names-eq-ok c.headers f in
      let with_headers : List Native.Header → Result Error Native.Command = λ hs. ok (record {
        uri = c.uri;
        method = c.method;
        path = c.path;
        query = c.query;
        headers = hs;
        content_type = c.content_type;
        payload = c.payload;
      }) in
      rw a (
        rw b (
          rw e (
            rw (header_names-Fine headers (All-Permᴰ Fine d fine)) (
              ap with_headers
                (sym (sorted_headers-Permᴰ distinct d) ∙ sym (ap (sorted_headers c.headers) same))
              ∙ h4))))
