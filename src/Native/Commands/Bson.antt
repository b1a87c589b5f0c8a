-- ===== src/Native/Commands/Bson.antt =====
-- native.go: the command that `NewBSONCommand` builds.
use sink_go.Base.{
  ◌≡◌, refl, subst, Bool, true, false, Bytes, codes, Result, ok, err, >>=-eq-ok, ok_eq, fail_if,
  wrap_err,
}
use sink_go.Errors.{Error, wrap}
use sink_go.Libraries.{Libraries}
use sink_go.Native.Commands.{Command, new_bson_command, target_of}
use sink_go.Types.Keys.{from_uri}
use sink_go.Types.Keys.Injective.{from_uri-eq-ok}
use sink_go.Uri.Address.{parse, Address}
use sink_go.Uri.Address.Canonical.{parse-IsCanonical}

module _ (lib : Libraries) where
  target_of-eq-ok :
      (r : Result Error Address) (absent : Bool) {a : Address}
      → target_of lib r absent ≡ ok a
      → r ≡ ok a
  unfolding target_of
  target_of-eq-ok (err e) absent h = cc
  target_of-eq-ok (ok a) true h = cc
  target_of-eq-ok (ok a) false h = h

  -- A BSON command is for the resource that it was made for.
  pub new_bson_command-uri :
      (target : Bytes) (value : Libraries.Value lib) {c : Command}
      → new_bson_command lib target value ≡ ok c
      → (c.uri ≡ target) × (c.content_type ≡ codes "application/bson")
  unfolding new_bson_command
  new_bson_command-uri target value {c} h =
      let (a, ha, h1) =
        >>=-eq-ok (target_of lib (from_uri (parse target)) (Libraries.is_nil lib value)) _ h in
      let (u, hm, h2) = >>=-eq-ok (fail_if (Libraries.is_map lib value) _) _ h1 in
      let (p, hp, e) =
        >>=-eq-ok (wrap_err (wrap "encode BSON command: %w") (Libraries.bson_marshal lib value)) _
          h2 in
      let parsed : parse target ≡ ok a =
        from_uri-eq-ok (parse target)
          (target_of-eq-ok (from_uri (parse target)) (Libraries.is_nil lib value) ha) in
      subst (λ (x : Command). (x.uri ≡ target) × (x.content_type ≡ codes "application/bson"))
        (ok_eq e) ((parse-IsCanonical target parsed).0, refl)
