-- ===== src/Native/Pages.antt =====
-- native.go and query.go: projections, and the documents of a page.
use sink_go.Base.{
  suc, ◌≡◌, ap, sym, ◌∙◌, Bool, false, not, ◌||◌, Option, none, some, List, [], ◌∷◌, length, Bytes,
  bytes_eq, is_empty, Result, ok, ◌>>=◌, ◌>>◌, fail_if, wrap_err, String, >>=-eq-ok, ok_eq,
}
use sink_go.Errors.{Error, new, protocol}
use sink_go.Libraries.{Libraries}
use sink_go.Proto as Proto
use sink_go.Proto.Native as Native
use sink_go.Types.Documents.{Document, document_from_proto}
use sink_go.Uri.Text.{trim_space}
use sink_go.Uri.Utf8.{valid_string}

pub record Projection : Type 0 where
  pub fields : List Bytes
  pub exclude : Bool

-- Does the set hold the text?
unfoldable pub seen_before : List Bytes → Bytes → Bool
seen_before [] field = false
seen_before (f ∷ seen) field = bytes_eq f field || seen_before seen field

-- The loop over the fields of a projection.
unfoldable pub validate_fields : List Bytes → List Bytes → Result Error (Unit {0})
validate_fields seen [] = ok tt
validate_fields seen (f ∷ fields) = do
  fail_if (is_empty (trim_space f) || not (valid_string f) || seen_before seen f)
      (new "projection fields must be nonempty, valid UTF-8 and unique")
  validate_fields (f ∷ seen) fields

-- `Projection.toProto`
unfoldable pub projection_to_proto : Option Projection → Result Error (Option Native.Projection)
projection_to_proto none = ok none
projection_to_proto (some p) = do
  validate_fields [] p.fields
  ok (some (record { fields = p.fields; exclude = p.exclude }))

module _ (lib : Libraries) where
  -- The loop over the documents of a response.
  unfoldable pub page_documents :
      String → List (Option Proto.Document) → Result Error (List Document)
  page_documents method [] = ok []
  page_documents method (raw ∷ documents) = do
    document ← wrap_err (protocol method) (document_from_proto lib raw)
    rest ← page_documents method documents
    ok (document ∷ rest)

  pub length-page_documents :
      (method : String) (raws : List (Option Proto.Document)) {out : List Document}
      → page_documents method raws ≡ ok out
      → length out ≡ length raws
  unfolding page_documents
  length-page_documents method [] h = ap length (sym (ok_eq h))
  length-page_documents method (raw ∷ raws) h =
      let (d, hd, h') = >>=-eq-ok (wrap_err (protocol method) (document_from_proto lib raw)) _ h in
      let (rest, hr, e) = >>=-eq-ok (page_documents method raws) _ h' in
      ap length (sym (ok_eq e)) ∙ ap suc (length-page_documents method raws hr)
