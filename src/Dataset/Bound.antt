-- ===== src/Dataset/Bound.antt =====
-- dataset_native.go: the commands that a dataset builds, and those that it sends.
use sink_go.Base.{
  ◌≡◌, refl, sym, ap, ◌∙◌, Bool, true, false, not, ◌&&◌, Option, none, some, List, [], ◌∷◌, Bytes,
  bytes_eq, bytes_eq_refl, arith, codes, is_empty, ok, >>=-eq-ok, fail_if,
}
use sink_go.Dataset.{Dataset, validate_dataset}
use sink_go.Dataset.Native.{
  dataset_bson_command, bind_native_command, content_type_of, dataset_execute, dataset_query,
  dataset_count, dataset_scan,
}
use sink_go.Native.Execute.{execute_native}
use sink_go.Native.Query.{QueryRequest, query_native, count_native}
use sink_go.Native.Scan.{ScanRequest, scan_native}
use sink_go.Network.{Network}
use sink_go.Floats.{Floats}
use sink_go.Libraries.{Libraries}
use sink_go.Native.Commands.{Command}
use sink_go.Native.Commands.Bson.{new_bson_command-uri}
use sink_go.Proto.Enums.{DocumentEncoding}
use sink_go.Uri.Text.{trim_space}

module _ (lib : Libraries) (fl : Floats) where
  content_type_of-bson :
      (encoding : DocumentEncoding) (payload : Bytes)
      → content_type_of lib fl encoding (codes "application/bson") payload
        ≡ codes "application/bson"
  unfolding content_type_of
  content_type_of-bson encoding payload = refl

  -- A command for the dataset's resource, with the type of BSON, is bound as it is.
  bound_as_is :
      (d : Dataset fl) (c : Command)
      → c.uri ≡ d.uri
      → c.content_type ≡ codes "application/bson"
      → bind_native_command lib fl (some d) c ≡ ok (d, c)
  unfolding bind_native_command validate_dataset
  bound_as_is d c here bson =
      let same : bytes_eq c.uri d.uri ≡ true =
        ap (λ u. bytes_eq u d.uri) here ∙ bytes_eq_refl d.uri in
      let kept : content_type_of lib fl d.encoding c.content_type c.payload ≡ c.content_type =
        ap (λ t. content_type_of lib fl d.encoding t c.payload) bson
        ∙ content_type_of-bson d.encoding c.payload
        ∙ sym bson in
      rw same (
        rw (not_true (is_empty c.uri)) (
          ap
            (λ u. ok (
              d,
              record c {
                uri = u;
                content_type = content_type_of lib fl d.encoding c.content_type c.payload;
              },
            ))
            (sym here)
          ∙ ap (λ t. ok (d, record c { content_type = t })) kept))
    where
      not_true : (b : Bool) → (not b && not true) ≡ false
      not_true b = ground arith

  -- A command that `Dataset.NewBSONCommand` builds is for the URI of its dataset.
  bind_native_command-bson_command :
      (dataset : Option (Dataset fl)) (operation : Bytes)
      (arguments : List (Bytes × Libraries.Value lib)) (c : Command)
      → dataset_bson_command lib fl dataset operation arguments ≡ ok c
      → (d : Dataset fl) × (dataset ≡ some d)
        × (c.uri ≡ d.uri)
        × (bind_native_command lib fl dataset c ≡ ok (d, c))
  unfolding dataset_bson_command validate_dataset
  bind_native_command-bson_command none operation arguments c h = absurd (cc)
  bind_native_command-bson_command (some d) operation arguments c h =
      let document =
        Libraries.ordered_document lib ((operation, Libraries.text_value lib []) ∷ arguments) in
      let (u, named, h') = >>=-eq-ok (fail_if (is_empty (trim_space operation)) _) _ h in
      let (here, bson) = new_bson_command-uri lib d.uri document h' in
      (d, refl, here, bound_as_is d c here bson)

module _ (lib : Libraries) (fl : Floats) (net : Network fl) where
  open net use {World}

  -- If `Dataset.NewBSONCommand` builds a command, then the command is for the URI of the dataset,
  -- and `Execute`, `Query`, `Count` and `Scan` of the dataset with this command are those of its
  -- client with the same command: it is not rejected for another resource, and its content type
  -- stays. The client's call may still reject it.
  pub dataset-bson_command :
      (dataset : Option (Dataset fl)) (operation : Bytes)
      (arguments : List (Bytes × Libraries.Value lib)) (c : Command) (query : QueryRequest)
      (scan : ScanRequest) (w : World)
      → dataset_bson_command lib fl dataset operation arguments ≡ ok c
      → (d : Dataset fl) × (dataset ≡ some d)
        × (c.uri ≡ d.uri)
        × (dataset_execute lib fl net dataset c w ≡ execute_native lib fl net (some d.client) c w)
        × (dataset_query lib fl net dataset (record query { command = c }) w
            ≡ query_native lib fl net (some d.client) (record query { command = c }) w)
        × (dataset_count lib fl net dataset c w ≡ count_native lib fl net (some d.client) c w)
        × (dataset_scan lib fl net dataset (record scan { command = c }) w
            ≡ scan_native lib fl net (some d.client) (record scan { command = c }) w)
  unfolding dataset_execute dataset_query dataset_count dataset_scan
  dataset-bson_command dataset operation arguments c query scan w h =
      let (d, is_d, here, bound) =
        bind_native_command-bson_command lib fl dataset operation arguments c h in
      (d, is_d, here, rw bound refl, rw bound refl, rw bound refl, rw bound refl)
