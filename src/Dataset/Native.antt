-- ===== src/Dataset/Native.antt =====
-- dataset_native.go: native commands and queries on the resource of a dataset.
use sink_go.Base.{
  not, ◌&&◌, Option, some, List, [], ◌∷◌, Bytes, codes, bytes_eq, is_empty, Result, ok, err, ◌>>=◌,
  ◌>>◌, fail_if,
}
use sink_go.Errors.{Error, new, ExecuteResponse}
use sink_go.Floats.{Floats}
use sink_go.Libraries.{Libraries}
use sink_go.Native.Commands.{Command, new_bson_command}
use sink_go.Native.Execute.{execute_native, empty_response}
use sink_go.Native.Query.{QueryRequest, QueryResponse, CountResponse, query_native, count_native}
use sink_go.Native.Scan.{ScanRequest, ScanResponse, scan_native}
use sink_go.Network.{Network}
use sink_go.Proto.Enums.{DocumentEncoding}
use sink_go.Uri.Text.{trim_space}
use sink_go.Dataset.{Dataset, validate_dataset}

module _ (lib : Libraries) (fl : Floats) where
  -- `Dataset.NewBSONCommand`
  unfoldable pub dataset_bson_command :
      Option (Dataset fl) → Bytes → List (Bytes × Libraries.Value lib) → Result Error Command
  dataset_bson_command dataset operation arguments = do
    d ← validate_dataset lib fl dataset "BSON command"
    fail_if (is_empty (trim_space operation)) (new "dataset BSON command requires an operation")
    new_bson_command lib d.uri
        (Libraries.ordered_document lib ((operation, Libraries.text_value lib []) ∷ arguments))

  -- The encoding's content type, where a payload has none.
  unfoldable pub content_type_of : DocumentEncoding → Bytes → Bytes → Bytes
  content_type_of encoding (c ∷ s) payload = c ∷ s
  content_type_of encoding [] [] = []
  content_type_of DocumentEncoding.bson [] (b ∷ payload) = codes "application/bson"
  content_type_of DocumentEncoding.json [] (b ∷ payload) = codes "application/json"
  content_type_of _ [] (b ∷ payload) = []

  -- `bindNativeCommand`
  unfoldable pub bind_native_command :
      Option (Dataset fl) → Command → Result Error (Dataset fl × Command)
  bind_native_command dataset command = do
    d ← validate_dataset lib fl dataset "native command"
    fail_if (not (is_empty command.uri) && not (bytes_eq command.uri d.uri))
        (new "native command URI differs from Dataset resource")
    ok (
      d,
      record command {
        uri = d.uri;
        content_type = content_type_of d.encoding command.content_type command.payload;
      },
    )

module _ (lib : Libraries) (fl : Floats) (net : Network fl) where
  open net use {World}

  execute_bound :
      World → Result Error (Dataset fl × Command) → ExecuteResponse × Option Error × World
  execute_bound w (err e) = (empty_response, some e, w)
  execute_bound w (ok (d, command)) = execute_native lib fl net (some d.client) command w

  -- `Dataset.Execute`
  unfoldable pub dataset_execute :
      Option (Dataset fl) → Command → World → ExecuteResponse × Option Error × World
  unfolding execute_bound
  dataset_execute dataset command w = execute_bound w (bind_native_command lib fl dataset command)

  query_bound :
      QueryRequest
      → World
      → Result Error (Dataset fl × Command)
      → Result Error QueryResponse × World
  query_bound req w (err e) = (err e, w)
  query_bound req w (ok (d, command)) =
      query_native lib fl net (some d.client) (record req { command = command }) w

  -- `Dataset.Query`
  unfoldable pub dataset_query :
      Option (Dataset fl) → QueryRequest → World → Result Error QueryResponse × World
  unfolding query_bound
  dataset_query dataset req w = query_bound req w (bind_native_command lib fl dataset req.command)

  count_bound : World → Result Error (Dataset fl × Command) → Result Error CountResponse × World
  count_bound w (err e) = (err e, w)
  count_bound w (ok (d, command)) = count_native lib fl net (some d.client) command w

  -- `Dataset.Count`
  unfoldable pub dataset_count :
      Option (Dataset fl) → Command → World → Result Error CountResponse × World
  unfolding count_bound
  dataset_count dataset command w = count_bound w (bind_native_command lib fl dataset command)

  scan_bound :
      ScanRequest → World → Result Error (Dataset fl × Command) → Result Error ScanResponse × World
  scan_bound req w (err e) = (err e, w)
  scan_bound req w (ok (d, command)) =
      scan_native lib fl net (some d.client) (record req { command = command }) w

  -- `Dataset.Scan`
  unfoldable pub dataset_scan :
      Option (Dataset fl) → ScanRequest → World → Result Error ScanResponse × World
  unfolding scan_bound
  dataset_scan dataset req w = scan_bound req w (bind_native_command lib fl dataset req.command)
