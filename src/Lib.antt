-- ===== src/Lib.antt =====
-- The Go client of Sink, a service that stores records in databases behind one RPC interface.
--
-- The program's parts and the files that model them:
--   * uri/address.go, canonical `sink://` addresses: Uri/Address.antt. Texts are lists of byte values.
--     The functions of Go's library that it calls are in Uri/Escape.antt (`url.PathEscape` and
--     `url.PathUnescape`), Uri/Utf8.antt (`utf8.ValidString`) and Uri/Text.antt (package strings).
--   * uri/key.go, record keys as the last segment of an address: Uri/Key.antt, with
--     Uri/Base64.antt (`base64.RawURLEncoding.Strict`) and Uri/Decimal.antt (`strconv` on int64,
--     `binary.BigEndian`).
--   * api/sink/v1/sink.pb.go, the messages: Proto.antt, Proto/Enums.antt, Proto/Native.antt. A pointer
--     that may be nil is an `Option`; an enum value without a name is `other`.
--   * types.go and wire.go: Types.antt with Keys, Documents, Programs, Operations, Outcomes, and Failures
--     for the texts of the error types and what they unwrap to. Errors are the values of Errors.antt,
--     each with the text of its format.
--   * results.go, the decoders of the responses: Results.antt. The loop that they share is
--     Results/Loop.antt; it goes over a list with the marks of the indexes that are answered.
--   * client.go: Client.antt. Config has `newClientConfig`, Backoff the retry policies, BatchLoop the
--     loop over batches that `Read`, `Write` and `Delete` share, and Reads, Writes and Deletes these
--     calls. A call takes the world and returns the results so far, an error or none, and the world.
--   * native.go and query.go: Native.antt. Commands has the message of a command, Execute, Query and
--     Scan the calls of that name, and Pages what Query and Scan share.
--   * dataset.go and dataset_native.go: Dataset.antt and Dataset/Native.antt, whose calls are those of
--     Client and Native.
--   * `Dial`, `Close` and `CheckHealth` of client.go: Client/Connection.antt, with gRPC's connections as
--     a parameter.
--   * dns_refresh.go: Dns.antt has the resolver's state and what each case of `refresh` does to it,
--     Dns/Steps.antt the steps of the goroutine and of what surrounds it, in any order.
--   * grpc_codec.go: Codec.antt. The helpers that are generated for a message and the pool of buffers
--     are parameters.
--   * Examples.antt runs the code against a stub of the server.
--
-- How the parts interact: a call validates its input by Types and Uri, turns it into messages, sends
-- them batch by batch through the stub, decodes each reply by Results, and moves the indexes of the
-- results from the batch to the whole call. `Read` sends the reads of a batch again that failed with
-- a retryable failure, or all of them if the server is unavailable; `Write` and `Delete` never do.
--
-- Parameters: Network.antt is the gRPC stub, the clock, the context and the random numbers;
-- Libraries.antt is JSON, BSON, SHA-256, media types and reflection; Floats.antt is float64. Nothing
-- is assumed of them, but where a theorem names an assumption: a count of calls, a log, or how the
-- server answers.
--
-- Fuel: the loop over batches has as many rounds as there are operations, which is enough as a batch
-- is not empty; the retry loop has `MaxAttempts` rounds, as in the source. `int` is an integer without
-- bounds, as its values here are counts; int64 and uint64 are 64 bits wide.
--
-- dns_refresh.go is modelled with the timers of Go 1.23, whose `Stop` and `Reset` leave no old value
-- behind, and with a resolver whose `Close` waits for its callbacks. `Build` of gRPC's builder returns
-- no resolver next to an error. What `ReportError` does is left to the connection.
--
-- Not modelled: the accessors that return or copy a field; the generated marshalling of
-- api/sink/v1; the texts of errors that `fmt.Errorf` makes, whose format and arguments the model keeps
-- apart.
pub mod Base
pub mod Uri
pub mod Proto
pub mod Errors
pub mod Libraries
pub mod Types
pub mod Results
pub mod Floats
pub mod Network
pub mod Client
pub mod Codec
pub mod Dns
pub mod Native
pub mod Dataset
pub mod Examples
