-- ===== src/Native/Execute.antt =====
-- native.go: `Execute` and its response.
use sink_go.Base.{
  ℕ, ◌+◌, ◌-◌, Bool, true, false, not, ◌&&◌, ◌||◌, Option, none, some, List, [], ◌∷◌, ◌++◌, ltb,
  leb, ◌==◌, if◌then◌else◌, Bytes, codes, bytes_eq, length, drop, Result, ok, err, ◌>>=◌, wrap_err,
}
use sink_go.Client.Config.{Client}
use sink_go.Errors.{Error, new, wrap, protocol, Status, ExecuteResponse}
use sink_go.Errors
use sink_go.Floats.{Floats}
use sink_go.Libraries.{Libraries}
use sink_go.Native.Commands.{Command, Headers, command_to_proto}
use sink_go.Network.{Network}
use sink_go.Proto.Native as Native

abbrev pub empty_response : ExecuteResponse
empty_response = record {
  content_type = [];
  payload = [];
  success = false;
  status_code = 0;
  headers = [];
}

-- The bytes of a header's name, by RFC 7230.
abbrev is_token_byte : ℕ → Bool
is_token_byte c =
    leb b'a' c && leb c b'z'
    || leb b'A' c && leb c b'Z'
    || leb b'0' c && leb c b'9'
    || leb 35 c && leb c 39
    || c == b'!'
    || c == b'*'
    || c == b'+'
    || c == b'-'
    || c == b'.'
    || c == b'^'
    || c == b'_'
    || c == b'`'
    || c == b'|'
    || c == b'~'

unfoldable pub is_token : Bytes → Bool
is_token [] = true
is_token (c ∷ s) = is_token_byte c && is_token s

abbrev in_case : Bool → ℕ → ℕ
in_case true c = if leb b'a' c && leb c b'z' then c - 32 else c
in_case false c = if leb b'A' c && leb c b'Z' then c + 32 else c

-- An upper case letter at the start and behind each dash, and lower case letters elsewhere.
unfoldable pub title : Bool → Bytes → Bytes
title upper [] = []
title upper (c ∷ s) = in_case upper c ∷ title (in_case upper c == b'-') s

-- `textproto.CanonicalMIMEHeaderKey`
unfoldable pub canonical_key : Bytes → Bytes
canonical_key s = if is_token s then title true s else s

-- Adds a value behind those of the name.
unfoldable pub add_value : Headers → Bytes → Bytes → Headers
add_value [] name value = (name, value ∷ []) ∷ []
add_value ((n, values) ∷ headers) name value =
    let rest = add_value headers name value in
    if bytes_eq n name then (n, values ++ value ∷ []) ∷ headers else (n, values) ∷ rest

-- `headers.Add` for each value of one header.
unfoldable pub add_values : Headers → Bytes → List Bytes → Headers
add_values headers name [] = headers
add_values headers name (v ∷ values) =
    add_values (add_value headers (canonical_key name) v) name values

unfoldable pub add_headers : Headers → List Native.Header → Headers
add_headers headers [] = headers
add_headers headers (h ∷ more) = add_headers (add_values headers h.name h.values) more

unfoldable pub has_suffix : Bytes → Bytes → Bool
has_suffix s suffix =
    not (ltb (length s) (length suffix)) && bytes_eq (drop (length s - length suffix) s) suffix

module _ (lib : Libraries) where
  open lib use {Value, parse_media_type, bson_unmarshal, json_unmarshal}

  -- What `Decode` stores in its destination, for a media type.
  unfoldable pub decode_media : Bytes → Bytes → Result Error Value
  decode_media media_type payload =
      if bytes_eq media_type (codes "application/bson")
      then bson_unmarshal payload
      else if bytes_eq media_type (codes "application/json")
          || has_suffix media_type (codes "+json")
      then json_unmarshal payload
      else err (new "native content type %q requires decoding Payload directly")

  -- `ExecuteResponse.Decode`
  unfoldable pub decode_response : ExecuteResponse → Result Error Value
  decode_response r = do
    media_type ←
        wrap_err (wrap "decode native response content type: %w") (parse_media_type r.content_type)
    decode_media media_type r.payload

-- What `Execute` returns for the server's reply: a failed command has a response and an error.
unfoldable pub executed :
    Result Status (Option Native.ExecuteResponse) → ExecuteResponse × Option Error
executed (err st) = (empty_response, some (wrap "execute native command: %w" (Errors.status st)))
executed (ok none) = (empty_response, some (protocol "Execute" (new "response is empty")))
executed (ok (some r)) =
    let result : ExecuteResponse = record {
      content_type = r.content_type;
      payload = r.payload;
      success = r.success;
      status_code = r.status_code;
      headers = add_headers [] r.headers;
    } in
    (result, if r.success then none else some (Errors.native result))

module _ (lib : Libraries) (fl : Floats) (net : Network fl) where
  open net use {World, execute}

  unfoldable pub execute_command :
      Result Error Native.Command → World → ExecuteResponse × Option Error × World
  execute_command (err e) w = (empty_response, some e, w)
  execute_command (ok command) w =
      let (reply, w') = execute (record { command = command }) w in
      let (result, e) = executed reply in (result, e, w')

  -- `Client.Execute`
  unfoldable pub execute_native :
      Option (Client fl) → Command → World → ExecuteResponse × Option Error × World
  execute_native none command w =
      (empty_response, some (new "execute native command: client is required"), w)
  execute_native (some c) command w = execute_command (command_to_proto lib command) w
