-- ===== src/Native/Query.antt =====
-- query.go: `Query` and `Count`.
use sink_go.Base.{
  ℕ, ◌≡◌, ◌≤◌, subst, Bool, true, false, not, ◌&&◌, ◌||◌, Option, none, some, List, [], ◌∷◌, arith,
  length, ltb, ◌==◌, Bytes, is_empty, ℤ, pos, ltb_ℤ, Result, ok, err, ◌>>=◌, ◌>>◌, fail_if,
  >>=-eq-ok, fail_if-eq-ok, ok_eq, if◌then◌else◌,
}
use sink_go.Client.Backoff.{is_negative}
use sink_go.Client.Config.{Client, to_count}
use sink_go.Errors.{Error, new, wrap, protocol, Status}
use sink_go.Errors
use sink_go.Floats.{Floats}
use sink_go.Libraries.{Libraries}
use sink_go.Native.Commands.{Command, command_to_proto}
use sink_go.Native.Pages.{
  Projection, projection_to_proto, page_documents, length-page_documents, seen_before,
}
use sink_go.Network.{Network}
use sink_go.Proto as Proto
use sink_go.Proto.Native as Native
use sink_go.Types.Documents.{Document}
use sink_go.Uri.Text.{trim_space}

pub record SortField : Type 0 where
  pub field : Bytes
  pub descending : Bool

pub record QueryRequest : Type 0 where
  pub command : Command
  pub page : ℤ
  pub page_size : ℤ
  pub sort : List SortField
  pub projection : Option Projection

pub record QueryResponse : Type 0 where
  pub documents : List Document
  pub has_more : Bool

pub record CountResponse : Type 0 where
  pub count : ℕ
  pub estimated : Bool

-- The loop over the sort fields.
unfoldable pub sort_to_proto : List Bytes → List SortField → Result Error (List Native.SortField)
sort_to_proto seen [] = ok []
sort_to_proto seen (f ∷ fields) = do
  fail_if (is_empty (trim_space f.field) || seen_before seen f.field)
      (new "sort fields must be nonempty and unique")
  rest ← sort_to_proto (f.field ∷ seen) fields
  ok (record { field = f.field; descending = f.descending } ∷ rest)

-- Zero selects 100.
abbrev pub page_limit : ℤ → ℕ
page_limit size = if to_count size == 0 then 100 else to_count size

module _ (lib : Libraries) where
  -- The checks in front of the call, and its message.
  unfoldable pub query_message : QueryRequest → Result Error Native.QueryRequest
  query_message req = do
    fail_if
        (is_negative req.page
          || ltb_ℤ (pos 4294967295) req.page
          || is_negative req.page_size
          || ltb_ℤ (pos 1000) req.page_size)
        (new "query requires a nonnegative uint32 page and page size between 0 and 1000")
    command ← command_to_proto lib req.command
    sort ← sort_to_proto [] req.sort
    projection ← projection_to_proto req.projection
    ok (record {
      command = command;
      page = to_count req.page;
      page_size = to_count req.page_size;
      sort = sort;
      projection = projection;
    })

  -- What `Query` makes of the reply, for a page of at most `limit` documents.
  unfoldable pub query_reply :
      ℕ → Result Status (Option Proto.QueryResponse) → Result Error QueryResponse
  query_reply limit (err st) = err (wrap "query native page: %w" (Errors.status st))
  query_reply limit (ok none) = err (protocol "Query" (new "response is empty"))
  query_reply limit (ok (some r)) = do
    fail_if (ltb limit (length r.documents) || r.has_more && not (length r.documents == limit))
        (protocol "Query" (new "invalid page length or has_more"))
    documents ← page_documents lib "Query" r.documents
    ok (record { documents = documents; has_more = r.has_more })

  -- What an accepted page is to the limit that was asked for.
  pub record FitsPage (limit : ℕ) (r : QueryResponse) : Type 0 where
    pub within : length r.documents ≤ limit
    pub full : r.has_more ≡ true → length r.documents ≡ limit

  query_reply-FitsPage :
      (limit : ℕ) (reply : Result Status (Option Proto.QueryResponse)) (out : QueryResponse)
      → query_reply limit reply ≡ ok out
      → FitsPage limit out
  unfolding query_reply
  query_reply-FitsPage limit (err st) out h = absurd (cc)
  query_reply-FitsPage limit (ok none) out h = absurd (cc)
  query_reply-FitsPage limit (ok (some r)) out h =
      let wrong =
        ltb limit (length r.documents) || r.has_more && not (length r.documents == limit) in
      let (u, hl, h') = >>=-eq-ok (fail_if wrong _) _ h in
      let (documents, hd, e) = >>=-eq-ok (page_documents lib "Query" r.documents) _ h' in
      let right = fail_if-eq-ok wrong _ hl in
      let same = length-page_documents lib "Query" r.documents hd in
      subst (FitsPage limit) (ok_eq e) (record {
        within = fits limit (length r.documents) (length documents) r.has_more same right;
        full =
            λ more. fills limit (length r.documents) (length documents) r.has_more same right more;
      })
    where
      fits :
          (limit n m : ℕ) (more : Bool)
          → m ≡ n
          → (ltb limit n || more && not (n == limit)) ≡ false
          → m ≤ limit
      fits limit n m more e h = ground arith

      fills :
          (limit n m : ℕ) (more : Bool)
          → m ≡ n
          → (ltb limit n || more && not (n == limit)) ≡ false
          → more ≡ true
          → m ≡ limit
      fills limit n m more e h t = ground arith

-- What `Count` makes of the reply.
unfoldable pub count_reply :
    Result Status (Option Native.CountResponse) → Result Error CountResponse
count_reply (err st) = err (wrap "count native query: %w" (Errors.status st))
count_reply (ok none) = err (protocol "Count" (new "response is empty"))
count_reply (ok (some r)) = ok (record { count = r.count; estimated = r.estimated })

module _ (lib : Libraries) (fl : Floats) (net : Network fl) where
  open net use {World, query, count}

  unfoldable pub query_submitted :
      ℕ → World → Result Error Native.QueryRequest → Result Error QueryResponse × World
  query_submitted limit w (err e) = (err e, w)
  query_submitted limit w (ok message) =
      let (reply, w') = query message w in (query_reply lib limit reply, w')

  -- `Client.Query`
  unfoldable pub query_native :
      Option (Client fl) → QueryRequest → World → Result Error QueryResponse × World
  query_native none req w = (err (new "query requires a client"), w)
  query_native (some c) req w = query_submitted (page_limit req.page_size) w (query_message lib req)

  unfoldable pub count_submitted :
      World → Result Error Native.Command → Result Error CountResponse × World
  count_submitted w (err e) = (err e, w)
  count_submitted w (ok command) =
      let (reply, w') = count (record { command = command }) w in (count_reply reply, w')

  -- `Client.Count`, on the command of its request.
  unfoldable pub count_native :
      Option (Client fl) → Command → World → Result Error CountResponse × World
  count_native none command w = (err (new "count requires a client"), w)
  count_native (some c) command w = count_submitted w (command_to_proto lib command)

  query_submitted-FitsPage :
      (limit : ℕ) (w : World) (message : Result Error Native.QueryRequest) (out : QueryResponse)
      → (query_submitted limit w message).0 ≡ ok out
      → FitsPage lib limit out
  unfolding query_submitted
  query_submitted-FitsPage limit w (err e) out h = absurd (cc)
  query_submitted-FitsPage limit w (ok message) out h = query_reply-FitsPage lib limit _ out h

  -- A page that `Query` accepts has at most as many documents as the page size, which is 100 where
  -- the request has 0, and exactly as many if it tells of more.
  pub query_native-FitsPage :
      (client : Option (Client fl)) (req : QueryRequest) (w : World) {out : QueryResponse}
      → (query_native client req w).0 ≡ ok out
      → FitsPage lib (page_limit req.page_size) out
  unfolding query_native
  query_native-FitsPage none req w h = absurd (cc)
  query_native-FitsPage (some c) req w {out} h = query_submitted-FitsPage _ w _ out h
