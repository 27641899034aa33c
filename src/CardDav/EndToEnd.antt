-- ===== src/CardDav/EndToEnd.antt =====
-- A synchronisation of src/carddav/client.rs from the answer of the server to the result.
use mathlib.Core.List.{append-nil, append_assoc}
use fast_dav_rs.Base.{
  ℕ, ◌≡◌, sym, ap, ◌∙◌, Bool, true, List, [], ◌∷◌, ◌++◌, Option, none, some, All, map, or_option,
}
use fast_dav_rs.Base.Result.{ok}
use fast_dav_rs.Base.Text.{Text, Bytes}
use fast_dav_rs.WebDav.Headers.{HeaderApi}
use fast_dav_rs.WebDav.Types.{Depth}
use fast_dav_rs.WebDav.Server.{Server, Reply}
use fast_dav_rs.WebDav.Client.Http.{is_success}
use fast_dav_rs.CardDav.Types.{SyncItem, SyncResponse}
use fast_dav_rs.CardDav.Streaming.Documents.{
  Member, found, bare, appended, item_of, IsMember, IsPlainOption, IsBlank, document,
  card_parse_multistatus_bytes_with-document,
}
use fast_dav_rs.CardDav.Mapping.{
  sync_item, is_sync_collection, is_deleted_status, capture, sync_loop, map_sync_response,
  header_token,
}
use fast_dav_rs.CardDav.Queries.{build_sync_collection_body}
use fast_dav_rs.CardDav.Client.{parse_multistatus_bytes, sync_collection}

-- What a synchronisation says of a member of the document.
abbrev pub reported_as : Member → SyncItem
reported_as (found e) = record {
  href = e.href;
  etag = some e.etag;
  address_data = appended none e.data_pieces;
  status = e.status;
  is_deleted = is_deleted_status e.status;
}
reported_as (bare href status) = record {
  href = href;
  etag = none;
  address_data = none;
  status = some status;
  is_deleted = is_deleted_status (some status);
}

sync_loop-members :
    (ms : List Member) (token : Option Text) (out : List SyncItem)
    → sync_loop token out (map item_of ms)
      ≡ record { sync_token = token; items = out ++ map reported_as ms }
unfolding sync_loop is_sync_collection capture sync_item
sync_loop-members [] token out =
    ap (λ (l : List SyncItem). record { sync_token = token; items = l }) (sym (append-nil out))
sync_loop-members (found e ∷ ms) token out =
    sync_loop-members ms token (out ++ reported_as (found e) ∷ [])
    ∙ ap (λ (l : List SyncItem). record { sync_token = token; items = l })
        (append_assoc out (reported_as (found e) ∷ []) (map reported_as ms))
sync_loop-members (bare href status ∷ ms) token out =
    sync_loop-members ms token (out ++ reported_as (bare href status) ∷ [])
    ∙ ap (λ (l : List SyncItem). record { sync_token = token; items = l })
        (append_assoc out (reported_as (bare href status) ∷ []) (map reported_as ms))

module _ (api : HeaderApi) (server : Server api) (encode : Text → Bytes)
    (gap : ℕ → Option Text) where
  -- The server answers the report with a document on the given members.
  pub record Answers (w w' : server.World) (path body : Text) (ms : List Member)
      (token : Option Text) (reply : Reply api) : Type 0 where
    pub reported : server.report w path Depth.one body ≡ (w', ok reply)
    pub successful : is_success reply.status ≡ true
    pub described : server.read reply.body ≡ document encode gap ms token
    pub blanks : (depth : ℕ) → IsBlank server.unescape encode (gap depth)
    pub plain : All (IsMember server.unescape encode) ms
    pub plain_token : IsPlainOption server.unescape encode token

  -- If the server answers the report of a synchronisation successfully with a document of the form
  -- that `document` writes out, the operation returns one item for each of its responses, in their
  -- order: an object with its path, its entity tag, its data and its status, or a path and a
  -- status. It is deleted if that status is one of a deleted object. The token is that of the
  -- document, or else that of the headers. The document's texts are what `unescape` makes of the
  -- bytes, none is empty, and all but the data are without space around them; before each tag
  -- there may be white space.
  pub card_sync_collection-document :
      (w w' : server.World) (path : Text) (sync_token : Option Text) (limit : Option ℕ)
      (include_data : Bool) (ms : List Member) (token : Option Text) (reply : Reply api)
      → Answers w w' path (build_sync_collection_body sync_token limit include_data) ms token reply
      → sync_collection api server w path sync_token limit include_data ≡ (
        w',
        ok (record {
          sync_token = or_option token (header_token api reply.headers);
          items = map reported_as ms;
        }),
      )
  unfolding sync_collection parse_multistatus_bytes map_sync_response
  card_sync_collection-document w w' path sync_token limit include_data ms token reply a =
      rw a.reported (
        rw a.successful (
          rw a.described (
            rw
              (card_parse_multistatus_bytes_with-document server.unescape encode gap ms token
                a.blanks a.plain a.plain_token)
              (ap (λ (r : SyncResponse). (w', ok r))
                (sync_loop-members ms (or_option token (header_token api reply.headers)) [])))))
