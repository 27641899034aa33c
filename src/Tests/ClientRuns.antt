-- ===== src/Tests/ClientRuns.antt =====
-- Runs of src/webdav/client.rs: texts as URIs, association lists as headers, and coders that mark
-- their output.
use fast_dav_rs.Base.{ℕ, ◌≡◌, refl, true, none, some, [], ◌∷◌, Bool, is_some, ◌≤◌, ◌+◌}
use fast_dav_rs.Base.Result.{ok}
use fast_dav_rs.Base.Text.{to_lower, trim, text_eq, codes, Bytes}
use fast_dav_rs.Base.Text.Split.{split_once, split}
use fast_dav_rs.CardDav.Writes.{mkaddressbook, mkaddressbook-IsBounded}
use fast_dav_rs.Common.Compression.{
  compress_payload, encoding_of, token_encoding, parse_encodings, detect_encodings,
}
use fast_dav_rs.Common.Compression.Codec.{gzip, marking_codec}
use fast_dav_rs.Common.Compression.Weights.{whole_weights}
use fast_dav_rs.WebDav.Client.{
  handle_request_compression_outcome, resolve_request_encoding, encode_body, request_within,
  WebDavClient, Session, auto, is_auto, negotiate, prepare_request_body,
}
use fast_dav_rs.WebDav.Client.Body.{
  Decodes, prepare_request_body-decompress_body, Restores, aggregate-compress_chain,
}
use fast_dav_rs.WebDav.Client.Http.{text_http, Response, replied}
use fast_dav_rs.WebDav.Client.Negotiation.{negotiate-idempotent, count}
use fast_dav_rs.WebDav.Client.Retry.{IsPlain, IsBounded, send-IsBounded, send_round-IsPlain}
use fast_dav_rs.WebDav.Client.Send.{
  respond, outgoing, answered, dispatch, Call, Round, again, done, send, send_round,
}
use fast_dav_rs.WebDav.Client.Uri.{trim_slashes, combine_paths, target_path}
use fast_dav_rs.WebDav.Client.Uri.Rooted.{IsRooted, target_path-IsRooted}
use fast_dav_rs.WebDav.Client.Verbs.{supports_webdav_sync}
use fast_dav_rs.WebDav.Client.Verbs.Sync.{supports_webdav_sync-ok}
use fast_dav_rs.WebDav.Headers.{visible_text, get_entry, entries_api}

abbrev client : WebDavClient entries_api text_http
client = record {
  base = codes "/dav/";
  auth_header = some (codes "Basic dTpw");
  default_timeout = 20;
  request_compression_mode = auto;
}

abbrev reply : ℕ → Response entries_api
reply status = record { status = status; headers = []; body = some (codes "ok") }

-- The server takes the probe, and then refuses compressed bodies after all.
abbrev fresh : Session entries_api text_http
fresh = record {
  negotiated = none;
  sent = [];
  answers = replied 1 (reply 207) ∷ replied 1 (reply 415) ∷ replied 1 (reply 207) ∷ [];
}

abbrev known : Session entries_api text_http
known = record {
  negotiated = some gzip;
  sent = [];
  answers = replied 1 (reply 415) ∷ replied 1 (reply 207) ∷ [];
}

abbrev call : Call entries_api text_http
call = record {
  method = codes "REPORT";
  headers = (codes "content-encoding", codes "br") ∷ [];
  body_bytes = some (codes "<q/>");
  per_req_timeout = none;
}

send-IsBounded_example :
    IsBounded entries_api text_http marking_codec whole_weights client fresh
      (send entries_api text_http marking_codec whole_weights client fresh (codes "cal") call)
send-IsBounded_example =
    send-IsBounded entries_api text_http marking_codec whole_weights client fresh (codes "cal") call

abbrev after : Round entries_api text_http → Session entries_api text_http
after (again s) = s
after (done s result) = s

abbrev first_round : Round entries_api text_http
first_round =
    send_round entries_api text_http marking_codec whole_weights client (codes "/cal") call 0 known

refused : first_round ≡ again (after first_round)
unfolding send_round dispatch answered request_within outgoing prepare_request_body encode_body
    resolve_request_encoding negotiate is_auto compress_payload respond
    handle_request_compression_outcome
refused = refl

send_round-IsPlain_example :
    (◌≡◌ {A = ℕ} 0 0)
    × (is_auto client.request_compression_mode ≡ true)
    × ((body : Bytes) × (call.body_bytes ≡ some body)
        × IsPlain entries_api text_http marking_codec whole_weights client
            (codes "/cal")
            call
            (after first_round)
            body)
send_round-IsPlain_example =
    send_round-IsPlain entries_api text_http marking_codec whole_weights client (codes "/cal") call
      0 known refused

prepare_request_body-decompress_body_example :
    Decodes entries_api text_http marking_codec whole_weights (codes "<q/>") (
      prepare_request_body entries_api text_http marking_codec whole_weights client fresh
        (codes "<q/>")
        call.headers)
prepare_request_body-decompress_body_example =
    prepare_request_body-decompress_body entries_api text_http marking_codec whole_weights client
      fresh (codes "<q/>") call.headers

abbrev encoded : Response entries_api
encoded = record {
  status = 207;
  headers = (codes "content-encoding", codes "br, gzip") ∷ [];
  body = some (2 ∷ 1 ∷ codes "hello");
}

aggregate-compress_chain_example :
    Restores entries_api text_http marking_codec whole_weights encoded (codes "hello")
unfolding detect_encodings get_entry text_eq visible_text parse_encodings split token_encoding
    encoding_of trim to_lower compress_payload
aggregate-compress_chain_example =
    aggregate-compress_chain entries_api text_http marking_codec whole_weights encoded
      (codes "hello") refl refl

negotiate-idempotent_example :
    negotiate entries_api text_http marking_codec whole_weights client
      (negotiate entries_api text_http marking_codec whole_weights client fresh)
    ≡ negotiate entries_api text_http marking_codec whole_weights client fresh
negotiate-idempotent_example =
    negotiate-idempotent entries_api text_http marking_codec whole_weights client fresh

target_path-IsRooted_example : IsRooted (target_path (codes "/dav/") (codes "cal?x=1"))
target_path-IsRooted_example =
    target_path-IsRooted (codes "/dav/") (codes "cal?x=1") (codes "dav/", refl)

joined : target_path (codes "/dav/") (codes "cal?x=1") ≡ codes "/dav/cal?x=1"
unfolding target_path split_once combine_paths trim_slashes
joined = refl

supports_webdav_sync-ok_example :
    (b : Bool) × ((supports_webdav_sync entries_api text_http marking_codec whole_weights client
        fresh).1
      ≡ some (ok b))
supports_webdav_sync-ok_example =
    supports_webdav_sync-ok entries_api text_http marking_codec whole_weights client fresh

mkaddressbook-IsBounded_example :
    (is_some
        (mkaddressbook entries_api text_http marking_codec whole_weights client fresh
          (codes "/book/")
          (codes "<m/>")).1
      ≡ true)
    × (count entries_api text_http
          (mkaddressbook entries_api text_http marking_codec whole_weights client fresh
            (codes "/book/")
            (codes "<m/>")).0
        ≤ count entries_api text_http fresh + 6)
mkaddressbook-IsBounded_example =
    mkaddressbook-IsBounded entries_api text_http marking_codec whole_weights client fresh
      (codes "/book/") (codes "<m/>")
