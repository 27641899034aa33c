-- ===== src/Tests/TraceRuns.antt =====
-- Runs of src/webdav/client.rs and src/caldav/client.rs, for the requests that they send.
use fast_dav_rs.Base.{ℕ, none, some, [], ◌∷◌}
use fast_dav_rs.Base.Text.{Text, codes}
use fast_dav_rs.CalDav.Conditional.{writes-IsConditional}
use fast_dav_rs.CalDav.Reads.{ReadsOnly, operations-ReadsOnly}
use fast_dav_rs.CalDav.Writes.{put_if_match, put_if_none_match}
use fast_dav_rs.Common.Compression.Codec.{marking_codec}
use fast_dav_rs.Common.Compression.Weights.{whole_weights}
use fast_dav_rs.WebDav.Client.{WebDavClient, Session, auto}
use fast_dav_rs.WebDav.Client.Http.{Request, Response, replied, text_http}
use fast_dav_rs.WebDav.Client.Send.{Call, send}
use fast_dav_rs.WebDav.Client.Trace.{Adds}
use fast_dav_rs.WebDav.Client.Trace.Carried.{IsSentBy, send-Carries}
use fast_dav_rs.WebDav.Client.Trace.Conditional.{IsConditional}
use fast_dav_rs.WebDav.Client.Verbs.{delete_if_match}
use fast_dav_rs.WebDav.Headers.{visible_text, entries_api}

abbrev client : WebDavClient entries_api text_http
client = record {
  base = codes "/dav/";
  auth_header = some (codes "Basic dTpw");
  default_timeout = 20;
  request_compression_mode = auto;
}

abbrev reply : ℕ → Response entries_api
reply status = record { status = status; headers = []; body = some (codes "ok") }

abbrev fresh : Session entries_api text_http
fresh = record {
  negotiated = none;
  sent = [];
  answers = replied 1 (reply 207) ∷ replied 1 (reply 415) ∷ replied 1 (reply 207) ∷ [];
}

abbrev call : Call entries_api text_http
call = record {
  method = codes "REPORT";
  headers = (codes "depth", codes "1") ∷ [];
  body_bytes = some (codes "<q/>");
  per_req_timeout = none;
}

send-Carries_example :
    Adds entries_api text_http
      (IsSentBy entries_api text_http marking_codec whole_weights client (codes "cal") call)
      fresh
      (send entries_api text_http marking_codec whole_weights client fresh (codes "cal") call).0
send-Carries_example =
    send-Carries entries_api text_http marking_codec whole_weights client (codes "cal") call fresh

abbrev Guarded : Text → Text → Text → Request entries_api text_http → Type 0
Guarded method condition value =
    IsConditional entries_api text_http marking_codec whole_weights client method condition
      (some value)

writes-IsConditional_example :
    Adds entries_api text_http
      (Guarded (codes "PUT") (codes "if-match") (codes "v1"))
      fresh
      (put_if_match entries_api text_http marking_codec whole_weights client fresh
        (codes "1.ics")
        (codes "BEGIN:VCALENDAR")
        (codes "v1")).0
    × Adds entries_api text_http
        (Guarded (codes "DELETE") (codes "if-match") (codes "v1"))
        fresh
        (delete_if_match entries_api text_http marking_codec whole_weights client fresh
          (codes "1.ics")
          (codes "v1")).0
    × Adds entries_api text_http
        (Guarded (codes "PUT") (codes "if-none-match") (codes "*"))
        fresh
        (put_if_none_match entries_api text_http marking_codec whole_weights client fresh
          (codes "1.ics")
          (codes "BEGIN:VCALENDAR")).0
unfolding visible_text
writes-IsConditional_example =
    writes-IsConditional entries_api text_http marking_codec whole_weights client fresh
      (codes "1.ics") (codes "BEGIN:VCALENDAR") (codes "v1")

operations-ReadsOnly_example :
    ReadsOnly entries_api text_http marking_codec whole_weights client
      (λ body. [])
      some
      fresh
      (codes "/dav/cal/")
operations-ReadsOnly_example =
    operations-ReadsOnly entries_api text_http marking_codec whole_weights client (λ body. []) some
      fresh (codes "/dav/cal/")
