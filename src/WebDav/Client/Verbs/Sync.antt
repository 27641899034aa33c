-- ===== src/WebDav/Client/Verbs/Sync.antt =====
-- `supports_webdav_sync` of src/webdav/client.rs decides.
use fast_dav_rs.Base.{
  ◌≡◌, refl, Bool, true, false, Option, none, some, Bool-cases, Option-cases, inl, inr, is_some, [],
}
use fast_dav_rs.Base.Result.{Result, ok, err}
use fast_dav_rs.Base.Text.{Text, codes}
use fast_dav_rs.WebDav.Headers.{HeaderApi}
use fast_dav_rs.WebDav.Types.{Depth, depth_as_str}
use fast_dav_rs.Common.Compression.Codec.{CodecApi}
use fast_dav_rs.Common.Compression.Weights.{F32Api}
use fast_dav_rs.WebDav.Client.Http.{HttpApi, Response, is_success}
use fast_dav_rs.WebDav.Client.{WebDavClient, Session}
use fast_dav_rs.WebDav.Client.Retry.{send-IsBounded}
use fast_dav_rs.WebDav.Client.Verbs.{
  query, judge, advertises, propfind, supports_webdav_sync, supported_report_set,
}

module _ (api : HeaderApi) (http : HttpApi api) (codec : CodecApi) (floats : F32Api)
    (client : WebDavClient api http) where
  query-some :
      (method : Text) (s : Session api http) (path : Text) (depth : Depth) (xml_body : Text)
      → is_some (query api http codec floats client method s path depth xml_body).1 ≡ true
  unfolding query
  query-some method s path depth xml_body =
      elim (Option-cases (api.from_str (depth_as_str depth))) [
        | inl invalid ↦ rw (invalid, is_some, query) refl
        | inr (v, valid) ↦
            rw (valid, is_some, query) (send-IsBounded api http codec floats client s path _).0
      ]

  judge-ok :
      (answer : Option (Result (Response api)))
      → is_some answer ≡ true
      → (b : Bool) × (judge api http codec floats client answer ≡ some (ok b))
  judge-ok none h = absurd (cc h)
  judge-ok (some (err e)) h = (false, refl)
  judge-ok (some (ok resp)) h = (is_success resp.status, refl)

  -- Whatever the server answers, and if it does not, the question whether it supports
  -- synchronisation gets yes or no, and never an error.
  pub supports_webdav_sync-ok :
      (s : Session api http)
      → (b : Bool) × ((supports_webdav_sync api http codec floats client s).1 ≡ some (ok b))
  unfolding supports_webdav_sync
  supports_webdav_sync-ok s =
      elim (Bool-cases (
        advertises api http codec floats client
          (propfind api http codec floats client s [] Depth.zero
            (supported_report_set api http codec floats client)).1)) [
              | inl sure ↦ (true, rw (sure, supports_webdav_sync) refl)
              | inr unclear ↦
                  rw (unclear, supports_webdav_sync)
                    (judge-ok _ (query-some (codes "REPORT") _ [] Depth.one _))
            ]
