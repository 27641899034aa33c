-- ===== src/CardDav/Writes.antt =====
-- The writing operations of src/carddav/client.rs, on the session of the WebDAV client.
use fast_dav_rs.Base.{
  ◌≡◌, ◌≤◌, ◌+◌, ◌==◌, ◌||◌, Bool-cases, inl, inr, is_some, arith, true, false, Bool, Option, some,
  is_empty, if◌then◌else◌,
}
use fast_dav_rs.Base.Result.{Result, ok, err, empty_etag}
use fast_dav_rs.Base.Text.{Text, Bytes, codes}
use fast_dav_rs.Base.Utf8.{as_bytes}
use fast_dav_rs.WebDav.Headers.{HeaderApi}
use fast_dav_rs.Common.Compression.Codec.{CodecApi}
use fast_dav_rs.Common.Compression.Weights.{F32Api}
use fast_dav_rs.WebDav.Client.Http.{HttpApi, Response}
use fast_dav_rs.WebDav.Client.{WebDavClient, Session, xml_type}
use fast_dav_rs.WebDav.Client.Negotiation.{count}
use fast_dav_rs.WebDav.Client.Bounds.{send_budget}
use fast_dav_rs.WebDav.Client.Retry.{IsBounded, send-IsBounded}
use fast_dav_rs.CardDav.Queries.{build_mkcol_addressbook_body}
use fast_dav_rs.WebDav.Client.Verbs.{Outcome, send_with, with_value}

module _ (api : HeaderApi) (http : HttpApi api) (codec : CodecApi) (floats : F32Api)
    (client : WebDavClient api http) where
  open api use {HeaderMap, no_headers, insert, from_static}

  abbrev Returns : Type 0
  Returns = Outcome api http codec floats client

  abbrev pub vcard_type : HeaderMap
  vcard_type =
      insert no_headers (codes "content-type") (from_static (codes "text/vcard; charset=utf-8"))

  unfoldable pub put : Session api http → Text → Bytes → Returns
  put s path vcard_bytes =
      send_with api http codec floats client s (codes "PUT") path vcard_type (some vcard_bytes)

  unfoldable pub put_if_match : Session api http → Text → Bytes → Text → Returns
  put_if_match s path vcard_bytes etag =
      let guarded = with_value api http codec floats client s etag λ v.
        send_with api http codec floats client s (codes "PUT") path
          (insert vcard_type (codes "if-match") v) (some vcard_bytes) in
      if is_empty etag then (s, some (err empty_etag)) else guarded

  unfoldable pub put_if_none_match : Session api http → Text → Bytes → Returns
  put_if_none_match s path vcard_bytes =
      send_with api http codec floats client s (codes "PUT") path
        (insert vcard_type (codes "if-none-match") (from_static (codes "*"))) (some vcard_bytes)

  abbrev send_xml : Session api http → Text → Text → Text → Returns
  send_xml s method path xml_body =
      send_with api http codec floats client s method path
        (insert no_headers (codes "content-type") (xml_type api http)) (some (as_bytes xml_body))

  -- The server does not know `MKADDRESSBOOK`.
  abbrev pub falls_back : Option (Result (Response api)) → Bool
  falls_back (some (ok resp)) = resp.status == 501 || resp.status == 405
  falls_back _ = false

  unfoldable pub mkaddressbook : Session api http → Text → Text → Returns
  mkaddressbook s path xml_body =
      let asked = send_xml s (codes "MKADDRESSBOOK") path xml_body in
      elim (falls_back asked.1) [
        | true ↦ send_xml asked.0 (codes "MKCOL") path (build_mkcol_addressbook_body xml_body)
        | false ↦ asked
      ]

  send_xml-IsBounded :
      (s : Session api http) (method path xml_body : Text)
      → IsBounded api http codec floats client s (send_xml s method path xml_body)
  send_xml-IsBounded s method path xml_body = send-IsBounded api http codec floats client s path _

  -- The creation of an address book returns a response or an error, and sends six requests at most,
  -- its fallback included.
  pub mkaddressbook-IsBounded :
      (s : Session api http) (path xml_body : Text)
      → (is_some (mkaddressbook s path xml_body).1 ≡ true)
        × (count api http (mkaddressbook s path xml_body).0 ≤ count api http s + 6)
  unfolding mkaddressbook
  mkaddressbook-IsBounded s path xml_body =
      let asked = send_xml s (codes "MKADDRESSBOOK") path xml_body in
      let first = send_xml-IsBounded s (codes "MKADDRESSBOOK") path xml_body in
      elim (Bool-cases (falls_back asked.1)) [
        | inl unknown ↦
            let second =
              send_xml-IsBounded asked.0 (codes "MKCOL") path
                (build_mkcol_addressbook_body xml_body) in
            rw (unknown, mkaddressbook)
              (second.0, omega (arith, first.1, second.1, send_budget_le s, send_budget_le asked.0))
        | inr other ↦ rw (other, mkaddressbook) (first.0, omega (arith, first.1, send_budget_le s))
      ]
    where
      send_budget_le : (t : Session api http) → send_budget api http codec floats client t ≤ 3
      send_budget_le t = ground arith
