-- ===== src/CardDav/Reads.antt =====
-- The operations of src/carddav/client.rs over the client of src/webdav/client.rs.
use fast_dav_rs.Base.{refl, inl, inr, Bool, List, Option, Option-cases, ℕ}
use fast_dav_rs.Base.Text.{Text, Bytes, codes}
use fast_dav_rs.WebDav.Headers.{HeaderApi}
use fast_dav_rs.WebDav.Reader.{Reading}
use fast_dav_rs.WebDav.Server.{Server}
use fast_dav_rs.Common.Compression.Codec.{CodecApi}
use fast_dav_rs.Common.Compression.Weights.{F32Api}
use fast_dav_rs.WebDav.Client.Http.{HttpApi}
use fast_dav_rs.WebDav.Client.{WebDavClient, Session}
use fast_dav_rs.WebDav.Client.Trace.{Adds, Adds-same}
use fast_dav_rs.WebDav.Client.Serve.{session_server, IsRead, query-IsRead}
use fast_dav_rs.CardDav.Queries.{build_addressbook_multiget_body}
use fast_dav_rs.CardDav.Client.{
  discover_current_user_principal, discover_addressbook_home_set, list_addressbooks,
  addressbook_query, addressbook_query_uid, addressbook_query_email, addressbook_query_fn,
  addressbook_multiget, sync_collection,
}

module _ (api : HeaderApi) (http : HttpApi api) (codec : CodecApi) (floats : F32Api)
    (client : WebDavClient api http) (read : Bytes → List Reading)
    (unescape : Text → Option Text) where
  abbrev server : Server api
  server = session_server api http codec floats client read unescape

  -- Between the sessions, the client sent requests that read.
  abbrev pub Reads : Session api http → Session api http → Type 0
  Reads = Adds api http (IsRead api http codec floats client)

  unasked : (s : Session api http) → Reads s s
  unasked s = Adds-same api http (IsRead api http codec floats client) s s refl

  addressbook_multiget-Reads :
      (s : Session api http) (path : Text) (hrefs : List Text) (include_data : Bool)
      → Reads s (addressbook_multiget api server s path hrefs include_data).0
  unfolding addressbook_multiget
  addressbook_multiget-Reads s path hrefs include_data =
      elim (Option-cases (build_addressbook_multiget_body hrefs include_data)) [
        | inl n ↦ rw (n, addressbook_multiget) (unasked s)
        | inr (body, k) ↦
            rw (k, addressbook_multiget)
              (query-IsRead api http codec floats client (codes "REPORT") (inr refl) s _ _ _)
      ]

  module _ (s : Session api http) (path : Text) where
    -- The session behind each of the operations.
    pub record ReadsOnly : Type 0 where
      pub principal : Reads s (discover_current_user_principal api server s).0
      pub homes : Reads s (discover_addressbook_home_set api server s path).0
      pub addressbooks : Reads s (list_addressbooks api server s path).0
      pub filtered :
          (filter_xml : Text) (include_data : Bool)
          → Reads s (addressbook_query api server s path filter_xml include_data).0
      pub by_uid :
          (uid : Text) (include_data : Bool)
          → Reads s (addressbook_query_uid api server s path uid include_data).0
      pub by_email :
          (email : Text) (include_data : Bool)
          → Reads s (addressbook_query_email api server s path email include_data).0
      pub by_fn :
          (formatted_name : Text) (include_data : Bool)
          → Reads s (addressbook_query_fn api server s path formatted_name include_data).0
      pub multiget :
          (hrefs : List Text) (include_data : Bool)
          → Reads s (addressbook_multiget api server s path hrefs include_data).0
      pub synced :
          (sync_token : Option Text) (limit : Option ℕ) (include_data : Bool)
          → Reads s (sync_collection api server s path sync_token limit include_data).0

    -- The operations that discover, list, query and synchronise addressbooks change nothing on the
    -- server: every request that they send, the probe and a repetition included, is a `PROPFIND` or
    -- a `REPORT`.
    pub card_operations-ReadsOnly : ReadsOnly
    unfolding discover_current_user_principal discover_addressbook_home_set list_addressbooks
        sync_collection addressbook_query addressbook_query_uid addressbook_query_email
        addressbook_query_fn
    card_operations-ReadsOnly = record {
      principal = query-IsRead api http codec floats client (codes "PROPFIND") (inl refl) s _ _ _;
      homes = query-IsRead api http codec floats client (codes "PROPFIND") (inl refl) s _ _ _;
      addressbooks =
          query-IsRead api http codec floats client (codes "PROPFIND") (inl refl) s _ _ _;
      filtered = λ value include_data.
          query-IsRead api http codec floats client (codes "REPORT") (inr refl) s _ _ _;
      by_uid = λ value include_data.
          query-IsRead api http codec floats client (codes "REPORT") (inr refl) s _ _ _;
      by_email = λ value include_data.
          query-IsRead api http codec floats client (codes "REPORT") (inr refl) s _ _ _;
      by_fn = λ value include_data.
          query-IsRead api http codec floats client (codes "REPORT") (inr refl) s _ _ _;
      multiget = addressbook_multiget-Reads s path;
      synced = λ token limit include_data.
          query-IsRead api http codec floats client (codes "REPORT") (inr refl) s _ _ _;
    }
