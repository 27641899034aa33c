-- ===== src/CardDav/Client.antt =====
-- The operations of src/carddav/client.rs that send a request and read its multistatus answer.
use fast_dav_rs.Base.{
  ℕ, Bool, List, [], ◌∷◌, ◌++◌, Option, none, some, find, find_map, not, is_empty, if◌then◌else◌,
}
use fast_dav_rs.Base.Result.{Result, ok, err, ◌>>=◌, request_failed}
use fast_dav_rs.Base.Sort.{sort_by, dedup}
use fast_dav_rs.Base.Text.{Text, Bytes, codes}
use fast_dav_rs.WebDav.Headers.{HeaderApi}
use fast_dav_rs.WebDav.Types.{Depth}
use fast_dav_rs.WebDav.Server.{Server, Reply}
use fast_dav_rs.WebDav.Client.Http.{is_success}
use fast_dav_rs.CardDav.Types.{DavItem, AddressBookInfo, AddressObject, SyncResponse}
use fast_dav_rs.CardDav.Streaming.{ParseResult, parse_multistatus_bytes_with, push_item}
use fast_dav_rs.CardDav.Mapping.{map_addressbook_list, map_address_objects, map_sync_response}
use fast_dav_rs.CardDav.Queries.{
  build_addressbook_query_body, build_addressbook_query_filter_uid,
  build_addressbook_query_filter_email, build_addressbook_query_filter_fn,
  build_addressbook_multiget_body, build_sync_collection_body,
}

unfoldable pub first_principal : List DavItem → Option Text
first_principal = find_map (λ item. find (λ href. not (is_empty href)) item.current_user_principal)

-- The loop that gathers the home sets.
unfoldable pub collect_homes : List Text → List DavItem → List Text
collect_homes homes [] = homes
collect_homes homes (item ∷ items) = collect_homes (homes ++ item.addressbook_home_set) items

unfoldable pub sorted_homes : List DavItem → List Text
sorted_homes items = dedup (sort_by (λ home. home) (collect_homes [] items))

module _ (api : HeaderApi) (server : Server api) where
  open server use {World, propfind, report, read, unescape}

  unfoldable pub parse_multistatus_bytes : Bytes → Result (ParseResult (List DavItem))
  parse_multistatus_bytes body = parse_multistatus_bytes_with unescape push_item [] (read body)

  abbrev pub read_reply {ℓ} :
      {A : Type ℓ} → (Reply api → ParseResult (List DavItem) → A) → Reply api → Result A
  read_reply f reply =
      if is_success reply.status
      then (do parsed ← parse_multistatus_bytes reply.body; ok (f reply parsed))
      else err (request_failed reply.status)

  -- What is made of the answer to a request.
  abbrev pub conclude {ℓ} :
      {A : Type ℓ}
      → (Reply api → ParseResult (List DavItem) → A)
      → World × Result (Reply api)
      → World × Result A
  conclude f (w, answer) = (w, answer >>= read_reply f)

  unfoldable pub discover_current_user_principal : World → World × Result (Option Text)
  discover_current_user_principal w =
      conclude (λ reply parsed. first_principal parsed.items)
        (propfind w [] Depth.zero (
          codes
            "\n<D:propfind xmlns:D=\"DAV:\">\n  <D:prop>\n    <D:current-user-principal/>\n  </D:prop>\n</D:propfind>\n"))

  unfoldable pub discover_addressbook_home_set : World → Text → World × Result (List Text)
  discover_addressbook_home_set w principal_path =
      conclude (λ reply parsed. sorted_homes parsed.items)
        (propfind w principal_path Depth.zero (
          codes
            "\n<D:propfind xmlns:D=\"DAV:\" xmlns:C=\"urn:ietf:params:xml:ns:carddav\">\n  <D:prop>\n    <C:addressbook-home-set/>\n  </D:prop>\n</D:propfind>\n"))

  unfoldable pub list_addressbooks : World → Text → World × Result (List AddressBookInfo)
  list_addressbooks w home_set_path =
      conclude (λ reply parsed. map_addressbook_list parsed.items)
        (propfind w home_set_path Depth.one (
          codes
            "\n<D:propfind xmlns:D=\"DAV:\" xmlns:C=\"urn:ietf:params:xml:ns:carddav\" xmlns:A=\"http://apple.com/ns/ical/\">\n  <D:prop>\n    <D:displayname/>\n    <C:addressbook-description/>\n    <C:addressbook-color/>\n    <A:addressbook-color/>\n    <C:supported-address-data/>\n    <D:getetag/>\n    <D:resourcetype/>\n    <D:sync-token/>\n  </D:prop>\n</D:propfind>\n"))

  abbrev pub conclude_objects : World × Result (Reply api) → World × Result (List AddressObject)
  conclude_objects = conclude (λ reply parsed. map_address_objects parsed.items)

  unfoldable pub addressbook_query :
      World → Text → Text → Bool → World × Result (List AddressObject)
  addressbook_query w addressbook_path filter_xml include_data =
      conclude_objects
        (report w addressbook_path Depth.one (build_addressbook_query_body filter_xml include_data))

  unfoldable pub addressbook_query_uid :
      World → Text → Text → Bool → World × Result (List AddressObject)
  unfolding addressbook_query
  addressbook_query_uid w addressbook_path uid include_data =
      addressbook_query w addressbook_path (build_addressbook_query_filter_uid uid) include_data

  unfoldable pub addressbook_query_email :
      World → Text → Text → Bool → World × Result (List AddressObject)
  unfolding addressbook_query
  addressbook_query_email w addressbook_path email include_data =
      addressbook_query w addressbook_path (build_addressbook_query_filter_email email) include_data

  unfoldable pub addressbook_query_fn :
      World → Text → Text → Bool → World × Result (List AddressObject)
  unfolding addressbook_query
  addressbook_query_fn w addressbook_path formatted_name include_data =
      addressbook_query w addressbook_path (build_addressbook_query_filter_fn formatted_name)
        include_data

  unfoldable pub addressbook_multiget :
      World → Text → List Text → Bool → World × Result (List AddressObject)
  addressbook_multiget w addressbook_path hrefs include_data =
      elim (build_addressbook_multiget_body hrefs include_data) [
        | none ↦ (w, ok [])
        | some body ↦ conclude_objects (report w addressbook_path Depth.one body)
      ]

  unfoldable pub sync_collection :
      World → Text → Option Text → Option ℕ → Bool → World × Result SyncResponse
  sync_collection w addressbook_path sync_token limit include_data =
      conclude (λ reply parsed. map_sync_response api reply.headers parsed.items parsed.sync_token)
        (report w addressbook_path Depth.one
          (build_sync_collection_body sync_token limit include_data))
