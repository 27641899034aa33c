-- ===== src/Tests/CardDavRuns.antt =====
-- Runs of src/carddav/client.rs.
use fast_dav_rs.Base.{◌≡◌, refl}
use fast_dav_rs.Base.Text.{trim, to_lower, contains_text, find_text, codes}
use fast_dav_rs.CardDav.Queries.{
  extract_prop_inner, mkcol_properties, build_mkcol_addressbook_body,
  build_addressbook_query_filter-injective,
}

build_addressbook_query_filter-injective_example :
    (codes "a</C:text-match>" ≡ codes "a</C:text-match>")
    × (codes "</C:addressbook-query>" ≡ codes "</C:addressbook-query>")
build_addressbook_query_filter-injective_example =
    build_addressbook_query_filter-injective (codes "UID") (codes "a</C:text-match>")
      (codes "a</C:text-match>") (codes "</C:addressbook-query>") (codes "</C:addressbook-query>")
      refl

-- A body without properties gets the resource type.
bare_mkcol :
    build_mkcol_addressbook_body (codes "<x><D:prop> </D:prop></x>")
    ≡ codes
        "<D:mkcol xmlns:D=\"DAV:\" xmlns:C=\"urn:ietf:params:xml:ns:carddav\"><D:set><D:prop><D:resourcetype><D:collection/><C:addressbook/></D:resourcetype></D:prop></D:set></D:mkcol>"
unfolding build_mkcol_addressbook_body mkcol_properties extract_prop_inner find_text contains_text
    to_lower trim
bare_mkcol = refl
