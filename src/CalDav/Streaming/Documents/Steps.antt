-- ===== src/CalDav/Streaming/Documents/Steps.antt =====
-- The steps of the parser of src/caldav/streaming.rs over the members of a document.
use mathlib.Core.List.{append-nil, append_assoc}
use fast_dav_rs.Base.{ℕ, ◌≡◌, refl, ◌∙◌, sym, ap, List, [], ◌∷◌, ◌++◌, Option, none, some, All, map}
use fast_dav_rs.Base.Result.{Result, ok}
use fast_dav_rs.Base.Text.{Text, Bytes, codes, text_eq, to_lower}
use fast_dav_rs.WebDav.Reader.{Reading}
use fast_dav_rs.WebDav.Streaming.Elements.{
  CommonElement, local_name, first_match, common_element_from_bytes, common_index, common_eq,
}
use fast_dav_rs.WebDav.Streaming.{
  common_path, common_on_start, common_on_end, common_store, common_on_text, finish_response,
}
use fast_dav_rs.WebDav.Types.{DavItemCommon}
use fast_dav_rs.CalDav.Types.{DavItem, apply_common}
use fast_dav_rs.CalDav.Streaming.Elements.{
  response, propstat, prop, element_from_bytes, element_index, element_eq,
}
use fast_dav_rs.CalDav.Streaming.{
  ParseResult, push_item, item_path, on_start, on_end, store_trimmed, store_text, handle_text,
  finish, on_event, bytes_loop,
}
use fast_dav_rs.CalDav.Streaming.Documents.States.{
  tag, Entry, Member, found, bare, item_of, closing, Loop, known, within_response, between,
}
use fast_dav_rs.CalDav.Streaming.Documents.Written.{
  data_readings, optional, tail_readings, member_readings, members_readings, IsPlain, IsBlank,
  spaced, element, IsPlainOption, IsMember,
}
use fast_dav_rs.CalDav.Streaming.Documents.Texts.{decoded, blank_read, in_data, data_read}

module _ (unescape : Text → Option Text) (encode : Text → Bytes) (gap : ℕ → Option Text) where
  abbrev pub loop : Loop → List Reading → Result (ParseResult (List DavItem))
  loop = bytes_loop unescape push_item

  module _ (spaces : (depth : ℕ) → IsBlank unescape encode (gap depth)) (items : List DavItem) where
    -- The parser in a response, with the given elements open.
    abbrev in_response : Option Text → DavItemCommon → Loop
    in_response = within_response items (response ∷ []) (CommonElement.response ∷ [])

    abbrev in_propstat : Option Text → DavItemCommon → Loop
    in_propstat =
        within_response items (propstat ∷ response ∷ [])
          (CommonElement.propstat ∷ CommonElement.response ∷ [])

    abbrev in_prop : Option Text → DavItemCommon → Loop
    in_prop =
        within_response items (prop ∷ propstat ∷ response ∷ [])
          (CommonElement.prop ∷ CommonElement.propstat ∷ CommonElement.response ∷ [])

    href_read :
        (t : Text) (more : List Reading)
        → IsPlain unescape encode t
        → loop (in_response none (known [] none none)) (element encode gap (codes "D:href") t more)
          ≡ loop (in_response none (known t none none)) more
    unfolding item_path on_start on_end store_trimmed store_text handle_text on_event bytes_loop
        element_from_bytes element_index element_eq common_path common_on_start common_on_end
        common_store common_on_text local_name first_match common_element_from_bytes common_index
        common_eq text_eq to_lower
    href_read t more p =
        rw (decoded unescape encode gap t p.read)
          (rw p.nonempty (rw p.trimmed (rw p.nonempty refl)))

    etag_read :
        (h t : Text) (more : List Reading)
        → IsPlain unescape encode t
        → loop (in_prop none (known h none none)) (element encode gap (codes "D:getetag") t more)
          ≡ loop (in_prop none (known h (some t) none)) more
    unfolding item_path on_start on_end store_trimmed store_text handle_text on_event bytes_loop
        element_from_bytes element_index element_eq common_path common_on_start common_on_end
        common_store common_on_text local_name first_match common_element_from_bytes common_index
        common_eq text_eq to_lower
    etag_read h t more p =
        rw (decoded unescape encode gap t p.read)
          (rw p.nonempty (rw p.trimmed (rw p.nonempty refl)))

    bare_status_read :
        (h t : Text) (more : List Reading)
        → IsPlain unescape encode t
        → loop (in_response none (known h none none)) (element encode gap (codes "D:status") t more)
          ≡ loop (in_response none (known h none (some t))) more
    unfolding item_path on_start on_end store_trimmed store_text handle_text on_event bytes_loop
        element_from_bytes element_index element_eq common_path common_on_start common_on_end
        common_store common_on_text local_name first_match common_element_from_bytes common_index
        common_eq text_eq to_lower
    bare_status_read h t more p =
        rw (decoded unescape encode gap t p.read)
          (rw p.nonempty (rw p.trimmed (rw p.nonempty refl)))

    status_element_read :
        (acc : Option Text) (h g t : Text) (more : List Reading)
        → IsPlain unescape encode t
        → loop
            (in_propstat acc (known h (some g) none))
            (element encode gap (codes "D:status") t more)
          ≡ loop (in_propstat acc (known h (some g) (some t))) more
    unfolding item_path on_start on_end store_trimmed store_text handle_text on_event bytes_loop
        element_from_bytes element_index element_eq common_path common_on_start common_on_end
        common_store common_on_text local_name first_match common_element_from_bytes common_index
        common_eq text_eq to_lower
    status_element_read acc h g t more p =
        rw (decoded unescape encode gap t p.read)
          (rw p.nonempty (rw p.trimmed (rw p.nonempty refl)))

    status_read :
        (acc : Option Text) (h g : Text) (s : Option Text) (more : List Reading)
        → IsPlainOption unescape encode s
        → loop
            (in_propstat acc (known h (some g) none))
            (optional encode gap 3 (codes "D:status") s more)
          ≡ loop (in_propstat acc (known h (some g) s)) more
    unfolding item_path element_index element_eq
    status_read acc h g none more p = refl
    status_read acc h g (some s) more p =
        blank_read unescape encode gap (in_propstat acc (known h (some g) none)) (gap 3) _ refl refl
          (spaces 3)
        ∙ status_element_read acc h g s more p

    module _ (e : Entry) where
      head_read :
          (more : List Reading)
          → IsPlain unescape encode e.href
          → IsPlain unescape encode e.etag
          → loop (between items) (member_readings encode gap (found e) more)
            ≡ loop
                (in_data unescape encode gap items none (known e.href (some e.etag) none))
                (data_readings encode gap e.data_pieces (tail_readings encode gap e.status more))
      unfolding item_path on_start on_end store_trimmed store_text handle_text on_event bytes_loop
          element_from_bytes element_index element_eq common_path common_on_start common_on_end
          common_store common_on_text local_name first_match common_element_from_bytes common_index
          common_eq text_eq to_lower
      head_read more h t =
          let object_data =
            tag (codes "C:calendar-data")
            ∷ data_readings encode gap e.data_pieces (tail_readings encode gap e.status more) in
          let etag =
            element encode gap (codes "D:getetag") e.etag (spaced encode gap 4 object_data) in
          let props = tag (codes "D:prop") ∷ spaced encode gap 4 etag in
          let propstats = tag (codes "D:propstat") ∷ spaced encode gap 3 props in
          blank_read unescape encode gap (between items) (gap 1) _ refl refl (spaces 1)
          ∙ blank_read unescape encode gap (in_response none (known [] none none)) (gap 2) _ refl
              refl (spaces 2)
          ∙ href_read e.href (spaced encode gap 2 propstats) h
          ∙ blank_read unescape encode gap (in_response none (known e.href none none)) (gap 2)
              propstats refl refl (spaces 2)
          ∙ blank_read unescape encode gap (in_propstat none (known e.href none none)) (gap 3) props
              refl refl (spaces 3)
          ∙ blank_read unescape encode gap (in_prop none (known e.href none none)) (gap 4) etag refl
              refl (spaces 4)
          ∙ etag_read e.href e.etag (spaced encode gap 4 object_data) t
          ∙ blank_read unescape encode gap (in_prop none (known e.href (some e.etag) none)) (gap 4)
              object_data refl refl (spaces 4)

      tail_read :
          (acc : Option Text) (more : List Reading)
          → IsPlainOption unescape encode e.status
          → loop
              (in_data unescape encode gap items acc (known e.href (some e.etag) none))
              (tail_readings encode gap e.status more)
            ≡ loop (between (items ++ record (item_of (found e)) { calendar_data = acc } ∷ [])) more
      unfolding item_path on_start on_end store_trimmed store_text handle_text on_event bytes_loop
          element_from_bytes element_index element_eq common_path common_on_start common_on_end
          common_store common_on_text local_name first_match common_element_from_bytes common_index
          common_eq text_eq to_lower finish_response apply_common
      tail_read acc more s =
          blank_read unescape encode gap (in_prop acc (known e.href (some e.etag) none)) (gap 3) _
            refl refl (spaces 3)
          ∙ status_read acc e.href e.etag e.status _ s
          ∙ blank_read unescape encode gap (in_propstat acc (known e.href (some e.etag) e.status))
              (gap 2) _ refl refl (spaces 2)
          ∙ blank_read unescape encode gap (in_response acc (known e.href (some e.etag) e.status))
              (gap 1) _ refl refl (spaces 1)

    bare_read :
        (href status : Text) (more : List Reading)
        → IsPlain unescape encode href
        → IsPlain unescape encode status
        → loop (between items) (member_readings encode gap (bare href status) more)
          ≡ loop (between (items ++ item_of (bare href status) ∷ [])) more
    unfolding item_path on_start on_end store_trimmed store_text handle_text on_event bytes_loop
        element_from_bytes element_index element_eq common_path common_on_start common_on_end
        common_store common_on_text local_name first_match common_element_from_bytes common_index
        common_eq text_eq to_lower finish_response apply_common
    bare_read href status more h s =
        let last = closing (codes "D:response") ∷ more in
        let state = element encode gap (codes "D:status") status (spaced encode gap 1 last) in
        blank_read unescape encode gap (between items) (gap 1) _ refl refl (spaces 1)
        ∙ blank_read unescape encode gap (in_response none (known [] none none)) (gap 2) _ refl refl
            (spaces 2)
        ∙ href_read href (spaced encode gap 2 state) h
        ∙ blank_read unescape encode gap (in_response none (known href none none)) (gap 2) state
            refl refl (spaces 2)
        ∙ bare_status_read href status (spaced encode gap 1 last) s
        ∙ blank_read unescape encode gap (in_response none (known href none (some status))) (gap 1)
            last refl refl (spaces 1)

    member_read :
        (m : Member) (more : List Reading)
        → IsMember unescape encode m
        → loop (between items) (member_readings encode gap m more)
          ≡ loop (between (items ++ item_of m ∷ [])) more
    member_read (bare href status) more p = bare_read href status more p.0 p.1
    member_read (found e) more p =
        head_read e more p.href p.etag
        ∙ data_read unescape encode gap items e none e.data_pieces _ p.data_pieces
        ∙ tail_read e _ more p.status

    token_element_read :
        (t : Text) (more : List Reading)
        → IsPlain unescape encode t
        → loop (between items) (element encode gap (codes "D:sync-token") t more)
          ≡ loop (record (between items) { sync_token = some t }) more
    unfolding item_path on_start on_end store_trimmed store_text handle_text on_event bytes_loop
        element_from_bytes element_index element_eq common_path common_on_start common_on_end
        common_store common_on_text local_name first_match common_element_from_bytes common_index
        common_eq text_eq to_lower
    token_element_read t more p =
        rw (decoded unescape encode gap t p.read)
          (rw p.nonempty (rw p.trimmed (rw p.nonempty refl)))

    pub token_read :
        (token : Option Text)
        → IsPlainOption unescape encode token
        → loop (between items) (
            optional encode gap 1
              (codes "D:sync-token")
              token
              (spaced encode gap 0 (closing (codes "D:multistatus") ∷ [])))
          ≡ ok (record { items = items; sync_token = token })
    unfolding item_path on_start on_end store_trimmed store_text handle_text on_event bytes_loop
        element_from_bytes element_index element_eq common_path common_on_start common_on_end
        common_store common_on_text local_name first_match common_element_from_bytes common_index
        common_eq text_eq to_lower finish
    token_read none p =
        blank_read unescape encode gap (between items) (gap 0) _ refl refl (spaces 0)
    token_read (some token) p =
        let last = closing (codes "D:multistatus") ∷ [] in
        blank_read unescape encode gap (between items) (gap 1) _ refl refl (spaces 1)
        ∙ token_element_read token (spaced encode gap 0 last) p
        ∙ blank_read unescape encode gap (record (between items) { sync_token = some token })
            (gap 0) last refl refl (spaces 0)

  module _ (spaces : (depth : ℕ) → IsBlank unescape encode (gap depth)) where
    pub members_read :
        (ms : List Member) (items : List DavItem) (more : List Reading)
        → All (IsMember unescape encode) ms
        → loop (between items) (members_readings encode gap ms more)
          ≡ loop (between (items ++ map item_of ms)) more
    members_read [] items more ps = ap (λ l. loop (between l) more) (sym (append-nil items))
    members_read (m ∷ ms) items more ps =
        member_read spaces items m _ ps.0
        ∙ members_read ms (items ++ item_of m ∷ []) more ps.1
        ∙ ap (λ l. loop (between l) more) (append_assoc items (item_of m ∷ []) (map item_of ms))
