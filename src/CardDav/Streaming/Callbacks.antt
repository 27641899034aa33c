-- ===== src/CardDav/Streaming/Callbacks.antt =====
-- `parse_multistatus_bytes_visit` of src/carddav/streaming.rs beside `parse_multistatus_bytes`.
use fast_dav_rs.Base.{
  ◌≡◌, refl, ◌∙◌, ap, List, [], ◌∷◌, Option, none, some, ◌>>=?◌, inl, inr, Option-cases,
}
use fast_dav_rs.Base.Result.{Result-cases, success, success-bind}
use fast_dav_rs.Base.Text.{Text}
use fast_dav_rs.WebDav.Delivery.{deliver, deliver-append, deliver-push}
use fast_dav_rs.WebDav.Reader.{Reading, event, failed, stalled}
use fast_dav_rs.CardDav.Types.{DavItem}
use fast_dav_rs.CardDav.Streaming.Elements.{ElementName}
use fast_dav_rs.CardDav.Streaming.Visit.{Collector, with_sink, emptied, on_event-delivered}
use fast_dav_rs.CardDav.Streaming.Public.{parse_multistatus_bytes_visit}
use fast_dav_rs.CardDav.Streaming.{
  ParseResult, ItemConsumer, push_item, new_parser, on_event, finish, finished, bytes_loop,
  parse_multistatus_bytes_with,
}

-- What the callback makes of a collected document.
abbrev pub fed :
    {C : Type 0} → ItemConsumer C → C → Option (ParseResult (List DavItem)) → Option (ParseResult C)
fed consume c collected = collected >>=? λ r. success (deliver consume c r.items) >>=? λ state.
    some (record { items = state; sync_token = r.sync_token })

-- Items that were collected before are delivered before.
fed-push_item :
    {C : Type 0} (consume : ItemConsumer C) (c : C) (items : List DavItem)
    (o : Option (ParseResult (List DavItem)))
    → fed consume c (fed push_item items o)
      ≡ (success (deliver consume c items) >>=? λ c'. fed consume c' o)
fed-push_item consume c items none = elim (Result-cases (deliver consume c items)) [
  | inl (e, r) ↦ rw r refl
  | inr (c', r) ↦ rw r refl
]
fed-push_item consume c items (some r) = rw (deliver-push items r.items) (
    rw (deliver-append consume c items r.items) (elim (Result-cases (deliver consume c items)) [
      | inl (e, f) ↦ rw f refl
      | inr (c', f) ↦ rw f refl
    ]))

finished-fed :
    {C : Type 0} (consume : ItemConsumer C) (q : Collector) (c : C) (stack : List ElementName)
    → success (finished (with_sink q c) stack)
      ≡ fed consume c (success (finished (emptied q) stack))
finished-fed consume q c [] = refl
finished-fed consume q c (e ∷ rest) = refl

-- The callback's state and the token.
abbrev token_of : {C : Type 0} → Option (ParseResult C) → Option (C × Option Text)
token_of o = o >>=? λ r. some (r.items, r.sync_token)

-- They come from the collected document.
fed-token :
    {C : Type 0} (consume : ItemConsumer C) (c : C) (o : Option (ParseResult (List DavItem)))
    → token_of (fed consume c o) ≡ (
        o >>=? λ collected.
        success (deliver consume c collected.items) >>=? λ left. some (left, collected.sync_token))
fed-token consume c none = refl
fed-token consume c (some r) = elim (Option-cases (success (deliver consume c r.items))) [
  | inl n ↦ rw n refl
  | inr (left, k) ↦ rw k refl
]

module _ (unescape : Text → Option Text) where
  bytes_loop-fed :
      (readings : List Reading) {C : Type 0} (consume : ItemConsumer C) (q : Collector) (c : C)
      → success (bytes_loop unescape consume (with_sink q c) readings)
        ≡ fed consume c (success (bytes_loop unescape push_item (emptied q) readings))
  unfolding bytes_loop finish
  bytes_loop-fed [] consume q c = finished-fed consume q c q.stack
  bytes_loop-fed (failed ∷ rest) consume q c = refl
  bytes_loop-fed (stalled ∷ rest) consume q c = bytes_loop-fed rest consume q c
  bytes_loop-fed (event e ∷ rest) consume q c =
      rw (on_event-delivered unescape consume q c e)
        (elim (Result-cases (on_event unescape push_item (emptied q) e)) [
          | inl (why, r) ↦ rw r refl
          | inr (q', r) ↦ rw r (
              rw (bytes_loop-fed rest push_item q' q'.sink) (
                rw
                  (fed-push_item consume c q'.sink
                    (success (bytes_loop unescape push_item (emptied q') rest)))
                  (elim (Result-cases (deliver consume c q'.sink)) [
                    | inl (why, d) ↦ rw d refl
                    | inr (c', d) ↦ rw d (bytes_loop-fed rest consume q' c')
                  ])))
        ])

  -- A callback sees the items that the collecting parser gathers, one after the other: the visiting
  -- parser succeeds exactly if the collecting one accepts the document and the callback accepts all
  -- of its items, and then both give the same token, and the callback is left as by these items.
  pub parse_multistatus_bytes_visit-deliver :
      {C : Type 0} (on_item : ItemConsumer C) (state : C) (readings : List Reading)
      → success (parse_multistatus_bytes_visit unescape on_item state readings) ≡ (
          success (parse_multistatus_bytes_with unescape push_item [] readings) >>=? λ collected.
          success (deliver on_item state collected.items) >>=? λ left.
          some (left, collected.sync_token))
  unfolding parse_multistatus_bytes_visit parse_multistatus_bytes_with
  parse_multistatus_bytes_visit-deliver on_item state readings =
      success-bind (bytes_loop unescape on_item (new_parser state) readings) _
      ∙ ap token_of (bytes_loop-fed readings on_item (new_parser []) state)
      ∙ fed-token on_item state _
