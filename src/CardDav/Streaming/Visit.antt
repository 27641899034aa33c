-- ===== src/CardDav/Streaming/Visit.antt =====
-- The steps of the parser of src/carddav/streaming.rs over two sinks, a callback's and a list.
use fast_dav_rs.Base.{
  ◌≡◌, refl, ◌∙◌, sym, ap, List, [], ◌∷◌, Option, none, arith, inl, inr, Bool-cases,
}
use fast_dav_rs.Base.Result.{Result, ok, ◌>>=◌, Result-cases}
use fast_dav_rs.Base.Text.{Text, Bytes, trim}
use fast_dav_rs.WebDav.Delivery.{deliver}
use fast_dav_rs.WebDav.Reader.{
  Attribute, BytesStart, Event, start, empty, text, cdata, end, ignored,
}
use fast_dav_rs.WebDav.Streaming.{common_on_start, common_on_end, common_on_text, finish_response}
use fast_dav_rs.CardDav.Types.{DavItem, apply_common}
use fast_dav_rs.CardDav.Streaming.Elements.{
  ElementName, response, addressbook, address_data_type, resourcetype, propstat, prop,
  element_from_bytes,
}
use fast_dav_rs.CardDav.Streaming.{
  MultistatusParser, ItemConsumer, push_item, started, data_type_path, item_path, read_data_type,
  on_start, popped, on_end, store_trimmed, store_text, handle_text, decode_text, on_event,
}

abbrev addressbook_path : List ElementName
addressbook_path = response ∷ propstat ∷ prop ∷ resourcetype ∷ addressbook ∷ []

abbrev pub Collector : Type 0
Collector = MultistatusParser (List DavItem)

-- The parser with another sink.
abbrev pub with_sink : {C : Type 0} → Collector → C → MultistatusParser C
with_sink q c = record {
  stack = q.stack;
  current = q.current;
  sync_token = q.sync_token;
  common = q.common;
  sink = c;
}

-- The collecting parser that has collected nothing yet.
abbrev pub emptied : Collector → Collector
emptied q = with_sink {C = List DavItem} q []

-- What a step comes to that leaves the sink alone.
abbrev resumed : {C : Type 0} → C → Result Collector → Result (MultistatusParser C)
resumed c step = step >>= λ q. ok (with_sink q c)

module _ {C : Type 0} (consume : ItemConsumer C) where
  -- What a step comes to that hands over the items which the same step collects.
  abbrev pub delivered : C → Result Collector → Result (MultistatusParser C)
  delivered c step = step >>= λ q. deliver consume c q.sink >>= λ c'. ok (with_sink q c')

  item_path-with_sink :
      (q : Collector) (c : C) (path : List ElementName)
      → item_path (with_sink q c) path ≡ item_path (emptied q) path
  unfolding item_path
  item_path-with_sink q c path = refl

  started-resumed :
      (q : Collector) (c : C) (e : ElementName) (attributes : List (Option Attribute))
      → started (with_sink q c) e attributes ≡ resumed c (started (emptied q) e attributes)
  started-resumed q c response attributes = refl
  started-resumed q c addressbook attributes =
      rw (item_path-with_sink q c addressbook_path)
        (elim (Bool-cases (item_path (emptied q) addressbook_path)) [
          | inl inside ↦ rw inside refl
          | inr outside ↦ rw outside refl
        ])
  started-resumed q c address_data_type attributes =
      rw (item_path-with_sink q c data_type_path)
        (elim (Bool-cases (item_path (emptied q) data_type_path)) [
          | inr outside ↦ rw outside refl
          | inl inside ↦
              rw inside
                (elim (Result-cases
                  (read_data_type (record { content_type = none; version = none }) attributes)) [
                    | inl (e, r) ↦ rw r refl
                    | inr (cs, r) ↦ rw r refl
                  ])
        ])
  started-resumed q c _ attributes = refl

  on_start-resumed :
      (q : Collector) (c : C) (e : BytesStart)
      → on_start (with_sink q c) e ≡ resumed c (on_start (emptied q) e)
  unfolding on_start
  on_start-resumed q c e =
      started-resumed
        (record q {
          common = common_on_start q.common e.name;
          stack = element_from_bytes e.name ∷ q.stack;
        })
        c (element_from_bytes e.name) e.attributes

  popped-delivered :
      (q : Collector) (c : C) (s : List ElementName)
      → popped consume (with_sink q c) s ≡ delivered c (popped push_item (emptied q) s)
  popped-delivered q c [] = refl
  popped-delivered q c (response ∷ rest) =
      elim (Result-cases (consume c (apply_common q.current (finish_response q.common).0))) [
        | inl (e, r) ↦ rw r refl
        | inr (sink, r) ↦ rw r refl
      ]
  popped-delivered q c (_ ∷ rest) = refl

  on_end-delivered :
      (q : Collector) (c : C) (name : Bytes)
      → on_end consume (with_sink q c) name ≡ delivered c (on_end push_item (emptied q) name)
  unfolding on_end
  on_end-delivered q c name = elim (Result-cases (common_on_end q.common name)) [
    | inl (e, r) ↦ rw r refl
    | inr (common, r) ↦ rw r (popped-delivered (record q { common = common }) c q.stack)
  ]

  store_trimmed-delivered :
      (q : Collector) (c : C) (t : Text)
      → store_trimmed (with_sink q c) t ≡ with_sink (store_trimmed (emptied q) t) c
  unfolding store_trimmed item_path
  store_trimmed-delivered q c t = ground arith

  store_text-delivered :
      (q : Collector) (c : C) (t : Text)
      → store_text (with_sink q c) t ≡ with_sink (store_text (emptied q) t) c
  unfolding store_text item_path
  store_text-delivered q c t = ground (arith, store_trimmed-delivered q c (trim t))

  handle_text-with_sink :
      (q : Collector) (c : C) (t : Text)
      → handle_text (with_sink q c) t ≡ with_sink (handle_text (emptied q) t) c
  unfolding handle_text
  handle_text-with_sink q c t =
      ground (arith, store_text-delivered (record q { common = common_on_text q.common t }) c t)

-- Character data is no item.
handle_text-sink : (q : Collector) (t : Text) → (handle_text (emptied q) t).sink ≡ []
handle_text-sink q t = ap (λ (p : Collector). p.sink) (handle_text-with_sink push_item q [] t)

-- An opening tag is no item.
on_start-emptied :
    (q : Collector) (e : BytesStart) {q' : Collector}
    → on_start (emptied q) e ≡ ok q'
    → q' ≡ emptied q'
on_start-emptied q e {q' = q'} h =
    let same : ok q' ≡ resumed [] (ok q') = rw h at (on_start-resumed push_item q [] e) in cc same

module _ {C : Type 0} (unescape : Text → Option Text) (consume : ItemConsumer C) where
  handle_text-delivered :
      (q : Collector) (c : C) (t : Text)
      → ok (handle_text (with_sink q c) t) ≡ delivered consume c (ok (handle_text (emptied q) t))
  handle_text-delivered q c t =
      rw (handle_text-with_sink consume q c t) (rw (handle_text-sink q t) refl)

  -- The parsers of the loop, one over each sink.
  pub on_event-delivered :
      (q : Collector) (c : C) (e : Event)
      → on_event unescape consume (with_sink q c) e
        ≡ delivered consume c (on_event unescape push_item (emptied q) e)
  unfolding on_event
  on_event-delivered q c (start e) = elim (Result-cases (on_start (emptied q) e)) [
    | inl (why, r) ↦ rw (on_start-resumed consume q c e, r) refl
    | inr (q', r) ↦ rw (on_start-resumed consume q c e, r) (rw (on_start-emptied q e r) refl)
  ]
  on_event-delivered q c (empty e) = elim (Result-cases (on_start (emptied q) e)) [
    | inl (why, r) ↦ rw (on_start-resumed consume q c e, r) refl
    | inr (q', r) ↦
        rw (on_start-resumed consume q c e, r)
          (on_end-delivered consume q' c e.name
            ∙ ap (λ p. delivered consume c (on_end push_item p e.name))
                (sym (on_start-emptied q e r)))
  ]
  on_event-delivered q c (text raw) = elim (Result-cases (decode_text unescape raw)) [
    | inl (e, r) ↦ rw r refl
    | inr (t, r) ↦ rw r (handle_text-delivered q c t)
  ]
  on_event-delivered q c (cdata raw) = handle_text-delivered q c _
  on_event-delivered q c (end name) = on_end-delivered consume q c name
  on_event-delivered q c ignored = refl
