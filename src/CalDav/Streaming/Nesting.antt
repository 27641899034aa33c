-- ===== src/CalDav/Streaming/Nesting.antt =====
-- What an accepted document looks like, and how the two loops of src/caldav/streaming.rs relate.
use fast_dav_rs.Base.{◌≡◌, refl, ◌∙◌, sym, ap, subst, List, [], ◌∷◌, Option, map}
use fast_dav_rs.Base.Result.{ok, bind-eq-ok}
use fast_dav_rs.Base.Text.{Text}
use fast_dav_rs.Base.Utf8.{from_utf8_lossy}
use fast_dav_rs.WebDav.Reader.{
  Event, Reading, event, failed, stalled, start, empty, text, cdata, end, ignored,
}
use fast_dav_rs.WebDav.Nesting.{WellNested}
use fast_dav_rs.WebDav.Streaming.{CommonParser}
use fast_dav_rs.WebDav.Streaming.Elements.{CommonElement, common_element_from_bytes}
use fast_dav_rs.WebDav.Streaming.Stack.{common_on_start-stack}
use fast_dav_rs.CalDav.Streaming.Elements.{ElementName}
use fast_dav_rs.CalDav.Streaming.Names.{common_of}
use fast_dav_rs.CalDav.Streaming.Lockstep.{
  Lockstep, on_start-Lockstep, on_end-Lockstep, handle_text-stacks,
}
use fast_dav_rs.CalDav.Streaming.{
  MultistatusParser, ParseResult, ItemConsumer, decode_text, on_start, handle_text, new_parser,
  finished, finish, on_event, bytes_loop, parse_multistatus_bytes_with,
}

module _ {C : Type 0} (unescape : Text → Option Text) (consume : ItemConsumer C) where
  abbrev shared_stack : MultistatusParser C → List CommonElement
  shared_stack p = p.common.stack

  -- What one event does to the open elements.
  abbrev Opened : Event → List CommonElement → List CommonElement → Type 0
  Opened (start e) s t = t ≡ common_element_from_bytes e.name ∷ s
  Opened (end name) s t = s ≡ common_element_from_bytes name ∷ t
  Opened _ s t = t ≡ s

  Lockstep-handle_text :
      (p : MultistatusParser C) (t : Text) → Lockstep p → Lockstep (handle_text p t)
  Lockstep-handle_text p t l = cc (handle_text-stacks p t)

  handle_text-shared :
      (p : MultistatusParser C) (t : Text) → shared_stack (handle_text p t) ≡ shared_stack p
  handle_text-shared p t =
      ap (λ (s : List ElementName × List CommonElement). s.1) (handle_text-stacks p t)

  same_of_ok : {p q : MultistatusParser C} → ok p ≡ ok q → p ≡ q
  same_of_ok h = cc

  kept_by_text :
      (p : MultistatusParser C) (t : Text) {q : MultistatusParser C}
      → Lockstep p
      → ok (handle_text p t) ≡ ok q
      → Lockstep q × (shared_stack q ≡ shared_stack p)
  kept_by_text p t l h =
      subst (λ r. Lockstep r × (shared_stack r ≡ shared_stack p)) (same_of_ok h)
        (Lockstep-handle_text p t l, handle_text-shared p t)

  -- Every event that is accepted keeps the two stacks in step.
  pub on_event-Lockstep :
      (p : MultistatusParser C) (e : Event) {q : MultistatusParser C}
      → Lockstep p
      → on_event unescape consume p e ≡ ok q
      → Lockstep q × Opened e (shared_stack p) (shared_stack q)
  unfolding on_event
  on_event-Lockstep p (start e) l h =
      let (lq, own, shared) = on_start-Lockstep p e l h in
      (lq, ap (λ (c : CommonParser). c.stack) shared ∙ common_on_start-stack p.common e.name)
  on_event-Lockstep p (empty e) l h =
      let (r, started, ended) = bind-eq-ok (on_start p e) _ h in
      let (lr, own, shared) = on_start-Lockstep p e l started in
      let (lq, dropped) = on_end-Lockstep consume r e.name lr ended in
      (
        lq,
        cc (
          ap (λ (c : CommonParser). c.stack) shared,
          common_on_start-stack p.common e.name,
          dropped,
        ),
      )
  on_event-Lockstep p (text raw) {q} l h =
      let (t, decoded, k) = bind-eq-ok (decode_text unescape raw) (λ t. ok (handle_text p t)) h in
      kept_by_text p t l k
  on_event-Lockstep p (cdata raw) l h = kept_by_text p (from_utf8_lossy raw) l h
  on_event-Lockstep p (end name) l h = on_end-Lockstep consume p name l h
  on_event-Lockstep p ignored l h =
      subst (λ r. Lockstep r × (shared_stack r ≡ shared_stack p)) (same_of_ok h) (l, refl)

  finished-Lockstep :
      (p : MultistatusParser C) {r : ParseResult C}
      → Lockstep p
      → finish p ≡ ok r
      → shared_stack p ≡ []
  unfolding finish
  finished-Lockstep p {r} l h = l ∙ ap (map common_of) (no_open p.stack h)
    where
      no_open : (s : List ElementName) → finished p s ≡ ok r → s ≡ []
      no_open [] k = refl
      no_open (x ∷ s) k = absurd (cc k)

  -- Moves the derivation along what an event did to the stack.
  nested_step :
      (e : Event) (rest : List Reading) (s t : List CommonElement)
      → Opened e s t
      → WellNested t rest
      → WellNested s (event e ∷ rest)
  nested_step (start e) rest s t o w = subst (λ t. WellNested t rest) o w
  nested_step (end name) rest s t o w =
      subst (λ s. WellNested s (event (end name) ∷ rest)) (sym o) (refl, w)
  nested_step (empty e) rest s t o w = subst (λ t. WellNested t rest) o w
  nested_step (text raw) rest s t o w = subst (λ t. WellNested t rest) o w
  nested_step (cdata raw) rest s t o w = subst (λ t. WellNested t rest) o w
  nested_step ignored rest s t o w = subst (λ t. WellNested t rest) o w

  bytes_loop-WellNested :
      (readings : List Reading) (p : MultistatusParser C) {r : ParseResult C}
      → Lockstep p
      → bytes_loop unescape consume p readings ≡ ok r
      → WellNested (shared_stack p) readings
  unfolding bytes_loop
  bytes_loop-WellNested [] p l h = subst (λ s. WellNested s []) (sym (finished-Lockstep p l h)) tt
  bytes_loop-WellNested (event e ∷ rest) p l h =
      let (q, accepted, later) = bind-eq-ok (on_event unescape consume p e) _ h in
      let (lq, opened) = on_event-Lockstep p e l accepted in
      nested_step e rest (shared_stack p) (shared_stack q) opened
        (bytes_loop-WellNested rest q lq later)
  bytes_loop-WellNested (failed ∷ rest) p l h = absurd (cc h)
  bytes_loop-WellNested (stalled ∷ rest) p l h = bytes_loop-WellNested rest p l h

  -- If a document is accepted, its tags nest: every closing tag closes the last element opened, as
  -- far as the names of src/webdav/streaming.rs tell elements apart, and all are closed at the end.
  pub parse_multistatus_bytes_with-WellNested :
      (sink : C) (readings : List Reading) {r : ParseResult C}
      → parse_multistatus_bytes_with unescape consume sink readings ≡ ok r
      → WellNested [] readings
  unfolding parse_multistatus_bytes_with
  parse_multistatus_bytes_with-WellNested sink readings h =
      bytes_loop-WellNested readings (new_parser sink) refl h
