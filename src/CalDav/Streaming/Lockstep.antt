-- ===== src/CalDav/Streaming/Lockstep.antt =====
-- The parser of src/caldav/streaming.rs keeps two stacks of open elements, its own and that of the
-- shared `CommonParser`; only the shared one is checked against the closing tags.
use fast_dav_rs.Base.{
  ◌≡◌, refl, ◌∙◌, sym, ap, List, [], ◌∷◌, Option, map, arith, inl, inr, Bool-cases,
}
use fast_dav_rs.Base.Result.{Result, ok, err, bind-eq-ok, Result-cases}
use fast_dav_rs.Base.Text.{Text, Bytes, trim}
use fast_dav_rs.WebDav.Reader.{Attribute, BytesStart}
use fast_dav_rs.WebDav.Streaming.Elements.{CommonElement, common_element_from_bytes}
use fast_dav_rs.WebDav.Streaming.{
  CommonParser, common_on_start, common_on_end, common_on_text, finish_response,
}
use fast_dav_rs.WebDav.Streaming.Stack.{
  common_on_start-stack, common_on_end-stack, common_on_text-stack, finish_response-stack,
}
use fast_dav_rs.CalDav.Types.{apply_common}
use fast_dav_rs.CalDav.Streaming.Elements.{
  ElementName, response, calendar, comp, element_from_bytes,
}
use fast_dav_rs.CalDav.Streaming.Names.{common_of, common_of-element_from_bytes}
use fast_dav_rs.CalDav.Streaming.{
  MultistatusParser, ItemConsumer, started, comp_path, item_path, read_components, on_start, popped,
  on_end, store_trimmed, store_text, handle_text,
}

module _ {C : Type 0} where
  -- The shared stack holds the shared variants of the elements of the other.
  abbrev pub Lockstep : MultistatusParser C → Type 0
  Lockstep p = p.common.stack ≡ map common_of p.stack

  -- Both stacks of the second parser are those of the first.
  abbrev SameStacks : MultistatusParser C → Result (MultistatusParser C) → Type 0
  SameStacks p (ok q) = (q.stack ≡ p.stack) × (q.common ≡ p.common)
  SameStacks p (err e) = Unit

  started-SameStacks :
      (p : MultistatusParser C) (e : ElementName) (attributes : List (Option Attribute))
      → SameStacks p (started p e attributes)
  started-SameStacks p response attributes = (refl, refl)
  started-SameStacks p calendar attributes = ground arith
  started-SameStacks p comp attributes = elim (Bool-cases (item_path p comp_path)) [
    | inr outside ↦ rw outside (refl, refl)
    | inl inside ↦
        rw inside (elim (Result-cases (read_components p.current.supported_components attributes)) [
          | inl (e, r) ↦ rw r tt
          | inr (cs, r) ↦ rw r (refl, refl)
        ])
  ]
  started-SameStacks p _ attributes = (refl, refl)

  pub on_start-Lockstep :
      (p : MultistatusParser C) (e : BytesStart) {q : MultistatusParser C}
      → Lockstep p
      → on_start p e ≡ ok q
      → Lockstep q
        × (q.stack ≡ element_from_bytes e.name ∷ p.stack)
        × (q.common ≡ common_on_start p.common e.name)
  unfolding on_start
  on_start-Lockstep p e {q} l h =
      let element = element_from_bytes e.name in
      let pushed : MultistatusParser C = record p {
        common = common_on_start p.common e.name;
        stack = element ∷ p.stack;
      } in
      let same : SameStacks pushed (ok q) =
        rw h at (started-SameStacks pushed element e.attributes) in
      let shared : common_element_from_bytes e.name ∷ p.common.stack
          ≡ map common_of (element ∷ p.stack) =
        cc (common_of-element_from_bytes e.name, l) in
      (
        ap (λ (c : CommonParser). c.stack) same.1
            ∙ common_on_start-stack p.common e.name
            ∙ shared
            ∙ sym (ap (map common_of) same.0),
        same.0,
        same.1,
      )

  -- What a pop of the second stack leaves behind.
  abbrev rest_of : MultistatusParser C → List ElementName → List ElementName
  rest_of p [] = p.stack
  rest_of p (e ∷ rest) = rest

  abbrev Popped : MultistatusParser C → List ElementName → Result (MultistatusParser C) → Type 0
  Popped p s (ok q) = (q.common.stack ≡ p.common.stack) × (q.stack ≡ rest_of p s)
  Popped p s (err e) = Unit

  popped-Popped :
      (consume : ItemConsumer C) (p : MultistatusParser C) (s : List ElementName)
      → Popped p s (popped consume p s)
  popped-Popped consume p [] = (refl, refl)
  popped-Popped consume p (response ∷ rest) =
      elim (Result-cases (consume p.sink (apply_common p.current (finish_response p.common).0))) [
        | inl (e, r) ↦ rw r tt
        | inr (sink, r) ↦ rw r (finish_response-stack p.common, refl)
      ]
  popped-Popped consume p (_ ∷ rest) = (refl, refl)

  tail_of :
      (p : MultistatusParser C) {d : CommonElement} {t : List CommonElement}
      → map common_of p.stack ≡ d ∷ t
      → map common_of (rest_of p p.stack) ≡ t
  tail_of p {d} {t} h = go p.stack h
    where
      go : (s : List ElementName) → map common_of s ≡ d ∷ t → map common_of (rest_of p s) ≡ t
      go [] h = absurd (cc h)
      go (e ∷ rest) h = cc h

  -- A closing tag is taken only if it closes the last element opened, and both stacks drop it.
  pub on_end-Lockstep :
      (consume : ItemConsumer C) (p : MultistatusParser C) (name : Bytes) {q : MultistatusParser C}
      → Lockstep p
      → on_end consume p name ≡ ok q
      → Lockstep q × (p.common.stack ≡ common_element_from_bytes name ∷ q.common.stack)
  unfolding on_end
  on_end-Lockstep consume p name {q} l h =
      let (common, popped_common, rest) = bind-eq-ok (common_on_end p.common name) _ h in
      let taken = common_on_end-stack p.common name popped_common in
      let left : Popped (record p { common = common }) p.stack (ok q) =
        rw rest at (popped-Popped consume (record p { common = common }) p.stack) in
      let whole : map common_of p.stack ≡ common_element_from_bytes name ∷ common.stack =
        sym l ∙ taken in
      let kept : map common_of (rest_of (record p { common = common }) p.stack) ≡ common.stack =
        tail_of p whole in
      (
        left.0 ∙ sym kept ∙ sym (ap (map common_of) left.1),
        taken ∙ ap (◌∷◌ (common_element_from_bytes name)) (sym left.0),
      )

  -- A parser with both stacks as they were.
  abbrev stacks : MultistatusParser C → List ElementName × List CommonElement
  stacks p = (p.stack, p.common.stack)

  store_trimmed-stacks :
      (p : MultistatusParser C) (t : Text) → stacks (store_trimmed p t) ≡ stacks p
  unfolding store_trimmed
  store_trimmed-stacks p t = ground arith

  store_text-stacks : (p : MultistatusParser C) (t : Text) → stacks (store_text p t) ≡ stacks p
  unfolding store_text
  store_text-stacks p t = ground (arith, store_trimmed-stacks p (trim t))

  -- Character data opens and closes nothing.
  pub handle_text-stacks :
      (p : MultistatusParser C) (t : Text) → stacks (handle_text p t) ≡ stacks p
  unfolding handle_text
  handle_text-stacks p t = ground (
    arith,
    store_text-stacks (record p { common = common_on_text p.common t }) t,
    common_on_text-stack p.common t,
  )
