-- ===== src/WebDav/Streaming/Stack.antt =====
-- What the operations of `CommonParser` do to the stack of open elements.
use fast_dav_rs.Base.{◌≡◌, refl, ap, List, [], ◌∷◌, arith, inl, inr, Bool-cases}
use fast_dav_rs.Base.Result.{Result, ok, err}
use fast_dav_rs.Base.Text.{Text, Bytes}
use fast_dav_rs.WebDav.Streaming.Elements.{
  CommonElement, response, collection, common_element_from_bytes, common_eq,
}
use fast_dav_rs.WebDav.Streaming.Names.{common_eq_iff}
use fast_dav_rs.WebDav.Streaming.{
  CommonParser, common_started, common_on_start, common_popped, common_on_end, common_on_text,
  finish_response,
}

started-stack : (p : CommonParser) (e : CommonElement) → (common_started p e).stack ≡ p.stack
started-stack p response = refl
started-stack p collection = ground arith
started-stack p _ = refl

pub common_on_start-stack :
    (p : CommonParser) (raw : Bytes)
    → (common_on_start p raw).stack ≡ common_element_from_bytes raw ∷ p.stack
unfolding common_on_start
common_on_start-stack p raw =
    started-stack (record p { stack = common_element_from_bytes raw ∷ p.stack })
      (common_element_from_bytes raw)

pub common_on_text-stack : (p : CommonParser) (t : Text) → (common_on_text p t).stack ≡ p.stack
unfolding common_on_text
common_on_text-stack p t = ground arith

pub finish_response-stack : (p : CommonParser) → (finish_response p).1.stack ≡ p.stack
unfolding finish_response
finish_response-stack p = refl

popped-stack :
    (p : CommonParser) (e : CommonElement) (s : List CommonElement) {q : CommonParser}
    → common_popped p e s ≡ ok q
    → s ≡ e ∷ q.stack
popped-stack p e [] h = absurd (cc h)
popped-stack p e (c ∷ rest) {q} h = elim (Bool-cases (common_eq c e)) [
  | inl same ↦
      let k : ok (record p { stack = rest }) ≡ ok q = rw same at h in
      cc ((common_eq_iff c e).0 same, ap (stack_of rest) k)
  | inr differs ↦ absurd (cc (rw differs at h))
]
  where
    stack_of : List CommonElement → Result CommonParser → List CommonElement
    stack_of d (ok r) = r.stack
    stack_of d (err _) = d

-- A closing tag is taken only if it closes the last element opened.
pub common_on_end-stack :
    (p : CommonParser) (raw : Bytes) {q : CommonParser}
    → common_on_end p raw ≡ ok q
    → p.stack ≡ common_element_from_bytes raw ∷ q.stack
unfolding common_on_end
common_on_end-stack p raw h = popped-stack p (common_element_from_bytes raw) p.stack h
