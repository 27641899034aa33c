-- ===== src/WebDav/Nesting.antt =====
-- Which documents, as the XML reader reports them, have tags that nest.
use fast_dav_rs.Base.{◌≡◌, List, [], ◌∷◌}
use fast_dav_rs.WebDav.Reader.{Reading, event, failed, stalled, start, end}
use fast_dav_rs.WebDav.Streaming.Elements.{CommonElement, common_element_from_bytes}

-- The readings close the open elements, the last one first, and whatever they open themselves.
-- Tags are told apart as far as the shared parser does it. A pause of the reader is no event.
abbrev pub WellNested : List CommonElement → List Reading → Type 0
WellNested [] [] = Unit
WellNested (x ∷ open_elements) [] = ⊥
WellNested open_elements (event (start e) ∷ rest) =
    WellNested (common_element_from_bytes e.name ∷ open_elements) rest
WellNested [] (event (end name) ∷ rest) = ⊥
WellNested (x ∷ open_elements) (event (end name) ∷ rest) =
    (common_element_from_bytes name ≡ x) × WellNested open_elements rest
WellNested open_elements (event _ ∷ rest) = WellNested open_elements rest
WellNested open_elements (failed ∷ rest) = ⊥
WellNested open_elements (stalled ∷ rest) = WellNested open_elements rest
