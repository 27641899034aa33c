-- ===== src/WebDav/Client/Http.antt =====
-- What src/webdav/client.rs uses of the http, hyper and tokio crates: URIs and request builders as
-- an interface, and the requests and answers that cross it.
use fast_dav_rs.Base.{
  ℕ, ◌≡◌, refl, sym, ap, ◌∙◌, List, [], ◌∷◌, ◌++◌, Option, some, Bool, false, any, within, ◌>>=?◌,
  arith,
}
use fast_dav_rs.Base.Text.{Text, Bytes, text_eq}
use fast_dav_rs.WebDav.Headers.{HeaderApi, Entries, get_entry, entries_api}

pub record HttpApi (api : HeaderApi) : Type 1 where
  pub Uri : Type 0
  pub PathAndQuery : Type 0
  -- `str::parse`
  pub parse_uri : Text → Option Uri
  pub parse_path_and_query : Text → Option PathAndQuery
  -- `into_parts().path_and_query`, and its `path()`
  pub path_and_query : Uri → Option PathAndQuery
  pub path : PathAndQuery → Text
  -- `Uri::from_parts` on the parts of the URI with another path
  pub with_path_and_query : Uri → PathAndQuery → Option Uri
  -- The headers of a request builder that was given the listed values and then those of the map;
  -- `none` is the builder's error.
  pub build_headers : List (Text × api.HeaderValue) → api.HeaderMap → Option api.HeaderMap
  -- A name that is not among the listed ones has the value that the map gives it.
  pub get-build_headers :
      (first : List (Text × api.HeaderValue)) (rest : api.HeaderMap) {built : api.HeaderMap}
      → build_headers first rest ≡ some built
      → (n : Text) → any (λ entry. text_eq entry.0 n) first ≡ false
      → api.get built n ≡ api.get rest n

module _ (api : HeaderApi) (http : HttpApi api) where
  pub record Request : Type 0 where
    pub method : Text
    pub uri : http.Uri
    pub headers : api.HeaderMap
    pub body : Bytes

-- `body` is `none` where reading it fails.
pub record Response (api : HeaderApi) : Type 0 where
  pub status : ℕ
  pub headers : api.HeaderMap
  pub body : Option Bytes

-- What a request is answered with: nothing but an error of the transport, or a response after the
-- given number of seconds.
pub data Answer (api : HeaderApi) : Type 0 where
  broken : Answer api
  replied : ℕ → Response api → Answer api

-- `StatusCode::is_success`
abbrev pub is_success : ℕ → Bool
is_success = within 200 299

get_entry-append :
    (first rest : Entries) (n : Text)
    → any (λ entry. text_eq entry.0 n) first ≡ false
    → get_entry (first ++ rest) n ≡ get_entry rest n
unfolding get_entry
get_entry-append [] rest n h = refl
get_entry-append ((m, v) ∷ first) rest n h = ground (arith, get_entry-append first rest n)

pub get_entry-built :
    (first rest : Entries) {built : Entries}
    → ◌≡◌ {A = Option Entries} (some (first ++ rest)) (some built)
    → (n : Text) → any (λ entry. text_eq entry.0 n) first ≡ false
    → get_entry built n ≡ get_entry rest n
get_entry-built first rest made n h =
    ap (λ (o : Option Entries). o >>=? λ b. get_entry b n) (sym made)
    ∙ get_entry-append first rest n h

-- URIs as texts, whose path is the whole text, meet the interface.
abbrev pub text_http : HttpApi entries_api
text_http = record {
  Uri = Text;
  PathAndQuery = Text;
  parse_uri = some;
  parse_path_and_query = some;
  path_and_query = some;
  path = λ p. p;
  with_path_and_query = λ u p. some p;
  build_headers = λ first rest. some (first ++ rest);
  get-build_headers = get_entry-built;
}
