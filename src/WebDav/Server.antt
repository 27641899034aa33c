-- ===== src/WebDav/Server.antt =====
-- What the operations of src/caldav/client.rs and src/carddav/client.rs use: requests that change a
-- world, and the quick-xml crate's reader and `unescape`.
use fast_dav_rs.Base.{ℕ, List, Option}
use fast_dav_rs.Base.Result.{Result}
use fast_dav_rs.Base.Text.{Text, Bytes}
use fast_dav_rs.WebDav.Headers.{HeaderApi}
use fast_dav_rs.WebDav.Reader.{Reading}
use fast_dav_rs.WebDav.Types.{Depth}

-- An aggregated response.
pub record Reply (api : HeaderApi) : Type 0 where
  pub status : ℕ
  pub headers : api.HeaderMap
  pub body : Bytes

pub record Server (api : HeaderApi) : Type 1 where
  pub World : Type 0
  pub propfind : World → Text → Depth → Text → World × Result (Reply api)
  pub report : World → Text → Depth → Text → World × Result (Reply api)
  -- What the reader yields on a body, up to its end.
  pub read : Bytes → List Reading
  pub unescape : Text → Option Text
