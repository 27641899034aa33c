-- ===== src/WebDav/Client/Sharing/Rounds.antt =====
-- A whole round of the loop of src/webdav/client.rs as the accesses of one task.
use fast_dav_rs.Base.{ℕ, ◌+◌, ◌≡◌, ◌≤◌, false, Option, none, ◌⊎◌}
use fast_dav_rs.WebDav.Headers.{HeaderApi}
use fast_dav_rs.Common.Compression.Codec.{ContentEncoding, CodecApi}
use fast_dav_rs.Common.Compression.Weights.{F32Api}
use fast_dav_rs.WebDav.Client.Http.{HttpApi}
use fast_dav_rs.WebDav.Client.{WebDavClient, refuses_compression}
use fast_dav_rs.WebDav.Client.Send.{Round, again, done}
use fast_dav_rs.Base.Result.{Result, ok, err}
use fast_dav_rs.WebDav.Client.Sharing.{Shared, Place, start, finished}
use fast_dav_rs.WebDav.Client.Sharing.Sequential.{Moves, Stands}

module _ (api : HeaderApi) (http : HttpApi api) (codec : CodecApi) (floats : F32Api)
    (client : WebDavClient api http) (i : ℕ) where
  -- The task has come from its place to where the round of the loop leaves it, with one request, or
  -- none if it could not be built: to its start if the loop sends again, which it does in its first
  -- round only, and else to its end, which the first round does not come to if the server refuses a
  -- compressed body.
  abbrev pub Arrives : ℕ → Option ContentEncoding → ℕ → Shared → Place → Round api http → Type 0
  Arrives attempt attempted before m p (again t) =
      (m' : Shared) × Moves i m p m' start × Stands api http i (before + 1) m' t × (attempt ≡ 0)
  Arrives attempt attempted before m p (done t (err e)) =
      (m' : Shared) × (sent : ℕ) × (sent ≤ 1)
      × Moves i m p m' finished
      × Stands api http i (before + sent) m' t
  Arrives attempt attempted before m p (done t (ok resp)) =
      (m' : Shared) × Moves i m p m' finished
      × Stands api http i (before + 1) m' t
      × ((1 ≤ attempt) ⊎ ((attempted ≡ none) ⊎ (refuses_compression resp.status ≡ false)))
