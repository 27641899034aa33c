-- ===== src/Tests/BatchRuns.antt =====
-- Runs of `propfind_many` of src/webdav/client.rs.
use fast_dav_rs.Base.{ℕ, ◌*◌, ◌≤◌, ◌≡◌, refl, List, [], ◌∷◌, length, ltb, if◌then◌else◌, none}
use fast_dav_rs.Base.Result.{Result, ok}
use fast_dav_rs.Base.Text.{Text, codes}
use fast_dav_rs.Common.Compression.Codec.{marking_codec}
use fast_dav_rs.Common.Compression.Weights.{whole_weights}
use fast_dav_rs.WebDav.Types.{one}
use fast_dav_rs.WebDav.Headers.{entries_api}
use fast_dav_rs.WebDav.Client.{Session, WebDavClient, auto}
use fast_dav_rs.WebDav.Client.Http.{text_http, Response}
use fast_dav_rs.WebDav.Client.Batch.{
  permits_for, Batch, new_batch, acquire, finish, behind, act, rest, more, Running,
}
use fast_dav_rs.WebDav.Client.Batch.Limit.{running_count, steps, Running-bounds}
use fast_dav_rs.WebDav.Client.Batch.Requests.{Sends, many, IsReturned, Runs, many-IsReturned}

-- A server that answers every path with its number of characters.
abbrev Counted : Text → Result ℕ → Type 0
Counted path result = result ≡ ok (length path)

abbrev paths : List Text
paths = codes "a" ∷ codes "bc" ∷ codes "d" ∷ []

-- With two permits the second path is answered first, and the third one is sent.
abbrev run : (b : Batch ℕ Counted) × Running ℕ Counted 2 paths b
unfolding new_batch permits_for
run = (
  _,
  more (act acquire) (
      more (act (behind acquire))
        (more (act (behind (finish (ok 2) refl))) (more (act (behind (behind acquire))) rest))),
)

Running-bounds_example :
    (running_count ℕ Counted run.0.tasks ≤ (if ltb 2 1 then 1 else 2))
    × (steps ℕ Counted run.1 ≤ 3 * length paths)
Running-bounds_example = Running-bounds ℕ Counted 2 paths run.1

abbrev client : WebDavClient entries_api text_http
client = record {
  base = codes "/dav/";
  auth_header = none;
  default_timeout = 20;
  request_compression_mode = auto;
}

abbrev offline : Session entries_api text_http
offline = record { negotiated = none; sent = []; answers = [] }

-- The batches of `propfind_many` on this client.
abbrev Queries : Type 0
Queries = Batch (Response entries_api) (
    Sends entries_api text_http marking_codec whole_weights client (codes "PROPFIND") one
      (codes "<q/>"))

abbrev Leads : Queries → Queries → Type 0
Leads =
    Runs entries_api text_http marking_codec whole_weights client (codes "PROPFIND") one
      (codes "<q/>")

abbrev queried : Queries
queried =
    many entries_api text_http marking_codec whole_weights client (codes "PROPFIND") paths one
      (codes "<q/>") 0

-- The limit is zero, and the first future has its permit all the same.
abbrev started : (b : Queries) × Leads queried b
unfolding many new_batch permits_for
started = (_, more (act acquire) rest)

many-IsReturned_example :
    (c : Queries) × Leads started.0 c
    × IsReturned entries_api text_http marking_codec whole_weights client
        (codes "PROPFIND")
        one
        (codes "<q/>")
        paths
        c
many-IsReturned_example =
    many-IsReturned entries_api text_http marking_codec whole_weights client (codes "PROPFIND") one
      (codes "<q/>") 0 paths offline started.1
