-- ===== src/WebDav/Client/Batch/Requests.antt =====
-- The requests of `propfind_many` and `report_many` of src/webdav/client.rs.
use fast_dav_rs.Base.{
  ℕ, ◌≡◌, refl, true, List, [], map, Option, none, some, is_some, all, All, arith,
}
use fast_dav_rs.Base.Result.{Result}
use fast_dav_rs.Base.Text.{Text, Bytes, codes}
use fast_dav_rs.WebDav.Headers.{HeaderApi, is_visible}
use fast_dav_rs.WebDav.Types.{Depth, zero, one, infinity, depth_as_str}
use fast_dav_rs.Common.Compression.Codec.{CodecApi}
use fast_dav_rs.Common.Compression.Weights.{F32Api}
use fast_dav_rs.WebDav.Client.Http.{HttpApi, Response}
use fast_dav_rs.WebDav.Client.{WebDavClient, Session}
use fast_dav_rs.WebDav.Client.Retry.{send-IsBounded}
use fast_dav_rs.WebDav.Client.Verbs.{Outcome, send_with, with_xml_type}
use fast_dav_rs.WebDav.Client.Batch.{Batch, new_batch, BatchRun, BatchRun-append}
use fast_dav_rs.WebDav.Client.Batch.Completion.{Running-out}
use fast_dav_rs.WebDav.Client.Batch.Progress.{Running-Completes}

module _ (api : HeaderApi) (http : HttpApi api) (codec : CodecApi) (floats : F32Api)
    (client : WebDavClient api http) where
  open api use {no_headers, insert, from_str, from_str-visible}

  -- What a future of a batch does with its permit. It panics, and so returns nothing, where the
  -- depth is no header value.
  unfoldable pub item_send :
      Text → Depth → Bytes → Session api http → Text → Outcome api http codec floats client
  item_send method depth xml_body s path = elim (from_str (depth_as_str depth)) [
    | none ↦ (s, none)
    | some v ↦
        send_with api http codec floats client s method path
          (with_xml_type api http codec floats client (insert no_headers (codes "depth") v))
          (some xml_body)
  ]

  -- Some session, as the other futures leave it, gets the result.
  abbrev pub Sends : Text → Depth → Bytes → Text → Result (Response api) → Type 0
  Sends method depth xml_body path result =
      (s : Session api http) × ((item_send method depth xml_body s path).1 ≡ some result)

  abbrev pub Many : Text → Depth → Bytes → Type 0
  Many method depth xml_body = Batch (Response api) (Sends method depth xml_body)

  -- `propfind_many` and `report_many`, which differ in their method only
  unfoldable pub many :
      (method : Text)
      → List Text
      → (depth : Depth) (xml_body : Bytes) → ℕ
      → Many method depth xml_body
  many method paths depth xml_body max_concurrency =
      new_batch (Response api) (Sends method depth xml_body) max_concurrency paths

  abbrev pub propfind_many :
      List Text → (depth : Depth) (xml_body : Bytes) → ℕ → Many (codes "PROPFIND") depth xml_body
  propfind_many = many (codes "PROPFIND")

  abbrev pub report_many :
      List Text → (depth : Depth) (xml_body : Bytes) → ℕ → Many (codes "REPORT") depth xml_body
  report_many = many (codes "REPORT")

  module _ (method : Text) (depth : Depth) (xml_body : Bytes) where
    depth-IsVisible : (d : Depth) → all is_visible (depth_as_str d) ≡ true
    unfolding depth_as_str
    depth-IsVisible zero = refl
    depth-IsVisible one = refl
    depth-IsVisible infinity = refl

    item_send-is_some :
        (s : Session api http) (path : Text)
        → is_some (item_send method depth xml_body s path).1 ≡ true
    unfolding item_send
    item_send-is_some s path =
        rw (from_str-visible (depth_as_str depth) (depth-IsVisible depth), is_some)
          (send-IsBounded api http codec floats client s path _).0

    existing {ℓ} : {A : Type ℓ} (o : Option A) → is_some o ≡ true → (a : A) × (o ≡ some a)
    existing none h = absurd (ground arith)
    existing (some a) h = (a, refl)

    answers :
        Session api http
        → (path : Text) → (result : Result (Response api)) × Sends method depth xml_body path result
    answers s path =
        let r = existing (item_send method depth xml_body s path).1 (item_send-is_some s path) in
        (r.0, (s, r.1))

    abbrev pub Runs : Many method depth xml_body → Many method depth xml_body → Type 0
    Runs = BatchRun (Response api) (Sends method depth xml_body)

    -- The batch returned, with one item for each path.
    pub record IsReturned (paths : List Text) (b : Many method depth xml_body) : Type 0 where
      pub empty : b.tasks ≡ []
      pub in_order : map (λ i. i.pub_path) b.out ≡ paths
      pub own : All (λ i. Sends method depth xml_body i.pub_path i.result) b.out

    -- Whatever the futures of a batch have done so far, some further steps end it, and where it ends
    -- it holds one item for each path, in the order of the paths, with a result of a request to that
    -- path.
    pub many-IsReturned :
        (k : ℕ) (paths : List Text) (s : Session api http) {b : Many method depth xml_body}
        → Runs (many method paths depth xml_body k) b
        → (c : Many method depth xml_body) × Runs b c × IsReturned paths c
    unfolding many
    many-IsReturned k paths s r =
        let end =
          Running-Completes (Response api) (Sends method depth xml_body) (answers s) k paths r in
        let out =
          Running-out (Response api) (Sends method depth xml_body) k paths
            (BatchRun-append (Response api) (Sends method depth xml_body) r end.1) end.2 in
        (end.0, end.1, record { empty = end.2; in_order = out.0; own = out.1 })
