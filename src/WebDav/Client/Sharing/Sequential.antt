-- ===== src/WebDav/Client/Sharing/Sequential.antt =====
-- The accesses of a task that nobody disturbs, and the functions of src/webdav/client.rs that prepare
-- a body.
use fast_dav_rs.Base.{
  ℕ, [], ◌+◌, ◌≡◌, refl, sym, ◌∙◌, subst, true, Option, none, some, Option-cases, inl, inr, arith,
}
use fast_dav_rs.Base.Result.{Result, ok, err}
use fast_dav_rs.WebDav.Headers.{HeaderApi}
use fast_dav_rs.Common.Compression.Codec.{ContentEncoding, identity, CodecApi}
use fast_dav_rs.Common.Compression.Weights.{F32Api}
use fast_dav_rs.WebDav.Client.Http.{HttpApi, Request}
use fast_dav_rs.WebDav.Client.{
  is_auto, WebDavClient, Session, negotiate, probe_request_compression_support, probe_request,
  probe_outcome, send_probe, probe_at, build_uri, request_within,
}
use fast_dav_rs.WebDav.Client.Negotiation.{count, request_within-count}
use fast_dav_rs.WebDav.Client.Sharing.{
  Shared, Place, start, preparing, resolving, Move, found, missing, acquire, missing_again, begin,
  unsent, probe, record_probe, release,
}

-- Accesses of one task with none of another in between.
pub data Moves (i : ℕ) : Shared → Place → Shared → Place → Type 0 where
  stay : {m : Shared} {p : Place} → Moves i m p m p
  step :
      {m m' m'' : Shared} {p p' p'' : Place}
      → Move i m p m' p'
      → Moves i m' p' m'' p''
      → Moves i m p m'' p''

module _ (api : HeaderApi) (http : HttpApi api) (i : ℕ) where
  -- The shared state stands for that of the session, and nobody has the guard. The probes are those
  -- of the session behind the given number.
  pub record Stands (before : ℕ) (m : Shared) (s : Session api http) : Type 0 where
    pub same : m.negotiated ≡ s.negotiated
    pub free : m.holder ≡ none
    pub sends : m.probes + before ≡ count api http s

  -- The task comes from its start to the resolution with the state of the session.
  abbrev pub Prepares : ℕ → Shared → Session api http → Type 0
  Prepares before m t = (m' : Shared) × Moves i m start m' resolving × Stands before m' t

  module _ (before : ℕ) (m : Shared) (s : Session api http) (st : Stands before m s) where
    -- Up to the point where the probe is built.
    to_preparing :
        {m'' : Shared}
        → m.negotiated ≡ none
        → Moves i (record m { holder = some i }) preparing m'' resolving
        → Moves i m start m'' resolving
    to_preparing n more =
        step (missing n) (step (acquire st.free) (step (missing_again n) (step (begin n) more)))

    found-Prepares : {e : ContentEncoding} → m.negotiated ≡ some e → Prepares before m s
    found-Prepares k = (m, step (found k) stay, st)

    unsent-Prepares :
        m.negotiated ≡ none → Prepares before m (record s { negotiated = some identity })
    unsent-Prepares n = (
      record m { negotiated = some identity; holder = none },
      to_preparing n (step unsent (step release stay)),
      record { same = refl; free = refl; sends = st.sends },
    )

    sent-Prepares :
        (e : ContentEncoding) (t : Session api http)
        → m.negotiated ≡ none
        → t.negotiated ≡ some e
        → count api http t ≡ count api http s + 1
        → Prepares before m t
    sent-Prepares e t n k c = (
      record m { negotiated = some e; holder = none; probes = m.probes + 1 },
      to_preparing n (step probe (step (record_probe e) (step release stay))),
      record { same = sym k; free = refl; sends = omega (arith, c, st.sends) },
    )

    module _ (codec : CodecApi) (floats : F32Api) (client : WebDavClient api http) where
      send_probe-Prepares :
          m.negotiated ≡ none
          → (req : Option (Request api http))
          → Prepares before m (send_probe api http codec floats s req)
      send_probe-Prepares n none = unsent-Prepares n
      send_probe-Prepares n (some req) =
          sent-Prepares (probe_outcome api http codec floats (request_within api http s 5 req).1) _
            n refl (request_within-count api http s 5 req)

      probe_at-Prepares :
          m.negotiated ≡ none
          → (uri : Result http.Uri)
          → Prepares before m (probe_at api http codec floats client s uri)
      probe_at-Prepares n (err e) = unsent-Prepares n
      probe_at-Prepares n (ok uri) =
          send_probe-Prepares n (probe_request api http codec floats client uri)

      module _ (automatic : is_auto client.request_compression_mode ≡ true) where
        negotiate-unknown :
            s.negotiated ≡ none
            → negotiate api http codec floats client s
              ≡ probe_at api http codec floats client s (build_uri api http client [])
        unfolding negotiate probe_request_compression_support
        negotiate-unknown n = ground (arith, n, automatic)

        negotiate-known :
            {e : ContentEncoding}
            → s.negotiated ≡ some e
            → negotiate api http codec floats client s ≡ s
        unfolding negotiate
        negotiate-known k = ground (arith, k, automatic)

        pub negotiate-Prepares : Prepares before m (negotiate api http codec floats client s)
        negotiate-Prepares = elim (Option-cases s.negotiated) [
          | inl n ↦
              subst (Prepares before m) (sym (negotiate-unknown n))
                (probe_at-Prepares (st.same ∙ n) (build_uri api http client []))
          | inr k ↦
              subst (Prepares before m) (sym (negotiate-known k.1)) (found-Prepares (st.same ∙ k.1))
        ]
