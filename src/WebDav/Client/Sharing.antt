-- ===== src/WebDav/Client/Sharing.antt =====
-- Clones of the client of src/webdav/client.rs that send at the same time: what `prepare_request_body`
-- and the end of a round do to the state that the clones share, one access at a time.
pub mod Probes
pub mod Progress
pub mod Sequential
pub mod Preparing
pub mod Rounds
use fast_dav_rs.Base.{ℕ, ◌+◌, ◌≡◌, Bool, true, false, Option, none, some, unwrap_or}
use fast_dav_rs.Base.Family.{update}
use fast_dav_rs.Common.Compression.Codec.{ContentEncoding, identity}
use fast_dav_rs.Common.Compression.{is_identity}
use fast_dav_rs.WebDav.Client.{auto_default_encoding, refuses_compression}

-- `negotiated_request_compression`, and who holds `request_compression_probe`. The other three count
-- the probes that were sent, the times that a clone was set to the automatic mode, and the probes
-- whose task was dropped before they were answered.
pub record Shared : Type 0 where
  pub negotiated : Option ContentEncoding
  pub holder : Option ℕ
  pub probes : ℕ
  pub resets : ℕ
  pub dropped : ℕ

-- Where a task in the automatic mode stands.
pub data Place : Type 0 where
  start : Place  -- before the first read
  waiting : Place  -- at `lock().await`
  guarded : Place  -- with the guard, before the second read
  entering : Place  -- at the start of `probe_request_compression_support`, with the guard
  preparing : Place  -- the probe is built and compressed, with the guard
  probing : Place  -- the probe is on its way, with the guard
  leaving : Place  -- before the guard is dropped
  resolving : Place  -- before `resolve_request_encoding`
  sending : (encoding : ContentEncoding) → Place  -- the request is on its way
  finished : Place

-- One access of the task with the given number.
pub data Move (i : ℕ) (m : Shared) : Place → Shared → Place → Type 0 where
  found : {e : ContentEncoding} → m.negotiated ≡ some e → Move i m start m resolving
  missing : m.negotiated ≡ none → Move i m start m waiting
  acquire : m.holder ≡ none → Move i m waiting (record m { holder = some i }) guarded
  found_again : {e : ContentEncoding} → m.negotiated ≡ some e → Move i m guarded m leaving
  missing_again : m.negotiated ≡ none → Move i m guarded m entering
  found_late : {e : ContentEncoding} → m.negotiated ≡ some e → Move i m entering m leaving
  begin : m.negotiated ≡ none → Move i m entering m preparing
  -- A probe that cannot be built is recorded as a refusal.
  unsent : Move i m preparing (record m { negotiated = some identity }) leaving
  probe : Move i m preparing (record m { probes = m.probes + 1 }) probing
  -- The answer to the probe, whatever it is, is recorded as an encoding.
  record_probe : (e : ContentEncoding) → Move i m probing (record m { negotiated = some e }) leaving
  release : Move i m leaving (record m { holder = none }) resolving
  resolve : Move i m resolving m (sending (unwrap_or m.negotiated auto_default_encoding))
  -- `handle_request_compression_outcome`: without a compressed body nothing is recorded. Whether a
  -- refusal is the first one of the call, after which it sends again, is left open.
  plain : {e : ContentEncoding} → Move i m (sending e) m finished
  refused :
      {e : ContentEncoding} (status : ℕ)
      → is_identity e ≡ false
      → refuses_compression status ≡ true
      → Move i m (sending e) (record m { negotiated = some identity }) start
  refused_again :
      {e : ContentEncoding} (status : ℕ)
      → is_identity e ≡ false
      → refuses_compression status ≡ true
      → Move i m (sending e) (record m { negotiated = some identity }) finished
  accepted :
      {e : ContentEncoding} (status : ℕ)
      → is_identity e ≡ false
      → refuses_compression status ≡ false
      → Move i m (sending e) (record m { negotiated = some e }) finished
  -- A task whose transport fails records nothing.
  failed : {e : ContentEncoding} → Move i m (sending e) m finished
  -- The future is dropped at an `await`; a guard that it holds is dropped with it.
  drop_waiting : Move i m waiting m finished
  drop_preparing : Move i m preparing (record m { holder = none }) finished
  drop_probing : Move i m probing (record m { holder = none; dropped = m.dropped + 1 }) finished
  -- Any task may send again.
  next_call : Move i m finished m start

-- Any number of tasks; those that never move stay at the start.
pub record System : Type 0 where
  pub shared : Shared
  pub place : ℕ → Place

pub data Step (s : System) : System → Type 0 where
  task :
      (i : ℕ) {m : Shared} {p : Place}
      → Move i s.shared (s.place i) m p
      → Step s (record { shared = m; place = update s.place i p })
  -- `set_request_compression_mode` of a clone
  set_auto :
      Step s
        (record s { shared = record s.shared { negotiated = none; resets = s.shared.resets + 1 } })
  set_fixed :
      (e : ContentEncoding) → Step s (record s { shared = record s.shared { negotiated = some e } })

abbrev pub new_shared : Shared
new_shared = record { negotiated = none; holder = none; probes = 0; resets = 0; dropped = 0 }

pub data Reach : System → Type 0 where
  created : Reach (record { shared = new_shared; place = λ i. start })
  later : {s t : System} → Reach s → Step s t → Reach t

pub data Steps : System → System → Type 0 where
  here : {s : System} → Steps s s
  next : {s t u : System} → Step s t → Steps t u → Steps s u
