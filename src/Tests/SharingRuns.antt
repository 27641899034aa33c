-- ===== src/Tests/SharingRuns.antt =====
-- Runs of the tasks that share a client of src/webdav/client.rs.
use fast_dav_rs.Base.{ℕ, ◌≡◌, ◌≤◌, ◌+◌, refl, some}
use fast_dav_rs.WebDav.Client.Sharing.{
  Shared, Place, guarded, Move, missing, acquire, missing_again, begin, probe, System, Steps, task,
  set_auto, Reach, created, later,
}
use fast_dav_rs.WebDav.Client.Sharing.Probes.{inside_unique, probes-le-resets}
use fast_dav_rs.WebDav.Client.Sharing.Progress.{waiting-guarded}

abbrev Run : Type 0
Run = (s : System) × Reach s

abbrev first : Run
first = (_, created)

abbrev move : (r : Run) (i : ℕ) {m : Shared} {p : Place} → Move i r.0.shared (r.0.place i) m p → Run
move r i mv = (_, later r.1 (task i mv))

-- Two tasks find no encoding, and then the first of them probes.
abbrev both_wait : Run
both_wait = move (move first 0 (missing refl)) 1 (missing refl)

abbrev contended : Run
contended =
    move (move (move (move both_wait 0 (acquire refl)) 0 (missing_again refl)) 0 (begin refl)) 0
      probe

-- Meanwhile a clone is set to the automatic mode.
abbrev contended_reset : Run
contended_reset = (_, later contended.1 set_auto)

contended_probes : contended_reset.0.shared.probes ≡ 1
contended_probes = refl

waiting-guarded_example :
    (t : System) × Steps contended.0 t × (t.place 1 ≡ guarded) × (t.shared.holder ≡ some 1)
waiting-guarded_example = waiting-guarded contended.1 1 refl

inside_unique_example : ◌≡◌ {A = ℕ} 0 0
inside_unique_example = inside_unique contended.1 0 0 refl refl

probes-le-resets_example :
    contended_reset.0.shared.probes
    ≤ 1 + contended_reset.0.shared.resets + contended_reset.0.shared.dropped
probes-le-resets_example = probes-le-resets contended_reset.1
