-- ===== src/WebDav/Client/Sharing/Progress.antt =====
-- Tasks that wait for the guard of the probe of src/webdav/client.rs.
use fast_dav_rs.Base.{
  ℕ, ◌≡◌, refl, sym, subst, true, none, some, Option-cases, inl, inr, ==_iff, arith,
}
use fast_dav_rs.Base.Family.{update}
use fast_dav_rs.Common.Compression.Codec.{identity}
use fast_dav_rs.WebDav.Client.Sharing.{
  Shared, Place, start, waiting, guarded, entering, preparing, probing, leaving, resolving, sending,
  finished, Move, acquire, found_again, missing_again, found_late, begin, probe, record_probe,
  release, System, Step, task, Steps, here, next, Reach,
}
use fast_dav_rs.WebDav.Client.Sharing.Probes.{inside, Reach-IsGuarded}

-- The guard can become free while the task `i` still waits.
record CanFree (i : ℕ) (s : System) : Type 0 where
  pub after : System
  pub steps : Steps s after
  pub free : after.shared.holder ≡ none
  pub waits : after.place i ≡ waiting

CanFree-Step : {i : ℕ} {s t : System} → Step s t → CanFree i t → CanFree i s
CanFree-Step st c = record {
  after = c.after;
  steps = next st c.steps;
  free = c.free;
  waits = c.waits;
}

moved : (j : ℕ) → System → Shared → Place → System
moved j s m p = record { shared = m; place = update s.place j p }

module _ (i j : ℕ) where
  -- A task with the guard moves, and then the guard can become free.
  pass :
      (s : System) {p p' : Place} {m : Shared}
      → s.place i ≡ waiting
      → s.place j ≡ p
      → inside p ≡ true
      → Move j s.shared p m p'
      → ((moved j s m p').place i ≡ waiting
          → (moved j s m p').place j ≡ p'
          → CanFree i (moved j s m p'))
      → CanFree i s
  unfolding moved
  pass s {p = p} {p' = p'} {m = m} w e h mv k =
      CanFree-Step (task j (subst (λ q. Move j s.shared q m p') (sym e) mv))
        (k (ground (arith, ==_iff j i)) (ground (arith, ==_iff j j)))

  from_resolving : (s : System) → s.place i ≡ waiting → s.shared.holder ≡ none → CanFree i s
  from_resolving s w h = record { after = s; steps = here; free = h; waits = w }

  from_leaving : (s : System) → s.place i ≡ waiting → s.place j ≡ leaving → CanFree i s
  unfolding moved
  from_leaving s w e = pass s w e refl release (λ w' e'. from_resolving _ w' refl)

  from_probing : (s : System) → s.place i ≡ waiting → s.place j ≡ probing → CanFree i s
  from_probing s w e = pass s w e refl (record_probe identity) (from_leaving _)

  from_preparing : (s : System) → s.place i ≡ waiting → s.place j ≡ preparing → CanFree i s
  from_preparing s w e = pass s w e refl probe (from_probing _)

  from_entering : (s : System) → s.place i ≡ waiting → s.place j ≡ entering → CanFree i s
  from_entering s w e = elim (Option-cases s.shared.negotiated) [
    | inl n ↦ pass s w e refl (begin n) (from_preparing _)
    | inr k ↦ pass s w e refl (found_late k.1) (from_leaving _)
  ]

  from_guarded : (s : System) → s.place i ≡ waiting → s.place j ≡ guarded → CanFree i s
  from_guarded s w e = elim (Option-cases s.shared.negotiated) [
    | inl n ↦ pass s w e refl (missing_again n) (from_entering _)
    | inr k ↦ pass s w e refl (found_again k.1) (from_leaving _)
  ]

  from_inside :
      (s : System)
      → s.place i ≡ waiting
      → (p : Place) → s.place j ≡ p
      → inside p ≡ true
      → CanFree i s
  from_inside s w guarded e h = from_guarded s w e
  from_inside s w entering e h = from_entering s w e
  from_inside s w preparing e h = from_preparing s w e
  from_inside s w probing e h = from_probing s w e
  from_inside s w leaving e h = from_leaving s w e
  from_inside s w start e h = absurd (ground arith)
  from_inside s w waiting e h = absurd (ground arith)
  from_inside s w resolving e h = absurd (ground arith)
  from_inside s w (sending c) e h = absurd (ground arith)
  from_inside s w finished e h = absurd (ground arith)

Steps-last : {s t u : System} → Steps s t → Step t u → Steps s u
Steps-last here st = next st here
Steps-last (next x r) st = next x (Steps-last r st)

-- Once the guard is free, the task that waits takes it.
CanFree-guarded :
    {i : ℕ} {s : System}
    → CanFree i s
    → (t : System) × Steps s t × (t.place i ≡ guarded) × (t.shared.holder ≡ some i)
unfolding moved
CanFree-guarded {i = i} c =
    let m = record c.after.shared { holder = some i } in
    let mv = subst (λ q. Move i c.after.shared q m guarded) (sym c.waits) (acquire c.free) in
    (moved i c.after m guarded, Steps-last c.steps (task i mv), ground (arith, ==_iff i i), refl)

-- Whatever the tasks that share a client have done, a task that waits for the guard of the probe
-- can still get it: some accesses lead from there to a state in which it has the guard.
pub waiting-guarded :
    {s : System}
    → Reach s
    → (i : ℕ) → s.place i ≡ waiting
    → (t : System) × Steps s t × (t.place i ≡ guarded) × (t.shared.holder ≡ some i)
waiting-guarded {s = s} r i w = elim (Option-cases s.shared.holder) [
  | inl n ↦ CanFree-guarded (from_resolving i i s w n)
  | inr k ↦ CanFree-guarded (from_inside i k.0 s w _ refl ((Reach-IsGuarded r).owned k.0 k.1))
]
