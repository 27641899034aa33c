-- ===== src/WebDav/Client/Sharing/Probes.antt =====
-- The lock of src/webdav/client.rs around the probes of all clones.
use fast_dav_rs.Base.{
  ℕ, ◌+◌, ◌≤◌, ◌≡◌, refl, Bool, true, false, Option, none, some, ==_iff, arith, if◌then◌else◌,
}
use fast_dav_rs.Base.Family.{update}
use fast_dav_rs.Common.Compression.Codec.{ContentEncoding}
use fast_dav_rs.WebDav.Client.Sharing.{
  Shared, Place, guarded, entering, preparing, probing, leaving, Move, found, acquire, found_again,
  begin, release, drop_preparing, drop_probing, System, Step, task, set_auto, set_fixed, Reach,
  created, later,
}

-- The task has the guard.
abbrev pub inside : Place → Bool
inside guarded = true
inside entering = true
inside preparing = true
inside probing = true
inside leaving = true
inside _ = false

-- The task has found that a probe is needed, and its answer is not recorded yet.
abbrev pub is_probing : Place → Bool
is_probing preparing = true
is_probing probing = true
is_probing _ = false

-- The probe is not sent yet.
abbrev pub is_preparing : Place → Bool
is_preparing preparing = true
is_preparing _ = false

abbrev of_holder : (Place → Bool) → Option ℕ → (ℕ → Place) → Bool
of_holder test none place = false
of_holder test (some i) place = test (place i)

-- Whether one probe more can start without a reset.
abbrev spare : Option ContentEncoding → Bool → ℕ
spare none false = 1
spare _ _ = 0

-- The probes that were sent, that are prepared and that can still start.
abbrev pub demand : Shared → (ℕ → Place) → ℕ
demand m place =
    m.probes
    + (if of_holder is_preparing m.holder place then 1 else 0)
    + spare m.negotiated (of_holder is_probing m.holder place)

pub record IsGuarded (s : System) : Type 0 where
  pub owner : (i : ℕ) → inside (s.place i) ≡ true → s.shared.holder ≡ some i
  pub owned : (i : ℕ) → s.shared.holder ≡ some i → inside (s.place i) ≡ true
  pub budget : demand s.shared s.place ≤ 1 + s.shared.resets + s.shared.dropped

module _ {m : Shared} {place : ℕ → Place} (inv : IsGuarded (record { shared = m; place = place }))
    (i : ℕ) where
  open inv use {owner, owned, budget}

  Move-owner :
      {p p' : Place} {m' : Shared}
      → Move i m p m' p'
      → place i ≡ p
      → (j : ℕ) → inside (update place i p' j) ≡ true
      → m'.holder ≡ some j
  Move-owner (acquire k) e j h = ground (arith, k, owner j, owner i, ==_iff i j)
  Move-owner release e j h = ground (arith, owner j, owner i, ==_iff i j)
  Move-owner (found_again k) e j h = ground (arith, owner j, owner i, ==_iff i j)
  Move-owner drop_preparing e j h = ground (arith, owner j, owner i, ==_iff i j)
  Move-owner drop_probing e j h = ground (arith, owner j, owner i, ==_iff i j)
  Move-owner mv e j h = ground (arith, owner j, owner i, ==_iff i j)

  Move-owned :
      {p p' : Place} {m' : Shared}
      → Move i m p m' p'
      → place i ≡ p
      → (j : ℕ) → m'.holder ≡ some j
      → inside (update place i p' j) ≡ true
  Move-owned (acquire k) e j h = ground (arith, k, owned j, owned i, ==_iff i j)
  Move-owned mv e j h = ground (arith, owned j, owned i, ==_iff i j)

  Move-budget :
      {p p' : Place} {m' : Shared}
      → Move i m p m' p'
      → place i ≡ p
      → demand m' (update place i p') ≤ 1 + m'.resets + m'.dropped
  Move-budget (acquire k) e = ground (arith, k, owner i, owned i, ==_iff i i)
  Move-budget (found k) e = ground (arith, k, owner i, owned i, ==_iff i i)
  Move-budget (begin k) e = ground (arith, k, owner i, owned i, ==_iff i i)
  Move-budget mv e = ground (arith, owner i, owned i, ==_iff i i)

Step-IsGuarded : {s t : System} → IsGuarded s → Step s t → IsGuarded t
Step-IsGuarded inv (task i mv) = record {
  owner = Move-owner inv i mv refl;
  owned = Move-owned inv i mv refl;
  budget = Move-budget inv i mv refl;
}
Step-IsGuarded inv set_auto = record {
  owner = inv.owner;
  owned = inv.owned;
  budget = ground (arith, inv.budget);
}
Step-IsGuarded inv (set_fixed e) = record {
  owner = inv.owner;
  owned = inv.owned;
  budget = ground (arith, inv.budget);
}

pub Reach-IsGuarded : {s : System} → Reach s → IsGuarded s
Reach-IsGuarded created = record {
  owner = λ i h. ground arith;
  owned = λ i h. ground arith;
  budget = omega arith;
}
Reach-IsGuarded (later r st) = Step-IsGuarded (Reach-IsGuarded r) st

-- Of all the tasks that share a client, in any order of their accesses, at most one holds the guard
-- of the probe.
pub inside_unique :
    {s : System}
    → Reach s
    → (i j : ℕ) → inside (s.place i) ≡ true
    → inside (s.place j) ≡ true
    → i ≡ j
inside_unique r i j p q =
    let inv = Reach-IsGuarded r in ground (arith, inv.owner i p, inv.owner j q)

-- The clients that share a negotiation send at most one probe, and one more for each time that one
-- of them was set to the automatic mode and for each probe whose task was dropped.
pub probes-le-resets :
    {s : System} → Reach s → s.shared.probes ≤ 1 + s.shared.resets + s.shared.dropped
probes-le-resets r = omega (arith, (Reach-IsGuarded r).budget)
