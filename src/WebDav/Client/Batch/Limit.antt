-- ===== src/WebDav/Client/Batch/Limit.antt =====
-- The bounds on what a batch of src/webdav/client.rs does.
use fast_dav_rs.Base.{
  ℕ, ◌+◌, ◌*◌, ◌≤◌, ◌≡◌, refl, List, [], ◌∷◌, map, length, ltb, if◌then◌else◌, arith,
}
use fast_dav_rs.Base.Result.{Result}
use fast_dav_rs.Base.Text.{Text}
use fast_dav_rs.WebDav.Client.Batch.{
  permits_for, Task, pending, running, ready, Batch, new_batch, Act, acquire, finish, behind,
  BatchStep, act, yield_next, BatchRun, rest, more, Running,
}

module _ (R : Type 0) (Sent : Text → Result R → Type 0) where
  -- The sends that are on their way.
  abbrev pub running_count : List (Task R Sent) → ℕ
  running_count [] = 0
  running_count (running path ∷ ts) = 1 + running_count ts
  running_count (_ ∷ ts) = running_count ts

  -- The steps that a queue still takes.
  abbrev pub work : List (Task R Sent) → ℕ
  work [] = 0
  work (pending path ∷ ts) = 3 + work ts
  work (running path ∷ ts) = 2 + work ts
  work (ready item ∷ ts) = 1 + work ts

  pub Act-permits :
      {n m : ℕ} {ts us : List (Task R Sent)}
      → Act R Sent n ts m us
      → n + running_count ts ≡ m + running_count us
  Act-permits acquire = omega arith
  Act-permits (finish result s) = omega arith
  Act-permits (behind {t = pending p} a) = Act-permits a
  Act-permits (behind {t = running p} a) = omega (arith, Act-permits a)
  Act-permits (behind {t = ready i} a) = Act-permits a

  pub Act-work :
      {n m : ℕ} {ts us : List (Task R Sent)} → Act R Sent n ts m us → work ts ≡ 1 + work us
  Act-work acquire = omega arith
  Act-work (finish result s) = omega arith
  Act-work (behind {t = pending p} a) = omega (arith, Act-work a)
  Act-work (behind {t = running p} a) = omega (arith, Act-work a)
  Act-work (behind {t = ready i} a) = omega (arith, Act-work a)

  BatchStep-permits :
      {b c : Batch R Sent}
      → BatchStep R Sent b c
      → b.permits + running_count b.tasks ≡ c.permits + running_count c.tasks
  BatchStep-permits (act a) = Act-permits a
  BatchStep-permits (yield_next item e) = rw e refl

  pub BatchStep-work : {b c : Batch R Sent} → BatchStep R Sent b c → work b.tasks ≡ 1 + work c.tasks
  BatchStep-work (act a) = Act-work a
  BatchStep-work (yield_next item e) = rw e refl

  pub BatchRun-permits :
      {b c : Batch R Sent}
      → BatchRun R Sent b c
      → b.permits + running_count b.tasks ≡ c.permits + running_count c.tasks
  BatchRun-permits rest = refl
  BatchRun-permits (more st r) = omega (arith, BatchStep-permits st, BatchRun-permits r)

  -- How many steps a run has.
  abbrev pub steps : {b c : Batch R Sent} → BatchRun R Sent b c → ℕ
  steps rest = 0
  steps (more st r) = 1 + steps r

  BatchRun-work :
      {b c : Batch R Sent} (r : BatchRun R Sent b c) → work b.tasks ≡ steps r + work c.tasks
  BatchRun-work rest = omega arith
  BatchRun-work (more st r) = omega (arith, BatchStep-work st, BatchRun-work r)

  pending-running_count : (paths : List Text) → running_count (map pending paths) ≡ 0
  pending-running_count [] = refl
  pending-running_count (p ∷ ps) = pending-running_count ps

  pending-work : (paths : List Text) → work (map pending paths) ≡ 3 * length paths
  pending-work [] = refl
  pending-work (p ∷ ps) = omega (arith, pending-work ps)

  module _ (k : ℕ) (paths : List Text) where
    pub Running-permits :
        {b : Batch R Sent}
        → Running R Sent k paths b
        → b.permits + running_count b.tasks ≡ permits_for k
    unfolding new_batch
    Running-permits r = omega (arith, BatchRun-permits r, pending-running_count paths)

    -- However the futures of a batch interleave, no more sends are on their way at a time than
    -- `max_concurrency`, or one if that is zero, and every run of the batch ends: it takes three
    -- steps for each path at most.
    pub Running-bounds :
        {b : Batch R Sent} (r : Running R Sent k paths b)
        → (running_count b.tasks ≤ (if ltb k 1 then 1 else k)) × (steps r ≤ 3 * length paths)
    unfolding permits_for new_batch
    Running-bounds r =
        (omega (arith, Running-permits r), omega (arith, BatchRun-work r, pending-work paths))
