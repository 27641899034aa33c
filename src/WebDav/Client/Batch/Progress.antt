-- ===== src/WebDav/Client/Batch/Progress.antt =====
-- What a batch of src/webdav/client.rs can still do.
use fast_dav_rs.Base.{ℕ, zero, suc, ◌+◌, ◌≤◌, ◌≡◌, refl, subst, List, [], ◌∷◌, arith}
use fast_dav_rs.Base.Result.{Result}
use fast_dav_rs.Base.Text.{Text}
use fast_dav_rs.WebDav.Client.Batch.{
  permits_for, Task, pending, running, ready, Batch, Act, acquire, finish, behind, BatchStep, act,
  yield_next, BatchRun, rest, more, Running,
}
use fast_dav_rs.WebDav.Client.Batch.Limit.{
  running_count, work, Running-permits, BatchRun-permits, BatchStep-work,
}

module _ (R : Type 0) (Sent : Text → Result R → Type 0)
    (answers : (path : Text) → (result : Result R) × Sent path result) where
  -- A future of the queue can act.
  abbrev CanAct : ℕ → List (Task R Sent) → Type 0
  CanAct n ts = (m : ℕ) × (us : List (Task R Sent)) × Act R Sent n ts m us

  running-CanAct : (n : ℕ) (ts : List (Task R Sent)) → 1 ≤ running_count R Sent ts → CanAct n ts
  running-CanAct n [] h = absurd (omega (arith, h))
  running-CanAct n (running p ∷ ts) h = let a = answers p in (_, _, finish a.0 a.1)
  running-CanAct n (pending p ∷ ts) h = let a = running-CanAct n ts h in (_, _, behind a.2)
  running-CanAct n (ready i ∷ ts) h = let a = running-CanAct n ts h in (_, _, behind a.2)

  -- While the queue has futures, one can act or be yielded.
  abbrev CanStep : Batch R Sent → Type 0
  CanStep b = (c : Batch R Sent) × BatchStep R Sent b c

  CanAct-CanStep : (b : Batch R Sent) → CanAct b.permits b.tasks → CanStep b
  CanAct-CanStep b a = (_, act a.2)

  front-CanStep :
      (n : ℕ) (t : Task R Sent) (ts : List (Task R Sent)) (b : Batch R Sent)
      → b.permits ≡ n
      → b.tasks ≡ t ∷ ts
      → 1 ≤ n + running_count R Sent (t ∷ ts)
      → CanStep b
  front-CanStep n (ready i) ts b e f h = (_, yield_next i f)
  front-CanStep n (running p) ts b e f h =
      CanAct-CanStep b (running-CanAct b.permits b.tasks (rw f (omega arith)))
  front-CanStep zero (pending p) ts b e f h =
      CanAct-CanStep b (running-CanAct b.permits b.tasks (rw f (omega (arith, h))))
  front-CanStep (suc n) (pending p) ts b e f h = CanAct-CanStep b (rw (e, f) (_, _, acquire))

  abbrev Completes : Batch R Sent → Type 0
  Completes b = (c : Batch R Sent) × BatchRun R Sent b c × (c.tasks ≡ [])

  work_pos : (t : Task R Sent) (ts : List (Task R Sent)) → 1 ≤ work R Sent (t ∷ ts)
  work_pos (pending p) ts = omega arith
  work_pos (running p) ts = omega arith
  work_pos (ready i) ts = omega arith

  queue-Completes :
      (fuel : ℕ) (b : Batch R Sent) (ts : List (Task R Sent))
      → b.tasks ≡ ts
      → work R Sent b.tasks ≤ fuel
      → 1 ≤ b.permits + running_count R Sent b.tasks
      → Completes b
  queue-Completes fuel b [] e w h = (b, rest, e)
  queue-Completes zero b (t ∷ ts) e w h =
      absurd (omega (arith, subst (λ q. work R Sent q ≤ 0) e w, work_pos t ts))
  queue-Completes (suc fuel) b (t ∷ ts) e w h =
      let st =
        front-CanStep b.permits t ts b refl e
          (subst (λ q. 1 ≤ b.permits + running_count R Sent q) e h) in
      let c =
        queue-Completes fuel st.0 st.0.tasks refl (omega (arith, w, BatchStep-work R Sent st.1))
          (omega (arith, h, BatchRun-permits R Sent (more st.1 rest))) in
      (c.0, more st.1 c.1, c.2)

  -- A batch never gets stuck: whatever it has done, some steps lead to an empty queue, if each send
  -- returns.
  pub Running-Completes :
      (k : ℕ) (paths : List Text) {b : Batch R Sent} → Running R Sent k paths b → Completes b
  unfolding permits_for
  Running-Completes k paths {b = b} r =
      queue-Completes (work R Sent b.tasks) b b.tasks refl (omega arith)
        (ground (arith, Running-permits R Sent k paths r))
