-- ===== src/WebDav/Client/Batch/Completion.antt =====
-- What a batch of src/webdav/client.rs returns.
use fast_dav_rs.Base.{ℕ, ◌≡◌, refl, sym, ap, subst, ◌∙◌, List, [], ◌∷◌, ◌++◌, map, All, All-append}
use fast_dav_rs.Base.Result.{Result}
use fast_dav_rs.Base.Text.{Text}
use fast_dav_rs.WebDav.Types.{BatchItem}
use fast_dav_rs.WebDav.Client.Batch.{
  Task, pending, running, ready, Batch, new_batch, Act, acquire, finish, behind, BatchStep, act,
  yield_next, BatchRun, rest, more, Running,
}

module _ (R : Type 0) (Sent : Text → Result R → Type 0) where
  abbrev task_path : Task R Sent → Text
  task_path (pending p) = p
  task_path (running p) = p
  task_path (ready item) = item.pub_path

  -- The paths of a batch, those of the items that were yielded first.
  abbrev batch_paths : Batch R Sent → List Text
  batch_paths b = map (λ i. i.pub_path) b.out ++ map task_path b.tasks

  -- The result of an item belongs to its path.
  abbrev pub IsSent : BatchItem R → Type 0
  IsSent item = Sent item.pub_path item.result

  abbrev IsSentTask : Task R Sent → Type 0
  IsSentTask (ready item) = IsSent item
  IsSentTask _ = Unit {0}

  Act-paths :
      {n m : ℕ} {ts us : List (Task R Sent)}
      → Act R Sent n ts m us
      → map task_path ts ≡ map task_path us
  Act-paths acquire = refl
  Act-paths (finish result s) = refl
  Act-paths (behind {t = t} a) = ap (λ ps. task_path t ∷ ps) (Act-paths a)

  Act-IsSent :
      {n m : ℕ} {ts us : List (Task R Sent)}
      → Act R Sent n ts m us
      → All IsSentTask ts
      → All IsSentTask us
  Act-IsSent acquire h = (tt, h.1)
  Act-IsSent (finish result s) h = (s, h.1)
  Act-IsSent (behind a) h = (h.0, Act-IsSent a h.1)

  out_paths :
      (out : List (BatchItem R)) (item : BatchItem R) (ts : List (Task R Sent))
      → map (λ i. i.pub_path) out ++ map task_path (ready item ∷ ts)
        ≡ map (λ i. i.pub_path) (out ++ item ∷ []) ++ map task_path ts
  out_paths [] item ts = refl
  out_paths (o ∷ os) item ts = ap (λ ps. o.pub_path ∷ ps) (out_paths os item ts)

  BatchStep-paths : {b c : Batch R Sent} → BatchStep R Sent b c → batch_paths b ≡ batch_paths c
  BatchStep-paths {b = b} (act a) = ap (λ ps. map (λ i. i.pub_path) b.out ++ ps) (Act-paths a)
  BatchStep-paths {b = b} (yield_next item {ts = ts} e) =
      ap (λ q. map (λ i. i.pub_path) b.out ++ map task_path q) e ∙ out_paths b.out item ts

  abbrev AllSent : Batch R Sent → Type 0
  AllSent b = All IsSent b.out × All IsSentTask b.tasks

  BatchStep-IsSent : {b c : Batch R Sent} → BatchStep R Sent b c → AllSent b → AllSent c
  BatchStep-IsSent (act a) h = (h.0, Act-IsSent a h.1)
  BatchStep-IsSent {b = b} (yield_next item e) h =
      let hs = subst (All IsSentTask) e h.1 in
      (All-append IsSent b.out (item ∷ []) h.0 (hs.0, tt), hs.1)

  BatchRun-paths : {b c : Batch R Sent} → BatchRun R Sent b c → batch_paths b ≡ batch_paths c
  BatchRun-paths rest = refl
  BatchRun-paths (more st r) = BatchStep-paths st ∙ BatchRun-paths r

  BatchRun-IsSent : {b c : Batch R Sent} → BatchRun R Sent b c → AllSent b → AllSent c
  BatchRun-IsSent rest h = h
  BatchRun-IsSent (more st r) h = BatchRun-IsSent r (BatchStep-IsSent st h)

  pending-paths : (paths : List Text) → map task_path (map pending paths) ≡ paths
  pending-paths [] = refl
  pending-paths (p ∷ ps) = ap (λ qs. p ∷ qs) (pending-paths ps)

  pending-IsSent : (paths : List Text) → All IsSentTask (map pending paths)
  pending-IsSent [] = tt
  pending-IsSent (p ∷ ps) = (tt, pending-IsSent ps)

  no_tasks :
      (out : List (BatchItem R)) → map (λ i. i.pub_path) out ++ [] ≡ map (λ i. i.pub_path) out
  no_tasks [] = refl
  no_tasks (o ∷ os) = ap (λ ps. o.pub_path ∷ ps) (no_tasks os)

  -- When the queue of a batch is empty, in whatever order its futures ran, there is one item for
  -- each path, in the order of the paths, and the result of each item is one of a send to its path.
  pub Running-out :
      (k : ℕ) (paths : List Text) {b : Batch R Sent}
      → Running R Sent k paths b
      → b.tasks ≡ []
      → (map (λ i. i.pub_path) b.out ≡ paths) × All IsSent b.out
  unfolding new_batch
  Running-out k paths {b = b} r e = (
    sym (no_tasks b.out)
        ∙ ap (λ q. map (λ i. i.pub_path) b.out ++ map task_path q) (sym e)
        ∙ sym (BatchRun-paths r)
        ∙ pending-paths paths,
    (BatchRun-IsSent r (tt, pending-IsSent paths)).0,
  )
