-- ===== src/WebDav/Client/Batch.antt =====
-- `propfind_many` and `report_many` of src/webdav/client.rs: what the semaphore and the ordered
-- queue of futures let happen, one step at a time.
pub mod Limit
pub mod Completion
pub mod Progress
pub mod Requests
use fast_dav_rs.Base.{ℕ, suc, ◌≡◌, List, [], ◌∷◌, ◌++◌, map, ltb, if◌then◌else◌}
use fast_dav_rs.Base.Result.{Result}
use fast_dav_rs.Base.Text.{Text}
use fast_dav_rs.WebDav.Types.{BatchItem}

-- `max_concurrency.max(1)`
unfoldable pub permits_for : ℕ → ℕ
permits_for max_concurrency = if ltb max_concurrency 1 then 1 else max_concurrency

-- `Sent path result` says that a send to the path can return the result.
module _ (R : Type 0) (Sent : Text → Result R → Type 0) where
  -- A future of the queue: it waits for its permit, sends with the permit, or has returned.
  pub data Task : Type 0 where
    pending running : (path : Text) → Task
    ready : BatchItem R → Task

  -- The permits that are left, the futures in the queue, and the items that were taken from it.
  pub record Batch : Type 0 where
    pub permits : ℕ
    pub tasks : List Task
    pub out : List (BatchItem R)

  unfoldable pub new_batch : ℕ → List Text → Batch
  unfolding permits_for
  new_batch max_concurrency paths = record {
    permits = permits_for max_concurrency;
    tasks = map pending paths;
    out = [];
  }

  -- What one future does, to the permits and to the queue. The permit is given back where the
  -- future returns.
  pub data Act : ℕ → List Task → ℕ → List Task → Type 0 where
    acquire :
        {n : ℕ} {path : Text} {ts : List Task}
        → Act (suc n) (pending path ∷ ts) n (running path ∷ ts)
    finish :
        {n : ℕ} {path : Text} {ts : List Task} (result : Result R)
        → Sent path result
        → Act n
            (running path ∷ ts)
            (suc n)
            (ready (record { pub_path = path; result = result }) ∷ ts)
    behind : {n m : ℕ} {t : Task} {ts us : List Task} → Act n ts m us → Act n (t ∷ ts) m (t ∷ us)

  -- A future of the queue acts, or `next` yields the first one, once it has returned.
  pub data BatchStep (b : Batch) : Batch → Type 0 where
    act :
        {m : ℕ} {us : List Task}
        → Act b.permits b.tasks m us
        → BatchStep b (record b { permits = m; tasks = us })
    yield_next :
        (item : BatchItem R) {ts : List Task}
        → b.tasks ≡ ready item ∷ ts
        → BatchStep b (record b { tasks = ts; out = b.out ++ item ∷ [] })

  pub data BatchRun : Batch → Batch → Type 0 where
    rest : {b : Batch} → BatchRun b b
    more : {b c d : Batch} → BatchStep b c → BatchRun c d → BatchRun b d

  -- A run of a batch from its start.
  abbrev pub Running : ℕ → List Text → Batch → Type 0
  Running max_concurrency paths b = BatchRun (new_batch max_concurrency paths) b

  pub BatchRun-append : {b c d : Batch} → BatchRun b c → BatchRun c d → BatchRun b d
  BatchRun-append rest q = q
  BatchRun-append (more st r) q = more st (BatchRun-append r q)
