-- ===== src/Inbox/Termination.antt =====
-- The tries that the incoming activities have left, from one run of the queue to the next.
use mitra.Prelude.{
  any, find, refl, ap, ◌∙◌, ℕ, suc, ◌+◌, ◌^◌, ◌≤◌, ◌<◌, ◌≡◌, false, Option, some, List, [], ◌∷◌,
  any-false-All, length, All, All-both, All-weaken, ◌==◌, arith,
}
use mitra.Database.{ok, ◌>>=◌}
use mitra.Database.Triples.{Ensures, Ensures-bind, Ensures-weaken}
use mitra.Jobs.Types.{incoming_activity, BackgroundJob, JobQueue}
use mitra.Jobs.Queries.{job_id, get_job_batch}
use mitra.Jobs.Batch.{IsDistinct}
use mitra.Inbox.Queue.{
  IncomingActivityJobData, Handled, process_job, process_jobs, process_queued_incoming_activities,
  job_timeout,
}
use mitra.Inbox.Rows.{total_tries}
use mitra.Inbox.Batches.{IsQueued, get_job_batch-IsQueued, total-get_job_batch}
use mitra.Inbox.Success.{IsUnused, Succeeds, process_job-Succeeds}
use mitra.Inbox.Steps.{jobs_of, IsProcessed, process_job-IsProcessed}

module _ {J : Type 0} (from_value : J → Option (IncomingActivityJobData J))
    (to_value : IncomingActivityJobData J → J)
    (handle_activity : IncomingActivityJobData J → JobQueue J → Handled × JobQueue J)
    (bounded : (v : J) (d : IncomingActivityJobData J)
      → from_value v ≡ some d
      → d.failure_count < 2 ^ 32)
    (reads_back : (d : IncomingActivityJobData J)
      → d.failure_count < 2 ^ 32
      → from_value (to_value d) ≡ some d)
    (keeps : (d : IncomingActivityJobData J) (q : JobQueue J)
      → jobs_of (handle_activity d q).1 ≡ jobs_of q) where
  done :
      (id : ℕ) (j : BackgroundJob J) (q u : JobQueue J)
      → IsQueued q j
      → process_job from_value to_value handle_activity id j q ≡ (ok tt, u)
      → IsProcessed from_value to_value handle_activity bounded reads_back keeps j q u
  done id j q u h e = rw e at (
      process_job-IsProcessed from_value to_value handle_activity bounded reads_back keeps id j q h)

  left-IsQueued :
      (j : BackgroundJob J) (js : List (BackgroundJob J)) (q u : JobQueue J)
      → IsProcessed from_value to_value handle_activity bounded reads_back keeps j q u
      → All (IsQueued q) js
      → any (job_id j.id) js ≡ false
      → All (IsQueued u) js
  left-IsQueued j js q u p h d =
      All-weaken (λ i. ((i.id == j.id) ≡ false) × IsQueued q i) (IsQueued u)
        (λ i (apart, k). p.others i apart k) js
        (All-both (λ i. (i.id == j.id) ≡ false) (IsQueued q) js (any-false-All (job_id j.id) js d)
          h)

  process_jobs-terminates :
      (ids : ℕ → ℕ) (js : List (BackgroundJob J)) (q : JobQueue J)
      → All (IsQueued q) js
      → IsDistinct js
      → Ensures
          (λ _ u.
            total_tries from_value (jobs_of u) + length js ≤ total_tries from_value (jobs_of q))
          (process_jobs from_value to_value handle_activity ids js q)
  unfolding process_jobs
  process_jobs-terminates ids [] q h d = omega arith
  process_jobs-terminates ids (j ∷ js) q h d =
      Ensures-bind
        (λ _ u. IsProcessed from_value to_value handle_activity bounded reads_back keeps j q u)
        (λ _ u.
          total_tries from_value (jobs_of u) + length (j ∷ js) ≤ total_tries from_value (jobs_of q))
        (λ _. process_jobs from_value to_value handle_activity (λ n. ids (suc n)) js)
        (process_job from_value to_value handle_activity (ids 0) j) q
        (process_job-IsProcessed from_value to_value handle_activity bounded reads_back keeps
          (ids 0) j q h.0)
        (λ _ u p.
          Ensures-weaken
            (λ _ w.
              total_tries from_value (jobs_of w) + length js ≤ total_tries from_value (jobs_of u))
            (λ _ w.
              total_tries from_value (jobs_of w) + length (j ∷ js)
              ≤ total_tries from_value (jobs_of q))
            _ (λ _ w k. omega (arith, k, p.less))
            (process_jobs-terminates (λ n. ids (suc n)) js u (left-IsQueued j js q u p h.1 d.0)
              d.1))

  -- The data of a job can be read.
  pub record IsReadable (j : BackgroundJob J) : Type 0 where
    pub contents : IncomingActivityJobData J
    pub reads : from_value j.job_data ≡ some contents

  process_jobs-returns :
      (ids : ℕ → ℕ)
      → ((m n : ℕ) → m < n → (ids m == ids n) ≡ false)
      → ((n : ℕ) (d : IncomingActivityJobData J) (q : JobQueue J)
          → any (job_id (ids n)) q.background_job ≡ false
          → any (job_id (ids n)) (handle_activity d q).1.background_job ≡ false)
      → (js : List (BackgroundJob J)) (q : JobQueue J) → All (IsQueued q) js
      → IsDistinct js
      → All IsReadable js
      → IsUnused ids q
      → (u : JobQueue J) × (process_jobs from_value to_value handle_activity ids js q ≡ (ok tt, u))
  unfolding process_jobs ◌>>=◌
  process_jobs-returns ids apart unused [] q h d c f = (q, refl)
  process_jobs-returns ids apart unused (j ∷ js) q h d c f =
      let s : Succeeds (λ n. ids (suc n))
          (process_job from_value to_value handle_activity (ids 0) j q) =
        process_job-Succeeds from_value to_value handle_activity ids apart j c.0.contents q
          c.0.reads (record { found = ap (find (job_id j.id)) (keeps c.0.contents q) ∙ h.0.found })
          (record { unused = λ n. unused n c.0.contents q (f.unused n) }) in
      let p : IsProcessed from_value to_value handle_activity bounded reads_back keeps j q s.after =
        done (ids 0) j q s.after h.0 s.run in
      let (u, e) =
        process_jobs-returns (λ n. ids (suc n)) (λ m n l. apart (suc m) (suc n) (omega arith))
          (λ n. unused (suc n)) js s.after (left-IsQueued j js q s.after p h.1 d.0) d.1 c.1
          s.unused in
      (u, rw s.run e)

  -- If the counts of failures fit 32 bits and data that is written is read back, the handler of
  -- an activity leaves the queued activities as they are, the queue has no identifier twice, the
  -- data of each job of the batch can be read, and the identifiers for new jobs differ and are
  -- used neither by the queue nor by the handler, then a run of the queue succeeds, and each job
  -- uses up a try: the tries that are left and the jobs of the batch are together no more than
  -- the tries before.
  pub process_queued_incoming_activities-terminates :
      (ids : ℕ → ℕ) (n : ℕ) (q r : JobQueue J) (jobs : List (BackgroundJob J))
      → ((m n : ℕ) → m < n → (ids m == ids n) ≡ false)
      → ((n : ℕ) (d : IncomingActivityJobData J) (q : JobQueue J)
          → any (job_id (ids n)) q.background_job ≡ false
          → any (job_id (ids n)) (handle_activity d q).1.background_job ≡ false)
      → IsDistinct q.background_job
      → get_job_batch incoming_activity n job_timeout q ≡ (ok jobs, r)
      → All IsReadable jobs
      → IsUnused ids r
      → (q' : JobQueue J) × (process_queued_incoming_activities from_value to_value handle_activity
            ids n q
          ≡ (ok tt, q'))
        × (total_tries from_value (jobs_of q') + length jobs ≤ total_tries from_value (jobs_of q))
  unfolding process_queued_incoming_activities ◌>>=◌
  process_queued_incoming_activities-terminates ids n q r jobs apart unused d batch readable fresh =
      let (in_queue, distinct) = get_job_batch-IsQueued n job_timeout q r jobs d batch in
      let (q', run) =
        process_jobs-returns ids apart unused jobs r in_queue distinct readable fresh in
      let bound : Ensures
          (λ _ u.
            total_tries from_value (jobs_of u) + length jobs ≤ total_tries from_value (jobs_of r))
          (process_jobs from_value to_value handle_activity ids jobs r) =
        process_jobs-terminates ids jobs r in_queue distinct in
      (
        q',
        rw batch run,
        rw (← total-get_job_batch from_value n job_timeout q r jobs batch) (rw run at bound),
      )
