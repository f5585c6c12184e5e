-- ===== src/Jobs/Queries.antt =====
-- mitra_models/src/background_jobs/queries.rs
use mitra.Prelude.{
  ℕ, ◌+◌, ◌*◌, Bool, not, ◌&&◌, ◌||◌, List, [], ◌∷◌, ◌++◌, any, map, select, remove, modify, tally,
  sort, take, ltb, leb, ◌==◌, if◌then◌else◌,
}
use mitra.Database.{Query, ok, err, client_error, not_found}
use mitra.Jobs.Types.{JobType, job_type_eq, queued, running, is_queued, BackgroundJob, JobQueue}

module _ {D : Type 0} where
  abbrev pub job_id : ℕ → BackgroundJob D → Bool
  job_id id j = j.id == id

  -- The identifier is the one that `Uuid::new_v4` returns.
  unfoldable pub enqueue_job : ℕ → JobType → D → ℕ → Query (JobQueue D) ℕ
  enqueue_job id type data_of_job scheduled_for q =
      if any (job_id id) q.background_job then (err client_error, q) else (
        ok id,
        record q {
          background_job =
              q.background_job
              ++ record {
                id = id;
                job_type = type;
                job_data = data_of_job;
                job_status = queued;
                scheduled_for = scheduled_for;
                updated_at = q.clock;
              }
                ∷ [];
        },
      )

  -- The WHERE clause: jobs that are due, and queued or stale. `timeout` is in seconds.
  abbrev pub is_stale : ℕ → ℕ → BackgroundJob D → Bool
  is_stale timeout now j = ltb (j.updated_at + timeout * 1_000_000) now

  unfoldable pub is_eligible : JobType → ℕ → ℕ → BackgroundJob D → Bool
  is_eligible type timeout now j =
      job_type_eq j.job_type type
      && ltb j.scheduled_for now
      && (is_queued j.job_status || is_stale timeout now j)

  -- ORDER BY job_status, scheduled_for.
  abbrev pub job_before : BackgroundJob D → BackgroundJob D → Bool
  job_before a b =
      if is_queued a.job_status
      then not (is_queued b.job_status) || leb a.scheduled_for b.scheduled_for
      else not (is_queued b.job_status) && leb a.scheduled_for b.scheduled_for

  -- ORDER BY scheduled_for.
  abbrev pub due_before : BackgroundJob D → BackgroundJob D → Bool
  due_before a b = leb a.scheduled_for b.scheduled_for

  -- The rows that are locked for the update.
  unfoldable pub chosen : JobType → ℕ → ℕ → JobQueue D → List (BackgroundJob D)
  unfolding is_eligible
  chosen type batch_size timeout q =
      take batch_size (sort job_before (select (is_eligible type timeout q.clock) q.background_job))

  abbrev pub is_chosen : List (BackgroundJob D) → BackgroundJob D → Bool
  is_chosen picked j = any (job_id j.id) picked

  abbrev pub started : ℕ → BackgroundJob D → BackgroundJob D
  started now j = record j { job_status = running; updated_at = now }

  -- Each of the rows is updated and returned.
  unfoldable pub get_job_batch : JobType → ℕ → ℕ → Query (JobQueue D) (List (BackgroundJob D))
  unfolding chosen
  get_job_batch type batch_size timeout q =
      let picked = chosen type batch_size timeout q in
      (
        ok (sort due_before (map (started q.clock) (select (is_chosen picked) q.background_job))),
        record q { background_job = modify (is_chosen picked) (started q.clock) q.background_job },
      )

  unfoldable pub delete_job_from_queue : ℕ → Query (JobQueue D) (Unit {0})
  delete_job_from_queue id q =
      if any (job_id id) q.background_job
      then (ok tt, record q { background_job = remove (job_id id) q.background_job })
      else (err (not_found "background job"), q)

  unfoldable pub get_job_count : JobType → Query (JobQueue D) ℕ
  get_job_count type q = (ok (tally (λ j. job_type_eq j.job_type type) q.background_job), q)
