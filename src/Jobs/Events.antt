-- ===== src/Jobs/Events.antt =====
-- Sequences of changes of the queue of mitra_models/src/background_jobs.
use mitra.Prelude.{ℕ, ◌+◌, ◌==◌, Bool, true, not, List, [], ◌∷◌}
use mitra.Jobs.Types.{JobType, JobQueue}
use mitra.Jobs.Queries.{enqueue_job, get_job_batch, delete_job_from_queue}

-- What may happen to the queue: time goes by, a job is added or deleted, or a batch is handed out.
pub data QueueEvent (D : Type 0) : Type 0 where
  elapses : ℕ → QueueEvent D
  enqueues : ℕ → JobType → D → ℕ → QueueEvent D
  hands_out : JobType → ℕ → ℕ → QueueEvent D
  deletes : ℕ → QueueEvent D

-- No job is added under the identifier.
abbrev pub spares : {D : Type 0} → ℕ → QueueEvent D → Bool
spares id (enqueues other _ _ _) = not (other == id)
spares id (elapses _) = true
spares id (hands_out _ _ _) = true
spares id (deletes _) = true

module _ {D : Type 0} where
  -- The queue after an event, whether it succeeds or fails.
  unfoldable pub react : QueueEvent D → JobQueue D → JobQueue D
  unfolding get_job_batch enqueue_job delete_job_from_queue
  react (elapses time) q = record q { clock = q.clock + time }
  react (enqueues id type d scheduled_for) q = (enqueue_job id type d scheduled_for q).1
  react (hands_out type n timeout) q = (get_job_batch type n timeout q).1
  react (deletes id) q = (delete_job_from_queue id q).1

  unfoldable pub after_events : List (QueueEvent D) → JobQueue D → JobQueue D
  unfolding react
  after_events [] q = q
  after_events (e ∷ es) q = after_events es (react e q)
