-- ===== src/Inbox/Queue.antt =====
-- mitra_activitypub/src/queues.rs: jobs with incoming activities, which are tried again after a failed
-- request. ApClient::new_with_pool, which is called between the batch and the loop, is left out: it reads
-- the filter rules, changes nothing, and fails only where the pool or the driver does.
use mitra.Prelude.{
  ℕ, suc, ◌+◌, ◌*◌, ◌^◌, ◌%◌, String, Bool, Option, none, some, List, [], ◌∷◌, leb, if◌then◌else◌,
}
use mitra.Database.{Query, err, type_error, pure, ◌>>=◌, ◌>>◌}
use mitra.Jobs.Types.{incoming_activity, BackgroundJob, JobQueue}
use mitra.Jobs.Queries.{enqueue_job, get_job_batch, delete_job_from_queue}

abbrev pub job_timeout : ℕ
job_timeout = 3600

abbrev pub incoming_queue_retries_max : ℕ
incoming_queue_retries_max = 2

-- `J` are the JSON values.
pub record IncomingActivityJobData (J : Type 0) : Type 0 where
  pub activity : J
  pub recipient_id : Option String
  pub sender_id : Option String
  pub is_authenticated : Bool
  pub failure_count : ℕ

-- What the handler of an activity ends in: a value, an error of an HTTP request, another error, or the
-- time-out.
pub data Handled : Type 0 where
  handled request_error other_error timed_out : Handled

unfoldable pub incoming_queue_backoff : ℕ → ℕ
incoming_queue_backoff failure_count = 60 * 10

abbrev delivery_part : (String × String → String) → Option (String × String) → Option String
delivery_part f none = none
delivery_part f (some d) = some (f d)

module _ {J : Type 0} where
  -- `IncomingActivityJobData::new`.
  unfoldable pub new_job_data : J → Option (String × String) → Bool → IncomingActivityJobData J
  new_job_data activity maybe_delivery is_authenticated = record {
    activity = activity;
    recipient_id = delivery_part (λ d. d.0) maybe_delivery;
    sender_id = delivery_part (λ d. d.1) maybe_delivery;
    is_authenticated = is_authenticated;
    failure_count = 0;
  }

  -- `failure_count += 1` on 32 bits.
  abbrev pub failed_again : IncomingActivityJobData J → IncomingActivityJobData J
  failed_again d = record d { failure_count = (d.failure_count + 1) % 2 ^ 32 }

-- Parameters: reading and writing of JSON, and the handler, which may use the queue.
module _ {J : Type 0} (from_value : J → Option (IncomingActivityJobData J))
    (to_value : IncomingActivityJobData J → J)
    (handle_activity : IncomingActivityJobData J → JobQueue J → Handled × JobQueue J) where
  -- The identifier is the one that `enqueue_job` makes.
  unfoldable pub into_job : ℕ → IncomingActivityJobData J → ℕ → Query (JobQueue J) ℕ
  unfolding enqueue_job
  into_job id d delay q =
      enqueue_job id incoming_activity (to_value d) (q.clock + delay * 1_000_000) q

  -- The rest of an iteration, after the handler.
  unfoldable pub finish_job :
      ℕ → BackgroundJob J → IncomingActivityJobData J → Handled → Query (JobQueue J) (Unit {0})
  unfolding into_job incoming_queue_backoff delete_job_from_queue
  finish_job id job d request_error =
      let e = failed_again d in
      if leb e.failure_count incoming_queue_retries_max
      then (do into_job id e (incoming_queue_backoff e.failure_count); delete_job_from_queue job.id)
      else delete_job_from_queue job.id
  finish_job id job d handled = delete_job_from_queue job.id
  finish_job id job d other_error = delete_job_from_queue job.id
  finish_job id job d timed_out = delete_job_from_queue job.id

  unfoldable pub process_job : ℕ → BackgroundJob J → Query (JobQueue J) (Unit {0})
  unfolding finish_job
  process_job id job q = elim (from_value job.job_data) [
    | none ↦ (err type_error, q)
    | some d ↦ let (outcome, q') = handle_activity d q in finish_job id job d outcome q'
  ]

  -- The loop over the batch; `ids n` is for the iteration number `n`.
  unfoldable pub process_jobs : (ℕ → ℕ) → List (BackgroundJob J) → Query (JobQueue J) (Unit {0})
  unfolding process_job
  process_jobs ids [] = pure tt
  process_jobs ids (job ∷ jobs) = do process_job (ids 0) job; process_jobs (λ n. ids (suc n)) jobs

  unfoldable pub process_queued_incoming_activities : (ℕ → ℕ) → ℕ → Query (JobQueue J) (Unit {0})
  unfolding process_jobs
  process_queued_incoming_activities ids batch_size = do
    batch ← get_job_batch incoming_activity batch_size job_timeout
    process_jobs ids batch
