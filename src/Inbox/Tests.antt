-- ===== src/Inbox/Tests.antt =====
-- The theorem on incoming activities at a concrete queue.
use mitra.Prelude.{
  ℕ, ◌+◌, ◌≤◌, ◌<◌, ◌^◌, ◌≡◌, refl, Option, none, some, true, false, List, [], ◌∷◌, ltb, length,
  select, arith, if◌then◌else◌,
}
use mitra.Prelude.{String, Bool, ◌==◌}
use mitra.Database.{ok}
use mitra.Jobs.Types.{incoming_activity, queued, running, BackgroundJob, JobQueue, JobStatus}
use mitra.Jobs.Queries.{get_job_batch}
use mitra.Inbox.Queue.{
  IncomingActivityJobData, Handled, handled, request_error, job_timeout,
  process_queued_incoming_activities,
}
use mitra.Inbox.Rows.{is_incoming, total_tries}
use mitra.Prelude.{All}
use mitra.Inbox.Success.{IsUnused}
use mitra.Inbox.Termination.{IsReadable, process_queued_incoming_activities-terminates}

-- JSON values: a number, or the data of a job.
data Json : Type 0 where
  number : ℕ → Json
  job_json : Json → Option String → Option String → Bool → ℕ → Json

abbrev from_value : Json → Option (IncomingActivityJobData Json)
from_value (number n) = none
from_value (job_json a recipient sender b n) =
    if ltb n (2 ^ 32)
    then some (record {
      activity = a;
      recipient_id = recipient;
      sender_id = sender;
      is_authenticated = b;
      failure_count = n;
    })
    else none

abbrev to_value : IncomingActivityJobData Json → Json
to_value d = job_json d.activity d.recipient_id d.sender_id d.is_authenticated d.failure_count

-- The request for the activity 0 fails, the others are handled.
abbrev handle : IncomingActivityJobData Json → JobQueue Json → Handled × JobQueue Json
handle d q = (
  elim d.activity [
    | number n ↦ if n == 0 then request_error else handled
    | job_json a r s b n ↦ handled
  ],
  q,
)

bounded :
    (v : Json) (d : IncomingActivityJobData Json) → from_value v ≡ some d → d.failure_count < 2 ^ 32
bounded (number n) d e = ground arith
bounded (job_json a r s b n) d e = ground arith

reads_back :
    (d : IncomingActivityJobData Json) → d.failure_count < 2 ^ 32 → from_value (to_value d) ≡ some d
reads_back d h = let fits : ltb d.failure_count (2 ^ 32) ≡ true = ground arith in rw fits refl

keeps :
    (d : IncomingActivityJobData Json) (q : JobQueue Json)
    → select is_incoming (handle d q).1.background_job ≡ select is_incoming q.background_job
keeps d q = refl

abbrev activity : ℕ → ℕ → Json
activity n failures = job_json (number n) none none true failures

abbrev job : ℕ → Json → JobStatus → ℕ → ℕ → BackgroundJob Json
job id data_of_job status scheduled_for updated_at = record {
  id = id;
  job_type = incoming_activity;
  job_data = data_of_job;
  job_status = status;
  scheduled_for = scheduled_for;
  updated_at = updated_at;
}

abbrev three_jobs : JobQueue Json
three_jobs = record {
  clock = 1_000;
  background_job =
      job 1 (activity 0 0) queued 10 10
      ∷ job 2 (activity 5 1) queued 20 10
      ∷ job 3 (activity 0 2) queued 30 10
      ∷ [];
}

abbrev batch : List (BackgroundJob Json)
batch =
    job 1 (activity 0 0) running 10 1_000
    ∷ job 2 (activity 5 1) running 20 1_000
    ∷ job 3 (activity 0 2) running 30 1_000
    ∷ []

batch_run :
    get_job_batch incoming_activity 5 job_timeout three_jobs
    ≡ (ok batch, record { clock = 1_000; background_job = batch })
unfolding get_job_batch mitra.Prelude.sort mitra.Prelude.modify select mitra.Prelude.take
batch_run = refl

-- The first activity is tried again, the third was tried three times.
abbrev after : JobQueue Json
after = record {
  clock = 1_000;
  background_job = job 100 (activity 0 1) queued 600_001_000 1_000 ∷ [];
}

queue_run :
    process_queued_incoming_activities from_value to_value handle (λ n. 100 + n) 5 three_jobs
    ≡ (ok tt, after)
unfolding process_queued_incoming_activities mitra.Database.◌>>=◌ get_job_batch mitra.Prelude.sort
    select mitra.Prelude.take mitra.Prelude.modify mitra.Prelude.remove
queue_run = refl

abbrev ids : ℕ → ℕ
ids n = 100 + n

apart : (m n : ℕ) → m < n → (ids m == ids n) ≡ false
apart m n l = ground arith

abbrev running_jobs : JobQueue Json
running_jobs = record { clock = 1_000; background_job = batch }

ids-IsUnused : IsUnused ids running_jobs
ids-IsUnused = record { unused = λ n. ground arith }

batch-IsReadable : All (IsReadable from_value to_value handle bounded reads_back keeps) batch
batch-IsReadable = (
  record { contents = _; reads = refl },
  (record { contents = _; reads = refl }, (record { contents = _; reads = refl }, tt)),
)

process_queued_incoming_activities-terminates_example :
    (q' : JobQueue Json) × (process_queued_incoming_activities from_value to_value handle ids 5
        three_jobs
      ≡ (ok tt, q'))
    × (total_tries from_value (select is_incoming q'.background_job) + length batch
        ≤ total_tries from_value (select is_incoming three_jobs.background_job))
process_queued_incoming_activities-terminates_example =
    process_queued_incoming_activities-terminates from_value to_value handle bounded reads_back
      keeps ids 5 three_jobs running_jobs batch apart (λ n d q h. h) (refl, (refl, (refl, tt)))
      batch_run batch-IsReadable ids-IsUnused
