-- ===== src/Jobs/Tests.antt =====
-- The theorems on the queue at concrete jobs.
use mitra.Prelude.{
  ℕ, ◌≡◌, ◌≤◌, refl, true, false, List, [], ◌∷◌, any, arith, length, All, IsSorted, ◌*◌, ◌+◌,
}
use mitra.Database.{ok}
use mitra.Jobs.Types.{incoming_activity, JobStatus, queued, running, BackgroundJob, JobQueue}
use mitra.Jobs.Queries.{job_id, get_job_batch, due_before, enqueue_job, delete_job_from_queue}
use mitra.Jobs.Events.{QueueEvent, elapses, enqueues, hands_out, deletes, react, after_events}
use mitra.Jobs.Lease.{handed_out_once}
use mitra.Jobs.Batch.{IsDelivered, get_job_batch_lem}

abbrev job : ℕ → JobStatus → ℕ → ℕ → BackgroundJob ℕ
job id status scheduled_for updated_at = record {
  id = id;
  job_type = incoming_activity;
  job_data = 0;
  job_status = status;
  scheduled_for = scheduled_for;
  updated_at = updated_at;
}

-- One job waits, one is late, one was given up long ago.
abbrev three_jobs : JobQueue ℕ
three_jobs = record {
  clock = 9_000_000;
  background_job = job 1 queued 8_000_000 100 ∷ job 2 running 200 300 ∷ job 3 queued 500 600 ∷ [];
}

abbrev two_started : List (BackgroundJob ℕ)
two_started = job 3 running 500 9_000_000 ∷ job 1 running 8_000_000 9_000_000 ∷ []

abbrev after_batch : JobQueue ℕ
after_batch = record {
  clock = 9_000_000;
  background_job =
      job 1 running 8_000_000 9_000_000 ∷ job 2 running 200 300 ∷ job 3 running 500 9_000_000 ∷ [];
}

-- Queued jobs come before a stale one.
batch_run : get_job_batch incoming_activity 2 5 three_jobs ≡ (ok two_started, after_batch)
unfolding get_job_batch mitra.Prelude.sort mitra.Prelude.modify mitra.Prelude.select
    mitra.Prelude.take
batch_run = refl

-- Meanwhile a second passes, a job is added, and one is deleted.
abbrev events : List (QueueEvent ℕ)
events =
    elapses 1_000_000
    ∷ enqueues 4 incoming_activity 0 600
    ∷ hands_out incoming_activity 1 5
    ∷ deletes 1
    ∷ []

abbrev started_next : List (BackgroundJob ℕ)
started_next = job 4 running 600 10_000_000 ∷ []

abbrev after_next : JobQueue ℕ
after_next = record {
  clock = 10_000_000;
  background_job =
      job 2 running 200 300 ∷ job 3 running 500 9_000_000 ∷ job 4 running 600 10_000_000 ∷ [];
}

events_run : after_events events after_batch ≡ after_next
unfolding after_events react get_job_batch enqueue_job delete_job_from_queue mitra.Prelude.sort
    mitra.Prelude.modify mitra.Prelude.select mitra.Prelude.take mitra.Prelude.remove
events_run = refl

abbrev stale_started : List (BackgroundJob ℕ)
stale_started = job 2 running 200 10_000_000 ∷ []

abbrev after_stale : JobQueue ℕ
after_stale = record {
  clock = 10_000_000;
  background_job =
      job 2 running 200 10_000_000
      ∷ job 3 running 500 9_000_000
      ∷ job 4 running 600 10_000_000
      ∷ [];
}

later_run :
    get_job_batch incoming_activity 9 5 (after_events events after_batch)
    ≡ (ok stale_started, after_stale)
unfolding after_events react get_job_batch enqueue_job delete_job_from_queue mitra.Prelude.sort
    mitra.Prelude.modify mitra.Prelude.select mitra.Prelude.take mitra.Prelude.remove
later_run = refl

in_time : (after_events events after_batch).clock ≤ 9_000_000 + 5 * 1_000_000
in_time = rw events_run (omega arith)

handed_out_once_example : any (job_id 3) stale_started ≡ false
handed_out_once_example =
    handed_out_once incoming_activity incoming_activity 2 9 5 5 3 three_jobs after_batch after_stale
      two_started stale_started events batch_run refl (refl, (refl, (refl, (refl, tt)))) in_time
      later_run

get_job_batch_lem_example :
    (length two_started ≤ 2)
    × IsSorted due_before two_started
    × All (IsDelivered incoming_activity 9_000_000) two_started
get_job_batch_lem_example =
    get_job_batch_lem incoming_activity 2 5 three_jobs after_batch two_started
      (refl, (refl, (refl, tt))) batch_run
