-- ===== src/Jobs/Types.antt =====
-- mitra_models/src/background_jobs/types.rs: jobs, their types and statuses.
use mitra.Prelude.{ℕ, Bool, true, false, List, ◌==◌, if◌then◌else◌}
use mitra.Prelude.Int.{ℤ, pos, negsuc}
use mitra.Database.{Result, ok, err, type_error}

pub data JobType : Type 0 where
  incoming_activity outgoing_activity media_cleanup data_import fetcher : JobType

-- `From<JobType> for i16`.
unfoldable pub job_type_code : JobType → ℤ
job_type_code incoming_activity = pos 1
job_type_code outgoing_activity = pos 2
job_type_code media_cleanup = pos 3
job_type_code data_import = pos 4
job_type_code fetcher = pos 5

-- `TryFrom<i16> for JobType`.
unfoldable pub job_type_of_code : ℤ → Result JobType
job_type_of_code (negsuc n) = err type_error
job_type_of_code (pos n) =
    if n == 1
    then ok incoming_activity
    else if n == 2
    then ok outgoing_activity
    else if n == 3
    then ok media_cleanup
    else if n == 4
    then ok data_import
    else if n == 5
    then ok fetcher
    else err type_error

-- The derived `==`.
abbrev pub job_type_eq : JobType → JobType → Bool
job_type_eq incoming_activity incoming_activity = true
job_type_eq outgoing_activity outgoing_activity = true
job_type_eq media_cleanup media_cleanup = true
job_type_eq data_import data_import = true
job_type_eq fetcher fetcher = true
job_type_eq _ _ = false

pub data JobStatus : Type 0 where
  queued running : JobStatus

unfoldable pub job_status_code : JobStatus → ℤ
job_status_code queued = pos 1
job_status_code running = pos 2

unfoldable pub job_status_of_code : ℤ → Result JobStatus
job_status_of_code (negsuc n) = err type_error
job_status_of_code (pos n) =
    if n == 1 then ok queued else if n == 2 then ok running else err type_error

abbrev pub is_queued : JobStatus → Bool
is_queued queued = true
is_queued running = false

-- A row with its data, which the queue does not look into.
pub record BackgroundJob (D : Type 0) : Type 0 where
  pub id : ℕ
  pub job_type : JobType
  pub job_data : D
  pub job_status : JobStatus
  pub scheduled_for : ℕ
  pub updated_at : ℕ

-- The table, and CURRENT_TIMESTAMP of the running statement.
pub record JobQueue (D : Type 0) : Type 0 where
  pub clock : ℕ
  pub background_job : List (BackgroundJob D)
