-- ===== src/Inbox/Success.antt =====
-- When a run of the queue of incoming activities succeeds.
use mitra.Prelude.{
  ℕ, suc, ◌+◌, ◌*◌, ◌%◌, ◌^◌, ◌<◌, ◌≡◌, refl, Bool, true, false, Option, some, List, [], ◌∷◌, ◌++◌,
  any, any-append, find, select, remove, leb, ◌==◌, Bool-cases, inl, inr, arith,
}
use mitra.Database.{Result, ok, ◌>>=◌, ◌>>◌}
use mitra.Jobs.Types.{incoming_activity, queued, BackgroundJob, JobQueue}
use mitra.Jobs.Queries.{job_id, enqueue_job, delete_job_from_queue}
use mitra.Inbox.Queue.{
  IncomingActivityJobData, Handled, handled, request_error, other_error, timed_out, failed_again,
  incoming_queue_backoff, into_job, finish_job, process_job,
}
use mitra.Inbox.Rows.{is_incoming}
use mitra.Inbox.Batches.{IsQueued}

module _ {J : Type 0} where
  -- No row has one of the identifiers.
  pub record IsUnused (ids : ℕ → ℕ) (q : JobQueue J) : Type 0 where
    pub unused : (n : ℕ) → any (job_id (ids n)) q.background_job ≡ false

  -- A call succeeds, and the identifiers are unused afterwards.
  pub record Succeeds (ids : ℕ → ℕ) (r : Result (Unit {0}) × JobQueue J) : Type 0 where
    pub after : JobQueue J
    pub run : r ≡ (ok tt, after)
    pub unused : IsUnused ids after

  any-remove :
      (p c : BackgroundJob J → Bool) (rows : List (BackgroundJob J))
      → any p rows ≡ false
      → any p (remove c rows) ≡ false
  unfolding remove
  any-remove p c [] h = refl
  any-remove p c (r ∷ rows) h = ground (arith, any-remove p c rows)

  any-found :
      (p c : BackgroundJob J → Bool) (rows : List (BackgroundJob J)) (j : BackgroundJob J)
      → find p (select c rows) ≡ some j
      → any p rows ≡ true
  unfolding find select
  any-found p c [] j e = cc
  any-found p c (r ∷ rows) j e = ground (arith, any-found p c rows j)

  pub delete-Succeeds :
      (ids : ℕ → ℕ) (id : ℕ) (q : JobQueue J)
      → any (job_id id) q.background_job ≡ true
      → IsUnused ids q
      → Succeeds ids (delete_job_from_queue id q)
  unfolding delete_job_from_queue
  delete-Succeeds ids id q there h = record {
    after = record q { background_job = remove (job_id id) q.background_job };
    run = rw there refl;
    unused = record {
      unused = λ n. any-remove (job_id (ids n)) (job_id id) q.background_job (h.unused n);
    };
  }

module _ {J : Type 0} (from_value : J → Option (IncomingActivityJobData J))
    (to_value : IncomingActivityJobData J → J)
    (handle_activity : IncomingActivityJobData J → JobQueue J → Handled × JobQueue J) where
  module _ (ids : ℕ → ℕ) (apart : (m n : ℕ) → m < n → (ids m == ids n) ≡ false)
      (j : BackgroundJob J) (d : IncomingActivityJobData J) (q : JobQueue J)
      (there : any (job_id j.id) q.background_job ≡ true) (h : IsUnused ids q) where
    later : IsUnused (λ n. ids (suc n)) q
    later = record { unused = λ n. h.unused (suc n) }

    dropped : Succeeds (λ n. ids (suc n)) (delete_job_from_queue j.id q)
    dropped = delete-Succeeds (λ n. ids (suc n)) j.id q there later

    abbrev new_row : IncomingActivityJobData J → ℕ → BackgroundJob J
    new_row e time = record {
      id = ids 0;
      job_type = incoming_activity;
      job_data = to_value e;
      job_status = queued;
      scheduled_for = time;
      updated_at = q.clock;
    }

    requeued :
        (e : IncomingActivityJobData J) (delay : ℕ)
        → Succeeds
            (λ n. ids (suc n))
            ((do
              into_job from_value to_value handle_activity (ids 0) e delay
              delete_job_from_queue j.id)
              q)
    unfolding into_job enqueue_job ◌>>=◌
    requeued e delay =
        let row : BackgroundJob J = new_row e (q.clock + delay * 1_000_000) in
        let longer : JobQueue J = record q { background_job = q.background_job ++ row ∷ [] } in
        rw (h.unused 0) (
          delete-Succeeds (λ n. ids (suc n)) j.id longer
            (ground (arith, any-append (job_id j.id) q.background_job (row ∷ [])))
            (record {
              unused = λ n.
                  still_unused (ids (suc n)) row (apart 0 (suc n) (omega arith)) (h.unused (suc n));
            }))
      where
        still_unused :
            (id : ℕ) (row : BackgroundJob J)
            → (row.id == id) ≡ false
            → any (job_id id) q.background_job ≡ false
            → any (job_id id) (q.background_job ++ row ∷ []) ≡ false
        still_unused id row a b = ground (arith, any-append (job_id id) q.background_job (row ∷ []))

    finished :
        (o : Handled)
        → Succeeds
            (λ n. ids (suc n))
            (finish_job from_value to_value handle_activity (ids 0) j d o q)
    unfolding finish_job
    finished handled = dropped
    finished other_error = dropped
    finished timed_out = dropped
    finished request_error = elim (Bool-cases (leb ((d.failure_count + 1) % 2 ^ 32) 2)) [
      | inl again ↦
          rw (again, finish_job)
            (requeued (failed_again d) (incoming_queue_backoff ((d.failure_count + 1) % 2 ^ 32)))
      | inr done ↦ rw (done, finish_job) dropped
    ]

  pub process_job-Succeeds :
      (ids : ℕ → ℕ)
      → ((m n : ℕ) → m < n → (ids m == ids n) ≡ false)
      → (j : BackgroundJob J) (d : IncomingActivityJobData J) (q : JobQueue J)
      → from_value j.job_data ≡ some d
      → IsQueued (handle_activity d q).1 j
      → IsUnused ids (handle_activity d q).1
      → Succeeds (λ n. ids (suc n)) (process_job from_value to_value handle_activity (ids 0) j q)
  unfolding process_job
  process_job-Succeeds ids apart j d q read there h =
      let row : any (job_id j.id) (handle_activity d q).1.background_job ≡ true =
        any-found (job_id j.id) is_incoming (handle_activity d q).1.background_job j there.found in
      rw (read, process_job)
        (finished ids apart j d (handle_activity d q).1 row h (handle_activity d q).0)
