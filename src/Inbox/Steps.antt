-- ===== src/Inbox/Steps.antt =====
-- What one job of a run does to the queue.
use mitra.Prelude.{
  ℕ, ◌+◌, ◌^◌, ◌%◌, ◌≤◌, ◌<◌, ◌≡◌, refl, ap, ◌∙◌, true, false, Option, some, List, [], ◌∷◌, ◌++◌,
  any, find, select, remove, leb, ◌==◌, Bool-cases, Option-cases, inl, inr, arith,
}
use mitra.Database.Triples.{Ensures, Ensures-bind, Ensures-weaken}
use mitra.Jobs.Types.{incoming_activity, queued, BackgroundJob, JobQueue}
use mitra.Jobs.Queries.{job_id, enqueue_job, delete_job_from_queue}
use mitra.Inbox.Queue.{
  IncomingActivityJobData, Handled, handled, request_error, other_error, timed_out, failed_again,
  into_job, finish_job, process_job,
}
use mitra.Inbox.Rows.{
  is_incoming, tries_left, job_tries, total_tries, total-append, total-remove, select-remove,
  select-append, find-append_found, find-remove_apart,
}
use mitra.Inbox.Batches.{IsQueued}

abbrev pub jobs_of : {J : Type 0} → JobQueue J → List (BackgroundJob J)
jobs_of q = select is_incoming q.background_job

fewer_left :
    (n : ℕ)
    → n < 2 ^ 32
    → leb ((n + 1) % 2 ^ 32) 2 ≡ true
    → tries_left ((n + 1) % 2 ^ 32) + 1 ≤ tries_left n
fewer_left n h e = ground arith

one_left : (n : ℕ) → 1 ≤ tries_left n
one_left n = ground arith

module _ {J : Type 0} where
  delete-removes :
      (id : ℕ) (q : JobQueue J)
      → Ensures (λ _ u. jobs_of u ≡ remove (job_id id) (jobs_of q)) (delete_job_from_queue id q)
  unfolding delete_job_from_queue
  delete-removes id q = elim (Bool-cases (any (job_id id) q.background_job)) [
    | inl there ↦
        rw (there, delete_job_from_queue) (select-remove (job_id id) is_incoming q.background_job)
    | inr absent ↦ rw (absent, delete_job_from_queue) tt
  ]

  -- A new row with the data `v`.
  record IsEnqueued (v : J) (q u : JobQueue J) : Type 0 where
    row : BackgroundJob J
    carries : row.job_data ≡ v
    added : jobs_of u ≡ jobs_of q ++ row ∷ []

  enqueue-IsEnqueued :
      (id : ℕ) (v : J) (time : ℕ) (q : JobQueue J)
      → Ensures (λ _ u. IsEnqueued v q u) (enqueue_job id incoming_activity v time q)
  unfolding enqueue_job select
  enqueue-IsEnqueued id v time q = elim (Bool-cases (any (job_id id) q.background_job)) [
    | inl clash ↦ rw (clash, enqueue_job) tt
    | inr fresh ↦
        rw (fresh, enqueue_job)
          (record {
            row = record {
              id = id;
              job_type = incoming_activity;
              job_data = v;
              job_status = queued;
              scheduled_for = time;
              updated_at = q.clock;
            };
            carries = refl;
            added = select-append is_incoming is_incoming q.background_job _;
          })
  ]

module _ {J : Type 0} (from_value : J → Option (IncomingActivityJobData J))
    (to_value : IncomingActivityJobData J → J)
    (handle_activity : IncomingActivityJobData J → JobQueue J → Handled × JobQueue J)
    (bounded : (v : J) (d : IncomingActivityJobData J)
      → from_value v ≡ some d
      → d.failure_count < 2 ^ 32)
    (reads_back : (d : IncomingActivityJobData J)
      → d.failure_count < 2 ^ 32
      → from_value (to_value d) ≡ some d)
    (keeps : (d : IncomingActivityJobData J) (q : JobQueue J)
      → jobs_of (handle_activity d q).1 ≡ jobs_of q) where
  -- One job is done with: a try less is left, and the other jobs are queued as before.
  pub record IsProcessed (j : BackgroundJob J) (q u : JobQueue J) : Type 0 where
    pub less : total_tries from_value (jobs_of u) + 1 ≤ total_tries from_value (jobs_of q)
    pub others : (i : BackgroundJob J) → (i.id == j.id) ≡ false → IsQueued q i → IsQueued u i

  still-IsQueued :
      (i j : BackgroundJob J) (rows : List (BackgroundJob J)) (u : JobQueue J)
      → jobs_of u ≡ remove (job_id j.id) rows
      → (i.id == j.id) ≡ false
      → find (job_id i.id) rows ≡ some i
      → IsQueued u i
  still-IsQueued i j rows u e apart found = record {
    found =
        ap (find (job_id i.id)) e
        ∙ find-remove_apart (job_id i.id) (job_id j.id) (λ x h. ground arith) rows
        ∙ found;
  }

  module _ (id : ℕ) (j : BackgroundJob J) (d : IncomingActivityJobData J) (q : JobQueue J)
      (there : IsQueued q j) (read : from_value j.job_data ≡ some d) where
    own_tries : job_tries from_value j ≡ tries_left d.failure_count
    own_tries = rw (read, job_tries) refl

    dropped : Ensures (λ _ u. IsProcessed j q u) (delete_job_from_queue j.id q)
    dropped =
        Ensures-weaken (λ _ u. jobs_of u ≡ remove (job_id j.id) (jobs_of q))
          (λ _ u. IsProcessed j q u) (delete_job_from_queue j.id q)
          (λ _ u e. record {
            less = rw e (
                omega (
                  arith,
                  total-remove from_value j.id (jobs_of q) j there.found,
                  own_tries,
                  one_left d.failure_count,
                ));
            others = λ i apart h. still-IsQueued i j (jobs_of q) u e apart h.found;
          })
          (delete-removes j.id q)

    requeued :
        leb ((d.failure_count + 1) % 2 ^ 32) 2 ≡ true
        → (u : JobQueue J) → IsEnqueued (to_value (failed_again d)) q u
        → Ensures (λ _ w. IsProcessed j q w) (delete_job_from_queue j.id u)
    requeued again u new =
        let fits : d.failure_count < 2 ^ 32 = bounded j.job_data d read in
        let next : (d.failure_count + 1) % 2 ^ 32 < 2 ^ 32 = omega arith in
        let carried : from_value new.row.job_data ≡ some (failed_again d) =
          ap from_value new.carries ∙ reads_back (failed_again d) next in
        let row_tries : job_tries from_value new.row ≡ tries_left ((d.failure_count + 1) % 2 ^ 32) =
          rw (carried, job_tries) refl in
        let found : find (job_id j.id) (jobs_of q ++ new.row ∷ []) ≡ some j =
          find-append_found (job_id j.id) (jobs_of q) (new.row ∷ []) j there.found in
        Ensures-weaken (λ _ w. jobs_of w ≡ remove (job_id j.id) (jobs_of u))
          (λ _ w. IsProcessed j q w) (delete_job_from_queue j.id u)
          (λ _ w e.
            let e' : jobs_of w ≡ remove (job_id j.id) (jobs_of q ++ new.row ∷ []) =
              e ∙ ap (remove (job_id j.id)) new.added in
            record {
              less = rw e' (
                  omega (
                    arith,
                    total-remove from_value j.id (jobs_of q ++ new.row ∷ []) j found,
                    total-append from_value (jobs_of q) new.row,
                    row_tries,
                    own_tries,
                    fewer_left d.failure_count fits again,
                  ));
              others = λ i apart h.
                  still-IsQueued i j (jobs_of q ++ new.row ∷ []) w e' apart
                    (find-append_found (job_id i.id) (jobs_of q) (new.row ∷ []) i h.found);
            })
          (delete-removes j.id u)

    finished :
        (o : Handled)
        → Ensures
            (λ _ u. IsProcessed j q u)
            (finish_job from_value to_value handle_activity id j d o q)
    unfolding finish_job into_job
    finished handled = dropped
    finished other_error = dropped
    finished timed_out = dropped
    finished request_error = elim (Bool-cases (leb ((d.failure_count + 1) % 2 ^ 32) 2)) [
      | inl again ↦
          rw (again, finish_job)
            (Ensures-bind (λ _ u. IsEnqueued (to_value (failed_again d)) q u)
              (λ _ u. IsProcessed j q u) (λ _. delete_job_from_queue j.id) _ q
              (enqueue-IsEnqueued id (to_value (failed_again d)) _ q)
              (λ _ u new. requeued again u new))
      | inr done ↦ rw (done, finish_job) dropped
    ]

  pub process_job-IsProcessed :
      (id : ℕ) (j : BackgroundJob J) (q : JobQueue J)
      → IsQueued q j
      → Ensures (λ _ u. IsProcessed j q u) (process_job from_value to_value handle_activity id j q)
  unfolding process_job
  process_job-IsProcessed id j q there = elim (Option-cases (from_value j.job_data)) [
    | inl unreadable ↦ rw (unreadable, process_job) tt
    | inr (d, read) ↦
        let after = (handle_activity d q).1 in
        let same : jobs_of after ≡ jobs_of q = keeps d q in
        let there' : IsQueued after j = record {
          found = ap (find (job_id j.id)) same ∙ there.found;
        } in
        rw (read, process_job)
          (Ensures-weaken (λ _ u. IsProcessed j after u) (λ _ u. IsProcessed j q u) _
            (λ _ u p. record {
              less = rw same at p.less;
              others = λ i apart h.
                  p.others i apart (record { found = ap (find (job_id i.id)) same ∙ h.found });
            })
            (finished id j d after there' read (handle_activity d q).0))
  ]
