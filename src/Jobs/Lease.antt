-- ===== src/Jobs/Lease.antt =====
-- Jobs that have been handed out, until their time runs out, whatever happens to the queue meanwhile.
use mitra.Prelude.{
  ℕ, ◌+◌, ◌*◌, ◌≤◌, ◌≡◌, Bool, true, false, not, ◌&&◌, ◌||◌, ◌==◌, leb, List, [], ◌∷◌, any, map,
  select, modify, sort, ==_iff, arith, inl, inr, Bool-cases, All, All-take, All-sort, All-modify,
  All-every, All-remove, All-append, All-selected, All-weaken, any-sort, any-map, passing_one,
  select_passes,
}
use mitra.Database.{ok}
use mitra.Jobs.Types.{JobType, is_queued, BackgroundJob, JobQueue}
use mitra.Jobs.Events.{
  QueueEvent, elapses, enqueues, hands_out, deletes, spares, react, after_events,
}
use mitra.Jobs.Queries.{
  job_id, is_eligible, is_chosen, job_before, due_before, chosen, started, get_job_batch,
  enqueue_job, delete_job_from_queue,
}

module _ {D : Type 0} where
  -- The jobs that a batch hands out are among the chosen rows.
  batch_chosen :
      (now : ℕ) (picked rows : List (BackgroundJob D)) (id : ℕ)
      → any (job_id id) (sort due_before (map (started now) (select (is_chosen picked) rows)))
        ≡ true
      → any (job_id id) picked ≡ true
  batch_chosen now picked rows id h =
      let there : any (job_id id) (select (is_chosen picked) rows) ≡ true =
        rw
          (
            any-sort due_before (job_id id) (map (started now) (select (is_chosen picked) rows)),
            any-map (started now) (job_id id) (select (is_chosen picked) rows),
          )
          at h in
      let (j, same, picked_j) =
        passing_one (λ j. is_chosen picked j ≡ true) (job_id id) (select (is_chosen picked) rows)
          (select_passes (is_chosen picked) rows) there in
      rw (← (==_iff j.id id).0 same) picked_j

  -- A row of the job is running, since a time that is not before `since`.
  abbrev is_held : ℕ → ℕ → BackgroundJob D → Bool
  is_held id since j = not (j.id == id) || (not (is_queued j.job_status) && leb since j.updated_at)

  abbrev IsHeld : ℕ → ℕ → List (BackgroundJob D) → Type 0
  IsHeld id since rows = All (λ j. is_held id since j ≡ true) rows

  -- A row that is held is not eligible while its time runs.
  held_not_eligible :
      (type : JobType) (timeout id since now : ℕ) (j : BackgroundJob D)
      → now ≤ since + timeout * 1_000_000
      → is_held id since j ≡ true
      → is_eligible type timeout now j ≡ true
      → (j.id == id) ≡ false
  unfolding is_eligible
  held_not_eligible type timeout id since now j h held e = ground arith

  started-held :
      (id since now : ℕ) (j : BackgroundJob D)
      → since ≤ now
      → is_held id since (started now j) ≡ true
  started-held id since now j h = ground arith

  -- Starting rows lets the job be held.
  start-IsHeld :
      (p : BackgroundJob D → Bool) (id since now : ℕ)
      → since ≤ now
      → (rows : List (BackgroundJob D)) → IsHeld id since rows
      → IsHeld id since (modify p (started now) rows)
  start-IsHeld p id since now h =
      All-modify (λ j. is_held id since j ≡ true) (λ j. is_held id since j ≡ true) p (started now)
        (λ j _ _. started-held id since now j h) (λ j _ k. k)

  -- A batch that hands the job out leaves it held from its time on.
  batch-IsHeld :
      (picked : List (BackgroundJob D)) (id since : ℕ)
      → any (job_id id) picked ≡ true
      → (rows : List (BackgroundJob D))
      → IsHeld id since (modify (is_chosen picked) (started since) rows)
  batch-IsHeld picked id since there rows =
      All-modify {0, 0, 0} (λ _. Unit) (λ j. is_held id since j ≡ true) (is_chosen picked)
        (started since) (λ j _ _. started-held id since since j (omega arith))
        (λ j missed _. elim (Bool-cases (j.id == id)) [
          | inl same ↦
              let missed_id : any (job_id id) picked ≡ false =
                rw (← (==_iff j.id id).0 same) missed in
              absurd (ground (arith, there, missed_id))
          | inr apart ↦ ground (arith, apart)
        ])
        rows (All-every {0, 0} (λ _. Unit) (λ _. tt) rows)

module _ {D : Type 0} where
  -- The job is held, if it is still there, from a time on that is over.
  record Holds (id since : ℕ) (q : JobQueue D) : Type 0 where
    past : since ≤ q.clock
    rows : IsHeld id since q.background_job

  react-Holds :
      (id since : ℕ) (e : QueueEvent D) (q : JobQueue D)
      → spares id e ≡ true
      → Holds id since q
      → Holds id since (react e q)
  unfolding react enqueue_job get_job_batch delete_job_from_queue
  react-Holds id since (elapses time) q s h = record { past = omega (arith, h.past); rows = h.rows }
  react-Holds id since (hands_out type n timeout) q s h = record {
    past = h.past;
    rows = start-IsHeld _ id since q.clock h.past q.background_job h.rows;
  }
  react-Holds id since (deletes other) q s h =
      elim (Bool-cases (any (job_id other) q.background_job)) [
        | inl there ↦
            rw (there, react)
              (record {
                past = h.past;
                rows =
                    All-remove (λ j. is_held id since j ≡ true) (job_id other) q.background_job
                      h.rows;
              })
        | inr absent ↦ rw (absent, react) h
      ]
  react-Holds id since (enqueues other type d time) q s h =
      elim (Bool-cases (any (job_id other) q.background_job)) [
        | inl there ↦ rw (there, react) h
        | inr absent ↦
            rw (absent, react)
              (record {
                past = h.past;
                rows =
                    All-append (λ j. is_held id since j ≡ true) _ _ h.rows (ground (arith, s), tt);
              })
      ]

  after_events-Holds :
      (id since : ℕ) (es : List (QueueEvent D)) (q : JobQueue D)
      → All (λ e. spares id e ≡ true) es
      → Holds id since q
      → Holds id since (after_events es q)
  unfolding after_events
  after_events-Holds id since [] q s h = h
  after_events-Holds id since (e ∷ es) q (s, ss) h =
      after_events-Holds id since es (react e q) ss (react-Holds id since e q s h)

  -- What a batch chooses is not the job that is held.
  held_not_chosen :
      (type : JobType) (n timeout id since : ℕ) (q : JobQueue D)
      → q.clock ≤ since + timeout * 1_000_000
      → IsHeld id since q.background_job
      → All (λ j. (j.id == id) ≡ false) (chosen type n timeout q)
  unfolding chosen
  held_not_chosen type n timeout id since q h held =
      All-take (λ j. (j.id == id) ≡ false) n _
        (All-sort job_before (λ j. (j.id == id) ≡ false) _
          (All-selected (λ j. (j.id == id) ≡ false) (is_eligible type timeout q.clock)
            q.background_job
            (All-weaken (λ j. is_held id since j ≡ true) _
              (λ j k e. held_not_eligible type timeout id since q.clock j h k e) q.background_job
              held)))

  -- A job that a batch hands out is not handed out again by a batch with a time-out that is not over
  -- since then, of whatever type and size. In between, time may go by, jobs may be added under other
  -- identifiers, and any jobs may be deleted or handed out, with whatever time-outs.
  pub handed_out_once :
      (type type' : JobType) (n n' timeout timeout' id : ℕ) (q r r' : JobQueue D)
      (jobs jobs' : List (BackgroundJob D)) (events : List (QueueEvent D))
      → get_job_batch type n timeout q ≡ (ok jobs, r)
      → any (job_id id) jobs ≡ true
      → All (λ e. spares id e ≡ true) events
      → (after_events events r).clock ≤ q.clock + timeout' * 1_000_000
      → get_job_batch type' n' timeout' (after_events events r) ≡ (ok jobs', r')
      → any (job_id id) jobs' ≡ false
  unfolding get_job_batch
  handed_out_once type type' n n' timeout timeout' id q r r' jobs jobs' events e there s h e' =
      elim (Bool-cases (any (job_id id) jobs')) [
        | inr no_more ↦ no_more
        | inl again ↦
            let picked = chosen type n timeout q in
            let given : sort due_before
                  (map (started q.clock) (select (is_chosen picked) q.background_job))
                ≡ jobs =
              cc in
            let left : record q {
              background_job = modify (is_chosen picked) (started q.clock) q.background_job;
            }
                ≡ r =
              cc in
            let first : any (job_id id) picked ≡ true =
              batch_chosen q.clock picked q.background_job id (rw given there) in
            let start : Holds id q.clock (record q {
              background_job = modify (is_chosen picked) (started q.clock) q.background_job;
            }) =
              record {
                past = omega arith;
                rows = batch-IsHeld picked id q.clock first q.background_job;
              } in
            let held : Holds id q.clock (after_events events r) =
              after_events-Holds id q.clock events r s (rw left at start) in
            let u = after_events events r in
            let given' : sort due_before (
                  map (started u.clock)
                    (select (is_chosen (chosen type' n' timeout' u)) u.background_job))
                ≡ jobs' =
              cc in
            let (j, same, other) =
              passing_one (λ j. (j.id == id) ≡ false) (job_id id) (chosen type' n' timeout' u)
                (held_not_chosen type' n' timeout' id q.clock u h held.rows)
                (batch_chosen u.clock (chosen type' n' timeout' u) u.background_job id
                  (rw given' again)) in
            absurd (ground (arith, same, other))
      ]
