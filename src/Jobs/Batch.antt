-- ===== src/Jobs/Batch.antt =====
-- What a batch of jobs is made of.
use mitra.Prelude.{
  ℕ, ◌≤◌, ◌≡◌, refl, true, false, List, [], ◌∷◌, some, any, map, find, select, sort, tally, length,
  ◌==◌, ==_iff, arith, inl, inr, Bool-cases, All, All-take, All-map, All-sort, All-select,
  All-weaken, All-both, IsSorted, sort-IsSorted, length-sort, length-map, length-select,
  length-take-le, tally-or-le, passing_one, select_passes, any-false-All, ◌<◌, tally-zero_of_any,
}
use mitra.Database.{ok}
use mitra.Jobs.Types.{JobType, running, BackgroundJob, JobQueue}
use mitra.Jobs.Queries.{
  job_id, is_eligible, is_chosen, job_before, due_before, chosen, started, get_job_batch,
}

module _ {D : Type 0} where
  -- The PRIMARY KEY.
  abbrev pub IsDistinct : List (BackgroundJob D) → Type 0
  IsDistinct [] = Unit
  IsDistinct (j ∷ js) = (any (job_id j.id) js ≡ false) × IsDistinct js

  -- The row that its identifier finds.
  abbrev pub IsFound : List (BackgroundJob D) → BackgroundJob D → Type 0
  IsFound rows j = find (job_id j.id) rows ≡ some j

  IsFound-below :
      (j : BackgroundJob D) (js : List (BackgroundJob D)) (x : BackgroundJob D)
      → (x.id == j.id) ≡ false
      → IsFound js x
      → IsFound (j ∷ js) x
  unfolding find
  IsFound-below j js x apart h = ground (arith, h)

  pub All-IsFound : (rows : List (BackgroundJob D)) → IsDistinct rows → All (IsFound rows) rows
  unfolding find
  All-IsFound [] d = tt
  All-IsFound (j ∷ js) d = (
    ground arith,
    All-weaken (λ x. ((x.id == j.id) ≡ false) × IsFound js x) (IsFound (j ∷ js))
        (λ x h. IsFound-below j js x h.0 h.1) js
        (All-both (λ x. (x.id == j.id) ≡ false) (IsFound js) js (any-false-All (job_id j.id) js d.0)
          (All-IsFound js d.1)),
  )

  pub tally_one :
      (k : ℕ) (rows : List (BackgroundJob D)) → IsDistinct rows → tally (job_id k) rows ≤ 1
  unfolding tally
  tally_one k [] d = omega arith
  tally_one k (j ∷ js) d = elim (Bool-cases (j.id == k)) [
    | inl same ↦
        let absent : any (job_id k) js ≡ false = rw (← (==_iff j.id k).0 same) d.0 in
        ground (arith, tally-zero_of_any (job_id k) js absent)
    | inr other ↦ ground (arith, tally_one k js d.1)
  ]

  tally_none : (rows : List (BackgroundJob D)) → tally (λ _. false) rows ≡ 0
  unfolding tally
  tally_none [] = refl
  tally_none (j ∷ js) = tally_none js

  -- No more rows have an identifier from a list than the list has members.
  tally_chosen :
      (picked rows : List (BackgroundJob D))
      → IsDistinct rows
      → tally (is_chosen picked) rows ≤ length picked
  tally_chosen [] rows d = omega (arith, tally_none rows)
  tally_chosen (j ∷ picked) rows d = omega (
    arith,
    tally_one j.id rows d,
    tally_chosen picked rows d,
    tally-or-le (is_chosen (j ∷ picked)) (job_id j.id) (is_chosen picked) (λ x h. ground arith)
        rows,
  )

  -- A job as a batch hands it out.
  pub record IsDelivered (type : JobType) (now : ℕ) (j : BackgroundJob D) : Type 0 where
    pub of_type : j.job_type ≡ type
    pub is_due : j.scheduled_for < now
    pub is_running : j.job_status ≡ running
    pub is_fresh : j.updated_at ≡ now

  IsDelivered-row :
      (type : JobType) (timeout now : ℕ) (j : BackgroundJob D)
      → is_eligible type timeout now j ≡ true
      → IsDelivered type now (started now j)
  unfolding is_eligible
  IsDelivered-row type timeout now j h = ground arith

  -- A row with the identifier of a chosen one is that one.
  chosen_eligible :
      (type : JobType) (n timeout : ℕ) (q : JobQueue D) (j : BackgroundJob D)
      → IsDistinct q.background_job
      → IsFound q.background_job j
      → is_chosen (chosen type n timeout q) j ≡ true
      → is_eligible type timeout q.clock j ≡ true
  unfolding chosen
  chosen_eligible type n timeout q j d found hit =
      let P : BackgroundJob D → Type 0 =
        λ x. IsFound q.background_job x × (is_eligible type timeout q.clock x ≡ true) in
      let rows : List (BackgroundJob D) =
        select (is_eligible type timeout q.clock) q.background_job in
      let good : All P (chosen type n timeout q) = All-take P n _ (
        All-sort job_before P rows (
          All-both (IsFound q.background_job) (λ x. is_eligible type timeout q.clock x ≡ true) rows
            (All-select (IsFound q.background_job) (is_eligible type timeout q.clock)
              q.background_job (All-IsFound q.background_job d))
            (select_passes (is_eligible type timeout q.clock) q.background_job))) in
      let (x, same, h) = passing_one P (job_id j.id) (chosen type n timeout q) good hit in
      let found_x : find (job_id j.id) q.background_job ≡ some x =
        rw (← (==_iff x.id j.id).0 same) h.0 in
      let x_is_j : x ≡ j = cc in rw (← x_is_j) h.1

  length-chosen :
      (type : JobType) (n timeout : ℕ) (q : JobQueue D) → length (chosen type n timeout q) ≤ n
  unfolding chosen
  length-chosen type n timeout q = length-take-le n _

  due_total : (x y : BackgroundJob D) → due_before x y ≡ false → due_before y x ≡ true
  due_total x y h = ground arith

  due_trans :
      (x y z : BackgroundJob D)
      → due_before x y ≡ true
      → due_before y z ≡ true
      → due_before x z ≡ true
  due_trans x y z h k = ground arith

  -- If no two jobs have one identifier, a batch has at most as many jobs as asked for, in the order of
  -- their times; each has the type asked for, is due, and is marked as running from now on.
  pub get_job_batch_lem :
      (type : JobType) (n timeout : ℕ) (q r : JobQueue D) (jobs : List (BackgroundJob D))
      → IsDistinct q.background_job
      → get_job_batch type n timeout q ≡ (ok jobs, r)
      → (length jobs ≤ n) × IsSorted due_before jobs × All (IsDelivered type q.clock) jobs
  unfolding get_job_batch
  get_job_batch_lem type n timeout q r jobs d e =
      let picked = chosen type n timeout q in
      let rows : List (BackgroundJob D) =
        map (started q.clock) (select (is_chosen picked) q.background_job) in
      let same : sort due_before rows ≡ jobs = cc in
      rw (← same) (
        omega (
          arith,
          length-sort due_before rows,
          length-map (started q.clock) (select (is_chosen picked) q.background_job),
          length-select (is_chosen picked) q.background_job,
          tally_chosen picked q.background_job d,
          length-chosen type n timeout q,
        ),
        sort-IsSorted due_before due_total due_trans rows,
        All-sort due_before (IsDelivered type q.clock) rows (
            All-map (IsDelivered type q.clock) (started q.clock)
              (select (is_chosen picked) q.background_job)
              (All-weaken (λ j. IsFound q.background_job j × (is_chosen picked j ≡ true))
                (λ j. IsDelivered type q.clock (started q.clock j))
                (λ j h.
                  IsDelivered-row type timeout q.clock j
                    (chosen_eligible type n timeout q j d h.0 h.1))
                (select (is_chosen picked) q.background_job)
                (All-both (IsFound q.background_job) (λ j. is_chosen picked j ≡ true)
                  (select (is_chosen picked) q.background_job)
                  (All-select (IsFound q.background_job) (is_chosen picked) q.background_job
                    (All-IsFound q.background_job d))
                  (select_passes (is_chosen picked) q.background_job)))),
      )
