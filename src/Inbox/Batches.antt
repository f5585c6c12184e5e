-- ===== src/Inbox/Batches.antt =====
-- A batch that was handed out: its jobs are different rows of the queue.
use mitra.Prelude.{
  ℕ, ◌≡◌, refl, ap, ◌∙◌, Bool, true, false, ◌||◌, Option, some, List, [], ◌∷◌, any, any-map,
  any-sort, find, select, modify, map, sort, insert, All, All-sort, All-both, All-weaken, ◌==◌,
  if◌then◌else◌, Bool-cases, inl, inr, arith,
}
use mitra.Database.{ok}
use mitra.Jobs.Types.{incoming_activity, BackgroundJob, JobQueue}
use mitra.Jobs.Queries.{job_id, started, is_chosen, chosen, due_before, get_job_batch}
use mitra.Jobs.Batch.{IsDistinct, IsFound, All-IsFound, IsDelivered, get_job_batch_lem}
use mitra.Inbox.Queue.{IncomingActivityJobData}
use mitra.Inbox.Rows.{is_incoming, find-select, total_tries, total-started}

module _ {J : Type 0} where
  -- Rows keep their identifiers.
  any-modify :
      (id : ℕ) (c : BackgroundJob J → Bool) (now : ℕ) (rows : List (BackgroundJob J))
      → any (job_id id) (modify c (started now) rows) ≡ any (job_id id) rows
  unfolding modify
  any-modify id c now [] = refl
  any-modify id c now (r ∷ rows) = ground (arith, any-modify id c now rows)

  modify-IsDistinct :
      (c : BackgroundJob J → Bool) (now : ℕ) (rows : List (BackgroundJob J))
      → IsDistinct rows
      → IsDistinct (modify c (started now) rows)
  unfolding modify
  modify-IsDistinct c now [] d = tt
  modify-IsDistinct c now (r ∷ rows) d = elim (Bool-cases (c r)) [
    | inl hit ↦ rw hit (any-modify r.id c now rows ∙ d.0, modify-IsDistinct c now rows d.1)
    | inr miss ↦ rw miss (any-modify r.id c now rows ∙ d.0, modify-IsDistinct c now rows d.1)
  ]

  any-select_none :
      (p c : BackgroundJob J → Bool) (rows : List (BackgroundJob J))
      → any p rows ≡ false
      → any p (select c rows) ≡ false
  unfolding select
  any-select_none p c [] h = refl
  any-select_none p c (r ∷ rows) h = ground (arith, any-select_none p c rows)

  started-IsDistinct :
      (c : BackgroundJob J → Bool) (now : ℕ) (rows : List (BackgroundJob J))
      → IsDistinct rows
      → IsDistinct (map (started now) (select c rows))
  unfolding select
  started-IsDistinct c now [] d = tt
  started-IsDistinct c now (r ∷ rows) d = elim (Bool-cases (c r)) [
    | inl hit ↦ rw hit (
      any-map (started now) (job_id r.id) (select c rows)
          ∙ any-select_none (job_id r.id) c rows d.0,
      started-IsDistinct c now rows d.1,
    )
    | inr miss ↦ rw miss (started-IsDistinct c now rows d.1)
  ]

  any-insert :
      (p : BackgroundJob J → Bool) (x : BackgroundJob J) (xs : List (BackgroundJob J))
      → any p (insert due_before x xs) ≡ (p x || any p xs)
  unfolding insert
  any-insert p x [] = refl
  any-insert p x (y ∷ ys) = ground (arith, any-insert p x ys)

  insert-IsDistinct :
      (x : BackgroundJob J) (xs : List (BackgroundJob J))
      → any (job_id x.id) xs ≡ false
      → IsDistinct xs
      → IsDistinct (insert due_before x xs)
  unfolding insert
  insert-IsDistinct x [] a d = (refl, tt)
  insert-IsDistinct x (y ∷ ys) a d = elim (Bool-cases (due_before x y)) [
    | inl before ↦ rw before (a, d)
    | inr after ↦
        rw after (
          later (any-insert (job_id y.id) x ys) d.0 apart,
          insert-IsDistinct x ys (ground arith) d.1,
        )
  ]
    where
      apart : (x.id == y.id) ≡ false
      apart = ground arith

      later :
          any (job_id y.id) (insert due_before x ys) ≡ ((x.id == y.id) || any (job_id y.id) ys)
          → any (job_id y.id) ys ≡ false
          → (x.id == y.id) ≡ false
          → any (job_id y.id) (insert due_before x ys) ≡ false
      later e f g = e ∙ ap (λ b. (x.id == y.id) || b) f ∙ ap (λ b. b || false) g

  sort-IsDistinct : (xs : List (BackgroundJob J)) → IsDistinct xs → IsDistinct (sort due_before xs)
  unfolding sort
  sort-IsDistinct [] d = tt
  sort-IsDistinct (x ∷ xs) d =
      insert-IsDistinct x (sort due_before xs) (any-sort due_before (job_id x.id) xs ∙ d.0)
        (sort-IsDistinct xs d.1)

  -- What holds of all rows holds of those that are started.
  module _ (P : BackgroundJob J → Type 0) (c : BackgroundJob J → Bool) (now : ℕ) where
    All-started :
        (rows : List (BackgroundJob J))
        → All P (modify c (started now) rows)
        → All P (map (started now) (select c rows))
    unfolding modify select
    All-started [] h = tt
    All-started (r ∷ rows) h = elim (Bool-cases (c r)) [
      | inl hit ↦ rw hit (first hit h.0, All-started rows h.1)
      | inr miss ↦ rw miss (All-started rows h.1)
    ]
      where
        first : c r ≡ true → P (if c r then started now r else r) → P (started now r)
        first hit p = rw hit at p

  -- A job of the queue with an incoming activity.
  pub record IsQueued (q : JobQueue J) (j : BackgroundJob J) : Type 0 where
    pub found : find (job_id j.id) (select is_incoming q.background_job) ≡ some j

  IsQueued-one :
      (q : JobQueue J) (now : ℕ) (j : BackgroundJob J)
      → IsFound q.background_job j × IsDelivered incoming_activity now j
      → IsQueued q j
  IsQueued-one q now j (found, d) = record {
    found = find-select (job_id j.id) is_incoming q.background_job j found (rw d.of_type refl);
  }

  -- A batch of incoming activities, whose jobs are queued and differ from each other.
  pub get_job_batch-IsQueued :
      (n timeout : ℕ) (q r : JobQueue J) (jobs : List (BackgroundJob J))
      → IsDistinct q.background_job
      → get_job_batch incoming_activity n timeout q ≡ (ok jobs, r)
      → All (IsQueued r) jobs × IsDistinct jobs
  unfolding get_job_batch
  get_job_batch-IsQueued n timeout q r jobs d e =
      let picked = chosen incoming_activity n timeout q in
      let after : List (BackgroundJob J) =
        modify (is_chosen picked) (started q.clock) q.background_job in
      let rows : List (BackgroundJob J) =
        map (started q.clock) (select (is_chosen picked) q.background_job) in
      let same : sort due_before rows ≡ jobs = cc in
      let left : after ≡ r.background_job = cc in
      let found : All (IsFound r.background_job) jobs =
        rw (← same, ← left)
          (All-sort due_before (IsFound after) rows (
            All-started (IsFound after) (is_chosen picked) q.clock q.background_job (
              All-IsFound after
                (modify-IsDistinct (is_chosen picked) q.clock q.background_job d)))) in
      (
        All-weaken (λ j. IsFound r.background_job j × IsDelivered incoming_activity q.clock j)
            (IsQueued r) (IsQueued-one r q.clock) jobs
            (All-both (IsFound r.background_job) (IsDelivered incoming_activity q.clock) jobs found
              (get_job_batch_lem incoming_activity n timeout q r jobs d e).2),
        rw (← same) (
            sort-IsDistinct rows
              (started-IsDistinct (is_chosen picked) q.clock q.background_job d)),
      )

module _ {J : Type 0} (from_value : J → Option (IncomingActivityJobData J)) where
  pub total-get_job_batch :
      (n timeout : ℕ) (q r : JobQueue J) (jobs : List (BackgroundJob J))
      → get_job_batch incoming_activity n timeout q ≡ (ok jobs, r)
      → total_tries from_value (select is_incoming r.background_job)
        ≡ total_tries from_value (select is_incoming q.background_job)
  unfolding get_job_batch
  total-get_job_batch n timeout q r jobs e =
      let picked = chosen incoming_activity n timeout q in
      let left : modify (is_chosen picked) (started q.clock) q.background_job ≡ r.background_job =
        cc in
      rw (← left) (total-started from_value picked q.clock q.background_job)
