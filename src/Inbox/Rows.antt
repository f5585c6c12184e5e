-- ===== src/Inbox/Rows.antt =====
-- The rows of the queue: what is found after rows are removed, added or selected, and how many tries
-- the jobs have left.
use mitra.Prelude.{
  ℕ, ◌+◌, ◌-◌, ◌^◌, ◌≤◌, ◌≡◌, refl, ap, ◌∙◌, Bool, true, false, Option, none, some, List, [], ◌∷◌,
  ◌++◌, find, select, remove, modify, ◌==◌, if◌then◌else◌, Bool-cases, inl, inr, arith,
}
use mitra.Jobs.Types.{incoming_activity, job_type_eq, BackgroundJob}
use mitra.Jobs.Queries.{job_id, started, is_chosen}
use mitra.Inbox.Queue.{IncomingActivityJobData}

module _ {A : Type 0} (p c : A → Bool) where
  pub find-select :
      (xs : List A) (x : A) → find p xs ≡ some x → c x ≡ true → find p (select c xs) ≡ some x
  unfolding find select
  find-select [] x e h = cc
  find-select (y ∷ xs) x e h = elim (Bool-cases (p y)) [
    | inl hit ↦
        let same : y ≡ x = ground arith in let kept : c y ≡ true = ap c same ∙ h in ground arith
    | inr miss ↦ ground (arith, find-select xs x)
  ]

  pub select-remove : (xs : List A) → select c (remove p xs) ≡ remove p (select c xs)
  unfolding select remove
  select-remove [] = refl
  select-remove (x ∷ xs) = ground (arith, select-remove xs)

  pub select-append : (xs ys : List A) → select c (xs ++ ys) ≡ select c xs ++ select c ys
  unfolding select
  select-append [] ys = refl
  select-append (x ∷ xs) ys = ground (arith, select-append xs ys)

  pub find-remove_apart :
      ((x : A) → p x ≡ true → c x ≡ false) → (xs : List A) → find p (remove c xs) ≡ find p xs
  unfolding find remove
  find-remove_apart h [] = refl
  find-remove_apart h (x ∷ xs) = ground (arith, h x, find-remove_apart h xs)

module _ {A : Type 0} (p : A → Bool) where
  pub find-append_found : (xs ys : List A) (x : A) → find p xs ≡ some x → find p (xs ++ ys) ≡ some x
  unfolding find
  find-append_found [] ys x e = cc
  find-append_found (y ∷ xs) ys x e = ground (arith, find-append_found xs ys x)

abbrev pub is_incoming : {J : Type 0} → BackgroundJob J → Bool
is_incoming j = job_type_eq j.job_type incoming_activity

-- How many times an activity may still be handled; a count that is the last of its 32 bits starts
-- again.
abbrev pub tries_left : ℕ → ℕ
tries_left failure_count = if failure_count + 1 == 2 ^ 32 then 4 else 1 + (2 - failure_count)

module _ {J : Type 0} (from_value : J → Option (IncomingActivityJobData J)) where
  abbrev pub job_tries : BackgroundJob J → ℕ
  job_tries j = elim (from_value j.job_data) [ none ↦ 0 | some d ↦ tries_left d.failure_count ]

  unfoldable pub total_tries : List (BackgroundJob J) → ℕ
  total_tries [] = 0
  total_tries (j ∷ js) = job_tries j + total_tries js

  pub total-append :
      (xs : List (BackgroundJob J)) (y : BackgroundJob J)
      → total_tries (xs ++ y ∷ []) ≡ total_tries xs + job_tries y
  unfolding total_tries
  total-append [] y = omega arith
  total-append (x ∷ xs) y = omega (arith, total-append xs y)

  total-remove-le :
      (id : ℕ) (xs : List (BackgroundJob J)) → total_tries (remove (job_id id) xs) ≤ total_tries xs
  unfolding total_tries remove
  total-remove-le id [] = omega arith
  total-remove-le id (x ∷ xs) = elim (Bool-cases (x.id == id)) [
    | inl hit ↦ rw hit (omega (arith, total-remove-le id xs))
    | inr miss ↦ rw miss (omega (arith, total-remove-le id xs))
  ]

  -- Removing a job takes its tries away.
  pub total-remove :
      (id : ℕ) (xs : List (BackgroundJob J)) (j : BackgroundJob J)
      → find (job_id id) xs ≡ some j
      → total_tries (remove (job_id id) xs) + job_tries j ≤ total_tries xs
  unfolding find total_tries remove
  total-remove id [] j e = cc
  total-remove id (x ∷ xs) j e = elim (Bool-cases (x.id == id)) [
    | inl hit ↦
        let same : some x ≡ some j = rw hit at e in
        let tries : job_tries x ≡ job_tries j = of_some x j same in
        rw hit (omega (arith, total-remove-le id xs, tries))
    | inr miss ↦ rw miss (omega (arith, total-remove id xs j (rw miss at e)))
  ]
    where
      of_some : (x j : BackgroundJob J) → some x ≡ some j → job_tries x ≡ job_tries j
      of_some x j e = let same : x ≡ j = ground arith in ap job_tries same

  -- Handing jobs out changes no data.
  pub total-started :
      (picked : List (BackgroundJob J)) (now : ℕ) (rows : List (BackgroundJob J))
      → total_tries (select is_incoming (modify (is_chosen picked) (started now) rows))
        ≡ total_tries (select is_incoming rows)
  unfolding total_tries select modify
  total-started picked now [] = refl
  total-started picked now (r ∷ rows) = elim (Bool-cases (is_chosen picked r)) [
    | inl hit ↦ elim (Bool-cases (is_incoming r)) [
      | inl ours ↦ rw (hit, ours) (omega (arith, total-started picked now rows))
      | inr foreign ↦ rw (hit, foreign) (total-started picked now rows)
    ]
    | inr miss ↦ elim (Bool-cases (is_incoming r)) [
      | inl ours ↦ rw (miss, ours) (omega (arith, total-started picked now rows))
      | inr foreign ↦ rw (miss, foreign) (total-started picked now rows)
    ]
  ]
