-- ===== src/Polls/Updates.antt =====
-- Votes and the options of their poll, when the poll is edited.
use text.Mathlib.TextEquality.{eq_iff}
use mitra.Prelude.{
  ℕ, ◌≡◌, refl, ap, ◌∙◌, sym, String, true, false, Option, some, List, [], ◌∷◌, any, any-map, find,
  remove, All, All-weaken, str_eq, ◌==◌, Bool-cases, inl, inr, arith,
}
use mitra.Database.{Result, ok, err, panicked, lift, ◌>>=◌}
use mitra.Database.Triples.{Ensures, Ensures-bind, transaction-keeps}
use mitra.Polls.Types.{PollResult, Poll, PollData, PollVote, Polls}
use mitra.Polls.Counting.{names, holds}
use mitra.Polls.Invariant.{found_put}
use mitra.Polls.Local.{select_poll-finds}
use mitra.Polls.Queries.{
  poll_key, poll_of, put_poll, stored_count, has_option, covers, options_changed, reset,
  delete_votes, write_data, update_poll,
}

-- A vote for the poll is for one of the names.
pub record IsNamed (id : ℕ) (ns : List String) (v : PollVote) : Type 0 where
  pub named : (v.poll_id == id) ≡ true → holds v.choice ns ≡ true

-- Every vote for the poll `id` is for one of its options.
pub record AreNamed (id : ℕ) (t : Polls) : Type 0 where
  pub all :
      (p : Poll)
      → find (poll_key id) t.poll ≡ some p
      → All (IsNamed id (names p.results)) t.poll_vote

covers-holds :
    (n : String) (xs ys : List PollResult)
    → covers xs ys ≡ true
    → holds n (names ys) ≡ true
    → holds n (names xs) ≡ true
covers-holds n xs [] c h = absurd (clash h)
  where
    clash : false ≡ true → ⊥
    clash h = cc
covers-holds n xs (y ∷ ys) c h = elim (Bool-cases (str_eq y.option_name n)) [
  | inl hit ↦
      let there : any (has_option y.option_name) xs ≡ true = ground arith in
      any-map (λ (r : PollResult). r.option_name) (λ m. str_eq m n) xs
      ∙ ap (λ m. any (has_option m) xs) (sym ((eq_iff y.option_name n).0 hit))
      ∙ there
  | inr miss ↦ covers-holds n xs ys (ground arith) (ground arith)
]

-- No vote for the poll is left.
removed-IsNamed :
    (id : ℕ) (ns : List String) (vs : List PollVote)
    → All (IsNamed id ns) (remove (λ (v : PollVote). v.poll_id == id) vs)
unfolding remove
removed-IsNamed id ns [] = tt
removed-IsNamed id ns (v ∷ vs) = elim (Bool-cases (v.poll_id == id)) [
  | inl here ↦ rw here (removed-IsNamed id ns vs)
  | inr elsewhere ↦
      rw elsewhere (record { named = λ e. absurd (clash elsewhere e) }, removed-IsNamed id ns vs)
]
  where
    clash : (v.poll_id == id) ≡ false → (v.poll_id == id) ≡ true → ⊥
    clash a b = cc

module _ (id : ℕ) where
  put-AreNamed :
      (q : Poll) (u : Polls)
      → q.id ≡ id
      → All (IsNamed id (names q.results)) u.poll_vote
      → AreNamed id (put_poll q u).1
  put-AreNamed q u own h = record { all = λ p e. rw (← found_put q p id u.poll own e) h }

  write_data-AreNamed :
      (d : PollData) (u : Polls)
      → All (IsNamed id (names d.results)) u.poll_vote
      → Ensures (λ _ x. AreNamed id x) (write_data id d u)
  unfolding ◌>>=◌
  write_data-AreNamed d u h = either (stored_count d.voters_count)
    where
      either :
          (r : Result (Option ℕ))
          → Ensures (λ _ x. AreNamed id x) ((do n ← lift r; put_poll (poll_of id d n)) u)
      either (ok n) = put-AreNamed (poll_of id d n) u refl h
      either (err e) = tt
      either (panicked m) = tt

  -- If every vote for a poll is for one of its options, this is so after the poll is edited,
  -- whether the edit changes the options or not, and whether it succeeds or fails.
  pub update_poll-AreNamed :
      (d : PollData) (t : Polls) → AreNamed id t → AreNamed id (update_poll id d t).1
  unfolding update_poll
  update_poll-AreNamed d t h = transaction-keeps (AreNamed id) _ t h (
      Ensures-bind (λ p u. (u ≡ t) × (find (poll_key id) t.poll ≡ some p)) (λ _ x. AreNamed id x) _
        _ t (select_poll-finds id t)
        (λ p u (same, found). rw same (elim (Bool-cases (options_changed d p)) [
          | inl changed ↦ rw changed (
              Ensures-bind (λ _ u. All (IsNamed id (names (reset d).results)) u.poll_vote)
                (λ _ x. AreNamed id x) (λ _. write_data id (reset d)) (delete_votes id) t
                (removed-IsNamed id (names (reset d).results) t.poll_vote)
                (λ _ u c. write_data-AreNamed (reset d) u c))
          | inr kept ↦ rw kept (
              write_data-AreNamed d t (
                All-weaken (IsNamed id (names p.results)) (IsNamed id (names d.results))
                  (λ v n. record {
                    named =
                        λ e. covers-holds v.choice d.results p.results (ground arith) (n.named e);
                  })
                  t.poll_vote (h.all p found)))
        ])))
