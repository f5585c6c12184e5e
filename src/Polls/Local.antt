-- ===== src/Polls/Local.antt =====
-- Votes of the users of this server.
use mathlib.Core.Path.{subst}
use mitra.Prelude.{
  ℕ, ◌≡◌, refl, ◌∙◌, sym, String, true, false, Option, none, some, Option-cases, List, ◌++◌, any,
  find, find_passes, length, tally, ◌==◌, ==_iff, Bool-cases, inl, inr, arith,
}
use mitra.Database.{Result, ok, err, panicked, not_found, ok_or, pure, lift, ◌>>=◌}
use mitra.Database.Triples.{Ensures, Ensures-bind, transaction-keeps}
use mitra.Profiles.Types.{DbActorProfile}
use mitra.Polls.Types.{PollResult, Poll, PollVote, Polls}
use mitra.Polls.Votes.{count_choices, insert_votes, new_votes, voted}
use mitra.Polls.Counting.{AreCounted, CountedChoices, count_choices-AreCounted}
use mitra.Polls.Ballots.{vote_for, insert_votes-append, new_votes-AllElsewhere}
use mitra.Polls.Invariant.{IsTallied, IsCounted, put-IsCounted, elsewhere-IsCounted, cast-IsTallied}
use mitra.Polls.Queries.{
  poll_key, select_poll, put_poll, insert_choices, create_votes, one_more, is_empty, vote,
}

-- Reading changes nothing.
module _ {S A : Type 0} (P : A → Type 0) where
  pub Ensures-lift :
      (r : Result A) (s : S)
      → Ensures (λ a _. P a) (r, s)
      → Ensures (λ a u. (u ≡ s) × P a) (lift r s)
  Ensures-lift (ok a) s h = (refl, h)
  Ensures-lift (err e) s h = tt
  Ensures-lift (panicked m) s h = tt

pub select_poll-finds :
    (j : ℕ) (t : Polls)
    → Ensures (λ p u. (u ≡ t) × (find (poll_key j) t.poll ≡ some p)) (select_poll j t)
select_poll-finds j t =
    Ensures-lift (λ p. find (poll_key j) t.poll ≡ some p) _ t (reads (find (poll_key j) t.poll))
  where
    reads :
        (o : Option Poll) → Ensures {S = Polls} (λ p _. o ≡ some p) (ok_or (not_found "poll") o, t)
    reads none = tt
    reads (some p) = refl

-- The rows of a vote are stored, and the voter had no vote.
record IsCast (j voter : ℕ) (vs : List PollVote) (t u : Polls) : Type 0 where
  polls : u.poll ≡ t.poll
  votes : u.poll_vote ≡ t.poll_vote ++ vs
  fresh : any (voted j voter) t.poll_vote ≡ false

insert_choices-IsCast :
    (j voter : ℕ) (vs : List PollVote) (t : Polls)
    → Ensures
        (λ rows u. is_empty rows ≡ false → IsCast j voter vs t u)
        (insert_choices j voter vs t)
insert_choices-IsCast j voter vs t = elim (Bool-cases (any (voted j voter) t.poll_vote)) [
  | inl again ↦ rw again (λ e. absurd (clash e))
  | inr fresh ↦ elim (Bool-cases (any (λ (p : DbActorProfile). p.id == voter) t.actor_profile)) [
    | inr missing ↦ rw (fresh, missing) tt
    | inl there ↦ elim (Option-cases (insert_votes vs t.poll_vote)) [
      | inl conflict ↦ rw (fresh, there, conflict) tt
      | inr (rows, e) ↦
          rw (fresh, there, e)
            (λ _. record {
              polls = refl;
              votes = insert_votes-append vs t.poll_vote rows e;
              fresh = fresh;
            })
    ]
  ]
]
  where
    clash : true ≡ false → ⊥
    clash e = cc

create_votes-IsCast :
    (ulid : ℕ → ℕ) (j voter : ℕ) (cs : List String) (t : Polls)
    → Ensures
        (λ _ u. (is_empty cs ≡ false) × IsCast j voter (new_votes ulid j voter cs) t u)
        (create_votes ulid j voter cs t)
unfolding create_votes
create_votes-IsCast ulid j voter cs t = elim (Bool-cases (is_empty cs)) [
  | inl none_chosen ↦ rw (none_chosen, create_votes) tt
  | inr chosen ↦
      rw (chosen, create_votes)
        (Ensures-bind
          (λ rows u. is_empty rows ≡ false → IsCast j voter (new_votes ulid j voter cs) t u)
          (λ _ u. (false ≡ false) × IsCast j voter (new_votes ulid j voter cs) t u) _ _ t
          (insert_choices-IsCast j voter (new_votes ulid j voter cs) t)
          (λ rows u c. elim (Bool-cases (is_empty rows)) [
            | inl nothing ↦ rw nothing tt
            | inr stored ↦ elim (Bool-cases (length rows == length cs)) [
              | inl all ↦ rw (stored, all) (refl, c stored)
              | inr some_lost ↦ rw (stored, some_lost) tt
            ]
          ]))
]

module _ (id j : ℕ) (t : Polls) (p : Poll) (found : find (poll_key j) t.poll ≡ some p)
    (h : IsCounted id t) where
  is_key : (p.id == j) ≡ true
  is_key = find_passes (poll_key j) t.poll p found

  own_key : (p.id == id) ≡ true → j ≡ id
  own_key e = sym ((==_iff p.id j).0 is_key) ∙ (==_iff p.id id).0 e

  other_key : (p.id == id) ≡ false → (j == id) ≡ false
  other_key e = let k : p.id ≡ j = (==_iff p.id j).0 is_key in ground arith

  -- If the poll is the one in question, it is tallied.
  IsTallied-here : j ≡ id → IsTallied j p t.poll_vote
  IsTallied-here e =
      subst (λ x. IsTallied x p t.poll_vote) (sym e)
        (h.tallied p (subst (λ x. find (poll_key x) t.poll ≡ some p) e found))

  -- Writing the poll after its votes were stored.
  pub put_after :
      (vs : List PollVote) (rs : List PollResult) (n : Option ℕ) (u : Polls)
      → u.poll ≡ t.poll
      → u.poll_vote ≡ t.poll_vote ++ vs
      → ((j == id) ≡ false → (IsCounted id t → IsCounted id u))
      → (IsTallied j p t.poll_vote
          → IsTallied j (record p { results = rs; voters_count = n }) (t.poll_vote ++ vs))
      → IsCounted id (put_poll (record p { results = rs; voters_count = n }) u).1
  put_after vs rs n u same more elsewhere step =
      put-IsCounted id (record p { results = rs; voters_count = n }) u
        (λ own. rw more (
          subst (λ x. IsTallied x (record p { results = rs; voters_count = n }) (t.poll_vote ++ vs))
            (own_key own) (step (IsTallied-here (own_key own)))))
        (λ other. elsewhere (other_key other) h)

-- What is counted, if the poll was tallied.
abbrev Counts : ℕ → Poll → List PollVote → List String × List PollResult → Type 0
Counts j p votes c =
    IsTallied j p votes → AreCounted (λ m. tally (vote_for j m) votes) p.results c.0 c.1

Counts-choices :
    (j : ℕ) (p : Poll) (votes : List PollVote) (t : Polls)
    (r : Result (List String × List PollResult))
    → (IsTallied j p votes → CountedChoices (λ m. tally (vote_for j m) votes) p.results r)
    → Ensures (λ c _. Counts j p votes c) (r, t)
Counts-choices j p votes t (ok c) f = f
Counts-choices j p votes t (err e) f = tt
Counts-choices j p votes t (panicked m) f = tt

module _ (id : ℕ) (ulid : ℕ → ℕ) (j voter : ℕ) (is : List ℕ) (t : Polls) (h : IsCounted id t) where
  record_cast :
      (p : Poll)
      → find (poll_key j) t.poll ≡ some p
      → (c : List String × List PollResult) → Counts j p t.poll_vote c
      → (votes : List PollVote) (u : Polls)
      → (is_empty c.0 ≡ false) × IsCast j voter (new_votes ulid j voter c.0) t u
      → Ensures {A = Poll × List PollVote}
          (λ _ x. IsCounted id x)
          ((do
            voters_count ← lift (one_more p.voters_count)
            poll ← put_poll (record p { results = c.1; voters_count = voters_count })
            pure (poll, votes))
            u)
  record_cast p found c counts votes u (chosen, cast) =
      Ensures-bind (λ n x. (x ≡ u) × (one_more p.voters_count ≡ ok n)) (λ _ x. IsCounted id x) _ _ u
        (Ensures-lift (λ n. one_more p.voters_count ≡ ok n) _ u (reads (one_more p.voters_count)))
        (λ n x (same, e). rw same (
          Ensures-bind (λ _ x. IsCounted id x) (λ _ x. IsCounted id x) (λ poll. pure (poll, votes))
            (put_poll (record p { results = c.1; voters_count = n })) u
            (put_after id j t p found h (new_votes ulid j voter c.0) c.1 n u cast.polls cast.votes
              (λ other.
                elsewhere-IsCounted id t u _ (new_votes-AllElsewhere id ulid j voter c.0 other)
                  cast.polls cast.votes)
              (λ b.
                cast-IsTallied j voter ulid c.0 p c.1 n t.poll_vote b (counts b) cast.fresh chosen
                  e))
            (λ _ x k. k)))
    where
      reads : (r : Result (Option ℕ)) → Ensures {S = Polls} (λ n _. r ≡ ok n) (r, u)
      reads (ok n) = refl
      reads (err e) = tt
      reads (panicked m) = tt

  pub vote-IsCounted : IsCounted id (vote ulid j voter is t).1
  unfolding vote
  vote-IsCounted = transaction-keeps (IsCounted id) _ t h (
      Ensures-bind (λ p u. (u ≡ t) × (find (poll_key j) t.poll ≡ some p)) (λ _ x. IsCounted id x) _
        _ t (select_poll-finds j t)
        (λ p u (same, found). rw same (
          Ensures-bind (λ c u. (u ≡ t) × Counts j p t.poll_vote c) (λ _ x. IsCounted id x) _ _ t
            (Ensures-lift (Counts j p t.poll_vote) _ t (
              Counts-choices j p t.poll_vote t (count_choices is p.results) (λ b.
                count_choices-AreCounted (λ m. tally (vote_for j m) t.poll_vote) is p.results
                  b.distinct b.shown)))
            (λ c u (same, counts). rw same (
              Ensures-bind
                (λ _ u. (is_empty c.0 ≡ false) × IsCast j voter (new_votes ulid j voter c.0) t u)
                (λ _ x. IsCounted id x) _ _ t (create_votes-IsCast ulid j voter c.0 t)
                (λ votes u cast. record_cast p found c counts votes u cast))))))
