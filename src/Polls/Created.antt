-- ===== src/Polls/Created.antt =====
-- A new poll, from its data.
use mitra.Prelude.{
  ℕ, ◌^◌, ◌%◌, ◌≡◌, refl, ap, ◌∙◌, sym, String, Bool, false, not, ◌||◌, none, some, List, [], ◌∷◌,
  ◌++◌, any, find, find_appended, tally, All, All-weaken, ◌==◌, ==_refl, Bool-cases, inl, inr,
  arith,
}
use mitra.Prelude.Int.{pos}
use mitra.Database.{ok, ◌>>=◌}
use mitra.Database.Triples.{Ensures}
use mitra.Polls.Types.{PollResult, Poll, PollData, PollVote, Polls}
use mitra.Polls.Votes.{distinct_voters}
use mitra.Polls.Counting.{Shows}
use mitra.Polls.Ballots.{vote_for}
use mitra.Polls.Invariant.{IsTallied, IsCounted}
use mitra.Polls.Validation.{validate_poll_data}
use mitra.Polls.Valid.{IsValid, validate_poll_data_lem}
use mitra.Polls.Queries.{poll_key, poll_of, insert_poll, create_poll}

-- A poll for which no vote is stored.
abbrev pub has_votes : ℕ → List PollVote → Bool
has_votes id vs = any (λ (v : PollVote). v.poll_id == id) vs

no_tally :
    (id : ℕ) (m : String) (vs : List PollVote)
    → has_votes id vs ≡ false
    → tally (vote_for id m) vs ≡ 0
unfolding tally
no_tally id m [] h = refl
no_tally id m (v ∷ vs) h = ground (arith, no_tally id m vs)

no_voters : (id : ℕ) (vs : List PollVote) → has_votes id vs ≡ false → distinct_voters id vs ≡ 0
unfolding distinct_voters
no_voters id [] h = refl
no_voters id (v ∷ vs) h = ground (arith, no_voters id vs)

zero_Shows :
    (id : ℕ) (vs : List PollVote) (r : PollResult)
    → has_votes id vs ≡ false
    → r.vote_count ≡ 0
    → Shows (λ m. tally (vote_for id m) vs) r
zero_Shows id vs r h z = record {
  count = z ∙ ap (λ x. x % 2 ^ 32) (sym (no_tally id r.option_name vs h));
}

module _ (id : ℕ) (p : Poll) (t : Polls) (own : p.id ≡ id) (b : IsTallied id p t.poll_vote) where
  appended :
      (q : Poll)
      → any (poll_key p.id) t.poll ≡ false
      → find (poll_key id) (t.poll ++ p ∷ []) ≡ some q
      → IsTallied id q t.poll_vote
  appended q absent e =
      let here : find (poll_key id) (t.poll ++ p ∷ []) ≡ some p =
        find_appended (poll_key id) t.poll p (rw own at absent) (rw own (==_refl id)) in
      let same : p ≡ q = ground (arith, here, e) in rw (← same) b

  inserted : Ensures (λ _ u. IsCounted id u) (insert_poll p t)
  inserted = elim (Bool-cases (any (poll_key p.id) t.poll || not (any (λ x. x == p.id) t.post))) [
    | inl refused ↦ rw refused tt
    | inr fine ↦ rw fine (record { tallied = λ q e. appended q (ground arith) e })
  ]

module _ (clean : String → String) where
  -- A poll that is created from valid data, with all counts zero and no voters, shows the numbers of its
  -- votes, if no votes are stored for it.
  pub create_poll-IsCounted :
      (id : ℕ) (d : PollData) (p : Poll) (t t' : Polls)
      → validate_poll_data clean d ≡ none
      → All (λ (r : PollResult). r.vote_count ≡ 0) d.results
      → d.voters_count ≡ some (pos 0)
      → has_votes id t.poll_vote ≡ false
      → create_poll id d t ≡ (ok p, t')
      → IsCounted id t'
  unfolding create_poll ◌>>=◌
  create_poll-IsCounted id d p t t' valid zeros none_voted fresh e =
      let v : IsValid clean d = (validate_poll_data_lem clean d).0 valid in
      let q : Poll = poll_of id d (some 0) in
      let b : IsTallied id q t.poll_vote = record {
        distinct = v.distinct;
        shown =
            All-weaken (λ (r : PollResult). r.vote_count ≡ 0)
              (Shows (λ m. tally (vote_for id m) t.poll_vote))
              (λ r z. zero_Shows id t.poll_vote r fresh z) d.results zeros;
        voters = ap some (sym (no_voters id t.poll_vote fresh));
      } in
      let made : Ensures (λ _ u. IsCounted id u) (create_poll id d t) =
        rw (none_voted, create_poll) (inserted id q t refl b) in
      rw e at made
