-- ===== src/Polls/Invariant.antt =====
-- What a poll shows and the votes that are stored for it.
use mathlib.Core.Path.{subst}
use mitra.Prelude.{
  ℕ, ◌+◌, ◌^◌, ◌%◌, ◌≡◌, refl, ap, ◌∙◌, sym, String, true, false, Option, none, some, List, [], ◌∷◌,
  ◌++◌, any, find, modify, find-modify_ne, tally, tally-append, All-weaken, str_eq, ◌==◌, ==_iff,
  if◌then◌else◌, Bool-cases, inl, inr, arith,
}
use mitra.Database.{ok}
use mitra.Polls.Types.{PollResult, Poll, PollVote, Polls}
use mitra.Polls.Votes.{distinct_voters, new_votes, voted}
use mitra.Polls.Counting.{names, IsDistinct, Shows, AllShow, added, AreCounted}
use mitra.Polls.Ballots.{
  vote_for, tally-new_votes, AllElsewhere, tally-append_elsewhere, voters-append_elsewhere,
  voters-append_new,
}
use mitra.Polls.Queries.{poll_key, put_poll, is_empty, one_more}

-- The names of the options differ, each option shows its votes on 32 bits, and the number of voters is
-- that of the profiles with a vote.
pub record IsTallied (id : ℕ) (p : Poll) (votes : List PollVote) : Type 0 where
  pub distinct : IsDistinct (names p.results)
  pub shown : AllShow (λ m. tally (vote_for id m) votes) p.results
  pub voters : p.voters_count ≡ some (distinct_voters id votes)

-- This is so of the poll `id`, if it is stored.
pub record IsCounted (id : ℕ) (t : Polls) : Type 0 where
  pub tallied : (p : Poll) → find (poll_key id) t.poll ≡ some p → IsTallied id p t.poll_vote

pub found_put :
    (q p : Poll) (id : ℕ) (ps : List Poll)
    → q.id ≡ id
    → find (poll_key id) (modify (poll_key q.id) (λ _. q) ps) ≡ some p
    → q ≡ p
unfolding find modify
found_put q p id [] a e = cc
found_put q p id (x ∷ ps) a e = elim (Bool-cases (x.id == q.id)) [
  | inl hit ↦ let own : (q.id == id) ≡ true = (==_iff q.id id).1 a in ground arith
  | inr miss ↦
      let other : (x.id == id) ≡ false = ground arith in found_put q p id ps a (ground arith)
]

-- Writing one poll.
pub put-IsCounted :
    (id : ℕ) (q : Poll) (u : Polls)
    → ((q.id == id) ≡ true → IsTallied id q u.poll_vote)
    → ((q.id == id) ≡ false → IsCounted id u)
    → IsCounted id (put_poll q u).1
put-IsCounted id q u here there = elim (Bool-cases (q.id == id)) [
  | inl own ↦ record {
    tallied = λ p e.
        subst (λ x. IsTallied id x u.poll_vote) (found_put q p id u.poll ((==_iff q.id id).0 own) e)
          (here own);
  }
  | inr other ↦ record {
    tallied = λ p e. (there other).tallied p (
        sym (
          find-modify_ne (poll_key q.id) (poll_key id) (λ _. q) (λ x h. (ground arith, other))
            u.poll)
        ∙ e);
  }
]

-- Votes for another poll.
pub elsewhere-IsCounted :
    (id : ℕ) (t u : Polls) (vs : List PollVote)
    → AllElsewhere id vs
    → u.poll ≡ t.poll
    → u.poll_vote ≡ t.poll_vote ++ vs
    → IsCounted id t
    → IsCounted id u
elsewhere-IsCounted id t u vs h same more c = record {
  tallied = λ p e. rw more (kept p (c.tallied p (rw same at e)));
}
  where
    kept : (p : Poll) → IsTallied id p t.poll_vote → IsTallied id p (t.poll_vote ++ vs)
    kept p b = record {
      distinct = b.distinct;
      shown =
          All-weaken (Shows (λ m. tally (vote_for id m) t.poll_vote))
            (Shows (λ m. tally (vote_for id m) (t.poll_vote ++ vs)))
            (λ r s. record {
              count =
                  s.count
                  ∙ ap (λ x. x % 2 ^ 32)
                      (sym (tally-append_elsewhere id r.option_name t.poll_vote vs h));
            })
            p.results b.shown;
      voters = b.voters ∙ ap some (sym (voters-append_elsewhere id t.poll_vote vs h));
    }

-- What is shown after some votes, if `n m` of them are for the option `m`.
shown_after :
    (id : ℕ) (votes vs : List PollVote) (n : String → ℕ) (rs : List PollResult)
    → ((m : String) → tally (vote_for id m) vs ≡ n m)
    → AllShow (λ m. tally (vote_for id m) votes + n m) rs
    → AllShow (λ m. tally (vote_for id m) (votes ++ vs)) rs
shown_after id votes vs n rs h b =
    All-weaken (Shows (λ m. tally (vote_for id m) votes + n m))
      (Shows (λ m. tally (vote_for id m) (votes ++ vs)))
      (λ r s. record {
        count =
            s.count
            ∙ ap (λ x. x % 2 ^ 32)
                (sym (
                  tally-append (vote_for id r.option_name) votes vs
                  ∙ ap (λ x. tally (vote_for id r.option_name) votes + x) (h r.option_name)));
      })
      rs b

-- The votes of one profile for the options that it chose.
pub cast-IsTallied :
    (id voter : ℕ) (ulid : ℕ → ℕ) (cs : List String) (p : Poll) (rs : List PollResult)
    (n : Option ℕ) (votes : List PollVote)
    → IsTallied id p votes
    → AreCounted (λ m. tally (vote_for id m) votes) p.results cs rs
    → any (voted id voter) votes ≡ false
    → is_empty cs ≡ false
    → one_more p.voters_count ≡ ok n
    → IsTallied id
        (record p { results = rs; voters_count = n })
        (votes ++ new_votes ulid id voter cs)
cast-IsTallied id voter ulid [] p rs n votes b c f e k = absurd (clash e)
  where
    clash : true ≡ false → ⊥
    clash e = cc
cast-IsTallied id voter ulid (c ∷ cs) p rs n votes b a f e k = record {
  distinct = rw a.kept b.distinct;
  shown =
      shown_after id votes (new_votes ulid id voter (c ∷ cs)) (λ m. tally (str_eq m) (c ∷ cs)) rs
        (λ m. tally-new_votes ulid id voter m (c ∷ cs)) a.shown;
  voters =
      rw (voters-append_new ulid id voter c cs votes f)
        (one_later p.voters_count (distinct_voters id votes) n b.voters k);
}
  where
    one_later :
        (o : Option ℕ) (d : ℕ) (n : Option ℕ) → o ≡ some d → one_more o ≡ ok n → n ≡ some (d + 1)
    one_later none d n e k = cc
    one_later (some x) d n e k = ground arith

-- One vote.
pub one-IsTallied :
    (id : ℕ) (v : PollVote) (p : Poll) (rs : List PollResult) (votes : List PollVote)
    → IsTallied id p votes
    → v.poll_id ≡ id
    → names rs ≡ names p.results
    → AllShow (added (λ m. tally (vote_for id m) votes) v.choice) rs
    → IsTallied id
        (record p { results = rs; voters_count = some (distinct_voters id (votes ++ v ∷ [])) })
        (votes ++ v ∷ [])
unfolding tally
one-IsTallied id v p rs votes b e k a = record {
  distinct = rw k b.distinct;
  shown =
      shown_after id votes (v ∷ []) (λ m. if str_eq m v.choice then 1 else 0) rs
        (λ m. ground (arith, (==_iff v.poll_id id).1 e)) a;
  voters = refl;
}
