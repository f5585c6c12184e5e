-- ===== src/Polls/Voting.antt =====
-- Votes, local and remote, one after another.
use mitra.Prelude.{ℕ, String, List, [], ◌∷◌}
use mitra.Polls.Types.{Polls}
use mitra.Polls.Invariant.{IsCounted}
use mitra.Polls.Queries.{vote, vote_one}
use mitra.Polls.Local.{vote-IsCounted}
use mitra.Polls.Remote.{vote_one-IsCounted}

-- One request to vote.
pub data Ballot : Type 0 where
  local_vote : (ℕ → ℕ) → ℕ → ℕ → List ℕ → Ballot
  remote_vote : ℕ → ℕ → ℕ → String → String → Ballot

-- The tables after some requests, of which any may fail.
unfoldable pub after_ballots : List Ballot → Polls → Polls
unfolding vote vote_one
after_ballots [] t = t
after_ballots (local_vote ulid poll voter indices ∷ bs) t =
    after_ballots bs (vote ulid poll voter indices t).1
after_ballots (remote_vote ulid poll voter choice object_id ∷ bs) t =
    after_ballots bs (vote_one ulid poll voter choice object_id t).1

-- If the names of a poll's options differ, each option shows the number of its votes (on 32 bits) and
-- the poll that of the profiles with a vote, this is so after any local and remote votes, for this poll
-- and for others, in any order, whether each succeeds or fails.
pub after_ballots-IsCounted :
    (id : ℕ) (bs : List Ballot) (t : Polls) → IsCounted id t → IsCounted id (after_ballots bs t)
unfolding after_ballots
after_ballots-IsCounted id [] t h = h
after_ballots-IsCounted id (local_vote ulid poll voter indices ∷ bs) t h =
    after_ballots-IsCounted id bs _ (vote-IsCounted id ulid poll voter indices t h)
after_ballots-IsCounted id (remote_vote ulid poll voter choice object_id ∷ bs) t h =
    after_ballots-IsCounted id bs _ (vote_one-IsCounted id ulid poll voter choice object_id t h)
