-- ===== src/Polls/Tests.antt =====
-- The theorems on polls at concrete polls.
use mitra.Prelude.{
  ℕ, ◌≡◌, ◌↔◌, ◌+◌, refl, none, some, true, false, String, Bool, List, [], ◌∷◌, find, arith, ◌==◌,
  if◌then◌else◌,
}
use mitra.Prelude.Int.{pos}
use mitra.Database.{ok}
use mitra.Profiles.Types.{DbActorProfile, policy_none}
use mitra.Polls.Types.{new_result, Poll, PollData, Polls}
use mitra.Polls.Queries.{create_poll, update_poll, poll_key}
use mitra.Polls.Invariant.{IsCounted}
use mitra.Polls.Voting.{Ballot, local_vote, remote_vote, after_ballots, after_ballots-IsCounted}
use mitra.Polls.Validation.{validate_poll_data}
use mitra.Polls.Valid.{IsValid, validate_poll_data_lem}
use mitra.Polls.Created.{create_poll-IsCounted}
use mitra.Polls.Updates.{AreNamed, update_poll-AreNamed}

abbrev profile : ℕ → DbActorProfile
profile id = record {
  id = id;
  user_id = some id;
  manually_approves_followers = false;
  follower_count = 0;
  following_count = 0;
  subscriber_count = 0;
  post_count = 0;
  actor_json = none;
  mention_policy = policy_none;
  created_at = 0;
  consistent = true;
}

abbrev tea_or_coffee : PollData
tea_or_coffee = record {
  multiple_choices = false;
  ends_at = none;
  results = new_result "tea" ∷ new_result "coffee" ∷ [];
  voters_count = some (pos 0);
}

abbrev one_post : Polls
one_post = record {
  actor_profile = profile 1 ∷ profile 2 ∷ profile 3 ∷ [];
  post = 7 ∷ [];
  poll = [];
  poll_vote = [];
}

abbrev open_poll : Poll
open_poll = record {
  id = 7;
  multiple_choices = false;
  ends_at = none;
  results = new_result "tea" ∷ new_result "coffee" ∷ [];
  voters_count = some 0;
}

abbrev one_poll : Polls
one_poll = record one_post { poll = open_poll ∷ [] }

-- Texts that cleaning leaves as they are.
abbrev no_change : String → String
no_change s = s

create_run : create_poll 7 tea_or_coffee one_post ≡ (ok open_poll, one_poll)
unfolding create_poll mitra.Database.◌>>=◌
create_run = refl

one_poll-IsCounted : IsCounted 7 one_poll
unfolding validate_poll_data
one_poll-IsCounted =
    create_poll-IsCounted no_change 7 tea_or_coffee open_poll one_post one_poll refl
      (refl, (refl, tt)) refl refl create_run

validate_poll_data_lem_example :
    (validate_poll_data no_change tea_or_coffee ≡ none) ↔ IsValid no_change tea_or_coffee
validate_poll_data_lem_example = validate_poll_data_lem no_change tea_or_coffee

abbrev ballots : List Ballot
ballots =
    local_vote (λ n. 100 + n) 7 1 (1 ∷ [])
    ∷ remote_vote 200 7 2 "tea" "https://a.io/1"
    ∷ remote_vote 201 7 2 "coffee" "https://a.io/2"
    ∷ local_vote (λ n. 300 + n) 7 3 (1 ∷ [])
    ∷ []

after_ballots-IsCounted_example : IsCounted 7 (after_ballots ballots one_poll)
after_ballots-IsCounted_example = after_ballots-IsCounted 7 ballots one_poll one_poll-IsCounted

-- The second vote of profile 2 is refused.
abbrev voted_poll : Poll
voted_poll = record open_poll {
  results =
      (record { option_name = "tea"; vote_count = 1 })
      ∷ (record { option_name = "coffee"; vote_count = 2 })
      ∷ [];
  voters_count = some 3;
}

ballots_run : find (poll_key 7) (after_ballots ballots one_poll).poll ≡ some voted_poll
unfolding find after_ballots mitra.Database.transaction mitra.Database.◌>>=◌
    mitra.Polls.Votes.count_choices mitra.Polls.Votes.insert_votes mitra.Prelude.modify
    mitra.Polls.Votes.count_named
ballots_run = refl

abbrev one_vote : Polls
one_vote = record one_poll {
  poll_vote = (record { id = 1; poll_id = 7; voter_id = 1; choice = "tea"; object_id = none }) ∷ [];
}

one_vote-AreNamed : AreNamed 7 one_vote
unfolding find
one_vote-AreNamed = record { all = λ p e. ground arith }

abbrev tea_or_water : PollData
tea_or_water = record tea_or_coffee { results = new_result "tea" ∷ new_result "water" ∷ [] }

update_poll-AreNamed_example : AreNamed 7 (update_poll 7 tea_or_water one_vote).1
update_poll-AreNamed_example = update_poll-AreNamed 7 tea_or_water one_vote one_vote-AreNamed
