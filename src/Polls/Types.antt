-- ===== src/Polls/Types.antt =====
-- mitra_models/src/polls/types.rs: polls, votes, and the tables that hold them.
use mitra.Prelude.{ℕ, String, Bool, false, List, ltb, Option, none, some}
use mitra.Prelude.Int.{ℤ, pos}
use mitra.Profiles.Types.{DbActorProfile}

pub record PollResult : Type 0 where
  pub option_name : String
  pub vote_count : ℕ

-- `PollResult::new`.
abbrev pub new_result : String → PollResult
new_result option_name = record { option_name = option_name; vote_count = 0 }

-- A row of `poll`; the column `voters_count` is not negative.
pub record Poll : Type 0 where
  pub id : ℕ
  pub multiple_choices : Bool
  pub ends_at : Option ℕ
  pub results : List PollResult
  pub voters_count : Option ℕ

unfoldable pub ended : ℕ → Poll → Bool
ended now p = elim p.ends_at [ none ↦ false | some ends_at ↦ ltb ends_at now ]

pub record PollData : Type 0 where
  pub multiple_choices : Bool
  pub ends_at : Option ℕ
  pub results : List PollResult
  pub voters_count : Option ℤ

-- `From<Poll> for PollData`.
unfoldable pub data_of_poll : Poll → PollData
data_of_poll p = record {
  multiple_choices = p.multiple_choices;
  ends_at = p.ends_at;
  results = p.results;
  voters_count = elim p.voters_count [ none ↦ none | some n ↦ some (pos n) ];
}

-- A row of `poll_vote`.
pub record PollVote : Type 0 where
  pub id : ℕ
  pub poll_id : ℕ
  pub voter_id : ℕ
  pub choice : String
  pub object_id : Option String

-- The tables; `post` holds the identifiers of that table.
pub record Polls : Type 0 where
  pub actor_profile : List DbActorProfile
  pub post : List ℕ
  pub poll : List Poll
  pub poll_vote : List PollVote
