-- ===== src/Polls/Queries.antt =====
-- mitra_models/src/polls/queries.rs
use mitra.Prelude.{
  ℕ, ◌+◌, ◌^◌, String, Bool, true, false, not, ◌&&◌, ◌||◌, Option, none, some, List, [], ◌∷◌, ◌++◌,
  any, find, select, remove, modify, map, length, ltb, str_eq, ◌==◌, if◌then◌else◌,
}
use mitra.Prelude.Int.{ℤ, pos, negsuc}
use mitra.Database.{
  Query, Result, ok, err, panicked, client_error, type_error, not_found, already_exists, ok_or,
  pure, lift, gets, throw, transaction, ◌>>=◌, ◌>>◌,
}
use mitra.Profiles.Types.{DbActorProfile}
use mitra.Relationships.Lists.{read_all}
use mitra.Polls.Types.{PollResult, Poll, PollData, PollVote, Polls}
use mitra.Polls.Votes.{
  count_choices, count_named, conflicts, insert_votes, new_votes, voted, distinct_voters,
}

abbrev pub poll_key : ℕ → Poll → Bool
poll_key id p = p.id == id

-- An INTEGER column that is not negative.
abbrev pub stored_count : Option ℤ → Result (Option ℕ)
stored_count none = ok none
stored_count (some (pos n)) = ok (some n)
stored_count (some (negsuc n)) = err client_error

abbrev pub poll_of : ℕ → PollData → Option ℕ → Poll
poll_of id d voters_count = record {
  id = id;
  multiple_choices = d.multiple_choices;
  ends_at = d.ends_at;
  results = d.results;
  voters_count = voters_count;
}

abbrev pub insert_poll : Poll → Query Polls Poll
insert_poll p t =
    if any (poll_key p.id) t.poll || not (any (λ x. x == p.id) t.post)
    then (err client_error, t)
    else (ok p, record t { poll = t.poll ++ p ∷ [] })

unfoldable pub create_poll : ℕ → PollData → Query Polls Poll
create_poll post_id d = do
  voters_count ← lift (stored_count d.voters_count)
  insert_poll (poll_of post_id d voters_count)

-- SELECT … FOR UPDATE.
abbrev pub select_poll : ℕ → Query Polls Poll
select_poll id t = (ok_or (not_found "poll") (find (poll_key id) t.poll), t)

-- UPDATE … RETURNING, on a row that is there.
abbrev pub put_poll : Poll → Query Polls Poll
put_poll p t = (ok p, record t { poll = modify (poll_key p.id) (λ _. p) t.poll })

-- The sets of the names of options are equal.
abbrev pub has_option : String → PollResult → Bool
has_option name r = str_eq r.option_name name

abbrev pub covers : List PollResult → List PollResult → Bool
covers xs ys = not (any (λ (y : PollResult). not (any (has_option y.option_name) xs)) ys)

abbrev pub bool_eq : Bool → Bool → Bool
bool_eq true b = b
bool_eq false b = not b

abbrev pub options_changed : PollData → Poll → Bool
options_changed d p =
    not (covers d.results p.results && covers p.results d.results)
    || not (bool_eq d.multiple_choices p.multiple_choices)

abbrev pub uncounted : PollResult → PollResult
uncounted r = record r { vote_count = 0 }

abbrev pub reset : PollData → PollData
reset d = record d { results = map uncounted d.results; voters_count = none }

abbrev pub delete_votes : ℕ → Query Polls (Unit {0})
delete_votes id t =
    (ok tt, record t { poll_vote = remove (λ (v : PollVote). v.poll_id == id) t.poll_vote })

abbrev pub write_data : ℕ → PollData → Query Polls Poll
write_data id d = do
  voters_count ← lift (stored_count d.voters_count)
  put_poll (poll_of id d voters_count)

unfoldable pub update_poll : ℕ → PollData → Query Polls Poll
update_poll id d = transaction (do
  poll_old ← select_poll id
  if options_changed d poll_old
      then (do delete_votes id; write_data id (reset d))
      else write_data id d)

-- INSERT … SELECT … WHERE NOT EXISTS … RETURNING.
abbrev pub insert_choices : ℕ → ℕ → List PollVote → Query Polls (List PollVote)
insert_choices poll voter rows t =
    if any (voted poll voter) t.poll_vote
    then (ok [], t)
    else if not (any (λ (p : DbActorProfile). p.id == voter) t.actor_profile)
    then (err client_error, t)
    else elim (insert_votes rows t.poll_vote) [
      | none ↦ (err client_error, t)
      | some votes ↦ (ok rows, record t { poll_vote = votes })
    ]

abbrev pub is_empty : {A : Type 0} → List A → Bool
is_empty [] = true
is_empty (x ∷ xs) = false

unfoldable pub create_votes : (ℕ → ℕ) → ℕ → ℕ → List String → Query Polls (List PollVote)
unfolding new_votes
create_votes ulid poll voter choices = if is_empty choices then throw type_error else (do
  rows ← insert_choices poll voter (new_votes ulid poll voter choices)
  if is_empty rows
      then throw (already_exists "poll vote")
      else if length rows == length choices
      then pure rows
      else lift (panicked "votes.len() == choices.len()"))

-- `voters_count + 1` in an INTEGER column, NULL for NULL.
abbrev pub one_more : Option ℕ → Result (Option ℕ)
one_more none = ok none
one_more (some n) = if ltb (n + 1) (2 ^ 31) then ok (some (n + 1)) else err client_error

-- The set of indices is a list without repetitions, in the order of its iteration.
unfoldable pub vote : (ℕ → ℕ) → ℕ → ℕ → List ℕ → Query Polls (Poll × List PollVote)
unfolding create_votes
vote ulid poll_id voter_id choices_indices = transaction (do
  poll ← select_poll poll_id
  counted ← lift (count_choices choices_indices poll.results)
  votes ← create_votes ulid poll_id voter_id counted.0
  voters_count ← lift (one_more poll.voters_count)
  poll ← put_poll (record poll { results = counted.1; voters_count = voters_count })
  pure (poll, votes))

-- INSERT … WHERE NOT EXISTS … ON CONFLICT DO NOTHING: whether a row is inserted.
abbrev pub insert_vote : Bool → PollVote → Query Polls Bool
insert_vote multiple_choices v t =
    if not multiple_choices && any (voted v.poll_id v.voter_id) t.poll_vote
      || any (conflicts v) t.poll_vote
    then (ok false, t)
    else if not (any (λ (p : DbActorProfile). p.id == v.voter_id) t.actor_profile)
    then (err client_error, t)
    else (ok true, record t { poll_vote = t.poll_vote ++ v ∷ [] })

-- A count in an INTEGER column.
abbrev pub to_integer : ℕ → Result ℕ
to_integer n = if ltb n (2 ^ 31) then ok n else err client_error

unfoldable pub vote_one : ℕ → ℕ → ℕ → String → String → Query Polls Poll
unfolding distinct_voters
vote_one ulid poll_id voter_id choice object_id = transaction (do
  poll ← select_poll poll_id
  results ← lift (ok_or (not_found "poll option") (count_named choice poll.results))
  inserted ← insert_vote poll.multiple_choices (record {
    id = ulid;
    poll_id = poll_id;
    voter_id = voter_id;
    choice = choice;
    object_id = some object_id;
  })
  if inserted
      then (do
        voters ← gets (λ t. distinct_voters poll_id t.poll_vote)
        voters_count ← lift (to_integer voters)
        put_poll (record poll { results = results; voters_count = some voters_count }))
      else throw (already_exists "poll vote"))

unfoldable pub get_voters : ℕ → Query Polls (List DbActorProfile)
get_voters id t =
    (read_all (select (λ (p : DbActorProfile). any (voted id p.id) t.poll_vote) t.actor_profile), t)

-- Each poll with the choices of the user, if there are any.
abbrev ballots : ℕ → List PollVote → List Poll → List (ℕ × List String)
ballots user votes [] = []
ballots user votes (p ∷ ps) =
    let rest = ballots user votes ps in
    if any (voted p.id user) votes
    then (p.id, map (λ (v : PollVote). v.choice) (select (voted p.id user) votes)) ∷ rest
    else rest

unfoldable pub find_votes_by_user : ℕ → List ℕ → Query Polls (List (ℕ × List String))
find_votes_by_user user_id post_ids t = (
  ok (ballots user_id t.poll_vote (select (λ (p : Poll). any (λ id. id == p.id) post_ids) t.poll)),
  t,
)
