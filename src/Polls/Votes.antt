-- ===== src/Polls/Votes.antt =====
-- mitra_models/src/polls/queries.rs: the options that a vote counts, and the rows of a vote.
use mitra.Prelude.{
  ℕ, zero, suc, ◌+◌, ◌^◌, ◌%◌, String, Bool, false, ◌&&◌, ◌||◌, Option, none, some, List, [], ◌∷◌,
  ◌++◌, any, str_eq, ◌==◌, if◌then◌else◌,
}
use mitra.Database.{Result, ok, err, not_found, panicked}
use mitra.Polls.Types.{PollResult, PollVote}

-- `vote_count += 1` on 32 bits.
abbrev pub counted : PollResult → PollResult
counted r = record r { vote_count = (r.vote_count + 1) % 2 ^ 32 }

-- `get_mut(choice_index)`: the name of the option, which is then counted.
unfoldable pub count_at : ℕ → List PollResult → Option (String × List PollResult)
count_at n [] = none
count_at zero (r ∷ rs) = some (r.option_name, counted r ∷ rs)
count_at (suc n) (r ∷ rs) = elim (count_at n rs) [ none ↦ none | some c ↦ some (c.0, r ∷ c.1) ]

-- The loop over the indices.
unfoldable pub count_choices : List ℕ → List PollResult → Result (List String × List PollResult)
unfolding count_at
count_choices [] rs = ok ([], rs)
count_choices (i ∷ is) rs = elim (count_at i rs) [
  | none ↦ err (not_found "poll option")
  | some c ↦ elim (count_choices is c.1) [
    | ok d ↦ ok (c.0 ∷ d.0, d.1)
    | err e ↦ err e
    | panicked m ↦ panicked m
  ]
]

-- `iter_mut().find(…)`, then the option is counted.
unfoldable pub count_named : String → List PollResult → Option (List PollResult)
count_named choice [] = none
count_named choice (r ∷ rs) =
    let rest = count_named choice rs in
    if str_eq r.option_name choice
    then some (counted r ∷ rs)
    else elim rest [ none ↦ none | some rs ↦ some (r ∷ rs) ]

-- The UNIQUE constraints on votes.
abbrev same_object : Option String → Option String → Bool
same_object (some a) (some b) = str_eq a b
same_object _ _ = false

abbrev pub conflicts : PollVote → PollVote → Bool
conflicts v w =
    w.id == v.id
    || same_object w.object_id v.object_id
    || w.poll_id == v.poll_id && w.voter_id == v.voter_id && str_eq w.choice v.choice

-- INSERT of several rows, unless one of them breaks a UNIQUE constraint.
unfoldable pub insert_votes : List PollVote → List PollVote → Option (List PollVote)
insert_votes [] rows = some rows
insert_votes (v ∷ vs) rows =
    let rest = insert_votes vs (rows ++ v ∷ []) in if any (conflicts v) rows then none else rest

-- The rows to insert; `ulid n` is what the call number `n` of `generate_ulid` returns.
unfoldable pub new_votes : (ℕ → ℕ) → ℕ → ℕ → List String → List PollVote
new_votes ulid poll voter [] = []
new_votes ulid poll voter (c ∷ cs) =
    record { id = ulid 0; poll_id = poll; voter_id = voter; choice = c; object_id = none }
    ∷ new_votes (λ n. ulid (suc n)) poll voter cs

-- `voter_id` of each vote, and `count(DISTINCT voter_id)`.
abbrev pub voted : ℕ → ℕ → PollVote → Bool
voted poll voter v = v.poll_id == poll && v.voter_id == voter

unfoldable pub distinct_voters : ℕ → List PollVote → ℕ
distinct_voters poll [] = 0
distinct_voters poll (v ∷ vs) =
    let rest = distinct_voters poll vs in
    if v.poll_id == poll then (if any (voted poll v.voter_id) vs then rest else suc rest) else rest
