-- ===== src/Polls/Ballots.antt =====
-- The rows that a vote inserts, counted by option and by voter.
use mitra.Prelude.{
  ℕ, suc, ◌+◌, ◌≡◌, refl, ap, ◌∙◌, String, Bool, false, ◌&&◌, some, List, [], ◌∷◌, ◌++◌, any, tally,
  tally-append, any-append, All, str_eq, ◌==◌, ==_refl, Bool-cases, inl, inr, arith,
}
use mitra.Polls.Types.{PollVote}
use mitra.Polls.Votes.{insert_votes, new_votes, voted, distinct_voters}

-- The votes of a poll for an option.
abbrev pub vote_for : ℕ → String → PollVote → Bool
vote_for poll name v = v.poll_id == poll && str_eq name v.choice

append_assoc :
    (xs : List PollVote) (v : PollVote) (ys : List PollVote) → (xs ++ v ∷ []) ++ ys ≡ xs ++ v ∷ ys
append_assoc [] v ys = refl
append_assoc (x ∷ xs) v ys = ap (λ zs. x ∷ zs) (append_assoc xs v ys)

pub insert_votes-append :
    (vs rows rows' : List PollVote) → insert_votes vs rows ≡ some rows' → rows' ≡ rows ++ vs
unfolding insert_votes
insert_votes-append [] rows rows' e = ground (arith, append_nil rows)
  where
    append_nil : (xs : List PollVote) → xs ++ [] ≡ xs
    append_nil [] = refl
    append_nil (x ∷ xs) = ap (λ zs. x ∷ zs) (append_nil xs)
insert_votes-append (v ∷ vs) rows rows' e =
    insert_votes-append vs (rows ++ v ∷ []) rows' (ground arith) ∙ append_assoc rows v vs

pub tally-new_votes :
    (ulid : ℕ → ℕ) (poll voter : ℕ) (m : String) (cs : List String)
    → tally (vote_for poll m) (new_votes ulid poll voter cs) ≡ tally (str_eq m) cs
unfolding tally new_votes
tally-new_votes ulid poll voter m [] = refl
tally-new_votes ulid poll voter m (c ∷ cs) =
    ground (arith, ==_refl poll, tally-new_votes (λ n. ulid (suc n)) poll voter m cs)

-- Votes for another poll.
abbrev pub AllElsewhere : ℕ → List PollVote → Type 0
AllElsewhere poll vs = All (λ (v : PollVote). (v.poll_id == poll) ≡ false) vs

pub new_votes-AllElsewhere :
    (id : ℕ) (ulid : ℕ → ℕ) (poll voter : ℕ) (cs : List String)
    → (poll == id) ≡ false
    → AllElsewhere id (new_votes ulid poll voter cs)
unfolding new_votes
new_votes-AllElsewhere id ulid poll voter [] a = tt
new_votes-AllElsewhere id ulid poll voter (c ∷ cs) a =
    (a, new_votes-AllElsewhere id (λ n. ulid (suc n)) poll voter cs a)

tally-elsewhere :
    (id : ℕ) (m : String) (vs : List PollVote) → AllElsewhere id vs → tally (vote_for id m) vs ≡ 0
unfolding tally
tally-elsewhere id m [] h = refl
tally-elsewhere id m (v ∷ vs) h = ground (arith, h.0, tally-elsewhere id m vs h.1)

pub tally-append_elsewhere :
    (id : ℕ) (m : String) (rows vs : List PollVote)
    → AllElsewhere id vs
    → tally (vote_for id m) (rows ++ vs) ≡ tally (vote_for id m) rows
tally-append_elsewhere id m rows vs h =
    omega (arith, tally-append (vote_for id m) rows vs, tally-elsewhere id m vs h)

any-elsewhere :
    (id voter : ℕ) (vs : List PollVote) → AllElsewhere id vs → any (voted id voter) vs ≡ false
any-elsewhere id voter [] h = refl
any-elsewhere id voter (v ∷ vs) h = ground (arith, h.0, any-elsewhere id voter vs h.1)

voters-elsewhere : (id : ℕ) (vs : List PollVote) → AllElsewhere id vs → distinct_voters id vs ≡ 0
unfolding distinct_voters
voters-elsewhere id [] h = refl
voters-elsewhere id (v ∷ vs) h = ground (arith, h.0, voters-elsewhere id vs h.1)

pub voters-append_elsewhere :
    (id : ℕ) (rows vs : List PollVote)
    → AllElsewhere id vs
    → distinct_voters id (rows ++ vs) ≡ distinct_voters id rows
unfolding distinct_voters
voters-append_elsewhere id [] vs h = voters-elsewhere id vs h
voters-append_elsewhere id (r ∷ rows) vs h = ground (
  arith,
  any-append (voted id r.voter_id) rows vs,
  any-elsewhere id r.voter_id vs h,
  voters-append_elsewhere id rows vs h,
)

any-new_votes :
    (ulid : ℕ → ℕ) (poll voter other : ℕ) (cs : List String)
    → (voter == other) ≡ false
    → any (voted poll other) (new_votes ulid poll voter cs) ≡ false
unfolding new_votes
any-new_votes ulid poll voter other [] a = refl
any-new_votes ulid poll voter other (c ∷ cs) a =
    ground (arith, any-new_votes (λ n. ulid (suc n)) poll voter other cs a)

voters-new_votes :
    (ulid : ℕ → ℕ) (poll voter : ℕ) (c : String) (cs : List String)
    → distinct_voters poll (new_votes ulid poll voter (c ∷ cs)) ≡ 1
unfolding distinct_voters new_votes
voters-new_votes ulid poll voter c [] = ground (arith, ==_refl poll)
voters-new_votes ulid poll voter c (d ∷ cs) =
    ground
      (arith, ==_refl poll, ==_refl voter, voters-new_votes (λ n. ulid (suc n)) poll voter d cs)

-- A voter who has not voted is one more voter.
pub voters-append_new :
    (ulid : ℕ → ℕ) (poll voter : ℕ) (c : String) (cs : List String) (rows : List PollVote)
    → any (voted poll voter) rows ≡ false
    → distinct_voters poll (rows ++ new_votes ulid poll voter (c ∷ cs))
      ≡ distinct_voters poll rows + 1
unfolding distinct_voters
voters-append_new ulid poll voter c cs [] a = voters-new_votes ulid poll voter c cs
voters-append_new ulid poll voter c cs (r ∷ rows) a = elim (Bool-cases (r.poll_id == poll)) [
  | inl here ↦
      let apart : (voter == r.voter_id) ≡ false = ground arith in
      ground (
        arith,
        any-append (voted poll r.voter_id) rows (new_votes ulid poll voter (c ∷ cs)),
        any-new_votes ulid poll voter r.voter_id (c ∷ cs) apart,
        voters-append_new ulid poll voter c cs rows,
      )
  | inr elsewhere ↦ ground (arith, voters-append_new ulid poll voter c cs rows)
]
