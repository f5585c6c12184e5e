-- ===== src/Polls/Remote.antt =====
-- Votes that other servers send.
use mitra.Prelude.{
  ℕ, ◌^◌, ◌≡◌, refl, String, Bool, true, false, not, ◌&&◌, ◌||◌, Option, none, some, List, [], ◌∷◌,
  ◌++◌, any, find, tally, ltb, ◌==◌, Bool-cases, inl, inr,
}
use mitra.Database.{not_found, ok_or, lift, gets, ◌>>=◌}
use mitra.Database.Triples.{Ensures, Ensures-bind, transaction-keeps}
use mitra.Profiles.Types.{DbActorProfile}
use mitra.Polls.Types.{PollResult, Poll, PollVote, Polls}
use mitra.Polls.Votes.{count_named, conflicts, voted, distinct_voters}
use mitra.Polls.Counting.{names, AllShow, added, CountedNamed, count_named-Shows}
use mitra.Polls.Ballots.{vote_for}
use mitra.Polls.Invariant.{IsTallied, IsCounted, elsewhere-IsCounted, one-IsTallied}
use mitra.Polls.Queries.{poll_key, put_poll, insert_vote, to_integer, vote_one}
use mitra.Polls.Local.{Ensures-lift, select_poll-finds, put_after}

-- The row of a remote vote is stored.
record IsCastOne (v : PollVote) (t u : Polls) : Type 0 where
  polls : u.poll ≡ t.poll
  votes : u.poll_vote ≡ t.poll_vote ++ v ∷ []

insert_vote-IsCastOne :
    (m : Bool) (v : PollVote) (t : Polls)
    → Ensures (λ inserted u. inserted ≡ true → IsCastOne v t u) (insert_vote m v t)
insert_vote-IsCastOne m v t =
    elim (Bool-cases
      (not m && any (voted v.poll_id v.voter_id) t.poll_vote || any (conflicts v) t.poll_vote)) [
        | inl refused ↦ rw refused (λ e. absurd (clash e))
        | inr fresh ↦
            elim (Bool-cases (any (λ (p : DbActorProfile). p.id == v.voter_id) t.actor_profile)) [
              | inl there ↦ rw (fresh, there) (λ _. record { polls = refl; votes = refl })
              | inr missing ↦ rw (fresh, missing) tt
            ]
      ]
  where
    clash : false ≡ true → ⊥
    clash e = cc

abbrev CountsNamed : ℕ → Poll → List PollVote → String → List PollResult → Type 0
CountsNamed j p votes choice rs =
    IsTallied j p votes
    → (names rs ≡ names p.results) × AllShow (added (λ m. tally (vote_for j m) votes) choice) rs

module _ (id ulid j voter : ℕ) (choice object_id : String) (t : Polls) (h : IsCounted id t) where
  abbrev row : PollVote
  row = record {
    id = ulid;
    poll_id = j;
    voter_id = voter;
    choice = choice;
    object_id = some object_id;
  }

  record_one :
      (p : Poll)
      → find (poll_key j) t.poll ≡ some p
      → (rs : List PollResult) → CountsNamed j p t.poll_vote choice rs
      → (u : Polls) → IsCastOne row t u
      → Ensures {A = Poll}
          (λ _ x. IsCounted id x)
          ((do
            voters ← gets (λ t. distinct_voters j t.poll_vote)
            voters_count ← lift (to_integer voters)
            put_poll (record p { results = rs; voters_count = some voters_count }))
            u)
  unfolding ◌>>=◌
  record_one p found rs counts u cast =
      elim (Bool-cases (ltb (distinct_voters j u.poll_vote) (2 ^ 31))) [
        | inl fits ↦ rw fits (
            put_after id j t p found h (row ∷ []) rs (some (distinct_voters j u.poll_vote)) u
              cast.polls cast.votes
              (λ other. elsewhere-IsCounted id t u _ (other, tt) cast.polls cast.votes)
              (λ b.
                rw cast.votes
                  (one-IsTallied j row p rs t.poll_vote b refl (counts b).0 (counts b).1)))
        | inr too_many ↦ rw too_many tt
      ]

  CountsNamed-choice :
      (p : Poll) (o : Option (List PollResult))
      → (IsTallied j p t.poll_vote
          → CountedNamed (λ m. tally (vote_for j m) t.poll_vote) p.results choice o)
      → Ensures {S = Polls}
          (λ rs _. CountsNamed j p t.poll_vote choice rs)
          (ok_or (not_found "poll option") o, t)
  CountsNamed-choice p none f = tt
  CountsNamed-choice p (some rs) f = f

  pub vote_one-IsCounted : IsCounted id (vote_one ulid j voter choice object_id t).1
  unfolding vote_one
  vote_one-IsCounted = transaction-keeps (IsCounted id) _ t h (
      Ensures-bind (λ p u. (u ≡ t) × (find (poll_key j) t.poll ≡ some p)) (λ _ x. IsCounted id x) _
        _ t (select_poll-finds j t)
        (λ p u (same, found). rw same (
          Ensures-bind (λ rs u. (u ≡ t) × CountsNamed j p t.poll_vote choice rs)
            (λ _ x. IsCounted id x) _ _ t
            (Ensures-lift (CountsNamed j p t.poll_vote choice) _ t (
              CountsNamed-choice p (count_named choice p.results) (λ b.
                count_named-Shows (λ m. tally (vote_for j m) t.poll_vote) choice p.results
                  b.distinct b.shown)))
            (λ rs u (same, counts). rw same (
              Ensures-bind (λ inserted u. inserted ≡ true → IsCastOne row t u)
                (λ _ x. IsCounted id x) _ _ t (insert_vote-IsCastOne p.multiple_choices row t)
                (λ inserted u cast. elim (Bool-cases inserted) [
                  | inl stored ↦ rw stored (record_one p found rs counts u (cast stored))
                  | inr refused ↦ rw refused tt
                ]))))))
