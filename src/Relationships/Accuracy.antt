-- ===== src/Relationships/Accuracy.antt =====
-- The counters that profiles show, and the numbers of rows, after whole operations.
use mitra.Relationships.Helpers.{remove_follower, found_or_none, reject_if_some}
use mitra.Prelude.{ℕ, refl, inl, inr, Option, none, some, find, Option-cases, String, List, [], ◌∷◌}
use mitra.Database.{pure, ◌>>=◌, ◌>>◌}
use mitra.Relationships.Types.{reject, FollowRequest, accepted}
use mitra.Relationships.Table.{insert_or_ignore}
use mitra.Relationships.Requests.{
  set_request_status, delete_request, of_participants, get_follow_request_by_participants,
}
use mitra.Relationships.Queries.{
  follow, unfollow, subscribe, subscribe_opt, unsubscribe, follow_request_accepted,
  follow_request_rejected,
}
use mitra.Relationships.Counts.{IsAccurate}
use mitra.Relationships.Figures.{
  Moves, Moves-bind, Moves-pure, Apart-refl, IsQuiet, IsQuiet-Moves, IsAccurate-transaction,
  Moves-Settles, level, Settles, Moves-transaction, Settles-bind, Settles-then,
}
use mitra.Schema.{Tables}
use mitra.Relationships.Moves.{
  delete_request-IsQuiet, insert_or_ignore_other-Moves, set_request_status-IsQuiet,
}
use mitra.Relationships.Changes

-- The calls for a follow request.
module _ (F G S : ℕ → ℕ) (request : ℕ) where
  rejected_body : Moves (level F G S) (level F G S) (do
    row ← delete_request request
    insert_or_ignore row.target_id row.source_id reject
    pure tt)
  rejected_body =
      Moves-bind (level F G S) (level F G S) (level F G S) _ _
        (IsQuiet-Moves (level F G S) _ (delete_request-IsQuiet request))
        (λ row.
          Moves-bind (level F G S) (level F G S) (level F G S) _ _
            (insert_or_ignore_other-Moves (level F G S) row.target_id row.source_id reject refl
              refl)
            (λ _. Moves-pure (level F G S) tt))

  rejected : Moves (level F G S) (level F G S) (follow_request_rejected request)
  unfolding follow_request_rejected
  rejected = Moves-transaction (level F G S) (level F G S) _ rejected_body

  accepted_then_follow :
      Settles
        (level F G S)
        (do row ← set_request_status request accepted; follow row.source_id row.target_id)
  accepted_then_follow =
      Settles-bind (level F G S) (level F G S) _ _
        (IsQuiet-Moves (level F G S) _ (set_request_status-IsQuiet request accepted))
        (λ row.
          Moves-Settles (level F G S) _ _ _ _
            (Changes.follow-Moves row.source_id row.target_id F G S))

-- The statements of `remove_follower`.
looked_up-IsQuiet :
    (source target : ℕ)
    → IsQuiet (λ t. found_or_none (get_follow_request_by_participants source target t))
unfolding get_follow_request_by_participants
looked_up-IsQuiet source target = record {
  from = λ t. elim (Option-cases (find (of_participants source target) t.follow_request)) [
    | inl missing ↦ rw (missing, get_follow_request_by_participants) (Apart-refl t)
    | inr (r, found) ↦ rw (found, get_follow_request_by_participants) (Apart-refl t)
  ];
}

module _ (F G S : ℕ → ℕ) (source target : ℕ) where
  reject_if_some-Moves :
      (r : Option FollowRequest) → Moves (level F G S) (level F G S) (reject_if_some r)
  reject_if_some-Moves none = Moves-pure (level F G S) none
  reject_if_some-Moves (some r) =
      Moves-bind (level F G S) (level F G S) (level F G S) _ _ (rejected F G S r.id)
        (λ _. Moves-pure (level F G S) r.activity_id)

  unfollow-Settles : (a : Option String) → Settles (level F G S) (do unfollow source target; pure a)
  unfollow-Settles a = Settles-then (level F G S) _ _ (Changes.unfollow-Settles source target F G S)

  removed_follower : Settles (level F G S) (do
    request ← λ t. found_or_none (get_follow_request_by_participants source target t)
    activity_id ← reject_if_some request
    unfollow source target
    pure activity_id)
  removed_follower =
      Settles-bind (level F G S) (level F G S) _ _
        (IsQuiet-Moves (level F G S) _ (looked_up-IsQuiet source target))
        (λ request.
          Settles-bind (level F G S) (level F G S) _ _ (reject_if_some-Moves request)
            unfollow-Settles)

module _ (t : Tables) (h : IsAccurate t) where
  pub follow-IsAccurate : (source target : ℕ) → IsAccurate (follow source target t).1
  unfolding follow
  follow-IsAccurate source target =
      IsAccurate-transaction t _ h
        (λ F G S. Moves-Settles (level F G S) _ _ _ _ (Changes.follow_body source target F G S))

  pub unfollow-IsAccurate : (source target : ℕ) → IsAccurate (unfollow source target t).1
  unfolding unfollow
  unfollow-IsAccurate source target =
      IsAccurate-transaction t _ h (Changes.unfollow_body source target)

  pub subscribe-IsAccurate : (source target : ℕ) → IsAccurate (subscribe source target t).1
  unfolding subscribe
  subscribe-IsAccurate source target =
      IsAccurate-transaction t _ h
        (λ F G S. Moves-Settles (level F G S) _ _ _ _ (Changes.subscribe_body source target F G S))

  pub subscribe_opt-IsAccurate : (source target : ℕ) → IsAccurate (subscribe_opt source target t).1
  unfolding subscribe_opt
  subscribe_opt-IsAccurate source target =
      IsAccurate-transaction t _ h (Changes.subscribe_opt_body source target)

  pub unsubscribe-IsAccurate : (source target : ℕ) → IsAccurate (unsubscribe source target t).1
  unfolding unsubscribe
  unsubscribe-IsAccurate source target =
      IsAccurate-transaction t _ h (Changes.unsubscribe_body source target)

  pub follow_request_accepted-IsAccurate :
      (source : ℕ) → IsAccurate (follow_request_accepted source t).1
  unfolding follow_request_accepted
  follow_request_accepted-IsAccurate source =
      IsAccurate-transaction t _ h (λ F G S. accepted_then_follow F G S source)

  pub remove_follower-IsAccurate :
      (source target : ℕ) → IsAccurate (remove_follower source target t).1
  unfolding remove_follower
  remove_follower-IsAccurate source target =
      IsAccurate-transaction t _ h (λ F G S. removed_follower F G S source target)

  pub follow_request_rejected-IsAccurate :
      (source : ℕ) → IsAccurate (follow_request_rejected source t).1
  unfolding follow_request_rejected
  follow_request_rejected-IsAccurate source =
      IsAccurate-transaction t _ h
        (λ F G S. Moves-Settles (level F G S) _ _ _ _ (rejected_body F G S source))

-- The calls of the queries that change what is counted or may, with their arguments.
pub data Call : Type 0 where
  follows unfollows subscribes subscribes_opt unsubscribes removes : ℕ → ℕ → Call
  accepts rejects : ℕ → Call

-- The tables after the calls, each of which may succeed or fail.
unfoldable pub after : List Call → Tables → Tables
after [] t = t
after (follows a b ∷ calls) t = after calls (follow a b t).1
after (unfollows a b ∷ calls) t = after calls (unfollow a b t).1
after (subscribes a b ∷ calls) t = after calls (subscribe a b t).1
after (subscribes_opt a b ∷ calls) t = after calls (subscribe_opt a b t).1
after (unsubscribes a b ∷ calls) t = after calls (unsubscribe a b t).1
after (removes a b ∷ calls) t = after calls (remove_follower a b t).1
after (accepts r ∷ calls) t = after calls (follow_request_accepted r t).1
after (rejects r ∷ calls) t = after calls (follow_request_rejected r t).1

-- If the counters of all profiles are the numbers of rows and no relationship is stored twice, then
-- this is so after any calls of follow, unfollow, subscribe, subscribe_opt, unsubscribe,
-- remove_follower, follow_request_accepted and follow_request_rejected, in any order, whether each
-- of them succeeds or fails.
pub after-IsAccurate : (calls : List Call) (t : Tables) → IsAccurate t → IsAccurate (after calls t)
unfolding after
after-IsAccurate [] t h = h
after-IsAccurate (follows a b ∷ calls) t h = after-IsAccurate calls _ (follow-IsAccurate t h a b)
after-IsAccurate (unfollows a b ∷ calls) t h =
    after-IsAccurate calls _ (unfollow-IsAccurate t h a b)
after-IsAccurate (subscribes a b ∷ calls) t h =
    after-IsAccurate calls _ (subscribe-IsAccurate t h a b)
after-IsAccurate (subscribes_opt a b ∷ calls) t h =
    after-IsAccurate calls _ (subscribe_opt-IsAccurate t h a b)
after-IsAccurate (unsubscribes a b ∷ calls) t h =
    after-IsAccurate calls _ (unsubscribe-IsAccurate t h a b)
after-IsAccurate (removes a b ∷ calls) t h =
    after-IsAccurate calls _ (remove_follower-IsAccurate t h a b)
after-IsAccurate (accepts r ∷ calls) t h =
    after-IsAccurate calls _ (follow_request_accepted-IsAccurate t h r)
after-IsAccurate (rejects r ∷ calls) t h =
    after-IsAccurate calls _ (follow_request_rejected-IsAccurate t h r)
