-- ===== src/Relationships/Helpers.antt =====
-- mitra_models/src/relationships/helpers.rs: asking for a follow, and removing a follower.
use mitra.Prelude.{ℕ, String, not, Option, none, some}
use mitra.Database.{
  Query, Result, ok, err, panicked, not_found, already_exists, pure, ensure, transaction, ◌>>=◌,
  ◌>>◌,
}
use mitra.Relationships.Types.{FollowRequest, follow_type}
use mitra.Relationships.Table.{has_relationship}
use mitra.Relationships.Requests.{
  create_follow_request_unchecked, get_follow_request_by_participants,
}
use mitra.Relationships.Queries.{follow_request_rejected, unfollow}
use mitra.Schema.{Tables}

-- The table lock has no effect on one connection.
unfoldable pub create_follow_request : ℕ → ℕ → ℕ → Query Tables FollowRequest
create_follow_request id source target = transaction (do
  is_following ← has_relationship source target follow_type
  ensure (not is_following) (already_exists "relationship")
  create_follow_request_unchecked id source target)

-- The `match` on the result of a query, whose `NotFound` is not passed on.
abbrev pub found_or_none : Result FollowRequest × Tables → Result (Option FollowRequest) × Tables
found_or_none (ok r, t) = (ok (some r), t)
found_or_none (err (not_found m), t) = (ok none, t)
found_or_none (err e, t) = (err e, t)
found_or_none (panicked m, t) = (panicked m, t)

abbrev pub reject_if_some : Option FollowRequest → Query Tables (Option String)
reject_if_some none = pure none
reject_if_some (some r) = do follow_request_rejected r.id; pure r.activity_id

unfoldable pub remove_follower : ℕ → ℕ → Query Tables (Option String)
remove_follower source target = transaction (do
  request ← λ t. found_or_none (get_follow_request_by_participants source target t)
  activity_id ← reject_if_some request
  unfollow source target
  pure activity_id)
