-- ===== src/Relationships/Queries.antt =====
-- mitra_models/src/relationships/queries.rs: following, subscribing, hiding and muting.
use mitra.Prelude.{ℕ, Bool, true, false, not, ◌&&◌, Option, ltb, ◌==◌, is_none}
use mitra.Prelude.Int.{pos, negsuc}
use mitra.Database.{
  Query, client_error, already_exists, not_found, pure, ensure, transaction, ◌>>=◌, ◌>>◌,
}
use mitra.Profiles.Types.{has_user_account}
use mitra.Profiles.Queries.{update_follower_count, update_following_count, update_subscriber_count}
use mitra.Notifications.Queries.{create_follow_notification}
use mitra.Relationships.Types.{
  RelationshipType, follow_type, subscription, hide_reposts_type, hide_replies_type, mute_type,
  reject, accepted,
}
use mitra.Relationships.Table.{insert_relationship, insert_or_ignore, delete_relationship}
use mitra.Relationships.Requests.{set_request_status, delete_request, delete_follow_request_opt}
use mitra.Schema.{Tables}

-- A branch with no `else`.
abbrev pub when {ℓ} : {S : Type ℓ} → Bool → Query S Unit → Query S Unit
when true m = m
when false m = pure tt

unfoldable pub create_relationship : ℕ → ℕ → RelationshipType → Query Tables (Unit {0})
create_relationship source target type = do
  insert_relationship client_error source target type
  pure tt

unfoldable pub show_reposts : ℕ → ℕ → Query Tables (Unit {0})
show_reposts source target = do delete_relationship source target hide_reposts_type; pure tt

unfoldable pub show_replies : ℕ → ℕ → Query Tables (Unit {0})
show_replies source target = do delete_relationship source target hide_replies_type; pure tt

unfoldable pub hide_reposts : ℕ → ℕ → Query Tables (Unit {0})
hide_reposts source target = do insert_or_ignore source target hide_reposts_type; pure tt

unfoldable pub hide_replies : ℕ → ℕ → Query Tables (Unit {0})
hide_replies source target = do insert_or_ignore source target hide_replies_type; pure tt

unfoldable pub follow : ℕ → ℕ → Query Tables ℕ
follow source target = transaction (do
  relationship_id ← insert_relationship (already_exists "relationship") source target follow_type
  delete_relationship target source reject
  target_profile ← update_follower_count target (pos 1)
  update_following_count source (pos 1)
  when (has_user_account target_profile && not target_profile.manually_approves_followers)
      (create_follow_notification source target)
  pure relationship_id)

-- The branch of `unfollow` for a relationship that existed.
unfoldable pub after_unfollow : ℕ → ℕ → Query Tables (Unit {0})
after_unfollow source target = do
  show_reposts source target
  show_replies source target
  update_follower_count target (negsuc 0)
  update_following_count source (negsuc 0)
  pure tt

unfoldable pub unfollow : ℕ → ℕ → Query Tables (Option (ℕ × Bool))
unfollow source target = transaction (do
  deleted_count ← delete_relationship source target follow_type
  follow_request_deleted ← delete_follow_request_opt source target
  ensure (not (deleted_count == 0 && is_none follow_request_deleted)) (not_found "relationship")
  when (ltb 0 deleted_count) (after_unfollow source target)
  pure follow_request_deleted)

unfoldable pub follow_request_accepted : ℕ → Query Tables ℕ
follow_request_accepted request =
    transaction (do row ← set_request_status request accepted; follow row.source_id row.target_id)

unfoldable pub follow_request_rejected : ℕ → Query Tables (Unit {0})
follow_request_rejected request =
    transaction (do
      row ← delete_request request
      insert_or_ignore row.target_id row.source_id reject
      pure tt)

unfoldable pub subscribe : ℕ → ℕ → Query Tables (Unit {0})
subscribe source target = transaction (do
  insert_relationship (already_exists "relationship") source target subscription
  update_subscriber_count target (pos 1)
  pure tt)

unfoldable pub subscribe_opt : ℕ → ℕ → Query Tables (Unit {0})
subscribe_opt source target = transaction (do
  inserted_count ← insert_or_ignore source target subscription
  when (ltb 0 inserted_count) (do update_subscriber_count target (pos 1); pure tt))

unfoldable pub unsubscribe : ℕ → ℕ → Query Tables (Unit {0})
unsubscribe source target = transaction (do
  deleted_count ← delete_relationship source target subscription
  ensure (not (deleted_count == 0)) (not_found "relationship")
  update_subscriber_count target (negsuc 0)
  pure tt)

unfoldable pub mute : ℕ → ℕ → Query Tables (Unit {0})
mute source target = do insert_relationship (already_exists "mute") source target mute_type; pure tt

unfoldable pub unmute : ℕ → ℕ → Query Tables (Unit {0})
unmute source target = do
  deleted_count ← delete_relationship source target mute_type
  ensure (not (deleted_count == 0)) (not_found "mute")
