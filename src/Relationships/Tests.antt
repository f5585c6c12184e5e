-- ===== src/Relationships/Tests.antt =====
-- The theorems on relationships at concrete tables.
use mitra.Relationships.Lists.{get_followers}
use mitra.Relationships.Listed.{HasSide, length-get_followers}
use mitra.Relationships.Success.{IsCountable, followed, follow_succeeds}
use mitra.Relationships.Muting.{follow-mute}
use mitra.Prelude.{
  ℕ, ◌≡◌, ◌≤◌, refl, none, some, true, false, Bool, List, [], ◌∷◌, find, tally, arith,
  if◌then◌else◌, ◌==◌, length,
}
use mitra.Database.{ok, err, already_exists, not_found}
use mitra.Profiles.Types.{DbActorProfile, policy_none}
use mitra.Profiles.Queries.{profile_id}
use mitra.Relationships.Types.{follow_type, RelationshipOrFollowRequest, subscription, mute_type}
use mitra.Relationships.Counts.{IsAccurate}
use mitra.Relationships.Queries.{follow}
use mitra.Relationships.Accuracy.{follows, unfollows, subscribes, after, after-IsAccurate}
use mitra.Schema.{Tables, empty_tables}

abbrev profile : ℕ → DbActorProfile
profile id = record {
  id = id;
  user_id = some id;
  manually_approves_followers = false;
  follower_count = 0;
  following_count = 0;
  subscriber_count = 0;
  post_count = 0;
  actor_json = none;
  mention_policy = policy_none;
  created_at = 0;
  consistent = true;
}

abbrev two_profiles : Tables
two_profiles = record empty_tables {
  user_account = 1 ∷ 2 ∷ [];
  actor_profile = profile 1 ∷ profile 2 ∷ [];
}

follow_run : (follow 1 2 two_profiles).0 ≡ ok 1
unfolding follow mitra.Database.transaction mitra.Database.◌>>=◌
    mitra.Relationships.Table.insert_relationship mitra.Relationships.Table.delete_relationship
    mitra.Profiles.Queries.update_follower_count mitra.Profiles.Queries.update_count find
    mitra.Prelude.Int.add_count mitra.Profiles.Queries.update_following_count mitra.Prelude.modify
    mitra.Notifications.Queries.create_follow_notification mitra.Prelude.remove
follow_run = refl

no_counts :
    (id : ℕ) (p : DbActorProfile)
    → find (profile_id id) two_profiles.actor_profile ≡ some p
    → (p.follower_count ≡ 0) × (p.following_count ≡ 0) × (p.subscriber_count ≡ 0)
unfolding find
no_counts id p e = ground arith

two_profiles-IsAccurate : IsAccurate two_profiles
unfolding tally
two_profiles-IsAccurate = record {
  shows = record {
    followers = λ id p e. (no_counts id p e).0;
    following = λ id p e. (no_counts id p e).1;
    subscribers = λ id p e. (no_counts id p e).2;
  };
  unique = λ a b c. omega arith;
}

after-IsAccurate_example :
    IsAccurate
      (after (follows 1 2 ∷ subscribes 2 1 ∷ follows 2 1 ∷ unfollows 1 2 ∷ []) two_profiles)
after-IsAccurate_example =
    after-IsAccurate (follows 1 2 ∷ subscribes 2 1 ∷ follows 2 1 ∷ unfollows 1 2 ∷ []) two_profiles
      two_profiles-IsAccurate

abbrev one_follows_two : RelationshipOrFollowRequest
one_follows_two = record {
  source_id = 1;
  target_id = 2;
  relationship_type = follow_type;
  created_at = 0;
}

-- Profile 1 follows profile 2, subscribes to it, and has muted profile 2.
abbrev one_knows_two : Tables
one_knows_two = record two_profiles {
  relationship =
      record {
        id = 1;
        source_id = 1;
        target_id = 2;
        relationship_type = follow_type;
        created_at = 0;
      }
      ∷ record {
        id = 2;
        source_id = 1;
        target_id = 2;
        relationship_type = subscription;
        created_at = 0;
      }
      ∷ record {
        id = 3;
        source_id = 1;
        target_id = 2;
        relationship_type = mute_type;
        created_at = 0;
      }
      ∷ [];
  next_relationship_id = 4;
}

follow-mute_example : (follow 2 1 one_knows_two).1.notification ≡ []
follow-mute_example = follow-mute 2 1 one_knows_two refl

-- Profile 3 is remote.
abbrev remote_profile : DbActorProfile
remote_profile = record (profile 3) { user_id = none }

abbrev with_remote : Tables
with_remote = record two_profiles { actor_profile = profile 1 ∷ profile 2 ∷ remote_profile ∷ [] }

profile-IsCountable : IsCountable (λ x. x.following_count) 1 (profile 1) with_remote
unfolding find
profile-IsCountable = record { found = refl; consistent = refl; fits = omega arith }

remote-IsCountable : IsCountable (λ x. x.follower_count) 3 remote_profile with_remote
unfolding find
remote-IsCountable = record { found = refl; consistent = refl; fits = omega arith }

follow_succeeds_example :
    follow 1 3 with_remote ≡ (ok 1, followed 1 3 (profile 1) remote_profile with_remote)
follow_succeeds_example =
    follow_succeeds 1 3 (profile 1) remote_profile with_remote refl profile-IsCountable
      remote-IsCountable refl refl

-- Profile 1 follows profile 2, and both show it.
abbrev one_follower : Tables
one_follower = record two_profiles {
  actor_profile =
      record (profile 1) { following_count = 1 } ∷ record (profile 2) { follower_count = 1 } ∷ [];
  relationship =
      record {
        id = 1;
        source_id = 1;
        target_id = 2;
        relationship_type = follow_type;
        created_at = 0;
      }
      ∷ [];
  next_relationship_id = 2;
}

one_follower-IsAccurate : IsAccurate one_follower
unfolding find tally
one_follower-IsAccurate = record {
  shows = record {
    followers = λ id p e. ground arith;
    following = λ id p e. ground arith;
    subscribers = λ id p e. ground arith;
  };
  unique = λ a b c. ground arith;
}

sources : HasSide (λ r. r.source_id) one_follower.actor_profile one_follower.relationship
unfolding find
sources k e = (record (profile 1) { following_count = 1 }, ground arith, refl)

targets : HasSide (λ r. r.target_id) one_follower.actor_profile one_follower.relationship
unfolding find
targets k e = (record (profile 2) { follower_count = 1 }, ground arith, refl)

length-get_followers_example :
    (ps : List DbActorProfile) × (get_followers 2 one_follower ≡ (ok ps, one_follower))
    × (length ps ≡ 1)
unfolding find
length-get_followers_example =
    length-get_followers 2 (record (profile 2) { follower_count = 1 }) one_follower
      one_follower-IsAccurate sources refl
