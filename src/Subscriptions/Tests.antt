-- ===== src/Subscriptions/Tests.antt =====
-- The theorems on subscriptions at concrete tables.
use mitra.Prelude.{
  ℕ, ◌≡◌, ◌+◌, ◌*◌, refl, Option, none, some, Bool, true, false, List, [], ◌∷◌, find, tally, arith,
  ◌==◌, if◌then◌else◌, any, ◌↔◌, ◌≤◌, suc, ◌-◌, leb,
}
use mitra.Prelude.Int.{ℤ, pos, negsuc}
use mitra.Database.{Result, ok}
use mitra.Profiles.Types.{DbActorProfile, policy_none}
use mitra.Profiles.Queries.{profile_id}
use mitra.Relationships.Types.{subscription}
use mitra.Relationships.Counts.{IsAccurate}
use mitra.Subscriptions.Types.{Subscription}
use mitra.Subscriptions.Queries.{by_pair, subscription_id}
use mitra.Subscriptions.Payments.{
  create_or_update_subscription, create_or_update_local_subscription, validate_subscription_price,
}
use mitra.Subscriptions.Accuracy.{create_or_update_subscription-IsAccurate}
use mitra.Subscriptions.Effect.{IsPaid}
use mitra.Subscriptions.Paid.{IsAfter, IsKeyed, create_or_update_local_subscription-IsPaid}
use mitra.Subscriptions.Price.{validate_subscription_price_lem}
use mitra.Schema.{Tables, empty_tables}

abbrev profile : ℕ → ℕ → DbActorProfile
profile id subscribers = record {
  id = id;
  user_id = some id;
  manually_approves_followers = false;
  follower_count = 0;
  following_count = 0;
  subscriber_count = subscribers;
  post_count = 0;
  actor_json = none;
  mention_policy = policy_none;
  created_at = 0;
  consistent = true;
}

abbrev before : Tables
before = record empty_tables {
  clock = 5_000_000;
  user_account = 1 ∷ 2 ∷ [];
  actor_profile = profile 1 0 ∷ profile 2 0 ∷ [];
}

abbrev bought : Subscription
bought = record {
  id = 1;
  sender_id = 1;
  recipient_id = 2;
  expires_at = 15_000_000;
  updated_at = 5_000_000;
}

abbrev after : Tables
after = record before {
  actor_profile = profile 1 0 ∷ profile 2 1 ∷ [];
  relationship =
      (record {
        id = 1;
        source_id = 1;
        target_id = 2;
        relationship_type = subscription;
        created_at = 5_000_000;
      })
      ∷ [];
  next_relationship_id = 2;
  subscription = bought ∷ [];
  next_subscription_id = 2;
}

-- Dates that are out of range before the first one alone.
abbrev plus_seconds : ℕ → ℤ → Option ℕ
plus_seconds a (pos n) = some (a + n * 1_000_000)
plus_seconds a (negsuc n) = if leb (suc n * 1_000_000) a then some (a - suc n * 1_000_000) else none

adds : (a : ℕ) (n : ℤ) (b : ℕ) → plus_seconds a n ≡ some b → IsAfter a n b
adds a (pos n) b e = ground arith
adds a (negsuc n) b e = ground arith

bought_run :
    create_or_update_local_subscription plus_seconds 1 2 (pos 10) before ≡ (ok bought, after)
unfolding create_or_update_local_subscription find mitra.Database.◌>>=◌
    mitra.Subscriptions.Queries.create_subscription mitra.Database.transaction
    mitra.Subscriptions.Queries.insert_subscription mitra.Relationships.Queries.subscribe_opt
    mitra.Relationships.Table.insert_or_ignore mitra.Profiles.Queries.update_subscriber_count
    mitra.Profiles.Queries.update_count mitra.Prelude.Int.add_count mitra.Prelude.modify
bought_run = refl

before-IsKeyed : IsKeyed before
unfolding find
before-IsKeyed sender recipient s e = ground arith

create_or_update_local_subscription-IsPaid_example :
    (until : ℕ) × (until ≡ 5_000_000 + 10 * 1_000_000) × IsPaid 1 2 until 5_000_000 bought after
unfolding find
create_or_update_local_subscription-IsPaid_example =
    create_or_update_local_subscription-IsPaid plus_seconds adds 1 2 (pos 10) bought before after
      before-IsKeyed bought_run

-- The second payment extends the first.
abbrev longer : Subscription
longer = record bought { expires_at = 25_000_000 }

renewed_run : (create_or_update_local_subscription plus_seconds 1 2 (pos 10) after).0 ≡ ok longer
unfolding create_or_update_local_subscription find mitra.Database.◌>>=◌
    mitra.Subscriptions.Queries.update_subscription mitra.Database.transaction
    mitra.Subscriptions.Queries.renew_subscription mitra.Relationships.Queries.subscribe_opt
    mitra.Relationships.Table.insert_or_ignore
renewed_run = refl

-- A negative duration: a new subscription that is over before it begins.
abbrev past : Subscription
past = record bought { expires_at = 2_000_000 }

past_run : (create_or_update_local_subscription plus_seconds 1 2 (negsuc 2) before).0 ≡ ok past
unfolding create_or_update_local_subscription find mitra.Database.◌>>=◌
    mitra.Subscriptions.Queries.create_subscription mitra.Database.transaction
    mitra.Subscriptions.Queries.insert_subscription mitra.Relationships.Queries.subscribe_opt
    mitra.Relationships.Table.insert_or_ignore mitra.Profiles.Queries.update_subscriber_count
    mitra.Profiles.Queries.update_count mitra.Prelude.Int.add_count mitra.Prelude.modify
past_run = refl

no_counts :
    (id : ℕ) (p : DbActorProfile)
    → find (profile_id id) before.actor_profile ≡ some p
    → (p.follower_count ≡ 0) × (p.following_count ≡ 0) × (p.subscriber_count ≡ 0)
unfolding find
no_counts id p e = ground arith

before-IsAccurate : IsAccurate before
unfolding tally
before-IsAccurate = record {
  shows = record {
    followers = λ id p e. (no_counts id p e).0;
    following = λ id p e. (no_counts id p e).1;
    subscribers = λ id p e. (no_counts id p e).2;
  };
  unique = λ a b c. omega arith;
}

abbrev until_nine : Option ℕ → Result ℕ
until_nine e = ok 9_000_000

create_or_update_subscription-IsAccurate_example :
    IsAccurate (create_or_update_subscription 1 2 until_nine before).1
create_or_update_subscription-IsAccurate_example =
    create_or_update_subscription-IsAccurate before before-IsAccurate until_nine 1 2

validate_subscription_price_lem_example :
    (validate_subscription_price 1_000 ≡ none) ↔ (386 ≤ 1_000) × (1_000 ≤ 7_116_799_411_153)
validate_subscription_price_lem_example = validate_subscription_price_lem 1_000
