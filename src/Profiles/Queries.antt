-- ===== src/Profiles/Queries.antt =====
-- mitra_models/src/profiles/queries.rs: the updates of a profile's counters.
use mitra.Prelude.{ℕ, Bool, none, some, find, modify, ◌==◌, if◌then◌else◌}
use mitra.Prelude.Int.{ℤ, add_count}
use mitra.Database.{Query, ok, err, type_error, client_error, not_found, Result}
use mitra.Profiles.Types.{DbActorProfile}
use mitra.Schema.{Tables}

abbrev pub profile_id : ℕ → DbActorProfile → Bool
profile_id id p = p.id == id

-- `UPDATE … SET c = c + $1 WHERE id = $2 RETURNING actor_profile`: the column is an INTEGER that is
-- checked to be at least 0, and reading the row back checks its consistency.
module _ (count : DbActorProfile → ℕ) (put : ℕ → DbActorProfile → DbActorProfile) where
  unfoldable pub update_count : ℕ → ℤ → Query Tables DbActorProfile
  update_count id change t = elim (find (profile_id id) t.actor_profile) [
    | none ↦ (err (not_found "profile"), t)
    | some p ↦ elim (add_count (count p) change) [
      | none ↦ (err client_error, t)
      | some n ↦
          if p.consistent
          then (
            ok (put n p),
            record t { actor_profile = modify (profile_id id) (put n) t.actor_profile },
          )
          else (
            err type_error,
            record t { actor_profile = modify (profile_id id) (put n) t.actor_profile },
          )
    ]
  ]

abbrev pub with_followers : ℕ → DbActorProfile → DbActorProfile
with_followers n p = record p { follower_count = n }

abbrev pub with_following : ℕ → DbActorProfile → DbActorProfile
with_following n p = record p { following_count = n }

abbrev pub with_subscribers : ℕ → DbActorProfile → DbActorProfile
with_subscribers n p = record p { subscriber_count = n }

unfoldable pub update_follower_count : ℕ → ℤ → Query Tables DbActorProfile
update_follower_count = update_count (λ p. p.follower_count) with_followers

unfoldable pub update_following_count : ℕ → ℤ → Query Tables DbActorProfile
update_following_count = update_count (λ p. p.following_count) with_following

unfoldable pub update_subscriber_count : ℕ → ℤ → Query Tables DbActorProfile
update_subscriber_count = update_count (λ p. p.subscriber_count) with_subscribers

abbrev pub with_posts : ℕ → DbActorProfile → DbActorProfile
with_posts n p = record p { post_count = n }

unfoldable pub update_post_count : ℕ → ℤ → Query Tables DbActorProfile
update_post_count = update_count (λ p. p.post_count) with_posts

-- Reading a row back checks its consistency.
abbrev pub read_profile : DbActorProfile → Result DbActorProfile
read_profile p = if p.consistent then ok p else err type_error

unfoldable pub get_profile_by_id : ℕ → Query Tables DbActorProfile
get_profile_by_id id t = elim (find (profile_id id) t.actor_profile) [
  | none ↦ (err (not_found "profile"), t)
  | some p ↦ (read_profile p, t)
]
