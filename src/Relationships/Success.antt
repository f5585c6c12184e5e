-- ===== src/Relationships/Success.antt =====
-- When a follow succeeds, and the tables that it then leaves.
use mitra.Prelude.Keyed.{found_other}
use mitra.Prelude.{
  ℕ, ◌+◌, ◌<◌, ◌^◌, ◌≡◌, refl, arith, true, false, not, ◌&&◌, any, find, remove, modify, ◌==◌, some,
  List, [], ◌∷◌, ◌∙◌,
}
use mitra.Prelude.Int.{pos, add_count}
use mitra.Database.{ok, already_exists, transaction, ◌>>=◌}
use mitra.Profiles.Types.{DbActorProfile, has_user_account}
use mitra.Profiles.Queries.{
  profile_id, update_count, update_follower_count, update_following_count, with_followers,
  with_following,
}
use mitra.Relationships.Types.{follow_type, reject}
use mitra.Relationships.Table.{by_key, add_row, insert_relationship, delete_relationship}
use mitra.Relationships.Queries.{follow}
use mitra.Schema.{Tables, is_profile}

-- A profile that can be loaded and counted up.
pub record IsCountable (count : DbActorProfile → ℕ) (id : ℕ) (p : DbActorProfile) (t : Tables)
    : Type 0 where
  pub found : find (profile_id id) t.actor_profile ≡ some p
  pub consistent : p.consistent ≡ true
  pub fits : count p + 1 < 2 ^ 31

add_fits : (n : ℕ) → n + 1 < 2 ^ 31 → add_count n (pos 1) ≡ some (n + 1)
unfolding add_count
add_fits n h = ground arith

counted_up :
    (count : DbActorProfile → ℕ) (put : ℕ → DbActorProfile → DbActorProfile) (id : ℕ)
    (p : DbActorProfile) (t : Tables)
    → IsCountable count id p t
    → update_count count put id (pos 1) t ≡ (
      ok (put (count p + 1) p),
      record t { actor_profile = modify (profile_id id) (put (count p + 1)) t.actor_profile },
    )
unfolding update_count
counted_up count put id p t c =
    rw (c.found, update_count, add_fits (count p) c.fits, c.consistent) refl

is_profile_found :
    (t : Tables) (id : ℕ) (p : DbActorProfile)
    → find (profile_id id) t.actor_profile ≡ some p
    → is_profile t id ≡ true
unfolding find
is_profile_found t id p e = found_any t.actor_profile e
  where
    found_any :
        (rows : List DbActorProfile)
        → find (profile_id id) rows ≡ some p
        → any (profile_id id) rows ≡ true
    found_any [] e = cc
    found_any (x ∷ rows) e = ground (arith, found_any rows)

module _ (source target : ℕ) (p q : DbActorProfile) (t : Tables) where
  abbrev pub one_more_follower : List DbActorProfile
  one_more_follower =
      modify (profile_id target) (with_followers (q.follower_count + 1)) t.actor_profile

  -- The tables with the follow row, no rejection of the target, and both counters one higher.
  abbrev pub followed : Tables
  followed = record (add_row source target follow_type t) {
    relationship =
        remove (by_key target source reject) (add_row source target follow_type t).relationship;
    actor_profile =
        modify (profile_id source) (with_following (p.following_count + 1)) one_more_follower;
  }

  abbrev pub row_inserted : Tables
  row_inserted = record (add_row source target follow_type t) {
    relationship =
        remove (by_key target source reject) (add_row source target follow_type t).relationship;
  }

  module _ (apart : (source == target) ≡ false)
      (cp : IsCountable (λ x. x.following_count) source p t)
      (cq : IsCountable (λ x. x.follower_count) target q t) where
    source_still :
        IsCountable
          (λ x. x.following_count)
          source
          p
          (record row_inserted { actor_profile = one_more_follower })
    source_still = record {
      found =
          found_other (λ x. x.id) (with_followers (q.follower_count + 1)) (λ x. refl)
            t.actor_profile target source (ground arith)
          ∙ cp.found;
      consistent = cp.consistent;
      fits = cp.fits;
    }

    target_counted : update_follower_count target (pos 1) row_inserted ≡ (
      ok (with_followers (q.follower_count + 1) q),
      record row_inserted { actor_profile = one_more_follower },
    )
    unfolding update_follower_count
    target_counted =
        counted_up (λ x. x.follower_count) with_followers target q row_inserted
          (record { found = cq.found; consistent = cq.consistent; fits = cq.fits })

    source_counted :
        update_following_count source
          (pos 1)
          (record row_inserted { actor_profile = one_more_follower })
        ≡ (ok (with_following (p.following_count + 1) p), followed)
    unfolding update_following_count
    source_counted = counted_up (λ x. x.following_count) with_following source p _ source_still

    inserted :
        any (by_key source target follow_type) t.relationship ≡ false
        → insert_relationship (already_exists "relationship") source target follow_type t
          ≡ (ok t.next_relationship_id, add_row source target follow_type t)
    unfolding insert_relationship
    inserted fresh =
        rw
          (
            apart,
            fresh,
            is_profile_found t source p cp.found,
            is_profile_found t target q cq.found,
            insert_relationship,
          )
          refl

    -- Following another profile that is not followed yet succeeds if both profiles load, neither counter
    -- is at its 32-bit limit, and the target is remote or approves its followers itself: the new row is
    -- there, the target's rejection is not, each counter is one higher, and the rest is kept.
    pub follow_succeeds :
        any (by_key source target follow_type) t.relationship ≡ false
        → (has_user_account q && not q.manually_approves_followers) ≡ false
        → follow source target t ≡ (ok t.next_relationship_id, followed)
    unfolding follow transaction ◌>>=◌ delete_relationship
    follow_succeeds fresh silent =
        rw (inserted fresh, ◌>>=◌, delete_relationship, target_counted, source_counted, silent) refl
