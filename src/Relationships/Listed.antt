-- ===== src/Relationships/Listed.antt =====
-- The lists of followers and of followed profiles, and the counters.
use mitra.Prelude.{
  ℕ, ◌≡◌, refl, arith, true, false, Bool, not, List, [], ◌∷◌, any, find, select, tally, length,
  ◌==◌, some, ◌∙◌, sym,
}
use mitra.Database.{ok}
use mitra.Profiles.Types.{DbActorProfile}
use mitra.Profiles.Queries.{profile_id}
use mitra.Relationships.Types.{Relationship}
use mitra.Relationships.Counts.{IsAccurate, is_follower_of, is_followed_by}
use mitra.Relationships.Lists.{joined, read_all, get_followers, get_following}
use mitra.Schema.{Tables}

-- The foreign key on one side of the rows: the profile is there, and it can be read.
abbrev pub HasSide : (Relationship → ℕ) → List DbActorProfile → List Relationship → Type 0
HasSide side profiles rows =
    (k : ℕ)
    → any (λ r. side r == k) rows ≡ true
    → (p : DbActorProfile) × (find (profile_id k) profiles ≡ some p) × (p.consistent ≡ true)

module _ (side : Relationship → ℕ) (profiles : List DbActorProfile)
    (test : Relationship → Bool) where
  here_too :
      (x : Relationship) (rows : List Relationship) → any (λ r. side r == side x) (x ∷ rows) ≡ true
  here_too x rows = ground arith

  in_tail :
      (x : Relationship) (rows : List Relationship)
      → HasSide side profiles (x ∷ rows)
      → HasSide side profiles rows
  in_tail x rows h k e = h k (ground arith)

  pub length-joined :
      (rows : List Relationship)
      → HasSide side profiles rows
      → length (joined side profiles (select test rows)) ≡ tally test rows
  unfolding select joined tally
  length-joined [] h = refl
  length-joined (x ∷ rows) h =
      let (p, found, _) = h (side x) (here_too x rows) in
      ground (arith, found, length-joined rows (in_tail x rows h))

  pub joined_consistent :
      (rows : List Relationship)
      → HasSide side profiles rows
      → any (λ (p : DbActorProfile). not p.consistent) (joined side profiles (select test rows))
        ≡ false
  unfolding select joined
  joined_consistent [] h = refl
  joined_consistent (x ∷ rows) h =
      let (p, found, c) = h (side x) (here_too x rows) in
      ground (arith, found, c, joined_consistent rows (in_tail x rows h))

-- If the counters of all profiles are the numbers of rows, no relationship is stored twice, and each
-- relationship's source is a profile that can be read, then the followers of a profile are listed,
-- the tables are kept, and the followers are as many as the profile shows.
pub length-get_followers :
    (id : ℕ) (p : DbActorProfile) (t : Tables)
    → IsAccurate t
    → HasSide (λ r. r.source_id) t.actor_profile t.relationship
    → find (profile_id id) t.actor_profile ≡ some p
    → (ps : List DbActorProfile) × (get_followers id t ≡ (ok ps, t))
      × (length ps ≡ p.follower_count)
unfolding get_followers read_all
length-get_followers id p t a h found = (
  joined (λ r. r.source_id) t.actor_profile (select (is_follower_of id) t.relationship),
  rw
      (
        joined_consistent (λ r. r.source_id) t.actor_profile (is_follower_of id) t.relationship h,
        read_all,
      )
      refl,
  length-joined (λ r. r.source_id) t.actor_profile (is_follower_of id) t.relationship h
      ∙ sym (a.shows.followers id p found),
)

-- If the counters of all profiles are the numbers of rows, no relationship is stored twice, and each
-- relationship's target is a profile that can be read, then the profiles that a profile follows are
-- listed, the tables are kept, and they are as many as the profile shows.
pub length-get_following :
    (id : ℕ) (p : DbActorProfile) (t : Tables)
    → IsAccurate t
    → HasSide (λ r. r.target_id) t.actor_profile t.relationship
    → find (profile_id id) t.actor_profile ≡ some p
    → (ps : List DbActorProfile) × (get_following id t ≡ (ok ps, t))
      × (length ps ≡ p.following_count)
unfolding get_following read_all
length-get_following id p t a h found = (
  joined (λ r. r.target_id) t.actor_profile (select (is_followed_by id) t.relationship),
  rw
      (
        joined_consistent (λ r. r.target_id) t.actor_profile (is_followed_by id) t.relationship h,
        read_all,
      )
      refl,
  length-joined (λ r. r.target_id) t.actor_profile (is_followed_by id) t.relationship h
      ∙ sym (a.shows.following id p found),
)
