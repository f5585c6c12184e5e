-- ===== src/Posts/Allowed.antt =====
-- Which mentions are kept.
use mitra.Prelude.{
  ℕ, ◌≡◌, refl, ◌∙◌, ap, Bool, true, false, not, ◌&&◌, ◌||◌, List, [], ◌∷◌, ◌++◌, Option, any, map,
  select, arith, Bool-cases, inl, inr, any-append, any-map, any-select, any-none,
}
use mitra.Database.{Query, ok, ◌>>=◌, gets}
use mitra.Profiles.Types.{
  DbActorProfile, is_managed, MentionPolicy, policy_none, only_known, only_contacts,
}
use mitra.Profiles.Queries.{profile_id}
use mitra.Relationships.Types.{Relationship, FollowRequest, RelationshipOrFollowRequest, is_pending}
use mitra.Relationships.Table.{between, of_relationship, of_request, get_relationships}
use mitra.Posts.Mentions.{
  connects, is_connected, old_enough, or_else, is_mention_allowed, keep_mentions, find_participants,
  filter_mentions, get_profiles_by_ids,
}
use mitra.Schema.{Tables}

-- One of the two follows the other or subscribes to it.
abbrev pub are_connected : ℕ → ℕ → Tables → Bool
are_connected a b t =
    any (λ (r : Relationship). between r.source_id r.target_id a b && connects r.relationship_type)
      t.relationship

abbrev pub meets :
    MentionPolicy → DbActorProfile → List DbActorProfile → DbActorProfile → Tables → Bool
meets policy_none author participants p t = true
meets only_known author participants p t =
    any (profile_id p.id) participants || are_connected author.id p.id t || old_enough author t
meets only_contacts author participants p t =
    any (profile_id p.id) participants || are_connected author.id p.id t

-- A remote profile may always be mentioned, and a local one as its policy says.
abbrev pub is_kept : DbActorProfile → List DbActorProfile → Tables → DbActorProfile → Bool
is_kept author participants t p =
    not (is_managed p) || meets p.mention_policy author participants p t

related : ℕ → ℕ → Tables → List RelationshipOrFollowRequest
related a b t =
    map of_relationship
      (select (λ (r : Relationship). between r.source_id r.target_id a b) t.relationship)
    ++ map of_request (
        select
          (λ (r : FollowRequest).
            between r.source_id r.target_id a b && is_pending r.request_status)
          t.follow_request)

abbrev has_connection : RelationshipOrFollowRequest → Bool
has_connection r = connects r.relationship_type

or_false : (b : Bool) → (b || false) ≡ b
or_false b = ground arith

any-related : (a b : ℕ) (t : Tables) → any has_connection (related a b t) ≡ are_connected a b t
unfolding related
any-related a b t =
    let rows = select (λ (r : Relationship). between r.source_id r.target_id a b) t.relationship in
    let requests =
      select
        (λ (r : FollowRequest). between r.source_id r.target_id a b && is_pending r.request_status)
        t.follow_request in
    any-append has_connection (map of_relationship rows) (map of_request requests)
    ∙ ap (λ x. x || any has_connection (map of_request requests))
        (any-map of_relationship has_connection rows
          ∙ any-select (λ r. connects r.relationship_type) _ t.relationship)
    ∙ ap (λ y. are_connected a b t || y)
        (any-map of_request has_connection requests ∙ any-none _ (λ x. refl) requests)
    ∙ or_false (are_connected a b t)

is_connected_lem : (a b : ℕ) (t : Tables) → is_connected a b t ≡ (ok (are_connected a b t), t)
unfolding is_connected get_relationships ◌>>=◌ related
is_connected_lem a b t = ap (λ c. (ok c, t)) (any-related a b t)

module _ (m : Query Tables Bool) (author : DbActorProfile) (t : Tables) where
  or_else_lem : (x c : Bool) → m t ≡ (ok c, t) → or_else x m t ≡ (ok (x || c), t)
  or_else_lem true c h = refl
  or_else_lem false c h = h

  old_else :
      (c : Bool) → or_else c (gets (old_enough author)) t ≡ (ok (c || old_enough author t), t)
  old_else true = refl
  old_else false = refl

  or_known :
      (x c : Bool)
      → m t ≡ (ok c, t)
      → or_else x (m >>= λ c. or_else c (gets (old_enough author))) t
        ≡ (ok (x || c || old_enough author t), t)
  unfolding ◌>>=◌
  or_known true c h = refl
  or_known false c h = rw h (old_else c)

module _ (author : DbActorProfile) (participants : List DbActorProfile) (t : Tables) where
  allowed_lem :
      (p : DbActorProfile) (policy : MentionPolicy)
      → is_mention_allowed author participants p policy t
        ≡ (ok (meets policy author participants p t), t)
  allowed_lem p policy_none = refl
  allowed_lem p only_known =
      or_known (is_connected author.id p.id) author t (any (profile_id p.id) participants) _
        (is_connected_lem author.id p.id t)
  allowed_lem p only_contacts =
      or_else_lem (is_connected author.id p.id) author t (any (profile_id p.id) participants) _
        (is_connected_lem author.id p.id t)

  keep_mentions_lem :
      (ps : List DbActorProfile)
      → keep_mentions author participants ps t ≡ (ok (select (is_kept author participants t) ps), t)
  unfolding select ◌>>=◌
  keep_mentions_lem [] = refl
  keep_mentions_lem (p ∷ ps) = elim (Bool-cases (is_managed p)) [
    | inl local_p ↦ rw (local_p, allowed_lem p p.mention_policy, keep_mentions_lem ps) refl
    | inr remote_p ↦ rw (remote_p, keep_mentions_lem ps) refl
  ]

-- If the mentioned profiles and the participants of the conversation are found, then the filter keeps
-- exactly these mentions, in their order: the remote profiles, and each local one whose policy is met, by
-- any author, by participants, those connected with it in either direction and authors known for an hour,
-- or by participants and those connected with it.
pub filter_mentions_lem :
    (mentions : List ℕ) (author : DbActorProfile) (parent : Option ℕ)
    (ps participants : List DbActorProfile) (t : Tables)
    → get_profiles_by_ids mentions t ≡ (ok ps, t)
    → find_participants parent t ≡ (ok participants, t)
    → filter_mentions mentions author parent t ≡ (ok (select (is_kept author participants t) ps), t)
unfolding filter_mentions ◌>>=◌
filter_mentions_lem mentions author parent ps participants t found talk =
    rw (found, talk) (keep_mentions_lem author participants t ps)
