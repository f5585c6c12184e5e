-- ===== src/Posts/Mentions.antt =====
-- mitra_adapters/src/permissions.rs: the mentions that are kept, and the participants of a conversation
-- (mitra_models/src/posts/queries.rs).
use mitra.Prelude.{
  ℕ, zero, suc, ◌+◌, ◌*◌, Option, none, some, Bool, true, false, not, ◌&&◌, List, [], ◌∷◌, ◌++◌,
  any, find, map, length, leb, ◌==◌, if◌then◌else◌,
}
use mitra.Database.{Query, not_found, pure, lift, gets, ensure, ◌>>=◌, ◌>>◌}
use mitra.Profiles.Types.{
  DbActorProfile, is_managed, MentionPolicy, policy_none, only_known, only_contacts,
}
use mitra.Profiles.Queries.{profile_id}
use mitra.Relationships.Types.{
  RelationshipType, follow_type, subscription, RelationshipOrFollowRequest,
}
use mitra.Relationships.Table.{get_relationships}
use mitra.Relationships.Lists.{read_all}
use mitra.Polls.Queries.{is_empty}
use mitra.Posts.Types.{Post}
use mitra.Posts.Detailed.{same_id}
use mitra.Posts.Related.{profiles_of}
use mitra.Posts.Queries.{original, post_key}
use mitra.Schema.{Tables}

-- The author of a post and its parent.
abbrev Ancestor : Type 0
Ancestor = ℕ × Option ℕ

abbrev same_ancestor : Ancestor → Ancestor → Bool
same_ancestor (a, p) (b, q) = a == b && same_id p q

-- WITH RECURSIVE … UNION, where a row that is there already ends the recursion. Each round adds a pair
-- that is not there yet, so there are no more rounds than posts.
abbrev ancestors : ℕ → List Post → List Ancestor → Option ℕ → List Ancestor
ancestors n posts seen none = seen
ancestors zero posts seen (some id) = seen
ancestors (suc n) posts seen (some id) = elim (find (post_key id) posts) [
  | none ↦ seen
  | some p ↦
      let rest =
        ancestors n posts (seen ++ (p.author_id, p.in_reply_to_id) ∷ []) p.in_reply_to_id in
      if any (same_ancestor (p.author_id, p.in_reply_to_id)) seen then seen else rest
]

abbrev author_of : Ancestor → ℕ
author_of (a, p) = a

unfoldable pub participants : ℕ → Tables → List DbActorProfile
participants id t = elim (find (original id) t.post) [
  | none ↦ []
  | some p ↦ profiles_of t.actor_profile (
      map author_of
        (ancestors (length t.post) t.post ((p.author_id, p.in_reply_to_id) ∷ []) p.in_reply_to_id))
]

unfoldable pub get_conversation_participants : ℕ → Query Tables (List DbActorProfile)
unfolding participants
get_conversation_participants id = do
  rows ← gets (participants id)
  profiles ← lift (read_all rows)
  ensure (not (is_empty profiles)) (not_found "post")
  pure profiles

-- mitra_models/src/profiles/queries.rs
unfoldable pub get_profiles_by_ids : List ℕ → Query Tables (List DbActorProfile)
get_profiles_by_ids ids = do
  rows ← gets (λ t. profiles_of t.actor_profile ids)
  profiles ← lift (read_all rows)
  ensure (length profiles == length ids) (not_found "profile")
  pure profiles

abbrev pub connects : RelationshipType → Bool
connects follow_type = true
connects subscription = true
connects _ = false

unfoldable pub is_connected : ℕ → ℕ → Query Tables Bool
unfolding ◌>>=◌ get_relationships
is_connected source target = do
  relationships ← get_relationships source target
  pure (any (λ (r : RelationshipOrFollowRequest). connects r.relationship_type) relationships)

-- Minutes, in microseconds.
abbrev actor_profile_age_min : ℕ
actor_profile_age_min = 60 * 60_000_000

-- The age of the author is compared as a sum, since it may be negative.
abbrev pub old_enough : DbActorProfile → Tables → Bool
old_enough author t = leb (author.created_at + actor_profile_age_min) t.clock

-- The rest of an `||` is evaluated only if it is needed.
abbrev pub or_else : Bool → Query Tables Bool → Query Tables Bool
or_else true m = pure true
or_else false m = m

abbrev pub is_mention_allowed :
    DbActorProfile → List DbActorProfile → DbActorProfile → MentionPolicy → Query Tables Bool
is_mention_allowed author participants profile policy_none = pure true
is_mention_allowed author participants profile only_known =
    or_else (any (profile_id profile.id) participants) (do
      connected ← is_connected author.id profile.id
      or_else connected (gets (old_enough author)))
is_mention_allowed author participants profile only_contacts =
    or_else (any (profile_id profile.id) participants) (is_connected author.id profile.id)

abbrev pub keep_mentions :
    DbActorProfile → List DbActorProfile → List DbActorProfile → Query Tables (List DbActorProfile)
keep_mentions author participants [] = pure []
keep_mentions author participants (p ∷ ps) =
    let rest = keep_mentions author participants ps in
    if not (is_managed p) then (do kept ← rest; pure (p ∷ kept)) else (do
      allowed ← is_mention_allowed author participants p p.mention_policy
      kept ← rest
      pure (if allowed then p ∷ kept else kept))

abbrev pub find_participants : Option ℕ → Query Tables (List DbActorProfile)
find_participants none = pure []
find_participants (some id) = get_conversation_participants id

unfoldable pub filter_mentions :
    List ℕ → DbActorProfile → Option ℕ → Query Tables (List DbActorProfile)
unfolding ◌>>=◌ get_profiles_by_ids get_conversation_participants is_connected
filter_mentions mentions author in_reply_to_id = do
  profiles ← get_profiles_by_ids mentions
  participants ← find_participants in_reply_to_id
  keep_mentions author participants profiles
