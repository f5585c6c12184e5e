-- ===== src/Posts/Frame.antt =====
-- The statements of `create_post` that leave the rows of the table `post` as they are.
use mitra.Relationships.Types.{mute_type}
use mitra.Relationships.Table.{has_relationship}
use mitra.Notifications.Queries.{
  create_notification, create_reply_notification, create_repost_notification,
  create_mention_notification,
}
use mitra.Profiles.Queries.{get_profile_by_id, update_post_count, update_count}
use mitra.Posts.Queries.{get_post_author}
use mitra.Posts.Create.{
  find_conversation, find_group, create_related, notify_mentioned, is_told, tell_parent,
  tell_reposted,
}
use mitra.Posts.Related.{
  create_conversation, get_conversation, create_post_attachments, create_post_mentions,
  create_post_tags, create_post_links, create_post_emojis, create_post_poll, on_polls, polls_of,
  with_polls,
}
use mathlib.Core.Path.{subst, sym}
use mitra.Prelude.{
  ◌≡◌, refl, ◌∙◌, Bool, true, false, Option, none, some, List, ◌∷◌, [], ℕ, String, if◌then◌else◌,
  arith, ◌++◌,
}
use mitra.Prelude.Int.{ℤ}
use mitra.Database.{Query, Result, ok, err, panicked, ◌>>=◌, lift, ensure, DatabaseError, pure}
use mitra.Database.Triples.{Ensures, Ensures-bind, Ensures-weaken}
use mitra.Posts.Types.{Conversation, PostCreateData, Post, PostContext, top, reply, repost}
use mitra.Profiles.Types.{DbActorProfile}
use mitra.Notifications.Types.{EventType}
use mitra.Polls.Types.{PollData, Polls}
use mitra.Polls.Queries.{create_poll}
use mitra.Schema.{Tables}

abbrev pub Keeps : {A : Type 0} → Query Tables A → Type 0
Keeps m = (t : Tables) → Ensures (λ _ t'. t'.post ≡ t.post) (m t)

module _ {A B : Type 0} where
  pub Keeps-bind :
      (m : Query Tables A) (f : A → Query Tables B)
      → Keeps m
      → ((a : A) → Keeps (f a))
      → Keeps (m >>= f)
  Keeps-bind m f h k t =
      Ensures-bind (λ _ t'. t'.post ≡ t.post) (λ _ t'. t'.post ≡ t.post) f m t (h t)
        (λ a s e. Ensures-weaken _ _ (f a s) (λ b s' e'. e' ∙ e) (k a s))

module _ {A : Type 0} where
  pub Keeps-lift : (r : Result A) → Keeps (lift r)
  Keeps-lift (ok a) t = refl
  Keeps-lift (err e) t = tt
  Keeps-lift (panicked m) t = tt

  pub Keeps-if : (b : Bool) (m n : Query Tables A) → Keeps m → Keeps n → Keeps (if b then m else n)
  Keeps-if true m n h k = h
  Keeps-if false m n h k = k

  -- What is known of the rows is known afterwards.
  pub framed :
      (J : List Post → Type 0) (m : Query Tables A) (t : Tables)
      → Keeps m
      → J t.post
      → Ensures (λ _ t'. J t'.post) (m t)
  framed J m t k j = Ensures-weaken _ _ (m t) (λ a t' e. subst J (sym e) j) (k t)

pub Keeps-ensure : (b : Bool) (e : DatabaseError) → Keeps (ensure b e)
Keeps-ensure true e t = refl
Keeps-ensure false e t = tt

create_conversation-Keeps :
    (ulid root : ℕ) (group : Option ℕ) (managed : Bool) (object audience : Option String)
    → Keeps (create_conversation ulid root group managed object audience)
unfolding create_conversation
create_conversation-Keeps ulid root group managed object audience t = ground arith

get_conversation-Keeps : (id : ℕ) → Keeps (get_conversation id)
unfolding get_conversation
get_conversation-Keeps id t = Keeps-lift _ t

pub find_conversation-Keeps :
    (ulid post_id : ℕ) (object : Option String) (c : PostContext)
    → Keeps (find_conversation ulid post_id object c)
unfolding find_conversation
find_conversation-Keeps ulid post_id object (top group object_id audience) =
    Keeps-bind _ _ (create_conversation-Keeps _ _ _ _ _ _) (λ c t. refl)
find_conversation-Keeps ulid post_id object (reply c _) =
    Keeps-bind _ _ (get_conversation-Keeps c) (λ c t. refl)
find_conversation-Keeps ulid post_id object (repost _) = λ t. refl

get_profile_by_id-Keeps : (id : ℕ) → Keeps (get_profile_by_id id)
unfolding get_profile_by_id
get_profile_by_id-Keeps id t = ground arith

pub find_group-Keeps : (group : Option ℕ) → Keeps (find_group group)
unfolding find_group
find_group-Keeps none = λ t. refl
find_group-Keeps (some id) = Keeps-bind _ _ (get_profile_by_id-Keeps id) (λ p t. refl)

create_post_attachments-Keeps :
    (id author : ℕ) (ids : List ℕ) → Keeps (create_post_attachments id author ids)
unfolding create_post_attachments
create_post_attachments-Keeps id author ids =
    Keeps-bind _ _ (λ t. refl) (λ rows. Keeps-bind _ _ (Keeps-ensure _ _) (λ _ t. refl))

create_post_mentions-Keeps : (id : ℕ) (ids : List ℕ) → Keeps (create_post_mentions id ids)
unfolding create_post_mentions
create_post_mentions-Keeps id ids =
    Keeps-bind _ _ (λ t. ground arith)
      (λ profiles. Keeps-bind _ _ (Keeps-ensure _ _) (λ _. Keeps-lift _))

create_post_tags-Keeps : (id : ℕ) (tags : List String) → Keeps (create_post_tags id tags)
unfolding create_post_tags
create_post_tags-Keeps id tags =
    Keeps-bind _ _ (λ t. refl)
      (λ _.
        Keeps-bind _ _ (λ t. ground arith)
          (λ names. Keeps-bind _ _ (Keeps-ensure _ _) (λ _ t. refl)))

create_post_links-Keeps : (id : ℕ) (ids : List ℕ) → Keeps (create_post_links id ids)
unfolding create_post_links
create_post_links-Keeps id ids =
    Keeps-bind _ _ (λ t. ground arith) (λ targets. Keeps-bind _ _ (Keeps-ensure _ _) (λ _ t. refl))

create_post_emojis-Keeps : (id : ℕ) (ids : List ℕ) → Keeps (create_post_emojis id ids)
unfolding create_post_emojis
create_post_emojis-Keeps id ids =
    Keeps-bind _ _ (λ t. ground arith) (λ emojis. Keeps-bind _ _ (Keeps-ensure _ _) (λ _ t. refl))

module _ {A : Type 0} where
  on_polls-Keeps : (m : Query Polls A) → Keeps (on_polls m)
  unfolding on_polls
  on_polls-Keeps m t = let (r, p) = m (polls_of t) in Keeps-lift r (with_polls p t)

create_post_poll-Keeps : (id : ℕ) (d : Option PollData) → Keeps (create_post_poll id d)
unfolding create_post_poll
create_post_poll-Keeps id none = λ t. refl
create_post_poll-Keeps id (some d) =
    Keeps-bind (on_polls (create_poll id d)) (λ poll. pure (some poll))
      (on_polls-Keeps (create_poll id d)) (λ p t. refl)

pub create_related-Keeps :
    (c : Option Conversation) (g : Option DbActorProfile) (p : Post) (d : PostCreateData)
    → Keeps (create_related c g p d)
unfolding create_related
create_related-Keeps c g p d = Keeps-bind _ _ (create_post_attachments-Keeps _ _ _) (λ attachments.
    Keeps-bind _ _ (create_post_mentions-Keeps _ _) (λ mentions.
      Keeps-bind _ _ (create_post_tags-Keeps _ _) (λ tags.
        Keeps-bind _ _ (create_post_links-Keeps _ _) (λ links.
          Keeps-bind _ _ (create_post_emojis-Keeps _ _)
            (λ emojis. Keeps-bind _ _ (create_post_poll-Keeps _ _) (λ poll t. refl))))))

pub update_post_count-Keeps : (id : ℕ) (c : ℤ) → Keeps (update_post_count id c)
unfolding update_post_count update_count
update_post_count-Keeps id c t = ground arith

pub get_post_author-Keeps : (id : ℕ) → Keeps (get_post_author id)
unfolding get_post_author
get_post_author-Keeps id t = ground arith

-- The tail of each notification: the mute, then the row.
unless_muted-Keeps :
    (sender recipient : ℕ) (post_id : Option ℕ) (event : EventType)
    → Keeps (
        has_relationship recipient sender mute_type >>= λ muted.
        if muted then pure tt else create_notification sender recipient post_id none none event)
unfolding has_relationship create_notification
unless_muted-Keeps sender recipient post_id event = Keeps-bind _ _ (λ t. refl) written
  where
    written :
        (b : Bool)
        → Keeps
            (if b then pure tt else create_notification sender recipient post_id none none event)
    written true t = refl
    written false t = ground arith

pub create_reply_notification-Keeps : (s r p : ℕ) → Keeps (create_reply_notification s r p)
unfolding create_reply_notification
create_reply_notification-Keeps s r p = unless_muted-Keeps s r (some p) _

pub create_repost_notification-Keeps : (s r p : ℕ) → Keeps (create_repost_notification s r p)
unfolding create_repost_notification
create_repost_notification-Keeps s r p = unless_muted-Keeps s r (some p) _

create_mention_notification-Keeps : (s r p : ℕ) → Keeps (create_mention_notification s r p)
unfolding create_mention_notification
create_mention_notification-Keeps s r p = unless_muted-Keeps s r (some p) _

pub tell_parent-Keeps : (p : Post) (id : ℕ) → Keeps (tell_parent p id)
unfolding tell_parent
tell_parent-Keeps p id = Keeps-bind _ _ (get_post_author-Keeps id) (λ a.
    Keeps-if (is_told p [] a) _ _
      (Keeps-bind _ _ (create_reply_notification-Keeps _ _ _) (λ _ t. refl)) (λ t. refl))

pub tell_reposted-Keeps : (p : Post) (ns : List ℕ) (id : ℕ) → Keeps (tell_reposted p ns id)
unfolding tell_reposted
tell_reposted-Keeps p ns id = Keeps-bind _ _ (get_post_author-Keeps id) (λ a.
    Keeps-if (is_told p ns a) _ _
      (Keeps-bind _ _ (create_repost_notification-Keeps _ _ _) (λ _ t. refl)) (λ t. refl))

pub notify_mentioned-Keeps :
    (p : Post) (notified : List ℕ) (ms : List DbActorProfile)
    → Keeps (notify_mentioned p notified ms)
unfolding notify_mentioned
notify_mentioned-Keeps p notified [] = λ t. refl
notify_mentioned-Keeps p notified (m ∷ ms) =
    Keeps-if (is_told p notified m) _ _
      (Keeps-bind _ _ (create_mention_notification-Keeps _ _ _)
        (λ _. notify_mentioned-Keeps p (notified ++ m.id ∷ []) ms))
      (notify_mentioned-Keeps p notified ms)
