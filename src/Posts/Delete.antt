-- ===== src/Posts/Delete.antt =====
-- mitra_models/src/posts/queries.rs: the deletion of posts and reposts. The foreign keys with ON DELETE
-- CASCADE are those of mitra_models/migrations/schema.sql between the tables that are modelled.
use mitra.Prelude.{
  ℕ, suc, zero, ◌-◌, String, Option, none, some, Bool, false, not, ◌&&◌, ◌||◌, List, [], ◌∷◌, ◌++◌,
  any, find, select, remove, map, length, tally, ◌==◌, ltb, if◌then◌else◌,
}
use mitra.Prelude.Int.{negsuc}
use mitra.Database.{
  Query, ok, err, client_error, type_error, not_found, ok_or, pure, lift, gets, transaction, ◌>>=◌,
  ◌>>◌,
}
use mitra.Profiles.Types.{DbActorProfile}
use mitra.Notifications.Types.{Notification}
use mitra.Polls.Types.{Poll, PollVote}
use mitra.Posts.Types.{
  Post, Conversation, MediaAttachment, PostMention, PostTag, PostLink, PostEmoji, PartialMediaInfo,
  file, link,
}
use mitra.Posts.Related.{contains, id_of}
use mitra.Posts.Queries.{original, repost_with, update_reply_count, update_repost_count}
use mitra.Schema.{Tables}

abbrev pub in_list : List ℕ → Option ℕ → Bool
in_list ids none = false
in_list ids (some id) = contains ids id

-- A reply to a post, or a repost of it.
abbrev pub follows : List ℕ → Post → Bool
follows ids p = in_list ids p.in_reply_to_id || in_list ids p.repost_of_id

abbrev pub rooted : List ℕ → Conversation → Bool
rooted ids c = contains ids c.root_id

abbrev pub in_rooted : List Conversation → List ℕ → Option ℕ → Bool
in_rooted conversations ids none = false
in_rooted conversations ids (some id) =
    any (λ (c : Conversation). c.id == id && rooted ids c) conversations

-- What goes with the deleted posts: replies, reposts and the posts of conversations that they began.
abbrev pub depends : List Conversation → List ℕ → Post → Bool
depends conversations ids p = follows ids p || in_rooted conversations ids p.conversation_id

abbrev pub is_next : (List ℕ → Post → Bool) → List ℕ → Post → Bool
is_next test ids p = test ids p && not (contains ids p.id)

-- The identifiers that are reached from some, in at most so many rounds.
unfoldable pub closure : (List ℕ → Post → Bool) → ℕ → List Post → List ℕ → List ℕ
closure test zero rows ids = ids
closure test (suc n) rows ids =
    closure test n rows (ids ++ map id_of (select (is_next test ids) rows))

abbrev pub doomed : Tables → List ℕ → List ℕ
doomed t ids = closure (depends t.conversation) (length t.post) t.post ids

abbrev pub without : List ℕ → Tables → Tables
without ids t = record t {
  post = remove (λ (p : Post). contains ids p.id) t.post;
  conversation = remove (rooted ids) t.conversation;
  media_attachment = remove (λ (a : MediaAttachment). in_list ids a.post_id) t.media_attachment;
  post_mention = remove (λ (m : PostMention). contains ids m.post_id) t.post_mention;
  post_tag = remove (λ (r : PostTag). contains ids r.post_id) t.post_tag;
  post_link =
      remove (λ (l : PostLink). contains ids l.source_id || contains ids l.target_id) t.post_link;
  post_emoji = remove (λ (r : PostEmoji). contains ids r.post_id) t.post_emoji;
  poll = remove (λ (p : Poll). contains ids p.id) t.poll;
  poll_vote = remove (λ (v : PollVote). contains ids v.poll_id) t.poll_vote;
  notification = remove (λ (n : Notification). in_list ids n.post_id) t.notification;
}

-- DELETE … RETURNING post, of one row.
unfoldable pub delete_row : (Post → Bool) → Query Tables Post
unfolding closure
delete_row test t = elim (find test t.post) [
  | none ↦ (err (not_found "post"), t)
  | some p ↦ (ok p, without (doomed t (p.id ∷ [])) t)
]

abbrev pub lower_repost_count : Post → Query Tables (Unit {0})
lower_repost_count p = do
  target ← lift (ok_or type_error p.repost_of_id)
  update_repost_count target (negsuc 0)

unfoldable pub delete_repost : ℕ → Query Tables (Unit {0})
unfolding ◌>>=◌ delete_row update_repost_count
delete_repost id = transaction (delete_row (repost_with id) >>= lower_repost_count)

-- What is left in the storage, to be deleted there.
pub record DeletionQueue : Type 0 where
  pub files : List String
  pub ipfs_objects : List String

abbrev file_name : PartialMediaInfo → Option String
file_name (file name _) = some name
file_name (link _ _) = none

abbrev present : {A : Type 0} → (A → Option String) → List A → List String
present f [] = []
present f (x ∷ xs) = elim (f x) [ none ↦ present f xs | some s ↦ s ∷ present f xs ]

-- `count(*)` of the posts by author.
abbrev pub share : List ℕ → List Post → ℕ → ℕ
share ids rows author = tally (λ (p : Post). contains ids p.id && p.author_id == author) rows

abbrev pub lowered : List ℕ → List Post → DbActorProfile → DbActorProfile
lowered ids rows a = record a { post_count = a.post_count - share ids rows a.id }

abbrev pub lower_post_counts : List ℕ → Query Tables (Unit {0})
lower_post_counts ids t =
    if any (λ (a : DbActorProfile). ltb a.post_count (share ids t.post a.id)) t.actor_profile
    then (err client_error, t)
    else (ok tt, record t { actor_profile = map (lowered ids t.post) t.actor_profile })

-- WITH RECURSIVE context: the post, its descendants and reposts.
unfoldable pub post_context : ℕ → Tables → List ℕ
unfolding closure
post_context id t =
    closure follows (length t.post) t.post (map id_of (select (λ (p : Post). p.id == id) t.post))

abbrev deleted_files : List ℕ → Tables → List String
deleted_files ids t =
    present (λ (a : MediaAttachment). file_name a.media)
      (select (λ (a : MediaAttachment). in_list ids a.post_id) t.media_attachment)

abbrev deleted_objects : List ℕ → Tables → List String
deleted_objects ids t =
    present (λ (a : MediaAttachment). a.ipfs_cid)
      (select (λ (a : MediaAttachment). in_list ids a.post_id) t.media_attachment)
    ++ present (λ (p : Post). p.ipfs_cid) (select (λ (p : Post). contains ids p.id) t.post)

abbrev pub lower_reply_count : Option ℕ → Query Tables (Unit {0})
lower_reply_count none = pure tt
lower_reply_count (some parent) = update_reply_count parent (negsuc 0)

unfoldable pub delete_post : ℕ → Query Tables DeletionQueue
unfolding ◌>>=◌ delete_row post_context update_reply_count
delete_post id = transaction (do
  posts ← gets (post_context id)
  files ← gets (deleted_files posts)
  ipfs_objects ← gets (deleted_objects posts)
  lower_post_counts posts
  p ← delete_row (original id)
  lower_reply_count p.in_reply_to_id
  pure (record { files = files; ipfs_objects = ipfs_objects }))
