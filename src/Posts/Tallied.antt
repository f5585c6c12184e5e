-- ===== src/Posts/Tallied.antt =====
-- The counters of posts after a post has been created.
use mitra.Profiles.Queries.{update_post_count}
use mitra.Posts.Detailed.{new_detailed, PostDetailed}
use mitra.Prelude.{ℕ, ◌≡◌, refl, Option, List, [], ◌∷◌, ◌++◌}
use mitra.Prelude.Int.{pos}
use mitra.Database.{Query, Result, ok, err, panicked, transaction, lift, ◌>>=◌, ◌>>◌, continue}
use mitra.Database.Triples.{Ensures, Ensures-bind, transaction-keeps}
use mitra.Profiles.Types.{DbActorProfile}
use mitra.Posts.Types.{Post, Conversation, PostCreateData, check_post_data}
use mitra.Posts.Queries.{insert_post, new_post, conversation_group}
use mitra.Posts.Create.{
  create_post, find_conversation, find_group, create_related, count_reply, count_repost, notify,
  notify_mentioned, finish_post, store_post, or_new,
}
use mitra.Posts.Frame.{
  Keeps-lift, framed, find_conversation-Keeps, find_group-Keeps, create_related-Keeps,
  update_post_count-Keeps, notify_mentioned-Keeps,
}
use mitra.Posts.Counts.{IsTallied, Counted, replies, reposts}
use mitra.Posts.Inserted.{IsAdmitted, raised, inserted-Counted, Counted-IsTallied}
use mitra.Schema.{Tables}
use mitra.Posts.Raised.{
  Added, one_target, insert_post-Added, count_reply-Counted, Reposted, count_repost-Counted,
}

-- Both counters, then the mentions.
notify-IsTallied :
    (p : Post) (rows : List Post) (ms : List DbActorProfile) (t : Tables)
    → IsTallied rows
    → IsAdmitted p rows
    → t.post ≡ rows ++ p ∷ []
    → Ensures (λ _ t'. IsTallied t'.post) (notify p ms t)
unfolding notify
notify-IsTallied p rows ms t h a e =
    Ensures-bind
      (λ _ t'.
        Counted (rows ++ p ∷ []) (raised p.in_reply_to_id (replies rows)) (reposts rows) t'.post)
      (λ _ t'. IsTallied t'.post)
      (λ notified. count_repost p notified p.repost_of_id >>= λ told. notify_mentioned p told ms)
      (count_reply p p.in_reply_to_id) t
      (count_reply-Counted p (rows ++ p ∷ []) (replies rows) (reposts rows) t p.in_reply_to_id
        (rw e (inserted-Counted p rows h a)))
      (λ notified s c.
        Ensures-bind
          (λ _ t'.
            Reposted p (rows ++ p ∷ []) (raised p.in_reply_to_id (replies rows)) (reposts rows) t
              p.repost_of_id t'.post)
          (λ _ t'. IsTallied t'.post) (λ told. notify_mentioned p told ms)
          (count_repost p notified p.repost_of_id) s
          (count_repost-Counted p (rows ++ p ∷ []) (raised p.in_reply_to_id (replies rows))
            (reposts rows) s p.repost_of_id notified c)
          (λ told u r.
            framed IsTallied (notify_mentioned p told ms) u (notify_mentioned-Keeps p told ms)
              (Counted-IsTallied p rows h a r.1 u.post r.0)))

module _ (c : Option Conversation) (g : Option DbActorProfile) (d : PostCreateData) (p : Post)
    (rows : List Post) (h : IsTallied rows) (a : IsAdmitted p rows) where
  abbrev Appended : List Post → Type 0
  Appended rows' = rows' ≡ rows ++ p ∷ []

  finish_post-IsTallied :
      (t : Tables) → Appended t.post → Ensures (λ _ t'. IsTallied t'.post) (finish_post c g d p t)
  unfolding finish_post
  finish_post-IsTallied t e =
      Ensures-bind (λ _ t'. Appended t'.post) (λ _ t'. IsTallied t'.post)
        (λ related. update_post_count p.author_id (pos 1) >>= λ author.
          notify p related.mentions >> lift (new_detailed p author related))
        (create_related c g p d) t
        (framed Appended (create_related c g p d) t (create_related-Keeps c g p d) e)
        (λ related s e.
          Ensures-bind (λ _ t'. Appended t'.post) (λ _ t'. IsTallied t'.post)
            (λ author. notify p related.mentions >> lift (new_detailed p author related))
            (update_post_count p.author_id (pos 1)) s
            (framed Appended (update_post_count p.author_id (pos 1)) s
              (update_post_count-Keeps p.author_id (pos 1)) e)
            (λ author u e.
              Ensures-bind (λ _ t'. IsTallied t'.post) (λ _ t'. IsTallied t'.post)
                (λ _. lift (new_detailed p author related)) (notify p related.mentions) u
                (notify-IsTallied p rows related.mentions u h a e)
                (λ _ w k.
                  framed IsTallied (lift (new_detailed p author related)) w
                    (Keeps-lift (new_detailed p author related)) k)))

module _ (post_id ulid author_id : ℕ) (d : PostCreateData) where
  insert_and_finish :
      (c : Option Conversation) (g : Option DbActorProfile) (t : Tables)
      → IsTallied t.post
      → Ensures
          (λ _ t'. IsTallied t'.post)
          ((insert_post (new_post post_id author_id c d) >>= finish_post c g d) t)
  insert_and_finish c g t h =
      let p = new_post post_id author_id c d in
      Ensures-bind (Added p t) (λ _ t'. IsTallied t'.post) (finish_post c g d) (insert_post p) t
        (insert_post-Added p t (refl, refl) (one_target d.context))
        (λ q s k. rw k.0 (finish_post-IsTallied c g d p t.post h k.2 s k.1))

  store_post-IsTallied :
      (t : Tables)
      → IsTallied t.post
      → Ensures (λ _ t'. IsTallied t'.post) (store_post post_id ulid author_id d t)
  unfolding store_post
  store_post-IsTallied t h =
      Ensures-bind (λ _ t'. IsTallied t'.post) (λ _ t'. IsTallied t'.post)
        (λ c. find_group (conversation_group c) >>= λ g.
          insert_post (new_post post_id author_id c d) >>= finish_post c g d)
        (find_conversation ulid post_id d.object_id d.context) t
        (framed IsTallied _ t (find_conversation-Keeps ulid post_id d.object_id d.context) h)
        (λ c s h.
          Ensures-bind (λ _ t'. IsTallied t'.post) (λ _ t'. IsTallied t'.post)
            (λ g. insert_post (new_post post_id author_id c d) >>= finish_post c g d)
            (find_group (conversation_group c)) s
            (framed IsTallied _ s (find_group-Keeps (conversation_group c)) h)
            (λ g u h. insert_and_finish c g u h))

-- If each post that is not a repost shows the numbers of its replies and of its reposts, and only
-- posts that are not reposts are replied to and reposted, this is so after a post, a reply or a repost
-- is created, whether this succeeds or fails.
pub create_post-IsTallied :
    (ulid conversation_ulid author_id : ℕ) (d : PostCreateData) (t : Tables)
    → IsTallied t.post
    → IsTallied (create_post ulid conversation_ulid author_id d t).1.post
unfolding create_post ◌>>=◌
create_post-IsTallied ulid conversation_ulid author_id d t h = checked (check_post_data d)
  where
    stored : Query Tables PostDetailed
    stored = transaction (store_post (or_new ulid d.id) conversation_ulid author_id d)

    checked : (r : Result Unit) → IsTallied (continue r (λ _. stored) t).1.post
    checked (ok a) =
        transaction-keeps (λ s. IsTallied s.post)
          (store_post (or_new ulid d.id) conversation_ulid author_id d) t h
          (store_post-IsTallied (or_new ulid d.id) conversation_ulid author_id d t h)
    checked (err e) = h
    checked (panicked m) = h
