-- ===== src/Posts/Tests/Deletions.antt =====
-- The theorems on the deletion of posts at concrete tables.
use mitra.Prelude.{
  ℕ, ◌≡◌, refl, Option, none, some, Bool, true, false, List, [], ◌∷◌, arith, Bool-cases, inl, inr,
  find, ◌==◌, map, ◌||◌, ◌++◌, ◌≤◌, tally, any, ◌↔◌, ◌&&◌, not, All, ==_refl, select,
}
use mitra.Database.{Result, ok, err, not_found}
use mitra.Posts.Types.{public, Post, Conversation}
use mitra.Posts.Queries.{post_key, refers_to}
use mitra.Posts.Delete.{delete_repost, post_context, delete_post, DeletionQueue}
use mitra.Posts.Related.{contains}
use mitra.Posts.Descent.{Descends, post_context-Descends}
use mitra.Posts.Reached.{All-mem, any-mem}
use mitra.Posts.Authored.{IsThreaded, ShowsPosts, delete_post-ShowsPosts}
use mitra.Posts.Erased.{Removed, delete_post-Removed}
use mitra.Schema.{Tables}
use mitra.Posts.Tests.{profile, note, talk, reposted}

-- The repost goes with the post.
repost_found : contains (post_context 10 reposted) 12 ≡ true
unfolding post_context mitra.Prelude.select
repost_found = refl

post_context-Descends_example :
    (contains (post_context 10 reposted) 12 ≡ true) ↔ Descends 10 reposted.post 12
post_context-Descends_example = post_context-Descends 10 reposted 12

-- A post, its repost and a reply to it by the same author, whose number of posts is two; another post.
abbrev other_talk : Conversation
other_talk = record talk { id = 102; root_id = 14 }

abbrev discussed : Tables
discussed = record reposted {
  actor_profile =
      record (profile 1) { post_count = 2 } ∷ record (profile 2) { post_count = 2 } ∷ [];
  post =
      reposted.post
      ++ (record (note 13 1 public) { in_reply_to_id = some 10 }
          ∷ record (note 14 2 public) { conversation_id = some 102 }
          ∷ []);
  conversation = talk ∷ other_talk ∷ [];
}

abbrev undiscussed : Tables
undiscussed = record discussed {
  actor_profile =
      record (profile 1) { post_count = 0 } ∷ record (profile 2) { post_count = 1 } ∷ [];
  post = record (note 14 2 public) { conversation_id = some 102 } ∷ [];
  conversation = other_talk ∷ [];
}

deleted_run :
    delete_post 10 discussed ≡ (ok (record { files = []; ipfs_objects = [] }), undiscussed)
unfolding delete_post mitra.Database.◌>>=◌ post_context mitra.Prelude.select mitra.Prelude.tally
    find mitra.Prelude.remove mitra.Database.transaction mitra.Posts.Delete.delete_row
deleted_run = refl

delete_post-Removed_example :
    (any (post_key 13) undiscussed.post ≡ true)
    ↔ ((any (post_key 13) discussed.post ≡ true) × (¬ Removed 10 discussed 13))
delete_post-Removed_example =
    delete_post-Removed 10 discussed (record { files = []; ipfs_objects = [] }) undiscussed
      deleted_run 13

-- A post that does not go back to the root of its conversation.
abbrev is_stray : Post → Bool
is_stray p =
    any
      (λ (c : Conversation).
        refers_to c.id p.conversation_id && not (contains (post_context c.root_id discussed) p.id))
      discussed.conversation

none_stray : All (λ p. is_stray p ≡ false) discussed.post
unfolding post_context mitra.Prelude.select
none_stray = (refl, (refl, (refl, (refl, tt))))

discussed-IsThreaded : IsThreaded discussed
discussed-IsThreaded p c m mc e =
    (post_context-Descends c.root_id discussed p.id).0
      (elim (Bool-cases (contains (post_context c.root_id discussed) p.id)) [
        | inl counted ↦ counted
        | inr other ↦
            let same : refers_to c.id p.conversation_id ≡ true = rw e (==_refl c.id) in
            let stray : is_stray p ≡ true =
              any-mem
                (λ (b : Conversation).
                  refers_to b.id p.conversation_id
                  && not (contains (post_context b.root_id discussed) p.id))
                discussed.conversation c mc (rw (same, other) refl) in
            absurd (ground (arith, stray, All-mem is_stray false discussed.post p m none_stray))
      ])

discussed-ShowsPosts : ShowsPosts discussed.actor_profile discussed.post
unfolding mitra.Prelude.tally
discussed-ShowsPosts = (refl, (refl, tt))

delete_post-ShowsPosts_example :
    ShowsPosts (delete_post 10 discussed).1.actor_profile (delete_post 10 discussed).1.post
delete_post-ShowsPosts_example =
    delete_post-ShowsPosts 10 discussed discussed-ShowsPosts discussed-IsThreaded
