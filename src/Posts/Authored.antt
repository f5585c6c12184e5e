-- ===== src/Posts/Authored.antt =====
-- The numbers of posts that profiles show, after delete_post.
use mathlib.Core.List.{Mem}
use mitra.Prelude.{
  ℕ, ◌+◌, ◌≡◌, refl, sym, ◌∙◌, Bool, true, ◌&&◌, Option, none, some, List, [], ◌∷◌, any, find,
  remove, tally, ◌==◌, ==_iff, inl, inr, arith, Bool-cases, Option-cases, find_passes, All,
  All-weaken, All-map, All-both, any-false-All, ltb, tally-modify,
}
use mitra.Prelude.Int.{negsuc}
use mitra.Database.{◌>>=◌}
use mitra.Database.Triples.{Ensures, Ensures-bind, transaction-keeps}
use mitra.Profiles.Types.{DbActorProfile}
use mitra.Posts.Types.{Post, Conversation}
use mitra.Posts.Related.{contains}
use mitra.Posts.Queries.{original, post_key, update_reply_count}
use mitra.Posts.Delete.{
  doomed, delete_row, delete_post, post_context, lower_post_counts, lowered, lower_reply_count,
  share,
}
use mitra.Posts.Counts.{counter_outcome}
use mitra.Posts.Removed.{tally-split}
use mitra.Posts.Descent.{Descends, post_context-Descends, reply, itself, repost}
use mitra.Posts.Deleted.{any-of_found}
use mitra.Posts.Erased.{Removed, doomed-Removed, Removed-doomed}
use mitra.Schema.{Tables}

abbrev written_by : ℕ → Post → Bool
written_by k p = p.author_id == k

-- Each profile shows the number of its posts, reposts included.
abbrev pub ShowsPosts : List DbActorProfile → List Post → Type 0
ShowsPosts profiles rows = All (λ a. a.post_count ≡ tally (written_by a.id) rows) profiles

-- Each post in a conversation is its root, or goes back to it by replies and reposts.
abbrev pub IsThreaded : Tables → Type 0
IsThreaded t =
    (p : Post) (c : Conversation)
    → Mem p t.post
    → Mem c t.conversation
    → p.conversation_id ≡ some c.id
    → Descends c.root_id t.post p.id

Descends-trans :
    (a b : ℕ) (rows : List Post) (x : ℕ) → Descends a rows b → Descends b rows x → Descends a rows x
Descends-trans a b rows x d (itself there) = d
Descends-trans a b rows x d (reply p y m e k) = reply p y m e (Descends-trans a b rows y d k)
Descends-trans a b rows x d (repost p y m e k) = repost p y m e (Descends-trans a b rows y d k)

tally-same :
    (f g : Post → Bool)
    → ((p : Post) → f p ≡ g p)
    → (rows : List Post) → tally f rows ≡ tally g rows
unfolding tally
tally-same f g h [] = refl
tally-same f g h (p ∷ rows) = ground (arith, h p, tally-same f g h rows)

module _ (id : ℕ) (t : Tables) (threaded : IsThreaded t)
    (there : any (post_key id) t.post ≡ true) where
  Removed-Descends : (x : ℕ) → Removed id t x → Descends id t.post x
  Removed-Descends x Removed.itself = itself there
  Removed-Descends x (Removed.reply p y m e r) = reply p y m e (Removed-Descends y r)
  Removed-Descends x (Removed.repost p y m e r) = repost p y m e (Removed-Descends y r)
  Removed-Descends x (Removed.conversation p c m mc e r) =
      Descends-trans id c.root_id t.post p.id (Removed-Descends c.root_id r) (threaded p c m mc e)

  Descends-Removed : (x : ℕ) → Descends id t.post x → Removed id t x
  Descends-Removed x (itself k) = Removed.itself
  Descends-Removed x (reply p y m e r) = Removed.reply p y m e (Descends-Removed y r)
  Descends-Removed x (repost p y m e r) = Removed.repost p y m e (Descends-Removed y r)

  -- What is counted as deleted is what is deleted.
  context-doomed : (x : ℕ) → contains (post_context id t) x ≡ contains (doomed t (id ∷ [])) x
  context-doomed x = elim (Bool-cases (contains (post_context id t) x)) [
    | inl counted ↦
        let gone : contains (doomed t (id ∷ [])) x ≡ true =
          Removed-doomed id t x (Descends-Removed x ((post_context-Descends id t x).0 counted)) in
        counted ∙ sym gone
    | inr other ↦ elim (Bool-cases (contains (doomed t (id ∷ [])) x)) [
      | inl gone ↦
          let counted : contains (post_context id t) x ≡ true =
            (post_context-Descends id t x).1 (Removed-Descends x (doomed-Removed id t x gone)) in
          absurd (ground (arith, counted, other))
      | inr stays ↦ other ∙ sym stays
    ]
  ]

  -- The posts that are left.
  left_by :
      (k : ℕ)
      → tally (written_by k) (remove (λ (p : Post). contains (doomed t (id ∷ [])) p.id) t.post)
          + share (post_context id t) t.post k
        ≡ tally (written_by k) t.post
  left_by k =
      let same =
        tally-same (λ p. contains (post_context id t) p.id && written_by k p)
          (λ p. written_by k p && contains (doomed t (id ∷ [])) p.id)
          (λ p. ground (arith, context-doomed p.id)) t.post in
      rw same (tally-split (written_by k) (λ (p : Post). contains (doomed t (id ∷ [])) p.id) t.post)

abbrev Shown : Tables → Type 0
Shown t = ShowsPosts t.actor_profile t.post

module _ (id : ℕ) (t : Tables) (h : ShowsPosts t.actor_profile t.post) where
  -- The profiles without their shares, and the other tables as they were.
  record Lowered (u : Tables) : Type 0 where
    posts : u.post ≡ t.post
    conversations : u.conversation ≡ t.conversation
    counts :
        All
          (λ a.
            a.post_count + share (post_context id t) t.post a.id ≡ tally (written_by a.id) t.post)
          u.actor_profile

  lower_post_counts-Lowered : Ensures (λ _ u. Lowered u) (lower_post_counts (post_context id t) t)
  lower_post_counts-Lowered =
      let ids = post_context id t in
      elim (Bool-cases
        (any (λ (a : DbActorProfile). ltb a.post_count (share ids t.post a.id)) t.actor_profile)) [
          | inl short ↦ rw short tt
          | inr enough ↦ rw enough (record {
            posts = refl;
            conversations = refl;
            counts = All-map _ (lowered ids t.post) t.actor_profile (
                All-weaken _ _ (λ a k. ground (arith, k)) t.actor_profile
                  (All-both _ _ t.actor_profile h (
                    any-false-All (λ (a : DbActorProfile). ltb a.post_count (share ids t.post a.id))
                      t.actor_profile enough)));
          })
        ]

  lower_reply_count-ShowsPosts :
      (o : Option ℕ) (v : Tables)
      → ShowsPosts v.actor_profile v.post
      → Ensures (λ _ w. ShowsPosts w.actor_profile w.post) (lower_reply_count o v)
  unfolding update_reply_count
  lower_reply_count-ShowsPosts none v k = k
  lower_reply_count-ShowsPosts (some parent) v k =
      counter_outcome _ _ parent (negsuc 0) v (λ w. ShowsPosts w.actor_profile w.post)
        (λ p found.
          All-weaken _ _
            (λ a e. e ∙ sym (tally-modify (original parent) _ (written_by a.id) (λ p. refl) v.post))
            v.actor_profile k)

  -- The profiles show the numbers of the posts that are left.
  module _ (threaded : IsThreaded t) where
    delete_row-ShowsPosts :
        (u : Tables)
        → Lowered u
        → Ensures (λ _ v. ShowsPosts v.actor_profile v.post) (delete_row (original id) u)
    unfolding delete_row
    delete_row-ShowsPosts u l = elim (Option-cases (find (original id) u.post)) [
      | inl missing ↦ rw (missing, delete_row) tt
      | inr (p, found) ↦
          let hit : original id p ≡ true = find_passes (original id) u.post p found in
          let is_id : p.id ≡ id = (==_iff p.id id).0 (ground (arith, hit)) in
          let stored_u : any (post_key id) u.post ≡ true =
            any-of_found (original id) (post_key id) u.post p found (ground (arith, hit)) in
          let stored : any (post_key id) t.post ≡ true = rw (l.posts) at stored_u in
          rw (found, delete_row)
            (rw (is_id, l.conversations, l.posts)
              (All-weaken _ _ (λ a c. omega (arith, c, left_by id t threaded stored a.id))
                u.actor_profile l.counts))
    ]

    -- If each profile shows the number of its posts, reposts included, and each post in a conversation
    -- is its root or goes back to it by replies and reposts, then each profile shows the number of its
    -- posts after delete_post, whether it succeeds or fails.
    pub delete_post-ShowsPosts :
        ShowsPosts (delete_post id t).1.actor_profile (delete_post id t).1.post
    unfolding delete_post ◌>>=◌
    delete_post-ShowsPosts = transaction-keeps Shown _ t h (
        Ensures-bind (λ _ u. Lowered u) (λ _ w. Shown w) _ (lower_post_counts (post_context id t)) t
          lower_post_counts-Lowered
          (λ _ u l.
            Ensures-bind (λ _ v. Shown v) (λ _ w. Shown w) _ (delete_row (original id)) u
              (delete_row-ShowsPosts u l)
              (λ p v k.
                Ensures-bind (λ _ w. Shown w) (λ _ w. Shown w) _
                  (lower_reply_count p.in_reply_to_id) v
                  (lower_reply_count-ShowsPosts p.in_reply_to_id v k) (λ _ w k'. k'))))
