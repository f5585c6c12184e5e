-- ===== src/Posts/Erased.antt =====
-- Which posts are gone after delete_post.
use mathlib.Core.Path.{subst}
use mathlib.Core.List.{Mem}
use mitra.Prelude.{
  ℕ, ◌≡◌, refl, sym, ◌∙◌, ap, ◌↔◌, true, not, ◌&&◌, Option, none, some, List, [], ◌∷◌, any, find,
  remove, length, ◌==◌, ==_iff, ==_refl, inl, inr, arith, Bool-cases, Option-cases, find_passes,
  any-modify, passing_one, ltb,
}
use mitra.Prelude.Int.{negsuc}
use mitra.Database.{ok, ◌>>=◌, ◌>>◌}
use mitra.Database.Triples.{Ensures, Ensures-bind, Ensures-transaction}
use mitra.Profiles.Types.{DbActorProfile}
use mitra.Posts.Types.{Post, Conversation}
use mitra.Posts.Related.{contains}
use mitra.Posts.Queries.{post_key, original, update_reply_count}
use mitra.Posts.Delete.{
  rooted, in_rooted, follows, depends, doomed, delete_row, delete_post, post_context,
  lower_post_counts, lower_reply_count, share, DeletionQueue,
}
use mitra.Posts.Counts.{counter_outcome}
use mitra.Posts.Reached.{each-Mem, any-mem, closure-keeps, closure-finds, closure-related}
use mitra.Posts.Descent.{follows-cases}
use mitra.Schema.{Tables}

-- A post, the replies to it, the reposts of it and the posts of a conversation that began with it, those
-- of these, and so on.
pub data Removed (id : ℕ) (t : Tables) : ℕ → Type 0 where
  itself : Removed id t id
  reply :
      (p : Post) (parent : ℕ)
      → Mem p t.post
      → p.in_reply_to_id ≡ some parent
      → Removed id t parent
      → Removed id t p.id
  repost :
      (p : Post) (target : ℕ)
      → Mem p t.post
      → p.repost_of_id ≡ some target
      → Removed id t target
      → Removed id t p.id
  conversation :
      (p : Post) (c : Conversation)
      → Mem p t.post
      → Mem c t.conversation
      → p.conversation_id ≡ some c.id
      → Removed id t c.root_id
      → Removed id t p.id

module _ (id : ℕ) (t : Tables) where
  -- A conversation that begins with one of the posts.
  rooted-Removed :
      (ids : List ℕ) (p : Post)
      → Mem p t.post
      → ((y : ℕ) → contains ids y ≡ true → Removed id t y)
      → (o : Option ℕ) → p.conversation_id ≡ o
      → in_rooted t.conversation ids o ≡ true
      → Removed id t p.id
  rooted-Removed ids p m related none eo e = absurd (ground (arith, e))
  rooted-Removed ids p m related (some k) eo e =
      let (c, hit, mc) =
        passing_one (λ c. Mem c t.conversation) (λ (c : Conversation). c.id == k && rooted ids c)
          t.conversation (each-Mem t.conversation) e in
      let same : c.id ≡ k = (==_iff c.id k).0 (ground (arith, hit)) in
      conversation p c m mc (eo ∙ ap some (sym same)) (related c.root_id (ground (arith, hit)))

  pub doomed-Removed : (x : ℕ) → contains (doomed t (id ∷ [])) x ≡ true → Removed id t x
  doomed-Removed =
      closure-related (depends t.conversation) t.post (Removed id t)
        (λ p ids m e related. elim (Bool-cases (follows ids p)) [
          | inl next ↦
              follows-cases (Removed id t) ids p related (λ y r d. reply p y m r d)
                (λ y r d. repost p y m r d) next
          | inr other ↦
              rooted-Removed ids p m related p.conversation_id refl (ground (arith, e, other))
        ])
        (length t.post) (id ∷ [])
        (λ y e.
          let same : id ≡ y = (==_iff id y).0 (ground (arith, e)) in
          subst (λ z. Removed id t z) (same) itself)

  pub Removed-doomed : (x : ℕ) → Removed id t x → contains (doomed t (id ∷ [])) x ≡ true
  Removed-doomed x itself =
      closure-keeps (depends t.conversation) t.post (length t.post) (id ∷ []) id
        (rw (==_refl id) refl)
  Removed-doomed x (reply p parent m e d) =
      closure-finds (depends t.conversation) t.post (id ∷ []) p m
        (rw e (ground (arith, Removed-doomed parent d)))
  Removed-doomed x (repost p target m e d) =
      closure-finds (depends t.conversation) t.post (id ∷ []) p m
        (rw e (ground (arith, Removed-doomed target d)))
  Removed-doomed x (conversation p c m mc e d) =
      let hit : (c.id == c.id && rooted (doomed t (id ∷ [])) c) ≡ true =
        rw (==_refl c.id) (Removed-doomed c.root_id d) in
      let there : any (λ (b : Conversation). b.id == c.id && rooted (doomed t (id ∷ [])) b)
            t.conversation
          ≡ true =
        any-mem (λ (b : Conversation). b.id == c.id && rooted (doomed t (id ∷ [])) b) t.conversation
          c mc hit in
      closure-finds (depends t.conversation) t.post (id ∷ []) p m (rw e (ground (arith, there)))

any-without :
    (ids : List ℕ) (x : ℕ) (rows : List Post)
    → any (post_key x) (remove (λ (p : Post). contains ids p.id) rows)
      ≡ (any (post_key x) rows && not (contains ids x))
unfolding remove
any-without ids x [] = refl
any-without ids x (p ∷ rows) = elim (Bool-cases (p.id == x)) [
  | inl hit ↦
      let same : contains ids p.id ≡ contains ids x = ap (contains ids) ((==_iff p.id x).0 hit) in
      ground (arith, hit, same, any-without ids x rows)
  | inr miss ↦ ground (arith, miss, any-without ids x rows)
]

-- Which posts are left when the rows that depend on a post have been deleted.
abbrev Left : ℕ → Tables → Tables → Type 0
Left id t v =
    (x : ℕ)
    → any (post_key x) v.post ≡ (any (post_key x) t.post && not (contains (doomed t (id ∷ [])) x))

module _ (id : ℕ) (t : Tables) where
  -- The rows of posts and conversations as they were.
  abbrev Same : Tables → Type 0
  Same u = (u.post ≡ t.post) × (u.conversation ≡ t.conversation)

  lower_post_counts-Same : (ids : List ℕ) → Ensures (λ _ u. Same u) (lower_post_counts ids t)
  lower_post_counts-Same ids =
      elim (Bool-cases
        (any (λ (a : DbActorProfile). ltb a.post_count (share ids t.post a.id)) t.actor_profile)) [
          | inl short ↦ rw short tt
          | inr enough ↦ rw enough (refl, refl)
        ]

  delete_row-Left :
      (u : Tables) → Same u → Ensures (λ _ v. Left id t v) (delete_row (original id) u)
  unfolding delete_row
  delete_row-Left u (posts, conversations) = elim (Option-cases (find (original id) u.post)) [
    | inl missing ↦ rw (missing, delete_row) tt
    | inr (p, found) ↦
        let is_id : p.id ≡ id =
          (==_iff p.id id).0 (ground (arith, find_passes (original id) u.post p found)) in
        rw (found, delete_row)
          (λ x. rw (is_id, conversations, posts) (any-without (doomed t (id ∷ [])) x t.post))
  ]

  lower_reply_count-Left :
      (o : Option ℕ) (v : Tables)
      → Left id t v
      → Ensures (λ _ w. Left id t w) (lower_reply_count o v)
  unfolding update_reply_count
  lower_reply_count-Left none v h = h
  lower_reply_count-Left (some parent) v h =
      counter_outcome _ _ parent (negsuc 0) v (λ w. Left id t w)
        (λ p found x. any-modify (original parent) _ (post_key x) (λ p. refl) v.post ∙ h x)

  abbrev Outcome : DeletionQueue → Tables → Type 0
  Outcome _ t' =
      (x : ℕ)
      → (any (post_key x) t'.post ≡ true) ↔ ((any (post_key x) t.post ≡ true) × (¬ Removed id t x))

  Left-Outcome :
      (w : Tables) (l : Left id t w) (x : ℕ)
      → (any (post_key x) w.post ≡ true) ↔ ((any (post_key x) t.post ≡ true) × (¬ Removed id t x))
  Left-Outcome w l x = (
    λ e. (
      ground (arith, e, l x),
      λ r.
          let gone : contains (doomed t (id ∷ [])) x ≡ true = Removed-doomed id t x r in
          absurd (ground (arith, e, l x, gone)),
    ),
    λ (there, stays). elim (Bool-cases (contains (doomed t (id ∷ [])) x)) [
      | inl gone ↦ absurd (stays (doomed-Removed id t x gone))
      | inr apart ↦ l x ∙ rw (there, apart) refl
    ],
  )

  delete_post-Outcome : Ensures Outcome (delete_post id t)
  unfolding delete_post ◌>>=◌ ◌>>◌
  delete_post-Outcome =
      let posts = post_context id t in
      Ensures-transaction Outcome _ t (
        Ensures-bind (λ _ u. Same u) Outcome _ (lower_post_counts posts) t
          (lower_post_counts-Same posts)
          (λ _ u same.
            Ensures-bind (λ _ v. Left id t v) Outcome _ (delete_row (original id)) u
              (delete_row-Left u same)
              (λ p v l.
                Ensures-bind (λ _ w. Left id t w) Outcome _ (lower_reply_count p.in_reply_to_id) v
                  (lower_reply_count-Left p.in_reply_to_id v l) (λ _ w l'. Left-Outcome w l'))))

  -- If delete_post succeeds, a post is left exactly if it was stored and is neither the post itself
  -- nor a reply to, a repost of, or in a conversation that began with, a post that is deleted.
  pub delete_post-Removed :
      (queue : DeletionQueue) (t' : Tables)
      → delete_post id t ≡ (ok queue, t')
      → (x : ℕ)
      → (any (post_key x) t'.post ≡ true) ↔ ((any (post_key x) t.post ≡ true) × (¬ Removed id t x))
  delete_post-Removed queue t' e = rw e at delete_post-Outcome
