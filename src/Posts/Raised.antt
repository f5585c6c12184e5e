-- ===== src/Posts/Raised.antt =====
-- The row of a new post, and the counters of the posts it refers to.
use mitra.Relationships.Counts.{bump}
use mitra.Prelude.{
  ℕ, ◌≡◌, refl, Bool, true, false, not, Option, none, some, List, [], ◌∷◌, ◌++◌, any, is_none,
  arith, if◌then◌else◌, ◌||◌, ◌&&◌,
}
use mitra.Prelude.Int.{pos}
use mitra.Database.{ok, err, DatabaseError, not_found, client_error, already_exists}
use mitra.Database.Triples.{Ensures, Ensures-bind}
use mitra.Posts.Types.{Post, PostContext, top, reply, repost, reply_target, repost_target}
use mitra.Posts.Queries.{
  insert_post, original, collides, reply_refused, repost_refused, is_post_or_new, foreign_keys,
  exclusive, is_conversation, update_reply_count, update_repost_count,
}
use mitra.Posts.Create.{count_reply, count_repost, tell_parent, tell_reposted}
use mitra.Posts.Frame.{framed, tell_parent-Keeps, tell_reposted-Keeps}
use mitra.Posts.Counts.{Counted, update_reply_count-Counted, update_repost_count-Counted}
use mitra.Posts.Inserted.{IsAdmitted, raised}
use mitra.Schema.{Tables, fits_null, is_profile}

-- One row more, which INSERT admits.
abbrev pub Added : Post → Tables → Post → Tables → Type 0
Added p t q t' = (q ≡ p) × (t'.post ≡ t.post ++ p ∷ []) × IsAdmitted p t.post

pub one_target : (c : PostContext) → (is_none (reply_target c) || is_none (repost_target c)) ≡ true
unfolding reply_target repost_target
one_target (top _ _ _) = refl
one_target (reply _ _) = refl
one_target (repost _) = refl

-- The four tests of INSERT.
branches :
    (Q : Post → Tables → Type 0) (p : Post) (t t' : Tables) (e f g h : DatabaseError)
    (a b c d : Bool)
    → (a ≡ false → c ≡ false → d ≡ true → Q p t')
    → Ensures Q (
        if a
        then (err e, t)
        else if b
        then (err f, t)
        else if c
        then (err g, t)
        else if d
        then (ok p, t')
        else (err h, t))
branches Q p t t' e f g h true b c d k = tt
branches Q p t t' e f g h false true c d k = tt
branches Q p t t' e f g h false false true d k = tt
branches Q p t t' e f g h false false false true k = k refl refl refl
branches Q p t t' e f g h false false false false k = tt

both_false : (a b : Bool) → (a || b) ≡ false → (a ≡ false) × (b ≡ false)
both_false a b e = (ground arith, ground arith)

third : (a b c d e : Bool) → (a && b && c && d && e) ≡ true → c ≡ true
third a b c d e h = ground arith

pub insert_post-Added :
    (p : Post) (t : Tables)
    → (p.reply_count ≡ 0) × (p.repost_count ≡ 0)
    → (is_none p.in_reply_to_id || is_none p.repost_of_id) ≡ true
    → Ensures (Added p t) (insert_post p t)
unfolding insert_post
insert_post-Added p t counters one_target =
    branches (Added p t) p t (record t { post = t.post ++ p ∷ [] }) (not_found "post") client_error
      (already_exists "post") client_error
      (any (reply_refused p.in_reply_to_id) t.post || any (repost_refused p.repost_of_id) t.post)
      (not (exclusive p)) (any (collides p) t.post) (foreign_keys p t)
      (λ a c d.
        let (reply_allowed, repost_allowed) = both_false _ _ a in
        (
          refl,
          refl,
          record {
            reply_allowed = reply_allowed;
            repost_allowed = repost_allowed;
            fresh = c;
            parent =
                third (is_profile t p.author_id) (fits_null (is_conversation t) p.conversation_id)
                  (fits_null (is_post_or_new t p) p.in_reply_to_id)
                  (fits_null (is_post_or_new t p) p.repost_of_id)
                  (fits_null (is_profile t) p.group_id) d;
            counters = counters;
            one_target = one_target;
          },
        ))

same_target : (a b : ℕ) → some a ≡ some b → a ≡ b
same_target a b e = cc

module _ (p : Post) (start : List Post) (F G : ℕ → ℕ) (t : Tables) where
  pub count_reply-Counted :
      (target : Option ℕ)
      → Counted start F G t.post
      → Ensures (λ _ t'. Counted start (raised target F) G t'.post) (count_reply p target t)
  unfolding count_reply
  count_reply-Counted none h = h
  count_reply-Counted (some id) h =
      Ensures-bind
        (λ _ t'. Counted start (bump id (pos 1) F) G t'.post × (any (original id) start ≡ true))
        (λ _ t'. Counted start (raised (some id) F) G t'.post) (λ _. tell_parent p id)
        (update_reply_count id (pos 1)) t (update_reply_count-Counted start F G id (pos 1) t h)
        (λ _ s k.
          framed (Counted start (raised (some id) F) G) (tell_parent p id) s
            (tell_parent-Keeps p id) k.0)

  abbrev pub Reposted : Option ℕ → List Post → Type 0
  Reposted target rows =
      Counted start F (raised target G) rows
      × ((k : ℕ) → target ≡ some k → any (original k) start ≡ true)

  pub count_repost-Counted :
      (target : Option ℕ) (notified : List ℕ)
      → Counted start F G t.post
      → Ensures (λ _ t'. Reposted target t'.post) (count_repost p notified target t)
  unfolding count_repost
  count_repost-Counted none notified h = (h, λ k e. cc)
  count_repost-Counted (some id) notified h =
      Ensures-bind
        (λ _ t'. Counted start F (bump id (pos 1) G) t'.post × (any (original id) start ≡ true))
        (λ _ t'. Reposted (some id) t'.post) (λ _. tell_reposted p notified id)
        (update_repost_count id (pos 1)) t (update_repost_count-Counted start F G id (pos 1) t h)
        (λ _ s k.
          framed (Reposted (some id)) (tell_reposted p notified id) s
            (tell_reposted-Keeps p notified id) (k.0, λ j e. rw (same_target id j e) at k.1))
