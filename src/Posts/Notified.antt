-- ===== src/Posts/Notified.antt =====
-- Who is notified of a new post.
use mathlib.Core.Path.{subst}
use mitra.Prelude.{
  ℕ, ◌≤◌, ◌≡◌, refl, sym, Bool, true, false, Option, none, some, List, [], ◌∷◌, ◌++◌, tally,
  if◌then◌else◌, arith,
}
use mitra.Prelude.Int.{ℤ, pos}
use mitra.Database.{Query, pure, ◌>>=◌, ◌>>◌}
use mitra.Database.Triples.{Ensures, Ensures-bind, Ensures-weaken}
use mitra.Profiles.Types.{DbActorProfile}
use mitra.Notifications.Types.{Notification}
use mitra.Notifications.Queries.{
  create_reply_notification, create_repost_notification, create_mention_notification,
}
use mitra.Posts.Types.{Post}
use mitra.Posts.Queries.{
  update_post_counter, update_reply_count, update_repost_count, get_post_author,
}
use mitra.Posts.Create.{
  is_told, tell_parent, tell_reposted, count_reply, count_repost, notify_mentioned, notify,
}
use mitra.Schema.{Tables}
use mitra.Posts.Told.{nothing-Told, tells, TellsAll, Told, for_user}

module _ (p : Post) (base : List Notification) where
  abbrev Tells : List ℕ → Tables → Type 0
  Tells = TellsAll p base

  tell_if :
      (users : List ℕ) (a : DbActorProfile) (s : Tables) (m : Query Tables (Unit {0}))
      (k : List ℕ → Query Tables (List ℕ))
      → Tells users s
      → (is_told p users a ≡ true → Ensures (λ _ s'. Tells (users ++ a.id ∷ []) s') (m s))
      → ((us : List ℕ) (u : Tables) → Tells us u → Ensures Tells (k us u))
      → (b : Bool) → is_told p users a ≡ b
      → Ensures Tells ((if b then (m >> k (users ++ a.id ∷ [])) else k users) s)
  tell_if users a s m k h sent next true e =
      Ensures-bind (λ _ s'. Tells (users ++ a.id ∷ []) s') Tells (λ _. k (users ++ a.id ∷ [])) m s
        (sent e) (λ _ u g. next (users ++ a.id ∷ []) u g)
  tell_if users a s m k h sent next false e = next users s h

  stay : (us : List ℕ) (u : Tables) → Tells us u → Ensures Tells (pure us u)
  stay us u h = h

  author_kept :
      (id : ℕ) (s : Tables)
      → Ensures (λ _ s'. s'.notification ≡ s.notification) (get_post_author id s)
  unfolding get_post_author
  author_kept id s = ground arith

  tell_parent-Told : (id : ℕ) (s : Tables) → Tells [] s → Ensures Tells (tell_parent p id s)
  unfolding tell_parent create_reply_notification
  tell_parent-Told id s h =
      Ensures-bind (λ _ s'. s'.notification ≡ s.notification) Tells
        (λ a.
          if is_told p [] a
          then (create_reply_notification p.author_id a.id p.id >> pure (a.id ∷ []))
          else pure [])
        (get_post_author id) s (author_kept id s)
        (λ a u e.
          let g : Tells [] u = subst (Told p base []) (sym e) h in
          tell_if [] a u (create_reply_notification p.author_id a.id p.id) pure g
            (λ told. tells p base [] u.notification g a told u refl (some p.id) _) stay _ refl)

  tell_reposted-Told :
      (users : List ℕ) (id : ℕ) (s : Tables)
      → Tells users s
      → Ensures Tells (tell_reposted p users id s)
  unfolding tell_reposted create_repost_notification
  tell_reposted-Told users id s h =
      Ensures-bind (λ _ s'. s'.notification ≡ s.notification) Tells
        (λ a.
          if is_told p users a
          then (create_repost_notification p.author_id a.id id >> pure (users ++ a.id ∷ []))
          else pure users)
        (get_post_author id) s (author_kept id s)
        (λ a u e.
          let g : Tells users u = subst (Told p base users) (sym e) h in
          tell_if users a u (create_repost_notification p.author_id a.id id) pure g
            (λ told. tells p base users u.notification g a told u refl (some id) _) stay _ refl)

  notify_mentioned-Told :
      (ms : List DbActorProfile) (users : List ℕ) (s : Tables)
      → Tells users s
      → Ensures Tells (notify_mentioned p users ms s)
  unfolding notify_mentioned create_mention_notification
  notify_mentioned-Told [] users s h = h
  notify_mentioned-Told (m ∷ ms) users s h =
      tell_if users m s (create_mention_notification p.author_id m.id p.id)
        (λ us. notify_mentioned p us ms) h
        (λ told. tells p base users s.notification h m told s refl (some p.id) _)
        (notify_mentioned-Told ms) _ refl

  counter_kept :
      (count : Post → ℕ) (put : ℕ → Post → Post) (id : ℕ) (c : ℤ) (s : Tables)
      → Ensures (λ _ s'. s'.notification ≡ s.notification) (update_post_counter count put id c s)
  unfolding update_post_counter
  counter_kept count put id c s = ground arith

  count_reply-Told :
      (target : Option ℕ) (s : Tables) → Tells [] s → Ensures Tells (count_reply p target s)
  unfolding count_reply update_reply_count
  count_reply-Told none s h = h
  count_reply-Told (some id) s h =
      Ensures-bind (λ _ s'. s'.notification ≡ s.notification) Tells (λ _. tell_parent p id)
        (update_reply_count id (pos 1)) s (counter_kept _ _ id (pos 1) s)
        (λ _ u e. tell_parent-Told id u (subst (Told p base []) (sym e) h))

  count_repost-Told :
      (target : Option ℕ) (users : List ℕ) (s : Tables)
      → Tells users s
      → Ensures Tells (count_repost p users target s)
  unfolding count_repost update_repost_count
  count_repost-Told none users s h = h
  count_repost-Told (some id) users s h =
      Ensures-bind (λ _ s'. s'.notification ≡ s.notification) Tells (λ _. tell_reposted p users id)
        (update_repost_count id (pos 1)) s (counter_kept _ _ id (pos 1) s)
        (λ _ u e. tell_reposted-Told users id u (subst (Told p base users) (sym e) h))

-- If the counters and notifications for a new post are done, then the new notifications come after
-- the old ones, no user gets two of them, and the author of the post gets none, whoever is the author of
-- the parent or of the reposted post and whoever is mentioned.
pub notify_once :
    (p : Post) (ms : List DbActorProfile) (t : Tables)
    → Ensures
        (λ _ t'.
          (new : List Notification) × (t'.notification ≡ t.notification ++ new)
          × ((k : ℕ) → tally (for_user k) new ≤ 1)
          × (tally (for_user p.author_id) new ≡ 0))
        (notify p ms t)
unfolding notify
notify_once p ms t =
    Ensures-weaken (TellsAll p t.notification) _ (notify p ms t)
      (λ _ s h. (h.new, h.is, h.once, h.author))
      (Ensures-bind (TellsAll p t.notification) (TellsAll p t.notification)
        (λ users. count_repost p users p.repost_of_id >>= λ told. notify_mentioned p told ms)
        (count_reply p p.in_reply_to_id) t
        (count_reply-Told p t.notification p.in_reply_to_id t (nothing-Told p t.notification))
        (λ users s h.
          Ensures-bind (TellsAll p t.notification) (TellsAll p t.notification)
            (λ told. notify_mentioned p told ms) (count_repost p users p.repost_of_id) s
            (count_repost-Told p t.notification p.repost_of_id users s h)
            (λ told u g. notify_mentioned-Told p t.notification ms told u g)))
