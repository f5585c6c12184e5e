-- ===== src/Posts/Views.antt =====
-- Who may see a post: the check of one post against the filter of the lists.
use mitra.Prelude.{
  ℕ, ◌≡◌, refl, ap, ◌∙◌, Option, none, some, Bool, true, false, ◌&&◌, ◌||◌, List, any, find, ◌==◌,
  inl, inr, Bool-cases, Option-cases, arith, any-none, is_none, is_some,
}
use mitra.Database.{Result, ok, err, not_found, ◌>>=◌, panicked}
use mitra.Database.Triples.{refuted}
use mitra.Profiles.Types.{DbActorProfile}
use mitra.Relationships.Types.{follow_type, subscription}
use mitra.Relationships.Table.{has_relationship, by_key}
use mitra.Posts.Types.{
  Visibility, public, direct, followers, subscribers, conversation, visibility_eq, Post,
  Conversation, PostMention,
}
use mitra.Posts.Detailed.{PostDetailed, expect_conversation}
use mitra.Posts.Queries.{original, refers_to}
use mitra.Posts.Visibility.{
  post_subqueries, read_post, get_post_by_id, in_conversation, is_conversation_participant,
  visibility_filter, can_view, can_view_post, is_author_or_mentioned, get_post_by_id_for_view,
}
use mitra.Schema.{Tables, is_profile}
use mitra.Posts.Loaded.{
  IsLoaded, IsLoaded-post, any-mentions, let_in_followers, let_in_subscribers, let_in_others,
}

not_some : {A : Type 0} → (o : Option A) → is_none o ≡ true → is_some o ≡ false
not_some none h = refl
not_some (some a) h = cc

expected :
    (p : PostDetailed) (c : Conversation)
    → is_none p.repost_of_id ≡ true
    → p.conversation ≡ some c
    → expect_conversation p ≡ ok c
unfolding expect_conversation
expected p c own e = rw (expect_conversation, not_some p.repost_of_id own, e) refl

no_repost :
    (target : Option ℕ) (user : ℕ) (rows : List Post)
    → is_none target ≡ true
    → any (λ (q : Post). refers_to q.id target && q.author_id == user) rows ≡ false
no_repost none user rows h = any-none _ (λ q. refl) rows
no_repost (some id) user rows h = cc

-- The tests of the filter in the order of the check.
limited : (a m l : Bool) → (a || false || m || false || l || false) ≡ ((l || (a || m)) || false)
limited a m l = ground arith

paid : (a m l : Bool) → (a || false || m || false || l || false) ≡ ((a || m) || l)
paid a m l = ground arith

talked : (a m c : Bool) → (a || false || m || false || false || c) ≡ ((c || (a || m)) || false)
talked a m c = ground arith

told : (a m : Bool) → (a || false || m || false || false || false) ≡ ((a || m) || false)
told a m = ground arith

-- Whether a subscription alone lets the viewer in.
abbrev pub by_subscription : Option DbActorProfile → Post → Tables → Bool
by_subscription none row t = false
by_subscription (some viewer) row t =
    visibility_eq row.visibility subscribers
    && any (by_key viewer.id row.author_id subscription) t.relationship

abbrev pub viewer_id : Option DbActorProfile → Option ℕ
viewer_id none = none
viewer_id (some viewer) = some viewer.id

abbrev pub AreStored : Option DbActorProfile → Tables → Type 0
AreStored none t = Unit
AreStored (some viewer) t = is_profile t viewer.id ≡ true

module _ (row : Post) (p : PostDetailed) (t : Tables) (l : IsLoaded row p t) (u : DbActorProfile)
    (stored : is_profile t u.id ≡ true) where
  abbrev is_writer : Bool
  is_writer = row.author_id == u.id

  abbrev is_named : Bool
  is_named = any (λ (m : PostMention). m.post_id == row.id && m.profile_id == u.id) t.post_mention

  abbrev is_mine : Bool
  is_mine = is_writer || is_named

  seen : is_author_or_mentioned p u ≡ is_mine
  unfolding post_subqueries
  seen =
      ap (λ x. is_author_or_mentioned x u) l.is
      ∙ rw (l.by, any-mentions t.actor_profile u.id stored row.id t.post_mention) refl

  wrote : p.author.id ≡ row.author_id
  wrote = ap (λ x. x.author.id) l.is ∙ l.by

  abbrev view : Visibility → Bool
  view public = true
  view followers = any (by_key u.id row.author_id follow_type) t.relationship || is_mine
  view subscribers = is_mine
  view conversation = in_conversation u.id row.conversation_id t || is_mine
  view direct = is_mine

  viewed : (v : Visibility) → can_view v (some u) p t ≡ (ok (view v), t)
  unfolding ◌>>=◌ has_relationship is_conversation_participant
  viewed public = refl
  viewed followers =
      ap (λ b. (ok (any (by_key u.id p.author.id follow_type) t.relationship || b), t)) seen
      ∙ ap (λ a. (ok (any (by_key u.id a follow_type) t.relationship || is_mine), t)) wrote
  viewed subscribers = rw seen refl
  viewed conversation =
      let (c, talk, given) = l.talk in
      let expecting : expect_conversation p ≡ ok c =
        expected p c (ap (λ x. is_none x.repost_of_id) l.is ∙ l.own)
          (ap (λ x. x.conversation) l.is ∙ talk) in
      rw (expecting, given) (ap (λ b. (ok (in_conversation u.id (some c.id) t || b), t)) seen)
  viewed direct = rw seen refl

  filtered :
      (v : Visibility)
      → row.visibility ≡ v
      → visibility_filter (some u.id) row t ≡ (view v || by_subscription (some u) row t)
  unfolding visibility_filter
  filtered public e = rw e (ground arith)
  filtered followers e =
      rw
        (
          e,
          no_repost row.repost_of_id u.id t.post l.own,
          let_in_followers u.id row.author_id t.relationship,
        )
        (limited is_writer is_named (any (by_key u.id row.author_id follow_type) t.relationship))
  filtered subscribers e =
      rw
        (
          e,
          no_repost row.repost_of_id u.id t.post l.own,
          let_in_subscribers u.id row.author_id t.relationship,
        )
        (paid is_writer is_named (any (by_key u.id row.author_id subscription) t.relationship))
  filtered conversation e =
      rw
        (
          e,
          no_repost row.repost_of_id u.id t.post l.own,
          let_in_others u.id row.author_id t.relationship conversation refl refl,
        )
        (talked is_writer is_named (in_conversation u.id row.conversation_id t))
  filtered direct e =
      rw
        (
          e,
          no_repost row.repost_of_id u.id t.post l.own,
          let_in_others u.id row.author_id t.relationship direct refl refl,
        )
        (told is_writer is_named)

anonymous :
    (p : PostDetailed) (t : Tables) (v : Visibility)
    → can_view v none p t ≡ (ok (visibility_eq v public), t)
anonymous p t public = refl
anonymous p t direct = refl
anonymous p t followers = refl
anonymous p t subscribers = refl
anonymous p t conversation = refl

or_false : (b : Bool) → b ≡ (b || false)
or_false b = ground arith

module _ (row : Post) (p : PostDetailed) (t : Tables) (id : ℕ)
    (found : find (original id) t.post ≡ some row) (loaded : get_post_by_id id t ≡ (ok p, t)) where
  -- For a post that is read by its identifier, and a viewer who has a stored profile or no profile at
  -- all, can_view_post always answers, and the filter of the lists gives the same answer, but for
  -- one thing: it also shows a post for subscribers to those with a subscription to its author.
  pub can_view_post-visibility_filter :
      (viewer : Option DbActorProfile)
      → AreStored viewer t
      → (b : Bool) × (can_view_post viewer p t ≡ (ok b, t))
        × (visibility_filter (viewer_id viewer) row t ≡ (b || by_subscription viewer row t))
  unfolding can_view_post visibility_filter
  can_view_post-visibility_filter none stored =
      let l = IsLoaded-post row p t id found loaded in
      (
        visibility_eq row.visibility public,
        ap (λ x. can_view x.visibility none p t) l.is ∙ anonymous p t row.visibility,
        or_false _,
      )
  can_view_post-visibility_filter (some u) stored =
      let l = IsLoaded-post row p t id found loaded in
      (
        view row p t l u stored row.visibility,
        ap (λ x. can_view x.visibility (some u) p t) l.is
            ∙ viewed row p t l u stored row.visibility,
        filtered row p t l u stored row.visibility refl,
      )

module _ (t : Tables) (viewer : Option DbActorProfile) (stored : AreStored viewer t) (id : ℕ)
    (p : PostDetailed) where
  abbrev Passes : Type 0
  Passes =
      (row : Post) × (find (original id) t.post ≡ some row)
      × (visibility_filter (viewer_id viewer) row t ≡ true)

  view_checked :
      (row : Post)
      → find (original id) t.post ≡ some row
      → (r : Result PostDetailed) → get_post_by_id id t ≡ (r, t)
      → get_post_by_id_for_view viewer id t ≡ (ok p, t)
      → Passes
  unfolding get_post_by_id_for_view ◌>>=◌
  view_checked row found (err e) read h = let gone : (err e, t) ≡ (ok p, t) = rw read at h in cc
  view_checked row found (panicked m) read h =
      let gone : (panicked m, t) ≡ (ok p, t) = rw read at h in cc
  view_checked row found (ok q) read h =
      let (b, viewed, filter) =
        can_view_post-visibility_filter row q t id found read viewer stored in
      elim (Bool-cases b) [
        | inl yes_b ↦ (row, found, filter ∙ rw yes_b refl)
        | inr no_b ↦
            let hidden : can_view_post viewer q t ≡ (ok false, t) = rw no_b at viewed in
            let gone : (err (not_found "post"), t) ≡ (ok p, t) = rw (read, hidden) at h in
            refuted _ p t t gone
      ]

  -- A post that get_post_by_id_for_view returns to a viewer who has a stored profile or no profile
  -- at all is stored, and the filter of the lists shows it to this viewer as well.
  pub get_post_by_id_for_view-visibility_filter :
      get_post_by_id_for_view viewer id t ≡ (ok p, t)
      → (row : Post) × (find (original id) t.post ≡ some row)
        × (visibility_filter (viewer_id viewer) row t ≡ true)
  unfolding get_post_by_id_for_view get_post_by_id ◌>>=◌ read_post
  get_post_by_id_for_view-visibility_filter h = elim (Option-cases (find (original id) t.post)) [
    | inl missing ↦
        let gone : (err (not_found "post"), t) ≡ (ok p, t) = rw (missing, get_post_by_id) at h in
        refuted _ p t t gone
    | inr (row, found) ↦
        view_checked row found (read_post row t) (rw (found, get_post_by_id) refl) h
  ]
