-- ===== src/Posts/Loaded.antt =====
-- A post that is read from the tables: what it has of its row, of its mentions and of its conversation.
use mitra.Prelude.{
  ℕ, ◌≡◌, refl, sym, ap, ◌∙◌, Option, none, some, Bool, true, false, ◌&&◌, ◌||◌, List, [], ◌∷◌, any,
  find, select, map, ◌==◌, ==_iff, inl, inr, Bool-cases, Option-cases, arith, any-select, any-same,
  any-none, any-map, find_passes, is_none,
}
use mitra.Database.{ok, err, type_error}
use mitra.Database.Triples.{returned}
use mitra.Profiles.Types.{DbActorProfile}
use mitra.Profiles.Queries.{profile_id}
use mitra.Relationships.Types.{Relationship, follow_type, subscription}
use mitra.Relationships.Table.{by_key}
use mitra.Posts.Types.{
  Visibility, followers, subscribers, visibility_eq, Post, Conversation, PostMention,
}
use mitra.Posts.Detailed.{
  PostDetailed, detailed, new_detailed, belong_together, conversation_matches,
}
use mitra.Posts.Related.{contains, profiles_of}
use mitra.Posts.Queries.{original}
use mitra.Posts.Visibility.{
  mention_on, mentioned, post_subqueries, read_post, get_post_by_id, related_conversation, lets_in,
  read_joined,
}
use mitra.Schema.{Tables}

module _ (rows : List DbActorProfile) (user : ℕ) (stored : any (profile_id user) rows ≡ true) where
  found_stored :
      (profiles : List DbActorProfile)
      → any (profile_id user) profiles ≡ true
      → (q : DbActorProfile) × (find (profile_id user) profiles ≡ some q)
  unfolding find
  found_stored [] h = cc
  found_stored (p ∷ ps) h = elim (Bool-cases (profile_id user p)) [
    | inl hit ↦ (p, rw (find, hit) refl)
    | inr miss ↦ let (q, e) = found_stored ps (ground arith) in (q, rw (find, miss) e)
  ]

  -- A stored profile is among those of some identifiers exactly if its own is.
  any-profiles_of :
      (ids : List ℕ) → any (profile_id user) (profiles_of rows ids) ≡ contains ids user
  unfolding profiles_of
  any-profiles_of [] = refl
  any-profiles_of (id ∷ ids) = elim (Option-cases (find (profile_id id) rows)) [
    | inl missing ↦
        rw (missing, profiles_of)
          (elim (Bool-cases (id == user)) [
            | inl same ↦
                let (q, e) = found_stored rows stored in
                let id_eq : id ≡ user = (==_iff id user).0 same in
                let gone : find (profile_id user) rows ≡ none = rw (← id_eq) missing in cc
            | inr other ↦ rw other (any-profiles_of ids)
          ])
    | inr (q, found) ↦
        let hit : (q.id == id) ≡ true = find_passes (profile_id id) rows q found in
        rw (found, profiles_of, (==_iff q.id id).0 hit)
          (ap (λ b. (id == user) || b) (any-profiles_of ids))
  ]

  -- The mentions that are read are those that are stored.
  pub any-mentions :
      (post_id : ℕ) (mentions : List PostMention)
      → any
          (profile_id user)
          (profiles_of rows (map mentioned (select (mention_on post_id) mentions)))
        ≡ any (λ m. m.post_id == post_id && m.profile_id == user) mentions
  any-mentions post_id mentions =
      any-profiles_of (map mentioned (select (mention_on post_id) mentions))
      ∙ any-map mentioned (λ x. x == user) (select (mention_on post_id) mentions)
      ∙ any-select (λ m. m.profile_id == user) (mention_on post_id) mentions

module _ (user author : ℕ) (rows : List Relationship) where
  pub let_in_followers :
      any (lets_in user author followers) rows ≡ any (by_key user author follow_type) rows
  let_in_followers = any-same _ _ (λ r. ground arith) rows

  pub let_in_subscribers :
      any (lets_in user author subscribers) rows ≡ any (by_key user author subscription) rows
  let_in_subscribers = any-same _ _ (λ r. ground arith) rows

  pub let_in_others :
      (v : Visibility)
      → visibility_eq v followers ≡ false
      → visibility_eq v subscribers ≡ false
      → any (lets_in user author v) rows ≡ false
  let_in_others v f s = any-none _ (λ r. rw (f, s) (ground arith)) rows

and_parts :
    (a b c d e f g h i : Bool)
    → (a && b && c && d && e && f && g && h && i) ≡ true
    → (b ≡ true) × (d ≡ true) × (f ≡ true)
and_parts a b c d e f g h i q = (ground arith, ground arith, ground arith)

suited :
    (row : Post) (given : Option ℕ) (rows : List Conversation)
    → is_none given ≡ false
    → conversation_matches row given (related_conversation given rows) ≡ true
    → (c : Conversation) × (related_conversation given rows ≡ some c) × (given ≡ some c.id)
suited row none rows h m = cc
suited row (some id) rows h m = elim (Option-cases (related_conversation (some id) rows)) [
  | inl missing ↦ let gone : false ≡ true = rw (missing, conversation_matches) at m in cc
  | inr (c, found) ↦ (
    c,
    found,
    ap some
        (sym ((==_iff c.id id).0 (find_passes (λ (x : Conversation). x.id == id) rows c found))),
  )
]

-- What a post that is loaded is made of.
pub record IsLoaded (row : Post) (p : PostDetailed) (t : Tables) : Type 0 where
  pub author : DbActorProfile
  pub is : p ≡ detailed row author (post_subqueries row t)
  pub by : author.id ≡ row.author_id
  pub own : is_none row.repost_of_id ≡ true
  pub talk :
      (c : Conversation) × ((post_subqueries row t).conversation ≡ some c)
      × (row.conversation_id ≡ some c.id)

module _ (row : Post) (p : PostDetailed) (t : Tables) (own : is_none row.repost_of_id ≡ true) where
  read_author :
      (author : DbActorProfile) (b : Bool)
      → belong_together row author (post_subqueries row t) ≡ b
      → new_detailed row author (post_subqueries row t) ≡ ok p
      → IsLoaded row p t
  unfolding new_detailed belong_together post_subqueries
  read_author author true f e =
      let (by, some_conversation, matching) = and_parts _ _ _ _ _ _ _ _ _ f in
      record {
        author = author;
        is = sym (returned _ _ (rw (f, new_detailed) at e));
        by = sym ((==_iff row.author_id author.id).0 by);
        own = own;
        talk = suited row row.conversation_id t.conversation (ground arith) matching;
      }
  read_author author false f e = let gone : err type_error ≡ ok p = rw (f, new_detailed) at e in cc

  read-IsLoaded :
      (author : Option DbActorProfile)
      → read_joined row author (post_subqueries row t) ≡ ok p
      → IsLoaded row p t
  read-IsLoaded none e = cc
  read-IsLoaded (some author) e = read_author author _ refl e

-- A post that is read by its identifier.
pub IsLoaded-post :
    (row : Post) (p : PostDetailed) (t : Tables) (id : ℕ)
    → find (original id) t.post ≡ some row
    → get_post_by_id id t ≡ (ok p, t)
    → IsLoaded row p t
unfolding get_post_by_id read_post
IsLoaded-post row p t id found e =
    let passes = find_passes (original id) t.post row found in
    read-IsLoaded row p t (ground arith) _ (ap (λ x. x.0) (rw (found, get_post_by_id) at e))
