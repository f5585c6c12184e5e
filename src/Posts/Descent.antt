-- ===== src/Posts/Descent.antt =====
-- Which posts a deletion reaches, told by the references between the rows.
use mathlib.Core.Path.{subst}
use mathlib.Core.List.{Mem}
use mitra.Prelude.{
  ℕ, ◌≡◌, refl, ◌↔◌, true, Option, none, some, List, [], ◌∷◌, ◌&&◌, any, select, map, length, ◌==◌,
  ==_iff, ==_refl, ◌||◌, inl, inr, arith, Bool-cases,
}
use mitra.Posts.Types.{Post}
use mitra.Posts.Related.{contains, id_of}
use mitra.Posts.Queries.{post_key}
use mitra.Posts.Delete.{in_list, follows, post_context}
use mitra.Posts.Reached.{closure-keeps, closure-finds, closure-related}
use mitra.Schema.{Tables}

-- A post, the replies to it and the reposts of it, the replies to these, and so on.
pub data Descends (id : ℕ) (posts : List Post) : ℕ → Type 0 where
  itself : any (post_key id) posts ≡ true → Descends id posts id
  reply :
      (p : Post) (parent : ℕ)
      → Mem p posts
      → p.in_reply_to_id ≡ some parent
      → Descends id posts parent
      → Descends id posts p.id
  repost :
      (p : Post) (target : ℕ)
      → Mem p posts
      → p.repost_of_id ≡ some target
      → Descends id posts target
      → Descends id posts p.id

-- The references of `follows`.
pub follows-cases :
    (R : ℕ → Type 0) (ids : List ℕ) (p : Post)
    → ((y : ℕ) → contains ids y ≡ true → R y)
    → ((y : ℕ) → p.in_reply_to_id ≡ some y → R y → R p.id)
    → ((y : ℕ) → p.repost_of_id ≡ some y → R y → R p.id)
    → follows ids p ≡ true
    → R p.id
follows-cases R ids p related replied reposted e = of p.in_reply_to_id refl p.repost_of_id refl e
  where
    of :
        (a : Option ℕ)
        → p.in_reply_to_id ≡ a
        → (b : Option ℕ) → p.repost_of_id ≡ b
        → (in_list ids a || in_list ids b) ≡ true
        → R p.id
    of none ea none eb h = absurd (ground (arith, h))
    of (some y) ea none eb h = replied y ea (related y (ground (arith, h)))
    of none ea (some z) eb h = reposted z eb (related z (ground (arith, h)))
    of (some y) ea (some z) eb h = elim (Bool-cases (contains ids y)) [
      | inl there ↦ replied y ea (related y there)
      | inr other ↦ reposted z eb (related z (ground (arith, h)))
    ]

module _ (id : ℕ) (t : Tables) where
  abbrev seed : List ℕ
  seed = map id_of (select (λ (p : Post). p.id == id) t.post)

  seed-contains :
      (rows : List Post) (x : ℕ)
      → contains (map id_of (select (λ (p : Post). p.id == id) rows)) x
        ≡ (any (post_key id) rows && id == x)
  unfolding select
  seed-contains [] x = refl
  seed-contains (p ∷ rows) x = ground (arith, seed-contains rows x)

  found-Descends : (x : ℕ) → contains (post_context id t) x ≡ true → Descends id t.post x
  unfolding post_context
  found-Descends =
      closure-related follows t.post (Descends id t.post)
        (λ p ids m e related.
          follows-cases (Descends id t.post) ids p related (λ y r d. reply p y m r d)
            (λ y r d. repost p y m r d) e)
        (length t.post) seed
        (λ y e.
          let h : (any (post_key id) t.post && id == y) ≡ true = rw (← seed-contains t.post y) e in
          let same : id ≡ y = (==_iff id y).0 (ground (arith, h)) in
          let start : Descends id t.post id = itself (ground (arith, h)) in
          subst (λ z. Descends id t.post z) (same) start)

  Descends-found : (x : ℕ) → Descends id t.post x → contains (post_context id t) x ≡ true
  unfolding post_context
  Descends-found x (itself there) =
      closure-keeps follows t.post (length t.post) seed id
        (rw (seed-contains t.post id, there, ==_refl id) refl)
  Descends-found x (reply p parent m e d) =
      closure-finds follows t.post seed p m (rw e (ground (arith, Descends-found parent d)))
  Descends-found x (repost p target m e d) =
      closure-finds follows t.post seed p m (rw e (ground (arith, Descends-found target d)))

  -- A post is among those that delete_post counts as deleted exactly if it is the post, which is
  -- stored, or a stored reply to such a post, or a stored repost of one.
  pub post_context-Descends :
      (x : ℕ) → (contains (post_context id t) x ≡ true) ↔ Descends id t.post x
  post_context-Descends x = (found-Descends x, Descends-found x)
