-- ===== src/Posts/Counts.antt =====
-- The counters of posts against the rows that reply to them and repost them.
use mitra.Prelude.{
  ℕ, ◌≡◌, refl, sym, ◌∙◌, ap, Bool, true, false, ◌&&◌, Option, none, some, List, [], ◌∷◌, any, find,
  tally, modify, ◌==◌, ==_iff, ◌⊎◌, inl, inr, is_some, All, arith, Option-cases, All-modify,
  tally-modify, any-modify, found_one, find_passes, ◌≤◌,
}
use mitra.Prelude.Int.{ℤ, add_count}
use mitra.Database.Triples.{Ensures}
use mitra.Relationships.Counts.{shift, bump, add_count-eq-shift}
use mitra.Posts.Types.{Post}
use mitra.Posts.Queries.{
  original, repost_with, is_original, refers_to, update_post_counter, with_replies, with_reposts,
  update_reply_count, update_repost_count, post_key,
}
use mitra.Schema.{Tables}

abbrev pub replies_to_post : ℕ → Post → Bool
replies_to_post id p = refers_to id p.in_reply_to_id

abbrev pub reposts_post : ℕ → Post → Bool
reposts_post id p = refers_to id p.repost_of_id

abbrev pub has_both : Post → Bool
has_both p = is_some p.in_reply_to_id && is_some p.repost_of_id

abbrev pub replies : List Post → ℕ → ℕ
replies rows id = tally (replies_to_post id) rows

abbrev pub reposts : List Post → ℕ → ℕ
reposts rows id = tally (reposts_post id) rows

-- Each post that is not a repost shows the numbers `F` and `G` of its identifier.
abbrev pub ShowsCounts : (ℕ → ℕ) → (ℕ → ℕ) → Post → Type 0
ShowsCounts F G p = is_original p ≡ true → (p.reply_count ≡ F p.id) × (p.repost_count ≡ G p.id)

-- A post that others may refer to, which is not a repost.
abbrev pub IsTarget : ℕ → List Post → Type 0
IsTarget id rows = (any (original id) rows ≡ true) × (any (repost_with id) rows ≡ false)

pub record IsTallied (rows : List Post) : Type 0 where
  pub shown : All (ShowsCounts (replies rows) (reposts rows)) rows
  pub unique : (k : ℕ) → tally (post_key k) rows ≤ 1
  pub single : tally has_both rows ≡ 0
  pub targets : (k : ℕ) → IsTarget k rows ⊎ ((replies rows k ≡ 0) × (reposts rows k ≡ 0))

-- The same posts that refer to the same ones; the counters may differ.
pub record Alike (rows rows' : List Post) : Type 0 where
  pub replying : (k : ℕ) → replies rows' k ≡ replies rows k
  pub reposting : (k : ℕ) → reposts rows' k ≡ reposts rows k
  pub originals : (k : ℕ) → any (original k) rows' ≡ any (original k) rows
  pub keys : (k : ℕ) → tally (post_key k) rows' ≡ tally (post_key k) rows
  pub doubled : tally has_both rows' ≡ tally has_both rows
  pub copies : (k : ℕ) → any (repost_with k) rows' ≡ any (repost_with k) rows

pub Alike-refl : (rows : List Post) → Alike rows rows
Alike-refl rows = record {
  replying = λ k. refl;
  reposting = λ k. refl;
  originals = λ k. refl;
  copies = λ k. refl;
  keys = λ k. refl;
  doubled = refl;
}

module _ (F G : ℕ → ℕ) (id : ℕ) (c : ℤ) (rows : List Post) (p : Post)
    (found : find (original id) rows ≡ some p) (h : All (ShowsCounts F G) rows) where
  same_id_as : (x : Post) → original id x ≡ true → (x.id ≡ id) × (is_original x ≡ true)
  same_id_as x e = ((==_iff x.id id).0 (ground arith), ground arith)

  found_counts : (p.reply_count ≡ F id) × (p.repost_count ≡ G id)
  found_counts =
      let (same, own) = same_id_as p (find_passes (original id) rows p found) in
      let (a, b) = found_one (ShowsCounts F G) (original id) rows p h found own in
      (a ∙ ap F same, b ∙ ap G same)

  bump_hit : (H : ℕ → ℕ) (k : ℕ) → k ≡ id → shift (H id) c ≡ bump id c H k
  bump_hit H k e = rw (e, (==_iff id id).1 refl) refl

  bump_miss :
      (H : ℕ → ℕ) (x : Post)
      → original id x ≡ false
      → is_original x ≡ true
      → bump id c H x.id ≡ H x.id
  bump_miss H x e own = let other : (x.id == id) ≡ false = ground arith in rw other refl

  pub replies_shown :
      All
        (ShowsCounts (bump id c F) G)
        (modify (original id) (with_replies (shift p.reply_count c)) rows)
  replies_shown =
      All-modify (ShowsCounts F G) (ShowsCounts (bump id c F) G) (original id) _
        (λ x e s own.
          (ap (λ n. shift n c) found_counts.0 ∙ bump_hit F x.id (same_id_as x e).0, (s own).1))
        (λ x e s own. ((s own).0 ∙ sym (bump_miss F x e own), (s own).1)) rows h

  pub reposts_shown :
      All
        (ShowsCounts F (bump id c G))
        (modify (original id) (with_reposts (shift p.repost_count c)) rows)
  reposts_shown =
      All-modify (ShowsCounts F G) (ShowsCounts F (bump id c G)) (original id) _
        (λ x e s own.
          ((s own).0, ap (λ n. shift n c) found_counts.1 ∙ bump_hit G x.id (same_id_as x e).0))
        (λ x e s own. ((s own).0, (s own).1 ∙ sym (bump_miss G x e own))) rows h

-- A replacement of counters.
modify-Alike :
    (q : Post → Bool) (put : Post → Post)
    → ((x : Post)
        → ((put x).id ≡ x.id)
          × ((put x).in_reply_to_id ≡ x.in_reply_to_id)
          × ((put x).repost_of_id ≡ x.repost_of_id))
    → (rows rows' : List Post) → Alike rows rows'
    → Alike rows (modify q put rows')
modify-Alike q put keeps rows rows' a = record {
  replying = λ k. tally-modify q put _ (λ x. ap (refers_to k) (keeps x).1) rows' ∙ a.replying k;
  reposting = λ k. tally-modify q put _ (λ x. ap (refers_to k) (keeps x).2) rows' ∙ a.reposting k;
  originals =
      λ k. any-modify q put _ (λ x. rw ((keeps x).0, (keeps x).2) refl) rows' ∙ a.originals k;
  keys = λ k. tally-modify q put _ (λ x. rw ((keeps x).0) refl) rows' ∙ a.keys k;
  doubled = tally-modify q put _ (λ x. rw ((keeps x).1, (keeps x).2) refl) rows' ∙ a.doubled;
  copies = λ k. any-modify q put _ (λ x. rw ((keeps x).0, (keeps x).2) refl) rows' ∙ a.copies k;
}

-- The counters show `F` and `G` on rows like `start`.
abbrev pub Counted : List Post → (ℕ → ℕ) → (ℕ → ℕ) → List Post → Type 0
Counted start F G rows = All (ShowsCounts F G) rows × Alike start rows

any-found : {A : Type 0} (p : A → Bool) (xs : List A) (x : A) → find p xs ≡ some x → any p xs ≡ true
unfolding find
any-found p [] x e = cc
any-found p (y ∷ ys) x e = ground (arith, any-found p ys x)

-- An update of one counter, where `J` holds of the tables after it.
module _ (count : Post → ℕ) (put : ℕ → Post → Post) (id : ℕ) (c : ℤ) (t : Tables)
    (J : Tables → Type 0)
    (after : (p : Post)
      → find (original id) t.post ≡ some p
      → J (record t { post = modify (original id) (put (shift (count p) c)) t.post })) where
  counter_found :
      (p : Post)
      → find (original id) t.post ≡ some p
      → (m : Option ℕ) → add_count (count p) c ≡ m
      → Ensures (λ _ t'. J t') (update_post_counter count put id c t)
  unfolding update_post_counter
  counter_found p found none k = rw (found, k, update_post_counter) tt
  counter_found p found (some m) k =
      rw (found, k, update_post_counter) (rw (add_count-eq-shift (count p) m c k) (after p found))

  pub counter_outcome : Ensures (λ _ t'. J t') (update_post_counter count put id c t)
  unfolding update_post_counter
  counter_outcome = elim (Option-cases (find (original id) t.post)) [
    | inl missing ↦ rw (missing, update_post_counter) tt
    | inr (p, found) ↦ counter_found p found _ refl
  ]

module _ (start : List Post) (F G : ℕ → ℕ) (id : ℕ) (c : ℤ) (t : Tables)
    (h : Counted start F G t.post) where
  there : (p : Post) → find (original id) t.post ≡ some p → any (original id) start ≡ true
  there p found = sym (h.1.originals id) ∙ any-found (original id) t.post p found

  pub update_reply_count-Counted :
      Ensures
        (λ _ t'. Counted start (bump id c F) G t'.post × (any (original id) start ≡ true))
        (update_reply_count id c t)
  unfolding update_reply_count
  update_reply_count-Counted =
      counter_outcome _ _ id c t
        (λ u. Counted start (bump id c F) G u.post × (any (original id) start ≡ true))
        (λ p found. (
          (
            replies_shown F G id c t.post p found h.0,
            modify-Alike (original id) _ (λ x. (refl, refl, refl)) start t.post h.1,
          ),
          there p found,
        ))

  pub update_repost_count-Counted :
      Ensures
        (λ _ t'. Counted start F (bump id c G) t'.post × (any (original id) start ≡ true))
        (update_repost_count id c t)
  unfolding update_repost_count
  update_repost_count-Counted =
      counter_outcome _ _ id c t
        (λ u. Counted start F (bump id c G) u.post × (any (original id) start ≡ true))
        (λ p found. (
          (
            reposts_shown F G id c t.post p found h.0,
            modify-Alike (original id) _ (λ x. (refl, refl, refl)) start t.post h.1,
          ),
          there p found,
        ))
