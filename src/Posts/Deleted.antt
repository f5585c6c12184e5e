-- ===== src/Posts/Deleted.antt =====
-- The counters of posts after a repost has been deleted.
use mitra.Prelude.{
  ℕ, ◌+◌, ◌≡◌, refl, sym, ◌∙◌, ap, Bool, true, false, Option, none, some, List, [], ◌∷◌, length,
  any, find, remove, tally, ◌==◌, ==_iff, if◌then◌else◌, is_some, inl, inr, ◌⊎◌, All, All-remove,
  All-weaken, arith, Bool-cases, Option-cases, tally-remove-le, any-zero_of_tally, find_passes,
}
use mitra.Prelude.Int.{negsuc}
use mitra.Database.{◌>>=◌}
use mitra.Database.Triples.{Ensures, Ensures-bind, Ensures-weaken, transaction-keeps}
use mitra.Relationships.Counts.{bump}
use mitra.Posts.Types.{Post, Conversation}
use mitra.Posts.Related.{contains}
use mitra.Posts.Queries.{original, repost_with, post_key, refers_to, update_repost_count}
use mitra.Posts.Delete.{depends, doomed, without, delete_row, lower_repost_count, delete_repost}
use mitra.Posts.Counts.{
  replies_to_post, reposts_post, has_both, replies, reposts, ShowsCounts, IsTarget, IsTallied,
  Alike-refl, Counted, update_repost_count-Counted,
}
use mitra.Posts.Removed.{
  tally-split, tally-found, remove-same, any-remove_apart, any-remove_none, closure-still, key_one,
  nothing_next,
}
use mitra.Schema.{Tables}

pub any-of_found :
    (r g : Post → Bool) (xs : List Post) (y : Post)
    → find r xs ≡ some y
    → g y ≡ true
    → any g xs ≡ true
unfolding find
any-of_found r g [] y e k = cc
any-of_found r g (x ∷ xs) y e k = elim (Bool-cases (r x)) [
  | inl hit ↦ let same : x ≡ y = ground arith in rw (same, k) refl
  | inr miss ↦ ground (arith, any-of_found r g xs y)
]

has_none : (o : Option ℕ) → is_some o ≡ false → o ≡ none
has_none none e = refl
has_none (some a) e = cc

module _ (rows : List Post) (h : IsTallied rows) (i : ℕ) (p : Post)
    (found : find (repost_with i) rows ≡ some p) where
  any_copy : any (repost_with i) rows ≡ true
  any_copy =
      any-of_found (repost_with i) (repost_with i) rows p found
        (find_passes (repost_with i) rows p found)

  unreferred : (replies rows i ≡ 0) × (reposts rows i ≡ 0)
  unreferred = elim (h.targets i) [
    | inl (_, none_copied) ↦ absurd (ground (arith, any_copy, none_copied))
    | inr z ↦ z
  ]

-- The rows without a repost.
module _ (rows : List Post) (h : IsTallied rows) (i : ℕ) (p : Post)
    (found : find (repost_with i) rows ≡ some p) (k : ℕ) (target : p.repost_of_id ≡ some k) where
  abbrev left_rows : List Post
  left_rows = remove (post_key i) rows

  no_reply : p.in_reply_to_id ≡ none
  no_reply = has_none p.in_reply_to_id (elim (Bool-cases (is_some p.in_reply_to_id)) [
    | inl replying ↦
        let both : any has_both rows ≡ true =
          any-of_found (repost_with i) has_both rows p found (rw (replying, target) refl) in
        absurd (ground (arith, both, any-zero_of_tally has_both rows h.single))
    | inr other ↦ other
  ])

  removed_one : (f : Post → Bool) → tally f left_rows + (if f p then 1 else 0) ≡ tally f rows
  removed_one f =
      let one =
        tally-found f (post_key i) (repost_with i) (λ x e. ground arith) rows p (h.unique i)
          found in
      rw (← one) (tally-split f (post_key i) rows)

  replies-left : (j : ℕ) → replies left_rows j ≡ replies rows j
  replies-left j =
      let same : refers_to j p.in_reply_to_id ≡ false = rw no_reply refl in
      ground (arith, removed_one (replies_to_post j), same)

  reposts-left : (j : ℕ) → bump k (negsuc 0) (reposts rows) j ≡ reposts left_rows j
  reposts-left j =
      let same : refers_to j p.repost_of_id ≡ (k == j) = rw target refl in
      ground (arith, removed_one (reposts_post j), same)

  targets_left :
      (j : ℕ) → IsTarget j left_rows ⊎ ((replies left_rows j ≡ 0) × (reposts left_rows j ≡ 0))
  targets_left j = elim (Bool-cases (i == j)) [
    | inl same ↦
        let e : i ≡ j = (==_iff i j).0 same in
        let none_left : (replies rows j ≡ 0) × (reposts rows j ≡ 0) =
          rw e at (unreferred rows h i p found) in
        inr (
          omega (arith, none_left.0, tally-remove-le (replies_to_post j) (post_key i) rows),
          omega (arith, none_left.1, tally-remove-le (reposts_post j) (post_key i) rows),
        )
    | inr other ↦ elim (h.targets j) [
      | inl (there, none_copied) ↦ inl (
        any-remove_apart (original j) (post_key i) (λ x e. ground arith) rows ∙ there,
        any-remove_none (repost_with j) (post_key i) rows none_copied,
      )
      | inr (r, s) ↦ inr (
        omega (arith, r, tally-remove-le (replies_to_post j) (post_key i) rows),
        omega (arith, s, tally-remove-le (reposts_post j) (post_key i) rows),
      )
    ]
  ]

  pub left-IsTallied :
      (rows' : List Post)
      → Counted left_rows (replies rows) (bump k (negsuc 0) (reposts rows)) rows'
      → IsTallied rows'
  left-IsTallied rows' (shown, alike) = record {
    shown =
        All-weaken _ _
          (λ x c own. (
            (c own).0 ∙ sym (replies-left x.id) ∙ sym (alike.replying x.id),
            (c own).1 ∙ reposts-left x.id ∙ sym (alike.reposting x.id),
          ))
          rows' shown;
    unique = λ j.
        rw (alike.keys j)
          (omega (arith, h.unique j, tally-remove-le (post_key j) (post_key i) rows));
    single = alike.doubled ∙ (omega (arith, h.single, tally-remove-le has_both (post_key i) rows));
    targets = λ j.
        rw (alike.originals j, alike.copies j, alike.replying j, alike.reposting j)
          (targets_left j);
  }

-- No conversation begins with a repost.
abbrev pub NoRepostIsRoot : Tables → Type 0
NoRepostIsRoot t =
    All (λ (c : Conversation). any (repost_with c.root_id) t.post ≡ false) t.conversation

module _ (id : ℕ) (t : Tables) (h : IsTallied t.post) (roots : NoRepostIsRoot t) where
  -- The row is gone, and no other.
  abbrev Gone : Post → Tables → Type 0
  Gone q t' = (find (repost_with id) t.post ≡ some q) × (t'.post ≡ remove (post_key id) t.post)

  module _ (p : Post) (found : find (repost_with id) t.post ≡ some p) where
    is_id : p.id ≡ id
    is_id = (==_iff p.id id).0 (ground (arith, find_passes (repost_with id) t.post p found))

    no_root : All (λ (c : Conversation). (c.root_id == id) ≡ false) t.conversation
    no_root =
        All-weaken _ _
          (λ c e. elim (Bool-cases (c.root_id == id)) [
            | inl same ↦
                let none_copied : any (repost_with id) t.post ≡ false =
                  rw ((==_iff c.root_id id).0 same) at e in
                absurd (ground (arith, none_copied, any_copy t.post h id p found))
            | inr other ↦ other
          ])
          t.conversation roots

    only_itself : doomed t (id ∷ []) ≡ id ∷ []
    only_itself =
        let (r, s) = unreferred t.post h id p found in
        closure-still (depends t.conversation) (length t.post) t.post (id ∷ []) (
          nothing_next id t.conversation no_root t.post
            (any-zero_of_tally (replies_to_post id) t.post r)
            (any-zero_of_tally (reposts_post id) t.post s))

    one-Gone : Gone p (without (doomed t (p.id ∷ [])) t)
    one-Gone = (
      found,
      ap (λ x. remove (λ (q : Post). contains (doomed t (x ∷ [])) q.id) t.post) is_id
          ∙ ap (λ ids. remove (λ (q : Post). contains ids q.id) t.post) only_itself
          ∙ remove-same _ (post_key id) (key_one id) t.post,
    )

  delete_row-Gone : Ensures Gone (delete_row (repost_with id) t)
  unfolding delete_row
  delete_row-Gone = elim (Option-cases (find (repost_with id) t.post)) [
    | inl missing ↦ rw (missing, delete_row) tt
    | inr (p, found) ↦ rw (found, delete_row) (one-Gone p found)
  ]

  lowered-IsTallied :
      (p : Post) (s : Tables)
      → Gone p s
      → (k : Option ℕ) → p.repost_of_id ≡ k
      → Ensures (λ _ u. IsTallied u.post) (lower_repost_count p s)
  unfolding ◌>>=◌
  lowered-IsTallied p s (found, e) none target = rw target tt
  lowered-IsTallied p s (found, e) (some k) target =
      let left = remove (post_key id) t.post in
      let start : Counted left (replies t.post) (reposts t.post) s.post = rw e (
        All-remove (ShowsCounts (replies t.post) (reposts t.post)) (post_key id) t.post h.shown,
        Alike-refl left,
      ) in
      rw target (
        Ensures-weaken _ _ (update_repost_count k (negsuc 0) s)
          (λ _ u c. left-IsTallied t.post h id p found k target u.post c.0)
          (update_repost_count-Counted left (replies t.post) (reposts t.post) k (negsuc 0) s start))

-- If each post that is not a repost shows the numbers of its replies and of its reposts, only posts
-- that are not reposts are replied to and reposted, and no conversation begins with a repost, then this
-- is so after a repost is deleted, whether this succeeds or fails.
pub delete_repost-IsTallied :
    (id : ℕ) (t : Tables)
    → IsTallied t.post
    → NoRepostIsRoot t
    → IsTallied (delete_repost id t).1.post
unfolding delete_repost
delete_repost-IsTallied id t h roots =
    transaction-keeps (λ s. IsTallied s.post) (delete_row (repost_with id) >>= lower_repost_count) t
      h
      (Ensures-bind (Gone id t h roots) (λ _ s. IsTallied s.post) lower_repost_count
        (delete_row (repost_with id)) t (delete_row-Gone id t h roots)
        (λ p s g. lowered-IsTallied id t h roots p s g _ refl))
