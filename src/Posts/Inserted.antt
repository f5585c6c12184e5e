-- ===== src/Posts/Inserted.antt =====
-- A new row of the table `post`, before and after the counters of the posts it refers to are raised.
use mitra.Prelude.{
  ℕ, ◌+◌, ◌≡◌, refl, sym, ◌∙◌, ap, Bool, true, false, ◌&&◌, ◌||◌, Option, none, some, List, [], ◌∷◌,
  ◌++◌, any, tally, ◌==◌, ==_iff, if◌then◌else◌, ◌⊎◌, inl, inr, is_some, is_none, arith, Bool-cases,
  tally-append, any-append, All-append, All-weaken, ◌≤◌, tally-zero_of_any,
}
use mitra.Prelude.Int.{pos}
use mitra.Relationships.Counts.{bump}
use mitra.Posts.Types.{Post}
use mitra.Posts.Queries.{
  original, repost_with, refers_to, reply_refused, repost_refused, collides, post_key,
}
use mitra.Posts.Counts.{
  replies_to_post, reposts_post, has_both, replies, reposts, ShowsCounts, IsTarget, IsTallied,
  Counted, Alike-refl,
}
use mitra.Schema.{fits_null}

-- What INSERT tests of a row, and how a new row looks.
pub record IsAdmitted (p : Post) (rows : List Post) : Type 0 where
  pub reply_allowed : any (reply_refused p.in_reply_to_id) rows ≡ false
  pub repost_allowed : any (repost_refused p.repost_of_id) rows ≡ false
  pub fresh : any (collides p) rows ≡ false
  pub parent : fits_null (λ id. any (post_key id) (rows ++ p ∷ [])) p.in_reply_to_id ≡ true
  pub counters : (p.reply_count ≡ 0) × (p.repost_count ≡ 0)
  pub one_target : (is_none p.in_reply_to_id || is_none p.repost_of_id) ≡ true

-- `F` with one more at the target, if there is one.
abbrev pub raised : Option ℕ → (ℕ → ℕ) → ℕ → ℕ
raised none F = F
raised (some id) F = bump id (pos 1) F

raised-value :
    (target : Option ℕ) (F : ℕ → ℕ) (k : ℕ)
    → raised target F k ≡ F k + (if refers_to k target then 1 else 0)
raised-value none F k = omega arith
raised-value (some id) F k = ground arith

either_kind : (b : Bool) (o : Option ℕ) → b ≡ ((b && is_none o) || (b && is_some o))
either_kind b none = ground arith
either_kind b (some id) = ground arith

regroup : (a b c d : Bool) → ((a || b) || (c || d)) ≡ ((a || c) || (b || d))
regroup a b c d = ground arith

-- A row with an identifier is an original or a repost.
pub any-key :
    (k : ℕ) (rows : List Post)
    → any (post_key k) rows ≡ (any (original k) rows || any (repost_with k) rows)
any-key k [] = refl
any-key k (p ∷ rows) =
    ap (λ b. b || any (post_key k) rows) (either_kind (p.id == k) p.repost_of_id)
    ∙ ap (λ b. (original k p || repost_with k p) || b) (any-key k rows)
    ∙ regroup (original k p) (repost_with k p) (any (original k) rows) (any (repost_with k) rows)

pub any-weaker :
    (p q : Post → Bool)
    → ((x : Post) → p x ≡ true → q x ≡ true)
    → (rows : List Post) → any q rows ≡ false
    → any p rows ≡ false
any-weaker p q h [] e = refl
any-weaker p q h (x ∷ rows) e = ground (arith, h x, any-weaker p q h rows)

target_is : (k : ℕ) (o : Option ℕ) → refers_to k o ≡ true → o ≡ some k
target_is k none e = cc
target_is k (some id) e = ap some ((==_iff id k).0 e)

one_only : (a b : Option ℕ) → (is_none a || is_none b) ≡ true → (is_some a && is_some b) ≡ false
one_only a b h = ground arith

module _ (p : Post) (rows : List Post) (h : IsTallied rows) (a : IsAdmitted p rows) where
  -- No row has the new identifier, so none refers to it.
  unused : any (post_key p.id) rows ≡ false
  unused = any-weaker _ (collides p) (λ q e. rw e refl) rows a.fresh

  no_original : any (original p.id) rows ≡ false
  no_original = ground (arith, any-key p.id rows, unused)

  no_references : (replies rows p.id ≡ 0) × (reposts rows p.id ≡ 0)
  no_references = elim (h.targets p.id) [
    | inl (found, _) ↦ absurd (ground (arith, no_original))
    | inr z ↦ z
  ]

  -- Before any counter is raised.
  pub inserted-Counted : Counted (rows ++ p ∷ []) (replies rows) (reposts rows) (rows ++ p ∷ [])
  inserted-Counted = (
    All-append (ShowsCounts (replies rows) (reposts rows)) rows (p ∷ []) h.shown
        ((λ _. (a.counters.0 ∙ sym no_references.0, a.counters.1 ∙ sym no_references.1)), tt),
    Alike-refl (rows ++ p ∷ []),
  )

  pub replies-raised :
      (k : ℕ) → replies (rows ++ p ∷ []) k ≡ raised p.in_reply_to_id (replies rows) k
  unfolding tally
  replies-raised k =
      tally-append (replies_to_post k) rows (p ∷ [])
      ∙ sym (raised-value p.in_reply_to_id (replies rows) k)

  pub reposts-raised : (k : ℕ) → reposts (rows ++ p ∷ []) k ≡ raised p.repost_of_id (reposts rows) k
  unfolding tally
  reposts-raised k =
      tally-append (reposts_post k) rows (p ∷ [])
      ∙ sym (raised-value p.repost_of_id (reposts rows) k)

  module _ (k : ℕ) where
    copies_kept :
        any (repost_with k) rows ≡ false
        → repost_with k p ≡ false
        → any (repost_with k) (rows ++ p ∷ []) ≡ false
    copies_kept old new = any-append (repost_with k) rows (p ∷ []) ∙ rw (old, new) refl

    replied-IsTarget : p.in_reply_to_id ≡ some k → IsTarget k (rows ++ p ∷ [])
    replied-IsTarget e =
        let no_copy : any (repost_with k) rows ≡ false =
          any-weaker (repost_with k) (reply_refused (some k)) (λ q r. ground arith) rows
            (rw e at a.reply_allowed) in
        let alone : is_some p.repost_of_id ≡ false = ground (arith, e, a.one_target) in
        let still = copies_kept no_copy (ground (arith, alone)) in
        let found : any (post_key k) (rows ++ p ∷ []) ≡ true =
          ap (fits_null (λ id. any (post_key id) (rows ++ p ∷ []))) (sym e) ∙ a.parent in
        (ground (arith, any-key k (rows ++ p ∷ []), found, still), still)

    -- The new row has another identifier than the posts that were there.
    is_other : any (original k) rows ≡ true → (p.id == k) ≡ false
    is_other found = elim (Bool-cases (p.id == k)) [
      | inl same ↦
          let e : p.id ≡ k = (==_iff p.id k).0 same in
          let missing : any (original k) rows ≡ false = rw e at no_original in
          absurd (ground (arith, found, missing))
      | inr other ↦ other
    ]

    kept-IsTarget : IsTarget k rows → IsTarget k (rows ++ p ∷ [])
    kept-IsTarget (found, none_copied) = (
      any-append (original k) rows (p ∷ []) ∙ rw found refl,
      copies_kept none_copied (ground (arith, is_other found)),
    )

    reposted-IsTarget :
        p.repost_of_id ≡ some k
        → any (original k) (rows ++ p ∷ []) ≡ true
        → IsTarget k (rows ++ p ∷ [])
    reposted-IsTarget e found =
        let no_copy : any (repost_with k) rows ≡ false =
          any-weaker (repost_with k) (repost_refused (some k)) (λ q r. ground arith) rows
            (rw e at a.repost_allowed) in
        let old : any (original k) rows ≡ true =
          ground (arith, any-append (original k) rows (p ∷ []), found, e) in
        (found, copies_kept no_copy (ground (arith, is_other old)))

    kept_references :
        refers_to k p.in_reply_to_id ≡ false
        → refers_to k p.repost_of_id ≡ false
        → IsTarget k rows ⊎ ((replies rows k ≡ 0) × (reposts rows k ≡ 0))
        → IsTarget k (rows ++ p ∷ [])
          ⊎ ((replies (rows ++ p ∷ []) k ≡ 0) × (reposts (rows ++ p ∷ []) k ≡ 0))
    unfolding tally
    kept_references r s (inl target) = inl (kept-IsTarget target)
    kept_references r s (inr (n, m)) = inr (
      tally-append (replies_to_post k) rows (p ∷ []) ∙ rw (n, r) refl,
      tally-append (reposts_post k) rows (p ∷ []) ∙ rw (m, s) refl,
    )

  unique_after : (k : ℕ) → tally (post_key k) (rows ++ p ∷ []) ≤ 1
  unfolding tally
  unique_after k = elim (Bool-cases (p.id == k)) [
    | inl same ↦
        let e : p.id ≡ k = (==_iff p.id k).0 same in
        let old : tally (post_key k) rows ≡ 0 =
          tally-zero_of_any (post_key k) rows (rw e at unused) in
        rw (tally-append (post_key k) rows (p ∷ []), old, same) (omega arith)
    | inr other ↦ rw (tally-append (post_key k) rows (p ∷ []), other) (omega (arith, h.unique k))
  ]

  single_after : tally has_both (rows ++ p ∷ []) ≡ 0
  unfolding tally
  single_after =
      let alone : has_both p ≡ false = one_only p.in_reply_to_id p.repost_of_id a.one_target in
      tally-append has_both rows (p ∷ []) ∙ rw (h.single, alone) refl

  module _
      (reposted : (k : ℕ)
        → p.repost_of_id ≡ some k
        → any (original k) (rows ++ p ∷ []) ≡ true) where
    targets_after :
        (k : ℕ)
        → IsTarget k (rows ++ p ∷ [])
          ⊎ ((replies (rows ++ p ∷ []) k ≡ 0) × (reposts (rows ++ p ∷ []) k ≡ 0))
    targets_after k = elim (Bool-cases (refers_to k p.in_reply_to_id)) [
      | inl r ↦ inl (replied-IsTarget k (target_is k p.in_reply_to_id r))
      | inr r ↦ elim (Bool-cases (refers_to k p.repost_of_id)) [
        | inl s ↦ let e = target_is k p.repost_of_id s in inl (reposted-IsTarget k e (reposted k e))
        | inr s ↦ kept_references k r s (h.targets k)
      ]
    ]

    -- Once the counters of the parent and of the reposted post are raised, all is counted again.
    pub Counted-IsTallied :
        (rows' : List Post)
        → Counted
            (rows ++ p ∷ [])
            (raised p.in_reply_to_id (replies rows))
            (raised p.repost_of_id (reposts rows))
            rows'
        → IsTallied rows'
    Counted-IsTallied rows' (shown, alike) = record {
      shown =
          All-weaken _ _
            (λ x c own. (
              (c own).0 ∙ sym (replies-raised x.id) ∙ sym (alike.replying x.id),
              (c own).1 ∙ sym (reposts-raised x.id) ∙ sym (alike.reposting x.id),
            ))
            rows' shown;
      unique = λ k. rw (alike.keys k) (unique_after k);
      single = alike.doubled ∙ single_after;
      targets = λ k.
          rw (alike.originals k, alike.copies k, alike.replying k, alike.reposting k)
            (targets_after k);
    }
