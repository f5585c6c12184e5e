-- ===== src/Posts/Removed.antt =====
-- Rows from which those of one identifier are removed, and what a deletion reaches.
use mitra.Prelude.{
  ℕ, suc, zero, ◌+◌, ◌≤◌, ◌≡◌, refl, ◌∙◌, ap, Bool, true, false, ◌&&◌, Option, none, some, List, [],
  ◌∷◌, ◌++◌, any, find, select, remove, tally, map, ◌==◌, if◌then◌else◌, All, arith,
}
use mitra.Posts.Types.{Post, Conversation}
use mitra.Posts.Related.{contains, id_of}
use mitra.Posts.Queries.{refers_to, post_key}
use mitra.Posts.Delete.{in_list, depends, rooted, in_rooted, is_next, closure}
use mitra.Posts.Counts.{replies_to_post, reposts_post}

module _ {A : Type 0} (f q : A → Bool) where
  pub tally-split : (xs : List A) → tally f (remove q xs) + tally (λ x. f x && q x) xs ≡ tally f xs
  unfolding tally remove
  tally-split [] = refl
  tally-split (x ∷ xs) = ground (arith, tally-split xs)

  none_both : (xs : List A) → tally q xs ≡ 0 → tally (λ x. f x && q x) xs ≡ 0
  unfolding tally
  none_both [] e = refl
  none_both (x ∷ xs) e = ground (arith, none_both xs)

  found_one_at_least :
      (r : A → Bool)
      → ((x : A) → r x ≡ true → q x ≡ true)
      → (xs : List A) (y : A) → find r xs ≡ some y
      → 1 ≤ tally q xs
  unfolding tally find
  found_one_at_least r h [] y e = cc
  found_one_at_least r h (x ∷ xs) y e = ground (arith, h x, found_one_at_least r h xs y)

  -- Where one row passes `q`, the row that is found is this one.
  pub tally-found :
      (r : A → Bool)
      → ((x : A) → r x ≡ true → q x ≡ true)
      → (xs : List A) (y : A) → tally q xs ≤ 1
      → find r xs ≡ some y
      → tally (λ x. f x && q x) xs ≡ (if f y then 1 else 0)
  unfolding tally find
  tally-found r h [] y u e = cc
  tally-found r h (x ∷ xs) y u e =
      ground (arith, h x, tally-found r h xs y, found_one_at_least r h xs y, none_both xs)

module _ {A : Type 0} where
  pub remove-same :
      (p q : A → Bool) → ((x : A) → p x ≡ q x) → (xs : List A) → remove p xs ≡ remove q xs
  unfolding remove
  remove-same p q h [] = refl
  remove-same p q h (x ∷ xs) = ground (arith, h x, remove-same p q h xs)

  pub any-remove_apart :
      (p q : A → Bool)
      → ((x : A) → p x ≡ true → q x ≡ false)
      → (xs : List A) → any p (remove q xs) ≡ any p xs
  unfolding remove
  any-remove_apart p q h [] = refl
  any-remove_apart p q h (x ∷ xs) = ground (arith, h x, any-remove_apart p q h xs)

  pub any-remove_none :
      (p q : A → Bool) (xs : List A) → any p xs ≡ false → any p (remove q xs) ≡ false
  unfolding remove
  any-remove_none p q [] e = refl
  any-remove_none p q (x ∷ xs) e = ground (arith, any-remove_none p q xs)

  select-none : (p : A → Bool) (xs : List A) → any p xs ≡ false → select p xs ≡ []
  unfolding select
  select-none p [] e = refl
  select-none p (x ∷ xs) e = ground (arith, select-none p xs)

  pub append-nil : (xs : List A) → xs ++ [] ≡ xs
  append-nil [] = refl
  append-nil (x ∷ xs) = ap (λ ys. x ∷ ys) (append-nil xs)

-- Where no row is next, nothing is reached.
pub closure-still :
    (test : List ℕ → Post → Bool) (n : ℕ) (rows : List Post) (ids : List ℕ)
    → any (is_next test ids) rows ≡ false
    → closure test n rows ids ≡ ids
unfolding closure
closure-still test zero rows ids e = refl
closure-still test (suc n) rows ids e =
    let same : ids ++ map id_of (select (is_next test ids) rows) ≡ ids =
      rw (select-none (is_next test ids) rows e) (append-nil ids) in
    ap (closure test n rows) same ∙ closure-still test n rows ids e

pub in_one : (i : ℕ) (o : Option ℕ) → in_list (i ∷ []) o ≡ refers_to i o
in_one i none = refl
in_one i (some x) = ground arith

pub key_one : (i : ℕ) (p : Post) → contains (i ∷ []) p.id ≡ post_key i p
key_one i p = ground arith

-- Nothing depends on a post that no row refers to and that begins no conversation.
module _ (i : ℕ) (conversations : List Conversation)
    (no_root : All (λ (c : Conversation). (c.root_id == i) ≡ false) conversations) where
  not_rooted : (o : Option ℕ) → in_rooted conversations (i ∷ []) o ≡ false
  not_rooted none = refl
  not_rooted (some id) = over conversations no_root
    where
      over :
          (cs : List Conversation)
          → All (λ (c : Conversation). (c.root_id == i) ≡ false) cs
          → any (λ (c : Conversation). c.id == id && rooted (i ∷ []) c) cs ≡ false
      over [] h = refl
      over (c ∷ cs) (h, k) = ground (arith, h, over cs k)

  pub nothing_next :
      (rows : List Post)
      → any (replies_to_post i) rows ≡ false
      → any (reposts_post i) rows ≡ false
      → any (is_next (depends conversations) (i ∷ [])) rows ≡ false
  nothing_next [] r s = refl
  nothing_next (p ∷ rows) r s =
      rw (in_one i p.in_reply_to_id, in_one i p.repost_of_id, not_rooted p.conversation_id)
        (ground (arith, nothing_next rows))
