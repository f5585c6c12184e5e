-- ===== src/Relationships/Balance.antt =====
-- Statement by statement: the counters that profiles show, and the rows that there are, while an
-- operation is under way and the two may differ.
use mitra.Prelude.{
  ℕ, suc, zero, ◌≤◌, ◌≡◌, refl, sym, ◌∙◌, true, false, ◌⊎◌, inl, inr, [], ◌∷◌, tally, tally-append,
  tally-zero_of_any, tally-remove-le, arith, Bool-cases, remove-none,
}
use mitra.Prelude.Int.{ℤ, pos, negsuc}
use mitra.Database.{DatabaseError}
use mitra.Database.Triples.{Ensures, Ensures-weaken}
use mitra.Profiles.Queries.{update_follower_count, update_following_count, update_subscriber_count}
use mitra.Relationships.Types.{RelationshipType, type_eq, follow_type, subscription}
use mitra.Relationships.Table.{
  by_key, new_row, insert_relationship, insert_or_ignore, delete_relationship,
}
use mitra.Relationships.Counts.{
  is_follower_of, is_followed_by, is_subscriber_of, bump, Shows, IsUnique, IsAccurate,
  update_follower_count-Bumped, update_following_count-Bumped, update_subscriber_count-Bumped,
}
use mitra.Relationships.Effects.{IsAdded, insert_relationship-IsAdded, insert_or_ignore-IsAdded}
use mitra.Relationships.Tallies
use mitra.Schema.{Tables}

-- Profiles show `F`, `G` and `S`; the rows number `A`, `B` and `C`.
pub record Balanced (F G S A B C : ℕ → ℕ) (t : Tables) : Type 0 where
  pub shows : Shows F G S t.actor_profile
  pub followers : (k : ℕ) → tally (is_follower_of k) t.relationship ≡ A k
  pub following : (k : ℕ) → tally (is_followed_by k) t.relationship ≡ B k
  pub subscribers : (k : ℕ) → tally (is_subscriber_of k) t.relationship ≡ C k
  pub unique : IsUnique t.relationship

-- Where what is shown is what there is, the state is accurate.
pub Balanced-IsAccurate : (F G S : ℕ → ℕ) (t : Tables) → Balanced F G S F G S t → IsAccurate t
Balanced-IsAccurate F G S t b = record {
  shows = record {
    followers = λ id p e. b.shows.followers id p e ∙ sym (b.followers id);
    following = λ id p e. b.shows.following id p e ∙ sym (b.following id);
    subscribers = λ id p e. b.shows.subscribers id p e ∙ sym (b.subscribers id);
  };
  unique = b.unique;
}

type_eq-eq : (a b : RelationshipType) → type_eq a b ≡ true → a ≡ b
type_eq-eq a b h = ground arith

module _ (source target : ℕ) (type : RelationshipType) (t t' : Tables) (u : IsUnique t.relationship)
    (d : IsAdded source target type t t') where
  grown-IsUnique : IsUnique (Tallies.grown source target t 0 type)
  unfolding tally
  grown-IsUnique a b c = elim (Bool-cases (by_key a b c (new_row source target type t))) [
    | inl hit ↦
        let pa : source ≡ a = ground arith in
        let pb : target ≡ b = ground arith in
        let pc : type ≡ c = type_eq-eq type c (ground arith) in
        let none_yet : tally (by_key a b c) t.relationship ≡ 0 =
          rw (← pa, ← pb, ← pc)
            (tally-zero_of_any (by_key source target type) t.relationship d.is_new) in
        ground (
          arith,
          none_yet,
          tally-append (by_key a b c) t.relationship (new_row source target type t ∷ []),
        )
    | inr miss ↦ ground (
      arith,
      u a b c,
      tally-append (by_key a b c) t.relationship (new_row source target type t ∷ []),
    )
  ]

none_or_one : (n : ℕ) → n ≤ 1 → (n ≡ 0) ⊎ (n ≡ 1)
none_or_one zero h = inl refl
none_or_one (suc zero) h = inr refl
none_or_one (suc (suc n)) h = absurd (omega arith)

module _ (source target : ℕ) (F G S A B C : ℕ → ℕ) (t : Tables) (b : Balanced F G S A B C t) where
  follow_added :
      (id : ℕ) (t' : Tables)
      → IsAdded source target follow_type t t'
      → Balanced F G S (bump target (pos 1) A) (bump source (pos 1) B) C t'
  follow_added id t' d = rw d.added (record {
    shows = b.shows;
    followers = λ k. ground (arith, Tallies.follow_adds_follower source target t k, b.followers k);
    following = λ k. ground (arith, Tallies.follow_adds_following source target t k, b.following k);
    subscribers = λ k. Tallies.follow_keeps_subscribers source target t k ∙ b.subscribers k;
    unique = grown-IsUnique source target follow_type t t' b.unique d;
  })

  subscription_added :
      (id : ℕ) (t' : Tables)
      → IsAdded source target subscription t t'
      → Balanced F G S A B (bump target (pos 1) C) t'
  subscription_added id t' d = rw d.added (record {
    shows = b.shows;
    followers =
        λ k. Tallies.other_keeps_followers source target t k subscription refl ∙ b.followers k;
    following =
        λ k. Tallies.other_keeps_following source target t k subscription refl ∙ b.following k;
    subscribers = λ k.
        ground (arith, Tallies.subscription_adds_subscriber source target t k, b.subscribers k);
    unique = grown-IsUnique source target subscription t t' b.unique d;
  })

  module _ (type : RelationshipType) (f : type_eq type follow_type ≡ false)
      (s : type_eq type subscription ≡ false) where
    other_added : (id : ℕ) (t' : Tables) → IsAdded source target type t t' → Balanced F G S A B C t'
    other_added id t' d = rw d.added (record {
      shows = b.shows;
      followers = λ k. Tallies.other_keeps_followers source target t k type f ∙ b.followers k;
      following = λ k. Tallies.other_keeps_following source target t k type f ∙ b.following k;
      subscribers = λ k. Tallies.other_keeps_subscribers source target t k type s ∙ b.subscribers k;
      unique = grown-IsUnique source target type t t' b.unique d;
    })

    pub delete_other :
        Ensures (λ _ t'. Balanced F G S A B C t') (delete_relationship source target type t)
    unfolding delete_relationship
    delete_other = record {
      shows = b.shows;
      followers = λ k.
          Tallies.removed_followers_other source target type t.relationship k f ∙ b.followers k;
      following = λ k.
          Tallies.removed_following_other source target type t.relationship k f ∙ b.following k;
      subscribers = λ k.
          Tallies.removed_subscribers_other source target type t.relationship k s ∙ b.subscribers k;
      unique = λ x y z. omega (
        arith,
        b.unique x y z,
        tally-remove-le (by_key x y z) (by_key source target type) t.relationship,
      );
    }

    pub insert_other :
        (violation : DatabaseError)
        → Ensures
            (λ _ t'. Balanced F G S A B C t')
            (insert_relationship violation source target type t)
    insert_other violation =
        Ensures-weaken _ _ _ other_added
          (insert_relationship-IsAdded source target type t violation)

    pub insert_or_ignore_other :
        Ensures (λ _ t'. Balanced F G S A B C t') (insert_or_ignore source target type t)
    insert_or_ignore_other =
        Ensures-weaken _ _ _ either (insert_or_ignore-IsAdded source target type t)
      where
        either :
            (n : ℕ) (t' : Tables)
            → ((n ≡ 0) × (t' ≡ t)) ⊎ ((n ≡ 1) × IsAdded source target type t t')
            → Balanced F G S A B C t'
        either n t' (inl (_, same)) = rw same b
        either n t' (inr (_, d)) = other_added n t' d

  pub insert_follow :
      (violation : DatabaseError)
      → Ensures
          (λ _ t'. Balanced F G S (bump target (pos 1) A) (bump source (pos 1) B) C t')
          (insert_relationship violation source target follow_type t)
  insert_follow violation =
      Ensures-weaken _ _ _ follow_added
        (insert_relationship-IsAdded source target follow_type t violation)

  pub insert_subscription :
      (violation : DatabaseError)
      → Ensures
          (λ _ t'. Balanced F G S A B (bump target (pos 1) C) t')
          (insert_relationship violation source target subscription t)
  insert_subscription violation =
      Ensures-weaken _ _ _ subscription_added
        (insert_relationship-IsAdded source target subscription t violation)

  -- With the number of inserted rows: none, and nothing has changed, or one.
  pub insert_or_ignore_subscription :
      Ensures
        (λ n t'.
          ((n ≡ 0) × Balanced F G S A B C t')
          ⊎ ((n ≡ 1) × Balanced F G S A B (bump target (pos 1) C) t'))
        (insert_or_ignore source target subscription t)
  insert_or_ignore_subscription =
      Ensures-weaken _ _ _ either (insert_or_ignore-IsAdded source target subscription t)
    where
      either :
          (n : ℕ) (t' : Tables)
          → ((n ≡ 0) × (t' ≡ t)) ⊎ ((n ≡ 1) × IsAdded source target subscription t t')
          → ((n ≡ 0) × Balanced F G S A B C t')
            ⊎ ((n ≡ 1) × Balanced F G S A B (bump target (pos 1) C) t')
      either n t' (inl (z, same)) = inl (z, rw same b)
      either n t' (inr (o, d)) = inr (o, subscription_added n t' d)

  -- With the number of deleted rows, which is at most one.
  pub delete_follow :
      Ensures
        (λ n t'.
          ((n ≡ 0) × Balanced F G S A B C t')
          ⊎ ((n ≡ 1) × Balanced F G S (bump target (negsuc 0) A) (bump source (negsuc 0) B) C t'))
        (delete_relationship source target follow_type t)
  unfolding delete_relationship
  delete_follow = elim (none_or_one _ (b.unique source target follow_type)) [
    | inl zero_rows ↦
        inl (
          zero_rows,
          rw (remove-none (by_key source target follow_type) t.relationship zero_rows) b,
        )
    | inr one ↦ inr (
      one,
      record {
        shows = b.shows;
        followers = λ k.
            ground
              (arith, Tallies.removed_follower source target t.relationship k one, b.followers k);
        following = λ k.
            ground
              (arith, Tallies.removed_following source target t.relationship k one, b.following k);
        subscribers = λ k.
            Tallies.removed_subscribers_other source target follow_type t.relationship k refl
            ∙ b.subscribers k;
        unique = λ x y z. omega (
          arith,
          b.unique x y z,
          tally-remove-le (by_key x y z) (by_key source target follow_type) t.relationship,
        );
      },
    )
  ]

  pub delete_subscription :
      Ensures
        (λ n t'.
          ((n ≡ 0) × Balanced F G S A B C t')
          ⊎ ((n ≡ 1) × Balanced F G S A B (bump target (negsuc 0) C) t'))
        (delete_relationship source target subscription t)
  unfolding delete_relationship
  delete_subscription = elim (none_or_one _ (b.unique source target subscription)) [
    | inl zero_rows ↦
        inl (
          zero_rows,
          rw (remove-none (by_key source target subscription) t.relationship zero_rows) b,
        )
    | inr one ↦ inr (
      one,
      record {
        shows = b.shows;
        followers = λ k.
            Tallies.removed_followers_other source target subscription t.relationship k refl
            ∙ b.followers k;
        following = λ k.
            Tallies.removed_following_other source target subscription t.relationship k refl
            ∙ b.following k;
        subscribers = λ k.
            ground (
              arith,
              Tallies.removed_subscriber source target t.relationship k one,
              b.subscribers k,
            );
        unique = λ x y z. omega (
          arith,
          b.unique x y z,
          tally-remove-le (by_key x y z) (by_key source target subscription) t.relationship,
        );
      },
    )
  ]

-- An update of a counter moves what is shown and keeps the rows.
module _ (id : ℕ) (c : ℤ) (F G S A B C : ℕ → ℕ) (t : Tables) (b : Balanced F G S A B C t) where
  with-Shows :
      (F' G' S' : ℕ → ℕ) (t' : Tables)
      → Shows F' G' S' t'.actor_profile × (t'.relationship ≡ t.relationship)
      → Balanced F' G' S' A B C t'
  with-Shows F' G' S' t' (s, same) = record {
    shows = s;
    followers = rw same b.followers;
    following = rw same b.following;
    subscribers = rw same b.subscribers;
    unique = rw same b.unique;
  }

  pub count_followers :
      Ensures (λ _ t'. Balanced (bump id c F) G S A B C t') (update_follower_count id c t)
  count_followers =
      Ensures-weaken _ _ _ (λ a t'. with-Shows (bump id c F) G S t')
        (update_follower_count-Bumped F G S id c t b.shows)

  pub count_following :
      Ensures (λ _ t'. Balanced F (bump id c G) S A B C t') (update_following_count id c t)
  count_following =
      Ensures-weaken _ _ _ (λ a t'. with-Shows F (bump id c G) S t')
        (update_following_count-Bumped F G S id c t b.shows)

  pub count_subscribers :
      Ensures (λ _ t'. Balanced F G (bump id c S) A B C t') (update_subscriber_count id c t)
  count_subscribers =
      Ensures-weaken _ _ _ (λ a t'. with-Shows F G (bump id c S) t')
        (update_subscriber_count-Bumped F G S id c t b.shows)
