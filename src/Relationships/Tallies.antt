-- ===== src/Relationships/Tallies.antt =====
-- How the numbers of follow and subscription rows change when a row is added or removed.
use mitra.Prelude.{
  ℕ, ◌≡◌, Bool, true, false, inl, inr, List, [], ◌∷◌, ◌++◌, tally, remove, tally-append,
  tally-remove, tally-remove_disjoint, arith, ◌==◌, Bool-cases,
}
use mitra.Prelude.Int.{pos, negsuc}
use mitra.Relationships.Types.{RelationshipType, type_eq, follow_type, subscription, Relationship}
use mitra.Relationships.Table.{by_key, new_row}
use mitra.Relationships.Counts.{is_follower_of, is_followed_by, is_subscriber_of, bump}
use mitra.Schema.{Tables}

abbrev pub is_counted : RelationshipType → Bool
is_counted follow_type = true
is_counted subscription = true
is_counted _ = false

module _ (source target : ℕ) (t : Tables) (k : ℕ) where
  abbrev pub grown : RelationshipType → List Relationship
  grown type = t.relationship ++ new_row source target type t ∷ []

  pub follow_adds_follower :
      tally (is_follower_of k) (grown follow_type)
      ≡ bump target (pos 1) (λ x. tally (is_follower_of x) t.relationship) k
  unfolding tally
  follow_adds_follower = ground (
    arith,
    tally-append (is_follower_of k) t.relationship (new_row source target follow_type t ∷ []),
  )

  pub follow_adds_following :
      tally (is_followed_by k) (grown follow_type)
      ≡ bump source (pos 1) (λ x. tally (is_followed_by x) t.relationship) k
  unfolding tally
  follow_adds_following = ground (
    arith,
    tally-append (is_followed_by k) t.relationship (new_row source target follow_type t ∷ []),
  )

  pub follow_keeps_subscribers :
      tally (is_subscriber_of k) (grown follow_type) ≡ tally (is_subscriber_of k) t.relationship
  unfolding tally
  follow_keeps_subscribers = ground (
    arith,
    tally-append (is_subscriber_of k) t.relationship (new_row source target follow_type t ∷ []),
  )

  pub subscription_adds_subscriber :
      tally (is_subscriber_of k) (grown subscription)
      ≡ bump target (pos 1) (λ x. tally (is_subscriber_of x) t.relationship) k
  unfolding tally
  subscription_adds_subscriber = ground (
    arith,
    tally-append (is_subscriber_of k) t.relationship (new_row source target subscription t ∷ []),
  )

  -- A row of any other type leaves a number alone.
  pub other_keeps_followers :
      (type : RelationshipType)
      → type_eq type follow_type ≡ false
      → tally (is_follower_of k) (grown type) ≡ tally (is_follower_of k) t.relationship
  unfolding tally
  other_keeps_followers type o =
      ground
        (arith, tally-append (is_follower_of k) t.relationship (new_row source target type t ∷ []))

  pub other_keeps_following :
      (type : RelationshipType)
      → type_eq type follow_type ≡ false
      → tally (is_followed_by k) (grown type) ≡ tally (is_followed_by k) t.relationship
  unfolding tally
  other_keeps_following type o =
      ground
        (arith, tally-append (is_followed_by k) t.relationship (new_row source target type t ∷ []))

  pub other_keeps_subscribers :
      (type : RelationshipType)
      → type_eq type subscription ≡ false
      → tally (is_subscriber_of k) (grown type) ≡ tally (is_subscriber_of k) t.relationship
  unfolding tally
  other_keeps_subscribers type o =
      ground (
        arith,
        tally-append (is_subscriber_of k) t.relationship (new_row source target type t ∷ []),
      )

type_eq_trans : (a b c : RelationshipType) → type_eq a b ≡ true → type_eq a c ≡ type_eq b c
type_eq_trans a b c h = ground arith

module _ (source target : ℕ) (type : RelationshipType) (rows : List Relationship) (k : ℕ) where
  abbrev key : Relationship → Bool
  key = by_key source target type

  pub removed_followers_other :
      type_eq type follow_type ≡ false
      → tally (is_follower_of k) (remove key rows) ≡ tally (is_follower_of k) rows
  removed_followers_other o =
      tally-remove_disjoint (is_follower_of k) key
        (λ x h. ground (arith, type_eq_trans x.relationship_type type follow_type)) rows

  pub removed_following_other :
      type_eq type follow_type ≡ false
      → tally (is_followed_by k) (remove key rows) ≡ tally (is_followed_by k) rows
  removed_following_other o =
      tally-remove_disjoint (is_followed_by k) key
        (λ x h. ground (arith, type_eq_trans x.relationship_type type follow_type)) rows

  pub removed_subscribers_other :
      type_eq type subscription ≡ false
      → tally (is_subscriber_of k) (remove key rows) ≡ tally (is_subscriber_of k) rows
  removed_subscribers_other o =
      tally-remove_disjoint (is_subscriber_of k) key
        (λ x h. ground (arith, type_eq_trans x.relationship_type type subscription)) rows

module _ (source target : ℕ) (rows : List Relationship) (k : ℕ) where
  -- The one follow row with its key, if it is there once, is one follower less for its target.
  pub removed_follower :
      tally (by_key source target follow_type) rows ≡ 1
      → tally (is_follower_of k) (remove (by_key source target follow_type) rows)
        ≡ bump target (negsuc 0) (λ x. tally (is_follower_of x) rows) k
  removed_follower one = elim (Bool-cases (k == target)) [
    | inl same ↦ ground (
      arith,
      tally-remove (is_follower_of k) (by_key source target follow_type) (λ x h. ground (arith))
          rows,
    )
    | inr other ↦ ground (
      arith,
      tally-remove_disjoint (is_follower_of k) (by_key source target follow_type)
          (λ x h. ground arith) rows,
    )
  ]

  pub removed_following :
      tally (by_key source target follow_type) rows ≡ 1
      → tally (is_followed_by k) (remove (by_key source target follow_type) rows)
        ≡ bump source (negsuc 0) (λ x. tally (is_followed_by x) rows) k
  removed_following one = elim (Bool-cases (k == source)) [
    | inl same ↦ ground (
      arith,
      tally-remove (is_followed_by k) (by_key source target follow_type) (λ x h. ground arith) rows,
    )
    | inr other ↦ ground (
      arith,
      tally-remove_disjoint (is_followed_by k) (by_key source target follow_type)
          (λ x h. ground arith) rows,
    )
  ]

  pub removed_subscriber :
      tally (by_key source target subscription) rows ≡ 1
      → tally (is_subscriber_of k) (remove (by_key source target subscription) rows)
        ≡ bump target (negsuc 0) (λ x. tally (is_subscriber_of x) rows) k
  removed_subscriber one = elim (Bool-cases (k == target)) [
    | inl same ↦ ground (
      arith,
      tally-remove (is_subscriber_of k) (by_key source target subscription) (λ x h. ground arith)
          rows,
    )
    | inr other ↦ ground (
      arith,
      tally-remove_disjoint (is_subscriber_of k) (by_key source target subscription)
          (λ x h. ground arith) rows,
    )
  ]
