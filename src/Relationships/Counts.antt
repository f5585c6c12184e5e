-- ===== src/Relationships/Counts.antt =====
-- The counters of a profile against the rows of `relationship`.
use mitra.Database.Triples.{Ensures, Ensures-weaken}
use mitra.Prelude.Keyed.{found_after}
use mitra.Prelude.Int.{ℤ, pos, negsuc, add_count}
use mitra.Prelude.{
  ℕ, ◌≤◌, ◌≡◌, Bool, ◌&&◌, List, some, find, tally, ◌==◌, ◌∙◌, arith, ◌+◌, if◌then◌else◌, modify,
  ◌-◌, Option, suc, sym, ap, refl, inl, inr, true, false, ==_iff, Option-cases, none,
}
use mitra.Profiles.Types.{DbActorProfile}
use mitra.Profiles.Queries.{
  profile_id, update_count, with_followers, with_following, with_subscribers,
  update_following_count, update_subscriber_count, update_follower_count,
}
use mitra.Relationships.Types.{RelationshipType, type_eq, follow_type, subscription, Relationship}
use mitra.Relationships.Table.{by_key}
use mitra.Schema.{Tables}

-- The rows that make up each counter.
abbrev pub is_follower_of : ℕ → Relationship → Bool
is_follower_of id r = r.target_id == id && type_eq r.relationship_type follow_type

abbrev pub is_followed_by : ℕ → Relationship → Bool
is_followed_by id r = r.source_id == id && type_eq r.relationship_type follow_type

abbrev pub is_subscriber_of : ℕ → Relationship → Bool
is_subscriber_of id r = r.target_id == id && type_eq r.relationship_type subscription

-- Each profile that can be loaded shows, in one counter, the number `F` of its identifier.
abbrev pub Counts : (DbActorProfile → ℕ) → (ℕ → ℕ) → List DbActorProfile → Type 0
Counts count F rows =
    (id : ℕ) (p : DbActorProfile) → find (profile_id id) rows ≡ some p → count p ≡ F id

pub record Shows (F G S : ℕ → ℕ) (rows : List DbActorProfile) : Type 0 where
  pub followers : Counts (λ p. p.follower_count) F rows
  pub following : Counts (λ p. p.following_count) G rows
  pub subscribers : Counts (λ p. p.subscriber_count) S rows

-- No relationship is stored twice.
abbrev pub IsUnique : List Relationship → Type 0
IsUnique rows =
    (source target : ℕ) (type : RelationshipType) → tally (by_key source target type) rows ≤ 1

pub record IsAccurate (t : Tables) : Type 0 where
  pub shows :
      Shows
        (λ id. tally (is_follower_of id) t.relationship)
        (λ id. tally (is_followed_by id) t.relationship)
        (λ id. tally (is_subscriber_of id) t.relationship)
        t.actor_profile
  pub unique : IsUnique t.relationship

-- The counter after a change that the column accepts.
abbrev pub shift : ℕ → ℤ → ℕ
shift n (pos k) = n + k
shift n (negsuc k) = n - suc k

pub add_count-eq-shift : (n m : ℕ) (c : ℤ) → add_count n c ≡ some m → m ≡ shift n c
unfolding add_count
add_count-eq-shift n m (pos k) e = ground arith
add_count-eq-shift n m (negsuc k) e = ground arith

-- `F` with one value changed.
abbrev pub bump : ℕ → ℤ → (ℕ → ℕ) → ℕ → ℕ
bump id c F k = if k == id then shift (F k) c else F k

module _ (count : DbActorProfile → ℕ) (put : ℕ → DbActorProfile → DbActorProfile) (id : ℕ) (c : ℤ)
    (t : Tables) where
  abbrev pub Updated : DbActorProfile → Tables → Type 0
  Updated _ t' =
      (p : DbActorProfile) × (find (profile_id id) t.actor_profile ≡ some p)
      × (t' ≡ record t {
        actor_profile = modify (profile_id id) (put (shift (count p) c)) t.actor_profile;
      })

  update_found :
      (p : DbActorProfile)
      → find (profile_id id) t.actor_profile ≡ some p
      → (m : Option ℕ) → add_count (count p) c ≡ m
      → (b : Bool) → p.consistent ≡ b
      → Ensures Updated (update_count count put id c t)
  unfolding update_count
  update_found p found none m b k = rw (found, m, update_count) tt
  update_found p found (some n) m false k = rw (found, update_count, m, k) tt
  update_found p found (some n) m true k =
      rw (found, update_count, m, k) (p, found, rw (add_count-eq-shift (count p) n c m) refl)

  -- A counter that is updated has changed by `c`, and so has nothing else.
  pub update_outcome : Ensures Updated (update_count count put id c t)
  unfolding update_count
  update_outcome = elim (Option-cases (find (profile_id id) t.actor_profile)) [
    | inl missing ↦ rw (missing, update_count) tt
    | inr (p, found) ↦ update_found p found _ refl _ refl
  ]

-- The three counters under an update of a profile's row.
module _ (count : DbActorProfile → ℕ) (put : DbActorProfile → DbActorProfile)
    (keeps : (x : DbActorProfile) → (put x).id ≡ x.id) (F : ℕ → ℕ) (rows : List DbActorProfile)
    (id : ℕ) (h : Counts count F rows) where
  Counts-kept :
      ((x : DbActorProfile) → count (put x) ≡ count x)
      → Counts count F (modify (profile_id id) put rows)
  Counts-kept same k j e = elim (found_after (λ x. x.id) put keeps rows id k j e) [
    | inl (q, (x, found, r)) ↦ ap count (sym r) ∙ same x ∙ h id x found ∙ ap F (sym q)
    | inr (other, found) ↦ h k j found
  ]

  Counts-changed :
      (c : ℤ) (p : DbActorProfile)
      → find (profile_id id) rows ≡ some p
      → ((x : DbActorProfile) → count (put x) ≡ shift (count p) c)
      → Counts count (bump id c F) (modify (profile_id id) put rows)
  Counts-changed c p found put_shift k j e =
      elim (found_after (λ x. x.id) put keeps rows id k j e) [
        | inl (q, (x, _, r)) ↦ rw ((==_iff k id).1 q) (
            ap count (sym r)
            ∙ put_shift x
            ∙ ap (λ n. shift n c) (h id p found)
            ∙ ap (λ z. shift (F z) c) (sym q))
        | inr (other, old) ↦ rw other (h k j old)
      ]

-- An update of one counter of a profile: its number is changed, all else is kept.
abbrev pub Bumped : (ℕ → ℕ) → (ℕ → ℕ) → (ℕ → ℕ) → Tables → DbActorProfile → Tables → Type 0
Bumped F G S t _ t' = Shows F G S t'.actor_profile × (t'.relationship ≡ t.relationship)

module _ (F G S : ℕ → ℕ) (id : ℕ) (c : ℤ) (t : Tables) (s : Shows F G S t.actor_profile) where
  followers-Updated :
      (a : DbActorProfile) (t' : Tables)
      → Updated (λ p. p.follower_count) with_followers id c t a t'
      → Bumped (bump id c F) G S t a t'
  followers-Updated a t' (p, found, e) = rw e (
    record {
      followers =
          Counts-changed (λ p. p.follower_count) _ (λ x. refl) F t.actor_profile id s.followers c p
            found (λ x. refl);
      following =
          Counts-kept (λ p. p.following_count) _ (λ x. refl) G t.actor_profile id s.following
            (λ x. refl);
      subscribers =
          Counts-kept (λ p. p.subscriber_count) _ (λ x. refl) S t.actor_profile id s.subscribers
            (λ x. refl);
    },
    refl,
  )

  following-Updated :
      (a : DbActorProfile) (t' : Tables)
      → Updated (λ p. p.following_count) with_following id c t a t'
      → Bumped F (bump id c G) S t a t'
  following-Updated a t' (p, found, e) = rw e (
    record {
      followers =
          Counts-kept (λ p. p.follower_count) _ (λ x. refl) F t.actor_profile id s.followers
            (λ x. refl);
      following =
          Counts-changed (λ p. p.following_count) _ (λ x. refl) G t.actor_profile id s.following c p
            found (λ x. refl);
      subscribers =
          Counts-kept (λ p. p.subscriber_count) _ (λ x. refl) S t.actor_profile id s.subscribers
            (λ x. refl);
    },
    refl,
  )

  subscribers-Updated :
      (a : DbActorProfile) (t' : Tables)
      → Updated (λ p. p.subscriber_count) with_subscribers id c t a t'
      → Bumped F G (bump id c S) t a t'
  subscribers-Updated a t' (p, found, e) = rw e (
    record {
      followers =
          Counts-kept (λ p. p.follower_count) _ (λ x. refl) F t.actor_profile id s.followers
            (λ x. refl);
      following =
          Counts-kept (λ p. p.following_count) _ (λ x. refl) G t.actor_profile id s.following
            (λ x. refl);
      subscribers =
          Counts-changed (λ p. p.subscriber_count) _ (λ x. refl) S t.actor_profile id s.subscribers
            c p found (λ x. refl);
    },
    refl,
  )

  pub update_follower_count-Bumped :
      Ensures (Bumped (bump id c F) G S t) (update_follower_count id c t)
  unfolding update_follower_count
  update_follower_count-Bumped = Ensures-weaken _ _ _ followers-Updated (update_outcome _ _ id c t)

  pub update_following_count-Bumped :
      Ensures (Bumped F (bump id c G) S t) (update_following_count id c t)
  unfolding update_following_count
  update_following_count-Bumped = Ensures-weaken _ _ _ following-Updated (update_outcome _ _ id c t)

  pub update_subscriber_count-Bumped :
      Ensures (Bumped F G (bump id c S) t) (update_subscriber_count id c t)
  unfolding update_subscriber_count
  update_subscriber_count-Bumped =
      Ensures-weaken _ _ _ subscribers-Updated (update_outcome _ _ id c t)
