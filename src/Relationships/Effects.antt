-- ===== src/Relationships/Effects.antt =====
-- What the statements on `relationship` do to the rows, if they succeed.
use mitra.Prelude.{ℕ, ◌≡◌, refl, Bool, true, false, ◌&&◌, ◌⊎◌, inl, inr, any, ◌==◌}
use mitra.Database.{DatabaseError}
use mitra.Database.Triples.{Ensures}
use mitra.Relationships.Types.{RelationshipType}
use mitra.Relationships.Table.{by_key, add_row, insert_relationship, insert_or_ignore}
use mitra.Schema.{Tables, is_profile}

module _ (source target : ℕ) (type : RelationshipType) (t : Tables) where
  -- The new row stands last, and no row had its key.
  pub record IsAdded (t' : Tables) : Type 0 where
    pub is_new : any (by_key source target type) t.relationship ≡ false
    pub apart : (source == target) ≡ false
    pub added : t' ≡ add_row source target type t

  inserted :
      (violation : DatabaseError) (a b c : Bool)
      → (source == target) ≡ a
      → any (by_key source target type) t.relationship ≡ b
      → (is_profile t source && is_profile t target) ≡ c
      → Ensures (λ id t'. IsAdded t') (insert_relationship violation source target type t)
  unfolding insert_relationship
  inserted violation true b c p q r = rw (p, insert_relationship) tt
  inserted violation false true c p q r = rw (p, insert_relationship, q) tt
  inserted violation false false false p q r = rw (p, insert_relationship, q, r) tt
  inserted violation false false true p q r =
      rw (p, insert_relationship, q, r) (record { is_new = q; apart = p; added = refl })

  pub insert_relationship-IsAdded :
      (violation : DatabaseError)
      → Ensures (λ id t'. IsAdded t') (insert_relationship violation source target type t)
  insert_relationship-IsAdded violation = inserted violation _ _ _ refl refl refl

  ignored :
      (a b c : Bool)
      → (source == target) ≡ a
      → any (by_key source target type) t.relationship ≡ b
      → (is_profile t source && is_profile t target) ≡ c
      → Ensures
          (λ n t'. ((n ≡ 0) × (t' ≡ t)) ⊎ ((n ≡ 1) × IsAdded t'))
          (insert_or_ignore source target type t)
  unfolding insert_or_ignore
  ignored true b c p q r = rw (p, insert_or_ignore) tt
  ignored false true c p q r = rw (p, insert_or_ignore, q) (inl (refl, refl))
  ignored false false false p q r = rw (p, insert_or_ignore, q, r) tt
  ignored false false true p q r =
      rw (p, insert_or_ignore, q, r) (inr (refl, record { is_new = q; apart = p; added = refl }))

  -- Either the key was there and nothing changed, or the row was added.
  pub insert_or_ignore-IsAdded :
      Ensures
        (λ n t'. ((n ≡ 0) × (t' ≡ t)) ⊎ ((n ≡ 1) × IsAdded t'))
        (insert_or_ignore source target type t)
  insert_or_ignore-IsAdded = ignored _ _ _ refl refl refl
