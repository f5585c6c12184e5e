-- ===== src/Relationships/Muting.antt =====
-- Mutes, and the announcement of followers.
use mitra.Prelude.{
  ℕ, ◌≡◌, refl, arith, true, false, Bool, not, ◌&&◌, any, remove, List, [], ◌∷◌, ◌++◌,
}
use mitra.Prelude.Int.{pos, ℤ}
use mitra.Database.{Query, already_exists, pure, ◌>>=◌, ◌>>◌, DatabaseError}
use mitra.Database.Triples.{Ensures, Ensures-weaken, Ensures-bind, transaction-keeps}
use mitra.Profiles.Types.{has_user_account}
use mitra.Profiles.Queries.{
  update_follower_count, update_following_count, with_followers, with_following,
}
use mitra.Notifications.Types.{Notification}
use mitra.Notifications.Queries.{create_follow_notification}
use mitra.Relationships.Types.{RelationshipType, follow_type, mute_type, reject, Relationship}
use mitra.Relationships.Table.{
  by_key, new_row, insert_relationship, delete_relationship, has_relationship,
}
use mitra.Relationships.Queries.{follow, when}
use mitra.Relationships.Counts.{update_outcome}
use mitra.Relationships.Effects.{IsAdded, insert_relationship-IsAdded}
use mitra.Schema.{Tables}

module _ (p : Relationship → Bool) where
  any-append : (xs ys : List Relationship) → any p xs ≡ true → any p (xs ++ ys) ≡ true
  any-append [] ys h = ground arith
  any-append (x ∷ xs) ys h = ground (arith, any-append xs ys)

module _ (p q : Relationship → Bool) where
  any-remove :
      ((x : Relationship) → q x ≡ true → p x ≡ false)
      → (xs : List Relationship) → any p xs ≡ true
      → any p (remove q xs) ≡ true
  unfolding remove
  any-remove apart [] h = ground arith
  any-remove apart (x ∷ xs) h = ground (arith, any-remove apart xs, apart x)

module _ (source target : ℕ) (told : List Notification) where
  -- The target has muted the source, and the notifications are `told`.
  record IsMuted (t : Tables) : Type 0 where
    muted : any (by_key target source mute_type) t.relationship ≡ true
    notified : t.notification ≡ told

  record Mutes {A : Type 0} (m : Query Tables A) : Type 0 where
    from : (t : Tables) → IsMuted t → Ensures (λ _ t'. IsMuted t') (m t)

  Mutes-bind :
      {A B : Type 0}
      → (m : Query Tables A) (n : A → Query Tables B) → Mutes m
      → ((a : A) → Mutes (n a))
      → Mutes (m >>= n)
  Mutes-bind m n h k = record {
    from = λ t b.
        Ensures-bind (λ _ t'. IsMuted t') (λ _ t'. IsMuted t') n m t (h.from t b)
          (λ a t' c. (k a).from t' c);
  }

  insert_relationship-Mutes :
      (e : DatabaseError) (a b : ℕ) (type : RelationshipType)
      → Mutes (insert_relationship e a b type)
  insert_relationship-Mutes e a b type = record {
    from = λ t h.
        Ensures-weaken (λ _ t'. IsAdded a b type t t') (λ _ t'. IsMuted t')
          (insert_relationship e a b type t)
          (λ _ t' d. rw d.added (record {
            muted =
                any-append (by_key target source mute_type) t.relationship (new_row a b type t ∷ [])
                  h.muted;
            notified = h.notified;
          }))
          (insert_relationship-IsAdded a b type t e);
  }

  delete_reject-Mutes : (a b : ℕ) → Mutes (delete_relationship a b reject)
  unfolding delete_relationship
  delete_reject-Mutes a b = record {
    from = λ t h. record {
      muted =
          any-remove (by_key target source mute_type) (by_key a b reject) (λ x r. ground arith)
            t.relationship h.muted;
      notified = h.notified;
    };
  }

  update_follower_count-Mutes : (id : ℕ) (c : ℤ) → Mutes (update_follower_count id c)
  unfolding update_follower_count
  update_follower_count-Mutes id c = record {
    from = λ t h.
        Ensures-weaken _ (λ _ t'. IsMuted t') _
          (λ _ t' (p, found, e). rw e (record { muted = h.muted; notified = h.notified }))
          (update_outcome (λ p. p.follower_count) with_followers id c t);
  }

  update_following_count-Mutes : (id : ℕ) (c : ℤ) → Mutes (update_following_count id c)
  unfolding update_following_count
  update_following_count-Mutes id c = record {
    from = λ t h.
        Ensures-weaken _ (λ _ t'. IsMuted t') _
          (λ _ t' (p, found, e). rw e (record { muted = h.muted; notified = h.notified }))
          (update_outcome (λ p. p.following_count) with_following id c t);
  }

  create_follow_notification-Mutes : Mutes (create_follow_notification source target)
  unfolding create_follow_notification has_relationship ◌>>=◌
  create_follow_notification-Mutes = record {
    from = λ t h. rw (h.muted, ◌>>=◌, has_relationship) h;
  }

  when-Mutes : (b : Bool) (m : Query Tables (Unit {0})) → Mutes m → Mutes (when b m)
  when-Mutes true m h = h
  when-Mutes false m h = record { from = λ t c. c }

  follow_body-Mutes : Mutes (do
    relationship_id ← insert_relationship (already_exists "relationship") source target follow_type
    delete_relationship target source reject
    target_profile ← update_follower_count target (pos 1)
    update_following_count source (pos 1)
    when
        (has_user_account target_profile && not target_profile.manually_approves_followers)
        (create_follow_notification source target)
    pure relationship_id)
  follow_body-Mutes = Mutes-bind _ _ (insert_relationship-Mutes _ source target follow_type) (λ id.
      Mutes-bind _ _ (delete_reject-Mutes target source) (λ _.
        Mutes-bind _ _ (update_follower_count-Mutes target (pos 1)) (λ p.
          Mutes-bind _ _ (update_following_count-Mutes source (pos 1)) (λ _.
            Mutes-bind _ _ (when-Mutes _ _ create_follow_notification-Mutes)
              (λ _. record { from = λ t h. h })))))

-- If the target has muted the source, following adds no notification, whether it succeeds or fails.
pub follow-mute :
    (source target : ℕ) (t : Tables)
    → any (by_key target source mute_type) t.relationship ≡ true
    → (follow source target t).1.notification ≡ t.notification
unfolding follow
follow-mute source target t h =
    let start : IsMuted source target t.notification t = record { muted = h; notified = refl } in
    (transaction-keeps (IsMuted source target t.notification) _ t start
      ((follow_body-Mutes source target t.notification).from t start)).notified
