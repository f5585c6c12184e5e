-- ===== src/Relationships/Changes.antt =====
-- The operations that change what is counted, followed from call to call.
use mitra.Prelude.{ℕ, ◌≡◌, refl, Bool, true, not, ◌&&◌, ◌⊎◌, inl, inr, Option, ltb, ◌==◌, is_none}
use mitra.Prelude.Int.{ℤ, pos, negsuc}
use mitra.Database.{Query, already_exists, not_found, pure, ensure, ◌>>=◌, ◌>>◌}
use mitra.Database.Triples.{Ensures, Ensures-bind}
use mitra.Profiles.Types.{has_user_account}
use mitra.Profiles.Queries.{update_follower_count, update_following_count, update_subscriber_count}
use mitra.Notifications.Queries.{create_follow_notification}
use mitra.Relationships.Types.{
  follow_type, subscription, reject, hide_reposts_type, hide_replies_type,
}
use mitra.Relationships.Table.{insert_relationship, insert_or_ignore, delete_relationship}
use mitra.Relationships.Requests.{delete_follow_request_opt}
use mitra.Relationships.Queries.{follow, unfollow, after_unfollow, show_reposts, show_replies, when}
use mitra.Relationships.Counts.{IsAccurate, bump}
use mitra.Relationships.Balance
use mitra.Relationships.Balance.{Balanced, Balanced-IsAccurate}
use mitra.Relationships.Figures.{
  Figures, Fits, Moves, Moves-bind, Moves-pure, IsQuiet-Moves, level, Settles, Moves-Settles,
  Moves-transaction, Settles-transaction,
}
use mitra.Schema.{Tables}
use mitra.Relationships.Moves.{
  delete_follow_request_opt-IsQuiet, create_follow_notification-Moves, when-Moves, ensure-Moves,
  delete_other-Moves,
}

-- The figures while `follow` is under way.
module _ (source target : ℕ) (F G S : ℕ → ℕ) where
  -- A follow row is `c` more for the target's followers and for the source's followed profiles.
  abbrev pub rows_moved : ℤ → Figures
  rows_moved c = record {
    followers = F;
    following = G;
    subscribers = S;
    follower_rows = bump target c F;
    following_rows = bump source c G;
    subscriber_rows = S;
  }

  abbrev pub followers_moved : ℤ → Figures
  followers_moved c = record {
    followers = bump target c F;
    following = G;
    subscribers = S;
    follower_rows = bump target c F;
    following_rows = bump source c G;
    subscriber_rows = S;
  }

  abbrev pub both_moved : ℤ → Figures
  both_moved c = record {
    followers = bump target c F;
    following = bump source c G;
    subscribers = S;
    follower_rows = bump target c F;
    following_rows = bump source c G;
    subscriber_rows = S;
  }

  abbrev pub subscribers_rows_moved : ℤ → Figures
  subscribers_rows_moved c = record {
    followers = F;
    following = G;
    subscribers = S;
    follower_rows = F;
    following_rows = G;
    subscriber_rows = bump target c S;
  }

  abbrev pub subscribers_moved : ℤ → Figures
  subscribers_moved c = record {
    followers = F;
    following = G;
    subscribers = bump target c S;
    follower_rows = F;
    following_rows = G;
    subscriber_rows = bump target c S;
  }

  pub follow_body : Moves (level F G S) (both_moved (pos 1)) (do
    relationship_id ← insert_relationship (already_exists "relationship") source target follow_type
    delete_relationship target source reject
    target_profile ← update_follower_count target (pos 1)
    update_following_count source (pos 1)
    when
        (has_user_account target_profile && not target_profile.manually_approves_followers)
        (create_follow_notification source target)
    pure relationship_id)
  follow_body =
      Moves-bind (level F G S) (rows_moved (pos 1)) (both_moved (pos 1)) _ _
        (record { from = λ t b. Balance.insert_follow source target _ _ _ _ _ _ t b _ })
        (λ id.
          Moves-bind (rows_moved (pos 1)) (rows_moved (pos 1)) (both_moved (pos 1)) _ _
            (delete_other-Moves (rows_moved (pos 1)) target source reject refl refl)
            (λ _.
              Moves-bind (rows_moved (pos 1)) (followers_moved (pos 1)) (both_moved (pos 1)) _ _
                (record { from = λ t b. Balance.count_followers target (pos 1) _ _ _ _ _ _ t b })
                (λ target_profile.
                  Moves-bind (followers_moved (pos 1)) (both_moved (pos 1)) (both_moved (pos 1)) _ _
                    (record {
                      from = λ t b. Balance.count_following source (pos 1) _ _ _ _ _ _ t b;
                    })
                    (λ _.
                      Moves-bind (both_moved (pos 1)) (both_moved (pos 1)) (both_moved (pos 1)) _ _
                        (when-Moves (both_moved (pos 1)) _ _
                          (create_follow_notification-Moves (both_moved (pos 1)) source target))
                        (λ _. Moves-pure (both_moved (pos 1)) id)))))

  pub follow-Moves : Moves (level F G S) (both_moved (pos 1)) (follow source target)
  unfolding follow
  follow-Moves = Moves-transaction _ _ _ follow_body

  pub counted_subscriber :
      (c : ℤ)
      → Moves
          (subscribers_rows_moved c)
          (subscribers_moved c)
          (do update_subscriber_count target c; pure tt)
  counted_subscriber c =
      Moves-bind (subscribers_rows_moved c) (subscribers_moved c) (subscribers_moved c) _ _
        (record { from = λ t b. Balance.count_subscribers target c _ _ _ _ _ _ t b })
        (λ _. Moves-pure (subscribers_moved c) tt)

  pub subscribe_body : Moves (level F G S) (subscribers_moved (pos 1)) (do
    insert_relationship (already_exists "relationship") source target subscription
    update_subscriber_count target (pos 1)
    pure tt)
  subscribe_body =
      Moves-bind (level F G S) (subscribers_rows_moved (pos 1)) (subscribers_moved (pos 1)) _ _
        (record { from = λ t b. Balance.insert_subscription source target _ _ _ _ _ _ t b _ })
        (λ _. counted_subscriber (pos 1))

  after_unfollow-Moves :
      Moves (rows_moved (negsuc 0)) (both_moved (negsuc 0)) (after_unfollow source target)
  unfolding after_unfollow show_reposts show_replies
  after_unfollow-Moves =
      Moves-bind (rows_moved (negsuc 0)) (rows_moved (negsuc 0)) (both_moved (negsuc 0)) _ _
        (Moves-bind (rows_moved (negsuc 0)) (rows_moved (negsuc 0)) (rows_moved (negsuc 0)) _ _
          (delete_other-Moves (rows_moved (negsuc 0)) source target hide_reposts_type refl refl)
          (λ _. Moves-pure (rows_moved (negsuc 0)) tt))
        (λ _.
          Moves-bind (rows_moved (negsuc 0)) (rows_moved (negsuc 0)) (both_moved (negsuc 0)) _ _
            (Moves-bind (rows_moved (negsuc 0)) (rows_moved (negsuc 0)) (rows_moved (negsuc 0)) _ _
              (delete_other-Moves (rows_moved (negsuc 0)) source target hide_replies_type refl refl)
              (λ _. Moves-pure (rows_moved (negsuc 0)) tt))
            (λ _.
              Moves-bind (rows_moved (negsuc 0)) (followers_moved (negsuc 0))
                (both_moved (negsuc 0)) _ _
                (record { from = λ t b. Balance.count_followers target (negsuc 0) _ _ _ _ _ _ t b })
                (λ _.
                  Moves-bind (followers_moved (negsuc 0)) (both_moved (negsuc 0))
                    (both_moved (negsuc 0)) _ _
                    (record {
                      from = λ t b. Balance.count_following source (negsuc 0) _ _ _ _ _ _ t b;
                    })
                    (λ _. Moves-pure (both_moved (negsuc 0)) tt))))

  -- What `unfollow` does once it knows the number of deleted rows.
  abbrev rest_of_unfollow : ℕ → Query Tables (Option (ℕ × Bool))
  rest_of_unfollow deleted_count = do
    follow_request_deleted ← delete_follow_request_opt source target
    ensure (not (deleted_count == 0 && is_none follow_request_deleted)) (not_found "relationship")
    when (ltb 0 deleted_count) (after_unfollow source target)
    pure follow_request_deleted

  rest_of_unfollow-Moves :
      (x y : Figures) (n : ℕ)
      → Moves x y (when (ltb 0 n) (after_unfollow source target))
      → Moves x y (rest_of_unfollow n)
  rest_of_unfollow-Moves x y n h =
      Moves-bind x x y _ _ (IsQuiet-Moves x _ (delete_follow_request_opt-IsQuiet source target))
        (λ r.
          Moves-bind x x y _ _ (ensure-Moves x _ _)
            (λ _. Moves-bind x y y _ _ h (λ _. Moves-pure y r)))

  pub unfollow_body : Settles (level F G S) (do
    deleted_count ← delete_relationship source target follow_type
    rest_of_unfollow deleted_count)
  unfollow_body = record {
    from = λ t b.
        Ensures-bind
          (λ n t'. ((n ≡ 0) × Fits (level F G S) t') ⊎ ((n ≡ 1) × Fits (rows_moved (negsuc 0)) t'))
          (λ _ t'. IsAccurate t') _ _ t (Balance.delete_follow source target _ _ _ _ _ _ t b)
          (λ n t' c. elim c [
            | inl (no_row, fits) ↦
                (Moves-Settles (level F G S) F G S _ (
                    rest_of_unfollow-Moves (level F G S) (level F G S) n
                      (rw no_row (Moves-pure (level F G S) tt)))).from
                  t' fits
            | inr (one_row, fits) ↦
                (Moves-Settles (rows_moved (negsuc 0)) _ _ _ _ (
                    rest_of_unfollow-Moves (rows_moved (negsuc 0)) (both_moved (negsuc 0)) n
                      (rw one_row after_unfollow-Moves))).from
                  t' fits
          ]);
  }

  pub subscribe_opt_body : Settles (level F G S) (do
    inserted_count ← insert_or_ignore source target subscription
    when (ltb 0 inserted_count) (do update_subscriber_count target (pos 1); pure tt))
  subscribe_opt_body = record {
    from = λ t b.
        Ensures-bind
          (λ n t'.
            ((n ≡ 0) × Fits (level F G S) t')
            ⊎ ((n ≡ 1) × Fits (subscribers_rows_moved (pos 1)) t'))
          (λ _ t'. IsAccurate t') _ _ t
          (Balance.insert_or_ignore_subscription source target _ _ _ _ _ _ t b)
          (λ n t' c. elim c [
            | inl (no_row, fits) ↦ rw no_row (Balanced-IsAccurate F G S t' fits)
            | inr (one_row, fits) ↦ rw one_row (
                (Moves-Settles (subscribers_rows_moved (pos 1)) _ _ _ _
                    (counted_subscriber (pos 1))).from
                  t' fits)
          ]);
  }

  -- What `unsubscribe` does once it knows the number of deleted rows.
  abbrev pub rest_of_unsubscribe : ℕ → Query Tables (Unit {0})
  rest_of_unsubscribe deleted_count = do
    ensure (not (deleted_count == 0)) (not_found "relationship")
    update_subscriber_count target (negsuc 0)
    pure tt

  rest_of_unsubscribe-one : Settles (subscribers_rows_moved (negsuc 0)) (rest_of_unsubscribe 1)
  rest_of_unsubscribe-one = Moves-Settles (subscribers_rows_moved (negsuc 0)) _ _ _ _ (
      Moves-bind (subscribers_rows_moved (negsuc 0)) (subscribers_rows_moved (negsuc 0)) _ _ _
        (ensure-Moves (subscribers_rows_moved (negsuc 0)) true (not_found "relationship"))
        (λ _. counted_subscriber (negsuc 0)))

  rest_of_unsubscribe-zero :
      (t : Tables) → Ensures (λ _ t'. IsAccurate t') (rest_of_unsubscribe 0 t)
  unfolding ◌>>=◌
  rest_of_unsubscribe-zero t = tt

  pub unsubscribe_body : Settles (level F G S) (do
    deleted_count ← delete_relationship source target subscription
    rest_of_unsubscribe deleted_count)
  unsubscribe_body = record {
    from = λ t b.
        Ensures-bind
          (λ n t'.
            ((n ≡ 0) × Fits (level F G S) t')
            ⊎ ((n ≡ 1) × Fits (subscribers_rows_moved (negsuc 0)) t'))
          (λ _ t'. IsAccurate t') rest_of_unsubscribe _ t
          (Balance.delete_subscription source target _ _ _ _ _ _ t b)
          (λ n t' c. elim c [
            | inl (no_row, fits) ↦ rw no_row (rest_of_unsubscribe-zero t')
            | inr (one_row, fits) ↦ rw one_row (rest_of_unsubscribe-one.from t' fits)
          ]);
  }

  pub unfollow-Settles : Settles (level F G S) (unfollow source target)
  unfolding unfollow
  unfollow-Settles = Settles-transaction (level F G S) _ unfollow_body
