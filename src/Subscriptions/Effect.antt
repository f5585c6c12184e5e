-- ===== src/Subscriptions/Effect.antt =====
-- What a payment leaves in the tables.
use mitra.Prelude.{
  ℕ, ◌<◌, ◌≡◌, refl, some, Bool, true, false, ◌&&◌, any, find, ltb, ◌==◌, ==_iff, ==_refl,
  Bool-cases, inl, inr, arith, any-append_hit, find_appended, find-modify_within, find_passes,
}
use mitra.Prelude.Int.{pos}
use mitra.Database.{pure, ◌>>=◌, ◌>>◌}
use mitra.Database.Triples.{Ensures, Ensures-bind, Ensures-weaken, Ensures-transaction}
use mitra.Profiles.Queries.{update_subscriber_count, with_subscribers}
use mitra.Relationships.Types.{subscription}
use mitra.Relationships.Table.{by_key, new_row, insert_or_ignore}
use mitra.Relationships.Queries.{subscribe_opt, when}
use mitra.Relationships.Counts.{update_outcome}
use mitra.Subscriptions.Types.{Subscription}
use mitra.Subscriptions.Queries.{
  by_pair, subscription_id, new_subscription, renewed, insert_subscription, renew_subscription,
}
use mitra.Schema.{Tables, is_profile}

-- The pair is in the relation of subscribers; the subscriptions are as they were.
pub record IsSubscribed (sender recipient : ℕ) (t t' : Tables) : Type 0 where
  pub kept : t'.subscription ≡ t.subscription
  pub there : any (by_key sender recipient subscription) t'.relationship ≡ true

module _ (sender recipient : ℕ) where
  new_row_hit :
      (t : Tables)
      → by_key sender recipient subscription (new_row sender recipient subscription t) ≡ true
  new_row_hit t = ground arith

  row_there :
      (t : Tables)
      → Ensures
          (λ _ t'. IsSubscribed sender recipient t t')
          (insert_or_ignore sender recipient subscription t)
  unfolding insert_or_ignore
  row_there t = elim (Bool-cases (sender == recipient)) [
    | inl same ↦ rw (same, insert_or_ignore) tt
    | inr apart ↦ elim (Bool-cases (any (by_key sender recipient subscription) t.relationship)) [
      | inl there ↦ rw (apart, there, insert_or_ignore) (record { kept = refl; there = there })
      | inr absent ↦ elim (Bool-cases (is_profile t sender && is_profile t recipient)) [
        | inl profiles ↦
            rw (apart, absent, profiles, insert_or_ignore)
              (record {
                kept = refl;
                there =
                    any-append_hit (by_key sender recipient subscription) t.relationship
                      (new_row sender recipient subscription t) (new_row_hit t);
              })
        | inr missing ↦ rw (apart, absent, missing, insert_or_ignore) tt
      ]
    ]
  ]

  counted :
      (t u : Tables)
      → IsSubscribed sender recipient t u
      → Ensures
          (λ _ t'. IsSubscribed sender recipient t t')
          (update_subscriber_count recipient (pos 1) u)
  unfolding update_subscriber_count
  counted t u h =
      Ensures-weaken _ (λ _ t'. IsSubscribed sender recipient t t')
        (update_subscriber_count recipient (pos 1) u)
        (λ _ t' (p, found, e). rw e (record { kept = h.kept; there = h.there }))
        (update_outcome (λ p. p.subscriber_count) with_subscribers recipient (pos 1) u)

  maybe_counted :
      (b : Bool) (t u : Tables)
      → IsSubscribed sender recipient t u
      → Ensures
          (λ _ t'. IsSubscribed sender recipient t t')
          (when b (do update_subscriber_count recipient (pos 1); pure tt) u)
  maybe_counted true t u h =
      Ensures-bind (λ _ t'. IsSubscribed sender recipient t t')
        (λ _ t'. IsSubscribed sender recipient t t') _ (update_subscriber_count recipient (pos 1)) u
        (counted t u h) (λ a t' c. c)
  maybe_counted false t u h = h

  subscribe_opt-IsSubscribed :
      (t : Tables)
      → Ensures (λ _ t'. IsSubscribed sender recipient t t') (subscribe_opt sender recipient t)
  unfolding subscribe_opt
  subscribe_opt-IsSubscribed t =
      Ensures-transaction (λ _ t'. IsSubscribed sender recipient t t') _ t
        (Ensures-bind (λ _ t'. IsSubscribed sender recipient t t')
          (λ _ t'. IsSubscribed sender recipient t t') _
          (insert_or_ignore sender recipient subscription) t (row_there t)
          (λ n t' c. maybe_counted (ltb 0 n) t t' c))

-- The pair has the subscription `s`, which lasts until `until`; if that is later than now, the sender
-- is a subscriber.
pub record IsPaid (sender recipient until now : ℕ) (s : Subscription) (t' : Tables) : Type 0 where
  pub stored : find (by_pair sender recipient) t'.subscription ≡ some s
  pub lasts : s.expires_at ≡ until
  pub subscribed : now < until → any (by_key sender recipient subscription) t'.relationship ≡ true

module _ (sender recipient until now : ℕ) (t : Tables) where
  -- A row that is stored under the pair.
  pub record IsHeld (s : Subscription) (t' : Tables) : Type 0 where
    pub stored : find (by_pair sender recipient) t'.subscription ≡ some s
    pub lasts : s.expires_at ≡ until
    pub from : s.sender_id ≡ sender
    pub to : s.recipient_id ≡ recipient
    pub clocked : t'.clock ≡ t.clock

  IsSubscribed-at :
      (a b : ℕ) (u : Tables)
      → a ≡ sender
      → b ≡ recipient
      → Ensures (λ _ t'. IsSubscribed sender recipient u t') (subscribe_opt a b u)
  IsSubscribed-at a b u p q = rw (p, q) (subscribe_opt-IsSubscribed sender recipient u)

  pub IsPaid-after :
      (s : Subscription) (u : Tables)
      → IsHeld s u
      → Ensures
          (λ s t'. IsPaid sender recipient until now s t')
          ((do subscribe_opt s.sender_id s.recipient_id; pure s) u)
  IsPaid-after s u h =
      Ensures-bind (λ _ t'. IsSubscribed sender recipient u t')
        (λ s t'. IsPaid sender recipient until now s t') (λ _. pure s)
        (subscribe_opt s.sender_id s.recipient_id) u
        (IsSubscribed-at s.sender_id s.recipient_id u h.from h.to)
        (λ _ t' c. record {
          stored = rw c.kept h.stored;
          lasts = h.lasts;
          subscribed = λ _. c.there;
        })

  pub IsPaid-when :
      (b : Bool)
      → ltb now until ≡ b
      → (s : Subscription) (u : Tables) → IsHeld s u
      → Ensures
          (λ s t'. IsPaid sender recipient until now s t')
          ((do when b (subscribe_opt s.sender_id s.recipient_id); pure s) u)
  unfolding ◌>>=◌
  IsPaid-when true e s u h = IsPaid-after s u h
  IsPaid-when false e s u h = record {
    stored = h.stored;
    lasts = h.lasts;
    subscribed = λ l. ground arith;
  }

  pub insert-IsHeld :
      Ensures (λ s t'. IsHeld s t') (insert_subscription sender recipient until now t)
  unfolding insert_subscription
  insert-IsHeld = elim (Bool-cases (sender == recipient)) [
    | inl same ↦ rw (same, insert_subscription) tt
    | inr apart ↦ elim (Bool-cases (any (by_pair sender recipient) t.subscription)) [
      | inl there ↦ rw (apart, there, insert_subscription) tt
      | inr absent ↦ elim (Bool-cases (is_profile t sender && is_profile t recipient)) [
        | inl profiles ↦
            rw (apart, absent, profiles, insert_subscription)
              (record {
                stored =
                    find_appended (by_pair sender recipient) t.subscription
                      (new_subscription t.next_subscription_id sender recipient until now) absent
                      (ground arith);
                lasts = refl;
                from = refl;
                to = refl;
                clocked = refl;
              })
        | inr missing ↦ rw (apart, absent, missing, insert_subscription) tt
      ]
    ]
  ]

  pub renew-IsHeld :
      (r : Subscription)
      → find (by_pair sender recipient) t.subscription ≡ some r
      → find (subscription_id r.id) t.subscription ≡ some r
      → Ensures (λ s t'. IsHeld s t') (renew_subscription r.id until now t)
  unfolding renew_subscription
  renew-IsHeld r by_both by_key =
      let hit : by_pair sender recipient r ≡ true =
        find_passes (by_pair sender recipient) t.subscription r by_both in
      rw (by_key, renew_subscription)
        (record {
          stored =
              find-modify_within (subscription_id r.id) (by_pair sender recipient)
                (renewed until now) (λ x. refl) t.subscription r by_both (==_refl r.id);
          lasts = refl;
          from = (==_iff r.sender_id sender).0 (ground arith);
          to = (==_iff r.recipient_id recipient).0 (ground arith);
          clocked = refl;
        })
