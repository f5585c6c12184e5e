-- ===== src/Subscriptions/Accuracy.antt =====
-- Subscriptions and the counters of profiles.
use mitra.Prelude.{
  ℕ, ◌≡◌, refl, Option, none, some, Bool, true, false, ◌&&◌, any, find, ltb, ◌==◌, Bool-cases,
  Option-cases, inl, inr,
}
use mitra.Database.{Query, Result, ok, err, panicked, lift, ◌>>=◌}
use mitra.Relationships.Queries.{subscribe_opt, when}
use mitra.Relationships.Counts.{IsAccurate}
use mitra.Relationships.Figures.{
  level, Moves-pure, IsQuiet, IsQuiet-Moves, Settles, Settles-bind, Settles-then,
  Settles-transaction, Moves-Settles, IsAccurate-transaction,
}
use mitra.Relationships.Changes
use mitra.Subscriptions.Types.{Subscription}
use mitra.Subscriptions.Queries.{
  by_pair, subscription_id, insert_subscription, renew_subscription, create_subscription,
  update_subscription, get_subscription_by_participants,
}
use mitra.Subscriptions.Payments.{create_or_update_subscription}
use mitra.Schema.{Tables, is_profile}

insert_subscription-IsQuiet :
    (sender recipient e u : ℕ) → IsQuiet (insert_subscription sender recipient e u)
unfolding insert_subscription
insert_subscription-IsQuiet sender recipient e u = record {
  from = λ t. elim (Bool-cases (sender == recipient)) [
    | inl same ↦ rw (same, insert_subscription) tt
    | inr apart ↦ elim (Bool-cases (any (by_pair sender recipient) t.subscription)) [
      | inl there ↦ rw (apart, there, insert_subscription) tt
      | inr absent ↦ elim (Bool-cases (is_profile t sender && is_profile t recipient)) [
        | inl profiles ↦
            rw (apart, absent, profiles, insert_subscription)
              (record { relationship = refl; actor_profile = refl })
        | inr missing ↦ rw (apart, absent, missing, insert_subscription) tt
      ]
    ]
  ];
}

renew_subscription-IsQuiet : (id e u : ℕ) → IsQuiet (renew_subscription id e u)
unfolding renew_subscription
renew_subscription-IsQuiet id e u = record {
  from = λ t. elim (Option-cases (find (subscription_id id) t.subscription)) [
    | inl missing ↦ rw (missing, renew_subscription) tt
    | inr (s, found) ↦
        rw (found, renew_subscription) (record { relationship = refl; actor_profile = refl })
  ];
}

module _ (F G S : ℕ → ℕ) where
  subscribe_opt-Settles : (source target : ℕ) → Settles (level F G S) (subscribe_opt source target)
  unfolding subscribe_opt
  subscribe_opt-Settles source target =
      Settles-transaction (level F G S) _ (Changes.subscribe_opt_body source target F G S)

  maybe_subscribe :
      (b : Bool) (source target : ℕ) → Settles (level F G S) (when b (subscribe_opt source target))
  maybe_subscribe true source target = subscribe_opt-Settles source target
  maybe_subscribe false source target =
      Moves-Settles (level F G S) F G S _ (Moves-pure (level F G S) tt)

pub create_subscription-IsAccurate :
    (t : Tables)
    → IsAccurate t
    → (sender recipient e u : ℕ) → IsAccurate (create_subscription sender recipient e u t).1
unfolding create_subscription
create_subscription-IsAccurate t h sender recipient e u = IsAccurate-transaction t _ h (λ F G S.
    Settles-bind (level F G S) (level F G S) _ _
      (IsQuiet-Moves (level F G S) _ (insert_subscription-IsQuiet sender recipient e u))
      (λ s.
        Settles-then (level F G S) _ s (subscribe_opt-Settles F G S s.sender_id s.recipient_id)))

pub update_subscription-IsAccurate :
    (t : Tables) → IsAccurate t → (id e u : ℕ) → IsAccurate (update_subscription id e u t).1
unfolding update_subscription
update_subscription-IsAccurate t h id e u = IsAccurate-transaction t _ h (λ F G S.
    Settles-bind (level F G S) (level F G S) _ _
      (IsQuiet-Moves (level F G S) _ (renew_subscription-IsQuiet id e u))
      (λ s.
        Settles-bind (level F G S) (level F G S) _ _ (record { from = λ t b. b })
          (λ now.
            Settles-then (level F G S) _ s
              (maybe_subscribe F G S (ltb now e) s.sender_id s.recipient_id))))

module _ (t : Tables) (h : IsAccurate t) (next : Option ℕ → Result ℕ) (sender recipient : ℕ) where
  lifted :
      (r : Result ℕ) (k : ℕ → Query Tables Subscription)
      → ((e : ℕ) → IsAccurate (k e t).1)
      → IsAccurate ((lift r >>= k) t).1
  unfolding ◌>>=◌
  lifted (ok e) k a = a e
  lifted (err x) k a = h
  lifted (panicked m) k a = h

  either :
      (o : Option Subscription)
      → find (by_pair sender recipient) t.subscription ≡ o
      → IsAccurate (create_or_update_subscription sender recipient next t).1
  unfolding create_or_update_subscription ◌>>=◌
  either none e =
      rw (e, create_or_update_subscription, get_subscription_by_participants)
        (lifted (next none) _ (λ x. create_subscription-IsAccurate t h sender recipient x t.clock))
  either (some s) e =
      rw (e, create_or_update_subscription, get_subscription_by_participants)
        (lifted (next (some s.expires_at)) _
          (λ x. update_subscription-IsAccurate t h s.id x t.clock))

-- A payment for a subscription keeps the counters of all profiles equal to the numbers of rows, and
-- every relationship unique, whether it creates the subscription, renews it or fails.
pub create_or_update_subscription-IsAccurate :
    (t : Tables)
    → IsAccurate t
    → (next : Option ℕ → Result ℕ) (sender recipient : ℕ)
    → IsAccurate (create_or_update_subscription sender recipient next t).1
create_or_update_subscription-IsAccurate t h next sender recipient =
    either t h next sender recipient _ refl
