-- ===== src/Subscriptions/Paid.antt =====
-- The subscription that a payment leaves.
use mitra.Prelude.Int.{ℤ, pos, negsuc}
use mitra.Prelude.{ℕ, suc, ◌+◌, ◌*◌, ◌≡◌, refl, Option, none, some, find, ltb}
use mitra.Database.{ok, ◌>>=◌}
use mitra.Database.Triples.{Ensures, Ensures-bind, Ensures-weaken, Ensures-transaction}
use mitra.Subscriptions.Types.{Subscription}
use mitra.Subscriptions.Queries.{
  by_pair, subscription_id, insert_subscription, renew_subscription, create_subscription,
  update_subscription, get_subscription_by_participants,
}
use mitra.Subscriptions.Payments.{create_or_update_local_subscription, max}
use mitra.Schema.{Tables}
use mitra.Subscriptions.Effect.{
  IsPaid, IsHeld, IsPaid-after, IsPaid-when, insert-IsHeld, renew-IsHeld,
}

-- What is paid for is added from the end of the subscription on, or from now on.
abbrev pub starts_at : Option Subscription → ℕ → ℕ
starts_at none now = now
starts_at (some s) now = max s.expires_at now

-- The date that is a number of seconds, which may be negative, after another. Dates are numbers of
-- microseconds; there is no such date if the seconds go back further than the first date.
abbrev pub IsAfter : ℕ → ℤ → ℕ → Type 0
IsAfter a (pos n) b = b ≡ a + n * 1_000_000
IsAfter a (negsuc n) b = b + suc n * 1_000_000 ≡ a

-- The PRIMARY KEY: a subscription is found by its identifier.
abbrev pub IsKeyed : Tables → Type 0
IsKeyed t =
    (sender recipient : ℕ) (s : Subscription)
    → find (by_pair sender recipient) t.subscription ≡ some s
    → find (subscription_id s.id) t.subscription ≡ some s

module _ (sender recipient until : ℕ) (t : Tables) where
  created :
      Ensures
        (λ s t'. IsPaid sender recipient until t.clock s t')
        (create_subscription sender recipient until t.clock t)
  unfolding create_subscription
  created =
      Ensures-transaction (λ s t'. IsPaid sender recipient until t.clock s t') _ t
        (Ensures-bind (λ s t'. IsHeld sender recipient until t.clock t s t')
          (λ s t'. IsPaid sender recipient until t.clock s t') _
          (insert_subscription sender recipient until t.clock) t
          (insert-IsHeld sender recipient until t.clock t)
          (λ s u h. IsPaid-after sender recipient until t.clock t s u h))

  renewed_subscription :
      (r : Subscription)
      → find (by_pair sender recipient) t.subscription ≡ some r
      → find (subscription_id r.id) t.subscription ≡ some r
      → Ensures
          (λ s t'. IsPaid sender recipient until t.clock s t')
          (update_subscription r.id until t.clock t)
  unfolding update_subscription
  renewed_subscription r e k =
      Ensures-transaction (λ s t'. IsPaid sender recipient until t.clock s t') _ t
        (Ensures-bind (λ s t'. IsHeld sender recipient until t.clock t s t')
          (λ s t'. IsPaid sender recipient until t.clock s t') _
          (renew_subscription r.id until t.clock) t
          (renew-IsHeld sender recipient until t.clock t r e k)
          (λ s u h.
            Ensures-bind (λ n v. (n ≡ t.clock) × IsHeld sender recipient until t.clock t s v)
              (λ s t'. IsPaid sender recipient until t.clock s t') _ (λ v. (ok v.clock, v)) u
              (h.clocked, h)
              (λ n v c.
                IsPaid-when sender recipient until t.clock t (ltb n until) (rw c.0 refl) s v c.1)))

-- The expiry is what the parameter adds to the start.
module _ (plus_seconds : ℕ → ℤ → Option ℕ)
    (adds : (a : ℕ) (n : ℤ) (b : ℕ) → plus_seconds a n ≡ some b → IsAfter a n b) where
  module _ (sender recipient : ℕ) (duration : ℤ) (t : Tables) (keyed : IsKeyed t) where
    -- The subscription ends at a date that is the duration after its start.
    abbrev Extended : Option Subscription → Subscription → Tables → Type 0
    Extended o s t' =
        (until : ℕ) × IsAfter (starts_at o t.clock) duration until
        × IsPaid sender recipient until t.clock s t'

    -- The case of each lookup and each outcome of the arithmetic.
    Extended-by :
        (o : Option Subscription)
        → find (by_pair sender recipient) t.subscription ≡ o
        → (until : Option ℕ) → plus_seconds (starts_at o t.clock) duration ≡ until
        → Ensures
            (Extended o)
            (create_or_update_local_subscription plus_seconds sender recipient duration t)
    unfolding create_or_update_local_subscription ◌>>=◌
    Extended-by none e none p = rw (e, p, get_subscription_by_participants) tt
    Extended-by none e (some until) p =
        rw (e, p, get_subscription_by_participants)
          (Ensures-weaken (λ s t'. IsPaid sender recipient until t.clock s t') (Extended none) _
            (λ s t' paid. (until, adds t.clock duration until p, paid))
            (created sender recipient until t))
    Extended-by (some r) e none p = rw (e, p, get_subscription_by_participants) tt
    Extended-by (some r) e (some until) p =
        rw (e, p, get_subscription_by_participants)
          (Ensures-weaken (λ s t'. IsPaid sender recipient until t.clock s t') (Extended (some r)) _
            (λ s t' paid. (until, adds (max r.expires_at t.clock) duration until p, paid))
            (renewed_subscription sender recipient until t r e (keyed sender recipient r e)))

  -- If adding a number of seconds, negative ones included, to a date gives that date or fails, and
  -- every stored subscription of a pair is found by its identifier, a payment that succeeds leaves the
  -- pair with one subscription that ends its duration after the later of now and its previous end, or
  -- after now if it is new; and the sender is a subscriber of the recipient, if time is left.
  pub create_or_update_local_subscription-IsPaid :
      (sender recipient : ℕ) (duration : ℤ) (s : Subscription) (t t' : Tables)
      → IsKeyed t
      → create_or_update_local_subscription plus_seconds sender recipient duration t ≡ (ok s, t')
      → (until : ℕ) × IsAfter
          (starts_at (find (by_pair sender recipient) t.subscription) t.clock)
          duration
          until
        × IsPaid sender recipient until t.clock s t'
  create_or_update_local_subscription-IsPaid sender recipient duration s t t' keyed e =
      let h = Extended-by sender recipient duration t keyed _ refl _ refl in rw e at h
