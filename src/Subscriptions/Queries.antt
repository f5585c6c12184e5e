-- ===== src/Subscriptions/Queries.antt =====
-- mitra_models/src/subscriptions/queries.rs
use mitra.Prelude.{
  ℕ, ◌+◌, Option, none, some, Bool, true, false, not, ◌&&◌, List, [], ◌∷◌, ◌++◌, any, find, select,
  modify, tally, sort, take, ltb, leb, ◌==◌, is_some, if◌then◌else◌, ◌||◌,
}
use mitra.Database.{
  Query, Result, ok, err, type_error, client_error, already_exists, not_found, ok_or, pure,
  transaction, ◌>>=◌, ◌>>◌, panicked,
}
use mitra.Profiles.Types.{DbActorProfile}
use mitra.Profiles.Queries.{profile_id}
use mitra.Relationships.Types.{subscription}
use mitra.Relationships.Table.{by_key}
use mitra.Relationships.Queries.{subscribe_opt, when}
use mitra.Subscriptions.Types.{Subscription, SubscriptionDetailed}
use mitra.Schema.{Tables, is_profile}

abbrev pub subscription_id : ℕ → Subscription → Bool
subscription_id id s = s.id == id

abbrev pub by_pair : ℕ → ℕ → Subscription → Bool
by_pair sender recipient s = s.sender_id == sender && s.recipient_id == recipient

abbrev pub new_subscription : ℕ → ℕ → ℕ → ℕ → ℕ → Subscription
new_subscription id sender recipient expires_at updated_at = record {
  id = id;
  sender_id = sender;
  recipient_id = recipient;
  expires_at = expires_at;
  updated_at = updated_at;
}

-- INSERT, with the constraints of the table.
unfoldable pub insert_subscription : ℕ → ℕ → ℕ → ℕ → Query Tables Subscription
insert_subscription sender recipient expires_at updated_at t =
    let s = new_subscription t.next_subscription_id sender recipient expires_at updated_at in
    if sender == recipient
    then (err client_error, t)
    else if any (by_pair sender recipient) t.subscription
    then (err (already_exists "subscription"), t)
    else if not (is_profile t sender && is_profile t recipient)
    then (err client_error, t)
    else (
      ok s,
      record t {
        subscription = t.subscription ++ s ∷ [];
        next_subscription_id = t.next_subscription_id + 1;
      },
    )

unfoldable pub create_subscription : ℕ → ℕ → ℕ → ℕ → Query Tables Subscription
create_subscription sender recipient expires_at updated_at = transaction (do
  s ← insert_subscription sender recipient expires_at updated_at
  subscribe_opt s.sender_id s.recipient_id
  pure s)

abbrev pub renewed : ℕ → ℕ → Subscription → Subscription
renewed expires_at updated_at s = record s { expires_at = expires_at; updated_at = updated_at }

-- UPDATE … RETURNING, then `ok_or`.
unfoldable pub renew_subscription : ℕ → ℕ → ℕ → Query Tables Subscription
renew_subscription id expires_at updated_at t = elim (find (subscription_id id) t.subscription) [
  | none ↦ (err (not_found "subscription"), t)
  | some s ↦ (
    ok (renewed expires_at updated_at s),
    record t {
      subscription = modify (subscription_id id) (renewed expires_at updated_at) t.subscription;
    },
  )
]

-- `Utc::now()` is the clock of the tables.
unfoldable pub update_subscription : ℕ → ℕ → ℕ → Query Tables Subscription
update_subscription id expires_at updated_at = transaction (do
  s ← renew_subscription id expires_at updated_at
  now ← λ t. (ok t.clock, t)
  when (ltb now expires_at) (subscribe_opt s.sender_id s.recipient_id)
  pure s)

unfoldable pub get_subscription_by_participants : ℕ → ℕ → Query Tables Subscription
get_subscription_by_participants sender recipient t =
    (ok_or (not_found "subscription") (find (by_pair sender recipient) t.subscription), t)

-- The JOIN finds at most one relationship, whose columns are unique.
unfoldable pub get_expired_subscriptions : Query Tables (List Subscription)
get_expired_subscriptions t = (
  ok (
      select
        (λ s.
          any (by_key s.sender_id s.recipient_id subscription) t.relationship
          && leb s.expires_at t.clock)
        t.subscription),
  t,
)

abbrev is_local_recipient : Tables → Subscription → Bool
is_local_recipient t s = elim (find (profile_id s.recipient_id) t.actor_profile) [
  | none ↦ false
  | some p ↦ is_some p.user_id
]

unfoldable pub get_active_subscription_count : Query Tables ℕ
get_active_subscription_count t =
    (ok (tally (λ s. is_local_recipient t s && ltb t.clock s.expires_at) t.subscription), t)

unfoldable pub get_expired_subscription_count : Query Tables ℕ
get_expired_subscription_count t =
    (ok (tally (λ s. is_local_recipient t s && leb s.expires_at t.clock) t.subscription), t)

-- A page of subscriptions, newest first, each with its sender's profile.
abbrev newer_first : Subscription → Subscription → Bool
newer_first a b = leb b.id a.id

abbrev before_max : Option ℕ → Subscription → Bool
before_max none s = true
before_max (some max) s = ltb s.id max

with_senders : List DbActorProfile → List Subscription → Result (List SubscriptionDetailed)
with_senders profiles [] = ok []
with_senders profiles (s ∷ ss) =
    let rest = with_senders profiles ss in
    elim (find (profile_id s.sender_id) profiles) [
      | none ↦ rest
      | some p ↦ elim rest [
        | ok ps ↦
            if p.consistent
            then ok (record { id = s.id; sender = p; expires_at = s.expires_at } ∷ ps)
            else err type_error
        | err e ↦ err e
        | panicked m ↦ panicked m
      ]
    ]

unfoldable pub get_incoming_subscriptions :
    ℕ → Bool → Option ℕ → ℕ → Query Tables (List SubscriptionDetailed)
unfolding with_senders
get_incoming_subscriptions recipient include_expired max_subscription_id limit t = (
  with_senders t.actor_profile (
      take limit (
        sort newer_first (
          select
            (λ s.
              s.recipient_id == recipient
              && (include_expired || ltb t.clock s.expires_at)
              && before_max max_subscription_id s
              && is_profile t s.sender_id)
            t.subscription))),
  t,
)
