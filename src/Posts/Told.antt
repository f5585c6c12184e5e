-- ===== src/Posts/Told.antt =====
-- The notifications of a new post, one by one.
use mitra.Prelude.{
  ℕ, ◌≤◌, ◌≡◌, refl, sym, ◌∙◌, ap, Bool, true, false, ◌&&◌, Option, none, List, [], ◌∷◌, ◌++◌, any,
  tally, ◌==◌, ==_iff, if◌then◌else◌, inl, inr, arith, Bool-cases, tally-append, any-append,
}
use mitra.Database.{ok, err, pure, ◌>>=◌, client_error}
use mitra.Database.Triples.{Ensures}
use mitra.Profiles.Types.{DbActorProfile}
use mitra.Notifications.Types.{Notification, EventType}
use mitra.Notifications.Queries.{create_notification}
use mitra.Relationships.Types.{mute_type}
use mitra.Relationships.Table.{has_relationship, by_key}
use mitra.Posts.Types.{Post}
use mitra.Posts.Related.{contains}
use mitra.Posts.Create.{is_told}
use mitra.Posts.Removed.{append-nil}
use mitra.Schema.{Tables, is_post, is_profile, is_account, fits_null}

abbrev pub for_user : ℕ → Notification → Bool
for_user k n = n.recipient_id == k

-- The notifications since `base`, all to users of the list.
pub record Told (p : Post) (base : List Notification) (users : List ℕ) (rows : List Notification)
    : Type 0 where
  pub new : List Notification
  pub is : rows ≡ base ++ new
  pub once : (k : ℕ) → tally (for_user k) new ≤ 1
  pub unlisted : (k : ℕ) → contains users k ≡ false → tally (for_user k) new ≡ 0
  pub author : tally (for_user p.author_id) new ≡ 0

append-append : (xs ys zs : List Notification) → (xs ++ ys) ++ zs ≡ xs ++ (ys ++ zs)
append-append [] ys zs = refl
append-append (x ∷ xs) ys zs = ap (λ l. x ∷ l) (append-append xs ys zs)

module _ (p : Post) (base : List Notification) where
  abbrev pub TellsAll : List ℕ → Tables → Type 0
  TellsAll users s = Told p base users s.notification

  pub nothing-Told : Told p base [] base
  unfolding tally
  nothing-Told = record {
    new = [];
    is = sym (append-nil base);
    once = λ k. omega arith;
    unlisted = λ k e. refl;
    author = refl;
  }

  module _ (users : List ℕ) (rows : List Notification) (h : Told p base users rows)
      (a : DbActorProfile) (told : is_told p users a ≡ true) where
    not_listed :
        (k : ℕ)
        → contains (users ++ a.id ∷ []) k ≡ false
        → (contains users k ≡ false) × ((a.id == k) ≡ false)
    not_listed k e = (
      ground (arith, any-append (λ x. x == k) users (a.id ∷ [])),
      ground (arith, any-append (λ x. x == k) users (a.id ∷ [])),
    )

    muted-Told : Told p base (users ++ a.id ∷ []) rows
    muted-Told = record {
      new = h.new;
      is = h.is;
      once = h.once;
      unlisted = λ k e. h.unlisted k (not_listed k e).0;
      author = h.author;
    }

    added-Told :
        (n : Notification)
        → n.recipient_id ≡ a.id
        → Told p base (users ++ a.id ∷ []) (rows ++ n ∷ [])
    unfolding tally
    added-Told n e = record {
      new = h.new ++ n ∷ [];
      is = ap (λ xs. xs ++ n ∷ []) h.is ∙ append-append base h.new (n ∷ []);
      once = at_most_one;
      unlisted = λ k u.
          let (old, other) = not_listed k u in
          tally-append (for_user k) h.new (n ∷ []) ∙ rw (h.unlisted k old, e, other) refl;
      author =
          let not_author : (a.id == p.author_id) ≡ false = ground (arith, told) in
          tally-append (for_user p.author_id) h.new (n ∷ []) ∙ rw (h.author, e, not_author) refl;
    }
      where
        at_most_one : (k : ℕ) → tally (for_user k) (h.new ++ n ∷ []) ≤ 1
        at_most_one k = elim (Bool-cases (a.id == k)) [
          | inl same ↦
              let here : contains users a.id ≡ false = ground (arith, told) in
              let none_yet : tally (for_user k) h.new ≡ 0 =
                h.unlisted k (rw ((==_iff a.id k).0 same) at here) in
              rw (tally-append (for_user k) h.new (n ∷ []), none_yet, e, same) (omega arith)
          | inr other ↦
              rw (tally-append (for_user k) h.new (n ∷ []), e, other) (omega (arith, h.once k))
        ]

    module _ (s : Tables) (is_now : s.notification ≡ rows) (post_id : Option ℕ)
        (event : EventType) where
      abbrev Next : Unit {0} → Tables → Type 0
      Next _ s' = Told p base (users ++ a.id ∷ []) s'.notification

      abbrev row : Notification
      row = record {
        sender_id = p.author_id;
        recipient_id = a.id;
        post_id = post_id;
        reaction_id = none;
        invoice_id = none;
        event_type = event;
      }

      written :
          (c : Bool)
          → Ensures Next (
              if c
              then (ok tt, record s { notification = s.notification ++ row ∷ [] })
              else (err client_error, s))
      written true = rw is_now (added-Told row refl)
      written false = tt

      unless_muted :
          (b : Bool)
          → Ensures Next (
              (if b then pure tt else create_notification p.author_id a.id post_id none none event)
                s)
      unfolding create_notification
      unless_muted true = rw is_now muted-Told
      unless_muted false =
          written (fits_null (is_post s) post_id && is_profile s p.author_id && is_account s a.id)

      pub tells : Ensures Next (
          (has_relationship a.id p.author_id mute_type >>= λ muted.
          if muted then pure tt else create_notification p.author_id a.id post_id none none event)
            s)
      unfolding ◌>>=◌ has_relationship
      tells = unless_muted (any (by_key a.id p.author_id mute_type) s.relationship)
