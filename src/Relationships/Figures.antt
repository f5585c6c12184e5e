-- ===== src/Relationships/Figures.antt =====
-- Chains of calls, followed by what profiles show and by the numbers of rows.
use mitra.Prelude.{ℕ, ◌≡◌, refl, tally}
use mitra.Database.{Query, pure, transaction, ◌>>=◌, ◌>>◌}
use mitra.Database.Triples.{
  Ensures, Ensures-weaken, Ensures-bind, Ensures-transaction, transaction-keeps,
}
use mitra.Relationships.Counts.{IsAccurate, is_follower_of, is_followed_by, is_subscriber_of}
use mitra.Relationships.Balance.{Balanced, Balanced-IsAccurate}
use mitra.Schema.{Tables}

-- What profiles show, and the numbers of rows.
pub record Figures : Type 0 where
  pub followers : ℕ → ℕ
  pub following : ℕ → ℕ
  pub subscribers : ℕ → ℕ
  pub follower_rows : ℕ → ℕ
  pub following_rows : ℕ → ℕ
  pub subscriber_rows : ℕ → ℕ

abbrev pub Fits : Figures → Tables → Type 0
Fits x t =
    Balanced x.followers x.following x.subscribers x.follower_rows x.following_rows
      x.subscriber_rows t

-- A call that turns the figures `x` into `y` if it returns.
pub record Moves {A : Type 0} (x y : Figures) (m : Query Tables A) : Type 0 where
  pub from : (t : Tables) → Fits x t → Ensures (λ _ t'. Fits y t') (m t)

module _ {A B : Type 0} (x y z : Figures) (m : Query Tables A) where
  pub Moves-bind :
      (n : A → Query Tables B) → Moves x y m → ((a : A) → Moves y z (n a)) → Moves x z (m >>= n)
  Moves-bind n h k = record {
    from = λ t b.
        Ensures-bind (λ _ t'. Fits y t') (λ _ t'. Fits z t') n m t (h.from t b)
          (λ a t' c. (k a).from t' c);
  }

pub Moves-pure : {A : Type 0} → (x : Figures) (a : A) → Moves x x (pure a)
Moves-pure x a = record { from = λ t b. b }

-- What is shown is what there is.
abbrev pub level : (ℕ → ℕ) → (ℕ → ℕ) → (ℕ → ℕ) → Figures
level F G S = record {
  followers = F;
  following = G;
  subscribers = S;
  follower_rows = F;
  following_rows = G;
  subscriber_rows = S;
}

-- What is counted of the rows, shown by all profiles.
abbrev pub figures : Tables → Figures
figures t =
    level (λ k. tally (is_follower_of k) t.relationship)
      (λ k. tally (is_followed_by k) t.relationship)
      (λ k. tally (is_subscriber_of k) t.relationship)

pub Fits-figures : (t : Tables) → IsAccurate t → Fits (figures t) t
Fits-figures t h = record {
  shows = h.shows;
  followers = λ k. refl;
  following = λ k. refl;
  subscribers = λ k. refl;
  unique = h.unique;
}

-- Nothing that is counted is changed.
pub record Apart (t t' : Tables) : Type 0 where
  pub relationship : t'.relationship ≡ t.relationship
  pub actor_profile : t'.actor_profile ≡ t.actor_profile

pub Apart-refl : (t : Tables) → Apart t t
Apart-refl t = record { relationship = refl; actor_profile = refl }

pub Apart-Fits : (x : Figures) (t t' : Tables) → Apart t t' → Fits x t → Fits x t'
Apart-Fits x t t' a b = record {
  shows = rw a.actor_profile b.shows;
  followers = rw a.relationship b.followers;
  following = rw a.relationship b.following;
  subscribers = rw a.relationship b.subscribers;
  unique = rw a.relationship b.unique;
}

-- A call that keeps apart from them if it returns.
pub record IsQuiet {A : Type 0} (m : Query Tables A) : Type 0 where
  pub from : (t : Tables) → Ensures (λ _ t'. Apart t t') (m t)

pub IsQuiet-Moves : {A : Type 0} (x : Figures) (m : Query Tables A) → IsQuiet m → Moves x x m
IsQuiet-Moves x m q = record {
  from = λ t b.
      Ensures-weaken (λ _ t'. Apart t t') (λ _ t'. Fits x t') (m t)
        (λ _ t' a. Apart-Fits x t t' a b) (q.from t);
}

pub Moves-transaction :
    {A : Type 0} → (x y : Figures) (m : Query Tables A) → Moves x y m → Moves x y (transaction m)
Moves-transaction x y m h = record {
  from = λ t b. Ensures-transaction (λ _ t'. Fits y t') m t (h.from t b);
}

-- A call after which what is shown is what there is.
pub record Settles {A : Type 0} (x : Figures) (m : Query Tables A) : Type 0 where
  pub from : (t : Tables) → Fits x t → Ensures (λ _ t'. IsAccurate t') (m t)

pub Moves-Settles :
    {A : Type 0}
    → (x : Figures) (F G S : ℕ → ℕ) (m : Query Tables A) → Moves x (level F G S) m
    → Settles x m
Moves-Settles x F G S m h = record {
  from = λ t b.
      Ensures-weaken (λ _ t'. Fits (level F G S) t') (λ _ t'. IsAccurate t') (m t)
        (λ _ t' c. Balanced-IsAccurate F G S t' c) (h.from t b);
}

pub Settles-bind :
    {A B : Type 0}
    → (x y : Figures) (m : Query Tables A) (n : A → Query Tables B) → Moves x y m
    → ((a : A) → Settles y (n a))
    → Settles x (m >>= n)
Settles-bind x y m n h k = record {
  from = λ t b.
      Ensures-bind (λ _ t'. Fits y t') (λ _ t'. IsAccurate t') n m t (h.from t b)
        (λ a t' c. (k a).from t' c);
}

pub IsAccurate-transaction :
    {A : Type 0}
    → (t : Tables) (m : Query Tables A) → IsAccurate t
    → ((F G S : ℕ → ℕ) → Settles (level F G S) m)
    → IsAccurate (transaction m t).1
IsAccurate-transaction t m h k =
    transaction-keeps IsAccurate m t h ((k _ _ _).from t (Fits-figures t h))

pub Settles-transaction :
    {A : Type 0} → (x : Figures) (m : Query Tables A) → Settles x m → Settles x (transaction m)
Settles-transaction x m h = record {
  from = λ t b. Ensures-transaction (λ _ t'. IsAccurate t') m t (h.from t b);
}

pub Settles-then :
    {A B : Type 0}
    → (x : Figures) (m : Query Tables A) (b : B) → Settles x m
    → Settles x (m >> pure b)
Settles-then x m b h = record {
  from = λ t c.
      Ensures-bind (λ _ t'. IsAccurate t') (λ _ t'. IsAccurate t') (λ _. pure b) m t (h.from t c)
        (λ a t' d. d);
}
