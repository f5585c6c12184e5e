-- ===== src/Invoices/Hits.antt =====
-- The rows that a search for overdue invoices changes, and those that it should change.
use mathlib.Core.Path.{subst}
use mitra.Prelude.{
  ==_refl, All-every, ℕ, ◌≡◌, refl, ap, sym, ◌∙◌, Bool, true, false, ◌&&◌, ◌||◌, is_some, List, [],
  ◌∷◌, any, any-false-All, select, modify, All, All-both, All-weaken, ◌==◌, Bool-cases, inl, inr,
  arith,
}
use mitra.Invoices.Types.{Invoice, status_eq, open_status, timeout}
use mitra.Invoices.Queries.{by_id, with_status}
use mitra.Invoices.Payments.{IsStored}
use mitra.Invoices.Expiry.{is_overdue}
use mitra.Schema.{Tables}

-- The PRIMARY KEY.
abbrev pub IsDistinct : List Invoice → Type 0
IsDistinct [] = Unit
IsDistinct (i ∷ is) = (any (by_id i.id) is ≡ false) × IsDistinct is

abbrev pub is_open_remote : Invoice → Bool
is_open_remote i = status_eq i.invoice_status open_status && is_some i.object_id

-- The rows that a list of invoices times out.
abbrev pub hit_by : ℕ → List Invoice → Invoice → Bool
hit_by now is r = any (λ (i : Invoice). by_id r.id i && is_overdue now i) is

modify_twice :
    (now : ℕ) (p q : ℕ → Bool) (rows : List Invoice)
    → modify
        (λ (r : Invoice). q r.id)
        (with_status timeout now)
        (modify (λ (r : Invoice). p r.id) (with_status timeout now) rows)
      ≡ modify (λ (r : Invoice). p r.id || q r.id) (with_status timeout now) rows
unfolding modify
modify_twice now p q [] = refl
modify_twice now p q (r ∷ rows) = elim (Bool-cases (p r.id)) [
  | inl a ↦ elim (Bool-cases (q r.id)) [
    | inl b ↦ rw (a, b) (ap (λ xs. with_status timeout now r ∷ xs) (modify_twice now p q rows))
    | inr b ↦ rw (a, b) (ap (λ xs. with_status timeout now r ∷ xs) (modify_twice now p q rows))
  ]
  | inr a ↦ elim (Bool-cases (q r.id)) [
    | inl b ↦ rw (a, b) (ap (λ xs. with_status timeout now r ∷ xs) (modify_twice now p q rows))
    | inr b ↦ rw (a, b) (ap (λ xs. r ∷ xs) (modify_twice now p q rows))
  ]
]

pub modify_same :
    (p q : Invoice → Bool) (f : Invoice → Invoice) (rows : List Invoice)
    → All (λ r. p r ≡ q r) rows
    → modify p f rows ≡ modify q f rows
unfolding modify
modify_same p q f [] h = refl
modify_same p q f (r ∷ rows) h = ground (arith, h.0, modify_same p q f rows h.1)

-- An invoice to look at: it is stored, open and remote.
pub record IsPending (t : Tables) (i : Invoice) : Type 0 where
  pub stored : IsStored i.id i t
  pub is_open : is_open_remote i ≡ true

pub modify_none : (f : Invoice → Invoice) (rows : List Invoice) → modify (λ _. false) f rows ≡ rows
unfolding modify
modify_none f [] = refl
modify_none f (r ∷ rows) = ap (λ xs. r ∷ xs) (modify_none f rows)

-- The first invoice and the others, one after the other.
pub modify_later :
    (now : ℕ) (i : Invoice) (is : List Invoice) (rows : List Invoice)
    → is_overdue now i ≡ true
    → modify
        (hit_by now is)
        (with_status timeout now)
        (modify (by_id i.id) (with_status timeout now) rows)
      ≡ modify (hit_by now (i ∷ is)) (with_status timeout now) rows
modify_later now i is rows late =
    modify_twice now (λ id. id == i.id)
      (λ id. any (λ (j : Invoice). by_id id j && is_overdue now j) is) rows
    ∙ modify_same _ (hit_by now (i ∷ is)) (with_status timeout now) rows
        (All-every _ (λ r. same_test (r.id) i.id (is_overdue now i) (hit_by now is r) late) rows)
  where
    same_test : (a b : ℕ) (o h : Bool) → o ≡ true → (a == b || h) ≡ ((b == a) && o || h)
    same_test a b o h e = ground arith

pub modify_early :
    (now : ℕ) (i : Invoice) (is : List Invoice) (rows : List Invoice)
    → is_overdue now i ≡ false
    → modify (hit_by now is) (with_status timeout now) rows
      ≡ modify (hit_by now (i ∷ is)) (with_status timeout now) rows
modify_early now i is rows early =
    modify_same (hit_by now is) (hit_by now (i ∷ is)) (with_status timeout now) rows
      (All-every _ (λ r. same_test r.id i.id (is_overdue now i) (hit_by now is r) early) rows)
  where
    same_test : (a b : ℕ) (o h : Bool) → o ≡ false → h ≡ ((b == a) && o || h)
    same_test a b o h e = ground arith

-- The rows that are open, remote and overdue.
abbrev pub must_time_out : ℕ → Invoice → Bool
must_time_out now r = is_open_remote r && is_overdue now r

absent_sole :
    (now k : ℕ) (rows : List Invoice)
    → any (by_id k) rows ≡ false
    → any (λ (i : Invoice). by_id k i && is_overdue now i) (select is_open_remote rows) ≡ false
unfolding select
absent_sole now k [] a = refl
absent_sole now k (r ∷ rows) a = elim (Bool-cases (is_open_remote r)) [
  | inl found ↦ rw found (ground (arith, absent_sole now k rows))
  | inr other ↦ rw other (absent_sole now k rows (ground arith))
]

-- A row is hit exactly if it is to time out itself.
pub All-hit :
    (now : ℕ) (rows : List Invoice)
    → IsDistinct rows
    → All (λ r. hit_by now (select is_open_remote rows) r ≡ must_time_out now r) rows
unfolding select
All-hit now [] d = tt
All-hit now (r ∷ rows) d = elim (Bool-cases (is_open_remote r)) [
  | inl found ↦
      let e : select is_open_remote (r ∷ rows) ≡ r ∷ select is_open_remote rows = rw found refl in
      subst (λ xs. All (λ s. hit_by now xs s ≡ must_time_out now s) (r ∷ rows)) (sym e)
        (
          own (r.id == r.id) (is_open_remote r) (is_overdue now r)
              (hit_by now (select is_open_remote rows) r) (==_refl r.id) found
              (absent_sole now r.id rows d.0),
          All-weaken
              (λ s.
                ((s.id == r.id) ≡ false)
                × (hit_by now (select is_open_remote rows) s ≡ must_time_out now s))
              (λ s. hit_by now (r ∷ select is_open_remote rows) s ≡ must_time_out now s)
              (λ s (apart, k).
                more s.id (hit_by now (select is_open_remote rows) s) (must_time_out now s) apart k)
              rows
              (All-both (λ (s : Invoice). (s.id == r.id) ≡ false)
                (λ s. hit_by now (select is_open_remote rows) s ≡ must_time_out now s) rows
                (any-false-All (by_id r.id) rows d.0) (All-hit now rows d.1)),
        )
  | inr other ↦
      let e : select is_open_remote (r ∷ rows) ≡ select is_open_remote rows = rw other refl in
      subst (λ xs. All (λ s. hit_by now xs s ≡ must_time_out now s) (r ∷ rows)) (sym e)
        (
          none_hit (is_open_remote r) (is_overdue now r) _ other (absent_sole now r.id rows d.0),
          All-hit now rows d.1,
        )
]
  where
    own : (a o l h : Bool) → a ≡ true → o ≡ true → h ≡ false → (a && l || h) ≡ (o && l)
    own a o l h e f g = ground arith

    none_hit : (o l h : Bool) → o ≡ false → h ≡ false → h ≡ (o && l)
    none_hit o l h f g = ground arith

    more :
        (a : ℕ) (h m : Bool)
        → (a == r.id) ≡ false
        → h ≡ m
        → ((r.id == a) && is_overdue now r || h) ≡ m
    more a h m e k = ground arith

any-select_none :
    (id : ℕ) (rows : List Invoice)
    → any (by_id id) rows ≡ false
    → any (by_id id) (select is_open_remote rows) ≡ false
unfolding select
any-select_none id [] h = refl
any-select_none id (r ∷ rows) h = ground (arith, any-select_none id rows)

pub select-IsDistinct :
    (rows : List Invoice) → IsDistinct rows → IsDistinct (select is_open_remote rows)
unfolding select
select-IsDistinct [] d = tt
select-IsDistinct (r ∷ rows) d = elim (Bool-cases (is_open_remote r)) [
  | inl found ↦ rw found (any-select_none r.id rows d.0, select-IsDistinct rows d.1)
  | inr other ↦ rw other (select-IsDistinct rows d.1)
]
