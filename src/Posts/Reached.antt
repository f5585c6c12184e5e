-- ===== src/Posts/Reached.antt =====
-- The rounds in which the rows that a deletion reaches are found: as many as there are rows are enough,
-- and they find what any relation that the test follows reaches.
use mitra.Prelude.{
  ℕ, suc, zero, ◌+◌, ◌≤◌, ◌≡◌, refl, ◌∙◌, ap, Bool, true, false, not, List, [], ◌∷◌, ◌++◌, any,
  select, map, length, tally, ◌==◌, ==_refl, if◌then◌else◌, inl, inr, All, All-weaken, arith,
  Bool-cases, any-append, any-zero_of_tally, any-false-All, any-map, passing_one, All-selected,
  ==_iff,
}
use mathlib.Core.Logic.Or
use mathlib.Core.List.{Mem, not-mem-nil, mem-cons, mem-cons_self, mem-cons_of_mem}
use mitra.Posts.Types.{Post}
use mitra.Posts.Related.{contains, id_of}
use mitra.Posts.Inserted.{any-weaker}
use mitra.Posts.Delete.{is_next, closure}
use mitra.Posts.Removed.{closure-still}

abbrev is_left : List ℕ → Post → Bool
is_left ids p = not (contains ids p.id)

abbrev left : List ℕ → List Post → ℕ
left ids rows = tally (is_left ids) rows

left-le : (ids : List ℕ) (rows : List Post) → left ids rows ≤ length rows
unfolding tally
left-le ids [] = omega arith
left-le ids (p ∷ rows) = ground (arith, left-le ids rows)

-- A row that is selected is among those that are selected.
contains-select :
    (q : Post → Bool) (rows : List Post)
    → All (λ p. q p ≡ true → contains (map id_of (select q rows)) p.id ≡ true) rows
unfolding select
contains-select q [] = tt
contains-select q (x ∷ rows) = elim (Bool-cases (q x)) [
  | inl hit ↦ (
    λ _. rw (hit, select) (rw (==_refl x.id) refl),
    All-weaken _ _ (λ p h e. rw (hit, select) (ground (arith, h e))) rows (contains-select q rows),
  )
  | inr miss ↦ (
    λ e. absurd (ground arith),
    All-weaken _ _ (λ p h e. rw (miss, select) (h e)) rows (contains-select q rows),
  )
]

module _ (test : List ℕ → Post → Bool) (ids new : List ℕ) where
  -- Whoever is next and has been added is left no more.
  fewer_left :
      (rows : List Post)
      → All (λ p. is_next test ids p ≡ true → contains new p.id ≡ true) rows
      → left (ids ++ new) rows + (if any (is_next test ids) rows then 1 else 0) ≤ left ids rows
  unfolding tally
  fewer_left [] h = omega arith
  fewer_left (p ∷ rows) (here, h) =
      ground (arith, here, any-append (λ x. x == p.id) ids new, fewer_left rows h)

module _ (test : List ℕ → Post → Bool) (rows : List Post) where
  -- As many rounds as rows are left are enough.
  closed_in :
      (n : ℕ) (ids : List ℕ)
      → left ids rows ≤ n
      → any (is_next test (closure test n rows ids)) rows ≡ false
  unfolding closure
  closed_in zero ids h =
      any-weaker (is_next test ids) (is_left ids) (λ p e. ground arith) rows
        (any-zero_of_tally (is_left ids) rows (omega arith))
  closed_in (suc n) ids h = elim (Bool-cases (any (is_next test ids) rows)) [
    | inl some_next ↦
        let new = map id_of (select (is_next test ids) rows) in
        let fewer = fewer_left test ids new rows (contains-select (is_next test ids) rows) in
        closed_in n (ids ++ new) (ground (arith, fewer, some_next))
    | inr none_next ↦
        ap (λ s. any (is_next test s) rows) (closure-still test (suc n) rows ids none_next)
        ∙ none_next
  ]

  pub closure-closed :
      (ids : List ℕ) → any (is_next test (closure test (length rows) rows ids)) rows ≡ false
  closure-closed ids = closed_in (length rows) ids (left-le ids rows)

-- What holds of every row holds of one of them.
pub All-mem :
    {A : Type 0} (f : A → Bool) (b : Bool) (rows : List A) (p : A)
    → Mem p rows
    → All (λ q. f q ≡ b) rows
    → f p ≡ b
All-mem f b [] p m h = absurd (not-mem-nil m)
All-mem f b (x ∷ rows) p m h =
    Or.elim (hlevel) (mem-cons.0 m) (λ e. rw e h.0) (λ m'. All-mem f b rows p m' h.1)

pub each-Mem : {A : Type 0} (rows : List A) → All (λ p. Mem p rows) rows
each-Mem [] = tt
each-Mem (x ∷ rows) = (
  mem-cons_self,
  All-weaken (λ p. Mem p rows) _ (λ p m. mem-cons_of_mem x m) rows (each-Mem rows),
)

pub any-mem :
    {A : Type 0} (f : A → Bool) (rows : List A) (p : A)
    → Mem p rows
    → f p ≡ true
    → any f rows ≡ true
any-mem f rows p m e = elim (Bool-cases (any f rows)) [
  | inl there ↦ there
  | inr absent ↦ absurd (ground (arith, e, All-mem f false rows p m (any-false-All f rows absent)))
]

module _ (test : List ℕ → Post → Bool) (rows : List Post) where
  pub closure-keeps :
      (n : ℕ) (ids : List ℕ) (x : ℕ)
      → contains ids x ≡ true
      → contains (closure test n rows ids) x ≡ true
  unfolding closure
  closure-keeps zero ids x h = h
  closure-keeps (suc n) ids x h =
      closure-keeps n (ids ++ map id_of (select (is_next test ids) rows)) x (
        ground
          (arith, h, any-append (λ y. y == x) ids (map id_of (select (is_next test ids) rows))))

  -- A row that is next to what is found is found.
  pub closure-finds :
      (ids : List ℕ) (p : Post)
      → Mem p rows
      → test (closure test (length rows) rows ids) p ≡ true
      → contains (closure test (length rows) rows ids) p.id ≡ true
  closure-finds ids p m e =
      let found = closure test (length rows) rows ids in
      let settled : is_next test found p ≡ false =
        All-mem (is_next test found) false rows p m
          (any-false-All (is_next test found) rows (closure-closed test rows ids)) in
      ground (arith, e, settled)

  -- What is found is related, if each row is that is next to what is related.
  module _ (R : ℕ → Type 0)
      (step : (p : Post) (ids : List ℕ)
        → Mem p rows
        → test ids p ≡ true
        → ((y : ℕ) → contains ids y ≡ true → R y)
        → R p.id) where
    next-related :
        (ids : List ℕ)
        → ((y : ℕ) → contains ids y ≡ true → R y)
        → (x : ℕ) → contains (map id_of (select (is_next test ids) rows)) x ≡ true
        → R x
    next-related ids related x e =
        let there : any (λ (p : Post). p.id == x) (select (is_next test ids) rows) ≡ true =
          rw (any-map id_of (λ y. y == x) (select (is_next test ids) rows)) at e in
        let (p, same, (m, next)) =
          passing_one (λ p. Mem p rows × (is_next test ids p ≡ true)) (λ p. p.id == x)
            (select (is_next test ids) rows)
            (All-selected (λ p. Mem p rows × (is_next test ids p ≡ true)) (is_next test ids) rows
              (All-weaken (λ p. Mem p rows) _ (λ p m k. (m, k)) rows (each-Mem rows)))
            there in
        rw (← (==_iff p.id x).0 same) (step p ids m (ground (arith, next)) related)

    pub closure-related :
        (n : ℕ) (ids : List ℕ)
        → ((y : ℕ) → contains ids y ≡ true → R y)
        → (x : ℕ) → contains (closure test n rows ids) x ≡ true
        → R x
    unfolding closure
    closure-related zero ids related x e = related x e
    closure-related (suc n) ids related x e =
        let new = map id_of (select (is_next test ids) rows) in
        closure-related n (ids ++ new)
          (λ y h. elim (Bool-cases (contains ids y)) [
            | inl old ↦ related y old
            | inr fresh ↦
                next-related ids related y (ground (arith, h, any-append (λ z. z == y) ids new))
          ])
          x e
