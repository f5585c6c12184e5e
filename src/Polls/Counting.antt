-- ===== src/Polls/Counting.antt =====
-- What counting a choice does to the counts that the options show.
use text.Mathlib.TextEquality.{eq_iff}
use mitra.Prelude.{
  ℕ, zero, suc, ◌+◌, ◌^◌, ◌%◌, ◌≡◌, refl, ap, ◌∙◌, sym, String, Bool, true, false, Option, none,
  some, List, [], ◌∷◌, any, map, tally, All, All-weaken, str_eq, if◌then◌else◌, Bool-cases, inl,
  inr, arith, Option-cases,
}
use mitra.Database.{Result, ok, err, panicked}
use mitra.Polls.Types.{PollResult}
use mitra.Polls.Votes.{counted, count_at, count_choices, count_named}

abbrev pub names : List PollResult → List String
names rs = map (λ (r : PollResult). r.option_name) rs

abbrev pub holds : String → List String → Bool
holds n ns = any (λ m. str_eq m n) ns

abbrev pub IsDistinct : List String → Type 0
IsDistinct [] = Unit
IsDistinct (n ∷ ns) = (holds n ns ≡ false) × IsDistinct ns

-- Each option shows the number that `k` gives for its name, on 32 bits.
pub record Shows (k : String → ℕ) (r : PollResult) : Type 0 where
  pub count : r.vote_count ≡ k r.option_name % 2 ^ 32

abbrev pub AllShow : (String → ℕ) → List PollResult → Type 0
AllShow k rs = All (Shows k) rs

-- One more for the name `n`.
abbrev pub added : (String → ℕ) → String → String → ℕ
added k n m = k m + (if str_eq m n then 1 else 0)

more :
    (a b c : ℕ) (h : Bool)
    → h ≡ true
    → a ≡ b % 2 ^ 32
    → (a + 1) % 2 ^ 32 ≡ (b + (if h then 1 else 0)) % 2 ^ 32
more a b c h e g = ground arith

counted-Shows :
    (k : String → ℕ) (n : String) (r : PollResult)
    → str_eq r.option_name n ≡ true
    → Shows k r
    → Shows (added k n) (counted r)
counted-Shows k n r e h = record {
  count = more r.vote_count (k r.option_name) 0 (str_eq r.option_name n) e h.count;
}

same : (a b : ℕ) (h : Bool) → h ≡ false → a ≡ b % 2 ^ 32 → a ≡ (b + (if h then 1 else 0)) % 2 ^ 32
same a b h e g = ground arith

apart-Shows :
    (k : String → ℕ) (n : String) (r : PollResult)
    → str_eq r.option_name n ≡ false
    → Shows k r
    → Shows (added k n) r
apart-Shows k n r e h = record {
  count = same r.vote_count (k r.option_name) (str_eq r.option_name n) e h.count;
}

apart-AllShow :
    (k : String → ℕ) (n : String) (rs : List PollResult)
    → holds n (names rs) ≡ false
    → AllShow k rs
    → AllShow (added k n) rs
apart-AllShow k n [] a h = tt
apart-AllShow k n (r ∷ rs) a h =
    (apart-Shows k n r (ground arith) h.0, apart-AllShow k n rs (ground arith) h.1)

str_eq_refl : (n : String) → str_eq n n ≡ true
str_eq_refl n = (eq_iff n n).1 refl

-- A name that some option has is not one that no option has.
not_held :
    (m n : String) (ns : List String) → holds m ns ≡ false → holds n ns ≡ true → str_eq m n ≡ false
not_held m n ns a b = elim (Bool-cases (str_eq m n)) [
  | inl e ↦
      let s : holds m ns ≡ holds n ns = ap (λ x. holds x ns) ((eq_iff m n).0 e) in
      absurd (clash (holds m ns) (holds n ns) a b s)
  | inr e ↦ e
]
  where
    clash : (x y : Bool) → x ≡ false → y ≡ true → x ≡ y → ⊥
    clash x y a b s = cc

-- What counting the option at an index gives, if there is one.
pub record IsCountedFor (k : String → ℕ) (rs : List PollResult) (n : String) (rs' : List PollResult)
    : Type 0 where
  pub kept : names rs' ≡ names rs
  pub shown : AllShow (added k n) rs'
  pub held : holds n (names rs) ≡ true

abbrev CountedAt : (String → ℕ) → List PollResult → Option (String × List PollResult) → Type 0
CountedAt k rs none = Unit
CountedAt k rs (some c) = IsCountedFor k rs c.0 c.1

count_at-IsCountedFor :
    (k : String → ℕ) (i : ℕ) (rs : List PollResult)
    → IsDistinct (names rs)
    → AllShow k rs
    → CountedAt k rs (count_at i rs)
unfolding count_at
count_at-IsCountedFor k n [] d h = tt
count_at-IsCountedFor k zero (r ∷ rs) d h = record {
  kept = refl;
  shown = (
    counted-Shows k r.option_name r (str_eq_refl r.option_name) h.0,
    apart-AllShow k r.option_name rs d.0 h.1,
  );
  held = rw (str_eq_refl r.option_name) refl;
}
count_at-IsCountedFor k (suc n) (r ∷ rs) d h =
    later (count_at n rs) (count_at-IsCountedFor k n rs d.1 h.1)
  where
    later :
        (o : Option (String × List PollResult))
        → CountedAt k rs o
        → CountedAt k (r ∷ rs) (elim o [ none ↦ none | some c ↦ some (c.0, r ∷ c.1) ])
    later none g = tt
    later (some c) g = record {
      kept = ap (λ ns. r.option_name ∷ ns) g.kept;
      shown = (apart-Shows k c.0 r (not_held r.option_name c.0 (names rs) d.0 g.held) h.0, g.shown);
      held = ground (arith, g.held);
    }

-- What counting all choices gives.
pub record AreCounted (k : String → ℕ) (rs : List PollResult) (cs : List String)
    (rs' : List PollResult) : Type 0 where
  pub kept : names rs' ≡ names rs
  pub shown : AllShow (λ m. k m + tally (str_eq m) cs) rs'

abbrev pub CountedChoices :
    (String → ℕ) → List PollResult → Result (List String × List PollResult) → Type 0
CountedChoices k rs (ok c) = AreCounted k rs c.0 c.1
CountedChoices k rs (err e) = Unit
CountedChoices k rs (panicked m) = Unit

plus_none : (k : String → ℕ) (r : PollResult) → Shows k r → Shows (λ m. k m + tally (str_eq m) []) r
unfolding tally
plus_none k r h = record { count = ground (arith, h.count) }

regrouped : (a b : ℕ) (h : Bool) → a + (if h then 1 else 0) + b ≡ a + (if h then suc b else b)
regrouped a b true = omega arith
regrouped a b false = omega arith

plus_one :
    (k : String → ℕ) (n : String) (cs : List String) (r : PollResult)
    → Shows (λ m. added k n m + tally (str_eq m) cs) r
    → Shows (λ m. k m + tally (str_eq m) (n ∷ cs)) r
unfolding tally
plus_one k n cs r h = record {
  count =
      h.count
      ∙ ap (λ x. x % 2 ^ 32)
          (regrouped (k r.option_name) (tally (str_eq r.option_name) cs) (str_eq r.option_name n));
}

pub count_choices-AreCounted :
    (k : String → ℕ) (is : List ℕ) (rs : List PollResult)
    → IsDistinct (names rs)
    → AllShow k rs
    → CountedChoices k rs (count_choices is rs)
unfolding count_choices
count_choices-AreCounted k [] rs d h = record {
  kept = refl;
  shown = All-weaken (Shows k) (Shows (λ m. k m + tally (str_eq m) [])) (plus_none k) rs h;
}
count_choices-AreCounted k (i ∷ is) rs d h = elim (Option-cases (count_at i rs)) [
  | inl e ↦ rw (e, count_choices) tt
  | inr (c, e) ↦
      let g : IsCountedFor k rs c.0 c.1 = rw e at (count_at-IsCountedFor k i rs d h) in
      rw (e, count_choices)
        (last c.0 c.1 g (count_choices is c.1)
          (count_choices-AreCounted (added k c.0) is c.1 (rw g.kept d) g.shown))
]
  where
    last :
        (n : String) (rs1 : List PollResult)
        → IsCountedFor k rs n rs1
        → (o : Result (List String × List PollResult)) → CountedChoices (added k n) rs1 o
        → CountedChoices k rs
            (elim o [ ok x ↦ ok (n ∷ x.0, x.1) | err e ↦ err e | panicked m ↦ panicked m ])
    last n rs1 g (ok x) b = record {
      kept = b.kept ∙ g.kept;
      shown =
          All-weaken (Shows (λ m. added k n m + tally (str_eq m) x.0))
            (Shows (λ m. k m + tally (str_eq m) (n ∷ x.0))) (plus_one k n x.0) x.1 b.shown;
    }
    last n rs1 g (err e) b = tt
    last n rs1 g (panicked m) b = tt

-- Counting an option by its name.
abbrev pub CountedNamed :
    (String → ℕ) → List PollResult → String → Option (List PollResult) → Type 0
CountedNamed k rs n none = Unit
CountedNamed k rs n (some rs') = (names rs' ≡ names rs) × AllShow (added k n) rs'

pub count_named-Shows :
    (k : String → ℕ) (n : String) (rs : List PollResult)
    → IsDistinct (names rs)
    → AllShow k rs
    → CountedNamed k rs n (count_named n rs)
unfolding count_named
count_named-Shows k n [] d h = tt
count_named-Shows k n (r ∷ rs) d h = elim (Bool-cases (str_eq r.option_name n)) [
  | inl hit ↦
      let away : holds n (names rs) ≡ false =
        ap (λ x. holds x (names rs)) (sym ((eq_iff r.option_name n).0 hit)) ∙ d.0 in
      rw hit (refl, (counted-Shows k n r hit h.0, apart-AllShow k n rs away h.1))
  | inr miss ↦ rw miss (later miss (count_named n rs) (count_named-Shows k n rs d.1 h.1))
]
  where
    later :
        str_eq r.option_name n ≡ false
        → (o : Option (List PollResult)) → CountedNamed k rs n o
        → CountedNamed k (r ∷ rs) n (elim o [ none ↦ none | some rs ↦ some (r ∷ rs) ])
    later miss none g = tt
    later miss (some rs') g = (ap (λ ns. r.option_name ∷ ns) g.0, (apart-Shows k n r miss h.0, g.1))
