-- ===== src/Polls/Valid.antt =====
-- Which poll data is valid.
use text.Mathlib.TextEquality.{eq_iff}
use mitra.Prelude.{
  ◌≡◌, ◌≤◌, refl, sym, String, true, false, ◌||◌, none, some, Option-cases, List, [], ◌∷◌, ◌++◌,
  any-append, length, All, str_eq, Bool-cases, inl, inr, arith, ◌↔◌,
}
use mitra.Polls.Types.{PollResult, PollData}
use mitra.Polls.Counting.{names, holds, IsDistinct}
use mitra.Polls.Validation.{
  byte_length, contains, is_negative, validate_poll_option_name, validate_options,
  validate_poll_data,
}

str_eq_sym : (a b : String) → str_eq a b ≡ str_eq b a
str_eq_sym a b = elim (Bool-cases (str_eq a b)) [
  | inl e ↦ let s : str_eq b a ≡ true = (eq_iff b a).1 (sym ((eq_iff a b).0 e)) in cc
  | inr e ↦ elim (Bool-cases (str_eq b a)) [
    | inl f ↦ let s : str_eq a b ≡ true = (eq_iff a b).1 (sym ((eq_iff b a).0 f)) in cc
    | inr f ↦ cc
  ]
]

module _ (clean : String → String) where
  -- A name of at most 1000 bytes that cleaning does not change.
  pub record IsCleanName (name : String) : Type 0 where
    pub short : byte_length name ≤ 1000
    pub clean_name : clean name ≡ name

  name_valid : (n : String) → (validate_poll_option_name clean n ≡ none) → IsCleanName n
  unfolding validate_poll_option_name
  name_valid n e = record {
    short = ground arith;
    clean_name = sym ((eq_iff n (clean n)).0 (ground arith));
  }

  valid_name : (n : String) → IsCleanName n → validate_poll_option_name clean n ≡ none
  unfolding validate_poll_option_name
  valid_name n h =
      let short : byte_length n ≤ 1000 = h.short in
      let same : str_eq n (clean n) ≡ true = (eq_iff n (clean n)).1 (sym h.clean_name) in
      ground arith

  -- Options that come after the names `seen`.
  abbrev AreFresh : List String → List String → Type 0
  AreFresh seen ns = All (λ n. contains seen n ≡ false) ns

  grown :
      (seen : List String) (m n : String)
      → contains (seen ++ m ∷ []) n ≡ (contains seen n || str_eq n m)
  grown seen m n = ground (arith, any-append (λ x. str_eq n x) seen (m ∷ []))

  fresh_before :
      (seen : List String) (m : String) (ns : List String)
      → AreFresh (seen ++ m ∷ []) ns
      → AreFresh seen ns × (holds m ns ≡ false)
  fresh_before seen m [] h = (tt, refl)
  fresh_before seen m (n ∷ ns) h =
      let (a, b) = fresh_before seen m ns h.1 in
      ((ground (arith, h.0, grown seen m n), a), ground (arith, h.0, grown seen m n))

  fresh_after :
      (seen : List String) (m : String) (ns : List String)
      → AreFresh seen ns
      → holds m ns ≡ false
      → AreFresh (seen ++ m ∷ []) ns
  fresh_after seen m [] h k = tt
  fresh_after seen m (n ∷ ns) h k =
      (ground (arith, h.0, grown seen m n), fresh_after seen m ns h.1 (ground arith))

  never : {A : Type 0} (a : A) → some a ≡ none → ⊥
  never a e = cc

  options_valid :
      (seen : List String) (rs : List PollResult)
      → validate_options clean seen rs ≡ none
      → All IsCleanName (names rs) × AreFresh seen (names rs) × IsDistinct (names rs)
  unfolding validate_options
  options_valid seen [] e = (tt, tt, tt)
  options_valid seen (r ∷ rs) e =
      elim (Option-cases (validate_poll_option_name clean r.option_name)) [
        | inr (m, bad) ↦ absurd (never m (rw (bad, validate_options) at e))
        | inl fine ↦ elim (Bool-cases (contains seen r.option_name)) [
          | inl again ↦
              absurd (never "poll options must be unique" (rw (fine, again, validate_options) at e))
          | inr fresh ↦
              let (a, b, c) =
                options_valid (seen ++ r.option_name ∷ []) rs
                  (rw (fine, fresh, validate_options) at e) in
              let (f, d) = fresh_before seen r.option_name (names rs) b in
              ((name_valid r.option_name fine, a), (fresh, f), (d, c))
        ]
      ]

  valid_options :
      (seen : List String) (rs : List PollResult)
      → All IsCleanName (names rs)
      → AreFresh seen (names rs)
      → IsDistinct (names rs)
      → validate_options clean seen rs ≡ none
  unfolding validate_options
  valid_options seen [] a b c = refl
  valid_options seen (r ∷ rs) a b c =
      rw (valid_name r.option_name a.0, b.0, validate_options)
        (valid_options (seen ++ r.option_name ∷ []) rs a.1
          (fresh_after seen r.option_name (names rs) b.1 c.0) c.1)

  -- What valid data is.
  pub record IsValid (d : PollData) : Type 0 where
    pub enough : 2 ≤ length d.results
    pub not_too_many : length d.results ≤ 20
    pub clean_names : All IsCleanName (names d.results)
    pub distinct : IsDistinct (names d.results)
    pub counted : is_negative d.voters_count ≡ false

  data-IsValid : (d : PollData) → validate_poll_data clean d ≡ none → IsValid d
  unfolding validate_poll_data
  data-IsValid d e =
      let passed : (validate_options clean [] d.results ≡ none)
          × (is_negative d.voters_count ≡ false) =
        ground arith in
      let (a, b, c) = options_valid [] d.results passed.0 in
      record {
        enough = ground arith;
        not_too_many = ground arith;
        clean_names = a;
        distinct = c;
        counted = passed.1;
      }

  valid_data : (d : PollData) → IsValid d → validate_poll_data clean d ≡ none
  unfolding validate_poll_data
  valid_data d v =
      let options : validate_options clean [] d.results ≡ none =
        valid_options [] d.results v.clean_names (all_fresh (names d.results)) v.distinct in
      let low : 2 ≤ length d.results = v.enough in
      let high : length d.results ≤ 20 = v.not_too_many in
      let sign : is_negative d.voters_count ≡ false = v.counted in ground arith
    where
      all_fresh : (ns : List String) → AreFresh [] ns
      all_fresh [] = tt
      all_fresh (n ∷ ns) = (refl, all_fresh ns)

  -- The data of a poll is valid exactly if there are 2 to 20 options, their names have at most 1000 bytes,
  -- are not changed by cleaning and differ from each other, and the number of voters is not negative.
  pub validate_poll_data_lem : (d : PollData) → (validate_poll_data clean d ≡ none) ↔ IsValid d
  validate_poll_data_lem d = (data-IsValid d, valid_data d)
