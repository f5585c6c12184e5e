-- ===== src/Filters/Tests.antt =====
-- The theorems on filter rules at concrete rules.
use text.Mathlib.TextEquality.{eq_iff}
use mitra.Prelude.{
  ℕ, ◌≡◌, refl, String, Bool, true, false, not, ◌||◌, none, List, [], ◌∷◌, any, str_eq, leb, length,
  All, arith, ◌==◌, if◌then◌else◌, Bool-cases, inl, inr, ap,
}
use mitra.Filters.Types.{reject_incoming, FilterRule, Rules}
use mitra.Filters.Queries.{codes, has_wildcard, add_filter_rule, rule_before}
use mitra.Filters.Federation.{FederationFilter, init, is_action_required}
use mitra.Filters.Order.{IsCollation}
use mitra.Filters.Decision.{Yields, most_specific_decides}
use mitra.Filters.Exact.{IsLiteral, has_single, exact_rule_decides}

-- A matcher that knows `*` alone and literal patterns.
abbrev simple_match : String → String → Bool
simple_match p host = str_eq p "*" || str_eq p host

-- A collation that tells texts apart by their lengths only.
abbrev by_size : String → String → Bool
by_size a b = leb (length (codes a)) (length (codes b))

by_size-IsCollation : IsCollation by_size
by_size-IsCollation = record { total = λ a b h. ground arith; trans = λ a b c h k. ground arith }

abbrev block_all : FilterRule
block_all = record { id = 1; target = "*"; filter_action = reject_incoming; is_reversed = false }

abbrev allow_one : FilterRule
allow_one = record { id = 2; target = "a.io"; filter_action = reject_incoming; is_reversed = true }

abbrev only_block : Rules
only_block = record { filter_rule = block_all ∷ []; next_rule_id = 2 }

abbrev both_rules : Rules
both_rules = record { filter_rule = block_all ∷ allow_one ∷ []; next_rule_id = 3 }

abbrev both_filter : FederationFilter
both_filter = record { blocklist = []; allowlist = []; rules = block_all ∷ allow_one ∷ [] }

star_is_wild : (p : String) → p ≡ "*" → has_wildcard p ≡ false → ⊥
star_is_wild p e w = let a : has_wildcard p ≡ true = ap has_wildcard e in cc

simple-IsLiteral : IsLiteral simple_match "a.io"
simple-IsLiteral = record { itself = refl; alone = literal }
  where
    literal :
        (p : String)
        → has_wildcard p ≡ false
        → has_single p ≡ false
        → simple_match p "a.io" ≡ true
        → p ≡ "a.io"
    literal p w q m = elim (Bool-cases (str_eq p "*")) [
      | inl star ↦ absurd (star_is_wild p ((eq_iff p "*").0 star) w)
      | inr other ↦ (eq_iff p "a.io").0 (ground arith)
    ]

exact_rule_decides_example :
    is_action_required simple_match both_filter "a.io" reject_incoming ≡ false
unfolding add_filter_rule init mitra.Prelude.sort rule_before
exact_rule_decides_example =
    exact_rule_decides simple_match by_size by_size-IsCollation "a.io" reject_incoming true none
      none only_block both_rules both_rules both_filter simple-IsLiteral refl (refl, tt) refl refl

most_specific_decides_example :
    is_action_required simple_match both_filter "b.io" reject_incoming ≡ true
unfolding init mitra.Prelude.sort rule_before
most_specific_decides_example =
    most_specific_decides simple_match by_size by_size-IsCollation "b.io" "*" reject_incoming true
      none none both_rules both_rules both_filter refl refl yields refl
  where
    yields :
        All
          (Yields simple_match by_size "b.io" "*" reject_incoming true)
          (block_all ∷ allow_one ∷ [])
    yields = (
      record { own = λ k. refl; other = λ k a. cc },
      (record { own = λ k. cc; other = λ k a. cc }, tt),
    )
