-- ===== src/Filters/Order.antt =====
-- The order in which rules are applied.
use mitra.Prelude.{
  ◌≡◌, refl, String, Bool, true, false, not, ◌&&◌, ◌||◌, length, ltb, leb, ◌==◌, if◌then◌else◌,
  arith, ℕ,
}
use mitra.Filters.Types.{action_code, FilterRule}
use mitra.Filters.Queries.{codes, has_wildcard, rule_before}

-- What is known of the server's collation: an order in which any two texts stand one way or the other.
pub record IsCollation (reverse_le : String → String → Bool) : Type 0 where
  pub total : (a b : String) → reverse_le a b ≡ false → reverse_le b a ≡ true
  pub trans :
      (a b c : String) → reverse_le a b ≡ true → reverse_le b c ≡ true → reverse_le a c ≡ true

-- The order of rules by the values of its columns.
abbrev ordered_in : (la lb : ℕ) (ab ba : Bool) (ca cb : ℕ) → Bool
ordered_in la lb ab ba ca cb = ltb la lb || la == lb && (if ab then not ba || leb ca cb else false)

abbrev ordered : (wa wb : Bool) (la lb : ℕ) (ab ba : Bool) (ca cb : ℕ) → Bool
ordered wa wb la lb ab ba ca cb =
    if wa then not wb || ordered_in la lb ab ba ca cb else not wb && ordered_in la lb ab ba ca cb

ordered_in_trans :
    (la lb lc : ℕ) (ab ba bc cb ac ca : Bool) (x y z : ℕ)
    → (ab ≡ true → bc ≡ true → ac ≡ true)
    → (bc ≡ true → ca ≡ true → ba ≡ true)
    → (ca ≡ true → ab ≡ true → cb ≡ true)
    → ordered_in la lb ab ba x y ≡ true
    → ordered_in lb lc bc cb y z ≡ true
    → ordered_in la lc ac ca x z ≡ true
ordered_in_trans la lb lc true ba true cb ac true x y z f g k h i =
    ground (arith, f refl refl, g refl refl, k refl refl)
ordered_in_trans la lb lc true ba true cb ac false x y z f g k h i = ground (arith, f refl refl)
ordered_in_trans la lb lc true ba false cb ac ca x y z f g k h i = ground arith
ordered_in_trans la lb lc false ba true cb ac ca x y z f g k h i = ground arith
ordered_in_trans la lb lc false ba false cb ac ca x y z f g k h i = ground arith

ordered_trans :
    (wa wb wc : Bool) (la lb lc : ℕ) (ab ba bc cb ac ca : Bool) (x y z : ℕ)
    → (ab ≡ true → bc ≡ true → ac ≡ true)
    → (bc ≡ true → ca ≡ true → ba ≡ true)
    → (ca ≡ true → ab ≡ true → cb ≡ true)
    → ordered wa wb la lb ab ba x y ≡ true
    → ordered wb wc lb lc bc cb y z ≡ true
    → ordered wa wc la lc ac ca x z ≡ true
ordered_trans true true true la lb lc ab ba bc cb ac ca x y z f g k h i =
    ordered_in_trans la lb lc ab ba bc cb ac ca x y z f g k h i
ordered_trans true wb false la lb lc ab ba bc cb ac ca x y z f g k h i = refl
ordered_trans true false true la lb lc ab ba bc cb ac ca x y z f g k h i = cc
ordered_trans false false false la lb lc ab ba bc cb ac ca x y z f g k h i =
    ordered_in_trans la lb lc ab ba bc cb ac ca x y z f g k h i
ordered_trans false true wc la lb lc ab ba bc cb ac ca x y z f g k h i = cc
ordered_trans false false true la lb lc ab ba bc cb ac ca x y z f g k h i = cc

module _ (reverse_le : String → String → Bool) (o : IsCollation reverse_le) where
  pub rule_total :
      (x y : FilterRule) → rule_before reverse_le x y ≡ false → rule_before reverse_le y x ≡ true
  unfolding rule_before
  rule_total x y h = ground (arith, o.total x.target y.target, o.total y.target x.target)

  pub rule_trans :
      (x y z : FilterRule)
      → rule_before reverse_le x y ≡ true
      → rule_before reverse_le y z ≡ true
      → rule_before reverse_le x z ≡ true
  unfolding rule_before
  rule_trans x y z h k =
      ordered_trans (has_wildcard x.target) (has_wildcard y.target) (has_wildcard z.target)
        (length (codes x.target)) (length (codes y.target)) (length (codes z.target))
        (reverse_le x.target y.target) (reverse_le y.target x.target) (reverse_le y.target z.target)
        (reverse_le z.target y.target) (reverse_le x.target z.target) (reverse_le z.target x.target)
        (action_code x.filter_action) (action_code y.filter_action) (action_code z.filter_action)
        (o.trans x.target y.target z.target) (o.trans y.target z.target x.target)
        (o.trans z.target x.target y.target) h k
