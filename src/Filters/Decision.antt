-- ===== src/Filters/Decision.antt =====
-- Which rule decides about a host.
use text.Mathlib.TextEquality.{eq_iff}
use mitra.Prelude.{
  ◌≡◌, refl, sym, ◌∙◌, String, Option, Bool, true, false, not, inl, inr, List, [], ◌∷◌, any, select,
  sort, arith, Bool-cases, All, All-sort, any-sort, IsSorted, sort-IsSorted,
}
use mitra.Database.{ok}
use mitra.Filters.Types.{FilterAction, action_eq, FilterRule, Rules}
use mitra.Filters.Queries.{rule_key, rule_before}
use mitra.Filters.Order.{IsCollation, rule_total, rule_trans}
use mitra.Filters.Federation.{
  FederationFilter, is_applicable, apply_rules, is_action_required, init,
}

action_eq-eq : (a b : FilterAction) → action_eq a b ≡ true → a ≡ b
action_eq-eq a b h = ground arith

module _ (matches reverse_le : String → String → Bool) (host target : String)
    (action : FilterAction) (required : Bool) where
  abbrev pub key_rule : FilterRule
  key_rule = record { id = 0; target = target; filter_action = action; is_reversed = false }

  -- A rule of the target decides as required; any other that applies does not come after it.
  pub record Yields (s : FilterRule) : Type 0 where
    pub own : rule_key target action s ≡ true → not s.is_reversed ≡ required
    pub other :
        rule_key target action s ≡ false
        → is_applicable matches host action s ≡ true
        → rule_before reverse_le key_rule s ≡ false

  before_same :
      (x y : FilterRule)
      → rule_key target action x ≡ true
      → rule_before reverse_le x y ≡ rule_before reverse_le key_rule y
  unfolding rule_before
  before_same x y h =
      let same_target : x.target ≡ target = (eq_iff x.target target).0 (ground arith) in
      let same_action : x.filter_action ≡ action =
        action_eq-eq x.filter_action action (ground arith) in
      rw (same_target, same_action) refl

  -- After the rule of the target, no rule changes the decision.
  settled :
      (x : FilterRule) (xs : List FilterRule)
      → rule_key target action x ≡ true
      → All (λ y. rule_before reverse_le x y ≡ true) xs
      → All Yields xs
      → apply_rules required (select (is_applicable matches host action) xs) ≡ required
  unfolding apply_rules select
  settled x [] k h y = refl
  settled x (s ∷ xs) k h y = elim (Bool-cases (is_applicable matches host action s)) [
    | inr other ↦ rw other (settled x xs k h.1 y.1)
    | inl applies ↦ elim (Bool-cases (rule_key target action s)) [
      | inl same ↦ rw applies (rw (y.0.own same, apply_rules) (settled x xs k h.1 y.1))
      | inr apart ↦
          absurd (true_not_false (sym (before_same x s k ∙ y.0.other apart applies) ∙ h.0))
    ]
  ]
    where
      true_not_false : false ≡ true → ⊥
      true_not_false e = cc

  own_applies :
      (x : FilterRule)
      → matches target host ≡ true
      → rule_key target action x ≡ true
      → is_applicable matches host action x ≡ true
  own_applies x m k =
      let same_target : x.target ≡ target = (eq_iff x.target target).0 (ground arith) in
      rw same_target (ground arith)

  decided :
      (initial : Bool) (xs : List FilterRule)
      → matches target host ≡ true
      → IsSorted (rule_before reverse_le) xs
      → All Yields xs
      → any (rule_key target action) xs ≡ true
      → apply_rules initial (select (is_applicable matches host action) xs) ≡ required
  unfolding apply_rules select
  decided initial [] m s y e = cc
  decided initial (x ∷ xs) m s y e = elim (Bool-cases (rule_key target action x)) [
    | inl same ↦
        rw (own_applies x m same) (rw (y.0.own same, apply_rules) (settled x xs same s.0 y.1))
    | inr apart ↦ elim (Bool-cases (is_applicable matches host action x)) [
      | inl applies ↦ rw applies (decided (not x.is_reversed) xs m s.1 y.1 (ground arith))
      | inr other ↦ rw other (decided initial xs m s.1 y.1 (ground arith))
    ]
  ]

module _ (matches reverse_le : String → String → Bool) (o : IsCollation reverse_le)
    (host target : String) (action : FilterAction) (required : Bool) where
  -- If there is a rule for a target that matches the host, every rule for this target decides as
  -- required, and no other rule that applies to the host comes after it in the order of the
  -- rules, then the action is taken as required, whatever the blocklist and the allowlist are, if
  -- the collation is total and transitive.
  pub most_specific_decides :
      (blocked allowed : Option (List String)) (t t' : Rules) (f : FederationFilter)
      → matches target host ≡ true
      → any (rule_key target action) t.filter_rule ≡ true
      → All (Yields matches reverse_le host target action required) t.filter_rule
      → init reverse_le blocked allowed t ≡ (ok f, t')
      → is_action_required matches f host action ≡ required
  unfolding is_action_required init
  most_specific_decides blocked allowed t t' f m there y e =
      let rows : f.rules ≡ sort (rule_before reverse_le) t.filter_rule = cc in
      rw rows (
        decided matches reverse_le host target action required _
          (sort (rule_before reverse_le) t.filter_rule) m
          (sort-IsSorted (rule_before reverse_le) (rule_total reverse_le o)
            (rule_trans reverse_le o) t.filter_rule)
          (All-sort (rule_before reverse_le) (Yields matches reverse_le host target action required)
            t.filter_rule y)
          (any-sort (rule_before reverse_le) (rule_key target action) t.filter_rule ∙ there))
