-- ===== src/Filters/Exact.antt =====
-- The rule for one host, among the rules for patterns.
use text.Mathlib.TextEquality.{eq_iff}
use mitra.Prelude.{
  ◌≡◌, refl, ◌∙◌, String, Option, Bool, true, false, not, ◌&&◌, inl, inr, List, [], ◌∷◌, ◌++◌, any,
  modify, str_eq, ◌==◌, arith, Bool-cases, All, All-append, ℕ, any-append_hit,
}
use mitra.Database.{ok}
use mitra.Filters.Types.{FilterAction, action_eq, FilterRule, Rules}
use mitra.Filters.Queries.{
  codes, rule_key, with_reversed, add_filter_rule, has_wildcard, rule_before,
}
use mitra.Filters.Order.{IsCollation}
use mitra.Filters.Federation.{FederationFilter, is_applicable, is_action_required, init}
use mitra.Filters.Decision.{key_rule, Yields, most_specific_decides}

action_eq_refl : (a : FilterAction) → action_eq a a ≡ true
action_eq_refl a = ground arith

-- `?` stands for any one character.
abbrev pub has_single : String → Bool
has_single target = any (λ c. c == b'?') (codes target)

-- What is known of `WildMatch`: a pattern without wildcards matches itself alone.
pub record IsLiteral (matches : String → String → Bool) (host : String) : Type 0 where
  pub itself : matches host host ≡ true
  pub alone :
      (p : String)
      → has_wildcard p ≡ false
      → has_single p ≡ false
      → matches p host ≡ true
      → p ≡ host

module _ (matches reverse_le : String → String → Bool) (host : String) (action : FilterAction)
    (is_reversed : Bool) (l : IsLiteral matches host) (exact : has_wildcard host ≡ false) where
  abbrev Exact : FilterRule → Type 0
  Exact = Yields matches reverse_le host host action (not is_reversed)

  -- Another rule is for a pattern, which comes first.
  behind :
      (s : FilterRule)
      → has_single s.target ≡ false
      → rule_key host action s ≡ false
      → is_applicable matches host action s ≡ true
      → rule_before reverse_le (key_rule matches reverse_le host host action (not is_reversed)) s
        ≡ false
  unfolding rule_before
  behind s plain apart applies = elim (Bool-cases (has_wildcard s.target)) [
    | inl wild ↦ rw (exact, wild) refl
    | inr literal ↦
        let same : s.target ≡ host = l.alone s.target literal plain (ground arith) in
        absurd (clash ((eq_iff s.target host).1 same))
  ]
    where
      clash : str_eq s.target host ≡ true → ⊥
      clash e = ground arith

  others : (s : FilterRule) → has_single s.target ≡ false → rule_key host action s ≡ false → Exact s
  others s plain apart = record { own = λ k. cc; other = behind s plain }

  modified :
      (rows : List FilterRule)
      → All (λ (s : FilterRule). has_single s.target ≡ false) rows
      → All Exact (modify (rule_key host action) (with_reversed is_reversed) rows)
  unfolding modify
  modified [] p = tt
  modified (s ∷ rows) p = elim (Bool-cases (rule_key host action s)) [
    | inl same ↦ rw same (record { own = λ k. refl; other = λ k. cc }, modified rows p.1)
    | inr apart ↦ rw apart (others s p.0 apart, modified rows p.1)
  ]

  untouched :
      (rows : List FilterRule)
      → All (λ (s : FilterRule). has_single s.target ≡ false) rows
      → any (rule_key host action) rows ≡ false
      → All Exact rows
  untouched [] p h = tt
  untouched (s ∷ rows) p h = (others s p.0 (ground arith), untouched rows p.1 (ground arith))

  any-modified :
      (rows : List FilterRule)
      → any (rule_key host action) (modify (rule_key host action) (with_reversed is_reversed) rows)
        ≡ any (rule_key host action) rows
  unfolding modify
  any-modified [] = refl
  any-modified (s ∷ rows) = elim (Bool-cases (rule_key host action s)) [
    | inl same ↦ rw (same, same) refl
    | inr apart ↦ rw (apart, apart, any-modified rows) refl
  ]

  abbrev IsReady : Rules → Type 0
  IsReady t = (any (rule_key host action) t.filter_rule ≡ true) × All Exact t.filter_rule

  abbrev new_rule : ℕ → FilterRule
  new_rule id = record { id = id; target = host; filter_action = action; is_reversed = is_reversed }

  new_key : str_eq host host && action_eq action action ≡ true
  new_key = rw ((eq_iff host host).1 refl) (action_eq_refl action)

  not_own : str_eq host host && action_eq action action ≡ false → ⊥
  not_own k = ground (arith, k, new_key)

  added :
      (t t' : Rules)
      → All (λ (s : FilterRule). has_single s.target ≡ false) t.filter_rule
      → add_filter_rule host action is_reversed t ≡ (ok tt, t')
      → IsReady t'
  unfolding add_filter_rule
  added t t' p e = elim (Bool-cases (any (rule_key host action) t.filter_rule)) [
    | inl there ↦
        let rows : t'.filter_rule
            ≡ modify (rule_key host action) (with_reversed is_reversed) t.filter_rule =
          ground arith in
        rw rows (any-modified t.filter_rule ∙ there, modified t.filter_rule p)
    | inr absent ↦
        let rows : t'.filter_rule ≡ t.filter_rule ++ new_rule t.next_rule_id ∷ [] = ground arith in
        rw rows (
          any-append_hit (rule_key host action) t.filter_rule (new_rule t.next_rule_id) new_key,
          All-append Exact t.filter_rule (new_rule t.next_rule_id ∷ [])
              (untouched t.filter_rule p absent)
              (record { own = λ k. refl; other = λ k. absurd (not_own k) }, tt),
        )
  ]

module _ (matches reverse_le : String → String → Bool) (o : IsCollation reverse_le) (host : String)
    (action : FilterAction) (is_reversed : Bool) where
  -- Once a rule for a host itself is added, it decides about this host, whatever the other rules,
  -- the blocklist and the allowlist are, if no rule has a target with the wildcard `?`, the host
  -- has no wildcard and is matched by no other text without wildcards, and the collation is total
  -- and transitive.
  pub exact_rule_decides :
      (blocked allowed : Option (List String)) (t t' t'' : Rules) (f : FederationFilter)
      → IsLiteral matches host
      → has_wildcard host ≡ false
      → All (λ (s : FilterRule). has_single s.target ≡ false) t.filter_rule
      → add_filter_rule host action is_reversed t ≡ (ok tt, t')
      → init reverse_le blocked allowed t' ≡ (ok f, t'')
      → is_action_required matches f host action ≡ not is_reversed
  exact_rule_decides blocked allowed t t' t'' f l exact p a i =
      let (there, y) = added matches reverse_le host action is_reversed l exact t t' p a in
      most_specific_decides matches reverse_le o host host action (not is_reversed) blocked allowed
        t' t'' f l.itself there y i
