-- ===== src/Filters/Queries.antt =====
-- mitra_models/src/filter_rules/queries.rs
use Prim.Native.Char.{code}
use mitra.Prelude.{
  ℕ, ◌+◌, String, Bool, false, not, ◌&&◌, ◌||◌, List, [], ◌∷◌, ◌++◌, any, length, remove, modify,
  sort, ltb, leb, str_eq, ◌==◌, if◌then◌else◌,
}
use mitra.Database.{Query, ok, err, not_found}
use mitra.Filters.Types.{FilterAction, action_code, action_eq, FilterRule, Rules}

-- The characters of a text.
abbrev pub codes : String → List ℕ
codes Prim.Native.String.[] = []
codes (Prim.Native.String.◌∷◌ c s) = code c ∷ codes s

-- The columns of the UNIQUE constraint.
abbrev pub rule_key : String → FilterAction → FilterRule → Bool
rule_key target action r = str_eq r.target target && action_eq r.filter_action action

abbrev pub with_reversed : Bool → FilterRule → FilterRule
with_reversed b r = record r { is_reversed = b }

-- INSERT … ON CONFLICT DO UPDATE.
unfoldable pub add_filter_rule : String → FilterAction → Bool → Query Rules (Unit {0})
add_filter_rule target action is_reversed t =
    if any (rule_key target action) t.filter_rule
    then (
      ok tt,
      record t {
        filter_rule = modify (rule_key target action) (with_reversed is_reversed) t.filter_rule;
        next_rule_id = t.next_rule_id + 1;
      },
    )
    else (
      ok tt,
      record t {
        filter_rule =
            t.filter_rule
            ++ record {
              id = t.next_rule_id;
              target = target;
              filter_action = action;
              is_reversed = is_reversed;
            }
              ∷ [];
        next_rule_id = t.next_rule_id + 1;
      },
    )

unfoldable pub remove_filter_rule : String → FilterAction → Query Rules (Unit {0})
remove_filter_rule target action t =
    if any (rule_key target action) t.filter_rule
    then (ok tt, record t { filter_rule = remove (rule_key target action) t.filter_rule })
    else (err (not_found "filter rule"), t)

-- `position('*' IN target) = 0` is false, and so first, for a target with a wildcard.
abbrev pub has_wildcard : String → Bool
has_wildcard target = any (λ c. c == b'*') (codes target)

-- The order of the server's collation on the reversed targets is a parameter.
module _ (reverse_le : String → String → Bool) where
  -- ORDER BY, from its last column to its first.
  abbrev by_action : FilterRule → FilterRule → Bool
  by_action a b = leb (action_code a.filter_action) (action_code b.filter_action)

  abbrev by_reverse : FilterRule → FilterRule → Bool
  by_reverse a b =
      if reverse_le a.target b.target
      then not (reverse_le b.target a.target) || by_action a b
      else false

  abbrev by_length : FilterRule → FilterRule → Bool
  by_length a b =
      ltb (length (codes a.target)) (length (codes b.target))
      || length (codes a.target) == length (codes b.target) && by_reverse a b

  unfoldable pub rule_before : FilterRule → FilterRule → Bool
  unfolding action_code
  rule_before a b =
      if has_wildcard a.target
      then not (has_wildcard b.target) || by_length a b
      else not (has_wildcard b.target) && by_length a b

  unfoldable pub get_filter_rules : Query Rules (List FilterRule)
  get_filter_rules t = (ok (sort rule_before t.filter_rule), t)
