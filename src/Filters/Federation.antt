-- ===== src/Filters/Federation.antt =====
-- mitra_activitypub/src/filter.rs: which actions are taken against a host.
use mitra.Prelude.{
  String, Bool, true, false, not, ◌&&◌, ◌||◌, List, [], ◌∷◌, any, select, if◌then◌else◌, Option,
  none, some,
}
use mitra.Database.{Query, pure, ◌>>=◌}
use mitra.Filters.Types.{FilterAction, action_eq, reject_incoming, reject_all, FilterRule, Rules}
use mitra.Filters.Queries.{get_filter_rules}

pub record FederationFilter : Type 0 where
  pub blocklist : List String
  pub allowlist : List String
  pub rules : List FilterRule

-- The loop over the applicable rules.
unfoldable pub apply_rules : Bool → List FilterRule → Bool
apply_rules is_required [] = is_required
apply_rules is_required (r ∷ rs) = apply_rules (not r.is_reversed) rs

abbrev unwrap_or_default : Option (List String) → List String
unwrap_or_default none = []
unwrap_or_default (some xs) = xs

-- `WildMatch::new(pattern).matches(hostname)` is a parameter.
module _ (matches : String → String → Bool) where
  unfoldable pub is_hostname_allowed : List String → List String → String → Bool
  is_hostname_allowed blocklist allowlist hostname =
      if any (λ blocked. matches blocked hostname) blocklist
      then any (λ allowed. matches allowed hostname) allowlist
      else true

  abbrev pub is_applicable : String → FilterAction → FilterRule → Bool
  is_applicable hostname action r = matches r.target hostname && action_eq r.filter_action action

  abbrev pub initially_required : FederationFilter → String → FilterAction → Bool
  initially_required f hostname reject_incoming =
      not (is_hostname_allowed f.blocklist f.allowlist hostname)
  initially_required f hostname action = false

  unfoldable pub is_action_required : FederationFilter → String → FilterAction → Bool
  unfolding apply_rules
  is_action_required f hostname action =
      apply_rules (initially_required f hostname action)
        (select (is_applicable hostname action) f.rules)

  unfoldable pub is_incoming_blocked : FederationFilter → String → Bool
  unfolding is_action_required
  is_incoming_blocked f hostname =
      is_action_required f hostname reject_incoming || is_action_required f hostname reject_all

-- The lists are those of the configuration.
unfoldable pub init :
    (String → String → Bool)
    → Option (List String)
    → Option (List String)
    → Query Rules FederationFilter
unfolding ◌>>=◌ get_filter_rules
init reverse_le blocked_instances allowed_instances = do
  rules ← get_filter_rules reverse_le
  pure (record {
    blocklist = unwrap_or_default blocked_instances;
    allowlist = unwrap_or_default allowed_instances;
    rules = rules;
  })
