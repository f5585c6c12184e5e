-- ===== src/Filters/Types.antt =====
-- mitra_models/src/filter_rules/types.rs: the actions of filter rules, and the rules.
use mitra.Prelude.{ℕ, String, Bool, true, false, List, ◌==◌, if◌then◌else◌}
use mitra.Prelude.Int.{ℤ, pos, negsuc}
use mitra.Database.{Result, ok, err, type_error}

pub data FilterAction : Type 0 where
  reject_incoming reject_media_attachments reject_profile_images reject_custom_emojis reject_all
        mark_sensitive reject_keywords proxy_media :
      FilterAction

-- `From<FilterAction> for i16`.
unfoldable pub action_code : FilterAction → ℕ
action_code reject_incoming = 1
action_code reject_media_attachments = 2
action_code reject_profile_images = 3
action_code reject_custom_emojis = 4
action_code reject_all = 5
action_code mark_sensitive = 6
action_code reject_keywords = 7
action_code proxy_media = 8

-- `TryFrom<i16> for FilterAction`.
unfoldable pub action_of_code : ℤ → Result FilterAction
action_of_code (negsuc n) = err type_error
action_of_code (pos n) =
    if n == 1
    then ok reject_incoming
    else if n == 2
    then ok reject_media_attachments
    else if n == 3
    then ok reject_profile_images
    else if n == 4
    then ok reject_custom_emojis
    else if n == 5
    then ok reject_all
    else if n == 6
    then ok mark_sensitive
    else if n == 7
    then ok reject_keywords
    else if n == 8
    then ok proxy_media
    else err type_error

-- The derived `==`.
abbrev pub action_eq : FilterAction → FilterAction → Bool
action_eq reject_incoming reject_incoming = true
action_eq reject_media_attachments reject_media_attachments = true
action_eq reject_profile_images reject_profile_images = true
action_eq reject_custom_emojis reject_custom_emojis = true
action_eq reject_all reject_all = true
action_eq mark_sensitive mark_sensitive = true
action_eq reject_keywords reject_keywords = true
action_eq proxy_media proxy_media = true
action_eq _ _ = false

pub record FilterRule : Type 0 where
  pub id : ℕ
  pub target : String
  pub filter_action : FilterAction
  pub is_reversed : Bool

-- The table, and its identity sequence.
pub record Rules : Type 0 where
  pub filter_rule : List FilterRule
  pub next_rule_id : ℕ
