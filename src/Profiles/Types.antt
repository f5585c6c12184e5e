-- ===== src/Profiles/Types.antt =====
-- mitra_models/src/profiles/types.rs: the columns of a profile that the modelled queries use.
use mitra.Prelude.{ℕ, String, Option, Bool, is_some, is_none}
use mitra.Prelude.Int.{ℤ, pos, negsuc}
use mitra.Prelude.{if◌then◌else◌, ◌==◌}
use mitra.Database.{Result, ok, err, type_error}

-- Whose mentions a profile accepts; `MentionPolicy::None` is no restriction.
pub data MentionPolicy : Type 0 where
  policy_none only_known only_contacts : MentionPolicy

unfoldable pub mention_policy_code : MentionPolicy → ℤ
mention_policy_code policy_none = pos 0
mention_policy_code only_known = pos 1
mention_policy_code only_contacts = pos 2

unfoldable pub mention_policy_of_code : ℤ → Result MentionPolicy
mention_policy_of_code (negsuc n) = err type_error
mention_policy_of_code (pos n) =
    if n == 0
    then ok policy_none
    else if n == 1
    then ok only_known
    else if n == 2
    then ok only_contacts
    else err type_error

-- `consistent` is the outcome of `check_consistency`, whose columns no modelled query writes, and
-- `actor_json` is the object of a remote actor, as text.
pub record DbActorProfile : Type 0 where
  pub id : ℕ
  pub user_id : Option ℕ
  pub manually_approves_followers : Bool
  pub mention_policy : MentionPolicy
  pub follower_count : ℕ
  pub following_count : ℕ
  pub subscriber_count : ℕ
  pub post_count : ℕ
  pub actor_json : Option String
  pub created_at : ℕ
  pub consistent : Bool

abbrev pub has_user_account : DbActorProfile → Bool
has_user_account p = is_some p.user_id

-- `DbActorProfile::is_local`.
abbrev pub is_managed : DbActorProfile → Bool
is_managed p = is_none p.actor_json
