-- ===== src/Relationships/Types.antt =====
-- mitra_models/src/relationships/types.rs: relationships between profiles, and follow requests.
use mitra.Prelude.{ℕ, String, Option, Bool, true, false, ◌&&◌, ◌==◌, if◌then◌else◌}
use mitra.Prelude.Int.{ℤ, pos, negsuc}
use mitra.Database.{Result, ok, err, type_error}

pub data RelationshipType : Type 0 where
  follow_type follow_request_type subscription hide_reposts_type hide_replies_type mute_type reject
        group_admin :
      RelationshipType

-- `From<RelationshipType> for i16`.
unfoldable pub type_code : RelationshipType → ℤ
type_code follow_type = pos 1
type_code follow_request_type = pos 2
type_code subscription = pos 3
type_code hide_reposts_type = pos 4
type_code hide_replies_type = pos 5
type_code mute_type = pos 6
type_code reject = pos 7
type_code group_admin = pos 8

-- `TryFrom<i16> for RelationshipType`.
unfoldable pub type_of_code : ℤ → Result RelationshipType
type_of_code (negsuc n) = err type_error
type_of_code (pos n) =
    if n == 1
    then ok follow_type
    else if n == 2
    then ok follow_request_type
    else if n == 3
    then ok subscription
    else if n == 4
    then ok hide_reposts_type
    else if n == 5
    then ok hide_replies_type
    else if n == 6
    then ok mute_type
    else if n == 7
    then ok reject
    else if n == 8
    then ok group_admin
    else err type_error

-- Equality in SQL of two `relationship_type` columns.
abbrev pub type_eq : RelationshipType → RelationshipType → Bool
type_eq follow_type follow_type = true
type_eq follow_request_type follow_request_type = true
type_eq subscription subscription = true
type_eq hide_reposts_type hide_reposts_type = true
type_eq hide_replies_type hide_replies_type = true
type_eq mute_type mute_type = true
type_eq reject reject = true
type_eq group_admin group_admin = true
type_eq _ _ = false

-- A row of the table `relationship`.
pub record Relationship : Type 0 where
  pub id : ℕ
  pub source_id : ℕ
  pub target_id : ℕ
  pub relationship_type : RelationshipType
  pub created_at : ℕ

pub record RelationshipOrFollowRequest : Type 0 where
  pub source_id : ℕ
  pub target_id : ℕ
  pub relationship_type : RelationshipType
  pub created_at : ℕ

unfoldable pub is_direct : RelationshipOrFollowRequest → ℕ → ℕ → Result Bool
is_direct r source target =
    if r.source_id == source && r.target_id == target
    then ok true
    else if r.source_id == target && r.target_id == source
    then ok false
    else err type_error

-- The other participant; `with` of the source.
unfoldable pub other_side : RelationshipOrFollowRequest → ℕ → Result ℕ
other_side r profile =
    if r.source_id == profile
    then ok r.target_id
    else if r.target_id == profile
    then ok r.source_id
    else err type_error

pub data FollowRequestStatus : Type 0 where
  pending accepted rejected : FollowRequestStatus

abbrev pub is_pending : FollowRequestStatus → Bool
is_pending pending = true
is_pending _ = false

unfoldable pub request_status_code : FollowRequestStatus → ℤ
request_status_code pending = pos 1
request_status_code accepted = pos 2
request_status_code rejected = pos 3

unfoldable pub request_status_of_code : ℤ → Result FollowRequestStatus
request_status_of_code (negsuc n) = err type_error
request_status_of_code (pos n) =
    if n == 1
    then ok pending
    else if n == 2
    then ok accepted
    else if n == 3
    then ok rejected
    else err type_error

pub record FollowRequest : Type 0 where
  pub id : ℕ
  pub source_id : ℕ
  pub target_id : ℕ
  pub activity_id : Option String
  pub request_status : FollowRequestStatus
  pub has_deprecated_ap_id : Bool
  pub created_at : ℕ
