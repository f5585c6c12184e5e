-- ===== src/Relationships/Codes.antt =====
-- The integer codes under which relationships and follow requests are stored.
use mitra.Prelude.{ℕ, ◌≡◌, refl, arith, true, false, ◌==◌}
use mitra.Prelude.Int.{ℤ, pos, negsuc}
use mitra.Database.{ok}
use mitra.Relationships.Types.{
  RelationshipType, FollowRequestStatus, type_code, type_of_code, request_status_code,
  request_status_of_code, RelationshipOrFollowRequest, is_direct, other_side, follow_type, pending,
}

-- Every relationship type and every status of a follow request is read back from its code, and a
-- code that is read is the one under which the value is stored.
pub relationship_codes_roundtrip :
    ((x : RelationshipType) → type_of_code (type_code x) ≡ ok x)
    × ((n : ℤ) (x : RelationshipType) → type_of_code n ≡ ok x → type_code x ≡ n)
    × ((x : FollowRequestStatus) → request_status_of_code (request_status_code x) ≡ ok x)
    × ((n : ℤ) (x : FollowRequestStatus)
        → request_status_of_code n ≡ ok x
        → request_status_code x ≡ n)
unfolding type_code type_of_code request_status_code request_status_of_code
relationship_codes_roundtrip = (encode, decode, encode_status, decode_status)
  where
    encode : (x : RelationshipType) → type_of_code (type_code x) ≡ ok x
    encode follow_type = refl
    encode _ = refl

    decode : (n : ℤ) (x : RelationshipType) → type_of_code n ≡ ok x → type_code x ≡ n
    decode (pos n) x e = ground arith
    decode (negsuc n) x e = cc

    encode_status :
        (x : FollowRequestStatus) → request_status_of_code (request_status_code x) ≡ ok x
    encode_status pending = refl
    encode_status _ = refl

    decode_status :
        (n : ℤ) (x : FollowRequestStatus)
        → request_status_of_code n ≡ ok x
        → request_status_code x ≡ n
    decode_status (pos n) x e = ground arith
    decode_status (negsuc n) x e = cc

-- Between two different profiles, a relationship that has one of them as a side names the other as
-- its other side, is direct from source to target, and is not direct the other way.
pub is_direct-other_side :
    (r : RelationshipOrFollowRequest) (source target : ℕ)
    → (source == target) ≡ false
    → is_direct r source target ≡ ok true
    → (other_side r source ≡ ok target)
      × (other_side r target ≡ ok source)
      × (is_direct r target source ≡ ok false)
unfolding is_direct other_side
is_direct-other_side r source target ne d = (ground arith, ground arith, ground arith)
