-- ===== src/Codes.antt =====
-- The integer codes under which the database stores the enums of the modelled tables.
use mitra.Prelude.{◌≡◌, refl, arith}
use mitra.Prelude.Int.{ℤ, pos, negsuc}
use mitra.Database.{Result, ok}
use mitra.Filters.Types.{FilterAction, reject_incoming, action_code, action_of_code}
use mitra.Jobs.Types.{
  JobType, incoming_activity, job_type_code, job_type_of_code, JobStatus, queued, job_status_code,
  job_status_of_code,
}
use mitra.Invoices.Types.{status_code, status_of_code}
use mitra.Invoices.Transitions.{status_code_roundtrip}
use mitra.Relationships.Types.{type_code, type_of_code, request_status_code, request_status_of_code}
use mitra.Relationships.Codes.{relationship_codes_roundtrip}
use mitra.Profiles.Types.{MentionPolicy, policy_none, mention_policy_code, mention_policy_of_code}
use mitra.Posts.Types.{Visibility, public, visibility_code, visibility_of_code}

-- Every value is read back from its code, and a code that is read is the one of the value.
abbrev pub AreCodes : {A : Type 0} → (A → ℤ) → (ℤ → Result A) → Type 0
AreCodes {A = A} encode decode =
    ((x : A) → decode (encode x) ≡ ok x) × ((n : ℤ) (x : A) → decode n ≡ ok x → encode x ≡ n)

job_type_codes : AreCodes job_type_code job_type_of_code
unfolding job_type_code job_type_of_code
job_type_codes = (encode, decode)
  where
    encode : (x : JobType) → job_type_of_code (job_type_code x) ≡ ok x
    encode incoming_activity = refl
    encode _ = refl

    decode : (n : ℤ) (x : JobType) → job_type_of_code n ≡ ok x → job_type_code x ≡ n
    decode (pos n) x e = ground arith
    decode (negsuc n) x e = cc

job_status_codes : AreCodes job_status_code job_status_of_code
unfolding job_status_code job_status_of_code
job_status_codes = (encode, decode)
  where
    encode : (x : JobStatus) → job_status_of_code (job_status_code x) ≡ ok x
    encode queued = refl
    encode _ = refl

    decode : (n : ℤ) (x : JobStatus) → job_status_of_code n ≡ ok x → job_status_code x ≡ n
    decode (pos n) x e = ground arith
    decode (negsuc n) x e = cc

action_codes : AreCodes (λ x. pos (action_code x)) action_of_code
unfolding action_code action_of_code
action_codes = (encode, decode)
  where
    encode : (x : FilterAction) → action_of_code (pos (action_code x)) ≡ ok x
    encode reject_incoming = refl
    encode _ = refl

    decode : (n : ℤ) (x : FilterAction) → action_of_code n ≡ ok x → pos (action_code x) ≡ n
    decode (pos n) x e = ground arith
    decode (negsuc n) x e = cc

visibility_codes : AreCodes visibility_code visibility_of_code
unfolding visibility_code visibility_of_code
visibility_codes = (encode, decode)
  where
    encode : (x : Visibility) → visibility_of_code (visibility_code x) ≡ ok x
    encode public = refl
    encode _ = refl

    decode : (n : ℤ) (x : Visibility) → visibility_of_code n ≡ ok x → visibility_code x ≡ n
    decode (pos n) x e = ground arith
    decode (negsuc n) x e = cc

mention_policy_codes : AreCodes mention_policy_code mention_policy_of_code
unfolding mention_policy_code mention_policy_of_code
mention_policy_codes = (encode, decode)
  where
    encode : (x : MentionPolicy) → mention_policy_of_code (mention_policy_code x) ≡ ok x
    encode policy_none = refl
    encode _ = refl

    decode :
        (n : ℤ) (x : MentionPolicy) → mention_policy_of_code n ≡ ok x → mention_policy_code x ≡ n
    decode (pos n) x e = ground arith
    decode (negsuc n) x e = cc

-- Every status of an invoice, relationship type, status of a follow request, type and status of a
-- job, action of a filter rule, visibility of a post and policy on mentions is read back from the code
-- under which it is stored, and a code that is read is the one under which the value is stored.
pub stored_codes_roundtrip :
    AreCodes status_code status_of_code
    × AreCodes type_code type_of_code
    × AreCodes request_status_code request_status_of_code
    × AreCodes job_type_code job_type_of_code
    × AreCodes job_status_code job_status_of_code
    × AreCodes (λ x. pos (action_code x)) action_of_code
    × AreCodes visibility_code visibility_of_code
    × AreCodes mention_policy_code mention_policy_of_code
stored_codes_roundtrip =
    let (type_encode, type_decode, request_encode, request_decode) = relationship_codes_roundtrip in
    (
      status_code_roundtrip,
      (type_encode, type_decode),
      (request_encode, request_decode),
      job_type_codes,
      job_status_codes,
      action_codes,
      visibility_codes,
      mention_policy_codes,
    )
