-- ===== src/Relationships/Requests.antt =====
-- mitra_models/src/relationships/queries.rs: the queries on the table `follow_request`.
use mitra.Prelude.{
  ℕ, String, Bool, true, false, not, ◌&&◌, ◌||◌, Option, none, some, [], ◌∷◌, ◌++◌, any, find,
  remove, modify, ◌==◌, str_eq, if◌then◌else◌,
}
use mitra.Database.{Query, ok, err, client_error, already_exists, not_found, ok_or}
use mitra.Relationships.Types.{FollowRequest, FollowRequestStatus, pending}
use mitra.Schema.{Tables, is_profile}

abbrev pub request_id : ℕ → FollowRequest → Bool
request_id id r = r.id == id

abbrev pub of_participants : ℕ → ℕ → FollowRequest → Bool
of_participants source target r = r.source_id == source && r.target_id == target

abbrev has_activity : Option String → String → Bool
has_activity none activity = false
has_activity (some a) activity = str_eq a activity

abbrev new_request : ℕ → ℕ → ℕ → Option String → ℕ → FollowRequest
new_request id source target activity now = record {
  id = id;
  source_id = source;
  target_id = target;
  activity_id = activity;
  request_status = pending;
  has_deprecated_ap_id = false;
  created_at = now;
}

abbrev pub add_request : FollowRequest → Tables → Tables
add_request r t = record t { follow_request = t.follow_request ++ r ∷ [] }

-- The identifier is the one that `generate_ulid` returns.
unfoldable pub create_follow_request_unchecked : ℕ → ℕ → ℕ → Query Tables FollowRequest
create_follow_request_unchecked id source target t =
    let r = new_request id source target none t.clock in
    if source == target
    then (err client_error, t)
    else if any (request_id id) t.follow_request
        || any (of_participants source target) t.follow_request
    then (err (already_exists "follow request"), t)
    else if not (is_profile t source && is_profile t target)
    then (err client_error, t)
    else (ok r, add_request r t)

-- Another request has the activity.
abbrev pub activity_taken : ℕ → String → Tables → Bool
activity_taken id activity t =
    any (λ r. not (r.id == id) && has_activity r.activity_id activity) t.follow_request

abbrev pub with_activity : String → FollowRequest → FollowRequest
with_activity activity r = record r { activity_id = some activity }

-- INSERT … ON CONFLICT (source_id, target_id) DO UPDATE; the flag is `is_new`.
unfoldable pub create_remote_follow_request_opt :
    ℕ → ℕ → ℕ → String → Query Tables (FollowRequest × Bool)
create_remote_follow_request_opt id source target activity t =
    let r = new_request id source target (some activity) t.clock in
    if source == target
    then (err client_error, t)
    else elim (find (of_participants source target) t.follow_request) [
      | some old ↦ if activity_taken old.id activity t then (err client_error, t) else (
        ok (with_activity activity old, old.id == id),
        record t {
          follow_request =
              modify (of_participants source target) (with_activity activity) t.follow_request;
        },
      )
      | none ↦
          if any (request_id id) t.follow_request || activity_taken id activity t
          then (err client_error, t)
          else if not (is_profile t source && is_profile t target)
          then (err client_error, t)
          else (ok (r, true), add_request r t)
    ]

abbrev pub with_request_status : FollowRequestStatus → FollowRequest → FollowRequest
with_request_status status r = record r { request_status = status }

-- `UPDATE follow_request SET request_status … WHERE id … RETURNING`, then `ok_or`.
unfoldable pub set_request_status : ℕ → FollowRequestStatus → Query Tables FollowRequest
set_request_status id status t = elim (find (request_id id) t.follow_request) [
  | none ↦ (err (not_found "follow request"), t)
  | some r ↦ (
    ok (with_request_status status r),
    record t {
      follow_request = modify (request_id id) (with_request_status status) t.follow_request;
    },
  )
]

-- `DELETE FROM follow_request WHERE id … RETURNING`, then `ok_or`.
unfoldable pub delete_request : ℕ → Query Tables FollowRequest
delete_request id t = elim (find (request_id id) t.follow_request) [
  | none ↦ (err (not_found "follow request"), t)
  | some r ↦ (ok r, record t { follow_request = remove (request_id id) t.follow_request })
]

unfoldable pub delete_follow_request_opt : ℕ → ℕ → Query Tables (Option (ℕ × Bool))
delete_follow_request_opt source target t =
    elim (find (of_participants source target) t.follow_request) [
      | none ↦ (ok none, t)
      | some r ↦ (
        ok (some (r.id, r.has_deprecated_ap_id)),
        record t { follow_request = remove (of_participants source target) t.follow_request },
      )
    ]

unfoldable pub get_follow_request_by_id : ℕ → Query Tables FollowRequest
get_follow_request_by_id id t =
    (ok_or (not_found "follow request") (find (request_id id) t.follow_request), t)

unfoldable pub get_follow_request_by_remote_activity_id : String → Query Tables FollowRequest
get_follow_request_by_remote_activity_id activity t = (
  ok_or (not_found "follow request")
      (find (λ r. has_activity r.activity_id activity) t.follow_request),
  t,
)

unfoldable pub get_follow_request_by_participants : ℕ → ℕ → Query Tables FollowRequest
get_follow_request_by_participants source target t =
    (ok_or (not_found "follow request") (find (of_participants source target) t.follow_request), t)
