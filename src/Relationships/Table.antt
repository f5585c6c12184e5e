-- ===== src/Relationships/Table.antt =====
-- mitra_models/src/relationships/queries.rs: the statements on the table `relationship` that the
-- queries are made of, and its lookups.
use mitra.Prelude.{
  ℕ, ◌+◌, Bool, true, false, not, ◌&&◌, ◌||◌, List, [], ◌∷◌, ◌++◌, any, map, select, remove, tally,
  ◌==◌, if◌then◌else◌,
}
use mitra.Database.{Query, ok, err, DatabaseError, type_error, client_error}
use mitra.Relationships.Types.{
  RelationshipType, type_eq, follow_request_type, Relationship, RelationshipOrFollowRequest,
  FollowRequest, is_pending,
}
use mitra.Schema.{Tables, is_profile}

-- The columns of the UNIQUE constraint.
abbrev pub by_key : ℕ → ℕ → RelationshipType → Relationship → Bool
by_key source target type r =
    r.source_id == source && r.target_id == target && type_eq r.relationship_type type

abbrev pub new_row : ℕ → ℕ → RelationshipType → Tables → Relationship
new_row source target type t = record {
  id = t.next_relationship_id;
  source_id = source;
  target_id = target;
  relationship_type = type;
  created_at = t.clock;
}

abbrev pub add_row : ℕ → ℕ → RelationshipType → Tables → Tables
add_row source target type t = record t {
  relationship = t.relationship ++ new_row source target type t ∷ [];
  next_relationship_id = t.next_relationship_id + 1;
}

-- INSERT; `violation` is what a broken UNIQUE constraint turns into.
unfoldable pub insert_relationship : DatabaseError → ℕ → ℕ → RelationshipType → Query Tables ℕ
insert_relationship violation source target type t =
    if source == target
    then (err client_error, t)
    else if any (by_key source target type) t.relationship
    then (err violation, t)
    else if not (is_profile t source && is_profile t target)
    then (err client_error, t)
    else (ok t.next_relationship_id, add_row source target type t)

-- INSERT … ON CONFLICT DO NOTHING; the number of rows that were inserted.
unfoldable pub insert_or_ignore : ℕ → ℕ → RelationshipType → Query Tables ℕ
insert_or_ignore source target type t =
    if source == target
    then (err client_error, t)
    else if any (by_key source target type) t.relationship
    then (ok 0, t)
    else if not (is_profile t source && is_profile t target)
    then (err client_error, t)
    else (ok 1, add_row source target type t)

-- DELETE; the number of rows that were deleted.
unfoldable pub delete_relationship : ℕ → ℕ → RelationshipType → Query Tables ℕ
delete_relationship source target type t = (
  ok (tally (by_key source target type) t.relationship),
  record t { relationship = remove (by_key source target type) t.relationship },
)

abbrev pub is_request_type : RelationshipType → Bool
is_request_type follow_request_type = true
is_request_type _ = false

unfoldable pub has_relationship : ℕ → ℕ → RelationshipType → Query Tables Bool
has_relationship source target type t =
    if is_request_type type
    then (err type_error, t)
    else (ok (any (by_key source target type) t.relationship), t)

abbrev pub between : ℕ → ℕ → ℕ → ℕ → Bool
between a b source target = (a == source && b == target) || (a == target && b == source)

abbrev pub of_relationship : Relationship → RelationshipOrFollowRequest
of_relationship r = record {
  source_id = r.source_id;
  target_id = r.target_id;
  relationship_type = r.relationship_type;
  created_at = r.created_at;
}

abbrev pub of_request : FollowRequest → RelationshipOrFollowRequest
of_request r = record {
  source_id = r.source_id;
  target_id = r.target_id;
  relationship_type = follow_request_type;
  created_at = r.created_at;
}

unfoldable pub get_relationships : ℕ → ℕ → Query Tables (List RelationshipOrFollowRequest)
get_relationships source target t = (
  ok (
      map of_relationship (
        select (λ (r : Relationship). between r.source_id r.target_id source target) t.relationship)
      ++ map of_request (
          select
            (λ (r : FollowRequest).
              between r.source_id r.target_id source target && is_pending r.request_status)
            t.follow_request)),
  t,
)
