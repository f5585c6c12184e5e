-- ===== src/Relationships/Moves.antt =====
-- The calls of the operations on relationships that leave what is counted alone, and the transactions
-- around them.
use mitra.Notifications.Types.{EventType, follow_event}
use mitra.Prelude.{
  ℕ, ◌≡◌, refl, Bool, true, false, ◌&&◌, inl, inr, none, find, if◌then◌else◌, Option-cases,
  Bool-cases,
}
use mitra.Database.{Query, DatabaseError, pure, ensure}
use mitra.Notifications.Queries.{create_notification, create_follow_notification}
use mitra.Relationships.Types.{
  RelationshipType, type_eq, follow_type, subscription, mute_type, FollowRequestStatus,
}
use mitra.Relationships.Table.{
  insert_or_ignore, delete_relationship, has_relationship, is_request_type,
}
use mitra.Relationships.Requests.{
  set_request_status, delete_request, delete_follow_request_opt, request_id, of_participants,
}
use mitra.Relationships.Queries.{when}
use mitra.Relationships.Balance
use mitra.Relationships.Balance.{Balanced, Balanced-IsAccurate}
use mitra.Relationships.Figures.{
  Figures, Moves, Moves-bind, Moves-pure, Apart-refl, IsQuiet, IsQuiet-Moves,
}
use mitra.Schema.{Tables, is_account, is_profile}

-- The calls that leave relationships and profiles alone.
create_notification-IsQuiet :
    (sender recipient : ℕ) (event : EventType)
    → IsQuiet (create_notification sender recipient none none none event)
unfolding create_notification
create_notification-IsQuiet sender recipient event = record {
  from = λ t. elim (Bool-cases (is_profile t sender && is_account t recipient)) [
    | inl stored ↦
        rw (stored, create_notification) (record { relationship = refl; actor_profile = refl })
    | inr missing ↦ rw (missing, create_notification) tt
  ];
}

has_relationship-IsQuiet :
    (source target : ℕ) (type : RelationshipType) → IsQuiet (has_relationship source target type)
unfolding has_relationship
has_relationship-IsQuiet source target type = record {
  from = λ t. elim (Bool-cases (is_request_type type)) [
    | inl wrong ↦ rw (wrong, has_relationship) tt
    | inr right ↦ rw (right, has_relationship) (Apart-refl t)
  ];
}

pub set_request_status-IsQuiet :
    (id : ℕ) (status : FollowRequestStatus) → IsQuiet (set_request_status id status)
unfolding set_request_status
set_request_status-IsQuiet id status = record {
  from = λ t. elim (Option-cases (find (request_id id) t.follow_request)) [
    | inl missing ↦ rw (missing, set_request_status) tt
    | inr (r, found) ↦
        rw (found, set_request_status) (record { relationship = refl; actor_profile = refl })
  ];
}

pub delete_request-IsQuiet : (id : ℕ) → IsQuiet (delete_request id)
unfolding delete_request
delete_request-IsQuiet id = record {
  from = λ t. elim (Option-cases (find (request_id id) t.follow_request)) [
    | inl missing ↦ rw (missing, delete_request) tt
    | inr (r, found) ↦
        rw (found, delete_request) (record { relationship = refl; actor_profile = refl })
  ];
}

pub delete_follow_request_opt-IsQuiet :
    (source target : ℕ) → IsQuiet (delete_follow_request_opt source target)
unfolding delete_follow_request_opt
delete_follow_request_opt-IsQuiet source target = record {
  from = λ t. elim (Option-cases (find (of_participants source target) t.follow_request)) [
    | inl missing ↦ rw (missing, delete_follow_request_opt) (Apart-refl t)
    | inr (r, found) ↦
        rw (found, delete_follow_request_opt) (record { relationship = refl; actor_profile = refl })
  ];
}

module _ (x : Figures) where
  told :
      (sender recipient : ℕ) (muted : Bool)
      → Moves x x (
          if muted
          then pure tt
          else create_notification sender recipient none none none follow_event)
  told sender recipient true = Moves-pure x tt
  told sender recipient false =
      IsQuiet-Moves x _ (create_notification-IsQuiet sender recipient follow_event)

  pub create_follow_notification-Moves :
      (sender recipient : ℕ) → Moves x x (create_follow_notification sender recipient)
  unfolding create_follow_notification
  create_follow_notification-Moves sender recipient =
      Moves-bind x x x _ _ (IsQuiet-Moves x _ (has_relationship-IsQuiet recipient sender mute_type))
        (told sender recipient)

  pub when-Moves : (b : Bool) (m : Query Tables (Unit {0})) → Moves x x m → Moves x x (when b m)
  when-Moves true m h = h
  when-Moves false m h = Moves-pure x tt

  pub ensure-Moves : (b : Bool) (e : DatabaseError) → Moves x x (ensure b e)
  ensure-Moves true e = record { from = λ t h. h }
  ensure-Moves false e = record { from = λ t h. tt }

  module _ (source target : ℕ) (type : RelationshipType) (f : type_eq type follow_type ≡ false)
      (s : type_eq type subscription ≡ false) where
    pub delete_other-Moves : Moves x x (delete_relationship source target type)
    delete_other-Moves = record {
      from = λ t b. Balance.delete_other source target _ _ _ _ _ _ t b type f s;
    }

    pub insert_or_ignore_other-Moves : Moves x x (insert_or_ignore source target type)
    insert_or_ignore_other-Moves = record {
      from = λ t b. Balance.insert_or_ignore_other source target _ _ _ _ _ _ t b type f s;
    }
