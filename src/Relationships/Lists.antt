-- ===== src/Relationships/Lists.antt =====
-- mitra_models/src/relationships/queries.rs: the lists of the profiles that follow another or that
-- it follows. The server may return them in any order; here it is that of
-- the rows.
use mitra.Prelude.{ℕ, not, ◌&&◌, List, [], ◌∷◌, any, find, select, ◌==◌, if◌then◌else◌, none, some}
use mitra.Database.{Query, Result, ok, err, type_error}
use mitra.Profiles.Types.{DbActorProfile}
use mitra.Profiles.Queries.{profile_id}
use mitra.Relationships.Types.{Relationship, type_eq, follow_type}
use mitra.Schema.{Tables}

-- JOIN with the profile on one side of each row.
unfoldable pub joined :
    (Relationship → ℕ) → List DbActorProfile → List Relationship → List DbActorProfile
joined side profiles [] = []
joined side profiles (r ∷ rs) =
    let rest = joined side profiles rs in
    elim (find (profile_id (side r)) profiles) [ none ↦ rest | some p ↦ p ∷ rest ]

-- Reading the rows back stops at a profile that is not consistent.
unfoldable pub read_all : List DbActorProfile → Result (List DbActorProfile)
read_all ps = if any (λ (p : DbActorProfile). not p.consistent) ps then err type_error else ok ps

unfoldable pub get_followers : ℕ → Query Tables (List DbActorProfile)
get_followers id t = (
  read_all (
      joined (λ r. r.source_id) t.actor_profile
        (select (λ r. r.target_id == id && type_eq r.relationship_type follow_type)
          t.relationship)),
  t,
)

unfoldable pub get_following : ℕ → Query Tables (List DbActorProfile)
get_following id t = (
  read_all (
      joined (λ r. r.target_id) t.actor_profile
        (select (λ r. r.source_id == id && type_eq r.relationship_type follow_type)
          t.relationship)),
  t,
)
