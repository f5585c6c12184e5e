-- ===== src/Posts/Types.antt =====
-- mitra_models/src/posts/types.rs, conversations/types.rs, and the columns of media that posts use.
use mitra.Prelude.{
  ℕ, String, Option, none, some, Bool, true, false, not, ◌&&◌, List, [], ◌∷◌, any, is_some, is_none,
  str_eq, ◌==◌, if◌then◌else◌,
}
use mitra.Prelude.Int.{ℤ, pos, negsuc}
use mitra.Database.{Result, ok, err, type_error}
use mitra.Polls.Types.{PollData}

pub data Visibility : Type 0 where
  public direct followers subscribers conversation : Visibility

abbrev pub visibility_eq : Visibility → Visibility → Bool
visibility_eq public public = true
visibility_eq direct direct = true
visibility_eq followers followers = true
visibility_eq subscribers subscribers = true
visibility_eq conversation conversation = true
visibility_eq _ _ = false

abbrev replies_to : Visibility → Bool → List Visibility
replies_to public _ = public ∷ followers ∷ direct ∷ []
replies_to followers true = conversation ∷ followers ∷ direct ∷ []
replies_to followers false = conversation ∷ direct ∷ []
replies_to subscribers _ = conversation ∷ direct ∷ []
replies_to conversation _ = conversation ∷ direct ∷ []
replies_to direct _ = direct ∷ []

unfoldable pub can_reply_with : Visibility → Visibility → Bool → Bool
can_reply_with v reply is_same_author = any (visibility_eq reply) (replies_to v is_same_author)

-- `From<Visibility> for i16`.
unfoldable pub visibility_code : Visibility → ℤ
visibility_code public = pos 1
visibility_code direct = pos 2
visibility_code followers = pos 3
visibility_code subscribers = pos 4
visibility_code conversation = pos 5

-- `TryFrom<i16> for Visibility`.
unfoldable pub visibility_of_code : ℤ → Result Visibility
visibility_of_code (negsuc n) = err type_error
visibility_of_code (pos n) =
    if n == 1
    then ok public
    else if n == 2
    then ok direct
    else if n == 3
    then ok followers
    else if n == 4
    then ok subscribers
    else if n == 5
    then ok conversation
    else err type_error

-- A row of the table `post`.
pub record Post : Type 0 where
  pub id : ℕ
  pub author_id : ℕ
  pub title : Option String
  pub content : String
  pub content_source : Option String
  pub language : Option String
  pub conversation_id : Option ℕ
  pub in_reply_to_id : Option ℕ
  pub repost_of_id : Option ℕ
  pub repost_has_deprecated_ap_id : Bool
  pub group_id : Option ℕ
  pub visibility : Visibility
  pub is_sensitive : Bool
  pub is_pinned : Bool
  pub reply_count : ℕ
  pub reaction_count : ℕ
  pub repost_count : ℕ
  pub url : Option String
  pub object_id : Option String
  pub ipfs_cid : Option String
  pub created_at : ℕ
  pub updated_at : Option ℕ

-- A row of the table `conversation`.
pub record Conversation : Type 0 where
  pub id : ℕ
  pub root_id : ℕ
  pub group_id : Option ℕ
  pub is_managed : Bool
  pub object_id : Option String
  pub audience : Option String

abbrev pub ap_public : String
ap_public = "https://www.w3.org/ns/activitystreams#Public"

-- `Conversation::is_public`.
unfoldable pub is_public : Conversation → Bool
is_public c = elim c.audience [ none ↦ false | some audience ↦ str_eq audience ap_public ]

-- A stored file, by its name and the URL it came from, or a link with its media type and URL. The
-- size, the digest and the media type of a file are left out.
pub data PartialMediaInfo : Type 0 where
  file : String → Option String → PartialMediaInfo
  link : String → String → PartialMediaInfo

abbrev pub is_file : PartialMediaInfo → Bool
is_file (file _ _) = true
is_file (link _ _) = false

pub record MediaAttachment : Type 0 where
  pub id : ℕ
  pub owner_id : ℕ
  pub media : PartialMediaInfo
  pub description : Option String
  pub ipfs_cid : Option String
  pub post_id : Option ℕ
  pub created_at : ℕ

pub record CustomEmoji : Type 0 where
  pub id : ℕ
  pub emoji_name : String
  pub hostname : Option String
  pub image : PartialMediaInfo
  pub category : Option String
  pub object_id : Option String
  pub updated_at : ℕ

-- The rows that connect posts with profiles, tags (by their names), posts and emojis.
pub record PostMention : Type 0 where
  pub post_id : ℕ
  pub profile_id : ℕ

pub record PostTag : Type 0 where
  pub post_id : ℕ
  pub tag_name : String

pub record PostLink : Type 0 where
  pub source_id : ℕ
  pub target_id : ℕ

pub record PostEmoji : Type 0 where
  pub post_id : ℕ
  pub emoji_id : ℕ

pub data PostContext : Type 0 where
  top :
      (group_id : Option ℕ) → (object_id : Option String) → (audience : Option String) → PostContext
  reply : (conversation_id : ℕ) → (in_reply_to_id : ℕ) → PostContext
  repost : (repost_of_id : ℕ) → PostContext

-- `PostContext::in_reply_to_id` and `PostContext::repost_of_id`.
unfoldable pub reply_target : PostContext → Option ℕ
reply_target (reply _ in_reply_to_id) = some in_reply_to_id
reply_target _ = none

unfoldable pub repost_target : PostContext → Option ℕ
repost_target (repost repost_of_id) = some repost_of_id
repost_target _ = none

pub record PostCreateData : Type 0 where
  pub id : Option ℕ
  pub context : PostContext
  pub title : Option String
  pub content : String
  pub content_source : Option String
  pub language : Option String
  pub visibility : Visibility
  pub is_sensitive : Bool
  pub poll : Option PollData
  pub attachments : List ℕ
  pub mentions : List ℕ
  pub tags : List String
  pub links : List ℕ
  pub emojis : List ℕ
  pub url : Option String
  pub object_id : Option String
  pub created_at : ℕ

-- `PostCreateData::check_consistency`.
abbrev check_context : PostContext → Option String → Visibility → Result (Unit {0})
check_context (top _ object_id audience) post_object_id visibility =
    if is_some object_id && is_none post_object_id
    then err type_error
    else if is_none audience && not (visibility_eq visibility direct)
    then err type_error
    else ok tt
check_context _ _ _ = ok tt

unfoldable pub check_post_data : PostCreateData → Result (Unit {0})
check_post_data d = check_context d.context d.object_id d.visibility

-- `PostCreateData::repost`; the time of its creation is an argument.
unfoldable pub repost_data : ℕ → Visibility → Option String → ℕ → PostCreateData
repost_data repost_of_id visibility object_id now = record {
  id = none;
  context = repost repost_of_id;
  title = none;
  content = "";
  content_source = none;
  language = none;
  visibility = visibility;
  is_sensitive = false;
  poll = none;
  attachments = [];
  mentions = [];
  tags = [];
  links = [];
  emojis = [];
  url = none;
  object_id = object_id;
  created_at = now;
}

pub record Repost : Type 0 where
  pub id : ℕ
  pub author_id : ℕ
  pub repost_of_id : ℕ
  pub has_deprecated_ap_id : Bool
  pub visibility : Visibility

-- `TryFrom<&Row> for Repost`.
unfoldable pub repost_of_row : Post → Result Repost
repost_of_row p = elim p.repost_of_id [
  | none ↦ err type_error
  | some repost_of_id ↦ ok (record {
    id = p.id;
    author_id = p.author_id;
    repost_of_id = repost_of_id;
    has_deprecated_ap_id = p.repost_has_deprecated_ap_id;
    visibility = p.visibility;
  })
]
