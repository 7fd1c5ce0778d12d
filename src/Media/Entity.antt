-- ===== src/Media/Entity.antt =====
-- internal/domain/media/entity.go: the entity and its methods. `time.Now().UTC()` and `uuid.New()`
-- are the arguments `now`, `id` and `eid`; the text of a UUID is the argument `str`.
use notai_api.Base.{
  Bool, List, Option, [], if◌then◌else◌, is_empty, is_some, none, some, ℕ, ◌&&◌, ◌*◌, ◌++◌, ◌^◌,
  ◌||◌, ◌∷◌,
}
use notai_api.Base.Int.{ℤ}
use notai_api.Base.Text.{Text, codes, text_eq, trim_space}
use notai_api.Base.Values.{Time, Uuid}
use notai_api.Errors.{
  Result, invalid_filename, ok, refuse_if, unsupported_content_type, ◌>>=◌, ◌>>◌,
}
use notai_api.Media.Files.{
  base, detect_media_type, new_object_key, new_thumbnail_key, validate_filename,
}
use notai_api.Media.Types.{
  MediaDeleted, MediaDeletedContentKey, MediaEvent, MediaType, MediaUploadRequested, Status,
  Verdict, image, is_image, media_deleted, media_upload_requested, other_type, pending_upload,
  video,
}

pub record Media : Type 0 where
  pub id : Uuid
  pub campaign_id : Uuid
  pub client_id : Uuid
  pub filename : Text
  pub content_type : Text
  pub media_type : MediaType
  pub object_key : Text
  pub size_bytes : Option ℤ
  pub status : Status
  pub verdict : Option Verdict
  pub failure_reason : Text
  pub analyzed_at : Option Time
  pub created_at : Time
  pub updated_at : Time
  pub deleted_at : Option Time
  pub events : List MediaEvent

abbrev pub max_presign_batch : ℕ
max_presign_batch = 20

abbrev pub max_media_bytes : ℕ
max_media_bytes = 200 * 2 ^ 20

abbrev pub max_image_bytes : ℕ
max_image_bytes = 20 * 2 ^ 20

unfoldable pub max_bytes_for : MediaType → ℕ
max_bytes_for video = max_media_bytes
max_bytes_for image = max_image_bytes
max_bytes_for (other_type t) = max_image_bytes

unfoldable pub record_event : MediaEvent → Media → Media
record_event e m = record m { events = m.events ++ (e ∷ []) }

unfoldable pub pull_events : Media → Media × List MediaEvent
pull_events m = (record m { events = [] }, m.events)

abbrev pub unusable : Text → Bool
unusable f = is_empty f || text_eq f (codes ".") || text_eq f (codes "..")

abbrev upload_requested : Media → Uuid → Time → MediaUploadRequested
upload_requested m eid now = record {
  event_id = eid;
  media_id = m.id;
  campaign_id = m.campaign_id;
  client_id = m.client_id;
  filename = m.filename;
  content_type = m.content_type;
  media_type = m.media_type;
  object_key = m.object_key;
  status = m.status;
  timestamp = now;
}

unfoldable pub new_pending_upload :
    (Uuid → Text) → Uuid → Uuid → Text → Text → Time → Uuid → Uuid → Result Media
unfolding record_event
new_pending_upload str campaign client filename content_type now id eid = do
  let f = base (trim_space filename)
  refuse_if (unusable f) invalid_filename
  refuse_if (is_some (validate_filename f)) unsupported_content_type
  t ← detect_media_type f content_type
  let m : Media = record {
    id = id;
    campaign_id = campaign;
    client_id = client;
    filename = f;
    content_type = trim_space content_type;
    media_type = t;
    object_key = new_object_key str client campaign id f;
    size_bytes = none;
    status = pending_upload;
    verdict = none;
    failure_reason = [];
    analyzed_at = none;
    created_at = now;
    updated_at = now;
    deleted_at = none;
    events = [];
  }
  ok (record_event (media_upload_requested (upload_requested m eid now)) m)

unfoldable pub is_deleted : Media → Bool
is_deleted m = is_some m.deleted_at

pub record SoftDeleteObjectRef : Type 0 where
  pub object_key : Text
  pub thumbnail_key : Text

-- The loop over contentRefs: pairs that are blank on both sides are left out.
unfoldable pub deleted_keys : List SoftDeleteObjectRef → List MediaDeletedContentKey
deleted_keys [] = []
deleted_keys (r ∷ rs) =
    let o = trim_space r.object_key in
    let t = trim_space r.thumbnail_key in
    let rest = deleted_keys rs in
    let k : MediaDeletedContentKey = record { object_key = o; thumbnail_key = t } in
    if is_empty o && is_empty t then rest else k ∷ rest

unfoldable pub soft_delete :
    (Uuid → Text) → List SoftDeleteObjectRef → Bool → Time → Uuid → Media → Media
unfolding is_deleted record_event
soft_delete str refs cascade now eid m =
    let m' = record m { deleted_at = some now; updated_at = now } in
    let e : MediaDeleted = record {
      event_id = eid;
      media_id = m.id;
      campaign_id = m.campaign_id;
      client_id = m.client_id;
      object_key = m.object_key;
      thumbnail_key =
          if is_image m.media_type
          then new_thumbnail_key str m.client_id m.campaign_id m.id
          else [];
      contents = deleted_keys refs;
      cascade = cascade;
      timestamp = now;
    } in
    if is_deleted m then m else record_event (media_deleted e) m'
