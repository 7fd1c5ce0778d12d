-- ===== src/Media/Types.antt =====
-- internal/domain/media/entity.go (types) and events.go.
use notai_api.Base.{Bool, List, Option, false, true, ℕ}
use notai_api.Base.Int.{ℤ}
use notai_api.Base.Text.{Text}
use notai_api.Base.Values.{Time, Uuid}
use notai_api.Content.Types.{Label}

-- Any string is a MediaType; the first two are the named ones.
pub data MediaType : Type 0 where
  image video : MediaType
  other_type : Text → MediaType

pub data Status : Type 0 where
  pending_upload uploaded processing analyzed failed : Status

-- The outcome over the contents of a media. The counts are of the elements of a list in memory.
pub record Verdict : Type 0 where
  pub label : Label
  pub flagged_count : ℕ
  pub total_count : ℕ
  pub failed_count : ℕ

pub record MediaUploadRequested : Type 0 where
  pub event_id : Uuid
  pub media_id : Uuid
  pub campaign_id : Uuid
  pub client_id : Uuid
  pub filename : Text
  pub content_type : Text
  pub media_type : MediaType
  pub object_key : Text
  pub status : Status
  pub timestamp : Time

pub record MediaUploaded : Type 0 where
  pub event_id : Uuid
  pub media_id : Uuid
  pub campaign_id : Uuid
  pub client_id : Uuid
  pub media_type : MediaType
  pub object_key : Text
  pub size_bytes : ℤ
  pub status : Status
  pub timestamp : Time

pub record MediaProcessingStarted : Type 0 where
  pub event_id : Uuid
  pub media_id : Uuid
  pub campaign_id : Uuid
  pub client_id : Uuid
  pub timestamp : Time

-- `label` is none where the source leaves the string empty, here and below.
pub record MediaStatusChanged : Type 0 where
  pub event_id : Uuid
  pub media_id : Uuid
  pub campaign_id : Uuid
  pub client_id : Uuid
  pub status : Status
  pub label : Option Label
  pub timestamp : Time

pub record MediaVerdictRendered : Type 0 where
  pub event_id : Uuid
  pub media_id : Uuid
  pub campaign_id : Uuid
  pub client_id : Uuid
  pub label : Option Label
  pub flagged_count : ℕ
  pub total_count : ℕ
  pub failed_count : ℕ
  pub status : Status
  pub reason : Text
  pub timestamp : Time

pub record MediaDeletedContentKey : Type 0 where
  pub object_key : Text
  pub thumbnail_key : Text

pub record MediaDeleted : Type 0 where
  pub event_id : Uuid
  pub media_id : Uuid
  pub campaign_id : Uuid
  pub client_id : Uuid
  pub object_key : Text
  pub thumbnail_key : Text
  pub contents : List MediaDeletedContentKey
  pub cascade : Bool
  pub timestamp : Time

pub data MediaEvent : Type 0 where
  media_upload_requested : MediaUploadRequested → MediaEvent
  media_uploaded : MediaUploaded → MediaEvent
  media_processing_started : MediaProcessingStarted → MediaEvent
  media_status_changed : MediaStatusChanged → MediaEvent
  media_verdict_rendered : MediaVerdictRendered → MediaEvent
  media_deleted : MediaDeleted → MediaEvent

abbrev pub is_image : MediaType → Bool
is_image image = true
is_image _ = false

abbrev pub is_video : MediaType → Bool
is_video video = true
is_video _ = false

abbrev pub is_pending : Status → Bool
is_pending pending_upload = true
is_pending _ = false

abbrev pub is_uploaded : Status → Bool
is_uploaded uploaded = true
is_uploaded _ = false

abbrev pub is_processing : Status → Bool
is_processing processing = true
is_processing _ = false

abbrev pub is_analyzed : Status → Bool
is_analyzed analyzed = true
is_analyzed _ = false

abbrev pub is_failed : Status → Bool
is_failed failed = true
is_failed _ = false
