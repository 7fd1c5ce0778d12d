-- ===== src/Content/Types.antt =====
-- internal/domain/content/entity.go (Status, Label), signal.go and events.go.
use notai_api.Base.{Option, List}
use notai_api.Base.Int.{ℤ}
use notai_api.Base.Text.{Text}
use notai_api.Base.Float.{Float64}
use notai_api.Base.Values.{Uuid, Time}

pub data Status : Type 0 where
  pending_upload uploaded analyzing analyzed failed : Status

-- Any string is a Label; the first three are the named ones.
pub data Label : Type 0 where
  human ai_generated uncertain : Label
  other_label : Text → Label

pub record Signal : Type 0 where
  pub type : Text
  pub code : Text
  pub description : Text
  pub weight : Float64

pub record Verdict : Type 0 where
  pub label : Label
  pub confidence : Float64
  pub signals : List Signal

pub record ContentCreated : Type 0 where
  pub event_id : Uuid
  pub content_id : Uuid
  pub media_id : Uuid
  pub campaign_id : Uuid
  pub client_id : Uuid
  pub object_key : Text
  pub status : Status
  pub timestamp : Time

pub record ContentUploaded : Type 0 where
  pub event_id : Uuid
  pub content_id : Uuid
  pub media_id : Uuid
  pub campaign_id : Uuid
  pub client_id : Uuid
  pub object_key : Text
  pub thumbnail_key : Text
  pub size_bytes : ℤ
  pub timestamp : Time

-- `label` is none where the source leaves the string empty.
pub record ContentStatusChanged : Type 0 where
  pub event_id : Uuid
  pub content_id : Uuid
  pub media_id : Uuid
  pub campaign_id : Uuid
  pub client_id : Uuid
  pub status : Status
  pub label : Option Label
  pub timestamp : Time

pub record ContentVerdictRendered : Type 0 where
  pub event_id : Uuid
  pub content_id : Uuid
  pub media_id : Uuid
  pub campaign_id : Uuid
  pub client_id : Uuid
  pub label : Label
  pub confidence : Float64
  pub signals : List Signal
  pub timestamp : Time

pub data ContentEvent : Type 0 where
  content_created : ContentCreated → ContentEvent
  content_uploaded : ContentUploaded → ContentEvent
  content_status_changed : ContentStatusChanged → ContentEvent
  content_verdict_rendered : ContentVerdictRendered → ContentEvent
