-- ===== src/Campaign/Types.antt =====
-- internal/domain/campaign: the state and the events of a campaign. A key, a filename and a type are
-- texts, empty where there is none.
use notai_api.Base.{Bool, List, Option}
use notai_api.Base.Text.{Text}
use notai_api.Base.Values.{Time, Uuid}

-- The four values that the methods of a campaign write.
pub data BackgroundStatus : Type 0 where
  background_none background_pending background_ready background_failed : BackgroundStatus

pub record CampaignCreated : Type 0 where
  pub event_id : Uuid
  pub campaign_id : Uuid
  pub client_id : Uuid
  pub name : Text
  pub is_default : Bool
  pub start_at : Option Time
  pub end_at : Option Time
  pub timestamp : Time

pub record CampaignUpdated : Type 0 where
  pub event_id : Uuid
  pub campaign_id : Uuid
  pub client_id : Uuid
  pub name : Text
  pub start_at : Option Time
  pub end_at : Option Time
  pub timestamp : Time

pub record CampaignDeleted : Type 0 where
  pub event_id : Uuid
  pub campaign_id : Uuid
  pub client_id : Uuid
  pub background_pending_key : Text
  pub background_thumbnail_key : Text
  pub timestamp : Time

pub record CampaignBackgroundUpdated : Type 0 where
  pub event_id : Uuid
  pub campaign_id : Uuid
  pub client_id : Uuid
  pub background_status : BackgroundStatus
  pub background_thumbnail_key : Text
  pub timestamp : Time

pub data CampaignEvent : Type 0 where
  campaign_created : CampaignCreated → CampaignEvent
  campaign_updated : CampaignUpdated → CampaignEvent
  campaign_deleted : CampaignDeleted → CampaignEvent
  campaign_background_updated : CampaignBackgroundUpdated → CampaignEvent

pub record Campaign : Type 0 where
  pub id : Uuid
  pub client_id : Uuid
  pub name : Text
  pub is_default : Bool
  pub created_at : Time
  pub updated_at : Time
  pub deleted_at : Option Time
  pub start_at : Option Time
  pub end_at : Option Time
  pub background_status : BackgroundStatus
  pub background_pending_key : Text
  pub background_thumbnail_key : Text
  pub background_filename : Text
  pub background_content_type : Text
  pub events : List CampaignEvent
