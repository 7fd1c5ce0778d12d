-- ===== src/Activity/Types.antt =====
-- internal/domain/activity: the rows of the feed.
use notai_api.Base.{List, Option, ℕ}
use notai_api.Base.Text.{Text}
use notai_api.Base.Values.{Time, Uuid}
use notai_api.Content.Types.{Label}
use notai_api.Media.Types.{Status}

pub data ActivityType : Type 0 where
  content_ai_flagged content_manual_review content_human_verified content_failed : ActivityType
  media_ai_flagged media_manual_review media_human_verified media_failed : ActivityType
  campaign_created_activity client_member_added_activity : ActivityType

pub data ActorType : Type 0 where
  actor_system actor_user : ActorType

-- A value of the JSON payload of a row. An id stands for its text.
pub data Value : Type 0 where
  id_value : Uuid → Value
  text_value : Text → Value
  status_value : Status → Value
  label_value : Option Label → Value
  count_value : ℕ → Value

pub record Event : Type 0 where
  pub id : Uuid
  pub client_id : Uuid
  pub type : ActivityType
  pub actor_type : ActorType
  pub actor_user_id : Option Uuid
  pub actor_name : Text
  pub message : Text
  pub payload : List (Text × Value)
  pub occurred_at : Time
