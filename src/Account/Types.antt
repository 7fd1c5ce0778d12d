-- ===== src/Account/Types.antt =====
-- internal/domain/client and internal/domain/user: the state and the events of clients and users.
use notai_api.Base.{Bool, List, Option}
use notai_api.Base.Text.{Text}
use notai_api.Base.Values.{Time, Uuid}

pub record ClientCreated : Type 0 where
  pub event_id : Uuid
  pub client_id : Uuid
  pub name : Text
  pub created_by_user_id : Uuid
  pub timestamp : Time

pub record ClientUpdated : Type 0 where
  pub event_id : Uuid
  pub client_id : Uuid
  pub name : Text
  pub member_ids : List Uuid
  pub timestamp : Time

pub record ClientDeleted : Type 0 where
  pub event_id : Uuid
  pub client_id : Uuid
  pub member_ids : List Uuid
  pub timestamp : Time

pub record ClientMemberAdded : Type 0 where
  pub event_id : Uuid
  pub client_id : Uuid
  pub user_id : Uuid
  pub timestamp : Time

pub record ClientMemberRemoved : Type 0 where
  pub event_id : Uuid
  pub client_id : Uuid
  pub user_id : Uuid
  pub timestamp : Time

pub data ClientEvent : Type 0 where
  client_created : ClientCreated → ClientEvent
  client_updated : ClientUpdated → ClientEvent
  client_deleted : ClientDeleted → ClientEvent
  client_member_added : ClientMemberAdded → ClientEvent
  client_member_removed : ClientMemberRemoved → ClientEvent

pub record Client : Type 0 where
  pub id : Uuid
  pub name : Text
  pub workspace_id : Uuid
  pub created_at : Time
  pub updated_at : Time
  pub member_ids : List Uuid
  pub events : List ClientEvent

pub record UserCreated : Type 0 where
  pub event_id : Uuid
  pub user_id : Uuid
  pub clerk_id : Text
  pub first_name : Text
  pub last_name : Text
  pub email : Text
  pub banned : Bool
  pub timestamp : Time

pub record UserUpdated : Type 0 where
  pub event_id : Uuid
  pub user_id : Uuid
  pub clerk_id : Text
  pub first_name : Text
  pub last_name : Text
  pub email : Text
  pub banned : Bool
  pub timestamp : Time

pub record UserDeleted : Type 0 where
  pub event_id : Uuid
  pub user_id : Uuid
  pub clerk_id : Text
  pub timestamp : Time

-- The client is none where the source has the empty string: the user has no current client.
pub record UserCurrentClientChanged : Type 0 where
  pub event_id : Uuid
  pub user_id : Uuid
  pub client_id : Option Uuid
  pub timestamp : Time

pub data UserEvent : Type 0 where
  user_created : UserCreated → UserEvent
  user_updated : UserUpdated → UserEvent
  user_deleted : UserDeleted → UserEvent
  user_current_client_changed : UserCurrentClientChanged → UserEvent

pub record User : Type 0 where
  pub id : Uuid
  pub clerk_id : Text
  pub first_name : Text
  pub last_name : Text
  pub banned : Bool
  pub email : Text
  pub current_client_id : Option Uuid
  pub created_at : Time
  pub updated_at : Time
  pub events : List UserEvent
