-- ===== src/Billing/Workspace.antt =====
-- internal/domain/workspace: entity.go and events.go.
use notai_api.Base.{List, Option, [], none, some, ◌++◌, ◌∷◌}
use notai_api.Base.Values.{Time, Uuid}

pub record WorkspaceCreated : Type 0 where
  pub id : Uuid
  pub workspace_id : Uuid
  pub owner_user_id : Uuid
  pub timestamp : Time

pub record WorkspaceSubscriptionAssigned : Type 0 where
  pub id : Uuid
  pub workspace_id : Uuid
  pub subscription_id : Uuid
  pub timestamp : Time

pub data WorkspaceEvent : Type 0 where
  workspace_created : WorkspaceCreated → WorkspaceEvent
  workspace_subscription_assigned : WorkspaceSubscriptionAssigned → WorkspaceEvent

pub record Workspace : Type 0 where
  pub id : Uuid
  pub owner_user_id : Uuid
  pub subscription_id : Option Uuid
  pub created_at : Time
  pub updated_at : Time
  pub events : List WorkspaceEvent

unfoldable pub record_event : WorkspaceEvent → Workspace → Workspace
record_event e w = record w { events = w.events ++ (e ∷ []) }

unfoldable pub pull_events : Workspace → Workspace × List WorkspaceEvent
pull_events w = (record w { events = [] }, w.events)

unfoldable pub new_workspace : Uuid → Time → Uuid → Uuid → Workspace
unfolding record_event
new_workspace owner now id eid =
    let w : Workspace = record {
      id = id;
      owner_user_id = owner;
      subscription_id = none;
      created_at = now;
      updated_at = now;
      events = [];
    } in
    let e : WorkspaceCreated = record {
      id = eid;
      workspace_id = id;
      owner_user_id = owner;
      timestamp = now;
    } in
    record_event (workspace_created e) w

unfoldable pub assign_subscription : Uuid → Time → Uuid → Workspace → Workspace
unfolding record_event
assign_subscription subscription_id now eid w =
    let e : WorkspaceSubscriptionAssigned = record {
      id = eid;
      workspace_id = w.id;
      subscription_id = subscription_id;
      timestamp = now;
    } in
    record_event (workspace_subscription_assigned e)
      (record w { subscription_id = some subscription_id; updated_at = now })
