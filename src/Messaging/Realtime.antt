-- ===== src/Messaging/Realtime.antt =====
-- internal/application/realtime: the delivery of events to the channels of users.
use notai_api.Base.{Bool, List, Option, [], if◌then◌else◌, none, some, ◌++◌, ◌∷◌}
use notai_api.Base.Text.{Text, codes}
use notai_api.Base.Values.{Uuid}
use notai_api.Messaging.Dedup.{later_faults, next_fault, outside_error}
use notai_api.Messaging.Failure.{Answer, non_retryable, retryable}

pub data Entity : Type 0 where
  entity_user entity_client entity_campaign entity_content entity_media entity_activity : Entity

pub data Action : Type 0 where
  action_created action_updated action_deleted action_current_client_changed : Action
  action_member_added action_member_removed action_background_updated : Action
  action_status_changed action_verdict_rendered : Action

unfoldable pub entity_text : Entity → Text
entity_text entity_user = codes "user"
entity_text entity_client = codes "client"
entity_text entity_campaign = codes "campaign"
entity_text entity_content = codes "content"
entity_text entity_media = codes "media"
entity_text entity_activity = codes "activity"

unfoldable pub action_text : Action → Text
action_text action_created = codes "created"
action_text action_updated = codes "updated"
action_text action_deleted = codes "deleted"
action_text action_current_client_changed = codes "current_client_changed"
action_text action_member_added = codes "member_added"
action_text action_member_removed = codes "member_removed"
action_text action_background_updated = codes "background_updated"
action_text action_status_changed = codes "status_changed"
action_text action_verdict_rendered = codes "verdict_rendered"

unfoldable pub event_type : Entity → Action → Text
event_type entity action = entity_text entity ++ (codes "." ++ action_text action)

unfoldable pub interest_for_entity : Entity → Text
interest_for_entity entity_media = codes "media"
interest_for_entity entity_content = codes "content"
interest_for_entity entity_activity = codes "activity"
interest_for_entity _ = codes "account"

pub record Delivery (P : Type 0) : Type 0 where
  pub user : Uuid
  pub interest : Text
  pub type : Text
  pub payload : P

-- The transport: what it has delivered, the last first, and the results that it still has in store
-- for its calls (true is a failure, and so on for ever with success).
pub record Transport (P : Type 0) : Type 0 where
  pub delivered : List (Delivery P)
  pub faults : List Bool

module _ {P : Type 0} where
  unfoldable pub publish_to_user_interest : Delivery P → Transport P → Transport P × Answer
  publish_to_user_interest d t =
      let t' = record t { faults = later_faults t.faults } in
      if next_fault t.faults
      then (t', some (retryable outside_error))
      else (record t' { delivered = d ∷ t.delivered }, none)

  unfoldable pub to_members : Entity → Action → List Uuid → P → Transport P → Transport P × Answer
  to_members entity action [] payload t = (t, none)
  to_members entity action (i ∷ is) payload t =
      let d : Delivery P = record {
        user = i;
        interest = interest_for_entity entity;
        type = event_type entity action;
        payload = payload;
      } in
      let (t', a) = publish_to_user_interest d t in
      elim a [ some f ↦ (t', some f) | none ↦ to_members entity action is payload t' ]

  -- `parse` is uuid.Parse of the text of an id.
  unfoldable pub to_user :
      (Uuid → Option Uuid) → Entity → Action → Uuid → P → Transport P → Transport P × Answer
  to_user parse entity action raw payload t = elim (parse raw) [
    | none ↦ (t, some (non_retryable outside_error))
    | some i ↦
        publish_to_user_interest
          (record {
            user = i;
            interest = interest_for_entity entity;
            type = event_type entity action;
            payload = payload;
          })
          t
  ]

  unfoldable pub to_users :
      (Uuid → Option Uuid) → Entity → Action → List Uuid → P → Transport P → Transport P × Answer
  to_users parse entity action [] payload t = (t, none)
  to_users parse entity action (raw ∷ raws) payload t =
      let (t', a) = to_user parse entity action raw payload t in
      elim a [ some f ↦ (t', some f) | none ↦ to_users parse entity action raws payload t' ]
