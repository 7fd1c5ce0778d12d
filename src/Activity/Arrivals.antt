-- ===== src/Activity/Arrivals.antt =====
-- internal/application/event/activity/project.go: new campaigns and new members.
use notai_api.Account.Types.{ClientMemberAdded}
use notai_api.Activity.Projector.{Feed, Readers, display_name, insert, quoted, system_event}
use notai_api.Activity.Types.{
  Event, campaign_created_activity, client_member_added_activity, id_value, text_value,
}
use notai_api.Base.{Option, [], if◌then◌else◌, is_empty, none, some, ◌++◌, ◌∷◌}
use notai_api.Base.Text.{Text, codes}
use notai_api.Base.Values.{Time, Uuid}
use notai_api.Campaign.Types.{CampaignCreated}
use notai_api.Errors.{Result, err, ok}
use notai_api.Messaging.Dedup.{outside_error}
use notai_api.Messaging.Failure.{Answer, non_retryable, retryable}

module _ (r : Readers) where
  -- The name of a client, for a message.
  unfoldable pub client_name_of : Uuid → Result Text
  client_name_of id = elim (r.client_by_id id) [
    | err x ↦ err x
    | ok none ↦ ok (codes "the client")
    | ok (some v) ↦ ok (if is_empty v.name then codes "the client" else v.name)
  ]

  unfoldable pub campaign_event : Uuid → Uuid → Text → CampaignCreated → Event
  campaign_event id client client_name e =
      system_event r id client campaign_created_activity
        (codes "New campaign " ++ (quoted e.name ++ (codes " created for " ++ client_name)))
        ((codes "campaignId", id_value e.campaign_id)
          ∷ (codes "name", text_value e.name)
          ∷ (codes "clientName", text_value client_name)
          ∷ [])
        e.timestamp

  unfoldable pub on_campaign_created : Time → Option CampaignCreated → Feed → Feed × Answer
  on_campaign_created now none f = (f, some (non_retryable outside_error))
  on_campaign_created now (some e) f =
      if e.is_default then (f, none) else elim (r.parse e.client_id) [
        | none ↦ (f, some (non_retryable outside_error))
        | some c ↦ elim (r.parse e.event_id) [
          | none ↦ (f, some (non_retryable outside_error))
          | some i ↦ elim (client_name_of c) [
            | err x ↦ (f, some (retryable x))
            | ok n ↦ insert r now (campaign_event i c n e) f
          ]
        ]
      ]

  -- The name of a member, for a message.
  unfoldable pub member_name_of : Uuid → Result Text
  member_name_of id = elim (r.user_by_id id) [
    | err x ↦ err x
    | ok none ↦ ok (codes "A member")
    | ok (some v) ↦ ok (display_name v.first_name v.last_name v.email)
  ]

  unfoldable pub member_event : Uuid → Uuid → Text → ClientMemberAdded → Event
  member_event id client member_name e =
      system_event r id client client_member_added_activity
        (member_name ++ codes " joined the team")
        ((codes "userId", id_value e.user_id) ∷ (codes "memberName", text_value member_name) ∷ [])
        e.timestamp

  unfoldable pub on_client_member_added : Time → Option ClientMemberAdded → Feed → Feed × Answer
  on_client_member_added now none f = (f, some (non_retryable outside_error))
  on_client_member_added now (some e) f = elim (r.parse e.client_id) [
    | none ↦ (f, some (non_retryable outside_error))
    | some c ↦ elim (r.parse e.event_id) [
      | none ↦ (f, some (non_retryable outside_error))
      | some i ↦ elim (r.parse e.user_id) [
        | none ↦ (f, some (non_retryable outside_error))
        | some u ↦ elim (member_name_of u) [
          | err x ↦ (f, some (retryable x))
          | ok n ↦ insert r now (member_event i c n e) f
        ]
      ]
    ]
  ]
