-- ===== src/Campaign/Entity.antt =====
-- internal/domain/campaign/entity.go: the campaign and its methods.
use notai_api.Base.{
  Bool, List, Option, [], false, if◌then◌else◌, is_empty, is_some, ltb, none, some, true, ◌++◌, ◌∷◌,
}
use notai_api.Base.Text.{Text, codes}
use notai_api.Base.Values.{Time, Uuid}
use notai_api.Campaign.Types.{
  Campaign, CampaignEvent, background_failed, background_none, background_pending, background_ready,
  campaign_background_updated, campaign_created, campaign_deleted, campaign_updated,
}
use notai_api.Errors.{
  Err, Result, campaign_not_found, default_campaign_protected, err, invalid_schedule,
  missing_schedule, ok,
}

abbrev pub default_campaign_name : Text
default_campaign_name = codes "Default"

unfoldable pub validate_schedule : Option Time → Option Time → Option Err
validate_schedule (some start) (some end) = if ltb end start then some invalid_schedule else none
validate_schedule (some start) none = some missing_schedule
validate_schedule none end = some missing_schedule

unfoldable pub record_event : CampaignEvent → Campaign → Campaign
record_event e c = record c { events = c.events ++ e ∷ [] }

-- Both constructors, with the event of the creation.
abbrev new_of : Text → Uuid → Bool → Option Time → Option Time → Time → Uuid → Uuid → Campaign
new_of name client is_default start end now id eid = record {
  id = id;
  client_id = client;
  name = name;
  is_default = is_default;
  created_at = now;
  updated_at = now;
  deleted_at = none;
  start_at = start;
  end_at = end;
  background_status = background_none;
  background_pending_key = [];
  background_thumbnail_key = [];
  background_filename = [];
  background_content_type = [];
  events =
      campaign_created (record {
        event_id = eid;
        campaign_id = id;
        client_id = client;
        name = name;
        is_default = is_default;
        start_at = start;
        end_at = end;
        timestamp = now;
      })
      ∷ [];
}

unfoldable pub new_campaign :
    Text → Uuid → Option Time → Option Time → Time → Uuid → Uuid → Result Campaign
unfolding validate_schedule
new_campaign name client start end now id eid = elim (validate_schedule start end) [
  | some e ↦ err e
  | none ↦ ok (new_of name client false start end now id eid)
]

unfoldable pub new_default_campaign : Uuid → Time → Uuid → Uuid → Campaign
new_default_campaign client now id eid =
    new_of default_campaign_name client true none none now id eid

unfoldable pub pull_events : Campaign → Campaign × List CampaignEvent
pull_events c = (record c { events = [] }, c.events)

unfoldable pub is_deleted : Campaign → Bool
is_deleted c = is_some c.deleted_at

unfoldable pub apply_update :
    Text → Option Time → Option Time → Time → Uuid → Campaign → Campaign × Option Err
unfolding is_deleted validate_schedule record_event
apply_update name start end now eid c =
    if c.is_default
    then (c, some default_campaign_protected)
    else if is_deleted c
    then (c, some campaign_not_found)
    else elim (validate_schedule start end) [
      | some e ↦ (c, some e)
      | none ↦ (
        record_event
            (campaign_updated (record {
              event_id = eid;
              campaign_id = c.id;
              client_id = c.client_id;
              name = name;
              start_at = start;
              end_at = end;
              timestamp = now;
            }))
            (record c { name = name; start_at = start; end_at = end; updated_at = now }),
        none,
      )
    ]

unfoldable pub soft_delete : Time → Uuid → Campaign → Campaign × Option Err
unfolding is_deleted record_event
soft_delete now eid c =
    if c.is_default
    then (c, some default_campaign_protected)
    else if is_deleted c
    then (c, none)
    else (
      record_event
          (campaign_deleted (record {
            event_id = eid;
            campaign_id = c.id;
            client_id = c.client_id;
            background_pending_key = c.background_pending_key;
            background_thumbnail_key = c.background_thumbnail_key;
            timestamp = now;
          }))
          (record c { deleted_at = some now; updated_at = now }),
      none,
    )

unfoldable pub record_background_updated : Uuid → Campaign → Campaign
unfolding record_event
record_background_updated eid c =
    record_event
      (campaign_background_updated (record {
        event_id = eid;
        campaign_id = c.id;
        client_id = c.client_id;
        background_status = c.background_status;
        background_thumbnail_key = c.background_thumbnail_key;
        timestamp = c.updated_at;
      }))
      c

unfoldable pub start_background_upload : Text → Text → Text → Time → Uuid → Campaign → Campaign
unfolding record_background_updated
start_background_upload pending_key filename content_type now eid c =
    record_background_updated eid (record c {
      background_status = background_pending;
      background_pending_key = pending_key;
      background_filename = filename;
      background_content_type = content_type;
      updated_at = now;
    })

unfoldable pub apply_background_ready : Text → Text → Time → Uuid → Campaign → Campaign
unfolding record_background_updated
apply_background_ready thumbnail_key content_type now eid c =
    record_background_updated eid (record c {
      background_status = background_ready;
      background_pending_key = [];
      background_thumbnail_key = thumbnail_key;
      background_content_type =
          if is_empty content_type then c.background_content_type else content_type;
      updated_at = now;
    })

unfoldable pub mark_background_failed : Time → Uuid → Campaign → Campaign
unfolding record_background_updated
mark_background_failed now eid c = record_background_updated eid (record c {
  background_status = background_failed;
  background_pending_key = [];
  updated_at = now;
})

unfoldable pub clear_background : Time → Uuid → Campaign → Campaign
unfolding record_background_updated
clear_background now eid c = record_background_updated eid (record c {
  background_status = background_none;
  background_pending_key = [];
  background_thumbnail_key = [];
  background_filename = [];
  background_content_type = [];
  updated_at = now;
})
