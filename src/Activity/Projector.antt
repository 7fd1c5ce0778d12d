-- ===== src/Activity/Projector.antt =====
-- internal/application/event/activity/project.go: the projector, over the table of activities
-- (internal/infrastructure/persistence/write/activity_event_repository.go), whose Insert does nothing
-- for an id that is there. The payload of a handler is what json.Unmarshal makes of it, none where it
-- fails. The ids in an event stand for their texts.
use notai_api.Activity.Types.{ActivityType, Event, Value, actor_system}
use notai_api.Base.{
  Bool, List, Option, any_of, false, if◌then◌else◌, is_empty, none, not, some, true, ◌++◌, ◌==◌,
  ◌∷◌,
}
use notai_api.Base.Text.{Text, codes, trim_space}
use notai_api.Base.Values.{Time, Uuid}
use notai_api.Content.Types.{ContentStatusChanged, ContentVerdictRendered}
use notai_api.Errors.{Result, err, ok}
use notai_api.Messaging.Dedup.{later_faults, next_fault, outside_error}
use notai_api.Messaging.Failure.{Answer, retryable}
use notai_api.Messaging.Realtime.{Transport, action_created, entity_activity, to_members}

-- What the projector reads of a client and of a user.
pub record ClientView : Type 0 where
  pub name : Text
  pub member_ids : List Uuid

pub record UserView : Type 0 where
  pub first_name : Text
  pub last_name : Text
  pub email : Text

-- What the projector is made of but for the table: uuid.Parse of the text of an id, that text, and the
-- read repositories; of a media only its filename is read.
pub record Readers : Type 0 where
  pub parse : Uuid → Option Uuid
  pub text_of_uuid : Uuid → Text
  pub media_by_id : Uuid → Result (Option Text)
  pub user_by_id : Uuid → Result (Option UserView)
  pub client_by_id : Uuid → Result (Option ClientView)

-- The table, the last row first, with the results that the database has in store for Insert, and the
-- transport of the realtime publisher, whose payload is made of the row alone.
pub record Feed : Type 0 where
  pub rows : List Event
  pub faults : List Bool
  pub transport : Transport Event

-- Insert: whether a row was inserted, or a database error.
unfoldable pub insert_row : Event → Feed → Feed × Result Bool
insert_row e f =
    let f' = record f { faults = later_faults f.faults } in
    if next_fault f.faults
    then (f', err outside_error)
    else if any_of (λ (r : Event). r.id == e.id) f.rows
    then (f', ok false)
    else (record f' { rows = e ∷ f.rows }, ok true)

unfoldable pub display_name : Text → Text → Text → Text
unfolding trim_space
display_name first last email =
    let name = trim_space (trim_space first ++ (codes " " ++ trim_space last)) in
    let address = trim_space email in
    if not (is_empty name)
    then name
    else if not (is_empty address)
    then address
    else codes "A member"

-- “name”
abbrev pub quoted : Text → Text
quoted t = codes "“" ++ (t ++ codes "”")

module _ (r : Readers) where
  unfoldable pub publish_created : Event → Feed → Feed × Answer
  publish_created e f = elim (r.client_by_id e.client_id) [
    | err x ↦ (f, some (retryable x))
    | ok none ↦ (f, none)
    | ok (some v) ↦
        let (t, a) = to_members entity_activity action_created v.member_ids e f.transport in
        (record f { transport = t }, a)
  ]

  -- insert, where the zero time stands for the present.
  unfoldable pub insert : Time → Event → Feed → Feed × Answer
  insert now e f =
      let e' = record e { occurred_at = if e.occurred_at == 0 then now else e.occurred_at } in
      let (f', b) = insert_row e' f in
      elim b [
        | err x ↦ (f', some (retryable x))
        | ok false ↦ (f', none)
        | ok true ↦ publish_created e' f'
      ]

  -- The handlers of the events that are not projected.
  unfoldable pub on_content_verdict_rendered : Option ContentVerdictRendered → Feed → Feed × Answer
  on_content_verdict_rendered p f = (f, none)

  unfoldable pub on_content_status_changed : Option ContentStatusChanged → Feed → Feed × Answer
  on_content_status_changed p f = (f, none)

  -- The name of a file, or the id of its media.
  unfoldable pub filename_of : Uuid → Uuid → Result Text
  filename_of raw id = elim (r.media_by_id id) [
    | err x ↦ err x
    | ok none ↦ ok (r.text_of_uuid raw)
    | ok (some n) ↦ ok (if is_empty n then r.text_of_uuid raw else n)
  ]

  abbrev pub system_event : Uuid → Uuid → ActivityType → Text → List (Text × Value) → Time → Event
  system_event id client type message payload at = record {
    id = id;
    client_id = client;
    type = type;
    actor_type = actor_system;
    actor_user_id = none;
    actor_name = codes "System";
    message = message;
    payload = payload;
    occurred_at = at;
  }
