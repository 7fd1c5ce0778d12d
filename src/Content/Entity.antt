-- ===== src/Content/Entity.antt =====
-- internal/domain/content/entity.go. `time.Now().UTC()` and `uuid.New()` are the arguments `now` and
-- `eid` (`id` for an entity's own). A method returns its receiver as it leaves it.
use notai_api.Base.{
  Bool, true, false, ◌&&◌, ◌||◌, not, Option, none, some, List, [], ◌∷◌, ◌++◌, ◌==◌, if◌then◌else◌,
  is_empty, value_or,
}
use notai_api.Base.Int.{ℤ, pos, ltb_ℤ}
use notai_api.Base.Text.{Text, trim_space}
use notai_api.Base.Float.{Float64, f_zero}
use notai_api.Base.Values.{Uuid, uuid_nil, Time}
use notai_api.Errors.{
  Err, content_invalid_transition, invalid_label, media_id_required, object_key_required, Result,
  ok, err,
}
use notai_api.Content.Types.{
  Status, pending_upload, uploaded, analyzing, analyzed, failed, Label, human, ai_generated,
  uncertain, other_label, Verdict, ContentCreated, ContentUploaded, ContentStatusChanged,
  ContentVerdictRendered, ContentEvent, content_created, content_uploaded, content_status_changed,
  content_verdict_rendered,
}

pub record Content : Type 0 where
  pub id : Uuid
  pub media_id : Uuid
  pub frame_index : Option ℤ
  pub timestamp_ms : Option ℤ
  pub object_key : Text
  pub thumbnail_key : Option Text
  pub size_bytes : Option ℤ
  pub label : Option Label
  pub confidence : Option Float64
  pub status : Status
  pub created_at : Time
  pub updated_at : Time
  pub campaign_id : Uuid
  pub client_id : Uuid
  pub events : List ContentEvent

abbrev pub is_uploaded : Status → Bool
is_uploaded uploaded = true
is_uploaded _ = false

abbrev pub is_analyzing : Status → Bool
is_analyzing analyzing = true
is_analyzing _ = false

abbrev pub is_analyzed : Status → Bool
is_analyzed analyzed = true
is_analyzed _ = false

abbrev pub is_pending : Status → Bool
is_pending pending_upload = true
is_pending _ = false

abbrev pub is_failed : Status → Bool
is_failed failed = true
is_failed _ = false

-- nil when the label is one of the named ones.
unfoldable pub validate_label : Label → Option Err
validate_label human = none
validate_label ai_generated = none
validate_label uncertain = none
validate_label (other_label t) = some invalid_label

unfoldable pub record_event : ContentEvent → Content → Content
record_event e c = record c { events = c.events ++ (e ∷ []) }

-- The stored size: a negative size counts as 0.
abbrev pub at_least_0 : ℤ → ℤ
at_least_0 n = if ltb_ℤ n (pos 0) then pos 0 else n

unfoldable pub new_from_media :
    Uuid
    → Uuid
    → Uuid
    → Text
    → Option ℤ
    → Option ℤ
    → ℤ
    → Text
    → Time
    → Uuid
    → Uuid
    → Uuid
    → Result Content
unfolding record_event trim_space
new_from_media media campaign client key frame ts size thumbnail now id eid1 eid2 =
    let object_key = trim_space key in
    let thumb = trim_space thumbnail in
    let size_bytes = at_least_0 size in
    let c : Content = record {
      id = id;
      media_id = media;
      frame_index = frame;
      timestamp_ms = ts;
      object_key = object_key;
      thumbnail_key = if is_empty thumb then none else some thumb;
      size_bytes = some size_bytes;
      label = none;
      confidence = none;
      status = uploaded;
      created_at = now;
      updated_at = now;
      campaign_id = campaign;
      client_id = client;
      events = [];
    } in
    let created : ContentCreated = record {
      event_id = eid1;
      content_id = id;
      media_id = media;
      campaign_id = campaign;
      client_id = client;
      object_key = object_key;
      status = uploaded;
      timestamp = now;
    } in
    let up : ContentUploaded = record {
      event_id = eid2;
      content_id = id;
      media_id = media;
      campaign_id = campaign;
      client_id = client;
      object_key = object_key;
      thumbnail_key = thumb;
      size_bytes = size_bytes;
      timestamp = now;
    } in
    if media == uuid_nil
    then err media_id_required
    else if is_empty object_key
    then err object_key_required
    else ok (record_event (content_uploaded up) (record_event (content_created created) c))

unfoldable pub pull_events : Content → Content × List ContentEvent
pull_events c = (record c { events = [] }, c.events)

unfoldable pub record_status_changed : Time → Uuid → Content → Content
unfolding record_event
record_status_changed at eid c =
    let e : ContentStatusChanged = record {
      event_id = eid;
      content_id = c.id;
      media_id = c.media_id;
      campaign_id = c.campaign_id;
      client_id = c.client_id;
      status = c.status;
      label = c.label;
      timestamp = at;
    } in
    record_event (content_status_changed e) c

-- Also StartAnalysis, which only calls it.
unfoldable pub start_analyzing : Time → Uuid → Content → Content × Option Err
unfolding record_status_changed
start_analyzing now eid c =
    if is_uploaded c.status
    then (
      record_status_changed now eid
          (record c { label = none; confidence = none; status = analyzing; updated_at = now }),
      none,
    )
    else (c, some content_invalid_transition)

unfoldable pub render_verdict : Verdict → Time → Uuid → Content → Content × Option Err
unfolding validate_label record_event
render_verdict v now eid c =
    let c' = record c {
      label = some v.label;
      confidence = some v.confidence;
      status = analyzed;
      updated_at = now;
    } in
    let e : ContentVerdictRendered = record {
      event_id = eid;
      content_id = c.id;
      media_id = c.media_id;
      campaign_id = c.campaign_id;
      client_id = c.client_id;
      label = v.label;
      confidence = v.confidence;
      signals = v.signals;
      timestamp = now;
    } in
    if not (is_analyzing c.status)
    then (c, some content_invalid_transition)
    else elim (validate_label v.label) [
      | some e ↦ (c, some e)
      | none ↦ (record_event (content_verdict_rendered e) c', none)
    ]

unfoldable pub complete_analysis : Label → Time → Uuid → Content → Content × Option Err
unfolding render_verdict
complete_analysis l = render_verdict (record { label = l; confidence = f_zero; signals = [] })

unfoldable pub mark_failed : Time → Uuid → Content → Content × Option Err
unfolding record_status_changed
mark_failed now eid c =
    if not (is_pending c.status) && not (is_uploaded c.status) && not (is_analyzing c.status)
    then (c, some content_invalid_transition)
    else (record_status_changed now eid (record c { status = failed; updated_at = now }), none)

-- An empty key clears the field and leaves `updated_at` alone.
unfoldable pub set_thumbnail_key : Text → Time → Content → Content
unfolding trim_space
set_thumbnail_key key now c =
    let k = trim_space key in
    if is_empty k
    then record c { thumbnail_key = none }
    else record c { thumbnail_key = some k; updated_at = now }

unfoldable pub is_terminal : Content → Bool
is_terminal c = is_analyzed c.status || is_failed c.status

unfoldable pub requeue_analysis : Time → Uuid → Content → Content
unfolding record_event
requeue_analysis now eid c =
    let e : ContentUploaded = record {
      event_id = eid;
      content_id = c.id;
      media_id = c.media_id;
      campaign_id = c.campaign_id;
      client_id = c.client_id;
      object_key = c.object_key;
      thumbnail_key = value_or c.thumbnail_key [];
      size_bytes = value_or c.size_bytes (pos 0);
      timestamp = now;
    } in
    record_event (content_uploaded e) (record c { updated_at = now })
