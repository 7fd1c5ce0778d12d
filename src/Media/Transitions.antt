-- ===== src/Media/Transitions.antt =====
-- internal/domain/media/entity.go: the methods that move a media through its states.
use notai_api.Base.{Option, [], if◌then◌else◌, is_empty, none, not, some, value_or, ◌&&◌, ◌==◌}
use notai_api.Base.Int.{pos, ℤ}
use notai_api.Base.Text.{Text, trim_space}
use notai_api.Base.Values.{Time, Uuid}
use notai_api.Content.Entity.{at_least_0, validate_label}
use notai_api.Errors.{Err, media_invalid_transition}
use notai_api.Media.Entity.{Media, record_event}
use notai_api.Media.Types.{
  MediaProcessingStarted, MediaStatusChanged, MediaUploaded, MediaVerdictRendered, Status, Verdict,
  analyzed, failed, is_pending, is_processing, is_uploaded, media_processing_started,
  media_status_changed, media_uploaded, media_verdict_rendered, processing, uploaded,
}

abbrev uploaded_event : Media → ℤ → Status → Uuid → Time → MediaUploaded
uploaded_event m size s eid now = record {
  event_id = eid;
  media_id = m.id;
  campaign_id = m.campaign_id;
  client_id = m.client_id;
  media_type = m.media_type;
  object_key = m.object_key;
  size_bytes = size;
  status = s;
  timestamp = now;
}

unfoldable pub mark_uploaded : ℤ → Text → Time → Uuid → Media → Media × Option Err
unfolding record_event
mark_uploaded size content_type now eid m =
    let size' = at_least_0 size in
    let ct = trim_space content_type in
    let m' = record m {
      size_bytes = some size';
      content_type = if is_empty ct then m.content_type else ct;
      status = uploaded;
      updated_at = now;
    } in
    if not (is_pending m.status)
    then (m, some media_invalid_transition)
    else (record_event (media_uploaded (uploaded_event m size' uploaded eid now)) m', none)

unfoldable pub record_status_changed : Time → Uuid → Media → Media
unfolding record_event
record_status_changed at eid m =
    let e : MediaStatusChanged = record {
      event_id = eid;
      media_id = m.id;
      campaign_id = m.campaign_id;
      client_id = m.client_id;
      status = m.status;
      label = elim m.verdict [ none ↦ none | some v ↦ some v.label ];
      timestamp = at;
    } in
    record_event (media_status_changed e) m

unfoldable pub start_processing : Time → Uuid → Uuid → Media → Media × Option Err
unfolding record_event record_status_changed
start_processing now eid1 eid2 m =
    let e : MediaProcessingStarted = record {
      event_id = eid2;
      media_id = m.id;
      campaign_id = m.campaign_id;
      client_id = m.client_id;
      timestamp = now;
    } in
    if not (is_uploaded m.status) && not (is_processing m.status)
    then (m, some media_invalid_transition)
    else if is_processing m.status
    then (m, none)
    else (
      record_event (media_processing_started e)
          (record_status_changed now eid1 (record m { status = processing; updated_at = now })),
      none,
    )

unfoldable pub render_global_verdict : Verdict → Time → Uuid → Media → Media × Option Err
unfolding record_event validate_label
render_global_verdict v now eid m =
    let m' = record m {
      verdict = some v;
      analyzed_at = some now;
      status = analyzed;
      updated_at = now;
    } in
    let e : MediaVerdictRendered = record {
      event_id = eid;
      media_id = m.id;
      campaign_id = m.campaign_id;
      client_id = m.client_id;
      label = some v.label;
      flagged_count = v.flagged_count;
      total_count = v.total_count;
      failed_count = v.failed_count;
      status = analyzed;
      reason = [];
      timestamp = now;
    } in
    if not (is_processing m.status) && not (is_uploaded m.status)
    then (m, some media_invalid_transition)
    else elim (validate_label v.label) [
      | some e ↦ (m, some e)
      | none ↦ (record_event (media_verdict_rendered e) m', none)
    ]

unfoldable pub mark_failed : Text → Time → Uuid → Media → Media × Option Err
unfolding record_event
mark_failed reason now eid m =
    let r = trim_space reason in
    let e : MediaVerdictRendered = record {
      event_id = eid;
      media_id = m.id;
      campaign_id = m.campaign_id;
      client_id = m.client_id;
      label = none;
      flagged_count = 0;
      total_count = 0;
      failed_count = 0;
      status = failed;
      reason = r;
      timestamp = now;
    } in
    if not (is_pending m.status) && not (is_uploaded m.status) && not (is_processing m.status)
    then (m, some media_invalid_transition)
    else (
      record_event (media_verdict_rendered e)
          (record m { status = failed; failure_reason = r; updated_at = now }),
      none,
    )

-- The zero time stands for the present.
unfoldable pub touch : Time → Time → Media → Media
touch at now m = record m { updated_at = if at == 0 then now else at }

unfoldable pub requeue_uploaded : Time → Uuid → Media → Media × Option Err
unfolding record_event
requeue_uploaded now eid m =
    let size = value_or m.size_bytes (pos 0) in
    if not (is_processing m.status) then (m, some media_invalid_transition) else (
      record_event (media_uploaded (uploaded_event m size m.status eid now))
          (record m { updated_at = now }),
      none,
    )
