-- ===== src/Activity/Outcomes.antt =====
-- internal/application/event/activity/project.go: the outcomes of media.
use notai_api.Activity.Projector.{Feed, Readers, filename_of, insert, quoted, system_event}
use notai_api.Activity.Types.{
  ActivityType, Event, count_value, id_value, label_value, media_ai_flagged, media_failed,
  media_human_verified, media_manual_review, status_value, text_value,
}
use notai_api.Base.{Option, [], if◌then◌else◌, is_empty, none, not, some, ℕ, ◌++◌, ◌∷◌}
use notai_api.Base.Decimal.{decimal}
use notai_api.Base.Text.{Text, codes}
use notai_api.Base.Values.{Time, Uuid}
use notai_api.Content.Types.{ai_generated, human, other_label, uncertain}
use notai_api.Errors.{err, ok}
use notai_api.Media.Types.{MediaStatusChanged, MediaVerdictRendered, is_failed}
use notai_api.Messaging.Dedup.{outside_error}
use notai_api.Messaging.Failure.{Answer, non_retryable, retryable}

module _ (r : Readers) where
  unfoldable pub failed_message : Text → Text → Text
  failed_message filename reason =
      if is_empty reason
      then quoted filename ++ codes " failed during processing"
      else quoted filename ++ (codes " failed: " ++ reason)

  abbrev counted : Text → Text → ℕ → ℕ → Text → Text
  counted filename verb n total unit =
      quoted filename
      ++ (verb ++ (codes " (" ++ (decimal n ++ (codes "/" ++ (decimal total ++ unit)))))

  -- The type and the message of a verdict by its label; none where it is not projected.
  unfoldable pub verdict_activity : Text → MediaVerdictRendered → Option (ActivityType × Text)
  verdict_activity filename e = elim e.label [
    | some ai_generated ↦ some (
      media_ai_flagged,
      counted filename (codes " flagged as AI-generated") e.flagged_count e.total_count
          (codes " frames)"),
    )
    | some uncertain ↦ some (
      media_manual_review,
      counted filename (codes " placed under manual review") e.flagged_count e.total_count
          (codes " units)"),
    )
    | some human ↦
        some (media_human_verified, quoted filename ++ codes " verified as human content")
    | some (other_label t) ↦ none
    | none ↦ none
  ]

  -- What is inserted for a verdict whose media has this filename.
  unfoldable pub verdict_event : Uuid → Uuid → Text → MediaVerdictRendered → Option Event
  verdict_event id client filename e =
      if is_failed e.status
      then some (
          system_event r id client media_failed (failed_message filename e.reason)
            ((codes "mediaId", id_value e.media_id)
              ∷ (codes "campaignId", id_value e.campaign_id)
              ∷ (codes "filename", text_value filename)
              ∷ (codes "status", status_value e.status)
              ∷ (if is_empty e.reason then [] else (codes "reason", text_value e.reason) ∷ []))
            e.timestamp)
      else elim (verdict_activity filename e) [
        | none ↦ none
        | some (type, message) ↦ some (
            system_event r id client type message
              ((codes "mediaId", id_value e.media_id)
                ∷ (codes "campaignId", id_value e.campaign_id)
                ∷ (codes "filename", text_value filename)
                ∷ (codes "label", label_value e.label)
                ∷ (codes "flaggedCount", count_value e.flagged_count)
                ∷ (codes "totalCount", count_value e.total_count)
                ∷ (codes "failedCount", count_value e.failed_count)
                ∷ [])
              e.timestamp)
      ]

  abbrev pub insert_if : Time → Option Event → Feed → Feed × Answer
  insert_if now none f = (f, none)
  insert_if now (some e) f = insert r now e f

  -- The parsing of the ids of a media's event, and the look up of its filename, before `row_of`.
  unfoldable pub project_media :
      Time → Uuid → Uuid → Uuid → (Uuid → Uuid → Text → Option Event) → Feed → Feed × Answer
  project_media now client id media row_of f = elim (r.parse client) [
    | none ↦ (f, some (non_retryable outside_error))
    | some c ↦ elim (r.parse id) [
      | none ↦ (f, some (non_retryable outside_error))
      | some i ↦ elim (r.parse media) [
        | none ↦ (f, some (non_retryable outside_error))
        | some m ↦ elim (filename_of r media m) [
          | err x ↦ (f, some (retryable x))
          | ok n ↦ insert_if now (row_of i c n) f
        ]
      ]
    ]
  ]

  unfoldable pub on_media_verdict_rendered :
      Time → Option MediaVerdictRendered → Feed → Feed × Answer
  on_media_verdict_rendered now none f = (f, some (non_retryable outside_error))
  on_media_verdict_rendered now (some e) f =
      project_media now e.client_id e.event_id e.media_id (λ i c n. verdict_event i c n e) f

  unfoldable pub status_event : Uuid → Uuid → Text → MediaStatusChanged → Event
  status_event id client filename e =
      system_event r id client media_failed (quoted filename ++ codes " failed during processing")
        ((codes "mediaId", id_value e.media_id)
          ∷ (codes "campaignId", id_value e.campaign_id)
          ∷ (codes "filename", text_value filename)
          ∷ (codes "status", status_value e.status)
          ∷ [])
        e.timestamp

  unfoldable pub on_media_status_changed : Time → Option MediaStatusChanged → Feed → Feed × Answer
  on_media_status_changed now none f = (f, some (non_retryable outside_error))
  on_media_status_changed now (some e) f =
      if not (is_failed e.status)
      then (f, none)
      else project_media now e.client_id e.event_id e.media_id
          (λ i c n. some (status_event i c n e)) f
