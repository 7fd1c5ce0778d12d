-- ===== src/Activity/Tests.antt =====
-- Deliveries of a media's events to the feed on small inputs.
use notai_api.Activity.Feed.{deliver, deliver_all, outcome_type}
use notai_api.Activity.Outcomes.{
  on_media_status_changed, on_media_verdict_rendered, project_media, verdict_activity,
  verdict_event,
}
use notai_api.Activity.Projector.{
  Feed, Readers, filename_of, insert, insert_row, publish_created, system_event,
}
use notai_api.Activity.Settled.{has_row, on_media_verdict_rendered-settles}
use notai_api.Activity.Told.{deliver_all-shows_outcome}
use notai_api.Activity.Types.{ActivityType, Event, media_failed}
use notai_api.Base.{List, [], map, none, refl, some, true, ℕ, ◌∷◌, ◌≡◌, ◌⊎◌}
use notai_api.Base.Decimal.{decimal}
use notai_api.Base.Int.{pos}
use notai_api.Base.Text.{codes, trim_space}
use notai_api.Base.Values.{Time, Uuid}
use notai_api.Content.Types.{human}
use notai_api.Errors.{ok}
use notai_api.Media.Entity.{Media, new_pending_upload}
use notai_api.Media.Files.{base, detect_media_type, validate_filename}
use notai_api.Media.Lifecycle.{
  Call, apply, mark_failed_call, mark_uploaded_call, run, start_processing_call,
}
use notai_api.Media.Transitions.{mark_failed, mark_uploaded, start_processing}
use notai_api.Media.Types.{MediaVerdictRendered, analyzed}
use notai_api.Messaging.Realtime.{publish_to_user_interest, to_members}

abbrev readers : Readers
readers = record {
  parse = some;
  text_of_uuid = decimal;
  media_by_id = λ i. ok (some (codes "cat.png"));
  user_by_id = λ i. ok none;
  client_by_id = λ i. ok (some (record { name = codes "Ada"; member_ids = 9 ∷ [] }));
}

-- A feed that has a row, and whose next Insert fails.
abbrev shaken : Feed
shaken = record {
  rows = system_event readers 1 3 media_failed (codes "old") [] 50 ∷ [];
  faults = true ∷ [];
  transport = record { delivered = []; faults = [] };
}

abbrev made :
    (m : Media) × (new_pending_upload decimal 2 3 (codes "cat.png") (codes "image/png") 100 4 5
      ≡ ok m)
unfolding new_pending_upload base trim_space validate_filename detect_media_type
made = (_, refl)

abbrev calls : List Call
calls =
    mark_uploaded_call (pos 7) [] 102 12
    ∷ start_processing_call 103 13 14
    ∷ mark_failed_call (codes "no frames") 105 16
    ∷ []

abbrev deliveries : List (Time × ℕ)
deliveries = (200, 4) ∷ (201, 1) ∷ (202, 4) ∷ (203, 9) ∷ (204, 4) ∷ []

deliver_all-shows_outcome_example :
    let d = run calls made.0 in
    let g = deliver_all readers deliveries d.events shaken in
    (g.rows ≡ shaken.rows)
    ⊎ ((x : Event) × (g.rows ≡ x ∷ shaken.rows) × (outcome_type d.status d.verdict ≡ some x.type))
deliver_all-shows_outcome_example =
    deliver_all-shows_outcome readers deliveries shaken calls decimal 2 3 (codes "cat.png")
      (codes "image/png") 100 4 5 made.1

abbrev kinds : Feed → List ActivityType
kinds f = map (λ (e : Event). e.type) f.rows

-- The first delivery fails at the table, the second one is not projected, the third one inserts.
one_row :
    kinds (deliver_all readers deliveries (run calls made.0).events shaken)
    ≡ media_failed ∷ media_failed ∷ []
unfolding made run deliver_all deliver apply mark_failed start_processing mark_uploaded
    on_media_status_changed on_media_verdict_rendered project_media filename_of verdict_event insert
    insert_row publish_created to_members publish_to_user_interest
one_row = refl

abbrev verdict : MediaVerdictRendered
verdict = record {
  event_id = 16;
  media_id = 4;
  campaign_id = 2;
  client_id = 3;
  label = some human;
  flagged_count = 0;
  total_count = 1;
  failed_count = 0;
  status = analyzed;
  reason = [];
  timestamp = 105;
}

abbrev steady : Feed
steady = record shaken { faults = [] }

answered : (on_media_verdict_rendered readers 106 (some verdict) steady).1 ≡ none
unfolding on_media_verdict_rendered project_media filename_of verdict_event verdict_activity insert
    insert_row publish_created to_members publish_to_user_interest
answered = refl

on_media_verdict_rendered-settles_example :
    let g = (on_media_verdict_rendered readers 106 (some verdict) steady).0 in
    (i : Uuid) × (some verdict.event_id ≡ some i)
    × (has_row readers i g ≡ true)
    × ((on_media_verdict_rendered readers 300
          (some verdict)
          (record g { faults = true ∷ [] })).0.rows
        ≡ g.rows)
on_media_verdict_rendered-settles_example =
    on_media_verdict_rendered-settles readers 106 300 verdict steady (true ∷ []) answered refl
