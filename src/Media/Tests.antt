-- ===== src/Media/Tests.antt =====
-- Runs of the media methods on small inputs.
use notai_api.Base.{
  List, [], false, if◌then◌else◌, inr, is_some, none, not, refl, some, true, ◌||◌, ◌∷◌, ◌≡◌,
}
use notai_api.Base.Decimal.{decimal}
use notai_api.Base.Int.{pos}
use notai_api.Base.Text.{Text, codes, trim_space}
use notai_api.Base.Values.{Uuid}
use notai_api.Errors.{ok}
use notai_api.Media.Entity.{Media, new_pending_upload, soft_delete}
use notai_api.Media.Files.{base, detect_media_type, validate_filename}
use notai_api.Media.Lifecycle.{
  Call, Follows, apply, apply-Follows, mark_failed_call, mark_uploaded_call, requeue_uploaded_call,
  run, run_final, soft_delete_call, start_processing_call,
}
use notai_api.Media.Outcomes.{
  announced, deletions, has_named_label, outcomes, run-announces_outcome,
}
use notai_api.Media.Transitions.{mark_failed, mark_uploaded, requeue_uploaded, start_processing}
use notai_api.Media.Types.{failed, image, is_analyzed, processing}

-- The text of a UUID, for the tests.
abbrev str : Uuid → Text
str = decimal

-- An upload as the presign request makes it.
abbrev made :
    (m : Media) × (new_pending_upload str 2 3 (codes "cat.png") (codes "image/png") 100 4 5 ≡ ok m)
unfolding new_pending_upload base trim_space validate_filename detect_media_type
made = (_, refl)

-- A media in processing.
abbrev in_processing : Media
in_processing = record {
  id = 4;
  campaign_id = 2;
  client_id = 3;
  filename = codes "cat.png";
  content_type = codes "image/png";
  media_type = image;
  object_key = codes "k";
  size_bytes = some (pos 7);
  status = processing;
  verdict = none;
  failure_reason = [];
  analyzed_at = none;
  created_at = 100;
  updated_at = 100;
  deleted_at = none;
  events = [];
}

abbrev calls : List Call
calls =
    start_processing_call 101 10 11
    ∷ mark_uploaded_call (pos 7) [] 102 12
    ∷ start_processing_call 103 13 14
    ∷ requeue_uploaded_call 104 15
    ∷ mark_failed_call (codes "no frames") 105 16
    ∷ soft_delete_call str [] false 106 17
    ∷ mark_failed_call [] 107 18
    ∷ soft_delete_call str [] false 108 19
    ∷ []

run-announces_outcome_example :
    let d = run calls made.0 in
    (outcomes d.events ≡ announced d.status d.verdict)
    × ((not (is_analyzed d.status) || has_named_label d.verdict) ≡ true)
    × ((not (is_analyzed d.status) || is_some d.analyzed_at) ≡ true)
    × (deletions d.events ≡ (if is_some d.deleted_at then 1 else 0))
run-announces_outcome_example =
    run-announces_outcome calls str 2 3 (codes "cat.png") (codes "image/png") 100 4 5 made.1

failed_media : (run calls in_processing).status ≡ failed
unfolding run apply start_processing mark_uploaded requeue_uploaded mark_failed soft_delete
failed_media = refl

run_final_example : (run calls (run calls in_processing)).status ≡ (run calls in_processing).status
run_final_example = run_final calls (run calls in_processing) (inr failed_media)

apply-Follows_example :
    Follows in_processing (apply (mark_failed_call (codes "x") 105 16) in_processing)
apply-Follows_example = apply-Follows (mark_failed_call (codes "x") 105 16) in_processing
