-- ===== src/Campaign/Tests.antt =====
-- The events of a campaign on small inputs.
use notai_api.Base.{List, [], none, refl, some, true, ◌∷◌, ◌≡◌}
use notai_api.Base.Text.{codes}
use notai_api.Campaign.Atomicity.{deleting, handle, handle-atomic}
use notai_api.Campaign.Background.{new_background_object_key}
use notai_api.Campaign.Commands.{
  Campaigns, content_object_refs, delete_campaign, delete_medias, delete_with_medias,
  require_campaign,
}
use notai_api.Campaign.Entity.{
  apply_background_ready, apply_update, is_deleted, new_campaign, new_default_campaign,
  record_background_updated, record_event, soft_delete, start_background_upload, validate_schedule,
}
use notai_api.Campaign.Stream.{
  Call, View, apply, apply_background_ready_call, apply_update_call, is_sound, make, of_client,
  replay, run, run-replays, soft_delete_call, start_background_upload_call, view,
}
use notai_api.Campaign.Types.{Campaign, background_failed, background_ready}
use notai_api.Content.Entity.{Content}
use notai_api.Content.Types.{analyzed}
use notai_api.Database.{Store, with_transaction}
use notai_api.Errors.{Result, campaign_not_found, err, ok}
use notai_api.Media.Files.{file_extension}
use notai_api.Memory.{Memory, memory_of, memory_store}

abbrev calls : List Call
calls =
    apply_update_call (codes "Spring") (some 120) (some 110) 101 11
    ∷ apply_update_call (codes "Spring") (some 120) (some 130) 102 12
    ∷ start_background_upload_call (codes "p") (codes "a.png") (codes "image/png") 103 13
    ∷ apply_background_ready_call (codes "t") [] 104 14
    ∷ soft_delete_call 105 15
    ∷ soft_delete_call 106 16
    ∷ []

abbrev unknown : View
unknown = record {
  name = codes "?";
  start_at = none;
  end_at = none;
  status = background_failed;
  thumbnail = [];
  deletions = 5;
}

abbrev value_of : {A : Type 0} → Result A → A → A
value_of (ok a) d = a
value_of (err e) d = d

abbrev made : Campaign
made =
    value_of (make (of_client (codes "May") (some 100) (some 110)) 2 90 3 4)
      (new_default_campaign 2 90 3 4)

run-replays_example :
    (replay (run calls made).events unknown ≡ view (run calls made))
    × (is_sound (run calls made) ≡ true)
unfolding new_campaign new_default_campaign validate_schedule
run-replays_example =
    run-replays calls (of_client (codes "May") (some 100) (some 110)) 2 90 3 4 unknown refl

-- The update that ends before it starts is refused, and the second deletion does nothing.
replays_spring : replay (run calls made).events unknown ≡ record {
  name = codes "Spring";
  start_at = some 120;
  end_at = some 130;
  status = background_ready;
  thumbnail = codes "t";
  deletions = 1;
}
unfolding run apply new_campaign new_default_campaign validate_schedule apply_update soft_delete
    start_background_upload apply_background_ready record_background_updated record_event is_deleted
replays_spring = refl

object_keys :
    new_background_object_key (λ i. codes "7") 1 2 (codes "a.PNG") 3
    ≡ codes "clients/7/campaigns/7/7.png"
unfolding new_background_object_key file_extension
object_keys = refl

-- Every campaign is this one, and the outbox fails.
abbrev kept : Campaigns Memory
kept = record {
  get = λ i s. ok (some made);
  get_for_update = λ i s. ok (some made);
  get_by_background_pending_key = λ k s. ok (some made);
  save = λ c s. ok s;
  update = λ c s. ok s;
  list_active_by_campaign_id = λ i s. ok (s.media ∷ []);
  delete_thumbnail = λ k s. s;
  presigned_put_url = λ k s. ok k;
}

abbrev a_content : Content
a_content = record {
  id = 1;
  media_id = 2;
  frame_index = none;
  timestamp_ms = none;
  object_key = codes "k";
  thumbnail_key = none;
  size_bytes = none;
  label = none;
  confidence = none;
  status = analyzed;
  created_at = 100;
  updated_at = 100;
  campaign_id = 3;
  client_id = 4;
  events = [];
}

abbrev closed : Store Memory
closed = record memory_store { store_events = λ es s. err campaign_not_found }

-- The media is deleted before the outbox fails, and is there again.
handle-atomic_example :
    let s = memory_of a_content in
    (handle closed kept (deleting (λ i. codes "7") 3 105 15 (λ n. n)) s).1 ≡ s
unfolding delete_campaign require_campaign soft_delete is_deleted delete_with_medias delete_medias
    content_object_refs with_transaction new_campaign new_default_campaign validate_schedule
    record_event
handle-atomic_example =
    handle-atomic closed kept (deleting (λ i. codes "7") 3 105 15 (λ n. n)) (memory_of a_content)
      campaign_not_found refl
