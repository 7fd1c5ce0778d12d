-- ===== src/Processing/Tests.antt =====
-- Runs of the commands on the database in memory.
mod Extraction
mod Uploads
use notai_api.Base.{[], false, none, refl, some, true, ℕ, ◌+◌, ◌∷◌, ◌≡◌, ◌≤◌, ◌⊎◌}
use notai_api.Base.Text.{codes}
use notai_api.Base.Values.{Uuid}
use notai_api.Content.Entity.{Content, is_terminal}
use notai_api.Content.Types.{uploaded}
use notai_api.Errors.{ok}
use notai_api.Media.Types.{failed, processing}
use notai_api.Memory.{
  Memory, memory_of, memory_store, memory_store-IsLawful, memory_store-IsReliable,
}
use notai_api.Processing.Recover.{
  RecoverStaleProcessingMediasHandler, RecoverStaleProcessingMediasResult, Sweep, fail_media,
  recover_stale_processing, requeue_contents, requeue_media,
}
use notai_api.Processing.Recover.Decision.{Settles, requeue_media_lem}
use notai_api.Processing.Recover.Failing.{HasTimedOut, fail_media_lem}
use notai_api.Processing.Recover.Requeue.{requests}

abbrev pub stuck_content : Content
stuck_content = record {
  id = 1;
  media_id = 2;
  frame_index = none;
  timestamp_ms = none;
  object_key = codes "k";
  thumbnail_key = none;
  size_bytes = none;
  label = none;
  confidence = none;
  status = uploaded;
  created_at = 100;
  updated_at = 100;
  campaign_id = 3;
  client_id = 4;
  events = [];
}

abbrev pub ids_from : ℕ → Uuid
ids_from n = 1000 + n

fail_media_lem_example :
    let t = (fail_media memory_store 500 ids_from 2 (memory_of stuck_content)).1 in
    ((fail_media memory_store 500 ids_from 2 (memory_of stuck_content)).0 ≡ ok tt)
    × (((true ≡ false) × (memory_store.get_media 2 t ≡ ok (some (memory_of stuck_content).media)))
        ⊎ ((true ≡ true)
            × HasTimedOut memory_store memory_store-IsLawful memory_store-IsReliable 500 ids_from 2
                t))
fail_media_lem_example =
    fail_media_lem memory_store memory_store-IsLawful memory_store-IsReliable 500 ids_from 2
      (memory_of stuck_content).media (stuck_content ∷ []) (memory_of stuck_content) refl refl

requeue_media_lem_example :
    Settles memory_store memory_store-IsLawful memory_store-IsReliable 500 ids_from 200
      (requeue_media memory_store 500 ids_from 200 450 2)
      (memory_of stuck_content)
      2
      true
      processing
unfolding is_terminal
requeue_media_lem_example =
    requeue_media_lem memory_store memory_store-IsLawful memory_store-IsReliable 500 ids_from 200
      450 2 (memory_of stuck_content).media (stuck_content ∷ []) (memory_of stuck_content) refl refl
      refl refl
