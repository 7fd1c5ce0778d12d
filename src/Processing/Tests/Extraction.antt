-- ===== src/Processing/Tests/Extraction.antt =====
-- The extraction of frames over a small database in memory.
use notai_api.Base.{
  ==_refl, Bool-cases, List, [], arith, if◌then◌else◌, inl, inr, is_none, keep_if, map, none, refl,
  some, true, ◌&&◌, ◌++◌, ◌+◌, ◌==◌, ◌∷◌, ◌≡◌,
}
use notai_api.Base.Decimal.{decimal}
use notai_api.Base.Int.{pos}
use notai_api.Base.Text.{Text, codes, trim_space}
use notai_api.Content.Entity.{
  Content, new_from_media, pull_events as pull_content_events, record_event, set_thumbnail_key,
}
use notai_api.Database.{DomainEvent, Store, with_transaction}
use notai_api.Errors.{Result, ok}
use notai_api.Media.Entity.{Media, pull_events, record_event as record_media_event}
use notai_api.Media.Files.{media_folder}
use notai_api.Media.Transitions.{record_status_changed, start_processing}
use notai_api.Media.Types.{is_processing, uploaded, video}
use notai_api.Processing.Extract.{
  ExtractPorts, ExtractedFrame, accept_frames, ensure_processing, extract_downloaded, extract_found,
  extract_frames, extract_from, extract_limited, extract_sampled, extract_unless, make_frames,
  new_content_thumbnail_key, new_frame_object_key, put_frame, put_frame_thumbnail,
  resolve_max_frames, save_frames, store_frames,
}
use notai_api.Processing.Extract.Once.{extract_frames-once}
use notai_api.Processing.Extract.Saving.{KeepsContents}
use notai_api.Processing.Recover.{save_with}

-- One media, its contents, and the keys of the objects that are stored.
record Shelf : Type 0 where
  media : Media
  contents : List Content
  objects : List Text
  outbox : List DomainEvent

abbrev shelf_store : Store Shelf
shelf_store = record {
  get_content = λ i s. ok none;
  update_content = λ c s. ok s;
  save_content = λ c s. ok (record s { contents = record c { events = [] } ∷ s.contents });
  list_by_media_id = λ i s. ok (
      if i == s.media.id && is_none s.media.deleted_at
      then keep_if (λ (c : Content). c.media_id == i) s.contents
      else []);
  get_media =
      λ i s. ok (if i == s.media.id && is_none s.media.deleted_at then some s.media else none);
  get_media_by_key = λ k s. ok none;
  list_processing_updated_before = λ t n s. ok [];
  update_media = λ m s. ok (record s { media = record m { events = [] } });
  store_events = λ es s. ok (record s { outbox = s.outbox ++ es });
  commit = λ s. ok s;
}

abbrev two_frames : List ExtractedFrame
two_frames =
    record { index = pos 1; timestamp_ms = pos 0; jpeg_bytes = 1 ∷ [] }
    ∷ record { index = pos 2; timestamp_ms = pos 500; jpeg_bytes = 2 ∷ 3 ∷ [] }
    ∷ []

abbrev extract_ports : ExtractPorts Shelf
extract_ports = record {
  ports = record {
    get_object = λ k s. ok (7 ∷ []);
    delete_object = λ k s. s;
    put_thumbnail = λ k b s. ok (record s { objects = k ∷ s.objects });
    generate_jpeg = λ b. ok b;
    usage = none;
    text_of = λ e. codes "failed";
    text_of_uuid = λ i. codes "id";
  };
  put = λ k b s. ok (record s { objects = k ∷ s.objects });
  extract = λ b n. ok two_frames;
}

shelf_store-KeepsContents : KeepsContents shelf_store extract_ports
shelf_store-KeepsContents = record {
  lawful = record {
    id_of_found = λ h. ground arith;
    found_updated = λ {n} {m} f r h. (n.updated_at, ground (arith, ==_refl m.id));
    kept_by_outbox = λ i h. ground arith;
    kept_by_commit = λ i h. ground arith;
    kept_by_content = λ i h. ground arith;
  };
  kept_by_put = λ i h. ground arith;
  kept_by_put_thumbnail = λ i h. ground arith;
  kept_by_save = λ i h. ground arith;
  saved = λ {c} {m} {s} {t} f h. (
    record c { events = [] },
    keep_if (λ (d : Content). d.media_id == c.media_id) s.contents,
    ground (arith, ==_refl c.media_id),
  );
  listed_after_save = λ i {c} {d} {ds} {s} {t} h k. elim (Bool-cases (c.media_id == i)) [
    | inl b ↦ (record c { events = [] }, d ∷ ds, ground (arith, b, k, h))
    | inr b ↦ (d, ds, ground (arith, b, k, h))
  ];
  listed_after_outbox = λ i h. ground arith;
  listed_after_commit = λ i h. ground arith;
  samples = λ h. ground arith;
}

abbrev shelf : Shelf
shelf = record {
  media = record {
    id = 2;
    campaign_id = 3;
    client_id = 4;
    filename = codes "cat.mp4";
    content_type = codes "video/mp4";
    media_type = video;
    object_key = codes "k";
    size_bytes = none;
    status = uploaded;
    verdict = none;
    failure_reason = [];
    analyzed_at = none;
    created_at = 100;
    updated_at = 100;
    deleted_at = none;
    events = [];
  };
  contents = [];
  objects = [];
  outbox = [];
}

abbrev extracted : Result (Unit {0}) × Shelf
extracted = extract_frames shelf_store extract_ports 200 (λ n. 1000 + n) 2 shelf

-- A content for each frame, the last one first.
extraction_runs :
    (extracted ≡ (ok tt, extracted.1))
    × (map (λ (c : Content). c.frame_index) extracted.1.contents ≡ some (pos 2) ∷ some (pos 1) ∷ [])
unfolding extract_frames extract_found ensure_processing start_processing with_transaction save_with
    extract_unless extract_from extract_limited resolve_max_frames extract_downloaded
    extract_sampled store_frames make_frames put_frame new_from_media new_frame_object_key
    media_folder trim_space accept_frames put_frame_thumbnail save_frames new_content_thumbnail_key
    set_thumbnail_key record_status_changed pull_content_events pull_events record_event
    record_media_event decimal
extraction_runs = (refl, refl)

extract_frames-once_example :
    (d : Media) × (c : Content) × (cs : List Content) × (shelf_store.get_media 2 extracted.1
      ≡ ok (some d))
    × (is_processing d.status ≡ true)
    × (shelf_store.list_by_media_id 2 extracted.1 ≡ ok (c ∷ cs))
    × (extract_frames shelf_store extract_ports 300 (λ n. 2000 + n) 2 extracted.1
        ≡ (ok tt, extracted.1))
extract_frames-once_example =
    extract_frames-once shelf_store-KeepsContents 200 300 (λ n. 1000 + n) (λ n. 2000 + n) 2
      shelf.media refl refl extraction_runs.0
