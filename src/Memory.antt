-- ===== src/Memory.antt =====
-- A small database in memory, with one content and one media, for the tests.
use notai_api.Analysis.Completion.{IsReliable}
use notai_api.Analysis.Finalize.{IsLawful}
use notai_api.Base.{
  ==_refl, List, [], arith, if◌then◌else◌, is_none, ltb, none, refl, some, ◌&&◌, ◌++◌, ◌==◌, ◌∷◌,
}
use notai_api.Base.Text.{codes, text_eq}
use notai_api.Content.Entity.{Content}
use notai_api.Database.{DomainEvent, Store}
use notai_api.Errors.{ok}
use notai_api.Media.Entity.{Media}
use notai_api.Media.Types.{image, is_processing, processing}

pub record Memory : Type 0 where
  pub content : Content
  pub media : Media
  pub outbox : List DomainEvent

abbrev pub memory_store : Store Memory
memory_store = record {
  get_content = λ i s. ok (
      if i == s.content.id && s.content.media_id == s.media.id && is_none s.media.deleted_at
      then some s.content
      else none);
  update_content = λ c s. ok (record s { content = record c { events = [] } });
  save_content = λ c s. ok (record s { content = record c { events = [] } });
  list_by_media_id = λ i s. ok (
      if i == s.content.media_id && i == s.media.id && is_none s.media.deleted_at
      then s.content ∷ []
      else []);
  get_media =
      λ i s. ok (if i == s.media.id && is_none s.media.deleted_at then some s.media else none);
  get_media_by_key = λ k s.
      ok
        (if text_eq k s.media.object_key && is_none s.media.deleted_at then some s.media else none);
  list_processing_updated_before = λ t n s. ok (
      if is_none s.media.deleted_at && is_processing s.media.status && ltb s.media.updated_at t
      then s.media ∷ []
      else []);
  update_media = λ m s. ok (record s { media = record m { events = [] } });
  store_events = λ es s. ok (record s { outbox = s.outbox ++ es });
  commit = λ s. ok s;
}

pub memory_store-IsLawful : IsLawful memory_store
memory_store-IsLawful = record {
  id_of_found = λ h. ground arith;
  found_updated = λ {n} {m} f r h. (n.updated_at, ground (arith, ==_refl m.id));
  kept_by_outbox = λ i h. ground arith;
  kept_by_commit = λ i h. ground arith;
  kept_by_content = λ i h. ground arith;
}

abbrev pub memory_of : Content → Memory
memory_of c = record {
  content = c;
  media = record {
    id = 2;
    campaign_id = 3;
    client_id = 4;
    filename = codes "cat.png";
    content_type = codes "image/png";
    media_type = image;
    object_key = codes "k";
    size_bytes = none;
    status = processing;
    verdict = none;
    failure_reason = [];
    analyzed_at = none;
    created_at = 100;
    updated_at = 100;
    deleted_at = none;
    events = [];
  };
  outbox = [];
}

pub memory_store-IsReliable : IsReliable memory_store
memory_store-IsReliable = record {
  updates = λ m s. (record s { media = record m { events = [] } }, refl);
  updates_content = λ c s. (record s { content = record c { events = [] } }, refl);
  stores = λ es s. (record s { outbox = s.outbox ++ es }, refl);
  commits = λ s. (s, refl);
}
