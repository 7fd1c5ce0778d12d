-- ===== src/Analysis/Handler.antt =====
-- internal/application/command/content/analyze_content.go: the transactions of
-- AnalyzeContentHandler. The time and the UUID of an event are arguments of its method's call.
use notai_api.Analysis.MediaVerdict.{aggregate_media_verdict}
use notai_api.Database.{
  DomainEvent, M, Store, and_then, ask, checked, fail_with, of_content, of_media, ret,
  with_transaction, write, ◌>>=◌, ◌>>◌,
}
use notai_api.Base.{
  Bool, List, Option, all_of, false, if◌then◌else◌, is_empty, is_some, map, none, not, some, true,
  ◌&&◌, ◌++◌, ◌==◌, ◌||◌,
}
use notai_api.Base.Text.{Text}
use notai_api.Base.Values.{Time, Uuid, uuid_nil}
use notai_api.Content.Entity.{
  Content, is_analyzing, is_terminal, is_uploaded, mark_failed, pull_events, render_verdict,
  start_analyzing,
}
use notai_api.Content.Types.{Verdict}
use notai_api.Errors.{
  Err, err, file_size_quota_exceeded, ok, storage_quota_exceeded, verification_quota_exceeded,
  video_analysis_not_allowed,
}
use notai_api.Media.Entity.{Media, pull_events as pull_media_events}
use notai_api.Media.Transitions.{mark_failed as mark_media_failed, render_global_verdict}
use notai_api.Media.Types.{is_analyzed, is_failed}

-- isHardAnalysisQuotaError
unfoldable pub is_hard_quota_error : Err → Bool
is_hard_quota_error verification_quota_exceeded = true
is_hard_quota_error video_analysis_not_allowed = true
is_hard_quota_error file_size_quota_exceeded = true
is_hard_quota_error storage_quota_exceeded = true
is_hard_quota_error _ = false

module _ {S : Type 0} (store : Store S) where
  -- Update of a content, and StoreEvents of what it pulls.
  unfoldable pub save_content : Content → M S (Unit {0})
  unfolding pull_events
  save_content c = do
    write (store.update_content c)
    write (store.store_events (map of_content (pull_events c).1))

  unfoldable pub save_media : Media → M S (Unit {0})
  unfolding pull_media_events
  save_media m = do
    write (store.update_media m)
    write (store.store_events (map of_media (pull_media_events m).1))

  abbrev pub is_final : Media → Bool
  is_final m = is_analyzed m.status || is_failed m.status

  -- The end of tryFinalizeMedia, for the contents of the media.
  unfoldable pub finalize_over : List Content → Time → Uuid → Media → M S (Unit {0})
  finalize_over siblings now eid m =
      if is_empty siblings || not (all_of is_terminal siblings)
      then ret tt
      else checked (render_global_verdict (aggregate_media_verdict siblings) now eid m)
        >>= save_media

  -- What tryFinalizeMedia does with the media it found.
  unfoldable pub finalize : Uuid → Time → Uuid → Option Media → M S (Unit {0})
  finalize media_id now eid none = ret tt
  finalize media_id now eid (some m) =
      if is_final m
      then ret tt
      else ask (store.list_by_media_id media_id) >>= λ siblings. finalize_over siblings now eid m

  -- `has_media` is false where the handler has no media repository.
  unfoldable pub try_finalize_media : Bool → Uuid → Time → Uuid → M S (Unit {0})
  try_finalize_media has_media media_id now eid =
      if not has_media || media_id == uuid_nil
      then ret tt
      else with_transaction store.commit
          (ask (store.get_media media_id) >>= finalize media_id now eid)

  -- The answer of AssertAnalyze in the transaction, where the handler has quotas.
  abbrev pub asserted : Option (Uuid → S → Option Err) → Uuid → M S (Unit {0})
  asserted none client s = ret tt s
  asserted (some assert) client s = elim (assert client s) [
    | none ↦ ret tt s
    | some e ↦ fail_with e s
  ]

  -- The first transaction of Handle, with what it leaves in the variable `content`.
  unfoldable pub start_fresh :
      Option (Uuid → S → Option Err) → Media → Content → Time → Uuid → Option Content → M S Content
  start_fresh quota media content now eid none = ret content
  start_fresh quota media content now eid (some fresh) =
      if not (is_uploaded fresh.status)
      then ret fresh
      else (asserted quota media.client_id >> checked (start_analyzing now eid fresh) >>= λ c.
          save_content c >> ret (pull_events c).0)

  unfoldable pub start_analysis :
      Option (Uuid → S → Option Err) → Media → Content → Time → Uuid → M S Content
  start_analysis quota media content now eid =
      with_transaction store.commit
        (ask (store.get_content content.id) >>= start_fresh quota media content now eid)

  -- The last transaction of Handle.
  unfoldable pub render_fresh : Verdict → Time → Uuid → Option Content → M S (Unit {0})
  render_fresh v now eid none = ret tt
  render_fresh v now eid (some fresh) =
      if not (is_analyzing fresh.status)
      then ret tt
      else checked (render_verdict v now eid fresh) >>= save_content

  unfoldable pub render_content : Uuid → Verdict → Time → Uuid → M S (Unit {0})
  render_content id v now eid =
      with_transaction store.commit (ask (store.get_content id) >>= render_fresh v now eid)

  -- The media's part of failQuotaBlockedAnalysis, with the events of the content.
  unfoldable pub fail_media : List DomainEvent → Text → Time → Uuid → Option Media → M S (Unit {0})
  fail_media events reason now eid none = write (store.store_events events)
  fail_media events reason now eid (some m) =
      if is_final m
      then write (store.store_events events)
      else checked (mark_media_failed reason now eid m) >>= λ m'.
          write (store.update_media m')
          >> write (store.store_events (events ++ map of_media (pull_media_events m').1))

  unfoldable pub fail_quota_blocked : Content → Uuid → Text → Time → Uuid → Uuid → M S (Unit {0})
  fail_quota_blocked content media_id reason now eid1 eid2 =
      checked (mark_failed now eid1 content) >>= λ c. with_transaction store.commit (
        write (store.update_content c)
        >> ask (store.get_media media_id)
        >>= fail_media (map of_content (pull_events c).1) reason now eid2)

  -- The start of Handle for an uploaded content: a hard quota error fails the content and its media,
  -- and is reported all the same. `text_of` is the text of an error.
  unfoldable pub start_or_block :
      Option (Uuid → S → Option Err)
      → (Err → Text)
      → Media
      → Content
      → Time
      → Uuid
      → Uuid
      → Uuid
      → M S Content
  start_or_block quota text_of media content now eid eid1 eid2 s =
      let (r, s') = start_analysis quota media content now eid s in
      elim r [
        | ok c ↦ (ok c, s')
        | err e ↦
            if is_some quota && is_hard_quota_error e
            then and_then (fail_quota_blocked content media.id (text_of e) now eid1 eid2 s')
                (λ t. fail_with e)
            else (err e, s')
      ]
