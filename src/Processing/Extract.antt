-- ===== src/Processing/Extract.antt =====
-- internal/application/command/media/extract_frames.go. `at` is what time.Now() answers and `new_id`
-- numbers the UUIDs of a call: three for each frame, and the events of the media behind them.
pub mod Once
pub mod Saving
use notai_api.Account.Members.{required}
use notai_api.Analysis.Handler.{save_content}
use notai_api.Base.{
  Bool, List, Option, [], false, if◌then◌else◌, is_empty, length, map, none, not, some, suc, true,
  zero, ℕ, ◌&&◌, ◌*◌, ◌++◌, ◌+◌, ◌-◌, ◌==◌, ◌||◌, ◌∷◌,
}
use notai_api.Base.Decimal.{decimal}
use notai_api.Base.Int.{ltb_ℤ, negsuc, pos, ℤ}
use notai_api.Base.Text.{Text, codes}
use notai_api.Base.Values.{Time, Uuid}
use notai_api.Content.Entity.{
  Content, new_from_media, pull_events as pull_content_events, set_thumbnail_key,
}
use notai_api.Database.{
  DomainEvent, M, Store, and_then, ask, checked, fail_with, of_content, ret, with_transaction,
  write, ◌>>=◌, ◌>>◌,
}
use notai_api.Errors.{Err, Result, err, new_error, ok, video_analysis_not_allowed}
use notai_api.Media.Entity.{Media}
use notai_api.Media.Files.{media_folder}
use notai_api.Media.Transitions.{mark_failed, start_processing}
use notai_api.Media.Types.{is_analyzed, is_failed, is_processing, is_uploaded, is_video}
use notai_api.Messaging.Relay.{store_events}
use notai_api.Processing.Ports.{Ports}
use notai_api.Processing.Recover.{save_with}
use notai_api.Quota.Assert.{is_positive}
use notai_api.Quota.Types.{QuotaUsageView}

-- A frame of a video, and what samples them (internal/domain/port/frame_extractor.go).
pub record ExtractedFrame : Type 0 where
  pub index : ℤ
  pub timestamp_ms : ℤ
  pub jpeg_bytes : List ℕ

abbrev pub default_frames_per_video : ℤ
default_frames_per_video = pos 10

abbrev pub max_hard_frames_per_video : ℤ
max_hard_frames_per_video = pos 30

-- The storage and the quota handler as the other upload commands have them, Put, and Extract on
-- what Get and the temporary file hold.
pub record ExtractPorts (S : Type 0) : Type 0 where
  pub ports : Ports S
  pub put : Text → List ℕ → S → Result S
  pub extract : List ℕ → ℤ → Result (List ExtractedFrame)

abbrev pub zeros : ℕ → Text
zeros zero = []
zeros (suc n) = 48 ∷ zeros n

-- A number filled up with zeros.
abbrev pub padded : ℕ → ℕ → Text
padded width n = let digits = decimal n in zeros (width - length digits) ++ digits

-- %03d
abbrev pub frame_number : ℤ → Text
frame_number (pos n) = padded 3 n
frame_number (negsuc n) = codes "-" ++ padded 2 (n + 1)

unfoldable pub new_frame_object_key : (Uuid → Text) → Uuid → Uuid → Uuid → ℤ → Text
new_frame_object_key str client campaign media index =
    media_folder str client campaign
      (str media ++ (codes "/frames/" ++ (frame_number index ++ codes ".jpg")))

unfoldable pub new_content_thumbnail_key : (Uuid → Text) → Uuid → Uuid → Uuid → Text
new_content_thumbnail_key str client campaign content =
    media_folder str client campaign (codes "thumbnails/contents/" ++ (str content ++ codes ".jpg"))

abbrev pub is_video_not_allowed : Err → Bool
is_video_not_allowed video_analysis_not_allowed = true
is_video_not_allowed _ = false

abbrev pub max_frames_of : ℤ → Result ℤ
max_frames_of n =
    if not (is_positive n)
    then err video_analysis_not_allowed
    else if ltb_ℤ max_hard_frames_per_video n
    then ok max_hard_frames_per_video
    else ok n

unfoldable pub resolve_max_frames : Option (Result QuotaUsageView) → Result ℤ
resolve_max_frames none = ok default_frames_per_video
resolve_max_frames (some (err e)) = err e
resolve_max_frames (some (ok u)) = max_frames_of u.limits.max_frames_per_video

abbrev pub usage_of :
    {S : Type 0}
    → Option (Uuid → S → Result QuotaUsageView)
    → Uuid
    → S
    → Option (Result QuotaUsageView)
usage_of none client s = none
usage_of (some usage) client s = some (usage client s)

-- A video that is uploaded or processing.
abbrev pub wants_frames : Media → Bool
wants_frames m = is_video m.media_type && (is_processing m.status || is_uploaded m.status)

module _ {S : Type 0} (store : Store S) (xs : ExtractPorts S) (at : Time) (new_id : ℕ → Uuid) where
  -- Put of a frame, and NewFromMedia; then PutThumbnail and SetThumbnailKey.
  unfoldable pub put_frame : Media → ℕ → ExtractedFrame → M S Content
  put_frame m n f =
      let str = xs.ports.text_of_uuid in
      let key = new_frame_object_key str m.client_id m.campaign_id m.id f.index in
      write (xs.put key f.jpeg_bytes)
      >> ask (λ s.
        new_from_media m.id m.campaign_id m.client_id key (some f.index) (some f.timestamp_ms)
          (pos (length f.jpeg_bytes)) [] at (new_id (3 * n)) (new_id (3 * n + 1))
          (new_id (3 * n + 2)))

  unfoldable pub put_frame_thumbnail : Media → ExtractedFrame → Content → M S Content
  put_frame_thumbnail m f c =
      let key = new_content_thumbnail_key xs.ports.text_of_uuid m.client_id m.campaign_id c.id in
      write (xs.ports.put_thumbnail key f.jpeg_bytes) >> ret (set_thumbnail_key key at c)

  -- The loop over the frames, from the n-th one on.
  unfoldable pub make_frames : Media → ℕ → List ExtractedFrame → M S (List Content)
  make_frames m n [] = ret []
  make_frames m n (f ∷ fs) =
      let rest = make_frames m (n + 1) fs in
      put_frame m n f >>= put_frame_thumbnail m f >>= λ c. rest >>= λ cs. ret (c ∷ cs)

  -- The loop over what was made; it collects the events.
  unfoldable pub save_frames : List Content → M S (List DomainEvent)
  unfolding pull_content_events
  save_frames [] = ret []
  save_frames (c ∷ cs) =
      let rest = save_frames cs in
      write (store.save_content c)
      >> (rest >>= λ events. ret (map of_content (pull_content_events c).1 ++ events))

  unfoldable pub accept_frames : List Content → Option Media → M S (Unit {0})
  accept_frames created none = ret tt
  accept_frames created (some fresh) = ask (store.list_by_media_id fresh.id) >>= λ siblings.
      if not (is_empty siblings)
      then ret tt
      else save_frames created >>= λ events. write (store.store_events events)

  unfoldable pub fail_open : Err → Option Media → M S (Unit {0})
  fail_open cause none = ret tt
  fail_open cause (some m) =
      if is_analyzed m.status || is_failed m.status
      then ret tt
      else checked (mark_failed (xs.ports.text_of cause) at (new_id 0) m) >>= save_with store []

  -- The method failMedia.
  unfoldable pub fail_extraction : Uuid → Err → M S (Unit {0})
  fail_extraction media_id cause s =
      and_then
        (with_transaction store.commit (ask (store.get_media media_id) >>= fail_open cause) s)
        (λ a. fail_with cause)

  unfoldable pub store_frames : Media → List ExtractedFrame → M S (Unit {0})
  store_frames m frames = make_frames m 0 frames >>= λ created.
      with_transaction store.commit (ask (store.get_media m.id) >>= accept_frames created)

  -- Handle from resolveMaxFrames on: with the result of Extract, of downloadToTemp, and of
  -- resolveMaxFrames.
  unfoldable pub extract_sampled : Media → Result (List ExtractedFrame) → M S (Unit {0})
  extract_sampled m (err e) = fail_extraction m.id e
  extract_sampled m (ok frames) = store_frames m frames

  unfoldable pub extract_downloaded : Media → ℤ → Result (List ℕ) → M S (Unit {0})
  extract_downloaded m n (err e) = fail_extraction m.id e
  extract_downloaded m n (ok body) = extract_sampled m (xs.extract body n)

  unfoldable pub extract_limited : Media → Result ℤ → M S (Unit {0})
  extract_limited m (err e) s =
      if is_video_not_allowed e then fail_extraction m.id e s else (err e, s)
  extract_limited m (ok n) s = extract_downloaded m n (xs.ports.get_object m.object_key s) s

  unfoldable pub extract_from : Media → M S (Unit {0})
  extract_from m s =
      extract_limited m (resolve_max_frames (usage_of xs.ports.usage m.client_id s)) s

  -- StartProcessing of an uploaded media.
  unfoldable pub ensure_processing : Media → M S Media
  ensure_processing m =
      if not (is_uploaded m.status)
      then ret m
      else checked (start_processing at (new_id 0) (new_id 1) m) >>= λ m'.
          with_transaction store.commit (save_with store [] m') >> ret m'

  -- Handle once the contents of the media are listed.
  unfoldable pub extract_unless : Media → List Content → M S (Unit {0})
  extract_unless m existing = if not (is_empty existing) then ret tt else extract_from m

  unfoldable pub extract_found : Option Media → M S (Unit {0})
  extract_found none = ret tt
  extract_found (some m) =
      if not (wants_frames m)
      then ret tt
      else ensure_processing m >>= λ m'. ask (store.list_by_media_id m'.id) >>= extract_unless m'

  unfoldable pub extract_frames : Uuid → M S (Unit {0})
  extract_frames media_id =
      if media_id == 0
      then fail_with (new_error (codes "media id is required"))
      else ask (store.get_media media_id) >>= extract_found
