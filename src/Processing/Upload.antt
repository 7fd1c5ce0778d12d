-- ===== src/Processing/Upload.antt =====
-- internal/application/command/media/process_upload.go. `at` is what time.Now() answers and `new_id`
-- numbers the UUIDs of a call.
pub mod Reports
pub mod Settling
mod Steps
use notai_api.Analysis.Handler.{save_content}
use notai_api.Base.{
  Bool, List, Option, [], if◌then◌else◌, is_empty, map, none, not, some, ℕ, ◌&&◌, ◌++◌, ◌||◌,
}
use notai_api.Base.Text.{Text, text_eq, trim_space}
use notai_api.Base.Values.{Time, Uuid}
use notai_api.Content.Entity.{Content, new_from_media, pull_events as pull_content_events}
use notai_api.Database.{
  M, Store, and_then, ask, checked, fail_with, of_content, of_media, reporting, ret,
  with_transaction, write, ◌>>=◌, ◌>>◌,
}
use notai_api.Errors.{
  Err, Result, err, failed_to_create_content, failed_to_get_media, failed_to_update_media,
  invalid_media_type, ok,
}
use notai_api.Media.Entity.{Media, pull_events as pull_media_events}
use notai_api.Media.Files.{is_media_object_key, new_thumbnail_key}
use notai_api.Media.Transitions.{mark_failed, mark_uploaded, start_processing}
use notai_api.Media.Types.{MediaType, image, is_pending, other_type, video}
use notai_api.Messaging.Relay.{store_events}
use notai_api.Processing.Ports.{Ports}
use notai_api.Processing.Receive.{ProcessUploadCommand, Received, receive}
use notai_api.Processing.Recover.{save_with}

-- The media still waits for this upload.
abbrev pub awaits : Text → Media → Bool
awaits key m = is_pending m.status && text_eq m.object_key key

module _ {S : Type 0} (store : Store S) (ports : Ports S) (at : Time) (new_id : ℕ → Uuid) where
  unfoldable pub fail_upload_fresh : Text → Err → Option Media → M S (Unit {0})
  fail_upload_fresh key cause none = ret tt
  fail_upload_fresh key cause (some m) =
      if awaits key m
      then checked (mark_failed (ports.text_of cause) at (new_id 0) m) >>= save_with store []
      else ret tt

  -- The method fail.
  unfoldable pub fail_upload : Uuid → Text → Err → M S (Unit {0})
  fail_upload media_id key cause s =
      let body : M S (Unit {0}) = ask (store.get_media media_id) >>= fail_upload_fresh key cause in
      and_then (with_transaction store.commit body (ports.delete_object key s))
        (λ a. fail_with cause)

  -- MarkUploaded and StartProcessing.
  unfoldable pub start_upload : Received → Media → M S Media
  start_upload r m = checked (mark_uploaded r.size r.content_type at (new_id 0) m) >>= λ m'.
      checked (start_processing at (new_id 1) (new_id 2) m')

  unfoldable pub save_image : Media → Content → M S (Unit {0})
  unfolding pull_media_events pull_content_events
  save_image m c = do
    reporting failed_to_update_media (write (store.update_media m))
    reporting failed_to_create_content (write (store.save_content c))
    write (
        store.store_events
          (map of_media (pull_media_events m).1 ++ map of_content (pull_content_events c).1))

  -- The transaction of handleImage.
  unfoldable pub accept_image : Text → Received → Text → Option Media → M S (Unit {0})
  accept_image key r thumbnail none = ret tt
  accept_image key r thumbnail (some m) =
      if awaits key m
      then (start_upload r m >>= λ m'.
          ask (λ s.
            new_from_media m'.id m'.campaign_id m'.client_id m'.object_key none none r.size
              thumbnail at (new_id 3) (new_id 4) (new_id 5))
          >>= save_image m')
      else ret tt

  unfoldable pub put_thumbnail_of : Media → List ℕ → M S Text
  put_thumbnail_of m raw s =
      let key = new_thumbnail_key ports.text_of_uuid m.client_id m.campaign_id m.id in
      elim (ports.generate_jpeg raw) [
        | err e ↦ (err e, s)
        | ok bytes ↦ elim (ports.put_thumbnail key bytes s) [
          | err e ↦ (err e, s)
          | ok t ↦ (ok key, t)
        ]
      ]

  -- handleImage after its calls of the thumbnailer and the storage.
  unfoldable pub after_thumbnail : Media → Text → Received → Result Text × S → Result (Unit {0}) × S
  after_thumbnail m key r (err e, s) = fail_upload m.id key e s
  after_thumbnail m key r (ok k, s) =
      with_transaction store.commit
        (reporting failed_to_get_media (ask (store.get_media m.id)) >>= accept_image key r k) s

  unfoldable pub handle_image : Media → Text → Received → M S (Unit {0})
  handle_image m key r s = after_thumbnail m key r (put_thumbnail_of m r.raw s)

  -- The transaction of handleVideo.
  unfoldable pub accept_video : Text → Received → Option Media → M S (Unit {0})
  unfolding pull_media_events
  accept_video key r none = ret tt
  accept_video key r (some m) =
      if awaits key m
      then (start_upload r m >>= λ m'.
          reporting failed_to_update_media (write (store.update_media m'))
          >> write (store.store_events (map of_media (pull_media_events m').1)))
      else ret tt

  unfoldable pub handle_video : Media → Text → Received → M S (Unit {0})
  handle_video m key r =
      with_transaction store.commit
        (reporting failed_to_get_media (ask (store.get_media m.id)) >>= accept_video key r)

  -- The switch over the type.
  unfoldable pub handle_type : MediaType → Media → Text → Received → M S (Unit {0})
  handle_type image m key r = handle_image m key r
  handle_type video m key r = handle_video m key r
  handle_type (other_type t) m key r = fail_upload m.id key invalid_media_type

  unfoldable pub process_found : ProcessUploadCommand → Text → Option Media → M S (Unit {0})
  process_found cmd key none s = (ok tt, s)
  process_found cmd key (some m) s =
      if not (is_pending m.status) then (ok tt, s) else elim (receive ports cmd key m s) [
        | err e ↦ fail_upload m.id key e s
        | ok r ↦ handle_type m.media_type m key r s
      ]

  unfoldable pub process_upload : ProcessUploadCommand → M S (Unit {0})
  process_upload cmd =
      let key = trim_space cmd.object_key in
      if is_empty key || not (is_media_object_key key)
      then ret tt
      else reporting failed_to_get_media (ask (store.get_media_by_key key))
        >>= process_found cmd key
