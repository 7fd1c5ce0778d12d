-- ===== src/Campaign/Uploads.antt =====
-- internal/application/command/campaign: the handlers of a campaign's background. A file that the
-- object storage fails to delete is only logged.
use notai_api.Base.{
  List, Option, if◌then◌else◌, is_empty, length, ltb, none, not, some, take, ℕ, ◌&&◌, ◌++◌, ◌+◌,
  ◌==◌, ◌||◌,
}
use notai_api.Base.Int.{ltb_ℤ, pos, ℤ}
use notai_api.Base.Text.{Text, codes, contains, text_eq, trim_space}
use notai_api.Base.Values.{Time, Uuid}
use notai_api.Campaign.Background.{
  new_background_object_key, new_background_thumbnail_key, validate_background_filename,
}
use notai_api.Campaign.Commands.{
  Campaigns, get_campaign, max_background_bytes, save_campaign, store_campaign_events,
}
use notai_api.Campaign.Entity.{
  apply_background_ready, clear_background, mark_background_failed, start_background_upload,
}
use notai_api.Campaign.Types.{Campaign}
use notai_api.Database.{
  M, Store, ask, fail_with, reporting, ret, with_transaction, write, ◌>>=◌, ◌>>◌,
}
use notai_api.Errors.{Err, Result, campaign_not_found, err, file_too_large, new_error, ok}
use notai_api.Media.Files.{base, ext, is_thumbnail_object_key, trim_dot}
use notai_api.Processing.Ports.{Ports}

module _ {S : Type 0} (store : Store S) (campaigns : Campaigns S) (ports : Ports S) where
  -- A deletion whose error is dropped, of a key that is there.
  unfoldable pub drop_key : (Text → S → S) → Text → M S (Unit {0})
  drop_key delete key s = if is_empty key then (ok tt, s) else (ok tt, delete key s)

  unfoldable pub require_own : Uuid → Campaign → M S Campaign
  require_own client c = if not (c.client_id == client) then fail_with campaign_not_found else ret c

  -- ClearBackgroundHandler.Handle
  unfoldable pub handle_clear_background : Uuid → Uuid → Time → Uuid → M S (Unit {0})
  handle_clear_background id client now eid =
      with_transaction store.commit (
        get_campaign store campaigns id >>= require_own client >>= λ c.
        save_campaign store campaigns (clear_background now eid c) >> ret c)
      >>= λ c.
          drop_key ports.delete_object c.background_pending_key
          >> drop_key campaigns.delete_thumbnail c.background_thumbnail_key

  -- PresignBackgroundHandler.Handle
  unfoldable pub handle_presign_background :
      Uuid → Uuid → Text → Text → Time → Uuid → Uuid → M S Text
  handle_presign_background id client raw_name raw_type now key_id eid =
      let filename = base (trim_space raw_name) in
      let key = new_background_object_key ports.text_of_uuid client id filename key_id in
      elim (validate_background_filename filename) [
        | some e ↦ fail_with e
        | none ↦
            with_transaction store.commit (
              get_campaign store campaigns id >>= require_own client >>= λ c.
              save_campaign store campaigns
                (start_background_upload key filename (trim_space raw_type) now eid c)
              >> ret c.background_pending_key)
            >>= (λ previous.
                if not (is_empty previous) && not (text_eq previous key)
                then drop_key ports.delete_object previous
                else ret tt)
            >> reporting (new_error (codes "failed to generate upload url"))
                (ask (campaigns.presigned_put_url key))
      ]

  -- The transaction of fail.
  unfoldable pub fail_fresh_background : Text → Time → Uuid → Option Campaign → M S (Unit {0})
  fail_fresh_background key now eid none = ret tt
  fail_fresh_background key now eid (some fresh) =
      if not (is_empty fresh.background_pending_key)
        && not (text_eq fresh.background_pending_key key)
      then ret tt
      else (let c = mark_background_failed now eid fresh in
          write (campaigns.update c) >> store_campaign_events store campaigns c)

  unfoldable pub fail_background : Uuid → Text → Err → Time → Uuid → M S (Unit {0})
  fail_background id key cause now eid =
      drop_key ports.delete_object key
      >> with_transaction store.commit
          (ask (campaigns.get id) >>= fail_fresh_background key now eid)
      >> fail_with cause

  -- The last transaction of Handle.
  unfoldable pub finish_background : Text → Text → Text → Time → Uuid → Campaign → M S (Unit {0})
  finish_background key thumb_key content_type now eid fresh =
      if not (text_eq fresh.background_pending_key key)
      then ret tt
      else save_campaign store campaigns
          (apply_background_ready thumb_key content_type now eid fresh)

  -- What is written as the type of a background.
  unfoldable pub background_type : Text → Campaign → Text → Text
  background_type raw_type c key =
      let ct = trim_space raw_type in
      if not (is_empty ct)
      then ct
      else if not (is_empty c.background_content_type)
      then c.background_content_type
      else codes "image/" ++ trim_dot (ext key)

  -- The reading of the file, up to its thumbnail.
  unfoldable pub make_thumbnail : ℤ → Text → S → Result (List ℕ)
  make_thumbnail size key s =
      if ltb_ℤ (pos max_background_bytes) size
      then err file_too_large
      else elim (ports.get_object key s) [
        | err e ↦ err e
        | ok body ↦
            let raw = take (max_background_bytes + 1) body in
            if ltb max_background_bytes (length raw)
            then err file_too_large
            else ports.generate_jpeg raw
      ]

  unfoldable pub put_background : Text → Text → Campaign → List ℕ → Time → Uuid → M S (Unit {0})
  put_background key raw_type c thumb now eid s =
      let thumb_key = new_background_thumbnail_key ports.text_of_uuid c.client_id c.id in
      elim (ports.put_thumbnail thumb_key thumb s) [
        | err e ↦ fail_background c.id key e now eid s
        | ok t ↦
            (drop_key ports.delete_object key
                >> with_transaction store.commit (
                    get_campaign store campaigns c.id
                    >>= finish_background key thumb_key (background_type raw_type c key) now eid))
              t
      ]

  unfoldable pub process_background :
      ℤ → Text → Text → Time → Uuid → Option Campaign → M S (Unit {0})
  process_background size raw_type key now eid none s = (ok tt, s)
  process_background size raw_type key now eid (some c) s = elim (make_thumbnail size key s) [
    | err e ↦ fail_background c.id key e now eid s
    | ok thumb ↦ put_background key raw_type c thumb now eid s
  ]

  -- ProcessBackgroundUploadHandler.Handle
  unfoldable pub process_background_upload : Text → Text → ℤ → Time → Uuid → M S (Unit {0})
  process_background_upload raw_key raw_type size now eid =
      let key = trim_space raw_key in
      if is_empty key || is_thumbnail_object_key key
      then ret tt
      else if contains key (codes "/contents/") || contains key (codes "/media/")
      then ret tt
      else (reporting (new_error (codes "failed to get campaign"))
            (ask (campaigns.get_by_background_pending_key key))
          >>= process_background size raw_type key now eid)
