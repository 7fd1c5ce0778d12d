-- ===== src/Processing/Presign.antt =====
-- internal/application/command/media/presign_media.go, and the choice of the handler for an upload,
-- internal/application/command/mediaupload. `at` is what time.Now()
-- answers and `new_id` numbers the UUIDs of a call: two for each file.
pub mod Files
use notai_api.Account.Members.{required}
use notai_api.Analysis.Handler.{save_media}
use notai_api.Base.{
  List, Option, [], if◌then◌else◌, is_empty, length, map, none, not, some, ℕ, ◌*◌, ◌++◌, ◌+◌, ◌==◌,
  ◌||◌, ◌∷◌,
}
use notai_api.Base.Int.{ℤ}
use notai_api.Base.Text.{Text, codes, trim_space}
use notai_api.Base.Values.{Time, Uuid}
use notai_api.Campaign.Commands.{get_campaign}
use notai_api.Campaign.Types.{Campaign}
use notai_api.Database.{
  DomainEvent, M, Store, ask, fail_with, of_media, reporting, ret, with_transaction, write, ◌>>=◌,
  ◌>>◌,
}
use notai_api.Errors.{Result, err, new_error}
use notai_api.Media.Entity.{Media, new_pending_upload, pull_events}
use notai_api.Media.Files.{is_frame_object_key, is_media_object_key, is_thumbnail_object_key}
use notai_api.Media.Lifecycle.{upload}
use notai_api.Media.Types.{MediaType, failed}
use notai_api.Messaging.Relay.{store_events}
use notai_api.Processing.Extract.{usage_of}
use notai_api.Quota.Types.{QuotaUsageView}
use notai_api.Quota.Usage.{found}
use notai_api.Processing.Presign.Files.{PresignFileInput, batch_fits, normalize_files}

pub record PresignMediaCommand : Type 0 where
  pub campaign_id : Uuid
  pub client_id : Uuid
  pub files : List PresignFileInput

pub record PresignMediaItem : Type 0 where
  pub media_id : Uuid
  pub url : Text
  pub object_key : Text
  pub filename : Text
  pub media_type : MediaType

-- Get and GetDefaultByClientID of the campaigns, Save of the media, PresignedPutURL, the usage of the
-- quota, which is none where the handler has no quota handler, and the text of a UUID.
pub record PresignPorts (S : Type 0) : Type 0 where
  pub get_campaign : Uuid → S → Result (Option Campaign)
  pub get_default_campaign : Uuid → S → Result (Option Campaign)
  pub save_media : Media → S → Result S
  pub presigned_put_url : Text → S → Result Text
  pub usage : Option (Uuid → S → Result QuotaUsageView)
  pub text_of_uuid : Uuid → Text

module _ {S : Type 0} (store : Store S) (ports : PresignPorts S) (at : Time)
    (new_id : ℕ → Uuid) where
  abbrev own_campaign : Uuid → Option Campaign → M S Campaign
  own_campaign client none = fail_with (new_error (codes "campaign not found"))
  own_campaign client (some c) =
      if not (c.client_id == client)
      then fail_with (new_error (codes "campaign not found"))
      else ret c

  unfoldable pub resolve_campaign : Uuid → Uuid → M S Campaign
  resolve_campaign campaign client =
      let get =
        if campaign == 0 then ports.get_default_campaign client else ports.get_campaign campaign in
      reporting (new_error (codes "failed to get campaign")) (ask get) >>= own_campaign client

  -- The loop of the transaction from the n-th file on; it collects the media and their events.
  unfoldable pub create_medias :
      Uuid → Uuid → ℕ → List PresignFileInput → M S (List Media × List DomainEvent)
  unfolding pull_events
  create_medias campaign client n [] = ret ([], [])
  create_medias campaign client n (f ∷ fs) =
      let rest = create_medias campaign client (n + 1) fs in
      ask (λ s.
        new_pending_upload ports.text_of_uuid campaign client f.filename f.content_type at
          (new_id (2 * n)) (new_id (2 * n + 1)))
      >>= λ m.
          reporting (new_error (codes "failed to create media")) (write (ports.save_media m))
          >> rest
          >>= λ r. ret ((pull_events m).0 ∷ r.0, map of_media (pull_events m).1 ++ r.1)

  -- The transaction of Handle.
  unfoldable pub create_all : PresignMediaCommand → List PresignFileInput → M S (List Media)
  create_all cmd files = with_transaction store.commit (
      resolve_campaign cmd.campaign_id cmd.client_id >>= λ c.
      create_medias c.id cmd.client_id 0 files >>= λ r. write (store.store_events r.1) >> ret r.0)

  unfoldable pub presign_item : Media → M S PresignMediaItem
  presign_item m =
      reporting (new_error (codes "failed to generate upload url"))
        (ask (ports.presigned_put_url m.object_key))
      >>= λ url. ret (record {
        media_id = m.id;
        url = url;
        object_key = m.object_key;
        filename = m.filename;
        media_type = m.media_type;
      })

  unfoldable pub presign_items : List Media → M S (List PresignMediaItem)
  presign_items [] = ret []
  presign_items (m ∷ ms) =
      let rest = presign_items ms in presign_item m >>= λ i. rest >>= λ is. ret (i ∷ is)

  -- PresignMediaHandler.Handle, but for the id of the campaign, which is that of the first media.
  unfoldable pub presign_media : PresignMediaCommand → M S (List PresignMediaItem)
  presign_media cmd s =
      let usage = usage_of ports.usage cmd.client_id s in
      let body : M S (List PresignMediaItem) =
        ask (λ s. batch_fits usage (length cmd.files))
        >> ask (λ s. normalize_files usage cmd.files)
        >>= create_all cmd
        >>= presign_items in
      if is_empty cmd.files then (err (new_error (codes "files are required")), s) else body s

-- ObjectCreatedDispatcher.Handle over the two handlers.
unfoldable pub dispatch_object_created :
    {A : Type 0} → (Text → Text → ℤ → A) → (Text → Text → ℤ → A) → A → Text → Text → ℤ → A
unfolding trim_space is_thumbnail_object_key is_frame_object_key is_media_object_key
dispatch_object_created media background nothing object_key content_type size =
    let key = trim_space object_key in
    if is_empty key
    then nothing
    else if is_thumbnail_object_key key || is_frame_object_key key
    then nothing
    else if is_media_object_key key
    then media key content_type size
    else background key content_type size
