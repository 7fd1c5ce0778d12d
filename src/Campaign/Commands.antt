-- ===== src/Campaign/Commands.antt =====
-- internal/application/command/campaign: the handlers. The time, the fresh UUIDs and the answer of the
-- quota handler are arguments. The state S is that of the database and of the object storage.
use notai_api.Analysis.Handler.{asserted}
use notai_api.Base.{
  List, Option, [], if◌then◌else◌, is_empty, map, none, some, suc, true, ℕ, ◌*◌, ◌++◌, ◌==◌, ◌^◌,
  ◌∷◌,
}
use notai_api.Base.Text.{Text, codes}
use notai_api.Base.Values.{Time, Uuid, uuid_nil}
use notai_api.Campaign.Entity.{apply_update, new_campaign, pull_events, soft_delete}
use notai_api.Campaign.Types.{Campaign}
use notai_api.Content.Entity.{Content}
use notai_api.Database.{
  DomainEvent, M, Store, ask, checked, fail_with, of_campaign, of_media, reporting, ret,
  with_transaction, write, ◌>>=◌, ◌>>◌,
}
use notai_api.Errors.{Err, Result, campaign_not_found, new_error}
use notai_api.Media.Entity.{
  Media, SoftDeleteObjectRef, pull_events as pull_media_events, soft_delete as soft_delete_media,
}

-- The repository of campaigns, and ListActiveByCampaignID of the media.
pub record Campaigns (S : Type 0) : Type 0 where
  pub get : Uuid → S → Result (Option Campaign)
  pub get_for_update : Uuid → S → Result (Option Campaign)
  pub get_by_background_pending_key : Text → S → Result (Option Campaign)
  pub save : Campaign → S → Result S
  pub update : Campaign → S → Result S
  pub list_active_by_campaign_id : Uuid → S → Result (List Media)
  -- DeleteThumbnail, whose error is only logged, and PresignedPutURL, of the object storage.
  pub delete_thumbnail : Text → S → S
  pub presigned_put_url : Text → S → Result Text

abbrev pub max_background_bytes : ℕ
max_background_bytes = 5 * 2 ^ 20

-- What the deletion tells of the files of a content.
unfoldable pub object_ref : Content → SoftDeleteObjectRef
object_ref c = record {
  object_key = c.object_key;
  thumbnail_key = elim c.thumbnail_key [ none ↦ [] | some k ↦ k ];
}

module _ {S : Type 0} (store : Store S) (campaigns : Campaigns S) where
  unfoldable pub store_campaign_events : Campaign → M S (Unit {0})
  unfolding pull_events
  store_campaign_events c = write (store.store_events (map of_campaign (pull_events c).1))

  unfoldable pub require_campaign : Option Campaign → M S Campaign
  require_campaign none = fail_with campaign_not_found
  require_campaign (some c) = ret c

  unfoldable pub get_campaign : Uuid → M S Campaign
  get_campaign id =
      reporting (new_error (codes "failed to get campaign")) (ask (campaigns.get id))
      >>= require_campaign

  unfoldable pub save_campaign : Campaign → M S (Unit {0})
  save_campaign c =
      reporting (new_error (codes "failed to update campaign")) (write (campaigns.update c))
      >> store_campaign_events c

  unfoldable pub create_campaign :
      Option (Uuid → S → Option Err)
      → Text
      → Uuid
      → Option Time
      → Option Time
      → Time
      → Uuid
      → Uuid
      → M S Campaign
  create_campaign quota name client start end now id eid =
      if is_empty name
      then fail_with (new_error (codes "name is required"))
      else if client == uuid_nil
      then fail_with (new_error (codes "clientId is required"))
      else (asserted store quota client
          >> ask (λ s. new_campaign name client start end now id eid)
          >>= λ c.
              reporting (new_error (codes "failed to create campaign")) (
                with_transaction store.commit (write (campaigns.save c) >> store_campaign_events c))
              >> ret (pull_events c).0)

  unfoldable pub update_campaign :
      Uuid → Text → Option Time → Option Time → Time → Uuid → M S (Unit {0})
  update_campaign id name start end now eid =
      if is_empty name
      then fail_with (new_error (codes "name is required"))
      else with_transaction store.commit (
          get_campaign id >>= λ c.
          checked (apply_update name start end now eid c) >>= save_campaign)

  unfoldable pub content_object_refs : Uuid → M S (List SoftDeleteObjectRef)
  content_object_refs media_id =
      reporting (new_error (codes "failed to list media contents"))
        (ask (store.list_by_media_id media_id))
      >>= λ cs. ret (map object_ref cs)

  -- The loop over the media, with the events that it appends.
  unfoldable pub delete_medias :
      (Uuid → Text) → Time → (ℕ → Uuid) → List Media → M S (List DomainEvent)
  delete_medias str now new_id [] = ret []
  delete_medias str now new_id (m ∷ ms) = content_object_refs m.id >>= λ refs.
      let m' = soft_delete_media str refs true now (new_id 0) m in
      reporting (new_error (codes "failed to delete campaign medias"))
        (write (store.update_media m'))
      >> delete_medias str now (λ n. new_id (suc n)) ms
      >>= λ es. ret (map of_media (pull_media_events m').1 ++ es)

  -- What is done with the campaign once it is deleted.
  unfoldable pub delete_with_medias : (Uuid → Text) → Time → (ℕ → Uuid) → Campaign → M S (Unit {0})
  delete_with_medias str now new_id c =
      reporting (new_error (codes "failed to delete campaign")) (write (campaigns.update c))
      >> reporting (new_error (codes "failed to list campaign medias"))
          (ask (campaigns.list_active_by_campaign_id c.id))
      >>= delete_medias str now new_id
      >>= λ es. write (store.store_events (map of_campaign (pull_events c).1 ++ es))

  unfoldable pub delete_campaign : (Uuid → Text) → Uuid → Time → Uuid → (ℕ → Uuid) → M S (Unit {0})
  delete_campaign str id now eid new_id = with_transaction store.commit (
      reporting (new_error (codes "failed to get campaign")) (ask (campaigns.get_for_update id))
      >>= require_campaign
      >>= λ c. checked (soft_delete now eid c) >>= delete_with_medias str now new_id)
