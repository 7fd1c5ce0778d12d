-- ===== src/Processing/Upload/Settling.antt =====
-- The transactions of an upload, on a database that keeps its promises.
use notai_api.Analysis.Completion.{IsReliable}
use notai_api.Analysis.Finalize.{IsLawful, Replaces, stamped}
use notai_api.Base.{List, [], arith, false, is_empty, map, refl, some, true, ℕ, ◌++◌, ◌<◌, ◌∙◌, ◌≡◌}
use notai_api.Base.Int.{ℤ}
use notai_api.Base.Text.{Text, trim_space}
use notai_api.Base.Values.{Time, Uuid}
use notai_api.Content.Entity.{Content, at_least_0, pull_events as pull_content_events}
use notai_api.Database.{M, Store, and_then, ask, of_content, of_media, reporting}
use notai_api.Errors.{Err, err, failed_to_get_media, ok}
use notai_api.Media.Entity.{Media, pull_events as pull_media_events}
use notai_api.Media.Transitions.{mark_failed, mark_uploaded, start_processing}
use notai_api.Media.Types.{failed, is_pending, processing}
use notai_api.Processing.Ports.{Ports}
use notai_api.Processing.Receive.{Received}
use notai_api.Processing.Recover.Failing.{save_with-runs, with_transaction-runs}
use notai_api.Processing.Upload.{
  accept_image, accept_video, awaits, fail_upload, fail_upload_fresh, handle_video, save_image,
  start_upload,
}
use notai_api.Processing.Upload.Steps.{
  mark_failed-pending, mark_uploaded-ok, new_from_media-ok, start_processing-ok,
}

-- What the database and the storage promise beyond IsLawful and IsReliable: a media that is found by
-- its key has that key and is found by its id, contents can be saved, and neither that nor the storage
-- changes the media.
pub record IsFaithful {S : Type 0} (store : Store S) (ports : Ports S) : Type 0 where
  pub key_of_found :
      {k : Text} {s : S} {m : Media} → store.get_media_by_key k s ≡ ok (some m) → m.object_key ≡ k
  pub found_by_key :
      {k : Text} {s : S} {m : Media}
      → store.get_media_by_key k s ≡ ok (some m)
      → store.get_media m.id s ≡ ok (some m)
  pub saves : (c : Content) (s : S) → (t : S) × (store.save_content c s ≡ ok t)
  pub kept_by_save :
      (i : Uuid) {c : Content} {s t : S}
      → store.save_content c s ≡ ok t
      → store.get_media i t ≡ store.get_media i s
  pub kept_by_delete :
      (i : Uuid) (k : Text) (s : S)
      → store.get_media i (ports.delete_object k s) ≡ store.get_media i s
  pub kept_by_thumbnail :
      (i : Uuid) {k : Text} {bytes : List ℕ} {s t : S}
      → ports.put_thumbnail k bytes s ≡ ok t
      → store.get_media i t ≡ store.get_media i s

-- A media that awaits its upload is pending.
awaits-is_pending : (key : Text) (m : Media) → awaits key m ≡ true → is_pending m.status ≡ true
awaits-is_pending key m h = ground arith

module _ {S : Type 0} (store : Store S) (ports : Ports S) (at : Time) (new_id : ℕ → Uuid) where
  -- The media is found processing, with this size.
  abbrev pub IsAccepted : Uuid → ℤ → S → Type 0
  IsAccepted i size t =
      (m : Media) × (store.get_media i t ≡ ok (some m))
      × (m.status ≡ processing)
      × (m.size_bytes ≡ some (at_least_0 size))

  -- The media is found failed, with the text of this error.
  abbrev pub IsRefused : Uuid → Err → S → Type 0
  IsRefused i e t =
      (m : Media) × (store.get_media i t ≡ ok (some m))
      × (m.status ≡ failed)
      × (m.failure_reason ≡ trim_space (ports.text_of e))

  abbrev started : Received → Media → Media
  started r m =
      (start_processing at (new_id 1) (new_id 2)
        (mark_uploaded r.size r.content_type at (new_id 0) m).0).0

  start_upload-ok :
      (r : Received) (m : Media) (s : S)
      → is_pending m.status ≡ true
      → (start_upload store ports at new_id r m s ≡ (ok (started r m), s))
        × Replaces (started r m) m
        × ((started r m).object_key ≡ m.object_key)
        × ((started r m).status ≡ processing)
        × ((started r m).size_bytes ≡ some (at_least_0 r.size))
  unfolding start_upload
  start_upload-ok r m s h =
      let m1 = (mark_uploaded r.size r.content_type at (new_id 0) m).0 in
      let (p, i, k, u, z) = mark_uploaded-ok r.size r.content_type at (new_id 0) m h in
      let (q, i', k', u', z') = start_processing-ok at (new_id 1) (new_id 2) m1 u in
      let (i1, d1, c1, l1) = i in
      let (i2, d2, c2, l2) = i' in
      (rw (p, q) refl, (i2 ∙ i1, d2 ∙ d1, c2 ∙ c1, l2 ∙ l1), k' ∙ k, u', z' ∙ z)

  module _ (law : IsLawful store) (live : IsReliable store) (faith : IsFaithful store ports) where
    pub fail_upload-runs :
        (key : Text) (e : Err) (m : Media) (s : S)
        → store.get_media m.id s ≡ ok (some m)
        → awaits key m ≡ true
        → (t : S) × (fail_upload store ports at new_id m.id key e s ≡ (err e, t))
          × IsRefused m.id e t
    unfolding fail_upload fail_upload_fresh
    fail_upload-runs key e m s f a =
        let s' = ports.delete_object key s in
        let f' = faith.kept_by_delete m.id key s ∙ f in
        let m' = (mark_failed (ports.text_of e) at (new_id 0) m).0 in
        let (p, same, status, reason) =
          mark_failed-pending (ports.text_of e) at (new_id 0) m (awaits-is_pending key m a) in
        let (t, v, q, g) = save_with-runs store law live [] m' m s' f' same in
        let body : M S (Unit {0}) = λ u.
          and_then (ask (store.get_media m.id) u) (fail_upload_fresh store ports at new_id key e) in
        let b : body s' ≡ (ok tt, t) = rw (f', a, p, q) refl in
        let (u, r, k) = with_transaction-runs store law live body tt s' t b in
        (u, rw r refl, (stamped v m', k m.id ∙ g, status, reason))

    pub handle_video-runs :
        (r : Received) (key : Text) (m : Media) (s : S)
        → store.get_media m.id s ≡ ok (some m)
        → awaits key m ≡ true
        → (t : S) × (handle_video store ports at new_id m key r s ≡ (ok tt, t))
          × IsAccepted m.id r.size t
    unfolding handle_video accept_video
    handle_video-runs r key m s f a =
        let m' = started r m in
        let (p, same, k, status, size) = start_upload-ok r m s (awaits-is_pending key m a) in
        let (t, q) = live.updates m' s in
        let (u, o) = live.stores (map of_media (pull_media_events m').1) t in
        let body : M S (Unit {0}) = λ x.
          and_then (reporting failed_to_get_media (ask (store.get_media m.id)) x)
            (accept_video store ports at new_id key r) in
        let b : body s ≡ (ok tt, u) = rw (f, a, p, q, o) refl in
        let (v, w, kept) = with_transaction-runs store law live body tt s u b in
        let (x, g) = law.found_updated f same q in
        (v, w, (stamped x m', kept m.id ∙ law.kept_by_outbox m.id o ∙ g, status, size))

    pub accept_image-runs :
        (r : Received) (key thumbnail : Text) (m : Media) (s : S)
        → 0 < m.id
        → is_empty (trim_space m.object_key) ≡ false
        → store.get_media m.id s ≡ ok (some m)
        → awaits key m ≡ true
        → (t : S) × (accept_image store ports at new_id key r thumbnail (some m) s ≡ (ok tt, t))
          × IsAccepted m.id r.size t
    unfolding accept_image save_image
    accept_image-runs r key thumbnail m s z n f a =
        let m' = started r m in
        let (p, same, k, status, size) = start_upload-ok r m s (awaits-is_pending key m a) in
        let (c, made) =
          new_from_media-ok m'.id m'.campaign_id m'.client_id m'.object_key r.size thumbnail at
            (new_id 3) (new_id 4) (new_id 5) (rw same.0 z) (rw k n) in
        let (t, q) = live.updates m' s in
        let (u, o) = faith.saves c t in
        let es =
          map of_media (pull_media_events m').1 ++ map of_content (pull_content_events c).1 in
        let (v, w) = live.stores es u in
        let (x, g) = law.found_updated f same q in
        let found = law.kept_by_outbox m.id w ∙ faith.kept_by_save m.id o ∙ g in
        (v, rw (a, p, made, q, o, w) refl, (stamped x m', found, status, size))

    pub IsAccepted-moved :
        (i : Uuid) (size : ℤ) (t u : S)
        → store.get_media i u ≡ store.get_media i t
        → IsAccepted i size t
        → IsAccepted i size u
    IsAccepted-moved i size t u k (m, g, status, same) = (m, k ∙ g, status, same)
