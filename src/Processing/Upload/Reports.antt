-- ===== src/Processing/Upload/Reports.antt =====
-- An upload that is reported leaves its media processing or failed.
use notai_api.Analysis.Completion.{IsReliable}
use notai_api.Analysis.Finalize.{IsLawful}
use notai_api.Base.{
  List, [], false, inl, inr, is_empty, refl, some, true, ℕ, ◌<◌, ◌∙◌, ◌∷◌, ◌≡◌, ◌⊎◌,
}
use notai_api.Base.Text.{Text, text_eq_iff, trim_space}
use notai_api.Base.Values.{Time, Uuid}
use notai_api.Database.{M, Store, and_then, ask, reporting}
use notai_api.Errors.{Err, Result-cases, err, failed_to_get_media, invalid_media_type, ok}
use notai_api.Media.Entity.{Media}
use notai_api.Media.Files.{is_media_object_key, new_thumbnail_key}
use notai_api.Media.Types.{MediaType, image, is_pending, other_type, video}
use notai_api.Processing.Ports.{Ports}
use notai_api.Processing.Receive.{ProcessUploadCommand, Received, receive}
use notai_api.Processing.Recover.Failing.{with_transaction-runs}
use notai_api.Processing.Upload.{
  accept_image, after_thumbnail, awaits, handle_image, handle_type, process_found, process_upload,
  put_thumbnail_of,
}
use notai_api.Processing.Upload.Settling.{
  IsAccepted, IsAccepted-moved, IsFaithful, IsRefused, accept_image-runs, fail_upload-runs,
  handle_video-runs,
}

nonempty-trim_space : (t : Text) → is_empty (trim_space t) ≡ false → is_empty t ≡ false
unfolding trim_space
nonempty-trim_space [] h = h
nonempty-trim_space (c ∷ t) h = refl

module _ {S : Type 0} (store : Store S) (ports : Ports S) (at : Time) (new_id : ℕ → Uuid) where
  module _ (law : IsLawful store) (live : IsReliable store) (faith : IsFaithful store ports) where
    -- A run that ends with the media accepted, or refused with the error that it reports.
    abbrev pub Settles : M S (Unit {0}) → S → Uuid → Received → Type 0
    Settles body s i r =
        (t : S) × (((body s ≡ (ok tt, t)) × IsAccepted store ports at new_id i r.size t)
          ⊎ ((e : Err) × (body s ≡ (err e, t)) × IsRefused store ports at new_id i e t))

    put_thumbnail_of-cases :
        (m : Media) (raw : List ℕ) (s : S)
        → ((e : Err) × (put_thumbnail_of store ports at new_id m raw s ≡ (err e, s)))
          ⊎ ((k : Text) × (u : S) × (put_thumbnail_of store ports at new_id m raw s ≡ (ok k, u))
              × (store.get_media m.id u ≡ store.get_media m.id s))
    unfolding put_thumbnail_of
    put_thumbnail_of-cases m raw s =
        let k = new_thumbnail_key ports.text_of_uuid m.client_id m.campaign_id m.id in
        elim (Result-cases (ports.generate_jpeg raw)) [
          | inl (e, p) ↦ inl (e, rw (put_thumbnail_of, p) refl)
          | inr (bytes, p) ↦ elim (Result-cases (ports.put_thumbnail k bytes s)) [
            | inl (e, q) ↦ inl (e, rw (put_thumbnail_of, p, q) refl)
            | inr (u, q) ↦
                inr (k, u, rw (put_thumbnail_of, p, q) refl, faith.kept_by_thumbnail m.id q)
          ]
        ]

    handle_image-Settles :
        (r : Received) (key : Text) (m : Media) (s : S)
        → 0 < m.id
        → is_empty (trim_space m.object_key) ≡ false
        → store.get_media m.id s ≡ ok (some m)
        → awaits key m ≡ true
        → Settles (handle_image store ports at new_id m key r) s m.id r
    unfolding handle_image after_thumbnail
    handle_image-Settles r key m s z n f a = elim (put_thumbnail_of-cases m r.raw s) [
      | inl (e, p) ↦
          let (t, q, g) = fail_upload-runs store ports at new_id law live faith key e m s f a in
          (t, inr (e, rw p q, g))
      | inr (k, u, p, kept) ↦
          let (t, o, g) =
            accept_image-runs store ports at new_id law live faith r key k m u z n (kept ∙ f) a in
          let body : M S (Unit {0}) = λ x.
            and_then (reporting failed_to_get_media (ask (store.get_media m.id)) x)
              (accept_image store ports at new_id key r k) in
          let b : body u ≡ (ok tt, t) = rw (kept ∙ f) o in
          let (v, w, same) = with_transaction-runs store law live body tt u t b in
          (
            v,
            inl (
              rw p w,
              IsAccepted-moved store ports at new_id law live faith m.id r.size t v (same m.id) g,
            ),
          )
    ]

    handle_type-Settles :
        (type : MediaType) (r : Received) (key : Text) (m : Media) (s : S)
        → 0 < m.id
        → is_empty (trim_space m.object_key) ≡ false
        → store.get_media m.id s ≡ ok (some m)
        → awaits key m ≡ true
        → Settles (handle_type store ports at new_id type m key r) s m.id r
    unfolding handle_type
    handle_type-Settles image r key m s z n f a = handle_image-Settles r key m s z n f a
    handle_type-Settles video r key m s z n f a =
        let (t, q, g) = handle_video-runs store ports at new_id law live faith r key m s f a in
        (t, inl (q, g))
    handle_type-Settles (other_type x) r key m s z n f a =
        let (t, q, g) =
          fail_upload-runs store ports at new_id law live faith key invalid_media_type m s f a in
        (t, inr (invalid_media_type, q, g))

    -- For a database and a storage that keep what they promise and statements that do not fail, a
    -- media object's key that is not blank, and a media that is found under it, has an id, and is
    -- waiting for its upload: ProcessUpload either passes the tests on the upload, reports no error
    -- and leaves the media processing with the size that was found; or it reports an error and leaves
    -- the media failed with that error's text.
    pub process_upload_lem :
        (cmd : ProcessUploadCommand) (m : Media) (s : S)
        → is_empty (trim_space (trim_space cmd.object_key)) ≡ false
        → is_media_object_key (trim_space cmd.object_key) ≡ true
        → store.get_media_by_key (trim_space cmd.object_key) s ≡ ok (some m)
        → 0 < m.id
        → is_pending m.status ≡ true
        → (t : S) × (((r : Received) × (receive ports cmd (trim_space cmd.object_key) m s ≡ ok r)
              × (process_upload store ports at new_id cmd s ≡ (ok tt, t))
              × IsAccepted store ports at new_id m.id r.size t)
            ⊎ ((e : Err) × (process_upload store ports at new_id cmd s ≡ (err e, t))
                × IsRefused store ports at new_id m.id e t))
    unfolding process_upload process_found
    process_upload_lem cmd m s n k f z w =
        let key = trim_space cmd.object_key in
        let a : awaits key m ≡ true = rw (w, faith.key_of_found f) ((text_eq_iff key key).1 refl) in
        let g = faith.found_by_key f in
        let l = nonempty-trim_space key n in
        let n' : is_empty (trim_space m.object_key) ≡ false = rw (faith.key_of_found f) n in
        elim (Result-cases (receive ports cmd key m s)) [
          | inl (e, p) ↦
              let (t, q, o) = fail_upload-runs store ports at new_id law live faith key e m s g a in
              (t, inr (e, rw (l, k, f, w, p) q, o))
          | inr (r, p) ↦
              let (t, ends) = handle_type-Settles m.media_type r key m s z n' g a in
              elim ends [
                | inl (q, o) ↦ (t, inl (r, p, rw (l, k, f, w, p) q, o))
                | inr (e, q, o) ↦ (t, inr (e, rw (l, k, f, w, p) q, o))
              ]
        ]
