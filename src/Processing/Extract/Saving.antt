-- ===== src/Processing/Extract/Saving.antt =====
-- What the extraction of frames leaves of the contents that it makes and saves.
use notai_api.Analysis.Finalize.{IsLawful}
use notai_api.Base.{
  List, Option, [], ap, arith, false, inl, inr, is_empty, length, map, some, subst, sym, ℕ, ◌*◌,
  ◌++◌, ◌+◌, ◌∙◌, ◌∷◌, ◌≡◌,
}
use notai_api.Base.Int.{pos, ℤ}
use notai_api.Base.Text.{Text}
use notai_api.Base.Values.{Time, Uuid}
use notai_api.Content.Entity.{Content, new_from_media, set_thumbnail_key}
use notai_api.Database.{DomainEvent, M, Store, ask, of_content, ret, with_transaction, write, ◌>>=◌}
use notai_api.Database.Runs.{Runs, and_then-Runs, end-of, settled-Runs, value-of, write-Runs}
use notai_api.Errors.{Result, Result-cases, ok}
use notai_api.Media.Entity.{Media}
use notai_api.Processing.Extract.{
  ExtractPorts, ExtractedFrame, accept_frames, make_frames, new_content_thumbnail_key,
  new_frame_object_key, put_frame, put_frame_thumbnail, save_frames, store_frames,
}

-- What this rests on: the promises on the media, that neither the object storage nor a new content
-- changes a media, that a content of a media
-- that is found is found by that media from its Save on, and that a sampling without
-- frames is an error.
pub record KeepsContents {S : Type 0} (store : Store S) (xs : ExtractPorts S) : Type 0 where
  pub lawful : IsLawful store
  pub kept_by_put :
      (i : Uuid) {k : Text} {b : List ℕ} {s t : S}
      → xs.put k b s ≡ ok t
      → store.get_media i t ≡ store.get_media i s
  pub kept_by_put_thumbnail :
      (i : Uuid) {k : Text} {b : List ℕ} {s t : S}
      → xs.ports.put_thumbnail k b s ≡ ok t
      → store.get_media i t ≡ store.get_media i s
  pub kept_by_save :
      (i : Uuid) {c : Content} {s t : S}
      → store.save_content c s ≡ ok t
      → store.get_media i t ≡ store.get_media i s
  pub saved :
      {c : Content} {m : Media} {s t : S}
      → store.get_media c.media_id s ≡ ok (some m)
      → store.save_content c s ≡ ok t
      → (d : Content) × (ds : List Content) × (store.list_by_media_id c.media_id t ≡ ok (d ∷ ds))
  pub listed_after_save :
      (i : Uuid) {c d : Content} {ds : List Content} {s t : S}
      → store.save_content c s ≡ ok t
      → store.list_by_media_id i s ≡ ok (d ∷ ds)
      → (e : Content) × (es : List Content) × (store.list_by_media_id i t ≡ ok (e ∷ es))
  pub listed_after_outbox :
      (i : Uuid) {es : List DomainEvent} {s t : S}
      → store.store_events es s ≡ ok t
      → store.list_by_media_id i t ≡ store.list_by_media_id i s
  pub listed_after_commit :
      (i : Uuid) {s t : S}
      → store.commit s ≡ ok t
      → store.list_by_media_id i t ≡ store.list_by_media_id i s
  pub samples :
      {body : List ℕ} {n : ℤ} {fs : List ExtractedFrame}
      → xs.extract body n ≡ ok fs
      → is_empty fs ≡ false

new_from_media-media_id :
    (media campaign client : Uuid) (key : Text) (frame ts : Option ℤ) (size : ℤ) (thumb : Text)
    (now : Time) (id e1 e2 : Uuid) {c : Content}
    → new_from_media media campaign client key frame ts size thumb now id e1 e2 ≡ ok c
    → c.media_id ≡ media
unfolding new_from_media
new_from_media-media_id media campaign client key frame ts size thumb now id e1 e2 h = ground arith

set_thumbnail_key-media_id :
    (k : Text) (now : Time) (c : Content) → (set_thumbnail_key k now c).media_id ≡ c.media_id
unfolding set_thumbnail_key
set_thumbnail_key-media_id k now c = ground arith

-- Contents of one media.
abbrev Belongs : Uuid → List Content → Type 0
Belongs i [] = Unit
Belongs i (c ∷ cs) = (c.media_id ≡ i) × Belongs i cs

module _ {S : Type 0} (store : Store S) where
  abbrev pub HasContents : Uuid → S → Type 0
  HasContents i s = (c : Content) × (cs : List Content) × (store.list_by_media_id i s ≡ ok (c ∷ cs))

  abbrev pub SameMedia : S → S → Type 0
  SameMedia s t = (i : Uuid) → store.get_media i t ≡ store.get_media i s

module _ {S : Type 0} {store : Store S} {xs : ExtractPorts S} (at : Time) (new_id : ℕ → Uuid)
    (law : KeepsContents store xs) where
  put_frame-Runs :
      (m : Media) (n : ℕ) (f : ExtractedFrame) {s t : S} {c : Content}
      → Runs (put_frame store xs at new_id m n f) s c t
      → SameMedia store s t × (c.media_id ≡ m.id)
  unfolding put_frame
  put_frame-Runs m n f {s} h =
      let key = new_frame_object_key xs.ports.text_of_uuid m.client_id m.campaign_id m.id f.index in
      elim (Result-cases (xs.put key f.jpeg_bytes s)) [
        | inl (e, p) ↦ absurd (ground (arith, h, p))
        | inr (u, p) ↦ (
          λ i. cc (end-of (rw p at h), law.kept_by_put i p),
          new_from_media-media_id m.id m.campaign_id m.client_id key (some f.index)
              (some f.timestamp_ms) (pos (length f.jpeg_bytes)) [] at (new_id (3 * n))
              (new_id (3 * n + 1)) (new_id (3 * n + 2))
              (ap (λ (r : Result Content × S). r.0) (rw p at h)),
        )
      ]

  put_frame_thumbnail-Runs :
      (m : Media) (f : ExtractedFrame) (c : Content) {s t : S} {d : Content}
      → Runs (put_frame_thumbnail store xs at new_id m f c) s d t
      → SameMedia store s t × (d.media_id ≡ c.media_id)
  unfolding put_frame_thumbnail
  put_frame_thumbnail-Runs m f c {s} h =
      let key = new_content_thumbnail_key xs.ports.text_of_uuid m.client_id m.campaign_id c.id in
      elim (Result-cases (xs.ports.put_thumbnail key f.jpeg_bytes s)) [
        | inl (e, p) ↦ absurd (ground (arith, h, p))
        | inr (u, p) ↦ (
          λ i. cc (end-of (rw p at h), law.kept_by_put_thumbnail i p),
          cc (
            ap (λ (d : Content). d.media_id) (value-of (rw p at h)),
            set_thumbnail_key-media_id key at c,
          ),
        )
      ]

  make_frames-Runs :
      (m : Media) (n : ℕ) (fs : List ExtractedFrame) {s t : S} {cs : List Content}
      → Runs (make_frames store xs at new_id m n fs) s cs t
      → SameMedia store s t × (is_empty cs ≡ is_empty fs) × Belongs m.id cs
  unfolding make_frames
  make_frames-Runs m n [] h =
      (λ i. cc (end-of h), ground (arith, h), subst (Belongs m.id) (value-of h) tt)
  make_frames-Runs m n (f ∷ fs) {s} h =
      let rest = make_frames store xs at new_id m (n + 1) fs in
      let put = put_frame store xs at new_id m n f in
      let thumb = put_frame_thumbnail store xs at new_id m f in
      let (c, s1, p, q) = and_then-Runs ((put >>= thumb) s) (λ c. rest >>= λ cs. ret (c ∷ cs)) h in
      let (d, s2, p1, p2) = and_then-Runs (put s) thumb p in
      let (ds, s3, q1, q2) = and_then-Runs (rest s1) (λ cs. ret (c ∷ cs)) q in
      let (same1, of1) = put_frame-Runs m n f p1 in
      let (same2, of2) = put_frame_thumbnail-Runs m f d p2 in
      let (same, left, all) = make_frames-Runs m (n + 1) fs q1 in
      (
        λ i. cc (end-of q2, same i, same1 i, same2 i),
        cc (ap is_empty (value-of q2)),
        subst (Belongs m.id) (value-of q2) (of2 ∙ of1, all),
      )

  save_frames-Runs :
      (cs : List Content) {s t : S} {es : List DomainEvent} {m : Media}
      → store.get_media m.id s ≡ ok (some m)
      → Runs (save_frames store xs at new_id cs) s es t
      → SameMedia store s t
        × ((i : Uuid) → HasContents store i s → HasContents store i t)
        × (is_empty cs ≡ false → Belongs m.id cs → HasContents store m.id t)
  unfolding save_frames
  save_frames-Runs [] f h =
      (λ i. cc (end-of h), λ i k. subst (HasContents store i) (end-of h) k, λ k b. cc)
  save_frames-Runs (c ∷ cs) {s} {m = m} found h =
      let rest = save_frames store xs at new_id cs in
      let f : List DomainEvent → M S (List DomainEvent) =
        λ events. ret (map of_content c.events ++ events) in
      let (u, s1, p, q) = and_then-Runs (write (store.save_content c) s) (λ a. rest >>= f) h in
      let w = write-Runs (store.save_content c) p in
      let (es, s2, q1, q2) = and_then-Runs (rest s1) f q in
      let (same, keeps, some_saved) = save_frames-Runs cs (law.kept_by_save m.id w ∙ found) q1 in
      let after : (i : Uuid) → HasContents store i s2 → HasContents store i _ =
        λ i k. subst (HasContents store i) (end-of q2) k in
      (
        λ i. cc (end-of q2, same i, law.kept_by_save i w),
        λ i (d, ds, k). after i (keeps i (law.listed_after_save i w k)),
        λ k b.
            let of_m : store.get_media c.media_id s ≡ ok (some m) = cc (found, b.0) in
            after m.id
              (keeps m.id (subst (λ (j : Uuid). HasContents store j s1) b.0 (law.saved of_m w))),
      )

  accept_frames-Runs :
      (cs : List Content) (m : Media) {s t : S} {x : Unit {0}}
      → store.get_media m.id s ≡ ok (some m)
      → is_empty cs ≡ false
      → Belongs m.id cs
      → Runs (accept_frames store xs at new_id cs (some m)) s x t
      → SameMedia store s t × HasContents store m.id t
  unfolding accept_frames
  accept_frames-Runs cs m {s} found k b h = elim (Result-cases (store.list_by_media_id m.id s)) [
    | inl (e, p) ↦ absurd (ground (arith, h, p))
    | inr (d ∷ ds, p) ↦
        let same = end-of (rw p at h) in
        (λ i. cc same, subst (HasContents store m.id) same (d, ds, p))
    | inr ([], p) ↦
        let f : List DomainEvent → M S (Unit {0}) = λ events. write (store.store_events events) in
        let (es, s1, q1, q2) = and_then-Runs (save_frames store xs at new_id cs s) f (rw p at h) in
        let (same, keeps, some_saved) = save_frames-Runs cs found q1 in
        let w = write-Runs (store.store_events es) q2 in
        let (d, ds, p') = some_saved k b in
        (
          λ i. cc (same i, law.lawful.kept_by_outbox i w),
          (d, ds, law.listed_after_outbox m.id w ∙ p'),
        )
  ]

  pub store_frames-Runs :
      (m : Media) (fs : List ExtractedFrame) {s t : S} {x : Unit {0}} {fresh : Media}
      → is_empty fs ≡ false
      → store.get_media m.id s ≡ ok (some fresh)
      → Runs (store_frames store xs at new_id m fs) s x t
      → SameMedia store s t × HasContents store m.id t
  unfolding store_frames with_transaction
  store_frames-Runs m fs {s} {t} {x} {fresh} k seen h =
      let tx : List Content → M S (Unit {0}) = λ created.
        with_transaction store.commit
          (ask (store.get_media m.id) >>= accept_frames store xs at new_id created) in
      let (cs, s1, q1, q2) = and_then-Runs (make_frames store xs at new_id m 0 fs s) tx h in
      let (same1, left, of_m) = make_frames-Runs m 0 fs q1 in
      let get = same1 m.id ∙ seen in
      let accept = accept_frames store xs at new_id cs in
      let (s2, r1, r2) =
        settled-Runs store.commit ((ask (store.get_media m.id) >>= accept) s1) s1 q2 in
      let i = law.lawful.id_of_found get in
      let (same2, has) =
        accept_frames-Runs cs fresh (cc (get, i)) (left ∙ k)
          (subst (λ (j : Uuid). Belongs j cs) (sym i) of_m) (rw get at r1) in
      let (d, ds, p) = subst (λ (j : Uuid). HasContents store j s2) i has in
      (
        λ j. cc (same1 j, same2 j, law.lawful.kept_by_commit j r2),
        (d, ds, law.listed_after_commit m.id r2 ∙ p),
      )
