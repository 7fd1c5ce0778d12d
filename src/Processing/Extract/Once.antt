-- ===== src/Processing/Extract/Once.antt =====
-- The frames of a video are extracted once.
use notai_api.Analysis.Finalize.{Replaces, stamped}
use notai_api.Base.{
  Bool-cases, List, [], ap, arith, false, inl, inr, is_empty, map, not, refl, some, subst, sym,
  true, ℕ, ◌==◌, ◌||◌, ◌∙◌, ◌∷◌, ◌≡◌, ◌⊎◌,
}
use notai_api.Base.Int.{ℤ}
use notai_api.Base.Values.{Time, Uuid}
use notai_api.Content.Entity.{Content}
use notai_api.Database.{
  M, Store, ask, checked, fail_with, of_media, ret, with_transaction, write, ◌>>=◌, ◌>>◌,
}
use notai_api.Database.Runs.{
  Runs, and_then-Runs, checked-Runs, chosen-Runs, end-of, fails-not, settled-Runs, value-of,
  write-Runs,
}
use notai_api.Errors.{Err, Result, Result-cases, err, ok}
use notai_api.Media.Entity.{Media, pull_events}
use notai_api.Media.Transitions.{start_processing}
use notai_api.Media.Types.{is_processing, is_uploaded}
use notai_api.Processing.Extract.{
  ExtractPorts, ExtractedFrame, ensure_processing, extract_downloaded, extract_found,
  extract_frames, extract_from, extract_limited, extract_sampled, extract_unless, fail_extraction,
  fail_open, is_video_not_allowed, resolve_max_frames, usage_of, wants_frames,
}
use notai_api.Processing.Extract.Saving.{HasContents, KeepsContents, SameMedia, store_frames-Runs}
use notai_api.Processing.Recover.{save_with}

module _ {S : Type 0} {store : Store S} {xs : ExtractPorts S} (at : Time) (new_id : ℕ → Uuid)
    (law : KeepsContents store xs) where
  fail_extraction-fails :
      (i : Uuid) (cause : Err) (s t : S) {x : Unit {0}}
      → Runs (fail_extraction store xs at new_id i cause) s x t
      → ⊥
  unfolding fail_extraction
  fail_extraction-fails i cause s t h =
      let body = ask (store.get_media i) >>= fail_open store xs at new_id cause in
      let (a, u, p, q) =
        and_then-Runs (with_transaction store.commit body s) (λ a. fail_with cause) h in
      fails-not q

  extract_sampled-Runs :
      (m : Media) (r : Result (List ExtractedFrame)) {s t : S} {x : Unit {0}} {fresh : Media}
      → ((fs : List ExtractedFrame) → r ≡ ok fs → is_empty fs ≡ false)
      → store.get_media m.id s ≡ ok (some fresh)
      → Runs (extract_sampled store xs at new_id m r) s x t
      → SameMedia store s t × HasContents store m.id t
  unfolding extract_sampled
  extract_sampled-Runs m (err e) {s} {t} k seen h = absurd (fail_extraction-fails m.id e s t h)
  extract_sampled-Runs m (ok fs) k seen h = store_frames-Runs at new_id law m fs (k fs refl) seen h

  extract_downloaded-Runs :
      (m : Media) (n : ℤ) (r : Result (List ℕ)) {s t : S} {x : Unit {0}} {fresh : Media}
      → store.get_media m.id s ≡ ok (some fresh)
      → Runs (extract_downloaded store xs at new_id m n r) s x t
      → SameMedia store s t × HasContents store m.id t
  unfolding extract_downloaded
  extract_downloaded-Runs m n (err e) {s} {t} seen h = absurd (fail_extraction-fails m.id e s t h)
  extract_downloaded-Runs m n (ok body) seen h =
      extract_sampled-Runs m (xs.extract body n) (λ fs. law.samples) seen h

  extract_limited-Runs :
      (m : Media) (r : Result ℤ) {s t : S} {x : Unit {0}} {fresh : Media}
      → store.get_media m.id s ≡ ok (some fresh)
      → Runs (extract_limited store xs at new_id m r) s x t
      → SameMedia store s t × HasContents store m.id t
  unfolding extract_limited
  extract_limited-Runs m (err e) {s} {t} seen h = elim (Bool-cases (is_video_not_allowed e)) [
    | inl b ↦ absurd (fail_extraction-fails m.id e s t (rw b at h))
    | inr b ↦ absurd (fails-not (rw b at h))
  ]
  extract_limited-Runs m (ok n) {s} seen h =
      extract_downloaded-Runs m n (xs.ports.get_object m.object_key s) seen h

  start_processing-processing :
      (m : Media)
      → is_uploaded m.status ≡ true
      → let n = (start_processing at (new_id 0) (new_id 1) m).0 in
        Replaces n m × (n.media_type ≡ m.media_type) × (is_processing n.status ≡ true)
  unfolding start_processing
  start_processing-processing m h = ground arith

  save_with-Runs :
      (n m : Media) (s t : S) {x : Unit {0}}
      → store.get_media m.id s ≡ ok (some m)
      → Replaces n m
      → Runs (save_with store [] n) s x t
      → (u : Time) × (store.get_media m.id t ≡ ok (some (stamped u n)))
  unfolding save_with pull_events
  save_with-Runs n m s t f r h =
      let es = map of_media n.events in
      let (a, u, p, q) =
        and_then-Runs (write (store.update_media n) s) (λ a. write (store.store_events es)) h in
      let (v, k) = law.lawful.found_updated f r (write-Runs (store.update_media n) p) in
      (v, law.lawful.kept_by_outbox m.id (write-Runs (store.store_events es) q) ∙ k)

  abbrev IsUnderWay : Media → S → Type 0
  IsUnderWay m t =
      (d : Media) × (store.get_media m.id t ≡ ok (some d))
      × (is_processing d.status ≡ true)
      × (d.media_type ≡ m.media_type)

  ensure_processing-Runs :
      (m : Media) {s t : S} {n : Media}
      → store.get_media m.id s ≡ ok (some m)
      → (is_processing m.status || is_uploaded m.status) ≡ true
      → Runs (ensure_processing store xs at new_id m) s n t
      → (n.id ≡ m.id) × IsUnderWay m t
  unfolding ensure_processing with_transaction
  ensure_processing-Runs m {s} {t} seen k h =
      let start = checked (start_processing at (new_id 0) (new_id 1) m) in
      let tx : Media → M S Media =
        λ m'. with_transaction store.commit (save_with store [] m') >> ret m' in
      elim (chosen-Runs (not (is_uploaded m.status)) (ret m) (start >>= tx) h) [
        | inl (b, h') ↦ (
          ap (λ (d : Media). d.id) (sym (value-of h')),
          (m, cc (seen, end-of h'), ground (arith, b, k), refl),
        )
        | inr (b, h') ↦
            let (same_row, same_type, moved) = start_processing-processing m (ground (arith, b)) in
            let (m', s1, p, q) = and_then-Runs (start s) tx h' in
            let (o, r) = checked-Runs (start_processing at (new_id 0) (new_id 1) m) p in
            let (x, s2, q1, q2) =
              and_then-Runs (with_transaction store.commit (save_with store [] m') s1) (λ x. ret m')
                q in
            let (s3, r1, r2) = settled-Runs store.commit (save_with store [] m' s1) s1 q1 in
            let back : Replaces m' m = subst (λ d. Replaces d m) o same_row in
            let (v, k') = save_with-Runs m' m s1 s3 (cc (seen, r)) back r1 in
            let got = law.lawful.kept_by_commit m.id r2 ∙ k' in
            let of_start = ap (λ (d : Media). d.id) o in
            let of_n = ap (λ (d : Media). d.id) (value-of q2) in
            let same : m'.id ≡ m.id = cc (of_start, same_row.0) in
            (
              cc (same, of_n),
              (
                stamped v m',
                cc (got, end-of q2),
                cc (ap (λ (d : Media). is_processing d.status) o, moved),
                cc (ap (λ (d : Media). d.media_type) o, same_type),
              ),
            )
      ]

  abbrev IsDone : Media → S → Type 0
  IsDone m t = IsUnderWay m t × HasContents store m.id t

  extract_started-Runs :
      (m n : Media) (s : S) {t : S} {x : Unit {0}}
      → n.id ≡ m.id
      → IsUnderWay m s
      → Runs (ask (store.list_by_media_id n.id) >>= extract_unless store xs at new_id n) s x t
      → IsDone m t
  unfolding extract_unless extract_from
  extract_started-Runs m n s {t} same (d, got, k, l) h =
      elim (Result-cases (store.list_by_media_id n.id s)) [
        | inl (e, p) ↦ absurd (ground (arith, h, p))
        | inr (c ∷ cs, p) ↦
            let stays = end-of (rw p at h) in
            subst (IsDone m) stays ((d, got, k, l), (c, cs, cc (p, same)))
        | inr ([], p) ↦
            let limit = resolve_max_frames (usage_of xs.ports.usage n.client_id s) in
            let got' : store.get_media n.id s ≡ ok (some d) = cc (got, same) in
            let (kept, (c, cs, q)) = extract_limited-Runs n limit got' (rw p at h) in
            ((d, kept m.id ∙ got, k, l), (c, cs, cc (q, same)))
      ]

  extract_found-Runs :
      (m : Media) {s t : S} {x : Unit {0}}
      → store.get_media m.id s ≡ ok (some m)
      → Runs (extract_found store xs at new_id (some m)) s x t
      → ((wants_frames m ≡ false) × (s ≡ t)) ⊎ IsDone m t
  unfolding extract_found
  extract_found-Runs m {s} {t} seen h = elim (Bool-cases (wants_frames m)) [
    | inr b ↦ inl (b, end-of (rw b at h))
    | inl b ↦
        let go = λ (n : Media).
          ask (store.list_by_media_id n.id) >>= extract_unless store xs at new_id n in
        let (n, s1, p, q) =
          and_then-Runs (ensure_processing store xs at new_id m s) go (rw b at h) in
        let (same, under) = ensure_processing-Runs m seen (ground (arith, b)) p in
        inr (extract_started-Runs m n s1 same under q)
  ]

module _ {S : Type 0} {store : Store S} {xs : ExtractPorts S} (law : KeepsContents store xs) where
  extract_frames-found :
      (at : Time) (new_id : ℕ → Uuid) (i : Uuid) (d : Media) {t : S} {e : Content}
      {es : List Content}
      → store.get_media i t ≡ ok (some d)
      → (i == 0) ≡ false
      → is_processing d.status ≡ true
      → store.list_by_media_id d.id t ≡ ok (e ∷ es)
      → extract_frames store xs at new_id i t ≡ (ok tt, t)
  unfolding extract_frames extract_found ensure_processing extract_unless
  extract_frames-found at new_id i d {t} p z k l = ground (arith, p, z, k, l)

  -- If Handle, for an uploaded or processing video that the database has, answers without error, then
  -- the video is in processing and has a content, and Handle, whenever it is called again on what is
  -- left, answers without error and changes nothing. The database finds a media by its id and sees its
  -- updates, and a content of a media that is found from its Save on; a sampling without frames is an error.
  pub extract_frames-once :
      (at again : Time) (new_id fresh_id : ℕ → Uuid) (i : Uuid) (m : Media) {s t : S}
      → store.get_media i s ≡ ok (some m)
      → wants_frames m ≡ true
      → Runs (extract_frames store xs at new_id i) s tt t
      → (d : Media) × (c : Content) × (cs : List Content) × (store.get_media i t ≡ ok (some d))
        × (is_processing d.status ≡ true)
        × (store.list_by_media_id i t ≡ ok (c ∷ cs))
        × (extract_frames store xs again fresh_id i t ≡ (ok tt, t))
  unfolding extract_frames
  extract_frames-once at again new_id fresh_id i m {s} {t} seen wants h =
      elim (Bool-cases (i == 0)) [
        | inl z ↦ absurd (fails-not (rw z at h))
        | inr z ↦
            let same = law.lawful.id_of_found seen in
            elim (extract_found-Runs at new_id law m (cc (seen, same)) (rw (z, seen) at h)) [
              | inl (idle, stays) ↦ absurd (cc (idle, wants))
              | inr ((d, got, k, l), (c, cs, q)) ↦
                  let got' : store.get_media i t ≡ ok (some d) = cc (got, same) in
                  let of_d = law.lawful.id_of_found got' in
                  let q' : store.list_by_media_id d.id t ≡ ok (c ∷ cs) = cc (q, same, of_d) in
                  let nothing = extract_frames-found again fresh_id i d got' z k q' in
                  (d, c, cs, got', k, cc (q, same), nothing)
            ]
      ]
