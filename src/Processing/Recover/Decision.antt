-- ===== src/Processing/Recover/Decision.antt =====
-- requeueMedia: what it reports, and the status it leaves.
use notai_api.Analysis.Completion.{IsReliable, validate_label-aggregate}
use notai_api.Analysis.Finalize.{IsLawful, Replaces, stamped}
use notai_api.Analysis.MediaVerdict.{aggregate_media_verdict}
use notai_api.Base.{
  Bool, Bool-cases, List, [], all_of, any_of, arith, if◌then◌else◌, inl, inr, is_empty, length, ltb,
  none, refl, some, subst, sym, true, ℕ, ◌&&◌, ◌||◌, ◌∙◌, ◌∷◌, ◌≡◌,
}
use notai_api.Base.Values.{Time, Uuid}
use notai_api.Content.Entity.{
  Content, is_terminal, is_uploaded as is_content_uploaded, validate_label,
}
use notai_api.Database.{DomainEvent, M, Store, and_then, ask, ret, write, ◌>>◌}
use notai_api.Errors.{ok}
use notai_api.Media.Entity.{Media}
use notai_api.Media.Transitions.{
  mark_failed as mark_media_failed, render_global_verdict, requeue_uploaded, touch,
}
use notai_api.Media.Types.{
  MediaType, Status, Verdict, analyzed, failed, is_processing, is_video, processing,
}
use notai_api.Processing.Recover.{
  Sweep, is_stuck, requeue_after, requeue_empty, requeue_fresh, requeue_media, requeue_over,
  save_with, stale_fail_reason,
}
use notai_api.Processing.Recover.Failing.{
  mark_media_failed-ok, save_with-runs, with_transaction-runs,
}
use notai_api.Processing.Recover.Requeue.{is_loaded, requeue_contents_lem}

is_processing-eq : (m : Media) → is_processing m.status ≡ true → m.status ≡ processing
is_processing-eq m h = ground arith

requeue_uploaded-ok :
    (at : Time) (eid : Uuid) (m : Media)
    → is_processing m.status ≡ true
    → let m' = (requeue_uploaded at eid m).0 in
      (requeue_uploaded at eid m ≡ (m', none)) × Replaces m' m × (m'.status ≡ processing)
unfolding requeue_uploaded
requeue_uploaded-ok at eid m h = ground arith

render_global_verdict-runs :
    (v : Verdict) (at : Time) (eid : Uuid) (m : Media)
    → validate_label v.label ≡ none
    → is_processing m.status ≡ true
    → let m' = (render_global_verdict v at eid m).0 in
      (render_global_verdict v at eid m ≡ (m', none)) × Replaces m' m × (m'.status ≡ analyzed)
unfolding render_global_verdict
render_global_verdict-runs v at eid m l h = ground arith

module _ {S : Type 0} (store : Store S) (law : IsLawful store) (live : IsReliable store) where
  module _ (at : Time) (new_id : ℕ → Uuid) (stale_before : Time) where
    -- A content that is uploaded, and was last changed before the limit.
    abbrev pub has_waited : Content → Bool
    has_waited c = is_content_uploaded c.status && ltb c.updated_at stale_before

    -- What requeueMedia reports, and the status it leaves.
    abbrev pub is_requeued : List Content → Bool
    is_requeued cs = is_empty cs || all_of is_terminal cs || any_of has_waited cs

    abbrev pub status_after : MediaType → List Content → Status
    status_after t cs =
        if is_empty cs
        then if is_video t then processing else failed
        else if all_of is_terminal cs
        then analyzed
        else processing

    -- The transaction's body ends with this report, and with the media in this status.
    abbrev pub Settles : M S Bool → S → Uuid → Bool → Status → Type 0
    Settles body s i b status =
        (t : S) × (m : Media) × (body s ≡ (ok b, t))
        × (store.get_media i t ≡ ok (some m))
        × (m.status ≡ status)

    save_with-Settles :
        (es : List DomainEvent) (n m : Media) (status : Status) (s : S)
        → store.get_media m.id s ≡ ok (some m)
        → Replaces n m
        → n.status ≡ status
        → Settles (save_with store es n >> ret true) s m.id true status
    save_with-Settles es n m status s f h e =
        let (t, u, p, g) = save_with-runs store law live es n m s f h in
        (t, stamped u n, rw p refl, g, e)

    requeue_empty-Settles :
        (m : Media) (s : S)
        → is_processing m.status ≡ true
        → store.get_media m.id s ≡ ok (some m)
        → Settles (requeue_empty store at new_id m) s m.id true (status_after m.media_type [])
    unfolding requeue_empty
    requeue_empty-Settles m s h f = elim (Bool-cases (is_video m.media_type)) [
      | inl e ↦
          let (r, same, status) = requeue_uploaded-ok at (new_id 0) m h in
          let m' = (requeue_uploaded at (new_id 0) m).0 in
          rw (e, r) (save_with-Settles [] m' m processing s f same status)
      | inr e ↦
          let (r, same, status, reason) =
            mark_media_failed-ok stale_fail_reason at (new_id 0) m h in
          let m' = (mark_media_failed stale_fail_reason at (new_id 0) m).0 in
          rw (e, r) (save_with-Settles [] m' m failed s f same status)
    ]

    touched-Settles :
        (now : Time) (m : Media) (es : List DomainEvent) (s : S)
        → is_processing m.status ≡ true
        → store.get_media m.id s ≡ ok (some m)
        → Settles
            (write (store.update_media (touch now at m))
              >> write (store.store_events es)
              >> ret true)
            s
            m.id
            true
            processing
    unfolding touch
    touched-Settles now m es s h f =
        let m' = touch now at m in
        let (t, p) = live.updates m' s in
        let (u, q) = live.stores es t in
        let (v, k) = law.found_updated f (refl, refl, refl, refl) p in
        (u, stamped v m', rw p (rw q refl), law.kept_by_outbox m.id q ∙ k, is_processing-eq m h)

    requeue_after-Settles :
        (now : Time) (c : Content) (cs : List Content) (m : Media) (w : Sweep) (s : S)
        → is_processing m.status ≡ true
        → store.get_media m.id s ≡ ok (some m)
        → w.all_terminal ≡ all_of is_terminal (c ∷ cs)
        → w.did_work ≡ any_of (is_stuck stale_before) (c ∷ cs)
        → Settles
            (requeue_after store at new_id now (c ∷ cs) m w)
            s
            m.id
            (is_requeued (c ∷ cs))
            (status_after m.media_type (c ∷ cs))
    unfolding requeue_after
    requeue_after-Settles now c cs m w s h f a d =
        let finished = all_of is_terminal (c ∷ cs) in
        let eid = new_id (length (c ∷ cs)) in
        let v = aggregate_media_verdict (c ∷ cs) in
        elim (Bool-cases finished) [
          | inl e ↦
              let (r, same, status) =
                render_global_verdict-runs v at eid m (validate_label-aggregate (c ∷ cs)) h in
              rw (a, e, r)
                (save_with-Settles w.events (render_global_verdict v at eid m).0 m analyzed s f same
                  status)
          | inr e ↦ elim (Bool-cases (any_of (is_stuck stale_before) (c ∷ cs))) [
            | inl g ↦ rw (a, e, d, g) (touched-Settles now m w.events s h f)
            | inr g ↦ rw (a, e, d, g) (s, m, refl, f, is_processing-eq m h)
          ]
        ]

    requeue_over-Settles :
        (now : Time) (m : Media) (cs : List Content) (s : S)
        → is_processing m.status ≡ true
        → store.get_media m.id s ≡ ok (some m)
        → all_of is_loaded cs ≡ true
        → Settles
            (requeue_over store at new_id stale_before now m cs)
            s
            m.id
            (is_requeued cs)
            (status_after m.media_type cs)
    unfolding requeue_over
    requeue_over-Settles now m [] s h f l = requeue_empty-Settles m s h f
    requeue_over-Settles now m (c ∷ cs) s h f l =
        let (w, t, q, a, b, d, k) =
          requeue_contents_lem store law live at new_id stale_before 0 (c ∷ cs) s l in
        rw q (requeue_after-Settles now c cs m w t h (k m.id ∙ f) d b)

    -- For a database that keeps what it promises of the media and whose statements do not fail, and
    -- a media that is found processing and whose contents can be listed and come without events:
    -- requeueMedia reports no error. It reports work exactly if there are no contents, all are terminal, or one is uploaded
    -- and was last changed before the limit. Afterwards the media is found failed if it has no
    -- contents and is not a video, analyzed if all its contents are terminal, and still processing
    -- otherwise.
    pub requeue_media_lem :
        (now : Time) (i : Uuid) (m : Media) (cs : List Content) (s : S)
        → store.get_media i s ≡ ok (some m)
        → is_processing m.status ≡ true
        → store.list_by_media_id m.id s ≡ ok cs
        → all_of is_loaded cs ≡ true
        → Settles
            (requeue_media store at new_id stale_before now i)
            s
            i
            (is_requeued cs)
            (status_after m.media_type cs)
    unfolding requeue_media requeue_fresh
    requeue_media_lem now i m cs s f h l k =
        let same = law.id_of_found f in
        let body : M S Bool = λ t.
          and_then (ask (store.get_media i) t) (requeue_fresh store at new_id stale_before now) in
        let b : body s ≡ requeue_over store at new_id stale_before now m cs s = rw (f, h, l) refl in
        let (t, m', p, g, e) =
          requeue_over-Settles now m cs s h
            (subst (λ j. store.get_media j s ≡ ok (some m)) (sym same) f) k in
        let (u, q, v) = with_transaction-runs store law live body (is_requeued cs) s t (b ∙ p) in
        (u, m', q, v i ∙ subst (λ j. store.get_media j t ≡ ok (some m')) same g, e)
