-- ===== src/Analysis/Finalize.antt =====
-- When the transactions of the analysis change a media, and when they change nothing.
use notai_api.Analysis.Handler.{finalize, finalize_over, is_final, save_media, try_finalize_media}
use notai_api.Analysis.MediaVerdict.{aggregate_media_verdict}
use notai_api.Base.{
  Bool, Bool-cases, List, Option, [], all_of, arith, false, if◌then◌else◌, inl, inr, is_empty, map,
  none, not, refl, some, subst, true, ◌<◌, ◌==◌, ◌||◌, ◌∙◌, ◌≡◌, ◌⊎◌,
}
use notai_api.Base.Values.{Time, Uuid}
use notai_api.Content.Entity.{Content, is_terminal}
use notai_api.Database.{
  DomainEvent, Store, and_then, ask, checked, of_media, ret, settled, with_transaction, ◌>>=◌,
}
use notai_api.Errors.{Err, Result, Result-cases, err, ok}
use notai_api.Media.Entity.{Media}
use notai_api.Media.Transitions.{render_global_verdict}
use notai_api.Media.Types.{Verdict, analyzed}

-- A new state of a media: it has the same id, campaign and client, and is deleted if the other one is.
abbrev pub Replaces : Media → Media → Type 0
Replaces n m =
    (n.id ≡ m.id)
    × (n.deleted_at ≡ m.deleted_at)
    × (n.campaign_id ≡ m.campaign_id)
    × (n.client_id ≡ m.client_id)

-- A media as it is found again: Save sets its time of change.
abbrev pub stamped : Time → Media → Media
stamped u m = record m { updated_at = u; events = [] }

-- What a database promises of the media: one is found by its id, the update of one that is found is
-- seen (a deleted media is not found, so that nothing is promised of one), and neither the outbox, a
-- commit nor the update of a content changes what a query answers.
pub record IsLawful {S : Type 0} (store : Store S) : Type 0 where
  pub id_of_found : {i : Uuid} {s : S} {m : Media} → store.get_media i s ≡ ok (some m) → m.id ≡ i
  pub found_updated :
      {n m : Media} {s t : S}
      → store.get_media m.id s ≡ ok (some m)
      → Replaces n m
      → store.update_media n s ≡ ok t
      → (u : Time) × (store.get_media m.id t ≡ ok (some (stamped u n)))
  pub kept_by_outbox :
      (i : Uuid) {es : List DomainEvent} {s t : S}
      → store.store_events es s ≡ ok t
      → store.get_media i t ≡ store.get_media i s
  pub kept_by_commit :
      (i : Uuid) {s t : S} → store.commit s ≡ ok t → store.get_media i t ≡ store.get_media i s
  pub kept_by_content :
      (i : Uuid) {c : Content} {s t : S}
      → store.update_content c s ≡ ok t
      → store.get_media i t ≡ store.get_media i s

module _ {S : Type 0} (store : Store S) where
  pub settled-found :
      {A : Type 0} (law : IsLawful store) (r : Result A × S) (s : S) (a : A) (i : Uuid)
      → (settled store.commit r s).0 ≡ ok a
      → (r.0 ≡ ok a) × (store.get_media i (settled store.commit r s).1 ≡ store.get_media i r.1)
  settled-found law (err f, t) s a i h = ground arith
  settled-found law (ok b, t) s a i h = elim (Result-cases (store.commit t)) [
    | inl (f, p) ↦ ground arith
    | inr (u, p) ↦ ground (arith, law.kept_by_commit i p)
  ]

  save_media-found :
      (law : IsLawful store) (n m : Media) (s : S)
      → store.get_media m.id s ≡ ok (some m)
      → Replaces n m
      → (save_media store n s).0 ≡ ok tt
      → (u : Time) × (store.get_media m.id (save_media store n s).1 ≡ ok (some (stamped u n)))
  unfolding save_media
  save_media-found law n m s f r h = elim (Result-cases (store.update_media n s)) [
    | inl (e, p) ↦ absurd (ground arith)
    | inr (t, p) ↦ elim (Result-cases (store.store_events (map of_media n.events) t)) [
      | inl (e, q) ↦ absurd (ground arith)
      | inr (u, q) ↦
          let (at, k) = law.found_updated f r p in (at, rw (p, q) (law.kept_by_outbox m.id q ∙ k))
    ]
  ]

rendered :
    (v : Verdict) (now : Time) (eid : Uuid) (m : Media)
    → (render_global_verdict v now eid m).1 ≡ none
    → let m' = (render_global_verdict v now eid m).0 in
      Replaces m' m × (m'.status ≡ analyzed) × (m'.verdict ≡ some v)
unfolding render_global_verdict
rendered v now eid m h = ground arith

-- The media has no contents yet, or one of them is still to be analyzed.
abbrev pub is_waiting : List Content → Bool
is_waiting cs = is_empty cs || not (all_of is_terminal cs)

module _ {S : Type 0} (store : Store S) where
  -- The media is found with a verdict.
  abbrev pub IsFinished : Uuid → List Content → S → Type 0
  IsFinished i cs s =
      (m : Media) × (store.get_media i s ≡ ok (some m))
      × (m.status ≡ analyzed)
      × (m.verdict ≡ some (aggregate_media_verdict cs))

  checked-saves :
      (r : Media × Option Err) (s : S)
      → (and_then (checked r s) (save_media store)).0 ≡ ok tt
      → (r.1 ≡ none)
        × ((save_media store r.0 s).0 ≡ ok tt)
        × ((and_then (checked r s) (save_media store)).1 ≡ (save_media store r.0 s).1)
  checked-saves (m, none) s h = (refl, h, refl)
  checked-saves (m, some e) s h = ground arith

  saved-IsFinished :
      (law : IsLawful store) (cs : List Content) (now : Time) (eid : Uuid) (m : Media) (s : S)
      → store.get_media m.id s ≡ ok (some m)
      → let r = render_global_verdict (aggregate_media_verdict cs) now eid m in
        (and_then (checked r s) (save_media store)).0 ≡ ok tt
        → IsFinished m.id cs (and_then (checked r s) (save_media store)).1
  saved-IsFinished law cs now eid m s f h =
      let v = aggregate_media_verdict cs in
      let m' = (render_global_verdict v now eid m).0 in
      let (p, q, e) = checked-saves (render_global_verdict v now eid m) s h in
      let (same, status, verdict) = rendered v now eid m p in
      let (u, k) = save_media-found store law m' m s f same q in
      (stamped u m', rw e k, status, verdict)

  finalize_over-found :
      (law : IsLawful store) (cs : List Content) (now : Time) (eid : Uuid) (m : Media) (s : S)
      → store.get_media m.id s ≡ ok (some m)
      → (finalize_over store cs now eid m s).0 ≡ ok tt
      → (is_waiting cs ≡ true → (finalize_over store cs now eid m s).1 ≡ s)
        × (is_waiting cs ≡ false → IsFinished m.id cs (finalize_over store cs now eid m s).1)
  unfolding finalize_over
  finalize_over-found law cs now eid m s f h = elim (Bool-cases (is_waiting cs)) [
    | inl e ↦ (λ k. rw e refl, λ k. absurd (cc (e, k)))
    | inr e ↦ (
      λ k. absurd (cc (e, k)),
      λ k. rw e (
          saved-IsFinished law cs now eid m s f (
            subst
              (λ b.
                ((if b
                    then ret tt
                    else (checked (render_global_verdict (aggregate_media_verdict cs) now eid m)
                        >>= save_media store))
                  s).0
                ≡ ok tt)
              e h)),
    )
  ]

  pub finalize-final :
      (i : Uuid) (now : Time) (eid : Uuid) (s : S) (m : Media)
      → is_final store m ≡ true
      → finalize store i now eid (some m) s ≡ (ok tt, s)
  unfolding finalize
  finalize-final i now eid s m e = rw e refl

  pub finalize-open :
      (i : Uuid) (now : Time) (eid : Uuid) (s : S) (m : Media) (cs : List Content)
      → is_final store m ≡ false
      → store.list_by_media_id i s ≡ ok cs
      → finalize store i now eid (some m) s ≡ finalize_over store cs now eid m s
  unfolding finalize
  finalize-open i now eid s m cs e l = rw e (rw l refl)

  finalize-found :
      (law : IsLawful store) (i : Uuid) (now : Time) (eid : Uuid) (s : S) (m : Media)
      (cs : List Content)
      → store.get_media i s ≡ ok (some m)
      → store.list_by_media_id i s ≡ ok cs
      → (finalize store i now eid (some m) s).0 ≡ ok tt
      → let t = (finalize store i now eid (some m) s).1 in
        ((is_final store m || is_waiting cs) ≡ true → t ≡ s)
        × ((is_final store m || is_waiting cs) ≡ false → IsFinished i cs t)
  finalize-found law i now eid s m cs f l h = elim (Bool-cases (is_final store m)) [
    | inl e ↦ rw (finalize-final i now eid s m e, e) (λ k. refl, λ k. absurd (cc k))
    | inr e ↦
        let o = finalize-open i now eid s m cs e l in
        let h' : (finalize_over store cs now eid m s).0 ≡ ok tt = cc (o, h) in
        let f' : store.get_media m.id s ≡ ok (some m) = cc (f, law.id_of_found f) in
        let (p, q) = finalize_over-found law cs now eid m s f' h' in
        rw (o, e)
          (
            p,
            λ k.
                subst (λ j. IsFinished j cs (finalize_over store cs now eid m s).1)
                  (law.id_of_found f) (q k),
          )
  ]

  -- For a database that keeps what it promises of the media, a handler with a media repository,
  -- and a media that is found under an id that is not nil and whose contents can be listed: a
  -- call of tryFinalizeMedia that reports no error leaves the media as it is if it is analyzed or
  -- failed already, has no contents or one that is still to be analyzed; and else the media is
  -- found analyzed, with the verdict over its contents.
  pub try_finalize_media_lem :
      (law : IsLawful store) (i : Uuid) (now : Time) (eid : Uuid) (s : S) (m : Media)
      (cs : List Content)
      → 0 < i
      → store.get_media i s ≡ ok (some m)
      → store.list_by_media_id i s ≡ ok cs
      → (try_finalize_media store true i now eid s).0 ≡ ok tt
      → let t = (try_finalize_media store true i now eid s).1 in
        (((is_final store m || is_waiting cs) ≡ true) × (store.get_media i t ≡ ok (some m)))
        ⊎ (((is_final store m || is_waiting cs) ≡ false) × IsFinished i cs t)
  unfolding try_finalize_media with_transaction
  try_finalize_media_lem law i now eid s m cs z f l h =
      let z' : (i == 0) ≡ false = ground arith in
      let body = and_then (ask (store.get_media i) s) (finalize store i now eid) in
      let b : body ≡ finalize store i now eid (some m) s = rw f refl in
      let r : try_finalize_media store true i now eid s ≡ settled store.commit body s =
        rw z' refl in
      let (p, q) = settled-found store law body s tt i (cc (r, h)) in
      let (u, v) = finalize-found law i now eid s m cs f l (cc (b, p)) in
      elim (Bool-cases (is_final store m || is_waiting cs)) [
        | inl k ↦ inl (k, rw (r, q, b, u k) f)
        | inr k ↦ inr (k, rw (r, q, b) (v k))
      ]
