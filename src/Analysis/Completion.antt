-- ===== src/Analysis/Completion.antt =====
-- The transactions succeed where the database does.
use notai_api.Analysis.Admission.{admits}
use notai_api.Analysis.Finalize.{finalize-final, finalize-open, is_waiting}
use notai_api.Analysis.Handler.{
  finalize, finalize_over, is_final, save_content, save_media, start_analysis, start_fresh,
  try_finalize_media,
}
use notai_api.Analysis.MediaVerdict.{aggregate_media_verdict, label_of}
use notai_api.Database.{
  DomainEvent, Store, and_then, ask, checked, of_content, of_media, ret, settled, with_transaction,
  ◌>>◌,
}
use notai_api.Base.{
  Bool-cases, List, Option, Option-cases, arith, false, inl, inr, map, none, refl, some, true, ◌<◌,
  ◌==◌, ◌||◌, ◌≡◌,
}
use notai_api.Base.Values.{Time, Uuid}
use notai_api.Content.Entity.{Content, is_uploaded, pull_events, start_analyzing, validate_label}
use notai_api.Errors.{Err, Result, err, ok}
use notai_api.Media.Entity.{Media}
use notai_api.Media.Transitions.{render_global_verdict}
use notai_api.Media.Types.{Verdict, is_analyzed, is_failed, is_pending}

-- No update, no insertion into the outbox and no commit fails.
pub record IsReliable {S : Type 0} (store : Store S) : Type 0 where
  pub updates : (m : Media) (s : S) → (t : S) × (store.update_media m s ≡ ok t)
  pub updates_content : (c : Content) (s : S) → (t : S) × (store.update_content c s ≡ ok t)
  pub stores : (es : List DomainEvent) (s : S) → (t : S) × (store.store_events es s ≡ ok t)
  pub commits : (s : S) → (t : S) × (store.commit s ≡ ok t)

-- The verdict over contents has a named label.
pub validate_label-aggregate :
    (cs : List Content) → validate_label (aggregate_media_verdict cs).label ≡ none
unfolding validate_label aggregate_media_verdict label_of
validate_label-aggregate cs = ground arith

render_global_verdict-ok :
    (v : Verdict) (now : Time) (eid : Uuid) (m : Media)
    → validate_label v.label ≡ none
    → is_pending m.status ≡ false
    → (is_analyzed m.status || is_failed m.status) ≡ false
    → (render_global_verdict v now eid m).1 ≡ none
unfolding render_global_verdict
render_global_verdict-ok v now eid m h p f = ground arith

module _ {S : Type 0} (store : Store S) where
  save_media-ok : (live : IsReliable store) (m : Media) (s : S) → (save_media store m s).0 ≡ ok tt
  unfolding save_media
  save_media-ok live m s =
      let (t, p) = live.updates m s in
      let (u, q) = live.stores (map of_media m.events) t in rw p (rw q refl)

  checked-saved :
      (live : IsReliable store) (r : Media × Option Err) (s : S)
      → r.1 ≡ none
      → (and_then (checked r s) (save_media store)).0 ≡ ok tt
  checked-saved live (m, none) s h = save_media-ok live m s
  checked-saved live (m, some e) s h = ground arith

  finalize_over-ok :
      (live : IsReliable store) (cs : List Content) (now : Time) (eid : Uuid) (m : Media) (s : S)
      → is_pending m.status ≡ false
      → is_final store m ≡ false
      → (finalize_over store cs now eid m s).0 ≡ ok tt
  unfolding finalize_over
  finalize_over-ok live cs now eid m s p f = elim (Bool-cases (is_waiting cs)) [
    | inl e ↦ rw e refl
    | inr e ↦ rw e (
        checked-saved live (render_global_verdict (aggregate_media_verdict cs) now eid m) s (
          render_global_verdict-ok (aggregate_media_verdict cs) now eid m
            (validate_label-aggregate cs) p f))
  ]

  pub settled-succeeds :
      {A : Type 0} (live : IsReliable store) (r : Result A × S) (s : S) (a : A)
      → r.0 ≡ ok a
      → (settled store.commit r s).0 ≡ ok a
  settled-succeeds live (err e, t) s a h = ground arith
  settled-succeeds live (ok b, t) s a h = let (u, p) = live.commits t in rw (settled, p) h

  -- For a handler with a media repository, and a media that is found under an id that is not nil,
  -- is not waiting for its upload, and whose contents can be listed: where no statement fails,
  -- tryFinalizeMedia reports no error.
  pub try_finalize_media_succeeds :
      (live : IsReliable store) (i : Uuid) (now : Time) (eid : Uuid) (s : S) (m : Media)
      (cs : List Content)
      → 0 < i
      → store.get_media i s ≡ ok (some m)
      → store.list_by_media_id i s ≡ ok cs
      → is_pending m.status ≡ false
      → (try_finalize_media store true i now eid s).0 ≡ ok tt
  unfolding try_finalize_media with_transaction
  try_finalize_media_succeeds live i now eid s m cs z f l w =
      let z' : (i == 0) ≡ false = ground arith in
      let body = and_then (ask (store.get_media i) s) (finalize store i now eid) in
      let b : body ≡ finalize store i now eid (some m) s = rw f refl in
      rw z' (
        settled-succeeds live body s tt (
          rw b (elim (Bool-cases (is_final store m)) [
            | inl e ↦ rw (finalize-final store i now eid s m e) refl
            | inr e ↦
                rw (finalize-open store i now eid s m cs e l)
                  (finalize_over-ok live cs now eid m s w e)
          ])))

  save_content-ok :
      (live : IsReliable store) (c : Content) (s : S) → (save_content store c s).0 ≡ ok tt
  unfolding save_content pull_events
  save_content-ok live c s =
      let (t, p) = live.updates_content c s in
      let (u, q) = live.stores (map of_content c.events) t in rw p (rw q refl)

  finished-ok :
      (r : Result (Unit {0}) × S) (c : Content)
      → r.0 ≡ ok tt
      → (and_then r (λ a t. ret c t)).0 ≡ ok c
  finished-ok (ok a, t) c h = refl
  finished-ok (err e, t) c h = ground arith

  checked-ok :
      (live : IsReliable store) (r : Content × Option Err) (s : S)
      → r.1 ≡ none
      → (and_then (checked r s) (λ c. save_content store c >> ret (pull_events c).0)).0
        ≡ ok (pull_events r.0).0
  checked-ok live (c, none) s h =
      finished-ok (save_content store c s) (pull_events c).0 (save_content-ok live c s)
  checked-ok live (c, some e) s h = ground arith

  start_analyzing-ok :
      (now : Time) (eid : Uuid) (c : Content)
      → is_uploaded c.status ≡ true
      → (start_analyzing now eid c).1 ≡ none
  unfolding start_analyzing
  start_analyzing-ok now eid c u = rw u refl

  start_fresh-ok :
      (live : IsReliable store) (quota : Option (Uuid → S → Option Err)) (m : Media)
      (c fresh : Content) (now : Time) (eid : Uuid) (s : S)
      → is_uploaded fresh.status ≡ true
      → admits store quota m.client_id s ≡ true
      → (start_fresh store quota m c now eid (some fresh) s).0
        ≡ ok (pull_events (start_analyzing now eid fresh).0).0
  unfolding start_fresh
  start_fresh-ok live none m c fresh now eid s u a =
      rw u (checked-ok live (start_analyzing now eid fresh) s (start_analyzing-ok now eid fresh u))
  start_fresh-ok live (some f) m c fresh now eid s u a = elim (Option-cases (f m.client_id s)) [
    | inl p ↦
        rw (u, p)
          (checked-ok live (start_analyzing now eid fresh) s (start_analyzing-ok now eid fresh u))
    | inr (e, p) ↦ ground arith
  ]

  -- Where no statement fails, an uploaded content that is found, and for whose media's client the
  -- quota test passes, is started: the transaction hands on the content as StartAnalyzing leaves it,
  -- without its events.
  pub start_analysis_succeeds :
      (live : IsReliable store) (quota : Option (Uuid → S → Option Err)) (m : Media)
      (c fresh : Content) (now : Time) (eid : Uuid) (s : S)
      → store.get_content c.id s ≡ ok (some fresh)
      → is_uploaded fresh.status ≡ true
      → admits store quota m.client_id s ≡ true
      → (start_analysis store quota m c now eid s).0
        ≡ ok (pull_events (start_analyzing now eid fresh).0).0
  unfolding start_analysis with_transaction
  start_analysis_succeeds live quota m c fresh now eid s f u a =
      let body = and_then (ask (store.get_content c.id) s) (start_fresh store quota m c now eid) in
      let b : body ≡ start_fresh store quota m c now eid (some fresh) s = rw f refl in
      settled-succeeds live body s (pull_events (start_analyzing now eid fresh).0).0
        (rw b (start_fresh-ok live quota m c fresh now eid s u a))
