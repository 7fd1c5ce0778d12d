-- ===== src/Analysis/Analyze/Rendering.antt =====
-- What an analysis that succeeds leaves of its content.
use notai_api.Analysis.Analyze.{
  Analysis, Results, analyze_by_status, analyze_content, analyze_found, analyze_started,
  render_results, reweigh, save_results, selected,
}
use notai_api.Analysis.Analyze.Keeping.{
  KeepsContents, Succeeds, and_then-ok, save_results-kept, settled-ok, try_finalize_media-kept,
}
use notai_api.Analysis.Handler.{render_content, render_fresh, save_content, try_finalize_media}
use notai_api.Analysis.Outcome.{Outcome}
use notai_api.Analysis.Score.{aggregate}
use notai_api.Analysis.Tests.{outcomes}
use notai_api.Base.{
  Bool-cases, List, Option, [], ap, arith, inl, inr, is_empty, map, none, refl, some, subst, true,
  ◌==◌, ◌∙◌, ◌≡◌,
}
use notai_api.Base.Values.{Time, Uuid, uuid_nil}
use notai_api.Content.Entity.{Content, is_analyzing, pull_events, render_verdict, validate_label}
use notai_api.Content.Types.{Verdict, analyzed, analyzing}
use notai_api.Database.{Store, and_then, ask, checked, of_content, settled, with_transaction}
use notai_api.Errors.{Err, Result, Result-cases, ok}
use notai_api.Quota.Usage.{found}

rendered :
    (v : Verdict) (now : Time) (eid : Uuid) (c : Content)
    → (render_verdict v now eid c).1 ≡ none
    → let c' = (render_verdict v now eid c).0 in
      Succeeds c' c
      × (c'.status ≡ analyzed)
      × (c'.label ≡ some v.label)
      × (c'.confidence ≡ some v.confidence)
unfolding render_verdict validate_label
rendered v now eid c h = ground arith

-- A content under the id is analyzed, with the label and the confidence of the verdict.
abbrev pub IsRendered : {S : Type 0} → Store S → Uuid → Verdict → S → Type 0
IsRendered store i v s =
    (c : Content) × (store.get_content i s ≡ ok (some c))
    × (c.status ≡ analyzed)
    × (c.label ≡ some v.label)
    × (c.confidence ≡ some v.confidence)

module _ {S : Type 0} (store : Store S) (results : Results S)
    (law : KeepsContents store results) where
  save_content-found :
      (d c : Content) (s : S)
      → store.get_content c.id s ≡ ok (some c)
      → Succeeds d c
      → (save_content store d s).0 ≡ ok tt
      → (u : Time) × (store.get_content c.id (save_content store d s).1
          ≡ ok (some (record d { updated_at = u; events = [] })))
  unfolding save_content pull_events
  save_content-found d c s f r h = elim (Result-cases (store.update_content d s)) [
    | inl (e, p) ↦ absurd (ground arith)
    | inr (t, p) ↦ elim (Result-cases (store.store_events (map of_content d.events) t)) [
      | inl (e, q) ↦ absurd (ground arith)
      | inr (u, q) ↦
          let (at, k) = law.found_updated f r p in (at, rw (p, q) (law.kept_by_outbox c.id q ∙ k))
    ]
  ]

  saved-IsRendered :
      (r : Content × Option Err) (c : Content) (v : Verdict) (s : S)
      → store.get_content c.id s ≡ ok (some c)
      → (r.1 ≡ none
          → Succeeds r.0 c
            × (r.0.status ≡ analyzed)
            × (r.0.label ≡ some v.label)
            × (r.0.confidence ≡ some v.confidence))
      → (and_then (checked r s) (save_content store)).0 ≡ ok tt
      → IsRendered store c.id v (and_then (checked r s) (save_content store)).1
  saved-IsRendered (d, some e) c v s f k h = ground arith
  saved-IsRendered (d, none) c v s f k h =
      let (r, q, l, m) = k refl in
      let (u, g) = save_content-found d c s f r h in
      (record d { updated_at = u; events = [] }, g, q, l, m)

  render_fresh-open :
      (v : Verdict) (now : Time) (eid : Uuid) (c : Content) (s : S)
      → is_analyzing c.status ≡ true
      → render_fresh store v now eid (some c) s
        ≡ and_then (checked (render_verdict v now eid c) s) (save_content store)
  unfolding render_fresh
  render_fresh-open v now eid c s q = rw q refl

  render_content-found :
      (v : Verdict) (now : Time) (eid : Uuid) (i : Uuid) (c : Content) (s : S)
      → store.get_content i s ≡ ok (some c)
      → is_analyzing c.status ≡ true
      → (render_content store i v now eid s).0 ≡ ok tt
      → IsRendered store i v (render_content store i v now eid s).1
  unfolding render_content with_transaction
  render_content-found v now eid i c s p q h =
      let body = and_then (ask (store.get_content i) s) (render_fresh store v now eid) in
      let b : body ≡ render_fresh store v now eid (some c) s = rw p refl in
      let o = b ∙ render_fresh-open v now eid c s q in
      let r : render_content store i v now eid s ≡ settled store.commit body s = refl in
      let (g, k) = settled-ok store results law body i s tt h in
      let same = law.id_of_found p in
      let found =
        subst
          (λ j.
            IsRendered store j v
              (and_then (checked (render_verdict v now eid c) s) (save_content store)).1)
          same
          (saved-IsRendered (render_verdict v now eid c) c v s (cc (p, same)) (rendered v now eid c)
            (cc (o, g))) in
      let (c', f, x, l, m) = found in
      (c', k ∙ ap (λ (r : Result (Unit {0}) × S). store.get_content i r.1) o ∙ f, x, l, m)

  -- The stage of the detectors and what follows it.
  analyze_started_lem :
      (a : Analysis S) (c fresh : Content) (outcomes : List Outcome) (s : S)
      → store.get_content c.id s ≡ ok (some fresh)
      → is_analyzing fresh.status ≡ true
      → (let t =
            (save_results store results a.text_of c (a.analyze (selected store results a c)) s).1 in
          results.find_by_content_id c.id t ≡ ok outcomes)
      → (analyze_started store results a c s).0 ≡ ok tt
      → IsRendered store c.id
          (aggregate a.fl (map (reweigh (selected store results a c)) outcomes))
          (analyze_started store results a c s).1
  unfolding analyze_started render_results
  analyze_started_lem a c fresh outcomes s f g o h =
      let ds = selected store results a c in
      let v = aggregate a.fl (map (reweigh ds) outcomes) in
      let rs = a.analyze ds in
      let saved = save_results store results a.text_of c rs s in
      let asked = and_then saved (λ u. ask (results.find_by_content_id c.id)) in
      let (found, p, e) = and_then-ok asked (render_results store results a c) tt h in
      let (u, q, e') = and_then-ok saved (λ u. ask (results.find_by_content_id c.id)) found p in
      let t = saved.1 in
      let all : analyze_started store results a c s ≡ render_results store results a c outcomes t =
        rw q (rw o refl) in
      let rendering = render_content store c.id v a.now (a.new_id 0) t in
      let end = try_finalize_media store a.has_media c.media_id a.now (a.new_id 1) in
      let (w, r, e'') = and_then-ok rendering (λ u. end) tt (cc (all, h)) in
      let (c', f', x, l, m) =
        render_content-found v a.now (a.new_id 0) c.id fresh t
          (save_results-kept store results law a.text_of c rs c.id s ∙ f) g r in
      let k =
        try_finalize_media-kept store results law a.has_media c.media_id a.now (a.new_id 1) c.id
          rendering.1 in
      (c', rw (all, e'') (k ∙ f'), x, l, m)

  started-IsRendered :
      (a : Analysis S) (c : Content) (outcomes : List Outcome) (s : S)
      → store.get_content c.id s ≡ ok (some c)
      → c.status ≡ analyzing
      → (let runs = a.analyze (selected store results a c) in
          results.find_by_content_id c.id (save_results store results a.text_of c runs s).1
          ≡ ok outcomes)
      → (analyze_found store results a (some c) s).0 ≡ ok tt
      → IsRendered store c.id
          (aggregate a.fl (map (reweigh (selected store results a c)) outcomes))
          (analyze_found store results a (some c) s).1
  unfolding analyze_found analyze_by_status
  started-IsRendered a c outcomes s f g o h =
      let e : analyze_found store results a (some c) s ≡ analyze_started store results a c s =
        rw g refl in
      rw e (analyze_started_lem a c c outcomes s f (rw g refl) o (cc (e, h)))

  analyze_content-ok :
      (a : Analysis S) (id : Uuid) (c : Content) (s : S)
      → store.get_content id s ≡ ok (some c)
      → (analyze_content store results a id s).0 ≡ ok tt
      → analyze_content store results a id s ≡ analyze_found store results a (some c) s
  unfolding analyze_content
  analyze_content-ok a id c s f h = elim (Bool-cases (id == uuid_nil)) [
    | inl p ↦ absurd (cc (rw p at h))
    | inr p ↦ elim (Bool-cases (is_empty a.detectors)) [
      | inl q ↦ absurd (cc (rw (p, q) at h))
      | inr q ↦ rw (p, q, f) refl
    ]
  ]

  -- For a database that keeps what it promises of the contents: a call of the handler that reports
  -- no error, for a content that is found analyzing, leaves it analyzed, with the label and the
  -- confidence of the aggregate over the outcomes that are found for it once those of the selected
  -- detectors are saved, each with the weight that its detector expects.
  pub analyze_content_lem :
      (a : Analysis S) (id : Uuid) (c : Content) (outcomes : List Outcome) (s : S)
      → store.get_content id s ≡ ok (some c)
      → c.status ≡ analyzing
      → (let runs = a.analyze (selected store results a c) in
          results.find_by_content_id id (save_results store results a.text_of c runs s).1
          ≡ ok outcomes)
      → (analyze_content store results a id s).0 ≡ ok tt
      → IsRendered store id
          (aggregate a.fl (map (reweigh (selected store results a c)) outcomes))
          (analyze_content store results a id s).1
  unfolding analyze_content
  analyze_content_lem a id c outcomes s f g o h =
      let ds = selected store results a c in
      let t = (save_results store results a.text_of c (a.analyze ds) s).1 in
      let v = aggregate a.fl (map (reweigh ds) outcomes) in
      let e = analyze_content-ok a id c s f h in
      let at_id : store.get_content id s ≡ ok (some c)
          → results.find_by_content_id id t ≡ ok outcomes
          → IsRendered store id v (analyze_found store results a (some c) s).1 =
        subst
          (λ j.
            store.get_content j s ≡ ok (some c)
            → results.find_by_content_id j t ≡ ok outcomes
            → IsRendered store j v (analyze_found store results a (some c) s).1)
          (law.id_of_found f) (λ f o. started-IsRendered a c outcomes s f g o (cc (e, h))) in
      rw e (at_id f o)
