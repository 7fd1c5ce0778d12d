-- ===== src/Activity/Told.antt =====
-- What the feed shows of a media whose events are delivered.
use notai_api.Activity.Feed.{
  deliver_all, deliver_all-Shows, is_sound, outcome_type, verdict_type, verdicts,
}
use notai_api.Activity.Projector.{Feed, Readers}
use notai_api.Activity.Types.{Event}
use notai_api.Base.{
  List, Option, [], all_of, ap, arith, inl, inr, map, none, refl, some, sym, true, ℕ, ◌++◌, ◌∙◌,
  ◌∷◌, ◌≡◌, ◌⊎◌,
}
use notai_api.Base.Text.{Text}
use notai_api.Base.Values.{Time, Uuid}
use notai_api.Content.Types.{Label}
use notai_api.Errors.{ok}
use notai_api.Media.Entity.{Media, new_pending_upload, soft_delete}
use notai_api.Media.Lifecycle.{Call, apply, mark_uploaded_call, run, touch_call}
use notai_api.Media.Outcomes.{announced, outcomes, run-announces_outcome}
use notai_api.Media.Transitions.{
  mark_failed, mark_uploaded, render_global_verdict, requeue_uploaded, start_processing, touch,
}
use notai_api.Media.Types.{
  MediaEvent, MediaVerdictRendered, Status, Verdict, analyzed, failed, media_verdict_rendered,
}

verdicts-outcomes :
    (es : List MediaEvent) → map (λ (e : MediaVerdictRendered). e.label) (verdicts es) ≡ outcomes es
verdicts-outcomes [] = refl
verdicts-outcomes (media_verdict_rendered e ∷ es) =
    ap (λ (l : List (Option Label)). e.label ∷ l) (verdicts-outcomes es)
verdicts-outcomes (_ ∷ es) = verdicts-outcomes es

append_sound :
    (xs ys : List MediaEvent)
    → all_of is_sound xs ≡ true
    → all_of is_sound ys ≡ true
    → all_of is_sound (xs ++ ys) ≡ true
append_sound [] ys h k = k
append_sound (x ∷ xs) ys h k = ground (arith, append_sound xs ys (ground arith) k)

apply_sound :
    (o : Call) (m : Media)
    → all_of is_sound m.events ≡ true
    → all_of is_sound (apply o m).0.events ≡ true
unfolding apply touch mark_uploaded start_processing render_global_verdict mark_failed
    requeue_uploaded soft_delete
apply_sound (touch_call at now) m h = grind (arith, append_sound)
apply_sound (mark_uploaded_call size ct now eid) m h = grind (arith, append_sound)
apply_sound (_) m h = grind (arith, append_sound)

run_sound :
    (os : List Call) (m : Media)
    → all_of is_sound m.events ≡ true
    → all_of is_sound (run os m).events ≡ true
unfolding run
run_sound [] m h = h
run_sound (o ∷ os) m h = run_sound os (apply o m).0 (apply_sound o m h)

new_pending_upload_sound :
    (str : Uuid → Text) (campaign client : Uuid) (filename ct : Text) (now : Time) (id eid : Uuid)
    {m : Media}
    → new_pending_upload str campaign client filename ct now id eid ≡ ok m
    → all_of is_sound m.events ≡ true
unfolding new_pending_upload
new_pending_upload_sound str campaign client filename ct now id eid h = ground arith

verdicts_sound :
    (es : List MediaEvent)
    → all_of is_sound es ≡ true
    → all_of (λ (e : MediaVerdictRendered). is_sound (media_verdict_rendered e)) (verdicts es)
      ≡ true
verdicts_sound [] h = refl
verdicts_sound (media_verdict_rendered e ∷ es) h = ground (arith, verdicts_sound es (ground arith))
verdicts_sound (_ ∷ es) h = verdicts_sound es (ground arith)

-- The verdict of a list whose outcomes are those of such a media.
announced-verdict :
    (s : Status) (v : Option Verdict) (vs : List MediaVerdictRendered)
    → map (λ (e : MediaVerdictRendered). e.label) vs ≡ announced s v
    → all_of (λ (e : MediaVerdictRendered). is_sound (media_verdict_rendered e)) vs ≡ true
    → (vs ≡ []) ⊎ ((e : MediaVerdictRendered) × (vs ≡ e ∷ []) × (verdict_type e ≡ outcome_type s v))
announced-verdict s v [] h k = inl refl
announced-verdict failed v (e ∷ []) h k = inr (e, refl, ground arith)
announced-verdict analyzed (some v) (e ∷ []) h k = inr (e, refl, ground arith)
announced-verdict failed v (e ∷ e' ∷ vs) h k = cc
announced-verdict analyzed (some v) (e ∷ e' ∷ vs) h k = cc
announced-verdict _ _ (e ∷ vs) h k = cc

-- For a media that NewPendingUpload makes, whatever its methods are called with and in whatever
-- order, whatever rows the feed has, and however the projector is given the events of that media
-- (any of them, in any order, any number of times, whatever its reads, its table and its
-- transport answer): the feed has the rows that it had, or one row more, of the kind of the outcome
-- of the media, so the media is analyzed or failed.
pub deliver_all-shows_outcome :
    (r : Readers) (ds : List (Time × ℕ)) (f : Feed) (os : List Call) (str : Uuid → Text)
    (campaign client : Uuid) (filename ct : Text) (now : Time) (id eid : Uuid) {m : Media}
    → new_pending_upload str campaign client filename ct now id eid ≡ ok m
    → let d = run os m in
      let g = deliver_all r ds d.events f in
      (g.rows ≡ f.rows)
      ⊎ ((x : Event) × (g.rows ≡ x ∷ f.rows) × (outcome_type d.status d.verdict ≡ some x.type))
deliver_all-shows_outcome r ds f os str campaign client filename ct now id eid {m} h =
    let d = run os m in
    let all =
      run_sound os m (new_pending_upload_sound str campaign client filename ct now id eid h) in
    let labels = (run-announces_outcome os str campaign client filename ct now id eid h).0 in
    elim (announced-verdict d.status d.verdict (verdicts d.events)
      (verdicts-outcomes d.events ∙ labels) (verdicts_sound d.events all)) [
        | inl q ↦ inl (deliver_all-Shows r ds d.events none f.rows f all q refl)
        | inr (e, q, t) ↦
            elim (deliver_all-Shows r ds d.events (some e) f.rows f all q (inl refl)) [
              | inl p ↦ inl p
              | inr (x, p, k, t') ↦ inr (x, p, sym t ∙ t')
            ]
      ]
