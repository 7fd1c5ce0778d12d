-- ===== src/Media/Outcomes.antt =====
-- The outcomes and the deletion that a media announces.
use notai_api.Base.{
  Bool, List, Option, [], ap, arith, false, if◌then◌else◌, is_none, is_some, none, not, refl, some,
  suc, true, ℕ, ◌++◌, ◌+◌, ◌||◌, ◌∷◌, ◌≡◌,
}
use notai_api.Base.Int.{ℤ}
use notai_api.Base.Text.{Text}
use notai_api.Base.Values.{Time, Uuid}
use notai_api.Content.Entity.{validate_label}
use notai_api.Content.Types.{Label}
use notai_api.Errors.{ok}
use notai_api.Media.Entity.{Media, SoftDeleteObjectRef, new_pending_upload, soft_delete}
use notai_api.Media.Lifecycle.{
  Call, apply, mark_failed_call, mark_uploaded_call, render_global_verdict_call,
  requeue_uploaded_call, run, soft_delete_call, start_processing_call, touch_call,
}
use notai_api.Media.Transitions.{
  mark_failed, mark_uploaded, render_global_verdict, requeue_uploaded, start_processing, touch,
}
use notai_api.Media.Types.{
  MediaEvent, Status, Verdict, analyzed, failed, is_analyzed, media_deleted, media_verdict_rendered,
}

-- The labels of the outcome events of a list, in order; a failure has none.
abbrev pub outcomes : List MediaEvent → List (Option Label)
outcomes [] = []
outcomes (media_verdict_rendered e ∷ es) = e.label ∷ outcomes es
outcomes (_ ∷ es) = outcomes es

-- How many deletion events a list has.
abbrev pub deletions : List MediaEvent → ℕ
deletions [] = 0
deletions (media_deleted e ∷ es) = suc (deletions es)
deletions (_ ∷ es) = deletions es

outcomes-append : (xs ys : List MediaEvent) → outcomes (xs ++ ys) ≡ outcomes xs ++ outcomes ys
outcomes-append [] ys = refl
outcomes-append (media_verdict_rendered e ∷ xs) ys =
    ap (λ (l : List (Option Label)). e.label ∷ l) (outcomes-append xs ys)
outcomes-append (_ ∷ xs) ys = outcomes-append xs ys

deletions-append : (xs ys : List MediaEvent) → deletions (xs ++ ys) ≡ deletions xs + deletions ys
deletions-append [] ys = omega arith
deletions-append (media_deleted e ∷ xs) ys = omega (arith, deletions-append xs ys)
deletions-append (_ ∷ xs) ys = deletions-append xs ys

-- The outcome that a media has to announce.
abbrev pub announced : Status → Option Verdict → List (Option Label)
announced analyzed (some v) = some v.label ∷ []
announced failed v = none ∷ []
announced _ _ = []

-- One of the three labels that a verdict may have.
abbrev pub has_named_label : Option Verdict → Bool
has_named_label (some v) = is_none (validate_label v.label)
has_named_label none = false

-- What holds of a media between two calls.
pub record IsValid (m : Media) : Type 0 where
  pub judged : m.status ≡ analyzed → has_named_label m.verdict ≡ true
  pub dated : m.status ≡ analyzed → is_some m.analyzed_at ≡ true
  pub outcome : outcomes m.events ≡ announced m.status m.verdict
  pub deletion : deletions m.events ≡ (if is_some m.deleted_at then 1 else 0)

mark_uploaded-IsValid :
    (size : ℤ) (ct : Text) (now : Time) (eid : Uuid) (m : Media)
    → IsValid m
    → IsValid (mark_uploaded size ct now eid m).0
unfolding mark_uploaded
mark_uploaded-IsValid size ct now eid m h = grind (arith, outcomes-append, deletions-append)

start_processing-IsValid :
    (now : Time) (e1 e2 : Uuid) (m : Media) → IsValid m → IsValid (start_processing now e1 e2 m).0
unfolding start_processing
start_processing-IsValid now e1 e2 m h = grind (arith, outcomes-append, deletions-append)

render_global_verdict-IsValid :
    (v : Verdict) (now : Time) (eid : Uuid) (m : Media)
    → IsValid m
    → IsValid (render_global_verdict v now eid m).0
unfolding render_global_verdict
render_global_verdict-IsValid v now eid m h = grind (arith, outcomes-append, deletions-append)

mark_failed-IsValid :
    (reason : Text) (now : Time) (eid : Uuid) (m : Media)
    → IsValid m
    → IsValid (mark_failed reason now eid m).0
unfolding mark_failed
mark_failed-IsValid reason now eid m h = grind (arith, outcomes-append, deletions-append)

requeue_uploaded-IsValid :
    (now : Time) (eid : Uuid) (m : Media) → IsValid m → IsValid (requeue_uploaded now eid m).0
unfolding requeue_uploaded
requeue_uploaded-IsValid now eid m h = grind (arith, outcomes-append, deletions-append)

soft_delete-IsValid :
    (str : Uuid → Text) (refs : List SoftDeleteObjectRef) (cascade : Bool) (now : Time) (eid : Uuid)
    (m : Media)
    → IsValid m
    → IsValid (soft_delete str refs cascade now eid m)
unfolding soft_delete
soft_delete-IsValid str refs cascade now eid m h = grind (arith, outcomes-append, deletions-append)

apply-IsValid : (o : Call) (m : Media) → IsValid m → IsValid (apply o m).0
unfolding apply touch
apply-IsValid (mark_uploaded_call size ct now eid) m h = mark_uploaded-IsValid size ct now eid m h
apply-IsValid (start_processing_call now e1 e2) m h = start_processing-IsValid now e1 e2 m h
apply-IsValid (render_global_verdict_call v now eid) m h =
    render_global_verdict-IsValid v now eid m h
apply-IsValid (mark_failed_call reason now eid) m h = mark_failed-IsValid reason now eid m h
apply-IsValid (touch_call at now) m h = ground arith
apply-IsValid (requeue_uploaded_call now eid) m h = requeue_uploaded-IsValid now eid m h
apply-IsValid (soft_delete_call str refs cascade now eid) m h =
    soft_delete-IsValid str refs cascade now eid m h

pub run-IsValid : (os : List Call) (m : Media) → IsValid m → IsValid (run os m)
unfolding run
run-IsValid [] m h = h
run-IsValid (o ∷ os) m h = run-IsValid os (apply o m).0 (apply-IsValid o m h)

new_pending_upload-IsValid :
    (str : Uuid → Text) (campaign client : Uuid) (filename ct : Text) (now : Time) (id eid : Uuid)
    {m : Media}
    → new_pending_upload str campaign client filename ct now id eid ≡ ok m
    → IsValid m
unfolding new_pending_upload
new_pending_upload-IsValid str campaign client filename ct now id eid h = ground arith

-- A media that NewPendingUpload makes, whatever its methods are called with and in whatever order,
-- has announced exactly one outcome if it is analyzed (the label of its verdict) or failed (no
-- label), and none before; an analyzed one has a verdict with one of the three labels and a date;
-- and it has announced its deletion exactly once if it is deleted, else never.
pub run-announces_outcome :
    (os : List Call) (str : Uuid → Text) (campaign client : Uuid) (filename ct : Text) (now : Time)
    (id eid : Uuid) {m : Media}
    → new_pending_upload str campaign client filename ct now id eid ≡ ok m
    → let d = run os m in
      (outcomes d.events ≡ announced d.status d.verdict)
      × ((not (is_analyzed d.status) || has_named_label d.verdict) ≡ true)
      × ((not (is_analyzed d.status) || is_some d.analyzed_at) ≡ true)
      × (deletions d.events ≡ (if is_some d.deleted_at then 1 else 0))
run-announces_outcome os str campaign client filename ct now id eid {m} h =
    let v =
      run-IsValid os m (new_pending_upload-IsValid str campaign client filename ct now id eid h) in
    (v.outcome, ground (arith, v.judged), ground (arith, v.dated), v.deletion)
