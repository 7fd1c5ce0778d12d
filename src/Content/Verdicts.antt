-- ===== src/Content/Verdicts.antt =====
-- The verdicts that a content announces.
use notai_api.Base.{
  Bool, List, Option, [], ap, arith, false, is_some, none, not, refl, some, true, ◌++◌, ◌||◌, ◌∷◌,
  ◌≡◌, ◌⊎◌,
}
use notai_api.Base.Int.{ℤ}
use notai_api.Base.Text.{Text}
use notai_api.Base.Values.{Time, Uuid}
use notai_api.Content.Entity.{
  Content, complete_analysis, is_analyzed, mark_failed, new_from_media, render_verdict,
  requeue_analysis, set_thumbnail_key, start_analyzing,
}
use notai_api.Content.Lifecycle.{
  Call, apply, complete_analysis_call, mark_failed_call, render_verdict_call, requeue_analysis_call,
  run, set_thumbnail_key_call, start_analyzing_call,
}
use notai_api.Content.Types.{
  ContentEvent, Label, Status, Verdict, analyzed, analyzing, content_created,
  content_status_changed, content_uploaded, content_verdict_rendered, other_label, uploaded,
}
use notai_api.Errors.{ok}

-- The labels of the verdict events of a list, in order.
abbrev pub verdict_labels : List ContentEvent → List Label
verdict_labels [] = []
verdict_labels (content_created e ∷ es) = verdict_labels es
verdict_labels (content_uploaded e ∷ es) = verdict_labels es
verdict_labels (content_status_changed e ∷ es) = verdict_labels es
verdict_labels (content_verdict_rendered e ∷ es) = e.label ∷ verdict_labels es

pub verdict_labels-append :
    (xs ys : List ContentEvent) → verdict_labels (xs ++ ys) ≡ verdict_labels xs ++ verdict_labels ys
verdict_labels-append [] ys = refl
verdict_labels-append (content_created e ∷ xs) ys = verdict_labels-append xs ys
verdict_labels-append (content_uploaded e ∷ xs) ys = verdict_labels-append xs ys
verdict_labels-append (content_status_changed e ∷ xs) ys = verdict_labels-append xs ys
verdict_labels-append (content_verdict_rendered e ∷ xs) ys =
    ap (λ (l : List Label). e.label ∷ l) (verdict_labels-append xs ys)

-- The labels that a content has to announce: its own once it is analyzed, none before or else.
abbrev pub announced : Status → Option Label → List Label
announced analyzed (some l) = l ∷ []
announced _ _ = []

-- One of the three labels that a verdict may have.
abbrev pub is_named : Option Label → Bool
is_named (some (other_label t)) = false
is_named (some _) = true
is_named none = false

-- What holds of a content between two calls.
pub record IsValid (c : Content) : Type 0 where
  pub labelled : c.status ≡ analyzed → is_named c.label ≡ true
  pub scored : c.status ≡ analyzed → is_some c.confidence ≡ true
  pub unlabelled : (c.status ≡ analyzing) ⊎ (c.status ≡ uploaded) → c.label ≡ none
  pub verdicts : verdict_labels c.events ≡ announced c.status c.label

start_analyzing-IsValid :
    (now : Time) (eid : Uuid) (c : Content) → IsValid c → IsValid (start_analyzing now eid c).0
unfolding start_analyzing
start_analyzing-IsValid now eid c h = grind (arith, h, verdict_labels-append)

render_verdict-IsValid :
    (v : Verdict) (now : Time) (eid : Uuid) (c : Content)
    → IsValid c
    → IsValid (render_verdict v now eid c).0
unfolding render_verdict
render_verdict-IsValid v now eid c h = grind (arith, verdict_labels-append)

mark_failed-IsValid :
    (now : Time) (eid : Uuid) (c : Content) → IsValid c → IsValid (mark_failed now eid c).0
unfolding mark_failed
mark_failed-IsValid now eid c h = grind (arith, verdict_labels-append)

set_thumbnail_key-IsValid :
    (k : Text) (now : Time) (c : Content) → IsValid c → IsValid (set_thumbnail_key k now c)
unfolding set_thumbnail_key
set_thumbnail_key-IsValid k now c h = ground arith

requeue_analysis-IsValid :
    (now : Time) (eid : Uuid) (c : Content) → IsValid c → IsValid (requeue_analysis now eid c)
unfolding requeue_analysis
requeue_analysis-IsValid now eid c h = grind (arith, verdict_labels-append)

pub apply-IsValid : (o : Call) (c : Content) → IsValid c → IsValid (apply o c).0
unfolding apply complete_analysis
apply-IsValid (start_analyzing_call now eid) c h = start_analyzing-IsValid now eid c h
apply-IsValid (render_verdict_call v now eid) c h = render_verdict-IsValid v now eid c h
apply-IsValid (complete_analysis_call l now eid) c h = render_verdict-IsValid _ now eid c h
apply-IsValid (mark_failed_call now eid) c h = mark_failed-IsValid now eid c h
apply-IsValid (set_thumbnail_key_call k now) c h = set_thumbnail_key-IsValid k now c h
apply-IsValid (requeue_analysis_call now eid) c h = requeue_analysis-IsValid now eid c h

pub run-IsValid : (os : List Call) (c : Content) → IsValid c → IsValid (run os c)
unfolding run
run-IsValid [] c h = h
run-IsValid (o ∷ os) c h = run-IsValid os (apply o c).0 (apply-IsValid o c h)

new_from_media-IsValid :
    (m p l : Uuid) (key : Text) (frame ts : Option ℤ) (size : ℤ) (thumb : Text) (now : Time)
    (id e1 e2 : Uuid) {c : Content}
    → new_from_media m p l key frame ts size thumb now id e1 e2 ≡ ok c
    → IsValid c
unfolding new_from_media
new_from_media-IsValid m p l key frame ts size thumb now id e1 e2 h = ground arith

-- A content that NewFromMedia makes, whatever its methods are called with and in whatever order,
-- has announced exactly its own label, once, if it is analyzed, and no verdict otherwise; an
-- analyzed content has one of the three named labels and a confidence.
pub run-announces_verdict :
    (os : List Call) (m p l : Uuid) (key : Text) (frame ts : Option ℤ) (size : ℤ) (thumb : Text)
    (now : Time) (id e1 e2 : Uuid) {c : Content}
    → new_from_media m p l key frame ts size thumb now id e1 e2 ≡ ok c
    → let d = run os c in
      (verdict_labels d.events ≡ announced d.status d.label)
      × ((not (is_analyzed d.status) || is_named d.label) ≡ true)
      × ((not (is_analyzed d.status) || is_some d.confidence) ≡ true)
run-announces_verdict os m p l key frame ts size thumb now id e1 e2 {c} h =
    let v =
      run-IsValid os c (new_from_media-IsValid m p l key frame ts size thumb now id e1 e2 h) in
    (v.verdicts, ground (arith, v.labelled), ground (arith, v.scored))
