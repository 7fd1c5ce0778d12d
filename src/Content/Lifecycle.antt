-- ===== src/Content/Lifecycle.antt =====
-- The life of a content under any sequence of its methods.
use notai_api.Base.{List, Option, [], arith, none, refl, ◌∙◌, ◌∷◌, ◌≡◌, ◌≢◌, ◌⊎◌}
use notai_api.Base.Text.{Text}
use notai_api.Base.Values.{Time, Uuid}
use notai_api.Content.Entity.{
  Content, complete_analysis, mark_failed, render_verdict, requeue_analysis, set_thumbnail_key,
  start_analyzing,
}
use notai_api.Content.Types.{
  Label, Status, Verdict, analyzed, analyzing, failed, pending_upload, uploaded,
}
use notai_api.Errors.{Err}

-- A call of a method, with the time and the UUID that it draws.
pub data Call : Type 0 where
  start_analyzing_call : Time → Uuid → Call
  render_verdict_call : Verdict → Time → Uuid → Call
  complete_analysis_call : Label → Time → Uuid → Call
  mark_failed_call : Time → Uuid → Call
  set_thumbnail_key_call : Text → Time → Call
  requeue_analysis_call : Time → Uuid → Call

unfoldable pub apply : Call → Content → Content × Option Err
apply (start_analyzing_call now eid) c = start_analyzing now eid c
apply (render_verdict_call v now eid) c = render_verdict v now eid c
apply (complete_analysis_call l now eid) c = complete_analysis l now eid c
apply (mark_failed_call now eid) c = mark_failed now eid c
apply (set_thumbnail_key_call k now) c = (set_thumbnail_key k now c, none)
apply (requeue_analysis_call now eid) c = (requeue_analysis now eid c, none)

unfoldable pub run : List Call → Content → Content
run [] c = c
run (o ∷ os) c = run os (apply o c).0

-- The transition diagram.
infix 40 ◌⟶◌
pub data ◌⟶◌ : Status → Status → Type 0 where
  stay : {s : Status} → s ⟶ s
  start : uploaded ⟶ analyzing
  finish : analyzing ⟶ analyzed
  drop_pending : pending_upload ⟶ failed
  drop_uploaded : uploaded ⟶ failed
  drop_analyzing : analyzing ⟶ failed

-- What a call does to the status and the identity of a content, by its error.
pub record Steps (c : Content) (r : Content × Option Err) : Type 0 where
  pub edge : c.status ⟶ r.0.status
  pub refused : r.1 ≢ none → r.0 ≡ c
  pub same_id : r.0.id ≡ c.id
  pub same_media : r.0.media_id ≡ c.media_id
  pub same_key : r.0.object_key ≡ c.object_key

ruleset edges = (stay, start, finish, drop_pending, drop_uploaded, drop_analyzing)

start_analyzing-Steps :
    (now : Time) (eid : Uuid) (c : Content) → Steps c (start_analyzing now eid c)
unfolding start_analyzing
start_analyzing-Steps now eid c = grind (arith, edges)

render_verdict-Steps :
    (v : Verdict) (now : Time) (eid : Uuid) (c : Content) → Steps c (render_verdict v now eid c)
unfolding render_verdict
render_verdict-Steps v now eid c = grind (arith, edges)

mark_failed-Steps : (now : Time) (eid : Uuid) (c : Content) → Steps c (mark_failed now eid c)
unfolding mark_failed
mark_failed-Steps now eid c = grind (arith, edges)

set_thumbnail_key-Steps :
    (k : Text) (now : Time) (c : Content) → Steps c (set_thumbnail_key k now c, none)
unfolding set_thumbnail_key
set_thumbnail_key-Steps k now c = grind (arith, edges)

-- Every call follows the transition diagram, leaves the content as it was if it reports an error,
-- and keeps the content's id, media and object key.
pub apply-Steps : (o : Call) (c : Content) → Steps c (apply o c)
unfolding apply complete_analysis requeue_analysis
apply-Steps (start_analyzing_call now eid) c = start_analyzing-Steps now eid c
apply-Steps (render_verdict_call v now eid) c = render_verdict-Steps v now eid c
apply-Steps (complete_analysis_call l now eid) c = render_verdict-Steps _ now eid c
apply-Steps (mark_failed_call now eid) c = mark_failed-Steps now eid c
apply-Steps (set_thumbnail_key_call k now) c = set_thumbnail_key-Steps k now c
apply-Steps (requeue_analysis_call now eid) c = grind (arith, edges)

abbrev pub IsTerminal : Status → Type 0
IsTerminal s = (s ≡ analyzed) ⊎ (s ≡ failed)

⟶-IsTerminal : {s t : Status} → s ⟶ t → IsTerminal s → t ≡ s
⟶-IsTerminal stay h = refl
⟶-IsTerminal start h = ground arith
⟶-IsTerminal finish h = ground arith
⟶-IsTerminal drop_pending h = ground arith
⟶-IsTerminal drop_uploaded h = ground arith
⟶-IsTerminal drop_analyzing h = ground arith

-- Once a content is analyzed or failed no sequence of calls changes its status.
pub run_terminal :
    (os : List Call) (c : Content) → IsTerminal c.status → (run os c).status ≡ c.status
unfolding run
run_terminal [] c h = refl
run_terminal (o ∷ os) c h =
    let e = ⟶-IsTerminal (apply-Steps o c).edge h in run_terminal os (apply o c).0 (rw e h) ∙ e
