-- ===== src/Media/Lifecycle.antt =====
-- The life of a media under any sequence of its methods.
use notai_api.Base.{Bool, List, Option, [], arith, none, refl, ◌∙◌, ◌∷◌, ◌≡◌, ◌≢◌, ◌⊎◌}
use notai_api.Base.Int.{ℤ}
use notai_api.Base.Text.{Text}
use notai_api.Base.Values.{Time, Uuid}
use notai_api.Errors.{Err}
use notai_api.Media.Entity.{Media, SoftDeleteObjectRef, soft_delete}
use notai_api.Media.Transitions.{
  mark_failed, mark_uploaded, render_global_verdict, requeue_uploaded, start_processing, touch,
}
use notai_api.Media.Types.{Status, Verdict, analyzed, failed, pending_upload, processing, uploaded}

-- A call of a method, with the time and the UUIDs that it draws.
pub data Call : Type 0 where
  mark_uploaded_call : ℤ → Text → Time → Uuid → Call
  start_processing_call : Time → Uuid → Uuid → Call
  render_global_verdict_call : Verdict → Time → Uuid → Call
  mark_failed_call : Text → Time → Uuid → Call
  touch_call : Time → Time → Call
  requeue_uploaded_call : Time → Uuid → Call
  soft_delete_call : (Uuid → Text) → List SoftDeleteObjectRef → Bool → Time → Uuid → Call

unfoldable pub apply : Call → Media → Media × Option Err
apply (mark_uploaded_call size ct now eid) m = mark_uploaded size ct now eid m
apply (start_processing_call now e1 e2) m = start_processing now e1 e2 m
apply (render_global_verdict_call v now eid) m = render_global_verdict v now eid m
apply (mark_failed_call reason now eid) m = mark_failed reason now eid m
apply (touch_call at now) m = (touch at now m, none)
apply (requeue_uploaded_call now eid) m = requeue_uploaded now eid m
apply (soft_delete_call str refs cascade now eid) m = (soft_delete str refs cascade now eid m, none)

unfoldable pub run : List Call → Media → Media
run [] m = m
run (o ∷ os) m = run os (apply o m).0

-- The transition diagram.
infix 40 ◌⟶◌
pub data ◌⟶◌ : Status → Status → Type 0 where
  stay : {s : Status} → s ⟶ s
  upload : pending_upload ⟶ uploaded
  start : uploaded ⟶ processing
  finish_uploaded : uploaded ⟶ analyzed
  finish : processing ⟶ analyzed
  drop_pending : pending_upload ⟶ failed
  drop_uploaded : uploaded ⟶ failed
  drop_processing : processing ⟶ failed

ruleset edges =
    (stay, upload, start, finish_uploaded, finish, drop_pending, drop_uploaded, drop_processing)

-- What a call does to the status and the identity of a media, by its error.
pub record Follows (m : Media) (r : Media × Option Err) : Type 0 where
  pub edge : m.status ⟶ r.0.status
  pub refused : r.1 ≢ none → r.0 ≡ m
  pub same_id : r.0.id ≡ m.id
  pub same_key : r.0.object_key ≡ m.object_key
  pub same_type : r.0.media_type ≡ m.media_type

mark_uploaded-Follows :
    (size : ℤ) (ct : Text) (now : Time) (eid : Uuid) (m : Media)
    → Follows m (mark_uploaded size ct now eid m)
unfolding mark_uploaded
mark_uploaded-Follows size ct now eid m = grind (arith, edges)

start_processing-Follows :
    (now : Time) (e1 e2 : Uuid) (m : Media) → Follows m (start_processing now e1 e2 m)
unfolding start_processing
start_processing-Follows now e1 e2 m = grind (arith, edges)

render_global_verdict-Follows :
    (v : Verdict) (now : Time) (eid : Uuid) (m : Media)
    → Follows m (render_global_verdict v now eid m)
unfolding render_global_verdict
render_global_verdict-Follows v now eid m = grind (arith, edges)

mark_failed-Follows :
    (reason : Text) (now : Time) (eid : Uuid) (m : Media) → Follows m (mark_failed reason now eid m)
unfolding mark_failed
mark_failed-Follows reason now eid m = grind (arith, edges)

-- Every call follows the transition diagram, leaves the media as it was if it reports an error, and
-- keeps the media's id, object key and type.
pub apply-Follows : (o : Call) (m : Media) → Follows m (apply o m)
unfolding apply touch requeue_uploaded soft_delete
apply-Follows (mark_uploaded_call size ct now eid) m = mark_uploaded-Follows size ct now eid m
apply-Follows (start_processing_call now e1 e2) m = start_processing-Follows now e1 e2 m
apply-Follows (render_global_verdict_call v now eid) m = render_global_verdict-Follows v now eid m
apply-Follows (mark_failed_call reason now eid) m = mark_failed-Follows reason now eid m
apply-Follows (touch_call at now) m = grind (arith, edges)
apply-Follows (requeue_uploaded_call now eid) m = grind (arith, edges)
apply-Follows (soft_delete_call str refs cascade now eid) m = grind (arith, edges)

abbrev pub IsTerminal : Status → Type 0
IsTerminal s = (s ≡ analyzed) ⊎ (s ≡ failed)

⟶-IsTerminal : {s t : Status} → s ⟶ t → IsTerminal s → t ≡ s
⟶-IsTerminal stay h = refl
⟶-IsTerminal upload h = ground arith
⟶-IsTerminal start h = ground arith
⟶-IsTerminal finish_uploaded h = ground arith
⟶-IsTerminal finish h = ground arith
⟶-IsTerminal drop_pending h = ground arith
⟶-IsTerminal drop_uploaded h = ground arith
⟶-IsTerminal drop_processing h = ground arith

-- Once a media is analyzed or failed no sequence of calls changes its status.
pub run_final : (os : List Call) (m : Media) → IsTerminal m.status → (run os m).status ≡ m.status
unfolding run
run_final [] m h = refl
run_final (o ∷ os) m h =
    let e = ⟶-IsTerminal (apply-Follows o m).edge h in run_final os (apply o m).0 (rw e h) ∙ e
