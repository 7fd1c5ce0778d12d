-- ===== src/Content/Tests.antt =====
-- Runs of the content methods on small inputs.
use notai_api.Base.{List, [], inl, none, refl, true, ◌∷◌, ◌≡◌}
use notai_api.Base.Int.{negsuc}
use notai_api.Base.Text.{codes}
use notai_api.Content.Entity.{
  Content, complete_analysis, mark_failed, new_from_media, render_verdict, start_analyzing,
}
use notai_api.Content.Lifecycle.{
  Call, Steps, apply, apply-Steps, complete_analysis_call, mark_failed_call, run, run_terminal,
  start_analyzing_call,
}
use notai_api.Content.Types.{ai_generated, human}
use notai_api.Content.Verdicts.{run-announces_verdict, verdict_labels}
use notai_api.Errors.{ok}

-- A content as NewFromMedia makes it.
abbrev made :
    (c : Content) × (new_from_media 1 2 3 (codes " key ") none none (negsuc 4) [] 100 4 5 6 ≡ ok c)
unfolding new_from_media
made = (_, refl)

-- It is analyzed, and found to be generated; the calls around do nothing.
abbrev calls : List Call
calls =
    complete_analysis_call human 101 10
    ∷ start_analyzing_call 102 11
    ∷ complete_analysis_call ai_generated 103 12
    ∷ mark_failed_call 104 13
    ∷ start_analyzing_call 105 14
    ∷ []

run-announces_verdict_example :
    (verdict_labels (run calls made.0).events ≡ ai_generated ∷ []) × (true ≡ true) × (true ≡ true)
unfolding new_from_media run apply complete_analysis render_verdict mark_failed start_analyzing
run-announces_verdict_example =
    run-announces_verdict calls 1 2 3 (codes " key ") none none (negsuc 4) [] 100 4 5 6 made.1

run_terminal_example : (run calls (run calls made.0)).status ≡ (run calls made.0).status
unfolding new_from_media run apply complete_analysis render_verdict mark_failed start_analyzing
run_terminal_example = run_terminal calls (run calls made.0) (inl refl)

apply-Steps_example : Steps made.0 (apply (start_analyzing_call 102 11) made.0)
apply-Steps_example = apply-Steps (start_analyzing_call 102 11) made.0
