-- ===== src/Analysis/Score.antt =====
-- internal/application/command/content/analyze_content.go: computeLabel and aggregate.
pub mod Labels
use notai_api.Analysis.Outcome.{Outcome, expected_weight, is_success}
use notai_api.Base.{
  Bool, List, [], false, if◌then◌else◌, length, true, ℕ, ◌&&◌, ◌++◌, ◌+◌, ◌||◌, ◌∷◌,
}
use notai_api.Base.Decimal.{decimal}
use notai_api.Base.Float.{Float64, FloatArith, f_0_3, f_0_5, f_0_7, f_one, f_zero, ge, gt}
use notai_api.Base.Text.{codes, text_eq}
use notai_api.Content.Types.{Label, Signal, Verdict, ai_generated, human, uncertain}

-- The tests of the inner switch: whether a signal's weight is looked at.
unfoldable pub is_scoring : Signal → Bool
is_scoring s =
    if text_eq s.type (codes "meta")
    then false
    else if text_eq s.type (codes "model")
        || text_eq s.type (codes "heuristic")
        || text_eq s.type (codes "metadata")
    then true
    else text_eq s.code (codes "sightengine_genai") || text_eq s.code (codes "suspicious_filename")

-- The loop that raises aiScore.
unfoldable pub ai_score : Float64 → List Signal → Float64
unfolding is_scoring gt
ai_score acc [] = acc
ai_score acc (s ∷ ss) = ai_score (if is_scoring s && gt s.weight acc then s.weight else acc) ss

unfoldable pub label_of_score : FloatArith → Float64 → Label × Float64
label_of_score fl x =
    let conf = fl.sub f_one x in
    if ge x f_0_7
    then (ai_generated, x)
    else if ge f_0_3 x
    then (human, if gt conf f_one then f_one else conf)
    else (uncertain, f_0_5)

unfoldable pub compute_label : FloatArith → List Signal → Label × Float64
unfolding ai_score label_of_score
compute_label fl signals = label_of_score fl (ai_score f_zero signals)

-- The variables of the loop in aggregate.
pub record Sums : Type 0 where
  pub signals : List Signal
  pub responded_weight : Float64
  pub total_weight : Float64
  pub success_count : ℕ

unfoldable pub add_outcome : FloatArith → Sums → Outcome → Sums
unfolding expected_weight
add_outcome fl s r =
    let w = expected_weight r in
    let s' = record s { total_weight = fl.add s.total_weight w } in
    if is_success r.status
    then record s' {
      success_count = s.success_count + 1;
      signals = s.signals ++ r.signals;
      responded_weight = fl.add s.responded_weight w;
    }
    else s'

unfoldable pub add_outcomes : FloatArith → Sums → List Outcome → Sums
unfolding add_outcome
add_outcomes fl s [] = s
add_outcomes fl s (r ∷ rs) = add_outcomes fl (add_outcome fl s r) rs

abbrev pub no_sums : Sums
no_sums = record {
  signals = [];
  responded_weight = f_zero;
  total_weight = f_zero;
  success_count = 0;
}

-- "%d/%d sources responded"
unfoldable pub partial_sources : ℕ → ℕ → Signal
unfolding decimal
partial_sources successes all = record {
  type = codes "meta";
  code = codes "partial_sources";
  description = decimal successes ++ (b'/' ∷ (decimal all ++ codes " sources responded"));
  weight = f_zero;
}

unfoldable pub aggregate : FloatArith → List Outcome → Verdict
unfolding add_outcomes compute_label partial_sources gt
aggregate fl results =
    let s = add_outcomes fl no_sums results in
    let (label, confidence) = compute_label fl s.signals in
    record {
      label = label;
      confidence = confidence;
      signals =
          if gt s.total_weight s.responded_weight
          then s.signals ++ (partial_sources s.success_count (length results) ∷ [])
          else s.signals;
    }
