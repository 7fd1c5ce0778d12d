-- ===== src/Analysis/Tests.antt =====
-- Runs of the analysis functions on small inputs.
mod Analyses
mod Transactions
use mathlib.Core.List.{Permᴰ}
use notai_api.Analysis.Detectors.{
  Detector, IsSubsequence, external_ones, local_ones, max_external, select_detectors,
  select_detectors_lem,
}
use notai_api.Analysis.MediaVerdict.{aggregate_media_verdict}
use notai_api.Analysis.MediaVerdict.Counts.{
  aggregate_media_verdict_counts, aggregate_media_verdict_label,
}
use notai_api.Analysis.MediaVerdict.Order.{aggregate_media_verdict-perm}
use notai_api.Analysis.Outcome.{Outcome, ResultStatus, expected_weight, failure, success}
use notai_api.Analysis.Score.{aggregate, compute_label, is_scoring}
use notai_api.Analysis.Score.Labels.{aggregate_lem}
use notai_api.Base.{
  Bool, List, Option, [], false, none, refl, some, true, ℕ, ◌+◌, ◌<◌, ◌↔◌, ◌∷◌, ◌≡◌, ◌≤◌,
}
use notai_api.Base.Float.{Float64, FloatArith, f_0_3, f_one, ge, gt}
use notai_api.Base.Int.{pos}
use notai_api.Base.Text.{Text, codes}
use notai_api.Content.Entity.{Content}
use notai_api.Content.Types.{
  Label, Signal, Status, ai_generated, analyzed, failed, human, uncertain,
}
use notai_api.Errors.{ok}
use notai_api.Messaging.Consumer.{other}

-- An arithmetic for the tests: it always answers 1.
abbrev pub ones : FloatArith
ones = record { add = λ x. λ y. f_one; sub = λ x. λ y. f_one }

abbrev pub signal_of : Text → Float64 → Signal
signal_of type weight = record { type = type; code = []; description = []; weight = weight }

abbrev outcome_of : Option ResultStatus → List Signal → Outcome
outcome_of status signals = record {
  id = 1;
  content_id = 2;
  detector_name = codes "exif";
  status = status;
  signals = signals;
  error = [];
  started_at = 100;
  completed_at = 101;
  weight = f_one;
  ruleset_version = none;
}

-- The failed outcome's signal and the meta signal weigh 1 and do not count.
abbrev pub outcomes : List Outcome
outcomes =
    outcome_of (some success)
      (signal_of (codes "meta") f_one ∷ signal_of (codes "model") f_0_3 ∷ [])
    ∷ outcome_of (some failure) (signal_of (codes "model") f_one ∷ [])
    ∷ []

aggregate_lem_example :
    (((aggregate ones outcomes).label ≡ ai_generated) ↔ (false ≡ true))
    × (((aggregate ones outcomes).label ≡ human) ↔ (false ≡ false))
unfolding is_scoring ge gt
aggregate_lem_example = aggregate_lem ones outcomes

abbrev pub content_of : Status → Option Label → Content
content_of status label = record {
  id = 1;
  media_id = 2;
  frame_index = none;
  timestamp_ms = none;
  object_key = codes "k";
  thumbnail_key = none;
  size_bytes = none;
  label = label;
  confidence = none;
  status = status;
  created_at = 100;
  updated_at = 100;
  campaign_id = 3;
  client_id = 4;
  events = [];
}

abbrev contents : List Content
contents =
    content_of analyzed (some human)
    ∷ content_of failed none
    ∷ content_of analyzed (some ai_generated)
    ∷ []

aggregate_media_verdict_counts_example :
    let v = aggregate_media_verdict contents in
    (v.total_count ≡ 3)
    × (v.flagged_count ≡ 1)
    × (v.failed_count ≡ 1)
    × (v.flagged_count + v.failed_count ≤ v.total_count)
aggregate_media_verdict_counts_example = aggregate_media_verdict_counts contents

aggregate_media_verdict_label_example :
    let l = (aggregate_media_verdict contents).label in
    ((l ≡ ai_generated) ↔ (0 < 1))
    × ((l ≡ human) ↔ (◌≡◌ {A = ℕ} 2 0))
    × ((l ≡ uncertain) ↔ ((◌≡◌ {A = ℕ} 1 0) × (0 < 1)))
aggregate_media_verdict_label_example = aggregate_media_verdict_label contents

abbrev detector_of : Text → Bool → Detector
detector_of name outside = record { name = name; expected_weight = f_one; is_external = outside }

abbrev detectors : List Detector
detectors =
    detector_of (codes "sightengine") true
    ∷ detector_of (codes "exif") false
    ∷ detector_of (codes "other") true
    ∷ []

select_detectors_lem_example :
    let kept = select_detectors (some (ok (pos 1))) detectors in
    (local_ones kept ≡ detector_of (codes "exif") false ∷ [])
    × (external_ones kept ≡ detector_of (codes "sightengine") true ∷ [])
    × IsSubsequence kept detectors
unfolding max_external
select_detectors_lem_example = select_detectors_lem (some (ok (pos 1))) detectors

aggregate_media_verdict-perm_example :
    let c = content_of analyzed (some human) in
    let d = content_of analyzed (some ai_generated) in
    aggregate_media_verdict (c ∷ d ∷ []) ≡ aggregate_media_verdict (d ∷ c ∷ [])
aggregate_media_verdict-perm_example =
    aggregate_media_verdict-perm
      {xs = content_of analyzed (some human) ∷ content_of analyzed (some ai_generated) ∷ []}
      {ys = content_of analyzed (some ai_generated) ∷ content_of analyzed (some human) ∷ []}
      (Permᴰ.swap refl refl)
