-- ===== src/Analysis/MediaVerdict.antt =====
-- internal/application/command/content/analyze_content.go: AggregateMediaVerdict.
pub mod Counts
pub mod Order
use notai_api.Base.{List, Option, [], if◌then◌else◌, length, ltb, none, some, ℕ, ◌+◌, ◌||◌, ◌∷◌}
use notai_api.Content.Entity.{Content, is_failed}
use notai_api.Content.Types.{Label, ai_generated, failed, human, other_label, uncertain}
use notai_api.Media.Types.{Verdict}

-- The variables of the loop.
pub record Tally : Type 0 where
  pub flagged : ℕ
  pub failed : ℕ
  pub uncertain : ℕ

abbrev pub count_label : Option Label → Tally → Tally
count_label none t = record t { uncertain = t.uncertain + 1 }
count_label (some ai_generated) t = record t { flagged = t.flagged + 1 }
count_label (some uncertain) t = record t { uncertain = t.uncertain + 1 }
count_label (some human) t = t
count_label (some (other_label x)) t = t

unfoldable pub count_content : Tally → Content → Tally
count_content t c =
    if is_failed c.status then record t { failed = t.failed + 1 } else count_label c.label t

unfoldable pub tally : Tally → List Content → Tally
unfolding count_content
tally t [] = t
tally t (c ∷ cs) = tally (count_content t c) cs

abbrev pub no_tally : Tally
no_tally = record { flagged = 0; failed = 0; uncertain = 0 }

unfoldable pub label_of : Tally → Label
label_of t =
    if ltb 0 t.flagged
    then ai_generated
    else if ltb 0 t.failed || ltb 0 t.uncertain
    then uncertain
    else human

unfoldable pub aggregate_media_verdict : List Content → Verdict
unfolding tally label_of
aggregate_media_verdict contents =
    let t = tally no_tally contents in
    record {
      label = label_of t;
      flagged_count = t.flagged;
      total_count = length contents;
      failed_count = t.failed;
    }
