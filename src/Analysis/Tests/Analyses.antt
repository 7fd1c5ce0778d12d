-- ===== src/Analysis/Tests/Analyses.antt =====
-- An analysis as a whole, over a small database in memory.
use notai_api.Analysis.Analyze.{
  Analysis, DetectorRun, Results, analyze_by_status, analyze_content, analyze_found,
  analyze_started, mark_answer, render_results, reweigh, save_result, save_results, selected,
  weight_of,
}
use notai_api.Analysis.Analyze.Keeping.{KeepsContents}
use notai_api.Analysis.Analyze.Rendering.{IsRendered, analyze_content_lem}
use notai_api.Analysis.Detectors.{Detector, select_detectors, select_from}
use notai_api.Analysis.Handler.{
  finalize, finalize_over, render_content, render_fresh, save_content, save_media,
  try_finalize_media,
}
use notai_api.Analysis.MediaVerdict.{aggregate_media_verdict}
use notai_api.Analysis.Outcome.{mark_success, new}
use notai_api.Analysis.Score.{aggregate, compute_label}
use notai_api.Analysis.Tests.{content_of, ones, outcomes, signal_of}
use notai_api.Base.{==_refl, [], arith, false, map, none, refl, true, ◌∷◌}
use notai_api.Base.Float.{f_0_3}
use notai_api.Base.Text.{codes}
use notai_api.Content.Entity.{is_terminal, render_verdict, validate_label}
use notai_api.Content.Types.{analyzing}
use notai_api.Database.{with_transaction}
use notai_api.Errors.{ok}
use notai_api.Media.Transitions.{render_global_verdict}
use notai_api.Memory.{Memory, memory_of, memory_store}

-- The results were saved before, and the repository keeps them.
abbrev memory_results : Results Memory
memory_results = record { upsert = λ o s. ok s; find_by_content_id = λ i s. ok outcomes }

memory_results-KeepsContents : KeepsContents memory_store memory_results
memory_results-KeepsContents = record {
  id_of_media = λ h. ground arith;
  id_of_found = λ h. ground arith;
  found_updated = λ {d} {c} f r h. (d.updated_at, ground (arith, ==_refl c.id));
  kept_by_media = λ i f r h. ground arith;
  kept_by_outbox = λ i h. ground arith;
  kept_by_commit = λ i h. ground arith;
  kept_by_results = λ i h. ground arith;
}

abbrev exif : Detector
exif = record { name = codes "exif"; expected_weight = f_0_3; is_external = false }

abbrev run_of : Detector → DetectorRun
run_of d = record {
  detector = d;
  started = 100;
  completed = 101;
  answer = ok (signal_of (codes "model") f_0_3 ∷ []);
  ruleset_version = none;
  marked = 102;
  id = 7;
}

abbrev an_analysis : Analysis Memory
an_analysis = record {
  fl = ones;
  text_of = λ e. [];
  has_media = true;
  detectors = exif ∷ [];
  quota = none;
  detector_limit = none;
  analyze = map run_of;
  now = 200;
  new_id = λ n. n;
}

abbrev analyzing_memory : Memory
analyzing_memory = memory_of (content_of analyzing none)

analyze_content_lem_example :
    IsRendered memory_store 1
      (aggregate ones (
        map
          (reweigh (selected memory_store memory_results an_analysis analyzing_memory.content))
          outcomes))
      (analyze_content memory_store memory_results an_analysis 1 analyzing_memory).1
unfolding analyze_content analyze_found analyze_by_status analyze_started save_results selected
    select_detectors select_from save_result new mark_answer mark_success render_results
    render_content render_fresh render_verdict validate_label save_content with_transaction
    try_finalize_media finalize finalize_over is_terminal aggregate compute_label
    aggregate_media_verdict render_global_verdict save_media reweigh weight_of
analyze_content_lem_example =
    analyze_content_lem memory_store memory_results memory_results-KeepsContents an_analysis 1
      analyzing_memory.content outcomes analyzing_memory refl refl refl refl
