-- ===== src/Analysis/Analyze.antt =====
-- internal/application/command/content/analyze_content.go: Handle as a whole. The goroutines of the
-- detectors touch the database only by the upserts of their results, so that a run of them is the order
-- of these; an error of one does not stop the others, and Wait answers the first. `fl` is the arithmetic
-- of float64.
pub mod Keeping
pub mod Rendering
use notai_api.Analysis.Detectors.{Detector, select_detectors}
use notai_api.Analysis.Handler.{render_content, start_or_block, try_finalize_media}
use notai_api.Analysis.Outcome.{Outcome, expected_weight, mark_failed, mark_success, new}
use notai_api.Analysis.Score.{aggregate}
use notai_api.Base.{
  Bool, List, Option, [], if◌then◌else◌, is_empty, is_some, map, none, some, ℕ, ◌==◌, ◌∷◌,
}
use notai_api.Base.Float.{Float64, FloatArith}
use notai_api.Base.Int.{ℤ}
use notai_api.Base.Text.{Text, text_eq}
use notai_api.Base.Values.{Time, Uuid, uuid_nil}
use notai_api.Content.Entity.{Content}
use notai_api.Content.Types.{Signal, Status, analyzed, analyzing, failed, pending_upload, uploaded}
use notai_api.Database.{M, Store, ask, fail_with, ret, write, ◌>>=◌, ◌>>◌}
use notai_api.Errors.{Err, Result, content_id_required, err, media_not_found, no_detectors, ok}
use notai_api.Media.Entity.{Media}
use notai_api.Media.Outcomes.{outcomes}

-- The analysis of one detector: what Analyze answered and when, what TakeRulesetVersion answered, the
-- time of the calls that mark the result, and its UUID.
pub record DetectorRun : Type 0 where
  pub detector : Detector
  pub started : Time
  pub completed : Time
  pub answer : Result (List Signal)
  pub ruleset_version : Option ℤ
  pub marked : Time
  pub id : Uuid

-- The repository of results.
pub record Results (S : Type 0) : Type 0 where
  pub upsert : Outcome → S → Result S
  pub find_by_content_id : Uuid → S → Result (List Outcome)

unfoldable pub mark_answer : (Err → Text) → DetectorRun → Outcome → Outcome
mark_answer text_of r o =
    let o' : Outcome = elim r.answer [
      | err e ↦ mark_failed (text_of e) r.marked o
      | ok signals ↦ mark_success signals r.marked o
    ] in
    record o' { ruleset_version = r.ruleset_version }

-- `weights[d.Name()]`, where a later detector of the same name wins.
unfoldable pub weight_of : List Detector → Text → Option Float64
weight_of [] name = none
weight_of (d ∷ ds) name =
    let rest = weight_of ds name in
    if is_some rest then rest else if text_eq d.name name then some d.expected_weight else none

unfoldable pub reweigh : List Detector → Outcome → Outcome
reweigh ds o = elim (weight_of ds o.detector_name) [ none ↦ o | some w ↦ record o { weight = w } ]

-- What the handler is made of, and what a call is given: the arguments of NewAnalyzeContentHandler, with
-- the answers of the quota handler, what the detectors answer, the time, and the fresh UUIDs.
pub record Analysis (S : Type 0) : Type 0 where
  pub fl : FloatArith
  pub text_of : Err → Text
  pub has_media : Bool
  pub detectors : List Detector
  pub quota : Option (Uuid → S → Option Err)
  pub detector_limit : Option (Uuid → Result ℤ)
  pub analyze : List Detector → List DetectorRun
  pub now : Time
  pub new_id : ℕ → Uuid

module _ {S : Type 0} (store : Store S) (results : Results S) where
  -- One goroutine, after Analyze.
  unfoldable pub save_result : (Err → Text) → Content → DetectorRun → M S (Unit {0})
  save_result text_of c r =
      let d = r.detector in
      ask (λ s. new c.id d.name r.started r.completed d.expected_weight r.marked r.id) >>= λ o.
      write (results.upsert (mark_answer text_of r o))

  -- All of them, in the order in which they finish.
  unfoldable pub save_results : (Err → Text) → Content → List DetectorRun → M S (Unit {0})
  save_results text_of c [] s = (ok tt, s)
  save_results text_of c (r ∷ rs) s =
      let (first, t) = save_result text_of c r s in
      let (others, u) = save_results text_of c rs t in
      (elim first [ err e ↦ err e | ok a ↦ others ], u)

  -- The detectors that are run.
  unfoldable pub selected : Analysis S → Content → List Detector
  selected a c =
      select_detectors
        (elim a.detector_limit [ none ↦ none | some limit ↦ some (limit c.client_id) ]) a.detectors

  -- What is done with the results.
  unfoldable pub render_results : Analysis S → Content → List Outcome → M S (Unit {0})
  render_results a c outcomes =
      let verdict = aggregate a.fl (map (reweigh (selected a c)) outcomes) in
      render_content store c.id verdict a.now (a.new_id 0)
      >> try_finalize_media store a.has_media c.media_id a.now (a.new_id 1)

  -- The stage of the detectors, and what follows it.
  unfoldable pub analyze_started : Analysis S → Content → M S (Unit {0})
  analyze_started a c =
      save_results a.text_of c (a.analyze (selected a c))
      >> ask (results.find_by_content_id c.id)
      >>= render_results a c

  unfoldable pub analyze_uploaded : Analysis S → Content → Option Media → M S (Unit {0})
  analyze_uploaded a c none = fail_with media_not_found
  analyze_uploaded a c (some m) =
      start_or_block store a.quota a.text_of m c a.now (a.new_id 2) (a.new_id 3) (a.new_id 4)
      >>= analyze_started a

  -- The switch over the status of the content.
  unfoldable pub analyze_by_status : Analysis S → Content → Status → M S (Unit {0})
  analyze_by_status a c analyzed =
      try_finalize_media store a.has_media c.media_id a.now (a.new_id 1)
  analyze_by_status a c uploaded = ask (store.get_media c.media_id) >>= analyze_uploaded a c
  analyze_by_status a c analyzing = analyze_started a c
  analyze_by_status a c pending_upload = ret tt
  analyze_by_status a c failed = ret tt

  unfoldable pub analyze_found : Analysis S → Option Content → M S (Unit {0})
  analyze_found a none = ret tt
  analyze_found a (some c) = analyze_by_status a c c.status

  unfoldable pub analyze_content : Analysis S → Uuid → M S (Unit {0})
  analyze_content a content_id =
      if content_id == uuid_nil
      then fail_with content_id_required
      else if is_empty a.detectors
      then fail_with no_detectors
      else (ask (store.get_content content_id) >>= analyze_found a)
