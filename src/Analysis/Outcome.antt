-- ===== src/Analysis/Outcome.antt =====
-- internal/domain/analysisresult/entity.go: the outcome of one detector for a content.
use notai_api.Base.{Bool, List, Option, [], false, if◌then◌else◌, is_empty, none, some, true, ◌==◌}
use notai_api.Base.Float.{Float64, f_one, f_zero, ge}
use notai_api.Base.Int.{ℤ}
use notai_api.Base.Text.{Text, trim_space}
use notai_api.Base.Values.{Time, Uuid, uuid_nil}
use notai_api.Content.Types.{Signal}
use notai_api.Errors.{Result, content_id_required, err, invalid_detector_name, ok}

pub data ResultStatus : Type 0 where
  success failure timeout : ResultStatus

-- The status is none until the outcome is marked, where the source has the empty string.
pub record Outcome : Type 0 where
  pub id : Uuid
  pub content_id : Uuid
  pub detector_name : Text
  pub status : Option ResultStatus
  pub signals : List Signal
  pub error : Text
  pub started_at : Time
  pub completed_at : Time
  pub weight : Float64
  pub ruleset_version : Option ℤ

-- `weight <= 0`
abbrev pub not_positive : Float64 → Bool
not_positive w = ge f_zero w

unfoldable pub new : Uuid → Text → Time → Time → Float64 → Time → Uuid → Result Outcome
unfolding trim_space ge
new content name started completed weight now id =
    let n = trim_space name in
    if is_empty n
    then err invalid_detector_name
    else if content == uuid_nil
    then err content_id_required
    else ok (record {
      id = id;
      content_id = content;
      detector_name = n;
      status = none;
      signals = [];
      error = [];
      started_at = if started == 0 then now else started;
      completed_at = if completed == 0 then now else completed;
      weight = if not_positive weight then f_one else weight;
      ruleset_version = none;
    })

unfoldable pub mark_success : List Signal → Time → Outcome → Outcome
mark_success signals now r = record r {
  status = some success;
  signals = signals;
  error = [];
  completed_at = now;
}

unfoldable pub mark_failed : Text → Time → Outcome → Outcome
mark_failed message now r = record r {
  status = some failure;
  signals = [];
  error = message;
  completed_at = now;
}

unfoldable pub mark_timeout : Text → Time → Outcome → Outcome
mark_timeout message now r = record r {
  status = some timeout;
  signals = [];
  error = message;
  completed_at = now;
}

unfoldable pub expected_weight : Outcome → Float64
unfolding ge
expected_weight r = if not_positive r.weight then f_one else r.weight

abbrev pub is_success : Option ResultStatus → Bool
is_success (some success) = true
is_success _ = false
