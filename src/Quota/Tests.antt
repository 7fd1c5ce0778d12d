-- ===== src/Quota/Tests.antt =====
-- The quota tests on a small usage.
use notai_api.Base.{arith, false, is_none, none, refl, some, true, ◌≡◌}
use notai_api.Base.Int.{pos}
use notai_api.Errors.{ok}
use notai_api.Quota.Assert.{assert_analyze, assert_storage_reserve, assert_verification_slots}
use notai_api.Quota.Limits.{
  assert_analyze_lem, assert_storage_reserve_lem, assert_verification_slots_lem,
}
use notai_api.Quota.Types.{QuotaCounter, QuotaUsageView, QuotaView}

-- A plan without a limit, to be changed below.
abbrev no_limits : QuotaView
no_limits = record {
  max_client_members = pos 0;
  max_campaigns = pos 0;
  max_verifications_per_month = pos 0;
  max_concurrent_analyses = pos 0;
  max_file_size_mb = pos 0;
  report_retention_days = pos 0;
  allows_video_analysis = false;
  allows_pdf_export = false;
  allows_csv_export = false;
  allows_api_access = false;
  overage_price_cents = pos 0;
  analysis_priority = pos 0;
  max_detectors_per_analysis = pos 0;
  max_frames_per_video = pos 0;
  allows_reanalysis = false;
  max_storage_gb = pos 1;
  max_batch_upload_size = pos 25;
  frame_retention_days = pos 0;
  allows_custom_ruleset = false;
  allows_white_label_report = false;
  allows_webhooks = false;
  quota_overage_grace_verifications = pos 2;
}

abbrev full : QuotaCounter
full = record { used = pos 10; max = pos 10; left = pos 0 }

abbrev usage : QuotaUsageView
usage = record {
  workspace_id = 7;
  members = full;
  campaigns = full;
  verifications = record {
    period_start = 1;
    period_end = 2;
    used = pos 11;
    max = pos 10;
    left = pos 0;
  };
  concurrent_analyses = record { used = pos 1; max = pos 2; left = pos 1 };
  storage = full;
  limits = no_limits;
  period_start = 1;
  period_end = 2;
}

-- One unit of the grace is left.
assert_verification_slots_lem_example : is_none (assert_verification_slots usage (pos 2)) ≡ false
assert_verification_slots_lem_example =
    assert_verification_slots_lem usage 2 ((refl, omega arith), (refl, omega arith), omega arith)
      (omega arith)

assert_analyze_lem_example :
    is_none (assert_analyze (some (λ w. none)) (ok usage) (ok usage)) ≡ true
assert_analyze_lem_example =
    assert_analyze_lem (λ w. none) usage usage
      ((refl, omega arith), (refl, omega arith), omega arith)

assert_storage_reserve_lem_example :
    is_none (assert_storage_reserve (ok usage) (pos 1073741815)) ≡ false
assert_storage_reserve_lem_example =
    assert_storage_reserve_lem usage 1073741815 (refl, omega arith) (refl, omega arith)
      (omega arith, omega arith)
