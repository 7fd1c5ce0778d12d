-- ===== src/Quota/Types.antt =====
-- internal/domain/quota/repository.go (QuotaView) and
-- internal/application/query/subscription/quota_usage_types.go. An int is 64 bits wide.
use notai_api.Base.{Bool}
use notai_api.Base.Int.{ℤ}
use notai_api.Base.Values.{Time, Uuid}

pub record QuotaView : Type 0 where
  pub max_client_members : ℤ
  pub max_campaigns : ℤ
  pub max_verifications_per_month : ℤ
  pub max_concurrent_analyses : ℤ
  pub max_file_size_mb : ℤ
  pub report_retention_days : ℤ
  pub allows_video_analysis : Bool
  pub allows_pdf_export : Bool
  pub allows_csv_export : Bool
  pub allows_api_access : Bool
  pub overage_price_cents : ℤ
  pub analysis_priority : ℤ
  pub max_detectors_per_analysis : ℤ
  pub max_frames_per_video : ℤ
  pub allows_reanalysis : Bool
  pub max_storage_gb : ℤ
  pub max_batch_upload_size : ℤ
  pub frame_retention_days : ℤ
  pub allows_custom_ruleset : Bool
  pub allows_white_label_report : Bool
  pub allows_webhooks : Bool
  pub quota_overage_grace_verifications : ℤ

pub record QuotaCounter : Type 0 where
  pub used : ℤ
  pub max : ℤ
  pub left : ℤ

pub record MonthlyQuotaCounter : Type 0 where
  pub period_start : Time
  pub period_end : Time
  pub used : ℤ
  pub max : ℤ
  pub left : ℤ

-- QuotaLimits is the quota without its name, its times and the four limits that have counters.
pub record QuotaUsageView : Type 0 where
  pub workspace_id : Uuid
  pub members : QuotaCounter
  pub campaigns : QuotaCounter
  pub verifications : MonthlyQuotaCounter
  pub concurrent_analyses : QuotaCounter
  pub storage : QuotaCounter
  pub limits : QuotaView
  pub period_start : Time
  pub period_end : Time
