-- ===== src/Quota/Usage.antt =====
-- internal/application/query/subscription/get_quota_usage.go. The repositories are the interface
-- `UsagePorts`; what an SQL query answers is not modelled.
use Prim.Native.String.{String}
use notai_api.Base.{Bool, List, Option, false, if◌then◌else◌, length, none, not, some, true, ◌==◌}
use notai_api.Base.Int.{ltb_ℤ, mul64, pos, sub64, ℤ}
use notai_api.Base.Text.{codes}
use notai_api.Base.Values.{Time, Uuid}
use notai_api.Billing.Types.{SubscriptionStatus, active}
use notai_api.Calendar.{current_quota_period}
use notai_api.Errors.{
  Err, Result, err, external, free_plan_quota_not_found, ok, plan_quota_not_found,
  subscription_not_found, ◌>>=◌,
}
use notai_api.Quota.Types.{QuotaCounter, QuotaUsageView, QuotaView}

abbrev pub is_active : SubscriptionStatus → Bool
is_active active = true
is_active _ = false

-- The fields of the read models that the handler looks at.
pub record ClientView : Type 0 where
  pub workspace_id : Uuid
  pub member_ids : List Uuid

pub record WorkspaceView : Type 0 where
  pub id : Uuid
  pub subscription_id : Option Uuid

-- `plan` is none without a plan, and its quota none without a quota.
pub record SubscriptionView : Type 0 where
  pub status : SubscriptionStatus
  pub quota_period_start : Time
  pub start_date : Time
  pub created_at : Time
  pub plan : Option (Option QuotaView)

pub record UsagePorts : Type 0 where
  pub find_client : Uuid → Result (Option ClientView)
  pub find_workspace : Uuid → Result (Option WorkspaceView)
  pub find_subscription : Uuid → Result (Option SubscriptionView)
  -- The free plan, and its quota.
  pub find_free_plan : Result (Option (Option QuotaView))
  pub count_campaigns : Uuid → Result ℤ
  pub count_quota_units : Uuid → Time → Time → Result ℤ
  pub count_analyzing : Uuid → Result ℤ
  -- none where the handler has no media repository.
  pub sum_storage_bytes : Option (Uuid → Result ℤ)

unfoldable pub quota_left : ℤ → ℤ → ℤ
unfolding sub64
quota_left max used = let left = sub64 max used in if ltb_ℤ left (pos 0) then pos 0 else left

unfoldable pub gigabytes : ℤ → ℤ
gigabytes n = mul64 (mul64 (mul64 n (pos 1024)) (pos 1024)) (pos 1024)

unfoldable pub megabytes : ℤ → ℤ
megabytes n = mul64 (mul64 n (pos 1024)) (pos 1024)

unfoldable pub counter : ℤ → ℤ → QuotaCounter
unfolding quota_left
counter max used = record { used = used; max = max; left = quota_left max used }

abbrev pub first_set : Time → Time → Time → Time
first_set a b c = if not (a == 0) then a else if not (b == 0) then b else c

-- A failed query is reported by an error of the handler's own.
abbrev pub or_fail {ℓ} : {A : Type ℓ} → Result A → String → Result A
or_fail (ok a) text = ok a
or_fail (err e) text = err (external (codes text))

abbrev pub found {ℓ} : {A : Type ℓ} → Option A → Err → Result A
found none e = err e
found (some a) e = ok a

abbrev pub join_option {ℓ} : {A : Type ℓ} → Option (Option A) → Option A
join_option none = none
join_option (some o) = o

-- The quota of the subscription's plan, or the free plan's if the subscription is not active.
unfoldable pub effective_quota : UsagePorts → SubscriptionView → Result QuotaView
effective_quota ports sub = elim (join_option sub.plan) [
  | none ↦ err plan_quota_not_found
  | some q ↦ if is_active sub.status then ok q else elim ports.find_free_plan [
    | err e ↦ err free_plan_quota_not_found
    | ok o ↦ found (join_option o) free_plan_quota_not_found
  ]
]

unfoldable pub storage_used : UsagePorts → Uuid → Result ℤ
storage_used ports workspace = elim ports.sum_storage_bytes [
  | none ↦ ok (pos 0)
  | some sum ↦ or_fail (sum workspace) "failed to sum storage usage"
]

unfoldable pub build_usage :
    UsagePorts → ClientView → Uuid → SubscriptionView → QuotaView → Time → Result QuotaUsageView
unfolding counter gigabytes storage_used current_quota_period
build_usage ports client workspace sub quota now = do
  let anchor = first_set sub.quota_period_start sub.start_date sub.created_at
  let (from, until) = current_quota_period anchor now
  let members = pos (length client.member_ids)
  campaigns ← or_fail (ports.count_campaigns workspace) "failed to count campaigns"
  verifications ←
      or_fail (ports.count_quota_units workspace from until) "failed to count verifications"
  concurrent ← or_fail (ports.count_analyzing workspace) "failed to count concurrent analyses"
  storage ← storage_used ports workspace
  ok (record {
    workspace_id = workspace;
    members = counter quota.max_client_members members;
    campaigns = counter quota.max_campaigns campaigns;
    verifications = record {
      period_start = from;
      period_end = until;
      used = verifications;
      max = quota.max_verifications_per_month;
      left = quota_left quota.max_verifications_per_month verifications;
    };
    concurrent_analyses = counter quota.max_concurrent_analyses concurrent;
    storage = counter (gigabytes quota.max_storage_gb) storage;
    limits = quota;
    period_start = from;
    period_end = until;
  })

unfoldable pub get_quota_usage : UsagePorts → Time → Uuid → Result QuotaUsageView
unfolding effective_quota build_usage
get_quota_usage ports now client_id = do
  client ←
      found (← or_fail (ports.find_client client_id) "failed to get client") subscription_not_found
  workspace ←
      found (← or_fail (ports.find_workspace client.workspace_id) "failed to get workspace")
        subscription_not_found
  sub_id ← found workspace.subscription_id subscription_not_found
  sub ←
      found (← or_fail (ports.find_subscription sub_id) "failed to get subscription")
        subscription_not_found
  quota ← effective_quota ports sub
  build_usage ports client workspace.id sub quota now
