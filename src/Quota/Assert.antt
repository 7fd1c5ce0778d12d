-- ===== src/Quota/Assert.antt =====
-- internal/application/command/quota/assert_create_allowed.go. `usage` is what GetQuotaUsage
-- answers to the call in the method; a method answers none where the source returns nil.
use notai_api.Base.{Bool, Option, if◌then◌else◌, none, not, some, ◌&&◌}
use notai_api.Base.Int.{add64, leb_ℤ, ltb_ℤ, pos, sub64, ℤ}
use notai_api.Base.Values.{Uuid}
use notai_api.Errors.{
  Err, Result, batch_upload_quota_exceeded, campaign_quota_exceeded, concurrent_quota_exceeded, err,
  file_size_quota_exceeded, member_quota_exceeded, ok, quota_locker_required,
  storage_quota_exceeded, verification_quota_exceeded, video_analysis_not_allowed,
}
use notai_api.Media.Entity.{max_presign_batch}
use notai_api.Media.Types.{MediaType, is_video}
use notai_api.Quota.Types.{QuotaUsageView}
use notai_api.Quota.Usage.{gigabytes, megabytes}

abbrev pub with_usage : Result QuotaUsageView → (QuotaUsageView → Option Err) → Option Err
with_usage (err e) test = some e
with_usage (ok u) test = test u

abbrev pub refuse : Bool → Err → Option Err
refuse b e = if b then some e else none

-- `x <= 0` and `x > 0`
abbrev pub none_left : ℤ → Bool
none_left x = leb_ℤ x (pos 0)

abbrev pub is_positive : ℤ → Bool
is_positive x = ltb_ℤ (pos 0) x

unfoldable pub assert_member_create : Result QuotaUsageView → Option Err
assert_member_create usage =
    with_usage usage (λ u. refuse (none_left u.members.left) member_quota_exceeded)

unfoldable pub assert_campaign_create : Result QuotaUsageView → Option Err
assert_campaign_create usage =
    with_usage usage (λ u. refuse (none_left u.campaigns.left) campaign_quota_exceeded)

unfoldable pub assert_verification_slots : QuotaUsageView → ℤ → Option Err
assert_verification_slots u count =
    let g = u.limits.quota_overage_grace_verifications in
    let grace = if ltb_ℤ g (pos 0) then pos 0 else g in
    let left = sub64 (add64 u.verifications.max grace) u.verifications.used in
    if is_positive u.limits.overage_price_cents
    then none
    else refuse (ltb_ℤ left count) verification_quota_exceeded

unfoldable pub assert_concurrent_slot : QuotaUsageView → Option Err
assert_concurrent_slot u = refuse (none_left u.concurrent_analyses.left) concurrent_quota_exceeded

unfoldable pub assert_verification_reserve : Result QuotaUsageView → ℤ → Option Err
unfolding assert_verification_slots
assert_verification_reserve usage count =
    if none_left count then none else with_usage usage (λ u. assert_verification_slots u count)

unfoldable pub assert_verification_create : Result QuotaUsageView → Option Err
unfolding assert_verification_reserve
assert_verification_create usage = assert_verification_reserve usage (pos 1)

unfoldable pub assert_concurrent_analysis : Result QuotaUsageView → Option Err
unfolding assert_concurrent_slot
assert_concurrent_analysis usage = with_usage usage assert_concurrent_slot

-- The test on the size that AssertFileSize and AssertMediaUpload share.
unfoldable pub over_file_size : QuotaUsageView → ℤ → Bool
over_file_size u size =
    let max = megabytes u.limits.max_file_size_mb in is_positive max && ltb_ℤ max size

unfoldable pub assert_file_size : Result QuotaUsageView → ℤ → Option Err
unfolding over_file_size
assert_file_size usage size =
    with_usage usage (λ u. refuse (over_file_size u size) file_size_quota_exceeded)

unfoldable pub assert_media_upload : Result QuotaUsageView → MediaType → Option ℤ → Option Err
unfolding over_file_size
assert_media_upload usage t size = with_usage usage λ u.
    if is_video t && not u.limits.allows_video_analysis
    then some video_analysis_not_allowed
    else elim size [ none ↦ none | some s ↦ refuse (over_file_size u s) file_size_quota_exceeded ]

abbrev pub max_batch : ℤ
max_batch = pos max_presign_batch

unfoldable pub assert_batch_upload : Result QuotaUsageView → ℤ → Option Err
assert_batch_upload usage count =
    if none_left count
    then none
    else with_usage usage λ u.
      let m = u.limits.max_batch_upload_size in
      let m' = if none_left m then max_batch else m in
      let m'' = if ltb_ℤ max_batch m' then max_batch else m' in
      refuse (ltb_ℤ m'' count) batch_upload_quota_exceeded

unfoldable pub assert_storage_reserve : Result QuotaUsageView → ℤ → Option Err
assert_storage_reserve usage additional =
    if none_left additional
    then none
    else with_usage usage λ u.
      let max = gigabytes u.limits.max_storage_gb in
      if none_left max
      then none
      else refuse (ltb_ℤ max (add64 u.storage.used additional)) storage_quota_exceeded

-- The usage is read before the lock, for the workspace to lock, and again under it. `locker` is
-- none where the handler has none, and else answers the error of locking a workspace.
unfoldable pub assert_analyze :
    Option (Uuid → Option Err) → Result QuotaUsageView → Result QuotaUsageView → Option Err
unfolding assert_verification_slots assert_concurrent_slot
assert_analyze none before under = some quota_locker_required
assert_analyze (some lock) before under = with_usage before λ u. elim (lock u.workspace_id) [
  | some e ↦ some e
  | none ↦ with_usage under λ v. elim (assert_verification_slots v (pos 1)) [
    | some e ↦ some e
    | none ↦ assert_concurrent_slot v
  ]
]
