-- ===== src/Quota/Limits.antt =====
-- internal/application/command/quota/assert_create_allowed.go: what a passed test guarantees of
-- the limits, each stated on the numbers without wrap-around.
use notai_api.Base.{
  Bool-cases, Option, Option-cases, arith, inl, inr, is_none, leb, some, ℕ, ◌&&◌, ◌*◌, ◌+◌, ◌-◌,
  ◌<◌, ◌==◌, ◌^◌, ◌||◌, ◌≡◌,
}
use notai_api.Base.Int.{add64, mul64, neg_part, negsuc, pos, pos_part, sub64, ℤ, ◌≤ℤ◌}
use notai_api.Base.Values.{Uuid}
use notai_api.Errors.{Err, ok}
use notai_api.Quota.Assert.{
  assert_analyze, assert_batch_upload, assert_concurrent_slot, assert_storage_reserve,
  assert_verification_slots, is_positive, none_left,
}
use notai_api.Quota.Types.{QuotaUsageView}
use notai_api.Quota.Usage.{gigabytes, quota_left}

-- What is left of a limit, where the limit and what is used are not negative and an int64 holds
-- them: the difference, and nothing once the limit is reached.
quota_left_lem :
    (max used : ℤ)
    → pos 0 ≤ℤ max × (pos_part max < 2 ^ 63)
    → pos 0 ≤ℤ used × (pos_part used < 2 ^ 63)
    → quota_left max used ≡ pos (pos_part max - pos_part used)
unfolding quota_left
quota_left_lem max used h k = ground arith

-- The units a period grants: the plan's, and the grace if it is not negative.
abbrev pub granted : QuotaUsageView → ℕ
granted u = pos_part u.verifications.max + pos_part u.limits.quota_overage_grace_verifications

-- Counts of rows and limits are not negative, and small enough for an int64 to hold their sums.
abbrev pub IsCount : ℤ → Type 0
IsCount a = (neg_part a ≡ 0) × (pos_part a < 2 ^ 62)

abbrev pub IsUsage : QuotaUsageView → Type 0
IsUsage u =
    IsCount u.verifications.max
    × IsCount u.verifications.used
    × (pos_part u.limits.quota_overage_grace_verifications < 2 ^ 62)

-- For units granted and used that are not negative and, like the grace, less than 2 ^ 62, `count`
-- more units (less than 2 ^ 62) are accepted exactly when the plan sells overage, or what is used and
-- `count` together stay within the plan's units and its grace.
pub assert_verification_slots_lem :
    (u : QuotaUsageView)
    → (count : ℕ) → IsUsage u
    → count < 2 ^ 62
    → is_none (assert_verification_slots u (pos count)) ≡ (
        is_positive u.limits.overage_price_cents
        || leb (pos_part u.verifications.used + count) (granted u))
unfolding assert_verification_slots add64 sub64
assert_verification_slots_lem u count h k = ground arith

-- Where the usage can be read before and under the lock, and its units granted and used are not
-- negative and, like the grace, less than 2 ^ 62, an analysis is admitted exactly when the
-- workspace's lock is taken, the usage read under the lock leaves room for one more verification
-- (or the plan sells overage), and it has an analysis slot left.
pub assert_analyze_lem :
    (lock : Uuid → Option Err)
    → (u v : QuotaUsageView) → IsUsage v
    → is_none (assert_analyze (some lock) (ok u) (ok v)) ≡ (
        is_none (lock u.workspace_id)
        && ((is_positive v.limits.overage_price_cents
              || leb (pos_part v.verifications.used + 1) (granted v))
            && is_positive v.concurrent_analyses.left))
unfolding assert_analyze assert_concurrent_slot
assert_analyze_lem lock u v h = elim (Option-cases (lock u.workspace_id)) [
  | inr (e, p) ↦ ground arith
  | inl p ↦ grind (arith, assert_verification_slots_lem)
]

-- Where the usage can be read, a batch of a size that is not negative is accepted exactly when it
-- is no larger than the plan's limit, where a limit that is not set, or larger than twenty, is
-- twenty.
assert_batch_upload_lem :
    (u : QuotaUsageView)
    → (count : ℕ)
    → is_none (assert_batch_upload (ok u) (pos count)) ≡ (
        leb count 20
        && (leb count (pos_part u.limits.max_batch_upload_size)
            || none_left u.limits.max_batch_upload_size))
unfolding assert_batch_upload
assert_batch_upload_lem u count = ground arith

gigabytes_lem :
    (a : ℤ) → neg_part a ≡ 0 → pos_part a < 2 ^ 32 → gigabytes a ≡ pos (pos_part a * 2 ^ 30)
unfolding gigabytes mul64
gigabytes_lem (pos n) e h = ground arith
gigabytes_lem (negsuc n) e h = ground arith

-- Where the usage can be read, and for a limit that is not negative and less than 2 ^ 32 GB, a
-- stored size that is not negative and less than 2 ^ 62, and more bytes, at least one and less
-- than 2 ^ 62, these are accepted exactly when the limit is not set or all bytes together stay
-- within it.
pub assert_storage_reserve_lem :
    (u : QuotaUsageView)
    → (bytes : ℕ)
    → (neg_part u.limits.max_storage_gb ≡ 0) × (pos_part u.limits.max_storage_gb < 2 ^ 32)
    → IsCount u.storage.used
    → 0 < bytes × bytes < 2 ^ 62
    → is_none (assert_storage_reserve (ok u) (pos bytes)) ≡ (
        (pos_part u.limits.max_storage_gb == 0)
        || leb (pos_part u.storage.used + bytes) (pos_part u.limits.max_storage_gb * 2 ^ 30))
unfolding assert_storage_reserve add64
assert_storage_reserve_lem u bytes h k b =
    let g = gigabytes_lem u.limits.max_storage_gb h.0 h.1 in
    elim (Bool-cases (pos_part u.limits.max_storage_gb == 0)) [
      | inl e ↦ simp g (ground arith)
      | inr e ↦ simp g (ground arith)
    ]
