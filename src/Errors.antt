-- ===== src/Errors.antt =====
-- Error values and results. A Go function that returns (T, error) returns `Result T`; a method that
-- changes its receiver and returns an error returns the receiver with an `Option Err`.
use notai_api.Base.{Bool, if◌then◌else◌, inl, inr, refl, ◌≡◌, ◌⊎◌}
use notai_api.Base.Text.{Text}

-- The sentinel errors of the modelled packages, and the errors made on the spot.
pub data Err : Type 0 where
  -- internal/domain/content/entity.go
  content_invalid_transition invalid_label : Err
  media_id_required object_key_required : Err
  -- internal/domain/media/entity.go
  media_invalid_transition invalid_filename unsupported_content_type invalid_media_type : Err
  -- internal/application/command/quota/assert_create_allowed.go
  member_quota_exceeded campaign_quota_exceeded verification_quota_exceeded : Err
  concurrent_quota_exceeded file_size_quota_exceeded video_analysis_not_allowed : Err
  batch_upload_quota_exceeded storage_quota_exceeded : Err
  quota_locker_required : Err
  -- internal/application/query/subscription
  subscription_not_found plan_quota_not_found free_plan_quota_not_found : Err
  -- internal/domain/analysisresult/entity.go
  invalid_detector_name content_id_required : Err
  -- internal/application/command
  no_detectors file_too_large media_not_found : Err
  failed_to_get_media failed_to_update_media failed_to_create_content : Err
  -- internal/application/event/dedup/with_dedup.go
  missing_event_id : Err
  -- internal/domain/campaign
  default_campaign_protected missing_schedule invalid_schedule campaign_not_found : Err
  unsupported_background_type : Err
  -- internal/application/command/subscription/errors.go
  stripe_subscription_not_linked : Err
  -- errors.New of a text, made on the spot.
  new_error : Text → Err
  -- What a database, a store or another outside service reports.
  external : Text → Err

-- What a fallible function returns: its error, or its value with a nil error.
pub data Result {ℓ} (A : Type ℓ) : Type ℓ where
  err : Err → Result A
  ok : A → Result A

pub Result-cases {ℓ} :
    {A : Type ℓ} (r : Result A) → ((e : Err) × (r ≡ err e)) ⊎ ((a : A) × (r ≡ ok a))
Result-cases (err e) = inl (e, refl)
Result-cases (ok a) = inr (a, refl)

-- `if failed { return e }`
abbrev pub refuse_if : Bool → Err → Result (Unit {0})
refuse_if failed e = if failed then err e else ok tt

-- `if err != nil { return err }` between two calls.
infixl 5 ◌>>=◌ ◌>>◌
abbrev pub ◌>>=◌ {ℓ κ} : {A : Type ℓ} → {B : Type κ} → Result A → (A → Result B) → Result B
err e >>= next = err e
ok value >>= next = next value

abbrev pub ◌>>◌ {ℓ κ} : {A : Type ℓ} → {B : Type κ} → Result A → Result B → Result B
err e >> next = err e
ok value >> next = next
