-- ===== src/Processing/Receive.antt =====
-- internal/application/command/media/process_upload.go: the tests of Handle, up to the switch over the
-- type of the media. They change nothing.
pub mod Bounds
use notai_api.Base.{
  List, Option, if◌then◌else◌, is_empty, length, ltb, none, not, some, take, ℕ, ◌++◌, ◌+◌,
}
use notai_api.Base.Int.{ltb_ℤ, pos, ℤ}
use notai_api.Base.Text.{Text, codes, trim_space}
use notai_api.Base.Values.{Uuid}
use notai_api.Errors.{Err, Result, err, file_too_large, ok, refuse_if, ◌>>=◌, ◌>>◌}
use notai_api.Media.Entity.{Media, max_bytes_for}
use notai_api.Media.Files.{ext, trim_dot}
use notai_api.Media.Types.{MediaType, image, other_type, video}
use notai_api.Processing.Ports.{Ports}
use notai_api.Quota.Assert.{
  assert_file_size, assert_media_upload, assert_storage_reserve, is_positive,
}
use notai_api.Quota.Types.{QuotaUsageView}

pub record ProcessUploadCommand : Type 0 where
  pub object_key : Text
  pub content_type : Text
  pub size : ℤ

-- What Handle knows of an upload that passed its tests: `size`, `contentType` and `raw`.
pub record Received : Type 0 where
  pub size : ℤ
  pub content_type : Text
  pub raw : List ℕ

-- `if err := ...; err != nil { return err }`
abbrev pub stop_at : Option Err → Result (Unit {0})
stop_at none = ok tt
stop_at (some e) = err e

abbrev pub content_type_of : Text → Text → Text → MediaType → Text
content_type_of given stored key t =
    let e = trim_dot (ext key) in
    let guess : Text = elim t [
      | image ↦ codes "image/" ++ e
      | video ↦ codes "video/" ++ e
      | other_type x ↦ codes "application/octet-stream"
    ] in
    let c = trim_space given in
    if not (is_empty c) then c else if not (is_empty stored) then stored else guess

-- The tests on the size that the command reports.
unfoldable pub reported_fits : Result QuotaUsageView → MediaType → ℤ → Result (Unit {0})
reported_fits usage t size = do
  stop_at (assert_media_upload usage t (if is_positive size then some size else none))
  stop_at (if is_positive size then assert_file_size usage size else none)
  stop_at (if is_positive size then assert_storage_reserve usage size else none)

-- The tests on the size that was found.
unfoldable pub found_fits : Result QuotaUsageView → ℤ → Result (Unit {0})
found_fits usage size = do
  stop_at (assert_file_size usage size)
  stop_at (assert_storage_reserve usage size)

abbrev pub with_quota :
    {S : Type 0}
    → Option (Uuid → S → Result QuotaUsageView)
    → Uuid
    → S
    → (Result QuotaUsageView → Result (Unit {0}))
    → Result (Unit {0})
with_quota none client s test = ok tt
with_quota (some usage) client s test = test (usage client s)

module _ {S : Type 0} (ports : Ports S) where
  unfoldable pub receive : ProcessUploadCommand → Text → Media → S → Result Received
  unfolding max_bytes_for
  receive cmd key m s = do
    with_quota ports.usage m.client_id s (λ u. reported_fits u m.media_type cmd.size)
    refuse_if (ltb_ℤ (pos (max_bytes_for m.media_type)) cmd.size) file_too_large
    body ← ports.get_object key s
    let raw = take (max_bytes_for m.media_type + 1) body
    refuse_if (ltb (max_bytes_for m.media_type) (length raw)) file_too_large
    let size = if is_positive cmd.size then cmd.size else pos (length raw)
    with_quota ports.usage m.client_id s (λ u. found_fits u size)
    ok (record {
      size = size;
      content_type = content_type_of cmd.content_type m.content_type key m.media_type;
      raw = raw;
    })
